-- ===== src/Contact/Queue/Claims.antt =====
-- Which job is claimed.
use pishoo.Base.{
  ◌⊎◌, subst, sym, ℕ, ◌≤◌, ◌<◌, ◌≡◌, true, false, ◌&&◌, ◌||◌, Option, none, some, List, [], ◌∷◌,
  All, In, here, there, Option-cases, Bool-cases, inl, inr, arith,
}
use pishoo.Contact.Queue.{
  Row, Status, queued, pending, active, is_open, is_active, expire_requests, lease_over, is_due,
  is_before, pick, next_job, claim,
}

-- `pick` keeps the old choice or takes the row, and the row only if it is due.
pick-cases :
    (now : ℕ) (r : Row) (o : Option Row) {job : Row}
    → pick now r o ≡ some job
    → ((r ≡ job) × (is_due now r ≡ true)) ⊎ (o ≡ some job)
pick-cases now r none h = ground arith
pick-cases now r (some best) h = ground arith

pub next_job_sound :
    (now : ℕ) (rows : List Row) {job : Row}
    → next_job now rows ≡ some job
    → In job rows × (is_due now job ≡ true)
unfolding next_job
next_job_sound now [] h = cc
next_job_sound now (r ∷ rows) {job} h = elim (pick-cases now r (next_job now rows) h) [
  | inl (mine, due) ↦ (here mine, rw (← mine) due)
  | inr theirs ↦ let (m, due) = next_job_sound now rows theirs in (there m, due)
]

abbrev IsFirst : ℕ → Row → Row → Type 0
IsFirst now job r = is_due now r ≡ true → is_before job r ≡ true

is_before_trans : (a b c : Row) → is_before a b ≡ true → is_before b c ≡ true → is_before a c ≡ true
is_before_trans a b c h k = ground arith

is_before_total : (a b : Row) → is_before a b ≡ false → is_before b a ≡ true
is_before_total a b h = ground arith

is_before_refl : (a : Row) → is_before a a ≡ true
is_before_refl a = ground arith

next_job-none :
    (now : ℕ) (rows : List Row) → next_job now rows ≡ none → All (λ r. is_due now r ≡ false) rows
unfolding next_job
next_job-none now [] h = tt
next_job-none now (r ∷ rows) h = elim (Option-cases (next_job now rows)) [
  | inl empty ↦ (ground arith, next_job-none now rows empty)
  | inr (best, found) ↦ ground arith
]

All-IsFirst-trans :
    (now : ℕ) (a b : Row) (rows : List Row)
    → is_before a b ≡ true
    → All (IsFirst now b) rows
    → All (IsFirst now a) rows
All-IsFirst-trans now a b [] h k = tt
All-IsFirst-trans now a b (r ∷ rows) h (f, k) =
    ((λ due. is_before_trans a b r h (f due)), All-IsFirst-trans now a b rows h k)

All-IsFirst-none :
    (now : ℕ) (a : Row) (rows : List Row)
    → All (λ r. is_due now r ≡ false) rows
    → All (IsFirst now a) rows
All-IsFirst-none now a [] h = tt
All-IsFirst-none now a (r ∷ rows) (f, k) = ((λ due. cc), All-IsFirst-none now a rows k)

next_job-IsFirst :
    (now : ℕ) (rows : List Row) {job : Row}
    → next_job now rows ≡ some job
    → All (IsFirst now job) rows
unfolding next_job
next_job-IsFirst now [] h = tt
next_job-IsFirst now (r ∷ rows) {job} h = elim (Option-cases (next_job now rows)) [
  | inl empty ↦
      let e : r ≡ job = ground arith in
      (
        (λ due. subst (λ x. is_before job x ≡ true) (sym e) (is_before_refl job)),
        All-IsFirst-none now job rows (next_job-none now rows empty),
      )
  | inr (best, found) ↦
      let ih = next_job-IsFirst now rows {job = best} found in
      elim (Bool-cases (is_due now r && is_before r best)) [
        | inl mine ↦
            let e : r ≡ job = ground arith in
            let first : is_before r best ≡ true = ground arith in
            let before = subst (λ x. is_before x best ≡ true) e first in
            (
              (λ due. subst (λ x. is_before job x ≡ true) (sym e) (is_before_refl job)),
              All-IsFirst-trans now job best rows before ih,
            )
        | inr theirs ↦
            let e : best ≡ job = ground arith in
            (
              (λ due. subst (λ x. is_before x r ≡ true) e (is_before_total r best (ground arith))),
              subst (λ x. All (IsFirst now x) rows) e ih,
            )
      ]
]

-- The row is open or active, its time has come, it has not expired unless it is active, and no
-- lease on it is running.
pub record IsDue (now : ℕ) (r : Row) : Type 0 where
  pub live : (r.status ≡ queued) ⊎ (r.status ≡ pending) ⊎ (r.status ≡ active)
  pub time : r.next_attempt_at ≤ now
  pub unexpired : (r.status ≡ active) ⊎ (now < r.expired_after)
  pub free : lease_over now r.lease_until ≡ true

is_due_sound : (now : ℕ) (r : Row) → is_due now r ≡ true → IsDue now r
unfolding is_due
is_due_sound now r h = record {
  live = live_status r.status (ground arith);
  time = ground arith;
  unexpired = elim (Bool-cases (is_active r.status)) [
    | inl yes_active ↦ inl (active_status r.status yes_active)
    | inr no_active ↦ inr (ground arith)
  ];
  free = ground arith;
}
  where
    live_status :
        (s : Status)
        → (is_open s || is_active s) ≡ true
        → (s ≡ queued) ⊎ (s ≡ pending) ⊎ (s ≡ active)
    live_status s h = ground arith

    active_status : (s : Status) → is_active s ≡ true → s ≡ active
    active_status s h = ground arith

pub claim_job :
    (now : ℕ) (rows : List Row) {job : Row}
    → (claim now rows).0 ≡ some job
    → next_job now (expire_requests now rows) ≡ some job
unfolding claim
claim_job now rows h = ground arith

-- A job that is claimed is a row of the table as it is after expiry, it is due, and none that is
-- due comes before it by the time of the next attempt and then by id.
pub claim-IsDue :
    (now : ℕ) (rows : List Row) (job : Row)
    → (claim now rows).0 ≡ some job
    → In job (expire_requests now rows)
      × IsDue now job
      × All (λ r. is_due now r ≡ true → is_before job r ≡ true) (expire_requests now rows)
claim-IsDue now rows job h =
    let found = claim_job now rows h in
    let (m, due) = next_job_sound now (expire_requests now rows) found in
    (m, is_due_sound now job due, next_job-IsFirst now (expire_requests now rows) found)
