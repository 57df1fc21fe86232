-- ===== src/Contact/Queue/Leases.antt =====
-- A lease keeps a request to one worker.
use pishoo.Base.{
  any, ok, err, ℕ, ◌<◌, ◌≡◌, ◌≢◌, refl, true, false, ◌&&◌, ◌||◌, Option, none, some, List, [], ◌∷◌,
  All, All-In, Option-cases, Bool-cases, inl, inr, arith, leb, ◌==◌, ◌⊎◌, Text, Result,
}
use pishoo.Contact.Queue.{
  Row, is_open, is_active, is_due, expire_row, expire_requests, next_job, update_id, lease_of,
  claim, is_open_for, delivered_row, failed_row, update_leased, holds_lease, bind_row, bind_contact,
  Receipt, Failure, PendingReview, outcome_row, finish, submit, new_row,
}
use pishoo.Contact.Queue.Claims.{next_job_sound, claim_job}

-- A row whose delivery has not begun to an end: the worker's lease is on it, or it has been closed.
abbrev pub IsHeld : ℕ → Row → Type 0
IsHeld lease r =
    (r.lease_until ≡ some lease)
    ⊎ (((is_open r.status || is_active r.status) ≡ false) × (r.lease_until ≡ none))

abbrev pub IsGuarded : ℕ → ℕ → Row → Type 0
IsGuarded id lease r = r.id ≡ id → IsHeld lease r

module _ (id lease : ℕ) where
  expire_row-IsGuarded :
      (now : ℕ) (r : Row) → IsGuarded id lease r → IsGuarded id lease (expire_row now r)
  unfolding expire_row
  expire_row-IsGuarded now r g e = elim (Bool-cases (is_open r.status && leb r.expired_after now)) [
    | inl over ↦ inr (ground arith, ground arith)
    | inr keep ↦ rw keep (g (rw keep at e))
  ]

  expire-IsGuarded :
      (now : ℕ) (rows : List Row)
      → All (IsGuarded id lease) rows
      → All (IsGuarded id lease) (expire_requests now rows)
  unfolding expire_requests
  expire-IsGuarded now [] g = tt
  expire-IsGuarded now (r ∷ rows) (g, gs) =
      (expire_row-IsGuarded now r g, expire-IsGuarded now rows gs)

  -- A job that is due is not the one that is held.
  due_other :
      (now : ℕ) (r : Row) → now < lease → IsGuarded id lease r → is_due now r ≡ true → r.id ≢ id
  unfolding is_due
  due_other now r before g due e = elim (g e) [
    | inl held ↦ ground arith
    | inr (closed, none_left) ↦ ground arith
  ]

  update_other :
      (other : ℕ) (f : Row → Row) (rows : List Row)
      → other ≢ id
      → ((r : Row) → (f r).id ≡ r.id)
      → All (IsGuarded id lease) rows
      → All (IsGuarded id lease) (update_id other f rows)
  unfolding update_id
  update_other other f [] ne same g = tt
  update_other other f (r ∷ rows) ne same (g, gs) = (
    elim (Bool-cases (r.id == other)) [
      | inl this ↦ rw this (λ e. ground (arith, same r))
      | inr that ↦ rw that g
    ],
    update_other other f rows ne same gs,
  )

  claim-IsGuarded :
      (now : ℕ) (rows : List Row)
      → now < lease
      → All (IsGuarded id lease) rows
      → All (IsGuarded id lease) (claim now rows).1
  unfolding claim
  claim-IsGuarded now rows before g =
      let current = expire-IsGuarded now rows g in
      elim (Option-cases (next_job now (expire_requests now rows))) [
        | inl idle ↦ rw (idle, claim) current
        | inr (job, found) ↦
            let (m, due) = next_job_sound now (expire_requests now rows) found in
            let other = due_other now job before (All-In (IsGuarded id lease) _ current m) due in
            rw (found, claim)
              (update_other job.id _ (expire_requests now rows) other (λ r. refl) current)
      ]

  -- Whoever has another lease changes nothing of a row that is held.
  update_leased_other :
      (id' lease' : ℕ) (f : Row → Row) (rows : List Row)
      → (id' ≢ id) ⊎ (lease' ≢ lease)
      → ((r : Row) → (f r).id ≡ r.id)
      → All (IsGuarded id lease) rows
      → All (IsGuarded id lease) (update_leased id' lease' f rows)
  unfolding update_leased
  update_leased_other id' lease' f [] ne same g = tt
  update_leased_other id' lease' f (r ∷ rows) ne same (g, gs) = (
    elim (Bool-cases (r.id == id' && holds_lease lease' r)) [
      | inl this ↦ rw this (λ e. absurd (conflict this ne (λ d. g d) (same r) e))
      | inr that ↦ rw that g
    ],
    update_leased_other id' lease' f rows ne same gs,
  )
    where
      conflict :
          (r.id == id' && holds_lease lease' r) ≡ true
          → (id' ≢ id) ⊎ (lease' ≢ lease)
          → IsGuarded id lease r
          → (f r).id ≡ r.id
          → (f r).id ≡ id
          → ⊥
      conflict this ne g same e =
          let mine : r.id ≡ id = omega arith in
          elim (g mine) [
            | inl held ↦ elim ne [ inl other_id ↦ ground arith | inr other_lease ↦ ground arith ]
            | inr (closed, free) ↦ ground arith
          ]

  submit-IsGuarded :
      (new now : ℕ) (target : Text) (valid_before : ℕ) (contact : Option ℕ) (subject : Option Text)
      (rows : List Row)
      → new ≢ id
      → All (IsGuarded id lease) rows
      → All (IsGuarded id lease) (submit new now target valid_before contact subject rows).1
  unfolding submit new_row
  submit-IsGuarded new now target valid_before contact subject rows fresh g =
      let current = expire-IsGuarded now rows g in
      elim (Bool-cases (any (is_open_for target) (expire_requests now rows))) [
        | inl taken ↦ rw taken current
        | inr free ↦ rw free ((λ e. absurd (fresh e)), current)
      ]

-- What other workers, the owner and the clock do before the lease ends.
pub data Step (id lease : ℕ) : List Row → List Row → Type 0 where
  claims : {rows : List Row} (now : ℕ) → now < lease → Step id lease rows (claim now rows).1
  binds :
      {rows : List Row} (id' lease' contact : ℕ) (subject : Text)
      → (id' ≢ id) ⊎ (lease' ≢ lease)
      → Step id lease rows (bind_contact id' lease' contact subject rows)
  finishes :
      {rows : List Row} (now id' lease' : ℕ) (review : Option PendingReview)
      (outcome : Result Failure Receipt)
      → (id' ≢ id) ⊎ (lease' ≢ lease)
      → Step id lease rows (finish now id' lease' review outcome rows)
  submits :
      {rows : List Row} (new now : ℕ) (target : Text) (valid_before : ℕ) (contact : Option ℕ)
      (subject : Option Text)
      → new ≢ id
      → Step id lease rows (submit new now target valid_before contact subject rows).1

pub data Steps (id lease : ℕ) (rows : List Row) : List Row → Type 0 where
  done : Steps id lease rows rows
  next :
      {mid last : List Row}
      → Steps id lease rows mid
      → Step id lease mid last
      → Steps id lease rows last

id-bind_row : (contact : ℕ) (subject : Text) (r : Row) → (bind_row contact subject r).id ≡ r.id
id-bind_row contact subject r = ground arith

id-outcome_row :
    (now : ℕ) (outcome : Result Failure Receipt) (r : Row) → (outcome_row now outcome r).id ≡ r.id
unfolding delivered_row failed_row
id-outcome_row now (ok receipt) r = refl
id-outcome_row now (err (code, error)) r = refl

module _ (id lease : ℕ) where
  Step-IsGuarded :
      {rows last : List Row}
      → Step id lease rows last
      → All (IsGuarded id lease) rows
      → All (IsGuarded id lease) last
  unfolding bind_contact finish
  Step-IsGuarded (claims {rows} now before) g = claim-IsGuarded id lease now rows before g
  Step-IsGuarded (binds {rows} id' lease' contact subject ne) g =
      update_leased_other id lease id' lease' (bind_row contact subject) rows ne
        (id-bind_row contact subject) g
  Step-IsGuarded (finishes {rows} now id' lease' review outcome ne) g =
      update_leased_other id lease id' lease' (outcome_row now outcome)
        (update_leased id' lease' (λ r. record r { review = review }) rows) ne
        (id-outcome_row now outcome)
        (update_leased_other id lease id' lease' (λ r. record r { review = review }) rows ne
          (λ r. refl) g)
  Step-IsGuarded (submits {rows} new now target valid_before contact subject fresh) g =
      submit-IsGuarded id lease new now target valid_before contact subject rows fresh g

  Steps-IsGuarded :
      {rows last : List Row}
      → Steps id lease rows last
      → All (IsGuarded id lease) rows
      → All (IsGuarded id lease) last
  Steps-IsGuarded done g = g
  Steps-IsGuarded (next steps step) g = Step-IsGuarded step (Steps-IsGuarded steps g)

update_id-IsGuarded :
    (id lease : ℕ) (rows : List Row)
    → All (IsGuarded id lease) (update_id id (λ r. record r { lease_until = some lease }) rows)
unfolding update_id
update_id-IsGuarded id lease [] = tt
update_id-IsGuarded id lease (r ∷ rows) = (
  elim (Bool-cases (r.id == id)) [
    | inl this ↦ rw this (λ e. inl refl)
    | inr that ↦ rw that (λ e. ground arith)
  ],
  update_id-IsGuarded id lease rows,
)

claim-leases :
    (now : ℕ) (rows : List Row) (job : Row)
    → (claim now rows).0 ≡ some job
    → All (IsGuarded job.id (lease_of now)) (claim now rows).1
claim-leases now rows job h =
    let found = claim_job now rows h in
    unfold claim in
    rw (found, claim) (update_id-IsGuarded job.id (lease_of now) (expire_requests now rows))

-- A worker that claims a job has it to itself until its lease ends: whatever jobs other workers
-- claim, bind and finish under leases of their own, whatever requests are submitted and expire,
-- no claim before the end of the lease gives the same job.
pub claim-exclusive :
    (now : ℕ) (rows : List Row) (job : Row) (last : List Row) (later : ℕ) (other : Row)
    → (claim now rows).0 ≡ some job
    → Steps job.id (lease_of now) (claim now rows).1 last
    → later < lease_of now
    → (claim later last).0 ≡ some other
    → other.id ≢ job.id
claim-exclusive now rows job last later other h steps before h' =
    let guarded = Steps-IsGuarded job.id (lease_of now) steps (claim-leases now rows job h) in
    let current = expire-IsGuarded job.id (lease_of now) later last guarded in
    let (m, due) = next_job_sound later (expire_requests later last) (claim_job later last h') in
    due_other job.id (lease_of now) later other before
      (All-In (IsGuarded job.id (lease_of now)) (expire_requests later last) current m) due
