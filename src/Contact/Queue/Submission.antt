-- ===== src/Contact/Queue/Submission.antt =====
-- A target has one open request at most.
use pishoo.Base.{
  ℕ, ◌≡◌, refl, true, false, ◌&&◌, Option, List, [], ◌∷◌, Bool-cases, inl, inr, arith, any, Text,
  leb, err, ◌↔◌, chars,
}
use pishoo.Contact.Queue.{Row, is_open, is_open_for, expire_row, expire_requests, new_row, submit}

-- No two rows of one target are queued or pending.
abbrev pub HasOneOpen : List Row → Type 0
HasOneOpen [] = Unit
HasOneOpen (r ∷ rows) =
    (is_open r.status ≡ true → any (is_open_for r.target) rows ≡ false) × HasOneOpen rows

is_open-expire_row :
    (now : ℕ) (r : Row) (target : Text)
    → is_open_for target r ≡ false
    → is_open_for target (expire_row now r) ≡ false
unfolding expire_row
is_open-expire_row now r target h = ground arith

expire-any :
    (now : ℕ) (target : Text) (rows : List Row)
    → any (is_open_for target) rows ≡ false
    → any (is_open_for target) (expire_requests now rows) ≡ false
unfolding expire_requests
expire-any now target [] h = refl
expire-any now target (r ∷ rows) h =
    ground (arith, is_open-expire_row now r target, expire-any now target rows)

expire_row-keeps :
    (now : ℕ) (r : Row) → is_open (expire_row now r).status ≡ true → (expire_row now r) ≡ r
unfolding expire_row
expire_row-keeps now r h = elim (Bool-cases (is_open r.status && leb r.expired_after now)) [
  | inl over ↦ ground arith
  | inr keep ↦ rw keep
]

expire-HasOneOpen :
    (now : ℕ) (rows : List Row) → HasOneOpen rows → HasOneOpen (expire_requests now rows)
unfolding expire_requests
expire-HasOneOpen now [] h = tt
expire-HasOneOpen now (r ∷ rows) (one, h) = (
  (λ open_now.
      let same = expire_row-keeps now r open_now in
      rw same (expire-any now r.target rows (one (rw same at open_now)))),
  expire-HasOneOpen now rows h,
)

-- A submission keeps it so that a target has one open request at most, and is refused with 409
-- exactly when an open request to its target has not expired.
pub submit-HasOneOpen :
    (id now : ℕ) (target : Text) (valid_before : ℕ) (contact : Option ℕ) (subject : Option Text)
    (rows : List Row)
    → HasOneOpen rows
    → HasOneOpen (submit id now target valid_before contact subject rows).1
      × (((submit id now target valid_before contact subject rows).0
            ≡ err (409, chars "contact request already pending"))
          ↔ (any (is_open_for target) (expire_requests now rows) ≡ true))
unfolding submit new_row
submit-HasOneOpen id now target valid_before contact subject rows h =
    let current = expire-HasOneOpen now rows h in
    elim (Bool-cases (any (is_open_for target) (expire_requests now rows))) [
      | inl taken ↦ rw taken (current, ((λ e. refl), λ e. refl))
      | inr free ↦ rw free (((λ e. free), current), ((λ e. cc), λ e. cc))
    ]
