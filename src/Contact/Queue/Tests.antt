-- ===== src/Contact/Queue/Tests.antt =====
-- Two requests and two workers.
use pishoo.Base.{
  ◌≡◌, ◌≢◌, refl, true, none, some, List, [], ◌∷◌, chars, text_eq, any, All, In, err, arith, ◌↔◌,
}
use pishoo.Contact.Queue.{
  Row, is_before, is_due, is_open_for, expire_row, expire_requests, next_job, update_id,
  update_leased, claim, delivered_row, needs_review, failed_row, finish, submit, new_row,
  previous_of, revoke_target, revoke, restore, restore_one, bind_contact,
}
use pishoo.Contact.Queue.Claims.{IsDue, claim-IsDue}
use pishoo.Contact.Queue.Leases.{done, claim-exclusive}
use pishoo.Contact.Queue.Submission.{HasOneOpen, submit-HasOneOpen}

queue : Unit {0}
unfolding expire_row expire_requests is_due next_job update_id update_leased claim delivered_row
    needs_review failed_row finish submit new_row previous_of revoke_target revoke restore
    restore_one bind_contact text_eq
queue = tt

abbrev first_row : Row
first_row = unfold new_row in new_row 1 100 (chars "ann") 500 none none

abbrev second_row : Row
second_row = unfold new_row in new_row 2 90 (chars "bob") 500 none none

abbrev rows : List Row
rows = first_row ∷ second_row ∷ []

first_claim : (claim 100 rows).0 ≡ some second_row
unfolding queue
first_claim = refl

second_claim : (claim 130 (claim 100 rows).1).0 ≡ some first_row
unfolding queue
second_claim = refl

claim-IsDue_example :
    In second_row (expire_requests 100 rows)
    × IsDue 100 second_row
    × All (λ r. is_due 100 r ≡ true → is_before second_row r ≡ true) (expire_requests 100 rows)
claim-IsDue_example = claim-IsDue 100 rows second_row first_claim

claim-exclusive_example : first_row.id ≢ second_row.id
claim-exclusive_example =
    claim-exclusive 100 rows second_row (claim 100 rows).1 130 first_row first_claim done
      (omega arith) second_claim

one_open_rows : HasOneOpen rows
unfolding queue
one_open_rows = ((λ e. refl), ((λ e. refl), tt))

submit-HasOneOpen_example :
    HasOneOpen (submit 3 100 (chars "ann") 400 none none rows).1
    × (((submit 3 100 (chars "ann") 400 none none rows).0
          ≡ err (409, chars "contact request already pending"))
        ↔ (any (is_open_for (chars "ann")) (expire_requests 100 rows) ≡ true))
submit-HasOneOpen_example = submit-HasOneOpen 3 100 (chars "ann") 400 none none rows (one_open_rows)

revoke_refused :
    revoke 130 (chars "bob" ∷ []) [] (claim 100 rows).1
    ≡ err (409, chars "contact delivery is in progress; retry deletion")
unfolding queue
revoke_refused = refl
