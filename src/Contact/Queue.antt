-- ===== src/Contact/Queue.antt =====
-- The table `outbound_contact_request` and the transactions on it: `expire_requests` of
-- src/contact/storage.rs, the claim and the result of a delivery in src/contact/delivery.rs, and
-- the submission and revocation of requests in src/contact.rs. A row has the columns that these
-- statements read or write; the description, capabilities and snapshots ride along unread. Times
-- are seconds after 1970. `now` is the time of the transaction.
pub mod Claims
pub mod Leases
pub mod Submission
mod Tests
use pishoo.Base.{
  ℕ, ◌+◌, String, Bool, true, false, not, ◌&&◌, ◌||◌, Option, none, some, List, [], ◌∷◌, ◌++◌, map,
  Text, chars, text_eq, ltb, leb, ◌==◌, any, filter, is_none, if◌then◌else◌, Result, ok, err, ◌>>=◌,
  ◌>>◌, refuse_if, min,
}

pub data Status : Type 0 where
  queued pending active denied expired failed revoked : Status

pub record PendingReview : Type 0 where
  pub id : ℕ
  pub subject : Text
  pub method : Text
  pub path : Text

pub record Row : Type 0 where
  pub id : ℕ
  pub target : Text
  pub status : Status
  pub expired_after : ℕ
  pub delivery_deadline : ℕ
  pub remote_expired_after : Option ℕ
  pub next_attempt_at : ℕ
  pub attempt_count : ℕ
  pub lease_until : Option ℕ
  pub review : Option PendingReview
  pub last_checked_at : Option ℕ
  pub error_message : Option Text
  pub updated_at : ℕ
  pub contact_id : Option ℕ
  pub contact_subject : Option Text

-- The HTTP status and the message of a failure.
abbrev pub Failure : Type 0
Failure = ℕ × Text

abbrev pub is_open : Status → Bool
is_open queued = true
is_open pending = true
is_open s = false

abbrev pub is_active : Status → Bool
is_active active = true
is_active s = false

abbrev pub is_queued : Status → Bool
is_queued queued = true
is_queued s = false

abbrev pub is_revoked : Status → Bool
is_revoked revoked = true
is_revoked s = false

unfoldable pub expire_row : ℕ → Row → Row
expire_row now r =
    if is_open r.status && leb r.expired_after now
    then record r {
      status = if is_queued r.status then failed else expired;
      lease_until = none;
      updated_at = now;
      error_message = some (chars "contact request expired");
    }
    else r

unfoldable pub expire_requests : ℕ → List Row → List Row
expire_requests now [] = []
expire_requests now (r ∷ rows) = expire_row now r ∷ expire_requests now rows

abbrev pub lease_over : ℕ → Option ℕ → Bool
lease_over now none = true
lease_over now (some lease) = leb lease now

-- The `WHERE` of the query for a job.
unfoldable pub is_due : ℕ → Row → Bool
is_due now r =
    (is_open r.status || is_active r.status)
    && leb r.next_attempt_at now
    && (is_active r.status || ltb now r.expired_after)
    && lease_over now r.lease_until

-- `ORDER BY next_attempt_at,id`
abbrev pub is_before : Row → Row → Bool
is_before a b =
    ltb a.next_attempt_at b.next_attempt_at
    || (a.next_attempt_at == b.next_attempt_at && leb a.id b.id)

abbrev pub pick : ℕ → Row → Option Row → Option Row
pick now r none = if is_due now r then some r else none
pick now r (some best) = if is_due now r && is_before r best then some r else some best

unfoldable pub next_job : ℕ → List Row → Option Row
next_job now [] = none
next_job now (r ∷ rows) = pick now r (next_job now rows)

-- `UPDATE ... WHERE id=?`
unfoldable pub update_id : ℕ → (Row → Row) → List Row → List Row
update_id id f [] = []
update_id id f (r ∷ rows) = (if r.id == id then f r else r) ∷ update_id id f rows

abbrev pub lease_of : ℕ → ℕ
lease_of now = now + 120

-- The first transaction of `deliver`: the job, if one is due, and its lease.
unfoldable pub claim : ℕ → List Row → Option Row × List Row
claim now rows =
    let current = expire_requests now rows in
    elim (next_job now current) [
      | none ↦ (none, current)
      | some job ↦
          (some job, update_id job.id (λ r. record r { lease_until = some (lease_of now) }) current)
    ]

-- `id=? AND lease_until=?`
abbrev pub holds_lease : ℕ → Row → Bool
holds_lease lease r = elim r.lease_until [ none ↦ false | some l ↦ l == lease ]

unfoldable pub update_leased : ℕ → ℕ → (Row → Row) → List Row → List Row
update_leased id lease f [] = []
update_leased id lease f (r ∷ rows) =
    (if r.id == id && holds_lease lease r then f r else r) ∷ update_leased id lease f rows

-- The contact that the delivery found is bound once.
abbrev pub bind_row : ℕ → Text → Row → Row
bind_row contact subject r =
    if is_none r.contact_id
    then record r { contact_id = some contact; contact_subject = some subject }
    else r

unfoldable pub bind_contact : ℕ → ℕ → ℕ → Text → List Row → List Row
bind_contact id lease contact subject rows = update_leased id lease (bind_row contact subject) rows

-- A receipt that was accepted: its status and its `valid_before`.
pub record Receipt : Type 0 where
  pub status : Status
  pub valid_before : ℕ

abbrev pub is_pending : Status → Bool
is_pending pending = true
is_pending s = false

unfoldable pub delivered_row : ℕ → Receipt → Row → Row
delivered_row now receipt r = record r {
  status = receipt.status;
  remote_expired_after = some receipt.valid_before;
  expired_after =
      if is_pending receipt.status
      then min r.delivery_deadline receipt.valid_before
      else r.expired_after;
  last_checked_at = some now;
  next_attempt_at = now + (if is_active receipt.status then 30 else 3);
  attempt_count = r.attempt_count + 1;
  error_message = none;
  lease_until = none;
  updated_at = now;
}

abbrev pub is_final : ℕ → Bool
is_final code = code == 400 || code == 403 || code == 404 || code == 409 || code == 410

unfoldable pub needs_review : Text → Bool
unfolding text_eq
needs_review error = text_eq error (chars "need_review")

unfoldable pub failed_row : ℕ → Failure → Row → Row
unfolding needs_review
failed_row now (code, error) r = record r {
  status = if not (needs_review error) && is_final code then failed else r.status;
  attempt_count = r.attempt_count + (if needs_review error then 0 else 1);
  error_message = some error;
  next_attempt_at = now + (if needs_review error then 30 else 5);
  lease_until = none;
  last_checked_at = some now;
  updated_at = now;
}

abbrev pub outcome_row : ℕ → Result Failure Receipt → Row → Row
outcome_row now (ok receipt) r = delivered_row now receipt r
outcome_row now (err failure) r = failed_row now failure r

-- The last transaction of `deliver`, before its commit: the review, then the outcome.
unfoldable pub finish :
    ℕ → ℕ → ℕ → Option PendingReview → Result Failure Receipt → List Row → List Row
finish now id lease review outcome rows =
    update_leased id lease (outcome_row now outcome)
      (update_leased id lease (λ r. record r { review = review }) rows)

-- `rows.iter().any(|row| row.3.is_some_and(|lease| lease > now()))` of one target
abbrev pub in_delivery : ℕ → Text → Row → Bool
in_delivery now target r =
    text_eq r.target target
    && not (is_revoked r.status)
    && elim r.lease_until [ none ↦ false | some lease ↦ ltb now lease ]

-- What is kept of a row that is revoked: its id, status and time of change.
abbrev pub Previous : Type 0
Previous = ℕ × Status × ℕ

unfoldable pub previous_of : Text → List Row → List Previous
previous_of target [] = []
previous_of target (r ∷ rows) =
    let rest = previous_of target rows in
    if text_eq r.target target && not (is_revoked r.status)
    then (r.id, r.status, r.updated_at) ∷ rest
    else rest

unfoldable pub revoke_target : ℕ → Text → List Row → List Row
revoke_target now target [] = []
revoke_target now target (r ∷ rows) =
    (if text_eq r.target target
      then record r { status = revoked; lease_until = none; updated_at = now }
      else r)
    ∷ revoke_target now target rows

-- The transaction that revokes the requests to the targets; an error rolls it back.
unfoldable pub revoke :
    ℕ → List Text → List Previous → List Row → Result Failure (List Previous × List Row)
revoke now [] previous rows = ok (previous, rows)
revoke now (target ∷ targets) previous rows = do
  refuse_if (any (in_delivery now target) rows)
      (409, chars "contact delivery is in progress; retry deletion")
  revoke now targets (previous ++ previous_of target rows) (revoke_target now target rows)

-- `UPDATE ... SET status=?1,updated_at=?2 WHERE id=?3 AND status='revoked'`
abbrev pub restore_row : ℕ → Status → ℕ → Row → Row
restore_row id status updated r =
    if r.id == id && is_revoked r.status
    then record r { status = status; updated_at = updated }
    else r

unfoldable pub restore_one : ℕ → Status → ℕ → List Row → List Row
restore_one id status updated [] = []
restore_one id status updated (r ∷ rows) =
    restore_row id status updated r ∷ restore_one id status updated rows

unfoldable pub restore : List Previous → List Row → List Row
restore [] rows = rows
restore ((id, status, updated) ∷ previous) rows =
    restore previous (restore_one id status updated rows)

-- The columns of a new request that the sender decides.
unfoldable pub new_row : ℕ → ℕ → Text → ℕ → Option ℕ → Option Text → Row
new_row id now target valid_before contact subject = record {
  id = id;
  target = target;
  status = queued;
  expired_after = valid_before;
  delivery_deadline = valid_before;
  remote_expired_after = none;
  next_attempt_at = now;
  attempt_count = 0;
  lease_until = none;
  review = none;
  last_checked_at = none;
  error_message = none;
  updated_at = now;
  contact_id = contact;
  contact_subject = subject;
}

abbrev pub is_open_for : Text → Row → Bool
is_open_for target r = text_eq r.target target && is_open r.status

-- `POST /std/contact`: expiry stays when the request is refused. `id` is the next row id.
unfoldable pub submit :
    ℕ → ℕ → Text → ℕ → Option ℕ → Option Text → List Row → Result Failure ℕ × List Row
submit id now target valid_before contact subject rows =
    let current = expire_requests now rows in
    if any (is_open_for target) current
    then (err (409, chars "contact request already pending"), current)
    else (ok id, new_row id now target valid_before contact subject ∷ current)
