-- ===== src/LoanRequests/Review.antt =====
-- A request that was reviewed stays as it was decided.
use nelson_lending_v.Prelude.{
  ℕ, ◌≡◌, ◌∙◌, refl, sym, ap, arith, Bool, not, ◌==◌, ==_iff, ==_refl, List, [], Option, none, some,
}
use nelson_lending_v.Prelude.Result.{
  Result, ok, err, ◌>>=◌, ◌>>◌, raise_if, >>=-eq-ok, raise_if-eq_ok, ok_injective, request_state,
}
use nelson_lending_v.Store.{Store, Clock}
use nelson_lending_v.Store.Rows.{
  Text, LoanRequest, NotificationOutbox, approved, Template, request_approved, PayloadField,
  PayloadValue,
}
use nelson_lending_v.Store.Table.{one_or_none, one_or_none-found, one_or_none-update, update}
use nelson_lending_v.Notifications.{
  Notice, check_notice, identity_of, outbox_of, unless_enqueued, enqueue_notification,
}
use nelson_lending_v.LoanRequests.{
  is_pending, notice_of, found_request_row, save_request, pending_request, by_id, reviewed,
  store_review, approve_loan_request, reject_loan_request,
}

unless_enqueued_keeps :
    (existing : Option NotificationOutbox) (row : NotificationOutbox) (s : Store)
    → (unless_enqueued existing row s).1.loan_requests ≡ s.loan_requests
unless_enqueued_keeps none row s = refl
unless_enqueued_keeps (some e) row s = refl

enqueue_keeps_requests :
    (clock : Clock) (n : Notice) (s : Store) {o : NotificationOutbox} {s' : Store}
    → enqueue_notification clock n s ≡ ok (o, s')
    → s'.loan_requests ≡ s.loan_requests
unfolding enqueue_notification
enqueue_keeps_requests clock n s h =
    let key = clock.digest (identity_of n) in
    let (checked, ec, h1) =
      >>=-eq-ok (check_notice n)
        (λ c. one_or_none (λ (o : NotificationOutbox). o.idempotency_key == key) s.outbox >>= λ e.
          ok (unless_enqueued e (outbox_of clock s.next_id n) s))
        h in
    let (existing, eo, h2) =
      >>=-eq-ok (one_or_none (λ (o : NotificationOutbox). o.idempotency_key == key) s.outbox)
        (λ e. ok (unless_enqueued e (outbox_of clock s.next_id n) s)) h1 in
    ap (λ r. r.1.loan_requests) (sym (ok_injective h2))
    ∙ unless_enqueued_keeps existing (outbox_of clock s.next_id n) s

found_request_row-eq_ok :
    (row : Option LoanRequest) {r : LoanRequest} → found_request_row row ≡ ok r → row ≡ some r
found_request_row-eq_ok none h = ground (arith, h)
found_request_row-eq_ok (some x) h = ap some (ok_injective h)

pending_request-eq_ok :
    (test : LoanRequest → Bool) (s : Store) {r : LoanRequest}
    → pending_request test s ≡ ok r
    → one_or_none test s.loan_requests ≡ ok (some r)
unfolding pending_request
pending_request-eq_ok test s h =
    let check : LoanRequest → Result LoanRequest =
      λ r. raise_if (not (is_pending r.status)) request_state >> ok r in
    let (row, erow, h1) =
      >>=-eq-ok (one_or_none test s.loan_requests) (λ x. found_request_row x >>= check) h in
    let (r, er, h2) = >>=-eq-ok (found_request_row row) check h1 in
    let (waiting, h3) = raise_if-eq_ok (not (is_pending r.status)) request_state (ok r) h2 in
    erow ∙ ap ok (found_request_row-eq_ok row er ∙ ap some (ok_injective h3))

-- The row that a review of request `request_id` leaves under its id.
store_review-found :
    (clock : Clock) (template : Template) (more : List (PayloadField × PayloadValue))
    (request_id : ℕ) (old r : LoanRequest) (s : Store) {done : LoanRequest} {s' : Store}
    → one_or_none (by_id request_id) s.loan_requests ≡ ok (some old)
    → r.id ≡ old.id
    → store_review clock template more r s ≡ ok (done, s')
    → one_or_none (by_id request_id) s'.loan_requests ≡ ok (some r)
unfolding store_review
store_review-found clock template more request_id old r s at_old same_id h =
    let (notice, e, h1) =
      >>=-eq-ok (enqueue_notification clock (notice_of template r more) (save_request r s))
        (λ n. ok (r, n.1)) h in
    let hit = one_or_none-found (by_id request_id) s.loan_requests at_old in
    let is_id = same_id ∙ (==_iff old.id request_id).0 hit in
    ap (λ x. one_or_none (by_id request_id) x.1.loan_requests) (sym (ok_injective h1))
    ∙ ap (one_or_none (by_id request_id))
        (enqueue_keeps_requests clock (notice_of template r more) (save_request r s) e)
    ∙ ap
        (λ i.
          one_or_none (by_id request_id)
            (update (λ (x : LoanRequest). x.id == i) (λ x. r) s.loan_requests))
        is_id
    ∙ one_or_none-update (by_id request_id) r s.loan_requests at_old (rw is_id (==_refl request_id))

-- A request that was approved can, at any later time and by any owner, be neither approved nor
-- rejected again.
pub approve_loan_request_final :
    (clock later : Clock) (owner_id other_id request_id : ℕ) (note other_note : Option Text)
    (s : Store) {done : LoanRequest} {s' : Store}
    → approve_loan_request clock owner_id request_id note s ≡ ok (done, s')
    → (approve_loan_request later other_id request_id other_note s' ≡ err request_state)
      × (reject_loan_request later other_id request_id other_note s' ≡ err request_state)
unfolding approve_loan_request reject_loan_request pending_request
approve_loan_request_final clock later owner_id other_id request_id note other_note s h =
    let review = reviewed approved clock owner_id note in
    let (r, e, h1) =
      >>=-eq-ok (pending_request (by_id request_id) s)
        (λ r. store_review clock request_approved [] (review r) s) h in
    let found =
      store_review-found clock request_approved [] request_id r (review r) s
        (pending_request-eq_ok (by_id request_id) s e) refl h1 in
    (rw (found, pending_request) refl, rw (found, pending_request) refl)
