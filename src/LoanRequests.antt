-- ===== src/LoanRequests.antt =====
-- backend/app/features/loan_requests/service.py: a borrower's request for a loan and its review.
pub mod Review
mod Examples
use nelson_lending_v.Prelude.{
  ℕ, ◌+◌, Bool, true, false, not, ◌&&◌, ◌==◌, if◌then◌else◌, List, [], ◌∷◌, ◌++◌, Option, none,
  some,
}
use nelson_lending_v.Prelude.Int.{ℤ}
use nelson_lending_v.Prelude.Result.{
  Result, ok, err, raise_if, ◌>>=◌, ◌>>◌, request_not_found, request_conflict, request_state,
  rate_unconfigured,
}
use nelson_lending_v.Decimal.{Decimal, zero_money, lt, quantize_money, quantize_rate}
use nelson_lending_v.Calendar.{Date}
use nelson_lending_v.Calculator.DueDates.{PaymentFrequency}
use nelson_lending_v.Calculator.Quote.{calculate_quote}
use nelson_lending_v.Notifications.{Notice, enqueue_notification}
use nelson_lending_v.Store.{Store, Clock}
use nelson_lending_v.Store.Rows.{
  Text, LoanRequest, RequestStatus, pending, approved, rejected, request_cancelled,
  request_submitted, request_approved, request_rejected, Template, loan_request_aggregate, borrower,
  in_app, PayloadField, PayloadValue, loan_request_id_field, requested_principal_field,
  rejection_reason, id_string, money_string, text_string,
}
use nelson_lending_v.Store.Table.{one_or_none, update, is_some}

unfoldable pub get_business_estimate_rate : Store → Result Decimal
get_business_estimate_rate s = elim s.estimate_rate [
  | none ↦ err rate_unconfigured
  | some rate ↦ ok rate
]

abbrev pub is_pending : RequestStatus → Bool
is_pending pending = true
is_pending approved = false
is_pending rejected = false
is_pending request_cancelled = false

-- The arguments of `submit_loan_request`.
pub record Application : Type 0 where
  pub borrower_id : ℕ
  pub principal : Decimal
  pub term_months : ℤ
  pub payment_frequency : PaymentFrequency
  pub first_due_date : Date

abbrev pub has_pending : ℕ → LoanRequest → Bool
has_pending borrower_id r = (r.borrower_id == borrower_id) && is_pending r.status

abbrev pub notice_of : Template → LoanRequest → List (PayloadField × PayloadValue) → Notice
notice_of template r more = record {
  event_type = template;
  aggregate_type = loan_request_aggregate;
  aggregate_id = r.id;
  recipient_type = borrower;
  recipient_id = r.borrower_id;
  template_key = template;
  payload =
      (loan_request_id_field, id_string r.id)
      ∷ (requested_principal_field, money_string r.requested_principal)
      ∷ more;
  channel = in_app;
  max_attempts = 5;
}

abbrev pub request_of : ℕ → Clock → Application → (principal rate : Decimal) → LoanRequest
request_of id clock a principal rate = record {
  id = id;
  borrower_id = a.borrower_id;
  requested_principal = principal;
  requested_monthly_rate = rate;
  requested_term_months = a.term_months;
  requested_payment_frequency = a.payment_frequency;
  requested_first_due_date = a.first_due_date;
  status = pending;
  submitted_at = clock.now;
  reviewed_at = none;
  reviewed_by_owner_id = none;
  owner_note = none;
}

-- The flush: a violated CHECK, like any `IntegrityError`, is reported as a conflict. After
-- `calculate_quote` only the one on the rounded principal can be violated.
unfoldable pub store_request : Clock → LoanRequest → Store → Result (LoanRequest × Store)
unfolding enqueue_notification
store_request clock r s = do
  raise_if (not (lt zero_money r.requested_principal)) request_conflict
  let added = record s { next_id = s.next_id + 1; loan_requests = s.loan_requests ++ (r ∷ []) }
  notice ← enqueue_notification clock (notice_of request_submitted r []) added
  ok (r, notice.1)

unfoldable pub submit_loan_request : Clock → Application → Store → Result (LoanRequest × Store)
unfolding get_business_estimate_rate store_request
submit_loan_request clock a s = do
  monthly_rate ← get_business_estimate_rate s
  existing ← one_or_none (has_pending a.borrower_id) s.loan_requests
  raise_if (is_some existing) request_conflict
  quote ←
      calculate_quote a.principal monthly_rate a.term_months a.payment_frequency a.first_due_date
  principal ← quantize_money a.principal
  rate ← quantize_rate monthly_rate
  store_request clock (request_of s.next_id clock a principal rate) s

abbrev pub found_request_row : Option LoanRequest → Result LoanRequest
found_request_row none = err request_not_found
found_request_row (some r) = ok r

abbrev pub save_request : LoanRequest → Store → Store
save_request r s = record s {
  loan_requests = update (λ (x : LoanRequest). x.id == r.id) (λ x. r) s.loan_requests;
}

-- The row of the query, which must be pending.
unfoldable pub pending_request : (LoanRequest → Bool) → Store → Result LoanRequest
pending_request test s = do
  row ← one_or_none test s.loan_requests
  r ← found_request_row row
  raise_if (not (is_pending r.status)) request_state
  ok r

abbrev pub by_id : ℕ → LoanRequest → Bool
by_id request_id r = r.id == request_id

unfoldable pub cancel_borrower_loan_request : ℕ → ℕ → Store → Result (LoanRequest × Store)
unfolding pending_request
cancel_borrower_loan_request borrower_id request_id s = do
  r ← pending_request (λ r. by_id request_id r && (r.borrower_id == borrower_id)) s
  let done = record r { status = request_cancelled }
  ok (done, save_request done s)

abbrev pub reviewed : RequestStatus → Clock → ℕ → Option Text → LoanRequest → LoanRequest
reviewed status clock owner_id owner_note r = record r {
  status = status;
  reviewed_at = some clock.now;
  reviewed_by_owner_id = some owner_id;
  owner_note = owner_note;
}

-- The row and the notification of a review.
unfoldable pub store_review :
    Clock
    → Template
    → List (PayloadField × PayloadValue)
    → LoanRequest
    → Store
    → Result (LoanRequest × Store)
unfolding enqueue_notification
store_review clock template more r s = do
  notice ← enqueue_notification clock (notice_of template r more) (save_request r s)
  ok (r, notice.1)

unfoldable pub approve_loan_request :
    Clock → ℕ → ℕ → Option Text → Store → Result (LoanRequest × Store)
unfolding pending_request store_review
approve_loan_request clock owner_id request_id owner_note s = do
  r ← pending_request (by_id request_id) s
  store_review clock request_approved [] (reviewed approved clock owner_id owner_note r) s

-- "Not specified"
abbrev pub not_specified : Text
not_specified = 78 ∷ 111 ∷ 116 ∷ 32 ∷ 115 ∷ 112 ∷ 101 ∷ 99 ∷ 105 ∷ 102 ∷ 105 ∷ 101 ∷ 100 ∷ []

-- `req.owner_note or "Not specified"`
abbrev pub reason_of : Option Text → Text
reason_of none = not_specified
reason_of (some []) = not_specified
reason_of (some (c ∷ rest)) = c ∷ rest

unfoldable pub reject_loan_request :
    Clock → ℕ → ℕ → Option Text → Store → Result (LoanRequest × Store)
unfolding pending_request store_review
reject_loan_request clock owner_id request_id owner_note s = do
  r ← pending_request (by_id request_id) s
  store_review clock request_rejected ((rejection_reason, text_string (reason_of owner_note)) ∷ [])
      (reviewed rejected clock owner_id owner_note r) s
