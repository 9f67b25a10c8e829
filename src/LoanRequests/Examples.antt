-- ===== src/LoanRequests/Examples.antt =====
-- A pending request is approved.
use nelson_lending_v.Prelude.{◌≡◌, refl, [], ◌∷◌, none}
use nelson_lending_v.Prelude.Int.{pos}
use nelson_lending_v.Prelude.Result.{ok, err, value_or, request_state}
use nelson_lending_v.Decimal.{decimal, cents}
use nelson_lending_v.Calendar.{Date}
use nelson_lending_v.Calculator.DueDates.{monthly}
use nelson_lending_v.Store.{Store, Clock, empty_store}
use nelson_lending_v.Store.Rows.{LoanRequest, pending}
use nelson_lending_v.LoanRequests.{approve_loan_request, reject_loan_request}
use nelson_lending_v.LoanRequests.Review.{approve_loan_request_final}

abbrev march : Date
march = record { year = 2026; month = 3; day = 1 }

abbrev clock : Clock
clock = record {
  today = march;
  now = record { instant = 1000; date = march };
  digest = λ i. i.aggregate_id;
}

abbrev request : LoanRequest
request = record {
  id = 2;
  borrower_id = 3;
  requested_principal = cents (pos 100000);
  requested_monthly_rate = decimal (pos 500000000) 10;
  requested_term_months = pos 2;
  requested_payment_frequency = monthly;
  requested_first_due_date = march;
  status = pending;
  submitted_at = clock.now;
  reviewed_at = none;
  reviewed_by_owner_id = none;
  owner_note = none;
}

abbrev store : Store
store = record (empty_store 10) { loan_requests = request ∷ [] }

abbrev after : LoanRequest × Store
after = value_or (approve_loan_request clock 9 2 none store) (request, store)

approved_run : approve_loan_request clock 9 2 none store ≡ ok (after.0, after.1)
unfolding approve_loan_request
approved_run = refl

approve_loan_request_final_example :
    (approve_loan_request clock 8 2 none after.1 ≡ err request_state)
    × (reject_loan_request clock 8 2 none after.1 ≡ err request_state)
approve_loan_request_final_example =
    approve_loan_request_final clock clock 9 8 2 none none store approved_run
