-- ===== src/Lib.antt =====
-- Lending Nelson V2: the financial core of the backend (backend/app/features), as functions over
-- values. Third-party code (SQLAlchemy, FastAPI, pydantic, hashing) is not modelled.
--
-- How the parts interact. The calculator (loans/calculator.py) is pure; accrual, the loan service
-- and the payment service call it. A service reads and writes rows of the database through its
-- session: here a service is a function from a `Store` to a `Result` with the new `Store`, an
-- exception drops the new store as the session is rolled back, and a query is a function over the
-- table's list of rows. Loans and payments post journals (accounting) and enqueue notifications
-- in the same transaction; the dispatcher delivers those later. Concurrent requests lock their
-- rows, so that they are runs one after the other.
--
-- - Prelude: lists, integers and Boolean tests over native numbers; Result holds the exceptions.
-- - Decimal: Python's `decimal.Decimal` with the default context of 28 digits, a coefficient over a
--   power of ten, and `quantize_money` and `quantize_rate` of loans/calculator.py. The sign of zero
--   and the exponent limits are not modelled. The powers and the digit counts run on fuel that is
--   the number itself, which is enough since each round takes a digit.
-- - Calendar: `datetime.date` and `calendar.monthrange`, years 1 to 9999;
--   Days adds a `timedelta` day by day.
-- - Calculator: loans/calculator.py. Allocation is `allocate_payment`, DueDates holds
--   `build_due_dates` and `advance_due_date`, Quote holds `calculate_period_rate` and
--   `calculate_quote`; the loops are structural recursion over the rounds.
-- - Store: the rows of the models (Rows, Persons), queries and updates (Table, Query, Keys). An identifier
--   is a number that no row has yet. Column widths and foreign keys are not modelled.
-- - Accrual: loans/accrual_service.py. The `while` loop runs on fuel, one round for each day key up
--   to the accrual date; each round moves the due date forward, so that is enough.
-- - Accounting: accounting/constants.py and the posting functions of accounting/service.py; Journals
--   holds the business events and the reversal. The list queries are not modelled.
-- - Notifications: enqueueing, `mark_notification_read` and `retry_dead_letter_outbox` of
--   notifications/service.py; Dispatcher holds notifications/dispatcher.py and providers.py. The
--   texts of a message stay structured, and SHA-256 is a function of which nothing is assumed.
-- - Payments: `post_payment` of payments/service.py with its helpers. The CHECK constraints of the
--   payments table are tested where the row is flushed.
-- - Loans: `create_loan_from_request`, `disburse_loan` and `cancel_loan` of loans/service.py.
-- - LoanRequests: submission, review and cancellation of loan_requests/service.py.
-- - Crypto: what core/security.py and borrowers/auth_security.py add to the third-party primitives.
--   Those (Argon2, the digests, JWT) are the record `Crypto`, with the two laws that are documented:
--   a hash verifies its secret, and a token decodes to its payload from its issue until it expires.
--   Random values are arguments. Plain is a concrete one to run the services with.
-- - Borrowers: Phone is registration_validation.py, Registration is registration_service.py with the
--   validators of registration_schemas.py, Activation and Sessions are auth_service.py,
--   Context is auth_dependencies.py. Times are
--   instants in seconds. `\d` of Python's patterns and `str.upper` are parameters.
-- - Owner: owner_identity/service.py, and dependencies.py in Context; `str.lower` is a parameter.
-- - Reports: reports/service.py; Portfolio is the portfolio snapshot and the dashboard. The sums of
--   PostgreSQL are exact, those of Python round to the 28 digits of the context.
--
-- Not modelled: the list and detail queries, the HTTP routers and schemas, configuration,
-- migrations and the mobile applications.
pub mod Prelude
pub mod Decimal
pub mod Calendar
pub mod Calculator
pub mod Store
pub mod Accrual
pub mod Accounting
pub mod Notifications
pub mod Payments
pub mod LoanRequests
pub mod Crypto
pub mod Borrowers
pub mod Owner
pub mod Reports
pub mod Loans
