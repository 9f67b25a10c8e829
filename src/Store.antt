-- ===== src/Store.antt =====
-- The database of the backend as a value: one list of rows for each table that the modelled
-- services use, in the order of insertion. A service takes the store and returns the new one; an
-- error drops it, as `get_db` of backend/app/db/session.py rolls the transaction back.
pub mod Rows
pub mod Table
pub mod Query
pub mod Keys
pub mod Persons
use nelson_lending_v.Prelude.{ℕ, ◌+◌, List, [], Option, none}
use nelson_lending_v.Calendar.{Date}
use nelson_lending_v.Decimal.{Decimal}
use nelson_lending_v.Store.Persons.{People, no_people}
use nelson_lending_v.Store.Rows.{
  Identity, DateTime, Account, JournalTransaction, Loan, Payment, LoanRequest, NotificationOutbox,
  Notification,
}

pub record Store : Type 0 where
  pub next_id : ℕ
  pub estimate_rate : Option Decimal
  pub accounts : List Account
  pub journals : List JournalTransaction
  pub loans : List Loan
  pub payments : List Payment
  pub loan_requests : List LoanRequest
  pub outbox : List NotificationOutbox
  pub notifications : List Notification
  pub people : People

-- A database without rows, whose first identifier is `n`.
abbrev pub empty_store : ℕ → Store
empty_store n = record {
  next_id = n;
  estimate_rate = none;
  accounts = [];
  journals = [];
  loans = [];
  payments = [];
  loan_requests = [];
  outbox = [];
  notifications = [];
  people = no_people;
}

-- What a call reads from its surroundings: `date.today()`, `datetime.now(UTC)`, and the SHA-256
-- digest of a notification's identity, of which nothing is assumed.
pub record Clock : Type 0 where
  pub today : Date
  pub now : DateTime
  pub digest : Identity → ℕ

-- `uuid4()`: the identifier of the next row, which no row has.
abbrev pub take_id : Store → Store
take_id s = record s { next_id = s.next_id + 1 }
