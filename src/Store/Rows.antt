-- ===== src/Store/Rows.antt =====
-- The rows of the tables: backend/app/features/{accounting,loans,payments,loan_requests,
-- notifications}/models.py, with a data type for each column of fixed strings. A relationship is
-- the other row's id; a journal owns its entries. Columns that no modelled operation reads (names,
-- times of creation and update, the time of a default) are left out.
use nelson_lending_v.Prelude.{ℕ, Bool, List, Option}
use nelson_lending_v.Prelude.Int.{ℤ}
use nelson_lending_v.Decimal.{Decimal}
use nelson_lending_v.Calendar.{Date}
use nelson_lending_v.Calculator.DueDates.{PaymentFrequency}

-- A string as its code points.
abbrev pub Text : Type 0
Text = List ℕ

-- An aware timestamp: its instant in seconds, and `.date()`.
pub record DateTime : Type 0 where
  pub instant : ℕ
  pub date : Date

-- The codes of the chart of accounts; `other_code` is any other string.
pub data AccountCode : Type 0 where
  cash loans_receivable customer_credit interest_income : AccountCode
  other_code : ℕ → AccountCode

pub data AccountType : Type 0 where
  asset liability equity income expense : AccountType

pub data NormalBalance : Type 0 where
  debit_balance credit_balance : NormalBalance

pub record Account : Type 0 where
  pub id : ℕ
  pub code : AccountCode
  pub account_type : AccountType
  pub normal_balance : NormalBalance
  pub is_active : Bool

pub data JournalEvent : Type 0 where
  loan_disbursement payment_event reversal : JournalEvent

-- The f-strings that the service builds.
pub data Description : Type 0 where
  disbursement_for : ℕ → Description
  payment_for : ℕ → Option Text → Description
  reversal_for : ℕ → Text → Description

pub record JournalEntry : Type 0 where
  pub account_id : ℕ
  pub debit : Decimal
  pub credit : Decimal

pub record JournalTransaction : Type 0 where
  pub id : ℕ
  pub event_type : JournalEvent
  pub source_id : ℕ
  pub description : Description
  pub effective_date : Date
  pub posted_at : DateTime
  pub reversal_of_id : Option ℕ
  pub entries : List JournalEntry

pub data LoanStatus : Type 0 where
  pending_disbursement active paid cancelled defaulted : LoanStatus

pub record Loan : Type 0 where
  pub id : ℕ
  pub loan_request_id : ℕ
  pub borrower_id : ℕ
  pub original_principal : Decimal
  pub outstanding_principal : Decimal
  pub accrued_interest : Decimal
  pub monthly_rate : Decimal
  pub term_months : ℤ
  pub payment_frequency : PaymentFrequency
  pub number_of_payments : ℤ
  pub first_due_date : Date
  pub final_due_date : Date
  pub next_interest_due_date : Date
  pub status : LoanStatus
  pub disbursed_at : Option DateTime
  pub cancelled_at : Option DateTime
  pub paid_at : Option DateTime

pub record Payment : Type 0 where
  pub id : ℕ
  pub loan_id : ℕ
  pub amount : Decimal
  pub interest_paid : Decimal
  pub principal_paid : Decimal
  pub unapplied_credit : Decimal
  pub remaining_interest : Decimal
  pub remaining_principal : Decimal
  pub payment_date : Date
  pub posted_at : DateTime
  pub reference : Option Text
  pub note : Option Text
  pub idempotency_key : Text

pub data RequestStatus : Type 0 where
  pending approved rejected request_cancelled : RequestStatus

pub record LoanRequest : Type 0 where
  pub id : ℕ
  pub borrower_id : ℕ
  pub requested_principal : Decimal
  pub requested_monthly_rate : Decimal
  pub requested_term_months : ℤ
  pub requested_payment_frequency : PaymentFrequency
  pub requested_first_due_date : Date
  pub status : RequestStatus
  pub submitted_at : DateTime
  pub reviewed_at : Option DateTime
  pub reviewed_by_owner_id : Option ℕ
  pub owner_note : Option Text

-- The template keys, and with the same strings the event types.
pub data Template : Type 0 where
  registration_approved request_submitted request_approved request_rejected : Template
  loan_disbursed payment_received unknown_template : Template

pub data Channel : Type 0 where
  in_app other_channel : Channel

pub data Recipient : Type 0 where
  borrower owner other_recipient : Recipient

pub data OutboxStatus : Type 0 where
  outbox_pending delivered failed dead_letter : OutboxStatus

-- The values of a payload: the strings that `str` makes of an id, an amount or a date, a text,
-- the number of the schema version, and any other JSON value.
pub data PayloadValue : Type 0 where
  id_string : ℕ → PayloadValue
  money_string : Decimal → PayloadValue
  date_string : Date → PayloadValue
  text_string : Text → PayloadValue
  version_number : ℕ → PayloadValue
  other_value : PayloadValue

pub data PayloadField : Type 0 where
  schema_version borrower_id_field first_name last_name loan_request_id_field : PayloadField
  requested_principal_field rejection_reason loan_id_field : PayloadField
  original_principal_field payment_id_field amount_field payment_date_field : PayloadField

pub data Aggregate : Type 0 where
  borrower_aggregate loan_request_aggregate loan_aggregate payment_aggregate : Aggregate

-- What the deduplication key is the digest of.
pub record Identity : Type 0 where
  pub event_type : Template
  pub aggregate_id : ℕ
  pub recipient_id : ℕ
  pub template_key : Template
  pub channel : Channel

pub record NotificationOutbox : Type 0 where
  pub id : ℕ
  pub event_type : Template
  pub aggregate_type : Aggregate
  pub aggregate_id : ℕ
  pub recipient_type : Recipient
  pub recipient_id : ℕ
  pub channel : Channel
  pub template_key : Template
  pub payload : List (PayloadField × PayloadValue)
  pub status : OutboxStatus
  pub attempt_count : ℕ
  pub max_attempts : ℕ
  pub next_attempt_at : Option ℕ
  pub last_attempt_at : Option ℕ
  pub delivered_at : Option ℕ
  pub last_error : Bool
  pub idempotency_key : ℕ

-- Title and body of a message, before they are spelled out.
pub data Message : Type 0 where
  registration_approved_message : Message
  request_submitted_message request_approved_message : PayloadValue → Message
  request_rejected_message : PayloadValue → PayloadValue → Message
  loan_disbursed_message payment_received_message : PayloadValue → Message

pub record Notification : Type 0 where
  pub id : ℕ
  pub source_outbox_id : ℕ
  pub recipient_type : Recipient
  pub recipient_id : ℕ
  pub message : Message
  pub event_type : Template
  pub source_id : ℕ
  pub read_at : Option ℕ
