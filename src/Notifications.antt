-- ===== src/Notifications.antt =====
-- backend/app/features/notifications/{constants,service}.py: the transactional outbox.
pub mod Dispatcher
pub mod Backoff
pub mod Outbox
mod Examples
use nelson_lending_v.Prelude.{
  ℕ, ◌+◌, Bool, true, false, not, ◌&&◌, ◌||◌, leb, ◌==◌, if◌then◌else◌, List, [], ◌∷◌, ◌++◌, Option,
  none, some,
}
use nelson_lending_v.Prelude.Result.{
  Result, ok, err, raise_if, ◌>>=◌, ◌>>◌, invalid_template, invalid_channel, invalid_recipient,
  invalid_payload, invalid_max_attempts, notification_not_found, cannot_retry,
}
use nelson_lending_v.Store.{Store, Clock}
use nelson_lending_v.Store.Rows.{
  Template, registration_approved, request_submitted, request_approved, request_rejected,
  loan_disbursed, payment_received, unknown_template, Channel, in_app, other_channel, Recipient,
  borrower, owner, other_recipient, OutboxStatus, outbox_pending, delivered, failed, dead_letter,
  PayloadField, PayloadValue, schema_version, borrower_id_field, first_name, last_name,
  loan_request_id_field, requested_principal_field, rejection_reason, loan_id_field,
  original_principal_field, payment_id_field, amount_field, payment_date_field, id_string,
  money_string, date_string, text_string, version_number, other_value, Aggregate, Identity,
  NotificationOutbox, Message, Notification,
}
use nelson_lending_v.Store.Table.{one_or_none, update}

template_index : Template → ℕ
template_index registration_approved = 0
template_index request_submitted = 1
template_index request_approved = 2
template_index request_rejected = 3
template_index loan_disbursed = 4
template_index payment_received = 5
template_index unknown_template = 6

-- The event type that belongs to a template is the same string.
unfoldable pub template_eq : Template → Template → Bool
unfolding template_index
template_eq a b = template_index a == template_index b

abbrev pub is_template : Template → Bool
is_template unknown_template = false
is_template _ = true

abbrev pub is_channel : Channel → Bool
is_channel in_app = true
is_channel other_channel = false

abbrev pub is_recipient : Recipient → Bool
is_recipient borrower = true
is_recipient owner = true
is_recipient other_recipient = false

field_index : PayloadField → ℕ
field_index schema_version = 0
field_index borrower_id_field = 1
field_index first_name = 2
field_index last_name = 3
field_index loan_request_id_field = 4
field_index requested_principal_field = 5
field_index rejection_reason = 6
field_index loan_id_field = 7
field_index original_principal_field = 8
field_index payment_id_field = 9
field_index amount_field = 10
field_index payment_date_field = 11

abbrev pub Payload : Type 0
Payload = List (PayloadField × PayloadValue)

-- `payload.get(field)`
unfoldable pub payload_get : PayloadField → Payload → Option PayloadValue
unfolding field_index
payload_get f [] = none
payload_get f (entry ∷ rest) =
    if field_index f == field_index entry.0 then some entry.1 else payload_get f rest

abbrev pub is_string : Option PayloadValue → Bool
is_string (some (id_string i)) = true
is_string (some (money_string d)) = true
is_string (some (date_string d)) = true
is_string (some (text_string t)) = true
is_string _ = false

abbrev pub is_version_one : Option PayloadValue → Bool
is_version_one (some (version_number v)) = v == 1
is_version_one _ = false

-- `REQUIRED_PAYLOAD_FIELDS`
abbrev pub required_fields : Template → List PayloadField
required_fields registration_approved = borrower_id_field ∷ first_name ∷ last_name ∷ []
required_fields request_submitted = loan_request_id_field ∷ requested_principal_field ∷ []
required_fields request_approved = loan_request_id_field ∷ requested_principal_field ∷ []
required_fields request_rejected =
    loan_request_id_field ∷ requested_principal_field ∷ rejection_reason ∷ []
required_fields loan_disbursed = loan_id_field ∷ original_principal_field ∷ []
required_fields payment_received =
    payment_id_field ∷ loan_id_field ∷ amount_field ∷ payment_date_field ∷ []
required_fields unknown_template = []

unfoldable pub has_strings : List PayloadField → Payload → Bool
unfolding payload_get
has_strings [] payload = true
has_strings (f ∷ rest) payload = is_string (payload_get f payload) && has_strings rest payload

unfoldable pub validate_payload : Template → Payload → (persisted : Bool) → Result (Unit {0})
unfolding has_strings
validate_payload template payload persisted = do
  raise_if (persisted && not (is_version_one (payload_get schema_version payload))) invalid_payload
  raise_if (not (has_strings (required_fields template) payload)) invalid_payload

-- The arguments of `enqueue_notification`.
pub record Notice : Type 0 where
  pub event_type : Template
  pub aggregate_type : Aggregate
  pub aggregate_id : ℕ
  pub recipient_type : Recipient
  pub recipient_id : ℕ
  pub template_key : Template
  pub payload : Payload
  pub channel : Channel
  pub max_attempts : ℕ

abbrev pub has_field : PayloadField → Payload → Bool
has_field f payload = elim (payload_get f payload) [ none ↦ false | some v ↦ true ]

unfoldable pub check_notice : Notice → Result (Unit {0})
unfolding validate_payload template_eq
check_notice n = do
  raise_if (not (is_template n.template_key)) invalid_template
  raise_if (not (is_channel n.channel)) invalid_channel
  raise_if (not (is_recipient n.recipient_type)) invalid_recipient
  raise_if (not (leb 1 n.max_attempts && leb n.max_attempts 20)) invalid_max_attempts
  raise_if (not (template_eq n.event_type n.template_key)) invalid_payload
  raise_if (has_field schema_version n.payload) invalid_payload
  validate_payload n.template_key n.payload false

abbrev pub identity_of : Notice → Identity
identity_of n = record {
  event_type = n.event_type;
  aggregate_id = n.aggregate_id;
  recipient_id = n.recipient_id;
  template_key = n.template_key;
  channel = n.channel;
}

abbrev pub outbox_of : Clock → ℕ → Notice → NotificationOutbox
outbox_of clock id n = record {
  id = id;
  event_type = n.event_type;
  aggregate_type = n.aggregate_type;
  aggregate_id = n.aggregate_id;
  recipient_type = n.recipient_type;
  recipient_id = n.recipient_id;
  channel = n.channel;
  template_key = n.template_key;
  payload = (schema_version, version_number 1) ∷ n.payload;
  status = outbox_pending;
  attempt_count = 0;
  max_attempts = n.max_attempts;
  next_attempt_at = some clock.now.instant;
  last_attempt_at = none;
  delivered_at = none;
  last_error = false;
  idempotency_key = clock.digest (identity_of n);
}

-- An entry with the same key is returned as it is.
abbrev pub unless_enqueued :
    Option NotificationOutbox → NotificationOutbox → Store → NotificationOutbox × Store
unless_enqueued none row s =
    (row, record s { next_id = s.next_id + 1; outbox = s.outbox ++ (row ∷ []) })
unless_enqueued (some existing) row s = (existing, s)

unfoldable pub enqueue_notification : Clock → Notice → Store → Result (NotificationOutbox × Store)
unfolding check_notice
enqueue_notification clock n s = do
  check_notice n
  existing ← one_or_none (λ o. o.idempotency_key == clock.digest (identity_of n)) s.outbox
  ok (unless_enqueued existing (outbox_of clock s.next_id n) s)

abbrev pub save_outbox : NotificationOutbox → Store → Store
save_outbox o s = record s { outbox = update (λ x. x.id == o.id) (λ x. o) s.outbox }

abbrev pub is_dead_letter : OutboxStatus → Bool
is_dead_letter dead_letter = true
is_dead_letter _ = false

abbrev pub found_outbox : Option NotificationOutbox → Result NotificationOutbox
found_outbox none = err notification_not_found
found_outbox (some o) = ok o

unfoldable pub retry_dead_letter_outbox : Clock → ℕ → Store → Result (NotificationOutbox × Store)
retry_dead_letter_outbox clock outbox_id s = do
  row ← one_or_none (λ (o : NotificationOutbox). o.id == outbox_id) s.outbox
  outbox ← found_outbox row
  raise_if (not (is_dead_letter outbox.status)) cannot_retry
  let reset = record outbox {
    status = outbox_pending;
    attempt_count = 0;
    next_attempt_at = some clock.now.instant;
    last_error = false;
  }
  ok (reset, save_outbox reset s)

abbrev pub is_borrower : Recipient → Bool
is_borrower borrower = true
is_borrower owner = false
is_borrower other_recipient = false

-- Only an unread notification gets a time.
abbrev pub read_now : ℕ → Notification → Notification
read_now now n = elim n.read_at [ none ↦ record n { read_at = some now } | some t ↦ n ]

abbrev pub found_notification : Option Notification → Result Notification
found_notification none = err notification_not_found
found_notification (some n) = ok n

unfoldable pub mark_notification_read : Clock → ℕ → ℕ → Store → Result (Notification × Store)
mark_notification_read clock notification_id borrower_id s = do
  row ←
      one_or_none
        (λ (n : Notification).
          (n.id == notification_id)
          && is_borrower n.recipient_type
          && (n.recipient_id == borrower_id))
        s.notifications
  notification ← found_notification row
  let read = read_now clock.now.instant notification
  ok (read, record s { notifications = update (λ x. x.id == read.id) (λ x. read) s.notifications })
