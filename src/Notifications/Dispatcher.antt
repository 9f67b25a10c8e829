-- ===== src/Notifications/Dispatcher.antt =====
-- backend/app/features/notifications/{dispatcher,providers}.py and the rendering of
-- backend/app/features/notifications/service.py.
use nelson_lending_v.Prelude.{
  ℕ, zero, suc, ◌+◌, ◌-◌, ◌*◌, ◌^◌, min, Bool, true, false, not, ◌&&◌, ltb, leb, ◌==◌,
  if◌then◌else◌, List, [], ◌∷◌, ◌++◌, length, Option, none, some,
}
use nelson_lending_v.Prelude.Result.{
  Result, ok, err, raise_if, ◌>>=◌, ◌>>◌, invalid_template, batch_not_positive, key_error,
}
use nelson_lending_v.Store.{Store}
use nelson_lending_v.Store.Rows.{
  Template, registration_approved, request_submitted, request_approved, request_rejected,
  loan_disbursed, payment_received, unknown_template, OutboxStatus, outbox_pending, delivered,
  failed, dead_letter, PayloadField, PayloadValue, requested_principal_field, rejection_reason,
  original_principal_field, amount_field, NotificationOutbox, Message,
  registration_approved_message, request_submitted_message, request_approved_message,
  request_rejected_message, loan_disbursed_message, payment_received_message, Notification,
}
use nelson_lending_v.Store.Table.{filter, one_or_none}
use nelson_lending_v.Notifications.{
  Payload, payload_get, is_template, is_channel, validate_payload, save_outbox,
}

-- The seconds to wait after `attempt_count` attempts.
unfoldable pub retry_delay : ℕ → ℕ
retry_delay attempt_count = min (60 * 2 ^ (attempt_count - 1)) 3600

unfoldable pub calculate_next_attempt : ℕ → ℕ → ℕ
unfolding retry_delay
calculate_next_attempt attempt_count now = now + retry_delay attempt_count

unfoldable pub handle_dispatch_failure : ℕ → NotificationOutbox → NotificationOutbox
unfolding calculate_next_attempt
handle_dispatch_failure now outbox =
    if leb outbox.max_attempts outbox.attempt_count
    then record outbox { last_error = true; status = dead_letter; next_attempt_at = none }
    else record outbox {
      last_error = true;
      status = failed;
      next_attempt_at = some (calculate_next_attempt outbox.attempt_count now);
    }

-- `payload[field]`
abbrev pub payload_at : PayloadField → Payload → Result PayloadValue
payload_at f payload = elim (payload_get f payload) [ none ↦ err key_error | some v ↦ ok v ]

unfoldable pub message_of : Template → Payload → Result Message
unfolding payload_get
message_of registration_approved payload = ok registration_approved_message
message_of request_submitted payload = do
  principal ← payload_at requested_principal_field payload
  ok (request_submitted_message principal)
message_of request_approved payload = do
  principal ← payload_at requested_principal_field payload
  ok (request_approved_message principal)
message_of request_rejected payload = do
  principal ← payload_at requested_principal_field payload
  reason ← payload_at rejection_reason payload
  ok (request_rejected_message principal reason)
message_of loan_disbursed payload = do
  principal ← payload_at original_principal_field payload
  ok (loan_disbursed_message principal)
message_of payment_received payload = do
  amount ← payload_at amount_field payload
  ok (payment_received_message amount)
message_of unknown_template payload = err invalid_template

unfoldable pub render_notification : Template → Payload → Result Message
unfolding message_of validate_payload
render_notification template payload = do
  raise_if (not (is_template template)) invalid_template
  validate_payload template payload true
  message_of template payload

-- A new notification for the entry.
abbrev pub notification_of : NotificationOutbox → Message → Store → Notification
notification_of outbox message s = record {
  id = s.next_id;
  source_outbox_id = outbox.id;
  recipient_type = outbox.recipient_type;
  recipient_id = outbox.recipient_id;
  message = message;
  event_type = outbox.event_type;
  source_id = outbox.aggregate_id;
  read_at = none;
}

abbrev pub with_notification : NotificationOutbox → Message → Store → Store
with_notification outbox message s = record s {
  next_id = s.next_id + 1;
  notifications = s.notifications ++ (notification_of outbox message s ∷ []);
}

unfoldable pub deliver_new : NotificationOutbox → Store → Result (Bool × Store)
unfolding render_notification
deliver_new outbox s = do
  message ← render_notification outbox.template_key outbox.payload
  ok (true, with_notification outbox message s)

-- An entry that has its notification is delivered.
abbrev pub unless_delivered :
    Option Notification → Store → Result (Bool × Store) → Result (Bool × Store)
unless_delivered none s new = new
unless_delivered (some n) s new = ok (true, s)

-- `InAppNotificationProvider.deliver`
unfoldable pub deliver : NotificationOutbox → Store → Result (Bool × Store)
unfolding deliver_new
deliver outbox s =
    if is_channel outbox.channel
    then (do
      existing ← one_or_none (λ (n : Notification). n.source_outbox_id == outbox.id) s.notifications
      unless_delivered existing s (deliver_new outbox s))
    else ok (false, s)

-- A `NotificationProvider`; an exception leaves the store as it was.
abbrev pub Provider : Type 0
Provider = NotificationOutbox → Store → Result (Bool × Store)

abbrev pub attempted : ℕ → NotificationOutbox → NotificationOutbox
attempted now o = record o { attempt_count = o.attempt_count + 1; last_attempt_at = some now }

abbrev pub delivered_row : ℕ → NotificationOutbox → NotificationOutbox
delivered_row now o = record o { status = delivered; delivered_at = some now; last_error = false }

-- The entry and the store after the `try` block.
abbrev pub settle :
    ℕ → NotificationOutbox → Store → Result (Bool × Store) → NotificationOutbox × Store
settle now o s (ok (true, s')) = (delivered_row now o, s')
settle now o s (ok (false, s')) = (handle_dispatch_failure now o, s')
settle now o s (err e) = (handle_dispatch_failure now o, s)

-- The body of the loop.
unfoldable pub dispatch_one : Provider → ℕ → NotificationOutbox → Store → Store
unfolding handle_dispatch_failure
dispatch_one provider now outbox s =
    let o = attempted now outbox in let r = settle now o s (provider o s) in save_outbox r.0 r.1

unfoldable pub dispatch_all : Provider → ℕ → List NotificationOutbox → Store → Store
unfolding dispatch_one
dispatch_all provider now [] s = s
dispatch_all provider now (o ∷ rest) s =
    dispatch_all provider now rest (dispatch_one provider now o s)

abbrev pub is_waiting : OutboxStatus → Bool
is_waiting outbox_pending = true
is_waiting failed = true
is_waiting delivered = false
is_waiting dead_letter = false

abbrev pub is_ready : ℕ → Option ℕ → Bool
is_ready now none = true
is_ready now (some t) = leb t now

abbrev pub take : ℕ → List NotificationOutbox → List NotificationOutbox
take zero xs = []
take (suc n) [] = []
take (suc n) (x ∷ xs) = x ∷ take n xs

-- The batch, oldest first.
abbrev pub pending_records : ℕ → ℕ → Store → List NotificationOutbox
pending_records now batch_size s =
    take batch_size (filter (λ o. is_waiting o.status && is_ready now o.next_attempt_at) s.outbox)

unfoldable pub dispatch_pending_notifications : Provider → ℕ → ℕ → Store → Result (ℕ × Store)
unfolding dispatch_all
dispatch_pending_notifications provider batch_size now s = do
  raise_if (ltb batch_size 1) batch_not_positive
  let batch = pending_records now batch_size s
  ok (length batch, dispatch_all provider now batch s)
