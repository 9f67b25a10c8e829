-- ===== src/Notifications/Examples.antt =====
-- The outbox theorems on the notice of a payment.
use nelson_lending_v.Prelude.{
  ℕ, ◌≡◌, ◌<◌, ◌+◌, ◌⊎◌, refl, arith, [], ◌∷◌, none, some, inr, Bool, false, All,
}
use nelson_lending_v.Prelude.Int.{pos}
use nelson_lending_v.Prelude.Result.{ok, value_or}
use nelson_lending_v.Decimal.{cents}
use nelson_lending_v.Calendar.{Date}
use nelson_lending_v.Store.{Store, Clock, empty_store}
use nelson_lending_v.Store.Rows.{
  payment_received, payment_aggregate, borrower, in_app, NotificationOutbox, payment_id_field,
  loan_id_field, amount_field, payment_date_field, id_string, money_string, date_string,
  dead_letter, failed,
}
use nelson_lending_v.Notifications.{Notice, outbox_of, enqueue_notification}
use nelson_lending_v.Notifications.Dispatcher.{
  deliver, dispatch_pending_notifications, handle_dispatch_failure, attempted,
  calculate_next_attempt,
}
use nelson_lending_v.Notifications.Backoff.{IsOutboxRow, handle_dispatch_failure-IsOutboxRow}
use nelson_lending_v.Notifications.Outbox.{
  enqueue_notification_once, deliver_once, dispatch_pending_notifications-IsOutboxRow,
}

abbrev march : Date
march = record { year = 2026; month = 3; day = 1 }

abbrev clock : Clock
clock = record {
  today = march;
  now = record { instant = 1000; date = march };
  digest = λ i. i.aggregate_id;
}

abbrev notice : Notice
notice = record {
  event_type = payment_received;
  aggregate_type = payment_aggregate;
  aggregate_id = 7;
  recipient_type = borrower;
  recipient_id = 3;
  template_key = payment_received;
  payload =
      (payment_id_field, id_string 7)
      ∷ (loan_id_field, id_string 1)
      ∷ (amount_field, money_string (cents (pos 100000)))
      ∷ (payment_date_field, date_string march)
      ∷ [];
  channel = in_app;
  max_attempts = 5;
}

abbrev row : NotificationOutbox
row = outbox_of clock 10 notice

abbrev store : Store
store = empty_store 10

abbrev queued : Store
queued = record store { next_id = 11; outbox = row ∷ [] }

enqueued : enqueue_notification clock notice store ≡ ok (row, queued)
unfolding enqueue_notification
enqueued = refl

enqueue_notification_once_example : enqueue_notification clock notice queued ≡ ok (row, queued)
enqueue_notification_once_example = enqueue_notification_once clock clock notice store refl enqueued

abbrev told : Bool × Store
told = value_or (deliver row queued) (false, store)

delivered_row : deliver row queued ≡ ok told
unfolding deliver
delivered_row = refl

deliver_once_example : deliver row told.1 ≡ ok (told.0, told.1)
deliver_once_example = deliver_once row queued delivered_row

row-IsOutboxRow : IsOutboxRow row
row-IsOutboxRow = record { within = omega arith; below = inr (omega arith) }

abbrev dispatched : ℕ × Store
dispatched = value_or (dispatch_pending_notifications deliver 50 1000 queued) (0, store)

dispatch_runs : dispatch_pending_notifications deliver 50 1000 queued ≡ ok dispatched
unfolding dispatch_pending_notifications
dispatch_runs = refl

dispatch_pending_notifications-IsOutboxRow_example : All IsOutboxRow dispatched.1.outbox
dispatch_pending_notifications-IsOutboxRow_example =
    dispatch_pending_notifications-IsOutboxRow 50 1000 queued (row-IsOutboxRow, tt) dispatch_runs

handle_dispatch_failure-IsOutboxRow_example :
    IsOutboxRow (handle_dispatch_failure 1000 (attempted 1000 row))
    × (((0 + 1 ≡ 5)
          × ((handle_dispatch_failure 1000 (attempted 1000 row)).status ≡ dead_letter)
          × ((handle_dispatch_failure 1000 (attempted 1000 row)).next_attempt_at ≡ none))
        ⊎ ((0 + 1 < 5)
            × ((handle_dispatch_failure 1000 (attempted 1000 row)).status ≡ failed)
            × ((handle_dispatch_failure 1000 (attempted 1000 row)).next_attempt_at
                ≡ some (calculate_next_attempt (0 + 1) 1000))))
handle_dispatch_failure-IsOutboxRow_example =
    handle_dispatch_failure-IsOutboxRow 1000 row (omega arith)
