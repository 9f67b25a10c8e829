-- ===== src/Notifications/Outbox.antt =====
-- Enqueueing and delivery happen at most once, and dispatch keeps every entry within its attempts.
use nelson_lending_v.Prelude.{
  ℕ, zero, suc, ◌≡◌, refl, sym, ap, ◌∙◌, Option, none, some, arith, Bool, true, false, ◌&&◌, ◌==◌,
  ==_refl, Bool-cases, Option-cases, inl, inr, List, [], ◌∷◌, ltb, length, All, ◌<◌,
}
use nelson_lending_v.Prelude.Result.{
  Result, ok, ◌>>=◌, >>=-eq-ok, ok_injective, raise_if-eq_ok, Result-cases, batch_not_positive,
}
use nelson_lending_v.Store.{Store, Clock}
use nelson_lending_v.Store.Rows.{NotificationOutbox, Notification}
use nelson_lending_v.Store.Table.{one_or_none, one_or_none-snoc, All-update, filter}
use nelson_lending_v.Notifications.{
  Notice, check_notice, identity_of, outbox_of, unless_enqueued, enqueue_notification, is_channel,
}
use nelson_lending_v.Notifications.Dispatcher.{
  deliver, deliver_new, notification_of, with_notification, render_notification, unless_delivered,
  dispatch_one, dispatch_all, dispatch_pending_notifications, attempted, delivered_row,
  handle_dispatch_failure, pending_records, take, is_waiting, is_ready,
}
use nelson_lending_v.Notifications.Backoff.{IsOutboxRow, handle_dispatch_failure-IsOutboxRow}

unless_enqueued-people :
    (e : Option NotificationOutbox) (row : NotificationOutbox) (s : Store)
    → s.people ≡ (unless_enqueued e row s).1.people
unless_enqueued-people none row s = refl
unless_enqueued-people (some old) row s = refl

-- Enqueueing touches the outbox alone.
pub enqueue_notification-people :
    (clock : Clock) (n : Notice) (s : Store) {o : NotificationOutbox} {s' : Store}
    → enqueue_notification clock n s ≡ ok (o, s')
    → s.people ≡ s'.people
unfolding enqueue_notification
enqueue_notification-people clock n s h =
    let finish : Option NotificationOutbox → Result (NotificationOutbox × Store) =
      λ e. ok (unless_enqueued e (outbox_of clock s.next_id n) s) in
    let key = clock.digest (identity_of n) in
    let (checked, ec, h1) =
      >>=-eq-ok (check_notice n)
        (λ c.
          one_or_none (λ (o : NotificationOutbox). o.idempotency_key == key) s.outbox >>= finish)
        h in
    let (existing, eo, h2) =
      >>=-eq-ok (one_or_none (λ (o : NotificationOutbox). o.idempotency_key == key) s.outbox) finish
        h1 in
    unless_enqueued-people existing (outbox_of clock s.next_id n) s
    ∙ ap (λ r. r.1.people) (ok_injective h2)

-- Enqueueing the same notice a second time, at any later time and with the same digest function,
-- returns the first entry and changes nothing.
pub enqueue_notification_once :
    (clock later : Clock) (n : Notice) (s : Store) {o : NotificationOutbox} {s' : Store}
    → later.digest ≡ clock.digest
    → enqueue_notification clock n s ≡ ok (o, s')
    → enqueue_notification later n s' ≡ ok (o, s')
unfolding enqueue_notification
enqueue_notification_once clock later n s same h =
    let key = clock.digest (identity_of n) in
    let (checked, ec, h1) =
      >>=-eq-ok (check_notice n)
        (λ c. one_or_none (λ (o : NotificationOutbox). o.idempotency_key == key) s.outbox >>= λ e.
          ok (unless_enqueued e (outbox_of clock s.next_id n) s))
        h in
    let (existing, eo, h2) =
      >>=-eq-ok (one_or_none (λ (o : NotificationOutbox). o.idempotency_key == key) s.outbox)
        (λ e. ok (unless_enqueued e (outbox_of clock s.next_id n) s)) h1 in
    elim (Option-cases existing) [
      | inl fresh ↦
          let added = ok_injective (rw fresh at h2) in
          let found =
            one_or_none-snoc (λ (o : NotificationOutbox). o.idempotency_key == key) s.outbox
              {x = outbox_of clock s.next_id n} (rw fresh at eo) (==_refl key) in
          rw (← ap (λ r. r.0) added, ← ap (λ r. r.1) added, same, ec, found) refl
      | inr (old, e) ↦
          let kept = ok_injective (rw e at h2) in
          rw (← ap (λ r. r.0) kept, ← ap (λ r. r.1) kept, same, ec, eo, e) refl
    ]

-- Delivering an entry a second time reports the same and adds no second notification.
pub deliver_once :
    (o : NotificationOutbox) (s : Store) {b : Bool} {s' : Store}
    → deliver o s ≡ ok (b, s')
    → deliver o s' ≡ ok (b, s')
unfolding deliver deliver_new
deliver_once o s h = elim (Bool-cases (is_channel o.channel)) [
  | inl known ↦
      let (existing, eo, h1) =
        >>=-eq-ok (one_or_none (λ (n : Notification). n.source_outbox_id == o.id) s.notifications)
          (λ e. unless_delivered e s (deliver_new o s)) (rw (known, deliver) at h) in
      elim (Option-cases existing) [
        | inl fresh ↦
            let (message, em, h2) =
              >>=-eq-ok (render_notification o.template_key o.payload)
                (λ m. ok (true, with_notification o m s)) (rw fresh at h1) in
            let added = ok_injective h2 in
            let found =
              one_or_none-snoc (λ (n : Notification). n.source_outbox_id == o.id) s.notifications
                {x = notification_of o message s} (rw fresh at eo) (==_refl o.id) in
            rw (← ap (λ r. r.0) added, ← ap (λ r. r.1) added, known, found) refl
        | inr (old, e) ↦
            let kept = ok_injective (rw e at h1) in
            rw (← ap (λ r. r.0) kept, ← ap (λ r. r.1) kept, known, eo, e) refl
      ]
  | inr unknown ↦
      let kept = ok_injective (rw (unknown, deliver) at h) in
      rw (← ap (λ r. r.0) kept, ← ap (λ r. r.1) kept, unknown) refl
]

deliver-outbox :
    (o : NotificationOutbox) (s : Store) {b : Bool} {s' : Store}
    → deliver o s ≡ ok (b, s')
    → s'.outbox ≡ s.outbox
unfolding deliver deliver_new
deliver-outbox o s h = elim (Bool-cases (is_channel o.channel)) [
  | inl known ↦
      let (existing, eo, h1) =
        >>=-eq-ok (one_or_none (λ (n : Notification). n.source_outbox_id == o.id) s.notifications)
          (λ e. unless_delivered e s (deliver_new o s)) (rw (known, deliver) at h) in
      elim (Option-cases existing) [
        | inl fresh ↦
            let (message, em, h2) =
              >>=-eq-ok (render_notification o.template_key o.payload)
                (λ m. ok (true, with_notification o m s)) (rw fresh at h1) in
            ap (λ r. r.1.outbox) (sym (ok_injective h2))
        | inr (old, e) ↦ ap (λ r. r.1.outbox) (sym (ok_injective (rw e at h1)))
      ]
  | inr unknown ↦ ap (λ r. r.1.outbox) (sym (ok_injective (rw (unknown, deliver) at h)))
]

-- The batch's rows, each valid and still waiting.
abbrev AllWaiting : List NotificationOutbox → Type 0
AllWaiting = All (λ o. o.attempt_count < o.max_attempts)

dispatch_one-IsOutboxRow :
    (now : ℕ) (o : NotificationOutbox) (s : Store)
    → o.attempt_count < o.max_attempts
    → All IsOutboxRow s.outbox
    → All IsOutboxRow (dispatch_one deliver now o s).outbox
unfolding dispatch_one
dispatch_one-IsOutboxRow now o s waits h =
    let failing = (handle_dispatch_failure-IsOutboxRow now o waits).0 in
    elim (Result-cases (deliver (attempted now o) s)) [
      | inl ((true, s'), e) ↦
          let same = deliver-outbox (attempted now o) s e in
          rw e (
            All-update IsOutboxRow _ (delivered_row now (attempted now o)) s'.outbox (rw same h)
              (record { within = omega arith; below = inl refl }))
      | inl ((false, s'), e) ↦
          let same = deliver-outbox (attempted now o) s e in
          rw e (
            All-update IsOutboxRow _ (handle_dispatch_failure now (attempted now o)) s'.outbox
              (rw same h) failing)
      | inr (raised, e) ↦ rw e (
          All-update IsOutboxRow _ (handle_dispatch_failure now (attempted now o)) s.outbox h
            failing)
    ]

dispatch_all-IsOutboxRow :
    (now : ℕ) (batch : List NotificationOutbox) (s : Store)
    → AllWaiting batch
    → All IsOutboxRow s.outbox
    → All IsOutboxRow (dispatch_all deliver now batch s).outbox
unfolding dispatch_all
dispatch_all-IsOutboxRow now [] s waits h = h
dispatch_all-IsOutboxRow now (o ∷ rest) s waits h =
    dispatch_all-IsOutboxRow now rest (dispatch_one deliver now o s) waits.1
      (dispatch_one-IsOutboxRow now o s waits.0 h)

is_waiting-below :
    (o : NotificationOutbox) (b : Bool)
    → IsOutboxRow o
    → (is_waiting o.status && b) ≡ true
    → o.attempt_count < o.max_attempts
is_waiting-below o b v h = ground (arith, v.below)

filter-AllWaiting :
    (now : ℕ) (xs : List NotificationOutbox)
    → All IsOutboxRow xs
    → AllWaiting (filter (λ o. is_waiting o.status && is_ready now o.next_attempt_at) xs)
filter-AllWaiting now [] h = tt
filter-AllWaiting now (o ∷ xs) h =
    elim (Bool-cases (is_waiting o.status && is_ready now o.next_attempt_at)) [
      | inl picked ↦ rw picked (
        is_waiting-below o (is_ready now o.next_attempt_at) h.0 picked,
        filter-AllWaiting now xs h.1,
      )
      | inr left ↦ rw left (filter-AllWaiting now xs h.1)
    ]

take-AllWaiting : (n : ℕ) (xs : List NotificationOutbox) → AllWaiting xs → AllWaiting (take n xs)
take-AllWaiting zero xs h = tt
take-AllWaiting (suc n) [] h = tt
take-AllWaiting (suc n) (x ∷ xs) h = (h.0, take-AllWaiting n xs h.1)

-- A dispatch with the in-app provider, of any batch size at any time, keeps the attempts of every
-- outbox entry within its limit, and below it for the entries that wait.
pub dispatch_pending_notifications-IsOutboxRow :
    (batch_size now : ℕ) (s : Store) {n : ℕ} {s' : Store}
    → All IsOutboxRow s.outbox
    → dispatch_pending_notifications deliver batch_size now s ≡ ok (n, s')
    → All IsOutboxRow s'.outbox
unfolding dispatch_pending_notifications
dispatch_pending_notifications-IsOutboxRow batch_size now s {s' = s'} h run =
    let batch = pending_records now batch_size s in
    let (checked, e) =
      raise_if-eq_ok (ltb batch_size 1) batch_not_positive
        (ok (length batch, dispatch_all deliver now batch s)) run in
    let waits = take-AllWaiting batch_size _ (filter-AllWaiting now s.outbox h) in
    rw (← ap (λ r. r.1) (ok_injective e)) (dispatch_all-IsOutboxRow now batch s waits h)
