-- ===== src/Notifications/Backoff.antt =====
-- The attempts on an outbox entry are bounded, and so is the wait between them.
use nelson_lending_v.Prelude.{
  ℕ, zero, suc, ◌+◌, ◌-◌, ◌^◌, ◌≤◌, ◌<◌, ◌≡◌, ◌⊎◌, inl, inr, refl, arith, false, Bool-cases, leb,
  leb→le, leb_false→lt, none, some,
}
use nelson_lending_v.Store.Rows.{NotificationOutbox, failed, dead_letter}
use nelson_lending_v.Notifications.Dispatcher.{
  retry_delay, calculate_next_attempt, handle_dispatch_failure, attempted, is_waiting,
}

pow2_pos : (e : ℕ) → 1 ≤ 2 ^ e
pow2_pos zero = omega arith
pow2_pos (suc e) = grind (arith, pow2_pos e)

-- What an entry must satisfy: its attempts are within the limit, and below it while it waits.
pub record IsOutboxRow (o : NotificationOutbox) : Type 0 where
  pub within : o.attempt_count ≤ o.max_attempts
  pub below : (is_waiting o.status ≡ false) ⊎ (o.attempt_count < o.max_attempts)

-- The next attempt after a failure comes no sooner than a minute and no later than an hour after
-- it.
pub calculate_next_attempt_bounds :
    (attempt_count now : ℕ)
    → (now + 60 ≤ calculate_next_attempt attempt_count now)
      × (calculate_next_attempt attempt_count now ≤ now + 3600)
unfolding calculate_next_attempt retry_delay
calculate_next_attempt_bounds attempt_count now = omega (arith, pow2_pos (attempt_count - 1))

-- A failed attempt on a waiting entry keeps its attempts within the limit; it is a dead letter
-- without a next attempt exactly when the limit is reached, and failed with one otherwise.
pub handle_dispatch_failure-IsOutboxRow :
    (now : ℕ) (o : NotificationOutbox)
    → o.attempt_count < o.max_attempts
    → IsOutboxRow (handle_dispatch_failure now (attempted now o))
      × (((o.attempt_count + 1 ≡ o.max_attempts)
            × ((handle_dispatch_failure now (attempted now o)).status ≡ dead_letter)
            × ((handle_dispatch_failure now (attempted now o)).next_attempt_at ≡ none))
          ⊎ ((o.attempt_count + 1 < o.max_attempts)
              × ((handle_dispatch_failure now (attempted now o)).status ≡ failed)
              × ((handle_dispatch_failure now (attempted now o)).next_attempt_at
                  ≡ some (calculate_next_attempt (o.attempt_count + 1) now))))
unfolding handle_dispatch_failure
handle_dispatch_failure-IsOutboxRow now o waits =
    elim (Bool-cases (leb o.max_attempts (o.attempt_count + 1))) [
      | inl spent ↦
          rw (spent, handle_dispatch_failure)
            (
              record { within = omega arith; below = inl refl },
              inl (omega (arith, leb→le o.max_attempts (o.attempt_count + 1) spent), refl, refl),
            )
      | inr left ↦
          let more : o.attempt_count + 1 < o.max_attempts =
            leb_false→lt o.max_attempts (o.attempt_count + 1) left in
          rw (left, handle_dispatch_failure)
            (record { within = omega arith; below = inr more }, inr (more, refl, refl))
    ]
