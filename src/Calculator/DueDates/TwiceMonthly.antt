-- ===== src/Calculator/DueDates/TwiceMonthly.antt =====
-- The twice-monthly schedule: the 15th and the last day of every month, in turn.
use nelson_lending_v.Prelude.{
  ℕ, zero, suc, ◌+◌, ◌-◌, ◌*◌, ◌≤◌, ◌<◌, ◌≡◌, ◌⊎◌, refl, arith, Bool, true, false, List, [], ◌∷◌,
  some, length, get_elem?, ◌==◌, ◌||◌, ◌&&◌, not, if◌then◌else◌,
}
use nelson_lending_v.Prelude.Int.{pos, leb_ℤ, pos-not-le-zero}
use nelson_lending_v.Prelude.Result.{
  ok, err, first_due_date_not_allowed, payments_not_positive, raise_if, ◌>>◌, cons-eq_ok,
  raise_if-eq_ok,
}
use nelson_lending_v.Calendar.{Date, IsDate, days_in_month, new_date}
use nelson_lending_v.Calendar.Order.{
  month_index, new_date-IsDate, new_date-eq_ok, new_date_total, days_in_month_bounds,
}
use nelson_lending_v.Calculator.DueDates.{
  twice_monthly, twice_monthly_due_dates, build_due_dates, next_year, next_month,
}

-- Half months since year 0: the 15th opens a month's first half, any other day its second.
abbrev pub half_index : Date → ℕ
half_index d = 2 * month_index d + (if d.day == 15 then 0 else 1)

-- `d` is one of the two days of the schedule, in half month `s`.
pub record IsHalfMonthDue (s : ℕ) (d : Date) : Type 0 where
  pub valid : IsDate d
  pub in_half : half_index d ≡ s
  pub on_day : (d.day ≡ 15) ⊎ (d.day ≡ days_in_month d.year d.month)

fifteenth-IsHalfMonthDue :
    (y m : ℕ) {d : Date} → new_date y m 15 ≡ ok d → IsHalfMonthDue (2 * (y * 12 + (m - 1)) + 0) d
fifteenth-IsHalfMonthDue y m h =
    let v = new_date-IsDate y m 15 h in
    let (ey, em, ed) = new_date-eq_ok y m 15 h in
    record { valid = v; in_half = ground arith; on_day = ground arith }

last_day-IsHalfMonthDue :
    (y m : ℕ) {d : Date}
    → new_date y m (days_in_month y m) ≡ ok d
    → IsHalfMonthDue (2 * (y * 12 + (m - 1)) + 1) d
last_day-IsHalfMonthDue y m h =
    let v = new_date-IsDate y m (days_in_month y m) h in
    let (ey, em, ed) = new_date-eq_ok y m (days_in_month y m) h in
    let long = days_in_month_bounds y m in
    record { valid = v; in_half = ground arith; on_day = ground arith }

-- The half month in which the loop stands.
abbrev loop_half : ℕ → ℕ → Bool → ℕ
loop_half y m fifteenth = 2 * (y * 12 + (m - 1)) + (if fifteenth then 0 else 1)

twice_monthly_due_dates_at :
    (y m : ℕ) (b : Bool) (left k : ℕ) {ds : List Date} {d : Date}
    → 1 ≤ m
    → m ≤ 12
    → twice_monthly_due_dates y m b left ≡ ok ds
    → get_elem? ds k ≡ some d
    → IsHalfMonthDue (loop_half y m b + k) d
unfolding twice_monthly_due_dates
twice_monthly_due_dates_at y m b zero k lo hi h e = ground arith
twice_monthly_due_dates_at y m true (suc left) zero lo hi h e =
    let (a, r, ha, hr, er) =
      cons-eq_ok (new_date y m 15) (twice_monthly_due_dates y m false left) h in
    ground (arith, fifteenth-IsHalfMonthDue y m ha)
twice_monthly_due_dates_at y m true (suc left) (suc k) lo hi h e =
    let (a, r, ha, hr, er) =
      cons-eq_ok (new_date y m 15) (twice_monthly_due_dates y m false left) h in
    ground (arith, twice_monthly_due_dates_at y m false left k lo hi hr (rw er at e))
twice_monthly_due_dates_at y m false (suc left) zero lo hi h e =
    let (a, r, ha, hr, er) =
      cons-eq_ok (new_date y m (days_in_month y m))
        (twice_monthly_due_dates (next_year y m) (next_month m) true left) h in
    ground (arith, last_day-IsHalfMonthDue y m ha)
twice_monthly_due_dates_at y m false (suc left) (suc k) lo hi h e =
    let (a, r, ha, hr, er) =
      cons-eq_ok (new_date y m (days_in_month y m))
        (twice_monthly_due_dates (next_year y m) (next_month m) true left) h in
    let rest =
      twice_monthly_due_dates_at (next_year y m) (next_month m) true left k (ground arith)
        (ground arith) hr (rw er at e) in
    ground (arith, rest)

length-twice_monthly_due_dates :
    (y m : ℕ) (b : Bool) (left : ℕ) {ds : List Date}
    → twice_monthly_due_dates y m b left ≡ ok ds
    → length ds ≡ left
unfolding twice_monthly_due_dates
length-twice_monthly_due_dates y m b zero h = ground arith
length-twice_monthly_due_dates y m true (suc left) h =
    let (a, r, ha, hr, er) =
      cons-eq_ok (new_date y m 15) (twice_monthly_due_dates y m false left) h in
    rw er (omega (arith, length-twice_monthly_due_dates y m false left hr))
length-twice_monthly_due_dates y m false (suc left) h =
    let (a, r, ha, hr, er) =
      cons-eq_ok (new_date y m (days_in_month y m))
        (twice_monthly_due_dates (next_year y m) (next_month m) true left) h in
    rw er
      (omega (arith, length-twice_monthly_due_dates (next_year y m) (next_month m) true left hr))

twice_monthly_due_dates_total :
    (y m : ℕ) (b : Bool) (left : ℕ)
    → 1 ≤ y
    → 1 ≤ m
    → m ≤ 12
    → loop_half y m b + left ≤ 240000
    → (ds : List Date) × (twice_monthly_due_dates y m b left ≡ ok ds)
unfolding twice_monthly_due_dates
twice_monthly_due_dates_total y m b zero p lo hi h = ([], refl)
twice_monthly_due_dates_total y m true (suc left) p lo hi h =
    let long = days_in_month_bounds y m in
    let (ds, e) = twice_monthly_due_dates_total y m false left p lo hi (omega arith) in
    let today = new_date_total y m 15 p (omega arith) lo hi (omega arith) (omega arith) in
    (record { year = y; month = m; day = 15 } ∷ ds, rw (today, e))
twice_monthly_due_dates_total y m false (suc left) p lo hi h =
    let long = days_in_month_bounds y m in
    let (ds, e) =
      twice_monthly_due_dates_total (next_year y m) (next_month m) true left (ground arith)
        (ground arith) (ground arith) (ground arith) in
    let today =
      new_date_total y m (days_in_month y m) p (omega arith) lo hi (omega arith) (omega arith) in
    (record { year = y; month = m; day = days_in_month y m } ∷ ds, rw (today, e))

-- The first date of a twice-monthly schedule is its first half month.
abbrev pub is_schedule_day : Date → Bool
is_schedule_day d = (d.day == 15) || (d.day == days_in_month d.year d.month)

not-or : (a b : Bool) → (not a && not b) ≡ not (a || b)
not-or true b = refl
not-or false b = refl

build_due_dates-twice_monthly :
    (first : Date) (n : ℕ) {ds : List Date}
    → build_due_dates first twice_monthly (pos n) ≡ ok ds
    → twice_monthly_due_dates first.year first.month (first.day == 15) n ≡ ok ds
unfolding build_due_dates
build_due_dates-twice_monthly first n h =
    let loop = twice_monthly_due_dates first.year first.month (first.day == 15) n in
    let off_day =
      not (first.day == 15) && not (first.day == days_in_month first.year first.month) in
    let (_, checked) =
      raise_if-eq_ok (leb_ℤ (pos n) (pos 0)) payments_not_positive
        (raise_if off_day first_due_date_not_allowed >> loop) h in
    (raise_if-eq_ok off_day first_due_date_not_allowed loop checked).1

pub length-build_due_dates_twice :
    (first : Date) (n : ℕ) {ds : List Date}
    → build_due_dates first twice_monthly (pos n) ≡ ok ds
    → length ds ≡ n
length-build_due_dates_twice first n h =
    length-twice_monthly_due_dates first.year first.month (first.day == 15) n
      (build_due_dates-twice_monthly first n h)

-- A twice-monthly schedule has a date for each payment, the date at place `k` lies `k` half months
-- after the first one, and each is a 15th or the last day of its month.
pub build_due_dates-IsHalfMonthDue :
    (first : Date) (n k : ℕ) {ds : List Date} {d : Date}
    → IsDate first
    → build_due_dates first twice_monthly (pos n) ≡ ok ds
    → get_elem? ds k ≡ some d
    → (length ds ≡ n) × IsHalfMonthDue (half_index first + k) d
build_due_dates-IsHalfMonthDue first n k v h e =
    let loop = build_due_dates-twice_monthly first n h in
    let due =
      twice_monthly_due_dates_at first.year first.month (first.day == 15) n k v.month_pos v.month_le
        loop e in
    (length-twice_monthly_due_dates first.year first.month (first.day == 15) n loop, due)

-- From the 15th or the last day of a month, a twice-monthly schedule that does not run past the
-- year 9999 exists.
pub build_due_dates_total_twice :
    (first : Date) (n : ℕ)
    → IsDate first
    → is_schedule_day first ≡ true
    → 0 < n
    → half_index first + n ≤ 240000
    → (ds : List Date) × (build_due_dates first twice_monthly (pos n) ≡ ok ds)
unfolding build_due_dates
build_due_dates_total_twice first n v on_day h fits =
    let (ds, e) =
      twice_monthly_due_dates_total first.year first.month (first.day == 15) n v.year_pos
        v.month_pos v.month_le (ground arith) in
    (
      ds,
      rw
          (
            pos-not-le-zero n h,
            not-or (first.day == 15) (first.day == days_in_month first.year first.month),
            on_day,
          )
          e,
    )

-- Any other first date is refused.
pub build_due_dates_refuses :
    (first : Date) (n : ℕ)
    → 0 < n
    → is_schedule_day first ≡ false
    → build_due_dates first twice_monthly (pos n) ≡ err first_due_date_not_allowed
unfolding build_due_dates
build_due_dates_refuses first n h off_day = rw (
  pos-not-le-zero n h,
  not-or (first.day == 15) (first.day == days_in_month first.year first.month),
  off_day,
)
