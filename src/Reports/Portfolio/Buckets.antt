-- ===== src/Reports/Portfolio/Buckets.antt =====
-- The overdue loans by age: backend/app/features/reports/service.py.
use mathlib.Core.Path.{subst}
use nelson_lending_v.Prelude.{
  ℕ, zero, suc, ◌+◌, ◌≡◌, ◌∙◌, refl, ap, arith, Bool, true, false, ◌&&◌, Bool-cases, inl, inr,
  if◌then◌else◌, List, [], ◌∷◌,
}
use nelson_lending_v.Prelude.Result.{Result, ok, ◌>>=◌, >>=-eq-ok, ok_injective, Result-cases}
use nelson_lending_v.Calendar.{Date, date_lt, date_le}
use nelson_lending_v.Calendar.Days.{plus_days, minus_days, previous_day}
use nelson_lending_v.Store.{Store}
use nelson_lending_v.Store.Rows.{Loan}
use nelson_lending_v.Store.Table.{filter}
use nelson_lending_v.Reports.Portfolio.{
  is_active, is_projected, count_active, is_overdue, is_overdue_between, Projection, project_loans,
  initial_projection, MoneyTotals, money_totals, snapshot_of, PortfolioSnapshot,
  get_portfolio_snapshot,
}

previous_day-lt : (d : Date) {e : Date} → previous_day d ≡ ok e → date_lt e d ≡ true
unfolding previous_day date_lt
previous_day-lt d h = ground arith

date_le_trans : (a b c : Date) → date_le a b ≡ true → date_le b c ≡ true → date_le a c ≡ true
unfolding date_le date_lt
date_le_trans a b c h k = ground arith

date_lt_le : (a b c : Date) → date_lt a b ≡ true → date_le b c ≡ true → date_lt a c ≡ true
unfolding date_le date_lt
date_lt_le a b c h k = ground arith

date_lt→le : (a b : Date) → date_lt a b ≡ true → date_le a b ≡ true
unfolding date_le date_lt
date_lt→le a b h = ground arith

date_le_refl : (a : Date) → date_le a a ≡ true
unfolding date_le date_lt
date_le_refl a = ground arith

minus_days-le : (n : ℕ) (d : Date) {e : Date} → minus_days n d ≡ ok e → date_le e d ≡ true
unfolding minus_days
minus_days-le zero d h = subst (λ x. date_le x d ≡ true) (ok_injective h) (date_le_refl d)
minus_days-le (suc n) d {e = e} h =
    let (x, ex, h1) = >>=-eq-ok (previous_day d) (minus_days n) h in
    date_le_trans e x d (minus_days-le n x h1) (date_lt→le x d (previous_day-lt d ex))

minus_days-add : (a b : ℕ) (d : Date) → minus_days (a + b) d ≡ (minus_days a d >>= minus_days b)
unfolding minus_days
minus_days-add zero b d = let same : 0 + b ≡ b = omega arith in ap (λ n. minus_days n d) same
minus_days-add (suc a) b d =
    let same : suc a + b ≡ suc (a + b) = omega arith in
    ap (λ n. minus_days n d) same ∙ elim (Result-cases (previous_day d)) [
      | inl (x, found) ↦ rw found (minus_days-add a b x)
      | inr (e, raised) ↦ rw raised refl
    ]

minus_days-more :
    (a b : ℕ) (d : Date) {x y : Date}
    → minus_days a d ≡ ok x
    → minus_days (a + b) d ≡ ok y
    → date_le y x ≡ true
minus_days-more a b d {x = x} hx hy = minus_days-le b x (rw (minus_days-add a b d, hx) at hy)

one : Bool → ℕ
one b = if b then 1 else 0

-- A due date before today is in one bucket.
one-bucket :
    (month week today due : Date)
    → date_le month week ≡ true
    → date_le week today ≡ true
    → one (is_overdue_between week today due)
        + one (is_overdue_between month week due)
        + one (is_overdue month due)
      ≡ one (is_overdue today due)
unfolding one date_le date_lt
one-bucket month week today due h k = ground arith

count_active-cons :
    (test : Date → Bool) (l : Loan) (loans : List Loan)
    → count_active test (l ∷ loans)
      ≡ one (is_active l && test l.next_interest_due_date) + count_active test loans
unfolding one
count_active-cons test l loans = elim (Bool-cases (is_active l && test l.next_interest_due_date)) [
  | inl counted ↦ rw counted (omega arith)
  | inr left ↦ rw left (omega arith)
]

active-bucket :
    (b : Bool) (month week today due : Date)
    → date_le month week ≡ true
    → date_le week today ≡ true
    → one (b && is_overdue_between week today due)
        + one (b && is_overdue_between month week due)
        + one (b && is_overdue month due)
      ≡ one (b && is_overdue today due)
unfolding one
active-bucket true month week today due h k = one-bucket month week today due h k
active-bucket false month week today due h k = refl

count_active-buckets :
    (month week today : Date) (loans : List Loan)
    → date_le month week ≡ true
    → date_le week today ≡ true
    → count_active (is_overdue_between week today) loans
        + count_active (is_overdue_between month week) loans
        + count_active (is_overdue month) loans
      ≡ count_active (is_overdue today) loans
count_active-buckets month week today [] h k = refl
count_active-buckets month week today (l ∷ loans) h k = omega (
  arith,
  count_active-cons (is_overdue_between week today) l loans,
  count_active-cons (is_overdue_between month week) l loans,
  count_active-cons (is_overdue month) l loans,
  count_active-cons (is_overdue today) l loans,
  active-bucket (is_active l) month week today l.next_interest_due_date h k,
  count_active-buckets month week today loans h k,
)

-- The overdue loans of a snapshot are those of its three buckets together: one to seven days, eight
-- to thirty days and more than thirty days.
pub get_portfolio_snapshot-buckets :
    (today : Date) (s : Store) {p : PortfolioSnapshot}
    → get_portfolio_snapshot today s ≡ ok p
    → p.overdue_1_7_days_count + p.overdue_8_30_days_count + p.overdue_30_plus_days_count
      ≡ p.overdue_loan_count
unfolding get_portfolio_snapshot snapshot_of
get_portfolio_snapshot-buckets today s h =
    let finish : Date → Date → Date → MoneyTotals → Result PortfolioSnapshot =
      λ next week month money. ok (snapshot_of today next week month s money) in
    let with_month : Projection → Date → Date → Date → Result PortfolioSnapshot =
      λ p next week month. money_totals today next p s.loans >>= finish next week month in
    let with_week : Projection → Date → Date → Result PortfolioSnapshot =
      λ p next week. minus_days 30 today >>= with_month p next week in
    let with_next : Projection → Date → Result PortfolioSnapshot =
      λ p next. minus_days 7 today >>= with_week p next in
    let (p, ep, h1) =
      >>=-eq-ok (project_loans today (filter is_projected s.loans) (initial_projection s.loans))
        (λ p. plus_days 7 today >>= with_next p) h in
    let (next, en, h2) = >>=-eq-ok (plus_days 7 today) (with_next p) h1 in
    let (week, ew, h3) = >>=-eq-ok (minus_days 7 today) (with_week p next) h2 in
    let (month, em, h4) = >>=-eq-ok (minus_days 30 today) (with_month p next week) h3 in
    let (money, et, h5) =
      >>=-eq-ok (money_totals today next p s.loans) (finish next week month) h4 in
    subst
      (λ r.
        r.overdue_1_7_days_count + r.overdue_8_30_days_count + r.overdue_30_plus_days_count
        ≡ r.overdue_loan_count)
      (ok_injective h5)
      (count_active-buckets month week today s.loans (minus_days-more 7 23 today ew em)
        (minus_days-le 7 today ew))
