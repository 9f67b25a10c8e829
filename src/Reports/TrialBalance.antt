-- ===== src/Reports/TrialBalance.antt =====
-- The account balances when every journal balances: backend/app/features/reports/service.py over
-- the journals of backend/app/features/accounting/service.py.
use nelson_lending_v.Prelude.{
  ℕ, ◌+◌, ◌<◌, ◌≡◌, ◌≢◌, ◌⊎◌, inl, inr, refl, arith, ◌==◌, Bool-cases, if◌then◌else◌, some, List,
  [], ◌∷◌, ◌++◌, map, All, All-append,
}
use nelson_lending_v.Prelude.Int.{ℤ, pos, abs, ◌+ℤ◌, ◌-ℤ◌, +ℤ_parts, -ℤ_parts, eq_of_parts}
use nelson_lending_v.Prelude.Result.{ok, ◌>>=◌}
use nelson_lending_v.Decimal.{Decimal, cents, quantize_money, precision_limit}
use nelson_lending_v.Decimal.Cents.{sub-cents, quantize_money-cents}
use nelson_lending_v.Calculator.Allocation.Conservation.{centavos}
use nelson_lending_v.Accounting.{SystemAccount, code_eq}
use nelson_lending_v.Accounting.Balance.{IsOneSided, IsBalanced, sum_centavos, debits, credits}
use nelson_lending_v.Store.{Store}
use nelson_lending_v.Store.Query.{first_row}
use nelson_lending_v.Store.Rows.{
  Account, cash, loans_receivable, customer_credit, interest_income, asset, liability, income,
  NormalBalance, debit_balance, credit_balance, JournalEntry, JournalTransaction,
}
use nelson_lending_v.Reports.{
  AccountBalance, all_entries, entries_of, balance_of, account_balance, account_balances,
  get_accounting_balances,
}
use nelson_lending_v.Reports.Collections.{IsCents, sql_sum-cents}

-- The centavos of one column of the entries of an account.
column_of : (JournalEntry → Decimal) → ℕ → List JournalEntry → ℕ
column_of col i es = sum_centavos (map col (entries_of i es))

column_of-cons :
    (col : JournalEntry → Decimal) (i : ℕ) (e : JournalEntry) (es : List JournalEntry)
    → column_of col i (e ∷ es)
      ≡ (if e.account_id == i then centavos (col e) else 0) + column_of col i es
unfolding column_of
column_of-cons col i e es = elim (Bool-cases (e.account_id == i)) [
  | inl hit ↦ rw hit refl
  | inr miss ↦ rw miss (omega arith)
]

column_of-nil : (col : JournalEntry → Decimal) (i : ℕ) → column_of col i [] ≡ 0
unfolding column_of
column_of-nil col i = refl

-- The four accounts of the chart, and that an entry is on one of them.
pub record Chart : Type 0 where
  pub cash_row : Account
  pub receivable_row : Account
  pub credit_row : Account
  pub income_row : Account

abbrev pub IsCharted : Chart → JournalEntry → Type 0
IsCharted c e =
    (e.account_id ≡ c.cash_row.id)
    ⊎ ((e.account_id ≡ c.receivable_row.id)
        ⊎ ((e.account_id ≡ c.credit_row.id) ⊎ (e.account_id ≡ c.income_row.id)))

-- The rows of the chart have the codes and the normal balances of the constants, and four
-- different identifiers.
pub record IsChart (c : Chart) (s : Store) : Type 0 where
  pub cash_found : first_row (λ (a : Account). code_eq cash a.code) s.accounts ≡ some c.cash_row
  pub receivable_found :
      first_row (λ (a : Account). code_eq loans_receivable a.code) s.accounts
      ≡ some c.receivable_row
  pub credit_found :
      first_row (λ (a : Account). code_eq customer_credit a.code) s.accounts ≡ some c.credit_row
  pub income_found :
      first_row (λ (a : Account). code_eq interest_income a.code) s.accounts ≡ some c.income_row
  pub cash_normal : c.cash_row.normal_balance ≡ debit_balance
  pub receivable_normal : c.receivable_row.normal_balance ≡ debit_balance
  pub credit_normal : c.credit_row.normal_balance ≡ credit_balance
  pub income_normal : c.income_row.normal_balance ≡ credit_balance
  pub cash_receivable : c.cash_row.id ≢ c.receivable_row.id
  pub cash_credit : c.cash_row.id ≢ c.credit_row.id
  pub cash_income : c.cash_row.id ≢ c.income_row.id
  pub receivable_credit : c.receivable_row.id ≢ c.credit_row.id
  pub receivable_income : c.receivable_row.id ≢ c.income_row.id
  pub credit_income : c.credit_row.id ≢ c.income_row.id

pick :
    (k i j l m x : ℕ)
    → (k ≡ i) ⊎ ((k ≡ j) ⊎ ((k ≡ l) ⊎ (k ≡ m)))
    → i ≢ j
    → i ≢ l
    → i ≢ m
    → j ≢ l
    → j ≢ m
    → l ≢ m
    → (if k == i then x else 0)
        + (if k == j then x else 0)
        + (if k == l then x else 0)
        + (if k == m then x else 0)
      ≡ x
pick k i j l m x one a b c d e f = ground arith

-- A column's total is the sum over the four accounts.
column_of-total :
    (c : Chart) (s : Store) (col : JournalEntry → Decimal) (es : List JournalEntry)
    → IsChart c s
    → All (IsCharted c) es
    → column_of col c.cash_row.id es
        + column_of col c.receivable_row.id es
        + column_of col c.credit_row.id es
        + column_of col c.income_row.id es
      ≡ sum_centavos (map col es)
column_of-total c s col [] v h = omega (
  arith,
  column_of-nil col c.cash_row.id,
  column_of-nil col c.receivable_row.id,
  column_of-nil col c.credit_row.id,
  column_of-nil col c.income_row.id,
)
column_of-total c s col (e ∷ es) v h = omega (
  arith,
  column_of-cons col c.cash_row.id e es,
  column_of-cons col c.receivable_row.id e es,
  column_of-cons col c.credit_row.id e es,
  column_of-cons col c.income_row.id e es,
  pick e.account_id c.cash_row.id c.receivable_row.id c.credit_row.id c.income_row.id
      (centavos (col e)) h.0 v.cash_receivable v.cash_credit v.cash_income v.receivable_credit
      v.receivable_income v.credit_income,
  column_of-total c s col es v h.1,
)

sum_centavos-append :
    (col : JournalEntry → Decimal) (xs ys : List JournalEntry)
    → sum_centavos (map col (xs ++ ys)) ≡ sum_centavos (map col xs) + sum_centavos (map col ys)
sum_centavos-append col [] ys = omega arith
sum_centavos-append col (x ∷ xs) ys = omega (arith, sum_centavos-append col xs ys)

abbrev pub IsBooked : JournalTransaction → Type 0
IsBooked j = IsBalanced j.entries

all_entries-balanced :
    (js : List JournalTransaction)
    → All IsBooked js
    → debits (all_entries js) ≡ credits (all_entries js)
all_entries-balanced [] h = refl
all_entries-balanced (j ∷ js) h = omega (
  arith,
  sum_centavos-append (λ e. e.debit) j.entries (all_entries js),
  sum_centavos-append (λ e. e.credit) j.entries (all_entries js),
  h.0.balanced,
  all_entries-balanced js h.1,
)

All-all_entries : (js : List JournalTransaction) → All IsBooked js → All IsOneSided (all_entries js)
All-all_entries [] h = tt
All-all_entries (j ∷ js) h =
    All-append IsOneSided j.entries (all_entries js) h.0.lines (All-all_entries js h.1)

money_columns :
    (i : ℕ) (es : List JournalEntry)
    → All IsOneSided es
    → All IsCents (map (λ e. e.debit) (entries_of i es))
      × All IsCents (map (λ e. e.credit) (entries_of i es))
money_columns i [] h = (tt, tt)
money_columns i (e ∷ es) h =
    let rest = money_columns i es h.1 in
    elim (Bool-cases (e.account_id == i)) [
      | inl hit ↦ rw hit ((h.0.debit_cents, rest.0), (h.0.credit_cents, rest.1))
      | inr miss ↦ rw miss rest
    ]

abs-lt : (a b n : ℕ) → a < n → b < n → abs (pos a -ℤ pos b) < n
unfolding ◌-ℤ◌
abs-lt a b n h k = ground arith

-- The balance of an account on its normal side.
abbrev pub signed_balance : NormalBalance → (debit credit : ℕ) → ℤ
signed_balance debit_balance debit credit = pos debit -ℤ pos credit
signed_balance credit_balance debit credit = pos credit -ℤ pos debit

abbrev pub balance_row : SystemAccount → NormalBalance → ℤ → AccountBalance
balance_row definition side a = record {
  code = definition.code;
  normal_balance = side;
  balance = cents a;
}

account_balance-money :
    (definition : SystemAccount) (row : Account) (es : List JournalEntry)
    → All IsOneSided es
    → column_of (λ e. e.debit) row.id es < precision_limit
    → column_of (λ e. e.credit) row.id es < precision_limit
    → account_balance definition (some row) es
      ≡ ok (
          balance_row definition row.normal_balance (
            signed_balance row.normal_balance
              (column_of (λ e. e.debit) row.id es)
              (column_of (λ e. e.credit) row.id es)))
unfolding column_of
account_balance-money definition row es v hd hc =
    let money = money_columns row.id es v in
    rw (sql_sum-cents _ money.0, sql_sum-cents _ money.1) (side row.normal_balance)
  where
    d : ℕ
    d = column_of (λ e. e.debit) row.id es

    c : ℕ
    c = column_of (λ e. e.credit) row.id es

    side :
        (n : NormalBalance)
        → (quantize_money (balance_of n (cents (pos d)) (cents (pos c))) >>= λ b.
            ok (record { code = definition.code; normal_balance = n; balance = b }))
          ≡ ok (balance_row definition n (signed_balance n d c))
    side debit_balance =
        rw
          (
            sub-cents (pos d) (pos c) (abs-lt d c _ hd hc),
            quantize_money-cents (pos d -ℤ pos c) (abs-lt d c _ hd hc),
          )
          refl
    side credit_balance =
        rw
          (
            sub-cents (pos c) (pos d) (abs-lt c d _ hc hd),
            quantize_money-cents (pos c -ℤ pos d) (abs-lt c d _ hc hd),
          )
          refl

four-balance :
    (d1 d2 d3 d4 c1 c2 c3 c4 : ℕ)
    → d1 + d2 + d3 + d4 ≡ c1 + c2 + c3 + c4
    → (pos d1 -ℤ pos c1) +ℤ (pos d2 -ℤ pos c2) ≡ (pos c3 -ℤ pos d3) +ℤ (pos c4 -ℤ pos d4)
four-balance d1 d2 d3 d4 c1 c2 c3 c4 h = eq_of_parts _ _ (
    omega (
      arith,
      h,
      +ℤ_parts (pos d1 -ℤ pos c1) (pos d2 -ℤ pos c2),
      +ℤ_parts (pos c3 -ℤ pos d3) (pos c4 -ℤ pos d4),
      -ℤ_parts (pos d1) (pos c1),
      -ℤ_parts (pos d2) (pos c2),
      -ℤ_parts (pos c3) (pos d3),
      -ℤ_parts (pos c4) (pos d4),
    ))

-- When every journal balances and every entry is on one of the four system accounts, the reported
-- balances are in order: cash and receivables together equal customer credit and interest income
-- together. The total of the debits is bounded by the precision of the decimals.
pub get_accounting_balances-trial :
    (c : Chart) (s : Store)
    → IsChart c s
    → All IsBooked s.journals
    → All (IsCharted c) (all_entries s.journals)
    → debits (all_entries s.journals) < precision_limit
    → (a b l i : ℤ) × (get_accounting_balances s
        ≡ ok (
            record { code = cash; normal_balance = debit_balance; balance = cents a }
            ∷ record { code = loans_receivable; normal_balance = debit_balance; balance = cents b }
            ∷ record { code = customer_credit; normal_balance = credit_balance; balance = cents l }
            ∷ record { code = interest_income; normal_balance = credit_balance; balance = cents i }
            ∷ []))
      × (a +ℤ b ≡ l +ℤ i)
unfolding account_balances
get_accounting_balances-trial c s v booked charted small =
    let es = all_entries s.journals in
    let D : ℕ → ℕ = λ k. column_of (λ e. e.debit) k es in
    let C : ℕ → ℕ = λ k. column_of (λ e. e.credit) k es in
    let sided = All-all_entries s.journals booked in
    let total_d = column_of-total c s (λ e. e.debit) es v charted in
    let total_c = column_of-total c s (λ e. e.credit) es v charted in
    let same = all_entries-balanced s.journals booked in
    let of_cash =
      account_balance-money
        (record { code = cash; account_type = asset; normal_balance = debit_balance }) c.cash_row es
        sided (omega arith) (omega arith) in
    let of_receivable =
      account_balance-money
        (record { code = loans_receivable; account_type = asset; normal_balance = debit_balance })
        c.receivable_row es sided (omega arith) (omega arith) in
    let of_credit =
      account_balance-money
        (record {
          code = customer_credit;
          account_type = liability;
          normal_balance = credit_balance;
        })
        c.credit_row es sided (omega arith) (omega arith) in
    let of_income =
      account_balance-money
        (record { code = interest_income; account_type = income; normal_balance = credit_balance })
        c.income_row es sided (omega arith) (omega arith) in
    (
      pos (D c.cash_row.id) -ℤ pos (C c.cash_row.id),
      pos (D c.receivable_row.id) -ℤ pos (C c.receivable_row.id),
      pos (C c.credit_row.id) -ℤ pos (D c.credit_row.id),
      pos (C c.income_row.id) -ℤ pos (D c.income_row.id),
      rw
          (
            v.cash_found, v.receivable_found, v.credit_found, v.income_found, of_cash,
            of_receivable, of_credit, of_income, v.cash_normal, v.receivable_normal,
            v.credit_normal, v.income_normal,
          )
          refl,
      four-balance (D c.cash_row.id) (D c.receivable_row.id) (D c.credit_row.id) (D c.income_row.id)
          (C c.cash_row.id) (C c.receivable_row.id) (C c.credit_row.id) (C c.income_row.id)
          (omega (arith, total_d, total_c, same)),
    )
