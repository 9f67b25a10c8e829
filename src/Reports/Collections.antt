-- ===== src/Reports/Collections.antt =====
-- The collections of a range of dates: backend/app/features/reports/service.py.
use mathlib.Core.Path.{subst}
use nelson_lending_v.Prelude.{
  ℕ, ◌+◌, ◌≡◌, ◌∙◌, refl, ap, ap₂, arith, Bool, Bool-cases, inl, inr, List, [], ◌∷◌, map, All,
}
use nelson_lending_v.Prelude.Int.{pos, pos_part, ◌+ℤ◌, +ℤ-pos}
use nelson_lending_v.Prelude.Result.{Result, ok, ◌>>=◌, >>=-eq-ok, ok_injective}
use nelson_lending_v.Decimal.{Decimal, cents, quantize, quantize_money, round_half_up}
use nelson_lending_v.Decimal.Cents.{aligned-cents}
use nelson_lending_v.Decimal.Quantize.{quantize_coefficient}
use nelson_lending_v.Calculator.Allocation.Conservation.{centavos}
use nelson_lending_v.Accounting.Balance.{sum_centavos}
use nelson_lending_v.Calendar.{Date}
use nelson_lending_v.Store.{Store}
use nelson_lending_v.Store.Rows.{Payment}
use nelson_lending_v.Store.Table.{filter}
use nelson_lending_v.Reports.{
  sql_sum, exact_add, collection_exclusive_end, is_collected, CollectionsSummary,
  get_collections_summary,
}

abbrev pub IsCents : Decimal → Type 0
IsCents d = d ≡ cents (pos (centavos d))

-- PostgreSQL's sum of amounts of money is the sum of their centavos.
pub sql_sum-cents :
    (ds : List Decimal) → All IsCents ds → sql_sum ds ≡ cents (pos (sum_centavos ds))
unfolding sql_sum
sql_sum-cents [] h = refl
sql_sum-cents (d ∷ ds) h =
    rw (sql_sum-cents ds h.1) (ap (λ x. exact_add x (cents (pos (sum_centavos ds)))) h.0)
    ∙ ap cents (
        ap₂ (λ a b. a +ℤ b) (aligned-cents (pos (centavos d)) (pos (sum_centavos ds)))
          (aligned-cents (pos (sum_centavos ds)) (pos (centavos d)))
        ∙ +ℤ-pos (centavos d) (sum_centavos ds))

pub quantize_money-centavos :
    (d : Decimal) (n : ℕ) {q : Decimal}
    → d ≡ cents (pos n)
    → quantize_money d ≡ ok q
    → centavos q ≡ n
unfolding quantize_money round_half_up
quantize_money-centavos d n {q = q} e h =
    let exact = subst (λ x. quantize 2 x ≡ ok q) e h in
    ap pos_part (quantize_coefficient 2 (cents (pos n)) exact) ∙ omega arith

-- What `post_payment` writes: amounts in centavos, the whole of which is allocated.
pub record IsPosted (p : Payment) : Type 0 where
  pub amount_cents : IsCents p.amount
  pub principal_cents : IsCents p.principal_paid
  pub interest_cents : IsCents p.interest_paid
  pub credit_cents : IsCents p.unapplied_credit
  pub spent :
      centavos p.amount
      ≡ centavos p.principal_paid + centavos p.interest_paid + centavos p.unapplied_credit

All-filter :
    (test : Payment → Bool) (ps : List Payment) → All IsPosted ps → All IsPosted (filter test ps)
All-filter test [] h = tt
All-filter test (p ∷ ps) h = elim (Bool-cases (test p)) [
  | inl kept ↦ rw kept (h.0, All-filter test ps h.1)
  | inr left ↦ rw left (All-filter test ps h.1)
]

-- A column of money, summed.
column_sum :
    (column : Payment → Decimal) (ps : List Payment)
    → ((p : Payment) → IsPosted p → IsCents (column p))
    → All IsPosted ps
    → sql_sum (map column ps) ≡ cents (pos (sum_centavos (map column ps)))
column_sum column ps money h = sql_sum-cents (map column ps) (All-column ps h)
  where
    All-column : (qs : List Payment) → All IsPosted qs → All IsCents (map column qs)
    All-column [] v = tt
    All-column (q ∷ qs) v = (money q v.0, All-column qs v.1)

column_total :
    (column : Payment → Decimal) (ps : List Payment) {d : Decimal}
    → ((p : Payment) → IsPosted p → IsCents (column p))
    → All IsPosted ps
    → quantize_money (sql_sum (map column ps)) ≡ ok d
    → centavos d ≡ sum_centavos (map column ps)
column_total column ps money h q = quantize_money-centavos _ _ (column_sum column ps money h) q

sum-spent :
    (ps : List Payment)
    → All IsPosted ps
    → sum_centavos (map (λ p. p.amount) ps)
      ≡ sum_centavos (map (λ p. p.principal_paid) ps)
        + sum_centavos (map (λ p. p.interest_paid) ps)
        + sum_centavos (map (λ p. p.unapplied_credit) ps)
sum-spent [] h = refl
sum-spent (p ∷ ps) h = omega (arith, h.0.spent, sum-spent ps h.1)

totals-conserve :
    (ps : List Payment)
    → All IsPosted ps
    → (a p i r : Decimal) → quantize_money (sql_sum (map (λ x. x.amount) ps)) ≡ ok a
    → quantize_money (sql_sum (map (λ x. x.principal_paid) ps)) ≡ ok p
    → quantize_money (sql_sum (map (λ x. x.interest_paid) ps)) ≡ ok i
    → quantize_money (sql_sum (map (λ x. x.unapplied_credit) ps)) ≡ ok r
    → centavos a ≡ centavos p + centavos i + centavos r
totals-conserve ps posted a p i r ea ep ei er = omega (
  arith,
  column_total (λ x. x.amount) ps (λ x w. w.amount_cents) posted ea,
  column_total (λ x. x.principal_paid) ps (λ x w. w.principal_cents) posted ep,
  column_total (λ x. x.interest_paid) ps (λ x w. w.interest_cents) posted ei,
  column_total (λ x. x.unapplied_credit) ps (λ x w. w.credit_cents) posted er,
  sum-spent ps posted,
)

summary_of : Date → Date → (a p i r : Decimal) → CollectionsSummary
summary_of from_date to_date a p i r = record {
  from_date = from_date;
  to_date = to_date;
  total_payment_amount = a;
  principal_allocation = p;
  interest_allocation = i;
  unapplied_credit_allocation = r;
}

IsConserved : CollectionsSummary → Type 0
IsConserved c =
    centavos c.total_payment_amount
    ≡ centavos c.principal_allocation
      + centavos c.interest_allocation
      + centavos c.unapplied_credit_allocation

-- When every payment was allocated as a whole, the total of the collections of a range of dates is
-- the sum of what went to principal, to interest and to credit.
pub get_collections_summary-conserves :
    (from_date to_date : Date) (s : Store) {c : CollectionsSummary}
    → All IsPosted s.payments
    → get_collections_summary from_date to_date s ≡ ok c
    → centavos c.total_payment_amount
      ≡ centavos c.principal_allocation
        + centavos c.interest_allocation
        + centavos c.unapplied_credit_allocation
unfolding get_collections_summary summary_of IsConserved
get_collections_summary-conserves from_date to_date s v h =
    let summary : Decimal → Decimal → Decimal → Decimal → Result CollectionsSummary =
      λ amount principal interest credit.
        ok (summary_of from_date to_date amount principal interest credit) in
    let rows_of : Date → List Payment = λ end. filter (is_collected from_date end) s.payments in
    let credit_step : Date → Decimal → Decimal → Decimal → Result CollectionsSummary = λ end a p i.
      quantize_money (sql_sum (map (λ x. x.unapplied_credit) (rows_of end))) >>= summary a p i in
    let interest_step : Date → Decimal → Decimal → Result CollectionsSummary = λ end a p.
      quantize_money (sql_sum (map (λ x. x.interest_paid) (rows_of end))) >>= credit_step end a p in
    let principal_step : Date → Decimal → Result CollectionsSummary = λ end a.
      quantize_money (sql_sum (map (λ x. x.principal_paid) (rows_of end)))
      >>= interest_step end a in
    let amount_step : Date → Result CollectionsSummary =
      λ end. quantize_money (sql_sum (map (λ x. x.amount) (rows_of end))) >>= principal_step end in
    let (end, ee, h1) = >>=-eq-ok (collection_exclusive_end from_date to_date) amount_step h in
    let (a, ea, h2) =
      >>=-eq-ok (quantize_money (sql_sum (map (λ x. x.amount) (rows_of end)))) (principal_step end)
        h1 in
    let (p, ep, h3) =
      >>=-eq-ok (quantize_money (sql_sum (map (λ x. x.principal_paid) (rows_of end))))
        (interest_step end a) h2 in
    let (i, ei, h4) =
      >>=-eq-ok (quantize_money (sql_sum (map (λ x. x.interest_paid) (rows_of end))))
        (credit_step end a p) h3 in
    let (r, er, h5) =
      >>=-eq-ok (quantize_money (sql_sum (map (λ x. x.unapplied_credit) (rows_of end))))
        (summary a p i) h4 in
    let rows = rows_of end in
    subst IsConserved (ok_injective {a = summary_of from_date to_date a p i r} h5) (
      totals-conserve rows (All-filter (is_collected from_date end) s.payments v) a p i r ea ep ei
        er)
