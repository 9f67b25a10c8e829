-- ===== src/Accounting/Balance.antt =====
-- Double entry: a journal that `post_journal` posts has two lines or more, each with one positive
-- side, and its debits and credits have the same sum.
use nelson_lending_v.Prelude.{
  ℕ, suc, ◌+◌, ◌*◌, ◌≤◌, ◌<◌, ◌≡◌, ◌∙◌, ◌⊎◌, refl, sym, ap, arith, false, not, ◌||◌, ◌&&◌, ltb,
  List, [], ◌∷◌, ◌++◌, map, length, All,
}
use nelson_lending_v.Prelude.Int.{ℤ, pos, negsuc, +ℤ-pos, pos_part, eqb_ℤ, ltb_ℤ}
use nelson_lending_v.Prelude.Result.{
  ok, ◌>>=◌, >>=-eq-ok, raise_if-eq_ok, ok_injective, cons-eq_ok, entry_negative,
  entry_not_one_sided, too_few_entries, unbalanced_journal,
}
use nelson_lending_v.Decimal.{
  Decimal, cents, precision_limit, context_round, add, eq, quantize_money,
}
use nelson_lending_v.Decimal.Cents.{add-pos, lt-cents, eq-cents, context_round_fits}
use nelson_lending_v.Decimal.Quantize.{quantize_money-is_cents}
use nelson_lending_v.Calculator.Allocation.Conservation.{centavos}
use nelson_lending_v.Store.{Store, Clock}
use nelson_lending_v.Store.Rows.{JournalEntry, JournalTransaction}
use nelson_lending_v.Accounting.{
  Line, line, check_sides, validate_line, validate_lines, sum_from, integer_zero, entry_of, Posting,
  journal_of, post_validated, post_journal,
}

-- Amounts in centavos, exactly one of them positive.
pub record IsOneSided (e : JournalEntry) : Type 0 where
  pub debit_cents : e.debit ≡ cents (pos (centavos e.debit))
  pub credit_cents : e.credit ≡ cents (pos (centavos e.credit))
  pub one_side :
      ((0 < centavos e.debit) × (centavos e.credit ≡ 0))
      ⊎ ((centavos e.debit ≡ 0) × (0 < centavos e.credit))

abbrev pub sum_centavos : List Decimal → ℕ
sum_centavos [] = 0
sum_centavos (d ∷ rest) = centavos d + sum_centavos rest

abbrev pub debits : List JournalEntry → ℕ
debits es = sum_centavos (map (λ e. e.debit) es)

abbrev pub credits : List JournalEntry → ℕ
credits es = sum_centavos (map (λ e. e.credit) es)

pub record IsBalanced (entries : List JournalEntry) : Type 0 where
  pub enough : 2 ≤ length entries
  pub lines : All IsOneSided entries
  pub balanced : debits entries ≡ credits entries

one_side_of :
    (d c : ℤ)
    → (ltb_ℤ d (pos 0) || ltb_ℤ c (pos 0)) ≡ false
    → ((ltb_ℤ (pos 0) d && ltb_ℤ (pos 0) c) || (eqb_ℤ d (pos 0) && eqb_ℤ c (pos 0))) ≡ false
    → (d ≡ pos (pos_part d))
      × (c ≡ pos (pos_part c))
      × (((0 < pos_part d) × (pos_part c ≡ 0)) ⊎ ((pos_part d ≡ 0) × (0 < pos_part c)))
one_side_of (pos d) (pos c) h k = (refl, refl, ground arith)
one_side_of (pos d) (negsuc c) h k = ground arith
one_side_of (negsuc d) c h k = ground arith

check_sides-IsOneSided :
    (account : ℕ) (d c : ℤ) {v : Line}
    → check_sides account (cents d) (cents c) ≡ ok v
    → IsOneSided (entry_of v)
unfolding check_sides
check_sides-IsOneSided account d c h =
    let h' =
      rw
        (
          lt-cents d (pos 0),
          lt-cents c (pos 0),
          lt-cents (pos 0) d,
          lt-cents (pos 0) c,
          eq-cents d (pos 0),
          eq-cents c (pos 0),
          check_sides,
        )
        at h in
    let (nonneg, h1) = raise_if-eq_ok (ltb_ℤ d (pos 0) || ltb_ℤ c (pos 0)) entry_negative _ h' in
    let (sided, h2) =
      raise_if-eq_ok ((ltb_ℤ (pos 0) d && ltb_ℤ (pos 0) c) || (eqb_ℤ d (pos 0) && eqb_ℤ c (pos 0)))
        entry_not_one_sided (ok (line account (cents d) (cents c))) h1 in
    let (ed, ec, one) = one_side_of d c nonneg sided in
    rw (← ok_injective h2)
      (record { debit_cents = ap cents ed; credit_cents = ap cents ec; one_side = one })

pub validate_line-IsOneSided :
    (l : Line) {v : Line} → validate_line l ≡ ok v → IsOneSided (entry_of v)
unfolding validate_line
validate_line-IsOneSided l {v} h =
    let (d, ed, h1) =
      >>=-eq-ok (quantize_money l.debit)
        (λ d. quantize_money l.credit >>= λ c. check_sides l.account d c) h in
    let (c, ec, h2) = >>=-eq-ok (quantize_money l.credit) (λ c. check_sides l.account d c) h1 in
    check_sides-IsOneSided l.account d.coefficient c.coefficient
      (rw (quantize_money-is_cents l.debit ed, quantize_money-is_cents l.credit ec) at h2)

validate_lines-IsOneSided :
    (ls : List Line) {vs : List Line}
    → validate_lines ls ≡ ok vs
    → All IsOneSided (map entry_of vs) × (length (map entry_of vs) ≡ length ls)
unfolding validate_lines
validate_lines-IsOneSided [] h = rw (← ok_injective h) (tt, refl)
validate_lines-IsOneSided (l ∷ ls) h =
    let (v, rest, ev, erest, same) = cons-eq_ok (validate_line l) (validate_lines ls) h in
    let (valid, count) = validate_lines-IsOneSided ls erest in
    rw same ((validate_line-IsOneSided l ev, valid), ap suc count)

add-integer_zero : (n : ℕ) → n < precision_limit → add integer_zero (cents (pos n)) ≡ cents (pos n)
unfolding add
add-integer_zero n h =
    ap (λ c. context_round (cents c)) (+ℤ-pos 0 (n * 1) ∙ ap pos (omega arith))
    ∙ context_round_fits (cents (pos n)) h

abbrev IsCents : Decimal → Type 0
IsCents d = d ≡ cents (pos (centavos d))

sum_from-cents :
    (ds : List Decimal) (t : ℕ)
    → All IsCents ds
    → t + sum_centavos ds < precision_limit
    → sum_from (cents (pos t)) ds ≡ cents (pos (t + sum_centavos ds))
unfolding sum_from
sum_from-cents [] t valid h = ap (λ n. cents (pos n)) (omega arith)
sum_from-cents (d ∷ ds) t valid h =
    ap (λ x. sum_from x ds)
      (ap (add (cents (pos t))) valid.0 ∙ add-pos t (centavos d) (omega arith))
    ∙ sum_from-cents ds (t + centavos d) valid.1 (omega arith)
    ∙ ap (λ n. cents (pos n)) (omega arith)

sum_from-integer_zero :
    (ds : List Decimal)
    → 1 ≤ length ds
    → All IsCents ds
    → sum_centavos ds < precision_limit
    → sum_from integer_zero ds ≡ cents (pos (sum_centavos ds))
unfolding sum_from
sum_from-integer_zero [] some_left valid h = absurd (omega arith)
sum_from-integer_zero (d ∷ ds) some_left valid h =
    ap (λ x. sum_from x ds)
      (ap (add integer_zero) valid.0 ∙ add-integer_zero (centavos d) (omega arith))
    ∙ sum_from-cents ds (centavos d) valid.1 h

All-debits :
    (ls : List Line) → All IsOneSided (map entry_of ls) → All IsCents (map (λ l. l.debit) ls)
All-debits [] h = tt
All-debits (l ∷ ls) h = (h.0.debit_cents, All-debits ls h.1)

All-credits :
    (ls : List Line) → All IsOneSided (map entry_of ls) → All IsCents (map (λ l. l.credit) ls)
All-credits [] h = tt
All-credits (l ∷ ls) h = (h.0.credit_cents, All-credits ls h.1)

debits-entries : (ls : List Line) → debits (map entry_of ls) ≡ sum_centavos (map (λ l. l.debit) ls)
debits-entries [] = refl
debits-entries (l ∷ ls) = ap (λ n. centavos l.debit + n) (debits-entries ls)

credits-entries :
    (ls : List Line) → credits (map entry_of ls) ≡ sum_centavos (map (λ l. l.credit) ls)
credits-entries [] = refl
credits-entries (l ∷ ls) = ap (λ n. centavos l.credit + n) (credits-entries ls)

length-map {ℓ κ} :
    {A : Type ℓ} {B : Type κ} (f : A → B) (xs : List A) → length (map f xs) ≡ length xs
length-map f [] = refl
length-map f (x ∷ xs) = ap suc (length-map f xs)

eq-cents_true : (a b : ℕ) → not (eq (cents (pos a)) (cents (pos b))) ≡ false → a ≡ b
eq-cents_true a b h = ground (arith, rw (eq-cents (pos a) (pos b)) at h)

lines-IsBalanced :
    (ls vs : List Line)
    → validate_lines ls ≡ ok vs
    → 2 ≤ length ls
    → not (
        eq
          (sum_from integer_zero (map (λ l. l.debit) vs))
          (sum_from integer_zero (map (λ l. l.credit) vs)))
      ≡ false
    → debits (map entry_of vs) < precision_limit
    → credits (map entry_of vs) < precision_limit
    → IsBalanced (map entry_of vs)
lines-IsBalanced ls vs h enough equal hd hc =
    let (valid, count) = validate_lines-IsOneSided ls h in
    let size = length-map entry_of vs in
    let sd =
      sum_from-integer_zero (map (λ l. l.debit) vs)
        (omega (arith, length-map (λ (l : Line). l.debit) vs)) (All-debits vs valid)
        (rw (debits-entries vs) at hd) in
    let sc =
      sum_from-integer_zero (map (λ l. l.credit) vs)
        (omega (arith, length-map (λ (l : Line). l.credit) vs)) (All-credits vs valid)
        (rw (credits-entries vs) at hc) in
    record {
      enough = omega arith;
      lines = valid;
      balanced =
          debits-entries vs ∙ eq-cents_true _ _ (rw (sd, sc) at equal) ∙ sym (credits-entries vs);
    }

pub post_validated-eq_ok :
    (clock : Clock) (p : Posting) (vs : List Line) (s : Store) {r : JournalTransaction × Store}
    → post_validated clock p vs s ≡ ok r
    → (not (
          eq
            (sum_from integer_zero (map (λ l. l.debit) vs))
            (sum_from integer_zero (map (λ l. l.credit) vs)))
        ≡ false)
      × ((
        journal_of s.next_id clock.now p vs,
        record s {
          next_id = s.next_id + 1;
          journals = s.journals ++ (journal_of s.next_id clock.now p vs ∷ []);
        },
      )
          ≡ r)
unfolding post_validated
post_validated-eq_ok clock p vs s h =
    let (equal, h') = raise_if-eq_ok _ unbalanced_journal _ h in (equal, ok_injective h')

-- A journal that is posted whose debits and credits each fit 28 digits has two lines or more,
-- each with exactly one positive side, and equal sums of debits and credits; it is appended to the
-- journals, and no other table changes.
pub post_journal-IsBalanced :
    (clock : Clock) (p : Posting) (entries : List Line) (s : Store) {tx : JournalTransaction}
    {s' : Store}
    → post_journal clock p entries s ≡ ok (tx, s')
    → debits tx.entries < precision_limit
    → credits tx.entries < precision_limit
    → IsBalanced tx.entries
      × (s' ≡ record s { next_id = s.next_id + 1; journals = s.journals ++ (tx ∷ []) })
unfolding post_journal
post_journal-IsBalanced clock p entries s h hd hc =
    let (enough, h1) = raise_if-eq_ok (ltb (length entries) 2) too_few_entries _ h in
    let (vs, valid, h2) =
      >>=-eq-ok (validate_lines entries) (λ vs. post_validated clock p vs s) h1 in
    let (equal, same) = post_validated-eq_ok clock p vs s h2 in
    let et = ap (λ r. r.0) same in
    let balanced =
      lines-IsBalanced entries vs valid (ground arith) equal (rw (← et) at hd) (rw (← et) at hc) in
    (rw (← et) balanced, sym (ap (λ r. r.1) same) ∙ rw (← et))
