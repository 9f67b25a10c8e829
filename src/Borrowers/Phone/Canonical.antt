-- ===== src/Borrowers/Phone/Canonical.antt =====
-- The canonical form of a mobile number:
-- backend/app/features/borrowers/registration_validation.py.
use nelson_lending_v.Prelude.{
  ℕ, ◌≡◌, refl, Bool, true, false, not, ◌==◌, [], ◌∷◌, ◌++◌, length, Option, none, some, All, arith,
  Bool-cases, Option-cases, inl, inr,
}
use nelson_lending_v.Prelude.Result.{Result, ok, >>=-eq-ok, ok_injective, invalid_phone}
use nelson_lending_v.Store.Query.{expect, expect-eq_ok, some_injective}
use nelson_lending_v.Store.Rows.{Text}
use nelson_lending_v.Store.Table.{is_space, drop_spaces, reversed, strip, filter}
use nelson_lending_v.Borrowers.Phone.{
  is_separator, strip_prefix, plus_639, bare_639, local_09, all_decimal, nine_digits, digits_after,
  or_else, match_mobile, compact, normalize_philippine_mobile,
}

IsPlain : ℕ → Type 0
IsPlain c = is_separator c ≡ false

drop_spaces-plain : (t : Text) → All IsPlain t → drop_spaces t ≡ t
unfolding drop_spaces IsPlain
drop_spaces-plain [] h = refl
drop_spaces-plain (c ∷ rest) h = elim (Bool-cases (is_space c)) [
  | inl space ↦ ground (arith, space, rw space at h.0)
  | inr other ↦ rw other refl
]

All-reversed : (t acc : Text) → All IsPlain t → All IsPlain acc → All IsPlain (reversed t acc)
All-reversed [] acc h ha = ha
All-reversed (c ∷ rest) acc h ha = All-reversed rest (c ∷ acc) h.1 (h.0, ha)

reversed-reversed : (t acc more : Text) → reversed (reversed t acc) more ≡ reversed acc (t ++ more)
reversed-reversed [] acc more = refl
reversed-reversed (c ∷ rest) acc more = reversed-reversed rest (c ∷ acc) more

append_nil : (t : Text) → t ++ [] ≡ t
append_nil [] = refl
append_nil (c ∷ t) = rw (append_nil t) refl

filter-plain : (t : Text) → All IsPlain t → filter (λ c. not (is_separator c)) t ≡ t
unfolding IsPlain
filter-plain [] h = refl
filter-plain (c ∷ rest) h = rw (h.0, filter-plain rest h.1) refl

compact-plain : (is_decimal : ℕ → Bool) (t : Text) → All IsPlain t → compact is_decimal t ≡ t
unfolding strip
compact-plain is_decimal t h =
    rw
      (
        drop_spaces-plain t h,
        drop_spaces-plain (reversed t []) (All-reversed t [] h tt),
        reversed-reversed t [] [],
        append_nil t,
      )
      (filter-plain t h)

strip_prefix-append : (p t : Text) → strip_prefix p (p ++ t) ≡ some t
strip_prefix-append [] t = refl
strip_prefix-append (c ∷ p) t = ground (arith, strip_prefix-append p t)

module _ (is_decimal : ℕ → Bool)
    (plain : (c : ℕ) → is_decimal c ≡ true → is_separator c ≡ false) where
  all_decimal-IsPlain : (d : Text) → all_decimal is_decimal d ≡ true → All IsPlain d
  unfolding IsPlain
  all_decimal-IsPlain [] h = tt
  all_decimal-IsPlain (c ∷ d) h = elim (Bool-cases (is_decimal c)) [
    | inl digit ↦ (plain c digit, all_decimal-IsPlain d (rw digit at h))
    | inr other ↦ ground (arith, rw other at h)
  ]

  -- "+639", "639" and "09" before the same nine digits stand for the same number, which is written with "+639".
  pub normalize_philippine_mobile-forms :
      (d : Text)
      → length d ≡ 9
      → all_decimal is_decimal d ≡ true
      → (normalize_philippine_mobile is_decimal (plus_639 ++ d) ≡ ok (plus_639 ++ d))
        × (normalize_philippine_mobile is_decimal (bare_639 ++ d) ≡ ok (plus_639 ++ d))
        × (normalize_philippine_mobile is_decimal (local_09 ++ d) ≡ ok (plus_639 ++ d))
  unfolding normalize_philippine_mobile match_mobile IsPlain
  normalize_philippine_mobile-forms d nine digits =
      let ok_digits = all_decimal-IsPlain d digits in
      let same : nine_digits is_decimal d ≡ some d = rw (nine, digits) refl in
      (
        rw
            (
              compact-plain is_decimal (plus_639 ++ d) (refl, (refl, (refl, (refl, ok_digits)))),
              same,
            )
            refl,
        rw (compact-plain is_decimal (bare_639 ++ d) (refl, (refl, (refl, ok_digits))), same) refl,
        rw (compact-plain is_decimal (local_09 ++ d) (refl, (refl, ok_digits)), same) refl,
      )

  nine_digits-some :
      (t : Text) {d : Text}
      → nine_digits is_decimal t ≡ some d
      → (length d ≡ 9) × (all_decimal is_decimal d ≡ true)
  nine_digits-some t h = elim (Bool-cases (length t == 9)) [
    | inl nine ↦ elim (Bool-cases (all_decimal is_decimal t)) [
      | inl digits ↦ rw (← some_injective (rw (nine, digits) at h)) (ground (arith, nine), digits)
      | inr other ↦ ground (arith, rw (nine, other) at h)
    ]
    | inr other ↦ ground (arith, rw other at h)
  ]

  digits_after-some :
      (prefix t : Text) {d : Text}
      → digits_after is_decimal prefix t ≡ some d
      → (length d ≡ 9) × (all_decimal is_decimal d ≡ true)
  digits_after-some prefix t h = elim (Option-cases (strip_prefix prefix t)) [
    | inl nothing ↦ ground (arith, rw (digits_after, nothing) at h)
    | inr (rest, found) ↦ nine_digits-some rest (rw (digits_after, found) at h)
  ]

  or_else-some :
      (P : Text → Type 0) (a b : Option Text) {d : Text}
      → (a ≡ some d → P d)
      → (b ≡ some d → P d)
      → or_else is_decimal a b ≡ some d
      → P d
  or_else-some P none b ha hb h = hb h
  or_else-some P (some x) b ha hb h = ha h

  -- A canonical number is its own canonical form: normalizing twice is normalizing once.
  pub normalize_philippine_mobile-idempotent :
      (value : Text) {canonical : Text}
      → normalize_philippine_mobile is_decimal value ≡ ok canonical
      → normalize_philippine_mobile is_decimal canonical ≡ ok canonical
  unfolding normalize_philippine_mobile match_mobile
  normalize_philippine_mobile-idempotent value h =
      let t = compact is_decimal value in
      let finish : Text → Result Text = λ d. ok (plus_639 ++ d) in
      let (d, ed, h1) = >>=-eq-ok (expect invalid_phone (match_mobile is_decimal t)) finish h in
      let IsGroup : Text → Type 0 = λ d. (length d ≡ 9) × (all_decimal is_decimal d ≡ true) in
      let (nine, digits) =
        or_else-some IsGroup (digits_after is_decimal plus_639 t) _ (digits_after-some plus_639 t)
          (or_else-some IsGroup (digits_after is_decimal bare_639 t)
            (digits_after is_decimal local_09 t) (digits_after-some bare_639 t)
            (digits_after-some local_09 t))
          (expect-eq_ok invalid_phone _ ed) in
      rw (← ok_injective h1) (normalize_philippine_mobile-forms d nine digits).0
