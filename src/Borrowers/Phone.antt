-- ===== src/Borrowers/Phone.antt =====
-- backend/app/features/borrowers/registration_validation.py.
pub mod Canonical
use nelson_lending_v.Prelude.{
  ℕ, ◌≡◌, refl, sym, ap, ◌∙◌, Bool, true, false, not, ◌&&◌, ◌||◌, leb, ◌==◌, if◌then◌else◌, List,
  [], ◌∷◌, ◌++◌, length, Option, none, some, All, arith, Bool-cases, Option-cases, inl, inr,
  or_false, ◌⊎◌,
}
use nelson_lending_v.Prelude.Result.{
  Result, ok, err, raise_if, ◌>>=◌, ◌>>◌, >>=-eq-ok, ok_injective, invalid_phone,
  invalid_national_id,
}
use nelson_lending_v.Store.Query.{expect, expect-eq_ok, some_injective}
use nelson_lending_v.Store.Rows.{Text}
use nelson_lending_v.Store.Table.{is_space, drop_spaces, reversed, strip, filter}

-- The class `[\s-]`, which `re.sub` removes.
abbrev pub is_separator : ℕ → Bool
is_separator c = is_space c || (c == 45)

abbrev pub strip_prefix : Text → Text → Option Text
strip_prefix [] t = some t
strip_prefix (p ∷ ps) [] = none
strip_prefix (p ∷ ps) (c ∷ cs) = if p == c then strip_prefix ps cs else none

-- "+639", "639" and "09".
abbrev pub plus_639 : Text
plus_639 = 43 ∷ 54 ∷ 51 ∷ 57 ∷ []

abbrev pub bare_639 : Text
bare_639 = 54 ∷ 51 ∷ 57 ∷ []

abbrev pub local_09 : Text
local_09 = 48 ∷ 57 ∷ []

-- `\d` of a `str` pattern is any decimal digit of Unicode, by `unicodedata`.
module _ (is_decimal : ℕ → Bool) where
  abbrev pub all_decimal : Text → Bool
  all_decimal [] = true
  all_decimal (c ∷ rest) = is_decimal c && all_decimal rest

  abbrev pub nine_digits : Text → Option Text
  nine_digits d = if (length d == 9) && all_decimal d then some d else none

  -- One alternative of the pattern, and the group of nine digits after it.
  abbrev pub digits_after : Text → Text → Option Text
  digits_after prefix t = elim (strip_prefix prefix t) [ none ↦ none | some d ↦ nine_digits d ]

  abbrev pub or_else : Option Text → Option Text → Option Text
  or_else none other = other
  or_else (some d) other = some d

  -- `_PH_MOBILE_PATTERN.fullmatch(compact)`, the group.
  unfoldable pub match_mobile : Text → Option Text
  match_mobile t =
      or_else (digits_after plus_639 t)
        (or_else (digits_after bare_639 t) (digits_after local_09 t))

  abbrev pub compact : Text → Text
  compact value = filter (λ c. not (is_separator c)) (strip value)

  unfoldable pub normalize_philippine_mobile : Text → Result Text
  unfolding match_mobile strip
  normalize_philippine_mobile value = do
    digits ← expect invalid_phone (match_mobile (compact value))
    ok (plus_639 ++ digits)

-- `str.upper` is a parameter.
unfoldable pub normalize_national_id : (upper : Text → Text) → Text → Result Text
unfolding strip
normalize_national_id upper value = do
  let normalized = upper (strip value)
  raise_if (not (leb 3 (length normalized) && leb (length normalized) 100)) invalid_national_id
  ok normalized
