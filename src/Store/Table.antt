-- ===== src/Store/Table.antt =====
-- Queries on a table: `scalar_one_or_none()`, the rows of a `where`, and the update of a row.
use nelson_lending_v.Prelude.{
  ℕ, Bool, true, false, ◌&&◌, ◌||◌, leb, ◌==◌, if◌then◌else◌, List, [], ◌∷◌, ◌++◌, Option, none,
  some, ◌≡◌, refl, ap, ◌∙◌, map, ==_refl, ==_iff, arith, All, Bool-cases, inl, inr,
}
use nelson_lending_v.Prelude.Result.{Result, ok, err, multiple_results}
use nelson_lending_v.Store.Rows.{Text}

module _ {ℓ} {A : Type ℓ} where
  abbrev pub filter : (A → Bool) → List A → List A
  filter p [] = []
  filter p (x ∷ xs) = if p x then x ∷ filter p xs else filter p xs

  abbrev only : List A → Result (Option A)
  only [] = ok none
  only (x ∷ []) = ok (some x)
  only (x ∷ y ∷ ys) = err multiple_results

  -- No row is `None`, and two rows raise `MultipleResultsFound`.
  abbrev pub one_or_none : (A → Bool) → List A → Result (Option A)
  one_or_none p xs = only (filter p xs)

  -- The rows with the changed columns of those that the test picks.
  abbrev pub update : (A → Bool) → (A → A) → List A → List A
  update p f [] = []
  update p f (x ∷ xs) = (if p x then f x else x) ∷ update p f xs

  filter-snoc :
      (p : A → Bool) (xs : List A) {x : A}
      → filter p xs ≡ []
      → p x ≡ true
      → filter p (xs ++ (x ∷ [])) ≡ x ∷ []
  filter-snoc p [] h hx = rw hx refl
  filter-snoc p (y ∷ ys) h hx = elim (Bool-cases (p y)) [
    | inl hit ↦ ground (arith, rw hit at h)
    | inr miss ↦ rw miss (filter-snoc p ys (rw miss at h) hx)
  ]

  only-none : (xs : List A) → only xs ≡ ok none → xs ≡ []
  only-none [] h = refl
  only-none (x ∷ []) h = ground arith
  only-none (x ∷ y ∷ ys) h = ground arith

  -- A row that is appended when none matched is the one that is found.
  pub one_or_none-snoc :
      (p : A → Bool) (xs : List A) {x : A}
      → one_or_none p xs ≡ ok none
      → p x ≡ true
      → one_or_none p (xs ++ (x ∷ [])) ≡ ok (some x)
  one_or_none-snoc p xs h hx = ap only (filter-snoc p xs (only-none (filter p xs) h) hx)

  only-some : (xs : List A) {x : A} → only xs ≡ ok (some x) → xs ≡ x ∷ []
  only-some [] h = ground arith
  only-some (y ∷ []) h = ground (arith, h)
  only-some (y ∷ z ∷ ys) h = ground arith

  filter-all : (p : A → Bool) (xs : List A) → All (λ x. p x ≡ true) (filter p xs)
  filter-all p [] = tt
  filter-all p (x ∷ xs) = elim (Bool-cases (p x)) [
    | inl hit ↦ rw hit (hit, filter-all p xs)
    | inr miss ↦ rw miss (filter-all p xs)
  ]

  -- The row that is found passes the test.
  pub one_or_none-found :
      (p : A → Bool) (xs : List A) {x : A} → one_or_none p xs ≡ ok (some x) → p x ≡ true
  one_or_none-found p xs h = (rw (only-some (filter p xs) h) at (filter-all p xs)).0

  filter-update :
      (p : A → Bool) (row : A) (xs : List A)
      → p row ≡ true
      → filter p (update p (λ x. row) xs) ≡ map (λ x. row) (filter p xs)
  filter-update p row [] h = refl
  filter-update p row (x ∷ xs) h = elim (Bool-cases (p x)) [
    | inl hit ↦ rw (hit, h, filter-update p row xs h) refl
    | inr miss ↦ rw (miss, miss, filter-update p row xs h) refl
  ]

  -- After an update of the row that is found, the new row is found.
  pub one_or_none-update :
      (p : A → Bool) (row : A) (xs : List A) {x : A}
      → one_or_none p xs ≡ ok (some x)
      → p row ≡ true
      → one_or_none p (update p (λ y. row) xs) ≡ ok (some row)
  one_or_none-update p row xs h hr =
      ap only (filter-update p row xs hr ∙ ap (map (λ y. row)) (only-some (filter p xs) h))

  filter-skip :
      (p : A → Bool) (xs : List A) (x : A) → p x ≡ false → filter p (xs ++ (x ∷ [])) ≡ filter p xs
  filter-skip p [] x h = rw h refl
  filter-skip p (y ∷ ys) x h = elim (Bool-cases (p y)) [
    | inl hit ↦ rw (hit, filter-skip p ys x h) refl
    | inr miss ↦ rw (miss, filter-skip p ys x h) refl
  ]

  -- A row that does not match is appended.
  pub one_or_none-skip :
      (p : A → Bool) (xs : List A) (x : A)
      → p x ≡ false
      → one_or_none p (xs ++ (x ∷ [])) ≡ one_or_none p xs
  one_or_none-skip p xs x h = ap only (filter-skip p xs x h)

  filter-untouched :
      (p q : A → Bool) (row : A) (xs : List A)
      → p row ≡ false
      → ((x : A) → q x ≡ true → p x ≡ false)
      → filter p (update q (λ x. row) xs) ≡ filter p xs
  filter-untouched p q row [] h apart = refl
  filter-untouched p q row (x ∷ xs) h apart = elim (Bool-cases (q x)) [
    | inl hit ↦ rw (hit, h, apart x hit, filter-untouched p q row xs h apart) refl
    | inr miss ↦ rw (miss, filter-untouched p q row xs h apart) refl
  ]

  -- Neither the rows that are updated nor the new row match.
  pub one_or_none-untouched :
      (p q : A → Bool) (row : A) (xs : List A)
      → p row ≡ false
      → ((x : A) → q x ≡ true → p x ≡ false)
      → one_or_none p (update q (λ x. row) xs) ≡ one_or_none p xs
  one_or_none-untouched p q row xs h apart = ap only (filter-untouched p q row xs h apart)

  -- A property of every row that the new row has too stays.
  pub All-update {κ} :
      (P : A → Type κ) (p : A → Bool) (row : A) (xs : List A)
      → All P xs
      → P row
      → All P (update p (λ x. row) xs)
  All-update P p row [] h hr = tt
  All-update P p row (x ∷ xs) h hr = elim (Bool-cases (p x)) [
    | inl hit ↦ rw hit (hr, All-update P p row xs h.1 hr)
    | inr miss ↦ rw miss (h.0, All-update P p row xs h.1 hr)
  ]

  -- The same of an update that depends on the row.
  pub All-update_each {κ} :
      (P : A → Type κ) (p : A → Bool) (f : A → A) (xs : List A)
      → ((x : A) → P x → P (f x))
      → All P xs
      → All P (update p f xs)
  All-update_each P p f [] keep h = tt
  All-update_each P p f (x ∷ xs) keep h = elim (Bool-cases (p x)) [
    | inl hit ↦ rw hit (keep x h.0, All-update_each P p f xs keep h.1)
    | inr miss ↦ rw miss (h.0, All-update_each P p f xs keep h.1)
  ]

abbrev pub text_eq : Text → Text → Bool
text_eq [] [] = true
text_eq [] (y ∷ ys) = false
text_eq (x ∷ xs) [] = false
text_eq (x ∷ xs) (y ∷ ys) = (x == y) && text_eq xs ys

abbrev pub option_text_eq : Option Text → Option Text → Bool
option_text_eq none none = true
option_text_eq none (some y) = false
option_text_eq (some x) none = false
option_text_eq (some x) (some y) = text_eq x y

pub text_eq_refl : (t : Text) → text_eq t t ≡ true
text_eq_refl [] = refl
text_eq_refl (c ∷ t) = rw (==_refl c, text_eq_refl t) refl

pub text_eq_sound : (t u : Text) → text_eq t u ≡ true → t ≡ u
text_eq_sound [] [] h = refl
text_eq_sound [] (d ∷ u) h = ground (arith, h)
text_eq_sound (c ∷ t) [] h = ground (arith, h)
text_eq_sound (c ∷ t) (d ∷ u) h = elim (Bool-cases (c == d)) [
  | inl same ↦ rw ((==_iff c d).0 same, text_eq_sound t u (rw same at h)) refl
  | inr differ ↦ ground (arith, rw differ at h)
]

pub option_text_eq_refl : (t : Option Text) → option_text_eq t t ≡ true
option_text_eq_refl none = refl
option_text_eq_refl (some t) = text_eq_refl t

abbrev pub is_some {ℓ} : {A : Type ℓ} → Option A → Bool
is_some none = false
is_some (some a) = true

-- The code points that `str.isspace` accepts.
abbrev pub is_space : ℕ → Bool
is_space c =
    (leb 9 c && leb c 13)
    || (leb 28 c && leb c 32)
    || (c == 133)
    || (c == 160)
    || (c == 5760)
    || (leb 8192 c && leb c 8202)
    || (c == 8232)
    || (c == 8233)
    || (c == 8239)
    || (c == 8287)
    || (c == 12288)

unfoldable pub drop_spaces : Text → Text
drop_spaces [] = []
drop_spaces (c ∷ rest) = let dropped = drop_spaces rest in if is_space c then dropped else c ∷ rest

abbrev pub reversed : Text → Text → Text
reversed [] acc = acc
reversed (c ∷ rest) acc = reversed rest (c ∷ acc)

-- `str.strip()`
unfoldable pub strip : Text → Text
unfolding drop_spaces
strip t = reversed (drop_spaces (reversed (drop_spaces t) [])) []
