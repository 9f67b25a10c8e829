-- ===== src/Store/Query.antt =====
-- `session.scalar(...)`, which takes the first row, and `session.get(...)`.
use nelson_lending_v.Prelude.{
  Bool, true, false, ◌&&◌, ◌||◌, if◌then◌else◌, List, [], ◌∷◌, ◌++◌, Option, none, some, ◌≡◌, refl,
  ap, arith, Bool-cases, inl, inr,
}
use nelson_lending_v.Prelude.Result.{Error, Result, ok, err, ok_injective}
use nelson_lending_v.Store.Table.{update}

pub or_true : (b : Bool) → (b || true) ≡ true
or_true true = refl
or_true false = refl

pub and_left : (a b : Bool) → (a && b) ≡ true → a ≡ true
and_left true b h = refl
and_left false b h = h

pub and_right : (a b : Bool) → (a && b) ≡ true → b ≡ true
and_right true b h = h
and_right false b h = ground (arith, h)

-- `if row is None: raise e`
abbrev pub expect {ℓ} : {A : Type ℓ} → Error → Option A → Result A
expect e none = err e
expect e (some a) = ok a

pub expect-eq_ok {ℓ} :
    {A : Type ℓ} (e : Error) (o : Option A) {a : A} → expect e o ≡ ok a → o ≡ some a
expect-eq_ok e none h = ground (arith, h)
expect-eq_ok e (some b) h = ap some (ok_injective h)

module _ {ℓ} {A : Type ℓ} where
  abbrev pub first_row : (A → Bool) → List A → Option A
  first_row p [] = none
  first_row p (x ∷ xs) = if p x then some x else first_row p xs

  abbrev pub exists : (A → Bool) → List A → Bool
  exists p [] = false
  exists p (x ∷ xs) = p x || exists p xs

  pub some_injective : {a b : A} → some a ≡ some b → a ≡ b
  some_injective {a = a} h = ap (λ o. elim o [ none ↦ a | some x ↦ x ]) h

  pub first_row-found : (p : A → Bool) (xs : List A) {x : A} → first_row p xs ≡ some x → p x ≡ true
  first_row-found p [] h = ground (arith, h)
  first_row-found p (y ∷ xs) h = elim (Bool-cases (p y)) [
    | inl hit ↦ rw (← some_injective (rw hit at h)) hit
    | inr miss ↦ first_row-found p xs (rw miss at h)
  ]

  -- After an update of the row that is found, the new row is found.
  pub first_row-update :
      (p q : A → Bool) (row : A) (xs : List A) {x : A}
      → first_row p xs ≡ some x
      → q x ≡ true
      → p row ≡ true
      → first_row p (update q (λ y. row) xs) ≡ some row
  first_row-update p q row [] h hq hp = ground (arith, h)
  first_row-update p q row (y ∷ xs) h hq hp = elim (Bool-cases (q y)) [
    | inl picked ↦ rw (picked, hp) refl
    | inr left ↦ elim (Bool-cases (p y)) [
      | inl hit ↦ ground (arith, left, hq, some_injective (rw hit at h))
      | inr miss ↦ rw (left, miss) (first_row-update p q row xs (rw miss at h) hq hp)
    ]
  ]

  -- A row that is found stays found when others are appended.
  pub first_row-append :
      (p : A → Bool) (xs ys : List A) {x : A}
      → first_row p xs ≡ some x
      → first_row p (xs ++ ys) ≡ some x
  first_row-append p [] ys h = ground (arith, h)
  first_row-append p (y ∷ xs) ys h = elim (Bool-cases (p y)) [
    | inl hit ↦ rw hit (rw hit at h)
    | inr miss ↦ rw miss (first_row-append p xs ys (rw miss at h))
  ]

  -- A row that is appended when none matched is the one that is found.
  pub first_row-snoc :
      (p : A → Bool) (xs : List A) (x : A)
      → exists p xs ≡ false
      → p x ≡ true
      → first_row p (xs ++ (x ∷ [])) ≡ some x
  first_row-snoc p [] x h hx = rw hx refl
  first_row-snoc p (y ∷ xs) x h hx = elim (Bool-cases (p y)) [
    | inl hit ↦ ground (arith, rw hit at h)
    | inr miss ↦ rw miss (first_row-snoc p xs x (rw miss at h) hx)
  ]

  pub exists-snoc :
      (p : A → Bool) (xs : List A) (x : A) → p x ≡ true → exists p (xs ++ (x ∷ [])) ≡ true
  exists-snoc p [] x hx = rw hx refl
  exists-snoc p (y ∷ xs) x hx = rw (exists-snoc p xs x hx) (or_true (p y))

  -- An update of other rows leaves the row that passes the test.
  pub exists-update :
      (p q : A → Bool) (row : A) (xs : List A)
      → ((x : A) → p x ≡ true → q x ≡ false)
      → exists p xs ≡ true
      → exists p (update q (λ x. row) xs) ≡ true
  exists-update p q row [] apart h = h
  exists-update p q row (x ∷ xs) apart h = elim (Bool-cases (p x)) [
    | inl hit ↦ rw (apart x hit, hit) refl
    | inr miss ↦
        rw (exists-update p q row xs apart (rw miss at h)) (or_true (p (if q x then row else x)))
  ]

  pub exists_mono :
      (p q : A → Bool) (xs : List A)
      → ((x : A) → p x ≡ true → q x ≡ true)
      → exists p xs ≡ true
      → exists q xs ≡ true
  exists_mono p q [] wider h = h
  exists_mono p q (x ∷ xs) wider h = elim (Bool-cases (p x)) [
    | inl hit ↦ rw (wider x hit) refl
    | inr miss ↦ rw (exists_mono p q xs wider (rw miss at h)) (or_true (q x))
  ]

  pub exists-append :
      (p : A → Bool) (xs ys : List A) → exists p xs ≡ true → exists p (xs ++ ys) ≡ true
  exists-append p [] ys h = ground (arith, h)
  exists-append p (x ∷ xs) ys h = elim (Bool-cases (p x)) [
    | inl hit ↦ rw hit refl
    | inr miss ↦ rw (exists-append p xs ys (rw miss at h)) (or_true (p x))
  ]
