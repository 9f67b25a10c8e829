-- ===== src/Store/Keys.antt =====
-- Rows with a primary key that are looked up by a hash: the refresh tokens of borrowers and of the
-- owner. An update by key writes the one row that the session has loaded.
use mathlib.Core.Path.{subst}
use nelson_lending_v.Prelude.{
  ℕ, ◌≤◌, ◌<◌, ◌≡◌, refl, sym, ◌∙◌, arith, Bool, true, false, Bool-cases, inl, inr, ◌==◌, ==_refl,
  ==_iff, if◌then◌else◌, List, [], ◌∷◌, ◌++◌, some, All, All-append,
}
use nelson_lending_v.Store.Query.{
  first_row, first_row-found, first_row-append, first_row-update, some_injective,
}
use nelson_lending_v.Store.Rows.{Text}
use nelson_lending_v.Store.Table.{text_eq, update}

module _ {A : Type 0} (id : A → ℕ) (hash : A → Text) (spent : A → Bool) where
  abbrev Differs : A → A → Type 0
  Differs x y = (id y == id x) ≡ false

  abbrev pub Distinct : List A → Type 0
  Distinct [] = Unit {0}
  Distinct (x ∷ xs) = All (Differs x) xs × Distinct xs

  -- Distinct keys, all below the next one.
  pub record IsTable (n : ℕ) (xs : List A) : Type 0 where
    pub below : All (λ x. id x < n) xs
    pub distinct : Distinct xs

  abbrev pub save : A → List A → List A
  save row xs = update (λ x. id x == id row) (λ x. row) xs

  below_mono : (n m : ℕ) (xs : List A) → n ≤ m → All (λ x. id x < n) xs → All (λ x. id x < m) xs
  below_mono n m [] h v = tt
  below_mono n m (x ∷ xs) h v = (omega (arith, v.0), below_mono n m xs h v.1)

  below-Differs : (k : ℕ) (x y : A) → id x < k → k ≤ id y → Differs x y
  below-Differs k x y h l = ground arith

  Distinct-snoc :
      (n : ℕ) (xs : List A) (x : A)
      → All (λ y. id y < n) xs
      → n ≤ id x
      → Distinct xs
      → Distinct (xs ++ (x ∷ []))
  Distinct-snoc n [] x b h d = (tt, tt)
  Distinct-snoc n (y ∷ xs) x b h d = (
    All-append (Differs y) xs (x ∷ []) d.0 (below-Differs n y x b.0 h, tt),
    Distinct-snoc n xs x b.1 h d.1,
  )

  pub IsTable-snoc :
      (n m : ℕ) (xs : List A) (x : A)
      → IsTable n xs
      → n ≤ id x
      → id x < m
      → IsTable m (xs ++ (x ∷ []))
  IsTable-snoc n m xs x v h k = record {
    below =
        All-append (λ y. id y < m) xs (x ∷ []) (below_mono n m xs (omega arith) v.below) (k, tt);
    distinct = Distinct-snoc n xs x v.below h v.distinct;
  }

  pub IsTable-mono : (n m : ℕ) (xs : List A) → n ≤ m → IsTable n xs → IsTable m xs
  IsTable-mono n m xs h v = record { below = below_mono n m xs h v.below; distinct = v.distinct }

  -- Saving a row keeps every key.
  save-id : (row x : A) → id (if id x == id row then row else x) ≡ id x
  save-id row x = elim (Bool-cases (id x == id row)) [
    | inl hit ↦ rw hit (sym ((==_iff (id x) (id row)).0 hit))
    | inr miss ↦ rw miss refl
  ]

  save-below :
      (n : ℕ) (row : A) (xs : List A) → All (λ x. id x < n) xs → All (λ x. id x < n) (save row xs)
  save-below n row [] v = tt
  save-below n row (x ∷ xs) v = (rw (save-id row x) v.0, save-below n row xs v.1)

  save-Differs :
      (row x : A) (xs : List A)
      → All (Differs x) xs
      → All (Differs (if id x == id row then row else x)) (save row xs)
  save-Differs row x [] v = tt
  save-Differs row x (y ∷ xs) v = (rw (save-id row y, save-id row x) v.0, save-Differs row x xs v.1)

  save-Distinct : (row : A) (xs : List A) → Distinct xs → Distinct (save row xs)
  save-Distinct row [] d = tt
  save-Distinct row (x ∷ xs) d = (save-Differs row x xs d.0, save-Distinct row xs d.1)

  pub IsTable-save : (n : ℕ) (row : A) (xs : List A) → IsTable n xs → IsTable n (save row xs)
  IsTable-save n row xs v = record {
    below = save-below n row xs v.below;
    distinct = save-Distinct row xs v.distinct;
  }

  abbrev pub has_hash : Text → A → Bool
  has_hash h x = text_eq (hash x) h

  -- The row of a hash is spent.
  abbrev pub IsSpent : Text → List A → Type 0
  IsSpent h xs = (c : A) × (first_row (has_hash h) xs ≡ some c) × (spent c ≡ true)

  pub IsSpent-snoc : (h : Text) (xs : List A) (x : A) → IsSpent h xs → IsSpent h (xs ++ (x ∷ []))
  IsSpent-snoc h xs x v = (v.0, first_row-append (has_hash h) xs (x ∷ []) v.1, v.2)

  -- A row with the key of the loaded row is the loaded row.
  Agrees : A → A → Type 0
  Agrees c x = (id x == id c) ≡ true → hash x ≡ hash c

  All-first_row {κ} :
      (P : A → Type κ) (p : A → Bool) (xs : List A) {c : A}
      → All P xs
      → first_row p xs ≡ some c
      → P c
  All-first_row P p [] v found = ground (arith, found)
  All-first_row P p (x ∷ xs) v found = elim (Bool-cases (p x)) [
    | inl hit ↦ rw (← some_injective (rw hit at found)) v.0
    | inr miss ↦ All-first_row P p xs v.1 (rw miss at found)
  ]

  Differs-Agrees : (c x : A) → (id x == id c) ≡ false → Agrees c x
  unfolding Agrees
  Differs-Agrees c x differ same = ground (arith, differ, same)

  All-Differs-Agrees : (c : A) (xs : List A) → All (Differs c) xs → All (Agrees c) xs
  All-Differs-Agrees c [] v = tt
  All-Differs-Agrees c (x ∷ xs) v = (Differs-Agrees c x v.0, All-Differs-Agrees c xs v.1)

  Distinct-Agrees :
      (p : A → Bool) (xs : List A) {c : A}
      → Distinct xs
      → first_row p xs ≡ some c
      → All (Agrees c) xs
  unfolding Agrees
  Distinct-Agrees p [] d found = tt
  Distinct-Agrees p (x ∷ xs) {c = c} d found = elim (Bool-cases (p x)) [
    | inl hit ↦
        let same : x ≡ c = some_injective (rw hit at found) in
        subst (λ y. All (Agrees y) (x ∷ xs)) same (λ e. refl, All-Differs-Agrees x xs d.0)
    | inr miss ↦
        let later = rw miss at found in
        let apart : Differs x c = All-first_row (Differs x) p xs d.0 later in
        (λ e. ground (arith, apart, e), Distinct-Agrees p xs d.1 later)
  ]

  IsSpent-agreed :
      (h : Text) (row c : A) (xs : List A)
      → All (Agrees c) xs
      → id row ≡ id c
      → hash row ≡ hash c
      → spent row ≡ true
      → IsSpent h xs
      → IsSpent h (save row xs)
  unfolding Agrees
  IsSpent-agreed h row c [] a same_id same_hash s v = ground (arith, v.1)
  IsSpent-agreed h row c (x ∷ xs) a same_id same_hash s v = elim (Bool-cases (id x == id row)) [
    | inl picked ↦
        let eq : hash row ≡ hash x = same_hash ∙ sym (a.0 (rw same_id at picked)) in
        elim (Bool-cases (text_eq (hash x) h)) [
          | inl hit ↦ rw picked (row, rw (eq, hit) refl, s)
          | inr miss ↦
              let rest =
                IsSpent-agreed h row c xs a.1 same_id same_hash s (v.0, rw miss at v.1, v.2) in
              rw picked (rest.0, rw (eq, miss) rest.1, rest.2)
        ]
    | inr kept ↦ elim (Bool-cases (text_eq (hash x) h)) [
      | inl hit ↦ rw kept (x, rw hit refl, rw (some_injective (rw hit at v.1)) v.2)
      | inr miss ↦
          let rest = IsSpent-agreed h row c xs a.1 same_id same_hash s (v.0, rw miss at v.1, v.2) in
          rw kept (rest.0, rw miss rest.1, rest.2)
    ]
  ]

  -- Saving a loaded row, spent and with its key and hash, keeps what is spent spent.
  pub IsSpent-save :
      (n : ℕ) (h : Text) (p : A → Bool) (row : A) (xs : List A) {c : A}
      → IsTable n xs
      → first_row p xs ≡ some c
      → id row ≡ id c
      → hash row ≡ hash c
      → spent row ≡ true
      → IsSpent h xs
      → IsSpent h (save row xs)
  IsSpent-save n h p row xs {c = c} t found same_id same_hash s v =
      IsSpent-agreed h row c xs (Distinct-Agrees p xs t.distinct found) same_id same_hash s v

  -- Saving the row of the hash itself makes it spent.
  pub IsSpent-start :
      (h : Text) (row : A) (xs : List A) {c : A}
      → first_row (has_hash h) xs ≡ some c
      → id row ≡ id c
      → hash row ≡ hash c
      → spent row ≡ true
      → IsSpent h (save row xs)
  IsSpent-start h row xs {c = c} found same_id same_hash s = (
    row,
    first_row-update (has_hash h) (λ x. id x == id row) row xs found (rw same_id (==_refl (id c)))
        (rw same_hash (first_row-found (has_hash h) xs found)),
    s,
  )
