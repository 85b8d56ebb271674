-- ===== src/Sql/Table.antt =====
-- Tables as lists of rows in the order of insertion: UPDATE, DELETE, SELECT and INSERT, each by a
-- test on rows, with the laws that the repositories' proofs use.
pub mod Order
pub mod Along
pub mod Keys
pub mod Sorted
use tejun.Prelude.{
  ℕ, suc, ◌≡◌, refl, ap, ◌⊎◌, inl, inr, Bool, true, false, Option, none, some, List, [], ◌∷◌, ◌++◌,
  Memᴰ, arith, if◌then◌else◌, ◌||◌, Bool-cases, Option-cases,
}
use tejun.Shared.{constraint}
use tejun.Sql.Tx.{Result, ok, err}

module _ {A : Type 0} where
  -- UPDATE ... SET f WHERE p
  unfoldable pub update_where : (A → Bool) → (A → A) → List A → List A
  update_where p f [] = []
  update_where p f (x ∷ xs) = (if p x then f x else x) ∷ update_where p f xs

  -- DELETE ... WHERE p
  unfoldable pub delete_where : (A → Bool) → List A → List A
  delete_where p [] = []
  delete_where p (x ∷ xs) = let rest = delete_where p xs in if p x then rest else x ∷ rest

  -- SELECT ... WHERE p
  unfoldable pub select_where : (A → Bool) → List A → List A
  select_where p [] = []
  select_where p (x ∷ xs) = let rest = select_where p xs in if p x then x ∷ rest else rest

  -- QueryRow: the first row that matches.
  unfoldable pub find : (A → Bool) → List A → Option A
  find p [] = none
  find p (x ∷ xs) = let rest = find p xs in if p x then some x else rest

  -- EXISTS (SELECT 1 ... WHERE p)
  unfoldable pub exists : (A → Bool) → List A → Bool
  exists p [] = false
  exists p (x ∷ xs) = p x || exists p xs

  -- RowsAffected of a statement with WHERE p, and COUNT(*)
  unfoldable pub count_where : (A → Bool) → List A → ℕ
  count_where p [] = 0
  count_where p (x ∷ xs) = let rest = count_where p xs in if p x then suc rest else rest

  -- INSERT under a key: `same` tells the rows that have the key of the new one.
  unfoldable pub insert_row : (A → Bool) → A → List A → Result (List A)
  insert_row same x xs = if exists same xs then err constraint else ok (xs ++ x ∷ [])

  -- ORDER BY ... LIMIT 1: the first of the rows that no other precedes.
  unfoldable pub first_by : (A → A → Bool) → List A → Option A
  first_by before [] = none
  first_by before (x ∷ xs) = elim (first_by before xs) [
    | none ↦ some x
    | some y ↦ if before y x then some y else some x
  ]

  -- One row put before the first that it precedes.
  unfoldable pub insert_sorted : (A → A → Bool) → A → List A → List A
  insert_sorted before x [] = x ∷ []
  insert_sorted before x (y ∷ ys) =
      let rest = insert_sorted before x ys in if before y x then y ∷ rest else x ∷ y ∷ ys

  -- ORDER BY
  unfoldable pub order_by : (A → A → Bool) → List A → List A
  unfolding insert_sorted
  order_by before [] = []
  order_by before (x ∷ xs) = insert_sorted before x (order_by before xs)

  -- A row of an updated table is a row of the old one, updated where it matches.
  pub update_where-Memᴰ :
      (p : A → Bool) (f : A → A) {y : A} (xs : List A)
      → Memᴰ y (update_where p f xs)
      → (x : A) × Memᴰ x xs × (y ≡ (if p x then f x else x))
  unfolding update_where
  update_where-Memᴰ p f [] m = elim m [ ]
  update_where-Memᴰ p f (x ∷ xs) (Memᴰ.head e) = (x, Memᴰ.head refl, e)
  update_where-Memᴰ p f (x ∷ xs) (Memᴰ.tail m) =
      let (z, found, e) = update_where-Memᴰ p f xs m in (z, Memᴰ.tail found, e)

  -- A row of an extended table is an old one or the new one.
  pub append_one-Memᴰ : (x : A) {y : A} (xs : List A) → Memᴰ y (xs ++ x ∷ []) → Memᴰ y xs ⊎ (y ≡ x)
  append_one-Memᴰ x [] (Memᴰ.head e) = inr e
  append_one-Memᴰ x [] (Memᴰ.tail m) = elim m [ ]
  append_one-Memᴰ x (z ∷ xs) (Memᴰ.head e) = inl (Memᴰ.head e)
  append_one-Memᴰ x (z ∷ xs) (Memᴰ.tail m) = elim (append_one-Memᴰ x xs m) [
    | inl old ↦ inl (Memᴰ.tail old)
    | inr e ↦ inr e
  ]

  -- A row of the old table has its updated form in the new one.
  pub Memᴰ-update_where :
      (p : A → Bool) (f : A → A) {x : A} (xs : List A)
      → Memᴰ x xs
      → Memᴰ (if p x then f x else x) (update_where p f xs)
  unfolding update_where
  Memᴰ-update_where p f [] m = elim m [ ]
  Memᴰ-update_where p f (x ∷ xs) (Memᴰ.head e) = Memᴰ.head (ap (λ z. if p z then f z else z) e)
  Memᴰ-update_where p f (x ∷ xs) (Memᴰ.tail m) = Memᴰ.tail (Memᴰ-update_where p f xs m)

  pub Memᴰ-append_left : {x : A} (xs ys : List A) → Memᴰ x xs → Memᴰ x (xs ++ ys)
  Memᴰ-append_left [] ys m = elim m [ ]
  Memᴰ-append_left (x ∷ xs) ys (Memᴰ.head e) = Memᴰ.head e
  Memᴰ-append_left (x ∷ xs) ys (Memᴰ.tail m) = Memᴰ.tail (Memᴰ-append_left xs ys m)

  pub Memᴰ-append_one : (x : A) (xs : List A) → Memᴰ x (xs ++ x ∷ [])
  Memᴰ-append_one x [] = Memᴰ.head refl
  Memᴰ-append_one x (y ∷ xs) = Memᴰ.tail (Memᴰ-append_one x xs)

  pub find-Memᴰ :
      (p : A → Bool) (xs : List A) {x : A} → find p xs ≡ some x → Memᴰ x xs × (p x ≡ true)
  unfolding find
  find-Memᴰ p [] h = absurd (cc)
  find-Memᴰ p (y ∷ xs) {x} h = elim (Bool-cases (p y)) [
    | inl e ↦ (Memᴰ.head (ground arith), ground arith)
    | inr e ↦ let (m, q) = find-Memᴰ p xs {x = x} (ground arith) in (Memᴰ.tail m, q)
  ]

  pub find-some :
      (p : A → Bool) {x : A} (xs : List A) → Memᴰ x xs → p x ≡ true → (y : A) × (find p xs ≡ some y)
  unfolding find
  find-some p [] m h = elim m [ ]
  find-some p (y ∷ xs) (Memᴰ.head e) h = let q : p y ≡ true = rw (← e) h in (y, ground arith)
  find-some p (y ∷ xs) (Memᴰ.tail m) h =
      let (z, e) = find-some p xs m h in
      elim (Bool-cases (p y)) [ inl q ↦ (y, ground arith) | inr q ↦ (z, ground arith) ]

  pub exists-false :
      (p : A → Bool) {x : A} (xs : List A) → exists p xs ≡ false → Memᴰ x xs → p x ≡ false
  unfolding exists
  exists-false p [] h m = elim m [ ]
  exists-false p (y ∷ xs) h (Memᴰ.head e) = rw e (ground arith)
  exists-false p (y ∷ xs) h (Memᴰ.tail m) = exists-false p xs (ground arith) m

  pub exists-true :
      (p : A → Bool) {x : A} (xs : List A) → Memᴰ x xs → p x ≡ true → exists p xs ≡ true
  unfolding exists
  exists-true p [] m h = elim m [ ]
  exists-true p (y ∷ xs) (Memᴰ.head e) h = let q : p y ≡ true = rw (← e) h in ground arith
  exists-true p (y ∷ xs) (Memᴰ.tail m) h = ground (arith, exists-true p xs m h)

  pub exists-some :
      (p : A → Bool) (xs : List A) → exists p xs ≡ true → (x : A) × Memᴰ x xs × (p x ≡ true)
  unfolding exists
  exists-some p [] h = absurd (cc)
  exists-some p (y ∷ xs) h = elim (Bool-cases (p y)) [
    | inl e ↦ (y, Memᴰ.head refl, e)
    | inr e ↦ let (x, m, q) = exists-some p xs (ground arith) in (x, Memᴰ.tail m, q)
  ]

  pub exists-update_where :
      (q p : A → Bool) (f : A → A) (xs : List A)
      → ((x : A) → q (f x) ≡ q x)
      → exists q (update_where p f xs) ≡ exists q xs
  unfolding exists update_where
  exists-update_where q p f [] h = refl
  exists-update_where q p f (x ∷ xs) h = ground (arith, h x, exists-update_where q p f xs h)

  pub exists-append :
      (p : A → Bool) (xs ys : List A) → exists p (xs ++ ys) ≡ (exists p xs || exists p ys)
  unfolding exists
  exists-append p [] ys = refl
  exists-append p (x ∷ xs) ys = ground (arith, exists-append p xs ys)

  pub first_by-Memᴰ :
      (before : A → A → Bool) (xs : List A) {x : A} → first_by before xs ≡ some x → Memᴰ x xs
  unfolding first_by
  first_by-Memᴰ before [] h = absurd (cc)
  first_by-Memᴰ before (y ∷ xs) {x} h = elim (Option-cases (first_by before xs)) [
    | inl none_left ↦ Memᴰ.head (ground arith)
    | inr (z, e) ↦ elim (Bool-cases (before z y)) [
      | inl later ↦ Memᴰ.tail (first_by-Memᴰ before xs {x = x} (ground arith))
      | inr first ↦ Memᴰ.head (ground arith)
    ]
  ]

  select_where-head :
      (p : A → Bool) {x : A} (y : A) (xs : List A)
      → p y ≡ true
      → Memᴰ x (y ∷ select_where p xs)
      → (Memᴰ x (select_where p xs) → Memᴰ x xs × (p x ≡ true))
      → Memᴰ x (y ∷ xs) × (p x ≡ true)
  select_where-head p y xs e (Memᴰ.head h) rest = (Memᴰ.head h, rw h e)
  select_where-head p y xs e (Memᴰ.tail m) rest = let (k, q) = rest m in (Memᴰ.tail k, q)

  pub select_where-Memᴰ :
      (p : A → Bool) {x : A} (xs : List A) → Memᴰ x (select_where p xs) → Memᴰ x xs × (p x ≡ true)
  unfolding select_where
  select_where-Memᴰ p [] m = elim m [ ]
  select_where-Memᴰ p (y ∷ xs) m = elim (Bool-cases (p y)) [
    | inl e ↦ select_where-head p y xs e (rw (e, select_where) at m) (λ k. select_where-Memᴰ p xs k)
    | inr e ↦ let (k, q) = select_where-Memᴰ p xs (rw (e, select_where) at m) in (Memᴰ.tail k, q)
  ]

  pub find-append_left :
      (p : A → Bool) (xs ys : List A) {x : A} → find p xs ≡ some x → find p (xs ++ ys) ≡ some x
  unfolding find
  find-append_left p [] ys h = absurd (cc)
  find-append_left p (y ∷ xs) ys {x} h = ground (arith, find-append_left p xs ys {x = x})

  pub find-append_one :
      (p : A → Bool) (x : A) (xs : List A)
      → exists p xs ≡ false
      → p x ≡ true
      → find p (xs ++ x ∷ []) ≡ some x
  unfolding find exists
  find-append_one p x [] h e = ground arith
  find-append_one p x (y ∷ xs) h e = ground (arith, find-append_one p x xs)

  pub insert_row-eq-ok :
      (same : A → Bool) (x : A) (xs : List A) {ys : List A}
      → insert_row same x xs ≡ ok ys
      → (exists same xs ≡ false) × (ys ≡ xs ++ x ∷ [])
  unfolding insert_row
  insert_row-eq-ok same x xs h = ground arith

  -- An UPDATE that matches no row.
  pub update_where-none :
      (p : A → Bool) (f : A → A) (xs : List A)
      → ((x : A) → Memᴰ x xs → p x ≡ false)
      → update_where p f xs ≡ xs
  unfolding update_where
  update_where-none p f [] h = refl
  update_where-none p f (x ∷ xs) h =
      rw (h x (Memᴰ.head refl), update_where-none p f xs (λ y m. h y (Memᴰ.tail m))) refl
