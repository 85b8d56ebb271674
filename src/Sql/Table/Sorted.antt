-- ===== src/Sql/Table/Sorted.antt =====
-- ORDER BY keeps the rows.
use tejun.Prelude.{Bool, List, [], ◌∷◌, Memᴰ, Bool-cases, inl, inr}
use tejun.Sql.Table.{order_by, insert_sorted}

module _ {A : Type 0} (before : A → A → Bool) where
  skip : (x y : A) {z : A} (ys : List A) → Memᴰ z (x ∷ ys) → Memᴰ z (x ∷ y ∷ ys)
  skip x y ys (Memᴰ.head e) = Memᴰ.head e
  skip x y ys (Memᴰ.tail m) = Memᴰ.tail (Memᴰ.tail m)

  -- The row that `y` is put before, and the rest.
  later :
      (x y : A) {z : A} (ys : List A)
      → Memᴰ z (y ∷ insert_sorted before x ys)
      → (Memᴰ z (insert_sorted before x ys) → Memᴰ z (x ∷ ys))
      → Memᴰ z (x ∷ y ∷ ys)
  later x y ys (Memᴰ.head e) rest = Memᴰ.tail (Memᴰ.head e)
  later x y ys (Memᴰ.tail m) rest = skip x y ys (rest m)

  insert_sorted-Memᴰ :
      (x : A) {z : A} (xs : List A) → Memᴰ z (insert_sorted before x xs) → Memᴰ z (x ∷ xs)
  unfolding insert_sorted
  insert_sorted-Memᴰ x [] m = m
  insert_sorted-Memᴰ x {z} (y ∷ ys) m = elim (Bool-cases (before y x)) [
    | inl e ↦ later x y ys (rw (e, insert_sorted) at m) (insert_sorted-Memᴰ x ys)
    | inr e ↦ rw (e, insert_sorted) at m
  ]

  under :
      (x : A) {z : A} (ys xs : List A) → Memᴰ z (x ∷ ys) → (Memᴰ z ys → Memᴰ z xs) → Memᴰ z (x ∷ xs)
  under x ys xs (Memᴰ.head e) f = Memᴰ.head e
  under x ys xs (Memᴰ.tail m) f = Memᴰ.tail (f m)

  -- A row of the sorted table is a row of the table.
  pub order_by-Memᴰ : {z : A} (xs : List A) → Memᴰ z (order_by before xs) → Memᴰ z xs
  unfolding order_by
  order_by-Memᴰ [] m = m
  order_by-Memᴰ (x ∷ xs) m =
      under x (order_by before xs) xs (insert_sorted-Memᴰ x (order_by before xs) m)
        (order_by-Memᴰ xs)

  sorted-insert_sorted :
      (x : A) {z : A} (xs : List A) → Memᴰ z (x ∷ xs) → Memᴰ z (insert_sorted before x xs)
  unfolding insert_sorted
  sorted-insert_sorted x [] m = m
  sorted-insert_sorted x {z} (y ∷ ys) m = elim (Bool-cases (before y x)) [
    | inl e ↦
        rw (e, insert_sorted)
          (elim m [
            | Memᴰ.head p ↦ Memᴰ.tail (sorted-insert_sorted x ys (Memᴰ.head p))
            | Memᴰ.tail n ↦
                under y ys (insert_sorted before x ys) n
                  (λ k. sorted-insert_sorted x ys (Memᴰ.tail k))
          ])
    | inr e ↦ rw (e, insert_sorted) m
  ]

  -- A row of the table is a row of the sorted table.
  pub Memᴰ-order_by : {z : A} (xs : List A) → Memᴰ z xs → Memᴰ z (order_by before xs)
  unfolding order_by
  Memᴰ-order_by [] m = m
  Memᴰ-order_by (x ∷ xs) m =
      sorted-insert_sorted x (order_by before xs)
        (under x xs (order_by before xs) m (Memᴰ-order_by xs))
