-- ===== src/Sql/Table/Order.antt =====
-- ORDER BY ... LIMIT 1 by an order: the row that it takes is preceded by none.
use tejun.Prelude.{
  ◌≡◌, inl, inr, Bool, true, false, none, some, List, [], ◌∷◌, Memᴰ, arith, if◌then◌else◌,
  Bool-cases, Option-cases,
}
use tejun.Sql.Table.{first_by, select_where}

-- What an ORDER BY compares by: of two rows not both precede the other, and a row that is not
-- preceded by one that is not preceded by a third is not preceded by the third.
pub record IsOrder {A : Type 0} (before : A → A → Bool) : Type 0 where
  pub asym : (x y : A) → before x y ≡ true → before y x ≡ false
  pub trans : (x y z : A) → before x z ≡ false → before z y ≡ false → before x y ≡ false

module _ {A : Type 0} {before : A → A → Bool} (order : IsOrder before) where
  before_self : (x : A) → before x x ≡ false
  before_self x = elim (Bool-cases (before x x)) [ inl h ↦ order.asym x x h | inr h ↦ h ]

  pub first_by-none : (xs : List A) {z : A} → first_by before xs ≡ none → ¬ (Memᴰ z xs)
  unfolding first_by
  first_by-none [] h m = elim m [ ]
  first_by-none (x ∷ xs) h m = elim (Option-cases (first_by before xs)) [
    | inl e ↦ absurd (ground arith)
    | inr (y, e) ↦ elim (Bool-cases (before y x)) [
      | inl q ↦ absurd (ground arith)
      | inr q ↦ absurd (ground arith)
    ]
  ]

  -- The least of a row and of the least of the others.
  least_of_rest :
      (y w : A) (ys : List A) {x z : A}
      → (if before w y then some w else some y) ≡ some x
      → ((v : A) → Memᴰ v ys → before v w ≡ false)
      → Memᴰ z (y ∷ ys)
      → before z x ≡ false
  least_of_rest y w ys {x} {z} h rest m = elim (Bool-cases (before w y)) [
    | inl q ↦
        let e : x ≡ w = ground arith in
        rw e (elim m [ Memᴰ.head p ↦ rw p (order.asym w y q) | Memᴰ.tail n ↦ rest z n ])
    | inr q ↦
        let e : x ≡ y = ground arith in
        rw e (elim m [
          | Memᴰ.head p ↦ rw p (before_self y)
          | Memᴰ.tail n ↦ order.trans z y w (rest z n) q
        ])
  ]

  pub first_by-least :
      (xs : List A) {x z : A} → first_by before xs ≡ some x → Memᴰ z xs → before z x ≡ false
  unfolding first_by
  first_by-least [] h m = elim m [ ]
  first_by-least (y ∷ ys) {x} {z} h m = elim (Option-cases (first_by before ys)) [
    | inl e ↦
        let same : x ≡ y = ground arith in
        rw same (elim m [
          | Memᴰ.head p ↦ rw p (before_self y)
          | Memᴰ.tail n ↦ absurd (first_by-none ys {z = z} e n)
        ])
    | inr (w, e) ↦
        least_of_rest y w ys (rw (e, first_by) at h) (λ v n. first_by-least ys {x = w} {z = v} e n)
          m
  ]

module _ {A : Type 0} (p : A → Bool) where
  pub Memᴰ-select_where :
      {x : A} (xs : List A) → Memᴰ x xs → p x ≡ true → Memᴰ x (select_where p xs)
  unfolding select_where
  Memᴰ-select_where [] m h = elim m [ ]
  Memᴰ-select_where (y ∷ ys) (Memᴰ.head e) h = let q : p y ≡ true = rw (← e) h in rw q (Memᴰ.head e)
  Memᴰ-select_where (y ∷ ys) (Memᴰ.tail m) h = elim (Bool-cases (p y)) [
    | inl q ↦ rw q (Memᴰ.tail (Memᴰ-select_where ys m h))
    | inr q ↦ rw q (Memᴰ-select_where ys m h)
  ]
