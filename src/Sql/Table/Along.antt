-- ===== src/Sql/Table/Along.antt =====
-- Two tables of the same rows at two times: row by row, in the order of insertion.
use tejun.Prelude.{◌≡◌, refl, Bool, true, List, [], ◌∷◌, Memᴰ, Bool-cases, inl, inr}
use tejun.Sql.Table.{update_where}

module _ {A : Type 0} (R : A → A → Type 0) where
  abbrev pub Along : List A → List A → Type 0
  Along [] [] = Unit
  Along (x ∷ xs) (y ∷ ys) = R x y × Along xs ys
  Along [] (y ∷ ys) = ⊥
  Along (x ∷ xs) [] = ⊥

  pub Along-same : ((x : A) → R x x) → (xs : List A) → Along xs xs
  Along-same h [] = tt
  Along-same h (x ∷ xs) = (h x, Along-same h xs)

  pub Along-joined :
      ((x y z : A) → R x y → R y z → R x z)
      → (xs ys zs : List A) → Along xs ys
      → Along ys zs
      → Along xs zs
  Along-joined h [] [] [] p q = tt
  Along-joined h (x ∷ xs) (y ∷ ys) (z ∷ zs) p q = (h x y z p.0 q.0, Along-joined h xs ys zs p.1 q.1)
  Along-joined h [] (y ∷ ys) zs p q = absurd p
  Along-joined h (x ∷ xs) [] zs p q = absurd p
  Along-joined h [] [] (z ∷ zs) p q = absurd q
  Along-joined h (x ∷ xs) (y ∷ ys) [] p q = absurd q

  -- An UPDATE whose new rows stand in the relation to the old ones.
  pub Along-update_where :
      ((x : A) → R x x)
      → (p : A → Bool) (f : A → A) → ((x : A) → p x ≡ true → R x (f x))
      → (xs : List A) → Along xs (update_where p f xs)
  unfolding update_where
  Along-update_where same p f h [] = tt
  Along-update_where same p f h (x ∷ xs) = (
    elim (Bool-cases (p x)) [ inl e ↦ rw e (h x e) | inr e ↦ rw e (same x) ],
    Along-update_where same p f h xs,
  )

  -- A row of the later table is the successor of one of the earlier.
  pub Along-Memᴰ : (xs ys : List A) {y : A} → Along xs ys → Memᴰ y ys → (x : A) × Memᴰ x xs × R x y
  Along-Memᴰ [] [] h m = elim m [ ]
  Along-Memᴰ [] (y ∷ ys) h m = absurd h
  Along-Memᴰ (x ∷ xs) [] h m = elim m [ ]
  Along-Memᴰ (x ∷ xs) (y ∷ ys) h (Memᴰ.head e) = (x, Memᴰ.head refl, rw e h.0)
  Along-Memᴰ (x ∷ xs) (y ∷ ys) h (Memᴰ.tail m) =
      let (z, n, r) = Along-Memᴰ xs ys h.1 m in (z, Memᴰ.tail n, r)
