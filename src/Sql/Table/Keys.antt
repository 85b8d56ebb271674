-- ===== src/Sql/Table/Keys.antt =====
-- A PRIMARY KEY: two rows with one key are one row.
use tejun.Prelude.{
  ◌≡◌, refl, ◌∙◌, sym, ap, String, Bool, true, false, List, [], ◌∷◌, ◌++◌, Memᴰ, if◌then◌else◌, inl,
  inr,
}
use tejun.Sql.Table.{update_where, update_where-Memᴰ, append_one-Memᴰ}

module _ {A : Type 0} (key : A → String) where
  abbrev pub IsKeyed : List A → Type 0
  IsKeyed rows = (x y : A) → Memᴰ x rows → Memᴰ y rows → key x ≡ key y → x ≡ y

  key_kept : (b : Bool) (x y : A) → (b ≡ true → key y ≡ key x) → key (if b then y else x) ≡ key x
  key_kept true x y h = h refl
  key_kept false x y h = refl

  pub IsKeyed-update_where :
      (p : A → Bool) (f : A → A) (xs : List A)
      → ((x : A) → Memᴰ x xs → p x ≡ true → key (f x) ≡ key x)
      → IsKeyed xs
      → IsKeyed (update_where p f xs)
  IsKeyed-update_where p f xs h keyed y z my mz same =
      let (x, mx, ex) = update_where-Memᴰ p f xs my in
      let (w, mw, ew) = update_where-Memᴰ p f xs mz in
      let kx = ap key ex ∙ key_kept (p x) x (f x) (h x mx) in
      let kw = ap key ew ∙ key_kept (p w) w (f w) (h w mw) in
      let one = keyed x w mx mw (sym kx ∙ same ∙ kw) in
      ex ∙ ap (λ v. if p v then f v else v) one ∙ sym ew

  -- An INSERT under a key that no row has.
  pub IsKeyed-append_one :
      (r : A) (xs : List A)
      → ((x : A) → Memᴰ x xs → ¬ (key x ≡ key r))
      → IsKeyed xs
      → IsKeyed (xs ++ r ∷ [])
  IsKeyed-append_one r xs fresh keyed x y mx my same = elim (append_one-Memᴰ r xs mx) [
    | inl old ↦ elim (append_one-Memᴰ r xs my) [
      | inl other ↦ keyed x y old other same
      | inr new ↦ absurd (fresh x old (same ∙ ap key new))
    ]
    | inr new ↦ elim (append_one-Memᴰ r xs my) [
      | inl other ↦ absurd (fresh y other (sym same ∙ ap key new))
      | inr also ↦ new ∙ sym also
    ]
  ]
