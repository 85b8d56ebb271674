-- ===== src/Prelude/Order.antt =====
-- The order of texts: it is asymmetric, and what precedes a text precedes or follows any other.
use Prim.Native.Nat.{ℕ, Ordering, compare as compare_ℕ}
use Prim.Native.String.compare
use Prim.Native.Char.{Char, code}
use Prim.Native.String.{String, [], ◌∷◌, compare, then}
use mathlib.Core.Path.{◌≡◌, refl, ap, sym, ◌∙◌}
use mathlib.Core.Bool.{Bool, true, false, ◌&&◌, ◌||◌}
use text.Mathlib.Text.{is_lt, is_eq, ◌==◌}
use native.Mathlib.Omega.{arith}
use tejun.Prelude.Tests.{ltb, nat_eq}
use tejun.Prelude.Text.{text_lt}

is_lt-then : (r o : Ordering) → is_lt (then r o) ≡ (is_lt r || (is_eq r && is_lt o))
is_lt-then Ordering.lt o = refl
is_lt-then Ordering.eq o = refl
is_lt-then Ordering.gt o = refl

is_lt-ltb : (m n : ℕ) → is_lt (compare_ℕ m n) ≡ ltb m n
is_lt-ltb m n = ground arith

is_eq-nat_eq : (m n : ℕ) → is_eq (compare_ℕ m n) ≡ nat_eq m n
is_eq-nat_eq m n = ground arith

is_eq-then : (r o : Ordering) → is_eq (then r o) ≡ (is_eq r && is_eq o)
is_eq-then Ordering.lt o = refl
is_eq-then Ordering.eq o = refl
is_eq-then Ordering.gt o = refl

eq-cons :
    (c d : Char) (s t : String) → ((c ∷ s) == (d ∷ t)) ≡ (nat_eq (code c) (code d) && (s == t))
eq-cons c d s t =
    ap is_eq (compare.cons-cons c d s t)
    ∙ is_eq-then (compare_ℕ (code c) (code d)) (compare s t)
    ∙ rw (is_eq-nat_eq (code c) (code d)) refl

text_lt-cons_nil : (c : Char) (s : String) → text_lt (c ∷ s) [] ≡ false
text_lt-cons_nil c s = ap is_lt (compare.cons-nil c s)

text_lt-nil_cons : (c : Char) (s : String) → text_lt [] (c ∷ s) ≡ true
text_lt-nil_cons c s = ap is_lt (compare.nil-cons c s)

text_lt-cons :
    (c d : Char) (s t : String)
    → text_lt (c ∷ s) (d ∷ t) ≡ (ltb (code c) (code d) || (nat_eq (code c) (code d) && text_lt s t))
text_lt-cons c d s t =
    ap is_lt (compare.cons-cons c d s t)
    ∙ is_lt-then (compare_ℕ (code c) (code d)) (compare s t)
    ∙ rw (is_lt-ltb (code c) (code d), is_eq-nat_eq (code c) (code d)) refl

-- Numbers first, then what is left.
later :
    (a b c : ℕ) (p q r : Bool)
    → (ltb a c || (nat_eq a c && p)) ≡ false
    → (ltb c b || (nat_eq c b && q)) ≡ false
    → (p ≡ false → q ≡ false → r ≡ false)
    → (ltb a b || (nat_eq a b && r)) ≡ false
later a b c p q r h k rest = grind arith

ahead :
    (a b : ℕ) (p q : Bool)
    → (ltb a b || (nat_eq a b && p)) ≡ true
    → (p ≡ true → q ≡ false)
    → (ltb b a || (nat_eq b a && q)) ≡ false
ahead a b p q h rest = grind arith

text_lt-nil : (a : String) → text_lt a [] ≡ false
text_lt-nil [] = refl
text_lt-nil (x ∷ s) = text_lt-cons_nil x s

pub text_lt_trans :
    (a b c : String) → text_lt a c ≡ false → text_lt c b ≡ false → text_lt a b ≡ false
text_lt_trans a [] c h k = text_lt-nil a
text_lt_trans [] (y ∷ t) [] h k = k
text_lt_trans [] (y ∷ t) (z ∷ u) h k = absurd (let e = text_lt-nil_cons z u in ground arith)
text_lt_trans (x ∷ s) (y ∷ t) [] h k = absurd (let e = text_lt-nil_cons y t in ground arith)
text_lt_trans (x ∷ s) (y ∷ t) (z ∷ u) h k =
    text_lt-cons x y s t
    ∙ later (code x) (code y) (code z) (text_lt s u) (text_lt u t) (text_lt s t)
        (sym (text_lt-cons x z s u) ∙ h) (sym (text_lt-cons z y u t) ∙ k) (text_lt_trans s t u)

pub text_lt_asym : (a b : String) → text_lt a b ≡ true → text_lt b a ≡ false
text_lt_asym a [] h = absurd (let e = text_lt-nil a in ground arith)
text_lt_asym [] (y ∷ t) h = text_lt-cons_nil y t
text_lt_asym (x ∷ s) (y ∷ t) h =
    text_lt-cons y x t s
    ∙ ahead (code x) (code y) (text_lt s t) (text_lt t s) (sym (text_lt-cons x y s t) ∙ h)
        (text_lt_asym s t)

together :
    (a b : ℕ) (p q r : Bool)
    → (ltb a b || (nat_eq a b && p)) ≡ false
    → (ltb b a || (nat_eq b a && q)) ≡ false
    → (p ≡ false → q ≡ false → r ≡ true)
    → (nat_eq a b && r) ≡ true
together a b p q r h k rest = grind arith

-- Neither of two equal texts precedes the other, and one of two different ones does.
pub text_lt_split : (a b : String) → text_lt a b ≡ false → text_lt b a ≡ false → (a == b) ≡ true
text_lt_split [] [] h k = refl
text_lt_split [] (y ∷ t) h k = absurd (let e = text_lt-nil_cons y t in ground arith)
text_lt_split (x ∷ s) [] h k = absurd (let e = text_lt-nil_cons x s in ground arith)
text_lt_split (x ∷ s) (y ∷ t) h k =
    eq-cons x y s t
    ∙ together (code x) (code y) (text_lt s t) (text_lt t s) (s == t)
        (sym (text_lt-cons x y s t) ∙ h) (sym (text_lt-cons y x t s) ∙ k) (text_lt_split s t)
