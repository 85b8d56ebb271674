-- ===== src/Prelude/Sets.antt =====
-- Go's map[string]bool as a set of texts: a list of its members.
use Prim.Native.Nat.{◌+◌}
use Prim.Native.String.{String}
use mathlib.Core.Bool.{Bool, true, false, ◌||◌}
use mathlib.Core.List.{List, [], ◌∷◌}
use mathlib.Core.Path.{◌≡◌, refl}
use native.Mathlib.Omega.{arith}
use tejun.Prelude.Tests.{if◌then◌else◌}
use tejun.Prelude.Lists.{length}
use tejun.Prelude.Text.{◌==◌, eq_iff}

-- m[a]
unfoldable pub mem_text : String → List String → Bool
mem_text a [] = false
mem_text a (x ∷ xs) = x == a || mem_text a xs

-- delete(m, a)
unfoldable pub remove_text : String → List String → List String
remove_text a [] = []
remove_text a (x ∷ xs) = let rest = remove_text a xs in if x == a then rest else x ∷ rest

-- No member is listed twice.
abbrev pub IsDistinct : List String → Type 0
IsDistinct [] = Unit
IsDistinct (x ∷ xs) = (mem_text x xs ≡ false) × IsDistinct xs

pub mem_text-remove_text :
    (a b : String) (xs : List String)
    → mem_text a (remove_text b xs) ≡ (if b == a then false else mem_text a xs)
unfolding mem_text remove_text
mem_text-remove_text a b [] = ground arith
mem_text-remove_text a b (x ∷ xs) =
    ground (arith, mem_text-remove_text a b xs, eq_iff x b, eq_iff x a, eq_iff b a)

pub remove_text_absent :
    (a : String) (xs : List String) → mem_text a xs ≡ false → remove_text a xs ≡ xs
unfolding mem_text remove_text
remove_text_absent a [] h = refl
remove_text_absent a (x ∷ xs) h = ground (arith, remove_text_absent a xs)

pub remove_text-IsDistinct :
    (a : String) (xs : List String) → IsDistinct xs → IsDistinct (remove_text a xs)
unfolding remove_text
remove_text-IsDistinct a [] d = tt
remove_text-IsDistinct a (x ∷ xs) d =
    ground (arith, remove_text-IsDistinct a xs, mem_text-remove_text x a xs)

pub length-remove_text :
    (a : String) (xs : List String)
    → IsDistinct xs
    → mem_text a xs ≡ true
    → length (remove_text a xs) + 1 ≡ length xs
unfolding mem_text remove_text
length-remove_text a [] d h = ground arith
length-remove_text a (x ∷ xs) d h =
    ground (arith, length-remove_text a xs d.1, remove_text_absent a xs, eq_iff x a)
