-- ===== src/Trace.antt =====
-- safeID of internal/trace/trace.go: what an id may look like in the trace file.
use Prim.Native.Char.{code}
use tejun.Prelude.{
  ℕ, String, Bool, true, false, ◌≡◌, refl, ◌&&◌, ◌||◌, not, ltb, leb, nat_eq, byte_length,
  if◌then◌else◌, Bool-cases, inl, inr, arith, zero, suc, ◌≤◌, ◌<◌, ◌⊎◌, ◌↔◌, ◌∙◌, sym, and_left,
  and_right,
}

-- a-z, A-Z, 0-9, '-', '_' or ':'
abbrev pub is_safe_char : ℕ → Bool
is_safe_char c =
    (leb 97 c && leb c 122)
    || (leb 65 c && leb c 90)
    || (leb 48 c && leb c 57)
    || nat_eq c 45
    || nat_eq c 95
    || nat_eq c 58

-- The loop over the value's characters.
unfoldable pub all_safe : String → Bool
all_safe String.[] = true
all_safe (String.◌∷◌ c s) = is_safe_char (code c) && all_safe s

unfoldable pub safe_id : String → String
safe_id value =
    if ltb 128 (byte_length value)
    then "[redacted]"
    else if all_safe value
    then value
    else "[redacted]"

-- The characters that an id may have in the trace.
abbrev pub alphabet : String
alphabet = "abcdefghijklmnopqrstuvwxyzABCDEFGHIJKLMNOPQRSTUVWXYZ0123456789-_:"

-- The character with this code occurs in the text.
abbrev pub occurs : ℕ → String → Bool
occurs c String.[] = false
occurs c (String.◌∷◌ d s) = nat_eq c (code d) || occurs c s

-- Every character of the text occurs in the alphabet.
abbrev pub IsSpelled : String → Type 0
IsSpelled String.[] = Unit
IsSpelled (String.◌∷◌ c s) = (occurs (code c) alphabet ≡ true) × IsSpelled s

-- Two tests agree on the numbers below a bound.
unfoldable agree : (p q : ℕ → Bool) → ℕ → Bool
agree p q zero = true
agree p q (suc n) = let rest = agree p q n in ((p n && q n) || (not (p n) && not (q n))) && rest

agree-below : (p q : ℕ → Bool) (bound n : ℕ) → agree p q bound ≡ true → n < bound → p n ≡ q n
unfolding agree
agree-below p q zero n h l = absurd (omega arith)
agree-below p q (suc k) n h l = elim (Bool-cases (nat_eq n k)) [
  | inl e ↦ let same : n ≡ k = ground arith in rw same (ground arith)
  | inr e ↦ agree-below p q k n (ground arith) (ground arith)
]

agree_ascii : agree is_safe_char (λ c. occurs c alphabet) 128 ≡ true
unfolding agree
agree_ascii = refl

unfoldable all_ascii : String → Bool
all_ascii String.[] = true
all_ascii (String.◌∷◌ d s) = ltb (code d) 128 && all_ascii s

occurs_ascii : (c : ℕ) (s : String) → all_ascii s ≡ true → 128 ≤ c → occurs c s ≡ false
unfolding all_ascii
occurs_ascii c String.[] h l = refl
occurs_ascii c (String.◌∷◌ d s) h l = ground (arith, occurs_ascii c s)

alphabet_ascii : all_ascii alphabet ≡ true
unfolding all_ascii
alphabet_ascii = refl

is_safe_char-occurs : (c : ℕ) → is_safe_char c ≡ occurs c alphabet
is_safe_char-occurs c = elim (Bool-cases (ltb c 128)) [
  | inl h ↦ agree-below is_safe_char (λ d. occurs d alphabet) 128 c agree_ascii (ground arith)
  | inr h ↦
      let safe : is_safe_char c ≡ false = ground arith in
      safe ∙ sym (occurs_ascii c alphabet alphabet_ascii (ground arith))
]

all_safe-IsSpelled : (s : String) → (all_safe s ≡ true) ↔ IsSpelled s
unfolding all_safe
all_safe-IsSpelled String.[] = (λ h. tt, λ h. refl)
all_safe-IsSpelled (String.◌∷◌ c s) = (
  λ h. (
    sym (is_safe_char-occurs (code c)) ∙ and_left _ _ h,
    (all_safe-IsSpelled s).0 (and_right _ _ h),
  ),
  λ (a, b).
      let x = is_safe_char-occurs (code c) ∙ a in
      let y = (all_safe-IsSpelled s).1 b in rw (x, y) refl,
)

-- An id is written to the trace as it is when it has at most 128 bytes and each of its characters is an
-- ASCII letter, a digit, `-`, `_` or `:`; every other one is written as [redacted].
pub safe_id-IsSpelled :
    (value : String)
    → ((safe_id value ≡ value) × (byte_length value ≤ 128) × IsSpelled value)
      ⊎ ((safe_id value ≡ "[redacted]") × ¬ ((byte_length value ≤ 128) × IsSpelled value))
unfolding safe_id
safe_id-IsSpelled value = elim (Bool-cases (ltb 128 (byte_length value))) [
  | inl long ↦ inr (rw long refl, λ (short, _). absurd (ground arith))
  | inr short ↦ elim (Bool-cases (all_safe value)) [
    | inl safe ↦ inl (rw (short, safe) refl, ground arith, (all_safe-IsSpelled value).0 safe)
    | inr unsafe ↦ inr (
      rw (short, unsafe) refl,
      λ (_, spelled). let k = (all_safe-IsSpelled value).1 spelled in absurd (cc),
    )
  ]
]
