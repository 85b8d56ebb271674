-- ===== src/Domain/Readiness.antt =====
-- internal/domain/execution: when the procedure of an execution can be generated.
use tejun.Prelude.{
  String, Bool, true, false, List, [], ◌∷◌, ◌++◌, ◌≡◌, refl, ◌==◌, ◌+s◌, ◌&&◌, ◌||◌, not,
  if◌then◌else◌, is_empty, arith, ◌↔◌, Bool-cases, inl, inr, ◌≢◌, ◌⊎◌, Memᴰ, sym, eq_iff, and_left,
  and_right,
}
use tejun.Sql.Table.{exists, exists-true, exists-some}

pub record Evidence : Type 0 where
  pub actor : String
  pub kind : String
  pub status : String

pub record Check : Type 0 where
  pub id : String
  pub ai_required : Bool
  pub human_required : Bool
  pub ai_status : String
  pub human_status : String
  pub human_evidence_requirement : String
  pub evidence : List Evidence

pub record Snapshot : Type 0 where
  pub status : String
  pub checks : List Check

-- EvidenceMatches
abbrev pub evidence_matches : String → String → Bool
evidence_matches requirement kind =
    requirement == kind || (requirement == "text_or_image" && (kind == "text" || kind == "image"))

-- The loop over check.Evidence.
abbrev pub has_evidence : Check → Bool
has_evidence c =
    exists
      (λ (e : Evidence).
        e.actor == "human"
        && evidence_matches c.human_evidence_requirement e.kind
        && e.status == "available")
      c.evidence

abbrev pub is_incomplete : Check → Bool
is_incomplete c =
    (c.ai_required && not (c.ai_status == "completed"))
    || (c.human_required && not (c.human_status == "completed"))

abbrev pub lacks_evidence : Check → Bool
lacks_evidence c =
    c.human_required && not (c.human_evidence_requirement == "none") && not (has_evidence c)

-- if b { reasons = append(reasons, s) }
abbrev pub reason_if : Bool → String → List String
reason_if b s = if b then s ∷ [] else []

-- The loop over s.Checks.
unfoldable pub check_reasons : List Check → List String
unfolding exists
check_reasons [] = []
check_reasons (c ∷ cs) =
    reason_if (is_incomplete c) ("check_incomplete:" +s c.id)
    ++ reason_if (lacks_evidence c) ("evidence_missing:" +s c.id)
    ++ check_reasons cs

-- Snapshot.Readiness
unfoldable pub readiness : Snapshot → Bool × List String
unfolding check_reasons
readiness s =
    let reasons =
      reason_if (not (s.status == "active")) "execution_not_active"
      ++ reason_if (is_empty s.checks) "checks_empty"
      ++ check_reasons s.checks in
    (is_empty reasons, reasons)

-- Evidence of the human side of the required kind that can be read.
abbrev pub Proves : String → Evidence → Type 0
Proves requirement e =
    (e.actor ≡ "human")
    × (e.status ≡ "available")
    × ((e.kind ≡ requirement)
        ⊎ ((requirement ≡ "text_or_image") × ((e.kind ≡ "text") ⊎ (e.kind ≡ "image"))))

-- A check that is done: each side that is required is completed, and a human side that asks for
-- evidence has some.
pub record CheckDone (c : Check) : Type 0 where
  pub ai : c.ai_required ≡ true → c.ai_status ≡ "completed"
  pub human : c.human_required ≡ true → c.human_status ≡ "completed"
  pub proof :
      c.human_required ≡ true
      → c.human_evidence_requirement ≢ "none"
      → (e : Evidence) × Memᴰ e c.evidence × Proves c.human_evidence_requirement e

-- EvidenceMatches as an equation of texts.
evidence_matches-eq :
    (q kind : String)
    → (evidence_matches q kind ≡ true)
      ↔ ((kind ≡ q) ⊎ ((q ≡ "text_or_image") × ((kind ≡ "text") ⊎ (kind ≡ "image"))))
evidence_matches-eq q kind = (
  λ h. elim (Bool-cases (q == kind)) [
    | inl a ↦ inl (sym ((eq_iff q kind).0 a))
    | inr a ↦
        let both : (q == "text_or_image") ≡ true = ground arith in
        inr (
          (eq_iff q "text_or_image").0 both,
          elim (Bool-cases (kind == "text")) [
            | inl b ↦ inl ((eq_iff kind "text").0 b)
            | inr b ↦ inr ((eq_iff kind "image").0 (ground arith))
          ],
        )
  ],
  λ h. elim h [
    | inl e ↦ let k = (eq_iff q kind).1 (sym e) in ground arith
    | inr (e, either) ↦
        let k = (eq_iff q "text_or_image").1 e in
        elim either [
          | inl f ↦ let l = (eq_iff kind "text").1 f in ground arith
          | inr f ↦ let l = (eq_iff kind "image").1 f in ground arith
        ]
  ],
)

has_evidence-Proves :
    (c : Check)
    → (has_evidence c ≡ true)
      ↔ ((e : Evidence) × Memᴰ e c.evidence × Proves c.human_evidence_requirement e)
has_evidence-Proves c = (
  λ h.
      let (e, m, k) = exists-some _ c.evidence h in
      let of_kind = and_left _ _ k in
      (
        e,
        m,
        (
          (eq_iff e.actor "human").0 (and_left _ _ of_kind),
          (eq_iff e.status "available").0 (and_right _ _ k),
          (evidence_matches-eq _ e.kind).0 (and_right _ _ of_kind),
        ),
      ),
  λ (e, m, (actor, status, kind)).
      let a = (eq_iff e.actor "human").1 actor in
      let b = (eq_iff e.status "available").1 status in
      let k = (evidence_matches-eq _ e.kind).1 kind in
      exists-true _ c.evidence m (rw (a, b, k) refl),
)

not_none : (q : String) → (q ≢ "none") → (q == "none") ≡ false
not_none q h = elim (Bool-cases (q == "none")) [
  | inl e ↦ absurd (h ((eq_iff q "none").0 e))
  | inr e ↦ e
]

check_done : (c : Check) → is_incomplete c ≡ false → lacks_evidence c ≡ false → CheckDone c
check_done c a b = record {
  ai = λ h. (eq_iff c.ai_status "completed").0 (ground arith);
  human = λ h. (eq_iff c.human_status "completed").0 (ground arith);
  proof = λ h k. let n = not_none _ k in (has_evidence-Proves c).0 (ground arith);
}

is_incomplete-done : (c : Check) → CheckDone c → is_incomplete c ≡ false
is_incomplete-done c d =
    let a = λ (h : c.ai_required ≡ true). (eq_iff c.ai_status "completed").1 (d.ai h) in
    let b = λ (h : c.human_required ≡ true). (eq_iff c.human_status "completed").1 (d.human h) in
    ground arith

lacks_evidence-done : (c : Check) → CheckDone c → lacks_evidence c ≡ false
lacks_evidence-done c d = elim (Bool-cases c.human_required) [
  | inr h ↦ rw h refl
  | inl h ↦ elim (Bool-cases (c.human_evidence_requirement == "none")) [
    | inl e ↦ rw (h, e) refl
    | inr e ↦ let p = (has_evidence-Proves c).1 (d.proof h (λ q. absurd (cc))) in ground arith
  ]
]

check_reasons-done :
    (cs : List Check)
    → (is_empty (check_reasons cs) ≡ true) ↔ ((c : Check) → Memᴰ c cs → CheckDone c)
unfolding check_reasons
check_reasons-done [] = (λ h c m. elim m [ ], λ h. refl)
check_reasons-done (c ∷ cs) = (
  λ h. elim (Bool-cases (is_incomplete c)) [
    | inl a ↦ absurd (ground arith)
    | inr a ↦ elim (Bool-cases (lacks_evidence c)) [
      | inl b ↦ absurd (ground arith)
      | inr b ↦ (λ d m. elim m [
        | Memᴰ.head e ↦ rw e (check_done c a b)
        | Memᴰ.tail n ↦ (check_reasons-done cs).0 (rw (a, b) at h) d n
      ])
    ]
  ],
  λ h.
      let d = h c (Memᴰ.head refl) in
      rw (is_incomplete-done c d, lacks_evidence-done c d)
        ((check_reasons-done cs).1 (λ e m. h e (Memᴰ.tail m))),
)

is_empty-cases :
    {A : Type 0} (xs : List A)
    → ((xs ≡ []) × (is_empty xs ≡ true)) ⊎ ((xs ≢ []) × (is_empty xs ≡ false))
is_empty-cases [] = inl (refl, refl)
is_empty-cases (x ∷ xs) = inr (λ e. cc, refl)

-- An execution is ready exactly when it is active, has checks, and each of them is done: the sides
-- that are required are completed, and where the human side asks for evidence, the check has evidence
-- by a human that is available and of the kind asked for.
pub readiness-CheckDone :
    (s : Snapshot)
    → ((readiness s).0 ≡ true)
      ↔ ((s.status ≡ "active") × (s.checks ≢ []) × ((c : Check) → Memᴰ c s.checks → CheckDone c))
unfolding readiness
readiness-CheckDone s = (
  λ h. elim (Bool-cases (s.status == "active")) [
    | inr a ↦ absurd (ground arith)
    | inl a ↦ elim (is_empty-cases s.checks) [
      | inl (_, b) ↦ absurd (ground arith)
      | inr (n, b) ↦
          ((eq_iff s.status "active").0 a, n, (check_reasons-done s.checks).0 (rw (a, b) at h))
    ]
  ],
  λ h. elim (is_empty-cases s.checks) [
    | inl (e, _) ↦ absurd (h.1 e)
    | inr (_, b) ↦
        let a = (eq_iff s.status "active").1 h.0 in rw (a, b) ((check_reasons-done s.checks).1 h.2)
  ],
)
