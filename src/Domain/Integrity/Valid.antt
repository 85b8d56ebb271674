-- ===== src/Domain/Integrity/Valid.antt =====
-- Evaluate against a description of the documents that it calls valid.
use tejun.Prelude.{
  String, Bool, true, false, List, [], ◌∷◌, ◌≡◌, refl, ◌∙◌, ◌==◌, ◌&&◌, not, is_empty, arith, ◌↔◌,
  Bool-cases, inl, inr, is_blank, and_left, and_right, mem_text, IsDistinct, map, eq_iff, eq_refl,
}
use tejun.Domain.Integrity.{EvidenceRef, Step, Document, ref_issues, step_issues, evaluate}

-- No text of the list was seen before, or comes twice.
abbrev unseen : List String → List String → Bool
unseen seen [] = true
unseen seen (x ∷ xs) = not (mem_text x seen) && unseen (x ∷ seen) xs

unseen-IsDistinct :
    (seen xs : List String)
    → unseen seen xs ≡ true
    → IsDistinct xs × ((id : String) → mem_text id xs ≡ true → mem_text id seen ≡ false)
unfolding mem_text
unseen-IsDistinct seen [] h = (tt, λ id k. absurd (cc))
unseen-IsDistinct seen (x ∷ xs) h =
    let (distinct, apart) = unseen-IsDistinct (x ∷ seen) xs (ground arith) in
    ((ground (arith, apart x, eq_refl x), distinct), λ id k. ground (arith, apart id, eq_iff x id))

IsDistinct-unseen :
    (seen xs : List String)
    → IsDistinct xs
    → ((id : String) → mem_text id xs ≡ true → mem_text id seen ≡ false)
    → unseen seen xs ≡ true
unfolding mem_text
IsDistinct-unseen seen [] d apart = refl
IsDistinct-unseen seen (x ∷ xs) d apart =
    let rest =
      IsDistinct-unseen (x ∷ seen) xs d.1 (λ id k. ground (arith, apart id, eq_iff x id, d.0)) in
    ground (arith, apart x, eq_refl x)

abbrev pub evidence_ids : List EvidenceRef → List String
evidence_ids refs = map (λ (r : EvidenceRef). r.evidence_id) refs

-- Each id is that of a source evidence, and not blank.
abbrev pub AllKnown : List String → List EvidenceRef → Type 0
AllKnown source [] = Unit
AllKnown source (r ∷ refs) =
    (is_blank r.evidence_id ≡ false) × (mem_text r.evidence_id source ≡ true) × AllKnown source refs

abbrev known : List String → List EvidenceRef → Bool
known source [] = true
known source (r ∷ refs) =
    not (is_blank r.evidence_id) && mem_text r.evidence_id source && known source refs

ref_issues-unseen :
    (source : List String) (step_id : String) (seen : List String) (refs : List EvidenceRef)
    → is_empty (ref_issues source step_id seen refs)
      ≡ (unseen seen (evidence_ids refs) && known source refs)
unfolding ref_issues
ref_issues-unseen source step_id seen [] = refl
ref_issues-unseen source step_id seen (r ∷ refs) =
    ground (arith, ref_issues-unseen source step_id (r.evidence_id ∷ seen) refs)

-- A step that can be exported.
abbrev pub StepWellFormed : List String → Step → Type 0
StepWellFormed source step =
    (is_blank step.client_key ≡ false)
    × (is_blank step.title ≡ false)
    × IsDistinct (evidence_ids step.evidence_refs)
    × AllKnown source step.evidence_refs

abbrev pub AllStepsWellFormed : List String → List Step → Type 0
AllStepsWellFormed source [] = Unit
AllStepsWellFormed source (s ∷ steps) = StepWellFormed source s × AllStepsWellFormed source steps

abbrev pub client_keys : List Step → List String
client_keys steps = map (λ (s : Step). s.client_key) steps

-- A document that can be exported: it has a title and steps, no client key comes twice, and each
-- step is well formed, its evidence ids being distinct and of the source.
abbrev pub WellFormed : Document → List String → Type 0
WellFormed document source =
    (is_blank document.title ≡ false)
    × (is_empty document.steps ≡ false)
    × IsDistinct (client_keys document.steps)
    × AllStepsWellFormed source document.steps

abbrev good_step : List String → Step → Bool
good_step source s =
    not (is_blank s.client_key)
    && not (is_blank s.title)
    && unseen [] (evidence_ids s.evidence_refs)
    && known source s.evidence_refs

abbrev good_steps : List String → List Step → Bool
good_steps source [] = true
good_steps source (s ∷ steps) = good_step source s && good_steps source steps

step_issues-unseen :
    (source keys : List String) (steps : List Step)
    → is_empty (step_issues source keys steps)
      ≡ (unseen keys (client_keys steps) && good_steps source steps)
unfolding step_issues
step_issues-unseen source keys [] = refl
step_issues-unseen source keys (s ∷ steps) = ground (
  arith,
  step_issues-unseen source (s.client_key ∷ keys) steps,
  ref_issues-unseen source s.id [] s.evidence_refs,
)

known-AllKnown :
    (source : List String) (refs : List EvidenceRef)
    → (known source refs ≡ true) ↔ AllKnown source refs
known-AllKnown source [] = (λ h. tt, λ h. refl)
known-AllKnown source (r ∷ refs) =
    let (there, back) = known-AllKnown source refs in
    (
      λ h. (ground arith, ground arith, there (ground arith)),
      λ h. ground (arith, h.0, h.1, back h.2),
    )

good_step-StepWellFormed :
    (source : List String) (s : Step) → (good_step source s ≡ true) ↔ StepWellFormed source s
unfolding mem_text
good_step-StepWellFormed source s =
    let (there, back) = known-AllKnown source s.evidence_refs in
    (
      λ h.
          let fresh : unseen [] (evidence_ids s.evidence_refs) ≡ true = ground arith in
          (
            ground arith,
            ground arith,
            (unseen-IsDistinct [] (evidence_ids s.evidence_refs) fresh).0,
            there (ground arith),
          ),
      λ h.
          let fresh = IsDistinct-unseen [] (evidence_ids s.evidence_refs) h.2 (λ id k. refl) in
          ground (arith, h.0, h.1, fresh, back h.3),
    )

good_steps-AllStepsWellFormed :
    (source : List String) (steps : List Step)
    → (good_steps source steps ≡ true) ↔ AllStepsWellFormed source steps
good_steps-AllStepsWellFormed source [] = (λ h. tt, λ h. refl)
good_steps-AllStepsWellFormed source (s ∷ steps) =
    let (one, one_back) = good_step-StepWellFormed source s in
    let (rest, rest_back) = good_steps-AllStepsWellFormed source steps in
    (
      λ h. (one (and_left (good_step source s) _ h), rest (and_right (good_step source s) _ h)),
      λ h. rw (one_back h.0) (rest_back h.1),
    )

evaluate-parts :
    (document : Document) (source : List String)
    → ((evaluate document source).status == "valid") ≡ (
        not (is_blank document.title)
        && not (is_empty document.steps)
        && unseen [] (client_keys document.steps)
        && good_steps source document.steps)
unfolding evaluate
evaluate-parts document source = elim (Bool-cases (is_blank document.title)) [
  | inl a ↦ rw a refl
  | inr a ↦ elim (Bool-cases (is_empty document.steps)) [
    | inl b ↦ rw (a, b) refl
    | inr b ↦
        elim (Bool-cases
          (unseen [] (client_keys document.steps) && good_steps source document.steps)) [
            | inl c ↦
                let e : is_empty (step_issues source [] document.steps) ≡ true =
                  step_issues-unseen source [] document.steps ∙ c in
                rw (a, b, c, e) refl
            | inr c ↦
                let e : is_empty (step_issues source [] document.steps) ≡ false =
                  step_issues-unseen source [] document.steps ∙ c in
                rw (a, b, c, e) refl
          ]
  ]
]

-- A document is valid exactly when it is well formed: a title, steps, distinct client keys, and
-- in each step a key, a title, and distinct evidence ids that are all of the source.
pub evaluate-WellFormed :
    (document : Document) (source : List String)
    → (((evaluate document source).status == "valid") ≡ true) ↔ WellFormed document source
unfolding mem_text
evaluate-WellFormed document source =
    let (there, back) = good_steps-AllStepsWellFormed source document.steps in
    let parts = evaluate-parts document source in
    (
      λ h.
          let fresh : unseen [] (client_keys document.steps) ≡ true = ground arith in
          (
            ground arith,
            ground arith,
            (unseen-IsDistinct [] (client_keys document.steps) fresh).0,
            there (ground arith),
          ),
      λ h.
          let fresh = IsDistinct-unseen [] (client_keys document.steps) h.2 (λ id k. refl) in
          ground (arith, parts, h.0, h.1, fresh, back h.3),
    )
