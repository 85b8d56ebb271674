-- ===== src/Domain/Integrity.antt =====
-- internal/domain/procedure: when a generated procedure can be exported.
pub mod Valid
use tejun.Prelude.{
  String, Bool, true, false, List, [], ◌∷◌, ◌++◌, ◌≡◌, refl, ◌∙◌, sym, ap, ◌==◌, ◌&&◌, ◌||◌, not,
  if◌then◌else◌, is_empty, arith, ◌↔◌, Bool-cases, inl, inr, is_blank, and_left, and_right,
  mem_text, IsDistinct, map, eq_iff, eq_refl,
}

pub record EvidenceRef : Type 0 where
  pub evidence_id : String
  pub display_name : String
  pub included : Bool

pub record Step : Type 0 where
  pub id : String
  pub client_key : String
  pub title : String
  pub description : String
  pub command : String
  pub notes : List String
  pub evidence_refs : List EvidenceRef

pub record Document : Type 0 where
  pub title : String
  pub overview : String
  pub prerequisites : List String
  pub steps : List Step

pub record Issue : Type 0 where
  pub code : String
  pub severity : String
  pub message : String
  pub step_id : String
  pub evidence_id : String

pub record Integrity : Type 0 where
  pub status : String
  pub issues : List Issue

-- add
abbrev pub issue : String → String → String → Issue
issue code step_id evidence_id = record {
  code = code;
  severity = "blocking";
  message = code;
  step_id = step_id;
  evidence_id = evidence_id;
}

abbrev pub issue_if : Bool → Issue → List Issue
issue_if b i = if b then i ∷ [] else []

-- The loop over step.EvidenceRefs; `refs` is the set of the ids that came before.
unfoldable pub ref_issues : List String → String → List String → List EvidenceRef → List Issue
ref_issues source step_id refs [] = []
ref_issues source step_id refs (ref ∷ rest) =
    issue_if
      (is_blank ref.evidence_id
        || mem_text ref.evidence_id refs
        || not (mem_text ref.evidence_id source))
      (issue "invalid_evidence_ref" step_id ref.evidence_id)
    ++ ref_issues source step_id (ref.evidence_id ∷ refs) rest

-- The loop over document.Steps; `keys` is the set of the client keys that came before.
unfoldable pub step_issues : List String → List String → List Step → List Issue
step_issues source keys [] = []
step_issues source keys (step ∷ steps) =
    issue_if (is_blank step.client_key || mem_text step.client_key keys)
      (issue "invalid_client_key" step.id "")
    ++ issue_if (is_blank step.title) (issue "step_title_required" step.id "")
    ++ ref_issues source step.id [] step.evidence_refs
    ++ step_issues source (step.client_key ∷ keys) steps

-- Evaluate; `source` has the ids that the map sends to true.
unfoldable pub evaluate : Document → List String → Integrity
evaluate document source =
    let issues =
      issue_if (is_blank document.title) (issue "title_required" "" "")
      ++ issue_if (is_empty document.steps) (issue "steps_required" "" "")
      ++ step_issues source [] document.steps in
    record { status = if is_empty issues then "valid" else "blocked"; issues = issues }
