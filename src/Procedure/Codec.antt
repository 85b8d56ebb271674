-- ===== src/Procedure/Codec.antt =====
-- The JSON texts of a procedure, and the texts that a document may hold
-- (internal/adapter/sqlite/procedure.go). encoding/json is not code of the repository: its calls are
-- the fields of Json.
use Prim.Native.Char.{code}
use tejun.Prelude.{
  ℕ, ◌+◌, String, Bool, true, false, Option, List, [], ◌∷◌, ◌&&◌, ◌||◌, not, nat_eq,
}
use tejun.Domain.Integrity.{EvidenceRef, Step, Document}

-- ContentPart of internal/application/preparation.go, the fields that a revision reads or writes.
pub record ContentPart : Type 0 where
  pub kind : String
  pub text : String

-- json.Marshal of a document, json.Unmarshal into one, a Decoder with DisallowUnknownFields that has
-- to reach the end of the text, and json.Marshal of the parts of a message.
pub record Json : Type 0 where
  pub marshal : Document → String
  pub unmarshal : String → Option Document
  pub decode : String → Option Document
  pub marshal_content : List ContentPart → String

-- strings.ContainsAny(value, "<>")
unfoldable pub has_angle : String → Bool
has_angle String.[] = false
has_angle (String.◌∷◌ c s) = nat_eq (code c) 60 || nat_eq (code c) 62 || has_angle s

-- strings.Contains(value, "```"), with the number of backquotes right before the text.
unfoldable pub has_fence_after : ℕ → String → Bool
has_fence_after n String.[] = false
has_fence_after n (String.◌∷◌ c s) =
    (nat_eq (code c) 96 && nat_eq n 2)
    || has_fence_after (elim (nat_eq (code c) 96) [ true ↦ n + 1 | false ↦ 0 ]) s

-- validText
abbrev pub valid_text : String → Bool
valid_text value = not (has_angle value) && not (has_fence_after 0 value)

unfoldable pub all_valid : List String → Bool
all_valid [] = true
all_valid (value ∷ values) = valid_text value && all_valid values

unfoldable pub valid_refs : List EvidenceRef → Bool
valid_refs [] = true
valid_refs (ref ∷ refs) = valid_text ref.display_name && valid_refs refs

unfoldable pub valid_steps : List Step → Bool
unfolding all_valid valid_refs
valid_steps [] = true
valid_steps (step ∷ steps) =
    valid_text step.title
    && valid_text step.description
    && valid_text step.command
    && all_valid step.notes
    && valid_refs step.evidence_refs
    && valid_steps steps

-- validProcedureDocumentText
unfoldable pub valid_document_text : Document → Bool
unfolding valid_steps all_valid
valid_document_text document =
    valid_text document.title
    && valid_text document.overview
    && all_valid document.prerequisites
    && valid_steps document.steps
