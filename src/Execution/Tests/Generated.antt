-- ===== src/Execution/Tests/Generated.antt =====
-- An execution that is ready, and the draft that is generated from it.
use tejun.Prelude.{true, none, [], ◌∷◌, ◌≡◌, refl, Memᴰ, mem_text}
use tejun.Sql.Tx.{ok}
use tejun.Sql.Table.{find, insert_sorted}
use tejun.Database.{Db}
use tejun.Database.Rows.{AiStatus, Evidence}
use tejun.Domain.Integrity.{EvidenceRef, Step}
use tejun.Domain.Readiness.{readiness, check_reasons}
use tejun.Mutation.{same_receipt}
use tejun.Execution.Generate.{
  ProcedureDraftRecord, document_of, insert_draft, insert_procedure, insert_source,
  insert_source_evidence, insert_procedure_evidence, open_editing, close_execution,
  generation_accepted, admit_generation, link_sources, write_draft, generate_new, generate_tx,
  generate_procedure_draft,
}
use tejun.Execution.Generate.Drafted.{Drafted, generate_procedure_draft-Drafted}
use tejun.Execution.Generate.References.{generate_procedure_draft-references}
use tejun.Execution.Tests.{noon, check, start, plain_hash}
use tejun.Execution.Tests.Program.{program}
use tejun.Procedure.Codec.{Json}
use tejun.Procedure.Statements.{source_ids}
use tejun.Project.Statements.{insert_rows}

unfoldable generation_program : Unit {0}
unfolding program insert_sorted readiness check_reasons insert_rows insert_draft insert_procedure
    insert_source insert_source_evidence insert_procedure_evidence open_editing close_execution
    admit_generation link_sources write_draft generate_new generate_tx generate_procedure_draft
generation_program = tt

abbrev json : Json
json = record {
  marshal = λ d. d.title;
  unmarshal = λ text. none;
  decode = λ text. none;
  marshal_content = λ parts. "";
}

abbrev found : Evidence
found = record {
  evidence_id = "v1";
  execution_id = "e1";
  check_id = "c1";
  actor = "ai";
  kind = "text";
  text = "there";
  display_name = "log";
  blob_hash = none;
  created_at = "2026-09-26T11:30:00Z";
}

abbrev ready : Db
ready = record start { checks = check "c1" 1 AiStatus.completed ∷ []; evidence = found ∷ [] }

abbrev draft : ProcedureDraftRecord
draft = record {
  execution_id = "e1";
  operation_id = "o1";
  procedure_id = "d1";
  expected_revision = 3;
  at = noon;
  event = record {
    id = "v1";
    name = "procedure.updated";
    emitted_at = noon;
    aggregate_type = "procedure";
    aggregate_id = "d1";
    correlation = "o1";
  };
}

abbrev drafted : Db
drafted = (generate_procedure_draft plain_hash json draft ready).1

generated_run :
    generate_procedure_draft plain_hash json draft ready
    ≡ (ok (generation_accepted draft "p1"), drafted)
unfolding generation_program
generated_run = refl

new_operation : find (same_receipt "generate_procedure_draft" "o1") ready.receipts ≡ none
unfolding generation_program
new_operation = refl

generate_procedure_draft-Drafted_example : Drafted json draft ready drafted
generate_procedure_draft-Drafted_example =
    generate_procedure_draft-Drafted plain_hash json draft ready generated_run new_operation

abbrev ref : EvidenceRef
ref = record { evidence_id = "v1"; display_name = "log"; included = true }

abbrev step : Step
step = record {
  id = "c1";
  client_key = "c1";
  title = "c1";
  description = "look";
  command = "";
  notes = [];
  evidence_refs = ref ∷ [];
}

step_listed : Memᴰ step (document_of "first" "e1" ready).steps
unfolding generation_program
step_listed = Memᴰ.head refl

generate_procedure_draft-references_example : mem_text "v1" (source_ids "d1" drafted) ≡ true
generate_procedure_draft-references_example =
    generate_procedure_draft-references plain_hash json draft ready "first" step ref generated_run
      new_operation step_listed (Memᴰ.head refl)
