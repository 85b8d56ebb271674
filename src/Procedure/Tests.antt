-- ===== src/Procedure/Tests.antt =====
-- A draft of a procedure and requests on it.
pub mod Program
use Program.{procedure_program}
use tejun.Prelude.{
  ℕ, String, Bool, true, false, Option, none, some, List, [], ◌∷◌, ◌≡◌, refl, sym, ◌∙◌, Memᴰ, ◌⊎◌,
  ◌==◌, eq_iff, ap, ◌≤◌, byte_length, arith,
}
use tejun.Sql.Tx.{ok}
use tejun.Sql.Table.{find}
use tejun.Mutation.{same_receipt}
use tejun.Sql.Table.Keys.{IsKeyed}
use tejun.Database.{Db}
use tejun.Database.Rows.{JobState, ProcedureStatus, Procedure, RevisionJob}
use tejun.Database.Ledger.{OutboxEvent}
use tejun.Domain.Integrity.{Document, evaluate}
use tejun.Execution.Statements.{is_cancellation_requested}
use tejun.Execution.Tests.{noon, later, start, plain_hash}
use tejun.Procedure.Codec.{Json}
use tejun.Procedure.Statements.{has_procedure, has_revision_job, source_ids}
use tejun.Procedure.Draft.{ProcedureSaveRecord, saved, save_procedure_draft}
use tejun.Procedure.Complete.{ProcedureCompleteRecord}
use tejun.Procedure.Revision.Accept.{
  ProcedureRevisionRecord, accepted_turn_result, prompt_limit, prompt_of, queued_revision,
  accept_procedure_revision,
}
use tejun.Procedure.Revision.Claim.{ClaimedProcedureRevision}
use tejun.Procedure.Revision.Finish.{finish_procedure_revision}
use tejun.Procedure.Revision.Adopts.{Adopted, finish_procedure_revision-Adopted}
use tejun.Procedure.Operations.{Request, history}
use tejun.Procedure.Versions.{Versions, procedure-Versions}
use tejun.Procedure.Versions.Stale.{save_procedure_draft-once}
use tejun.Procedure.Versions.Late.{finish_procedure_revision-late}
use tejun.Procedure.Replay.{save_procedure_draft-replay, accept_procedure_revision-replay}
use tejun.Procedure.Pending.Rows.{IsOrderly}
use tejun.Procedure.Pending.Guards.{procedure-OneRevision}
use tejun.Procedure.Bounds.{AllFit, procedure-AllFit}
use tejun.Procedure.ReadsBack.{save_procedure_draft-reads_back}
use tejun.Procedure.Sound.{IsSound}
use tejun.Procedure.Sound.Completion.{procedure-IsSound}

abbrev document : String → Document
document title = record {
  title = title;
  overview = "";
  prerequisites = [];
  steps =
      record {
        id = "s1";
        client_key = "k1";
        title = "look";
        description = "";
        command = "";
        notes = [];
        evidence_refs = [];
      }
      ∷ [];
}

-- The text of a document is its title.
abbrev json : Json
json = record {
  marshal = λ d. d.title;
  unmarshal = λ text. some (document text);
  decode = λ text. some (document text);
  marshal_content = λ parts. "parts";
}

abbrev procedure : String → ProcedureStatus → Procedure
procedure id status = record {
  procedure_id = id;
  project_id = "p1";
  document = "old";
  status = status;
  revision = 4;
  created_at = 0;
  updated_at = 0;
  completed_at = none;
}

-- A draft, and a procedure that was completed before.
abbrev drafting : Db
drafting = record start {
  procedures = procedure "d1" ProcedureStatus.draft ∷ procedure "d0" ProcedureStatus.completed ∷ [];
}

abbrev event : String → OutboxEvent
event id = record {
  id = id;
  name = "procedure.updated";
  emitted_at = noon;
  aggregate_type = "procedure";
  aggregate_id = "d1";
  correlation = "";
}

abbrev save : String → String → ℕ → ProcedureSaveRecord
save operation_id title revision = record {
  procedure_id = "d1";
  expected_revision = revision;
  operation_id = operation_id;
  document = document title;
  at = noon;
  event = event operation_id;
}

abbrev complete : ProcedureCompleteRecord
complete = record {
  procedure_id = "d1";
  expected_revision = 5;
  operation_id = "o9";
  at = later;
  event = event "o9";
  project_event = record (event "v9") { name = "project.changed"; aggregate_type = "project" };
}

abbrev revise : String → ℕ → ProcedureRevisionRecord
revise id revision = record {
  procedure_id = "d1";
  expected_revision = revision;
  content = [];
  operation_id = id;
  turn_id = id;
  job_id = id;
  session_id = "s1";
  event_id = id;
  at = noon;
}

-- A save, and another one that read the draft before it.
abbrev saved_once : Db
saved_once = (save_procedure_draft plain_hash json (save "o1" "new" 4) drafting).1

-- A revision that the worker has taken.
abbrev revising : Db
revising = history plain_hash json (Request.accept (revise "r1" 4) ∷ Request.claim ∷ []) drafting

abbrev job : ClaimedProcedureRevision
job = record {
  procedure_id = "d1";
  turn_id = "r1";
  job_id = "r1";
  session_id = "s1";
  prompt_text = prompt_of "old" "parts";
  workspace_path = "/work";
  expected_revision = 4;
  command = "agent";
  args = [];
  transport = "stdio";
}

-- A revision is adopted, a second one is queued, and a third is refused.
abbrev requests : List Request
requests =
    Request.accept (revise "r1" 4)
    ∷ Request.claim
    ∷ Request.finish job "better" false later "f1"
    ∷ Request.accept (revise "r2" 5)
    ∷ Request.accept (revise "r3" 5)
    ∷ []

-- A save, and the completion of what it saved.
abbrev completing : List Request
completing =
    Request.save (save "o1" "new" 4) ∷ Request.complete none complete drafting saved_once ∷ []

abbrev row : RevisionJob
row = record (queued_revision (revise "r1" 4) (prompt_of "old" "parts")) {
  state = JobState.running;
}

save_run :
    save_procedure_draft plain_hash json (save "o1" "new" 4) drafting
    ≡ (ok (saved (save "o1" "new" 4) 4 (record { status = "valid"; issues = [] }) 8), saved_once)
unfolding procedure_program
save_run = refl

accept_run : accept_procedure_revision plain_hash json (revise "r1" 4) drafting ≡ (
  ok (accepted_turn_result (revise "r1" 4) 8),
  (accept_procedure_revision plain_hash json (revise "r1" 4) drafting).1,
)
unfolding procedure_program
accept_run = refl

completed_run :
    (history plain_hash json completing drafting).procedures
    ≡ record (procedure "d1" ProcedureStatus.completed) {
      document = "new";
      revision = 6;
      updated_at = later.micros;
      completed_at = some later.micros;
    }
      ∷ procedure "d0" ProcedureStatus.completed
      ∷ []
unfolding procedure_program
completed_run = refl

revised_run :
    (history plain_hash json requests drafting).procedures
    ≡ record (procedure "d1" ProcedureStatus.draft) {
      document = "better";
      revision = 5;
      updated_at = later.micros;
    }
      ∷ procedure "d0" ProcedureStatus.completed
      ∷ []
unfolding procedure_program
revised_run = refl

ids_differ : ¬ (◌≡◌ {A = String} "d1" "d0")
ids_differ h =
    absurd (let same = (eq_iff "d1" "d0").1 h in let other : ("d1" == "d0") ≡ false = refl in cc)

-- The only row of a table.
only : {A : Type 0} {x : A} (y : A) → Memᴰ x (y ∷ []) → x ≡ y
only y (Memᴰ.head p) = p
only y (Memᴰ.tail m) = elim m [ ]

passed_old :
    (q : Procedure)
    → Memᴰ q drafting.procedures
    → ((evaluate (document q.document) (source_ids q.procedure_id drafting)).status == "blocked")
      ≡ false
unfolding procedure_program
passed_old q (Memᴰ.head p) = rw p refl
passed_old q (Memᴰ.tail (Memᴰ.head p)) = rw p refl
passed_old q (Memᴰ.tail (Memᴰ.tail m)) = elim m [ ]

-- The table of two procedures has one row for each id.
drafting-IsKeyed : IsKeyed (λ (q : Procedure). q.procedure_id) drafting.procedures
drafting-IsKeyed x y (Memᴰ.head p) (Memᴰ.head q) e = p ∙ sym q
drafting-IsKeyed x y (Memᴰ.head p) (Memᴰ.tail (Memᴰ.head q)) e = absurd (
    ids_differ (
      ap (λ (z : Procedure). z.procedure_id) (sym p)
      ∙ e
      ∙ ap (λ (z : Procedure). z.procedure_id) q))
drafting-IsKeyed x y (Memᴰ.tail (Memᴰ.head p)) (Memᴰ.head q) e = absurd (
    ids_differ (
      ap (λ (z : Procedure). z.procedure_id) (sym q)
      ∙ sym e
      ∙ ap (λ (z : Procedure). z.procedure_id) p))
drafting-IsKeyed x y (Memᴰ.tail (Memᴰ.head p)) (Memᴰ.tail (Memᴰ.head q)) e = p ∙ sym q
drafting-IsKeyed x y (Memᴰ.tail (Memᴰ.tail m)) n e = elim m [ ]
drafting-IsKeyed x y m (Memᴰ.tail (Memᴰ.tail n)) e = elim n [ ]

one_revision : (i : RevisionJob) → IsOrderly (i ∷ [])
one_revision i = record {
  keyed = λ j k m n e. only i m ∙ sym (only i n);
  alone = λ j k m n same pj pk. ap (λ (z : RevisionJob). z.job_id) (only i m ∙ sym (only i n));
}

revising-IsOrderly : IsOrderly revising.revision_jobs
unfolding procedure_program
revising-IsOrderly = one_revision row

drafting-IsSound : IsSound json drafting
drafting-IsSound = record {
  keyed = drafting-IsKeyed;
  passed = λ q m done. (document q.document, refl, passed_old q m);
}

procedure-Versions_example : Versions drafting (history plain_hash json requests drafting)
procedure-Versions_example = procedure-Versions plain_hash json requests drafting

no_receipt : find (same_receipt "save_procedure_draft" "o1") drafting.receipts ≡ none
unfolding procedure_program
no_receipt = refl

save_procedure_draft-once_example :
    (save_procedure_draft plain_hash json
      (save "o2" "other" 4)
      (history plain_hash json requests saved_once)).1
    ≡ history plain_hash json requests saved_once
save_procedure_draft-once_example =
    save_procedure_draft-once plain_hash json (save "o1" "new" 4) (save "o2" "other" 4) drafting
      requests save_run no_receipt drafting-IsKeyed refl refl

save_procedure_draft-replay_example :
    save_procedure_draft plain_hash json
      (save "o1" "new" 4)
      (history plain_hash json requests saved_once)
    ≡ (
      ok (saved (save "o1" "new" 4) 4 (record { status = "valid"; issues = [] }) 8),
      history plain_hash json requests saved_once,
    )
save_procedure_draft-replay_example =
    save_procedure_draft-replay plain_hash json (save "o1" "new" 4) drafting requests save_run

abbrev queued_once : Db
queued_once = (accept_procedure_revision plain_hash json (revise "r1" 4) drafting).1

accept_procedure_revision-replay_example :
    accept_procedure_revision plain_hash json
      (revise "r1" 4)
      (history plain_hash json completing queued_once)
    ≡ (ok (accepted_turn_result (revise "r1" 4) 8), history plain_hash json completing queued_once)
accept_procedure_revision-replay_example =
    accept_procedure_revision-replay plain_hash json (revise "r1" 4) drafting completing accept_run

late_run : save_procedure_draft plain_hash json (save "o1" "new" 4) revising ≡ (
  ok (saved (save "o1" "new" 4) 4 (record { status = "valid"; issues = [] }) 9),
  (save_procedure_draft plain_hash json (save "o1" "new" 4) revising).1,
)
unfolding procedure_program
late_run = refl

revising-IsKeyed : IsKeyed (λ (q : Procedure). q.procedure_id) revising.procedures
unfolding procedure_program
revising-IsKeyed = drafting-IsKeyed

fresh_operation : find (same_receipt "save_procedure_draft" "o1") revising.receipts ≡ none
unfolding procedure_program
fresh_operation = refl

abbrev overtaken : Db
overtaken = (save_procedure_draft plain_hash json (save "o1" "new" 4) revising).1

finish_procedure_revision-late_example :
    (finish_procedure_revision json job "better" false later "f1"
      (history plain_hash json [] overtaken)).1.procedures
    ≡ (history plain_hash json [] overtaken).procedures
finish_procedure_revision-late_example =
    finish_procedure_revision-late plain_hash json (save "o1" "new" 4) job "better" false later "f1"
      revising [] late_run fresh_operation revising-IsKeyed refl refl

procedure-OneRevision_example : IsOrderly (history plain_hash json requests revising).revision_jobs
procedure-OneRevision_example =
    procedure-OneRevision plain_hash json requests revising revising-IsOrderly

procedure-IsSound_example : IsSound json (history plain_hash json completing drafting)
procedure-IsSound_example = procedure-IsSound json plain_hash completing drafting drafting-IsSound

abbrev finished : Db
finished = (finish_procedure_revision json job "better" false later "f1" revising).1

finish_run :
    finish_procedure_revision json job "better" false later "f1" revising ≡ (ok tt, finished)
unfolding procedure_program
finish_run = refl

row_found : find (has_revision_job "r1") revising.revision_jobs ≡ some row
unfolding procedure_program
row_found = refl

finish_procedure_revision-Adopted_example :
    (finished.procedures ≡ revising.procedures)
    ⊎ (Adopted json job "better" later revising finished
        × (false ≡ false)
        × (is_cancellation_requested row.state ≡ false))
finish_procedure_revision-Adopted_example =
    finish_procedure_revision-Adopted json job "better" later false "f1" revising row finish_run
      row_found

short_prompt : byte_length (prompt_of "old" "parts") ≤ prompt_limit
short_prompt = omega arith

revising-AllFit : AllFit revising.revision_jobs
unfolding procedure_program
revising-AllFit j (Memᴰ.head p) = rw p short_prompt
revising-AllFit j (Memᴰ.tail m) = elim m [ ]

procedure-AllFit_example : AllFit (history plain_hash json requests revising).revision_jobs
procedure-AllFit_example = procedure-AllFit plain_hash json requests revising revising-AllFit

save_procedure_draft-reads_back_example :
    (q : Procedure) × (find (has_procedure "d1") saved_once.procedures ≡ some q)
    × (json.unmarshal q.document ≡ some (document "new"))
    × (q.revision ≡ 5)
    × (5 ≡ q.revision)
save_procedure_draft-reads_back_example =
    save_procedure_draft-reads_back plain_hash json (save "o1" "new" 4) drafting save_run no_receipt
      refl
