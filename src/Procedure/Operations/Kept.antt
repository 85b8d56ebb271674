-- ===== src/Procedure/Operations/Kept.antt =====
-- Whatever the primitive writes keep, each transaction of ProcedureRepository keeps. The writes that a
-- transaction makes under a guard are left to the relation: the new document of a draft, the job of an
-- acceptance, the stop of a cancellation and the completion.
use tejun.Prelude.{◌≡◌, ℕ, String, Bool, Option, none, some, List}
use tejun.Sql.Tx.{modify}
use tejun.Sql.Keeps.{IsPreorder, Keeps, Keeps-bind, keeps_rules}
use tejun.Database.{Db}
use tejun.Database.Time.{Time}
use tejun.Database.Rows.{JobState, Procedure, Project, ProcedureTurn, RevisionJob}
use tejun.Database.Ledger.{MutationResult, OutboxEvent, Stored, Receipt}
use tejun.Domain.Integrity.{Document}
use tejun.Mutation.{existing_result, next_sequence, insert_outbox, insert_receipt, save_mutation}
use tejun.Procedure.Codec.{Json}
use tejun.Procedure.Statements.{
  write_document, update_procedure_turns, insert_procedure_turn, insert_revision_job,
}
use tejun.Procedure.Draft.{ProcedureSaveRecord, admit_draft, save_new, save_tx}
use tejun.Procedure.Complete.{
  ProcedureCompleteRecord, Image, close_procedure, close_project, complete_document, complete_new,
  complete_procedure_tx,
}
use tejun.Procedure.Revision.Accept.{
  ProcedureRevisionRecord, enqueue_revision, accept_revision_new, accept_revision_tx,
}
use tejun.Procedure.Revision.Claim.{
  ClaimedProcedureRevision, take_revision, procedure_workspace, claim_revision_job,
  claim_revision_tx,
}
use tejun.Procedure.Revision.Finish.{
  Outcome, revision_state, close_revision, adopt, examine, examine_decoded, outcome_of,
  insert_reply, settle_revision, finish_tx,
}
use tejun.Procedure.Revision.Outcomes.{IsEnded, outcome_of-IsEnded}
use tejun.Sql.Yields.{Keeps-bind_yields}
use tejun.Procedure.Revision.Recover.{
  announce_interrupted, interrupt_revisions, recover_revisions_tx,
}
use tejun.Procedure.Revision.Cancel.{
  CancelRevisionRecord, stop_revision, cancel_revision_new, cancel_revision_tx,
}

-- The tables that a statement on another table leaves alone.
pub record SameCore (s t : Db) : Type 0 where
  pub procedures : s.procedures ≡ t.procedures
  pub revision_jobs : s.revision_jobs ≡ t.revision_jobs
  pub source_evidence : s.source_evidence ≡ t.source_evidence
  pub receipts : s.receipts ≡ t.receipts
  pub outbox : s.outbox ≡ t.outbox
  pub change_sequence : s.change_sequence ≡ t.change_sequence

pub record Writes (R : Db → Db → Type 0) : Type 0 where
  pub order : IsPreorder R
  pub beside : (f : Db → Db) → ((s : Db) → SameCore (f s) s) → Keeps R (modify f)
  pub take_revision : Keeps R take_revision
  pub close_revision :
      (id : String) (o : Outcome) (at : Time) → IsEnded o → Keeps R (close_revision id o at)
  pub interrupt_revisions : (at : Time) → Keeps R (interrupt_revisions at)
  pub next_sequence : Keeps R next_sequence
  pub insert_outbox : (e : OutboxEvent) (n : ℕ) → Keeps R (insert_outbox e n)
  pub insert_receipt : (r : Receipt) → Keeps R (insert_receipt r)

module _ {R : Db → Db → Type 0} (w : Writes R) where
  Keeps-next_sequence : Keeps R next_sequence
  Keeps-next_sequence = w.next_sequence

  Keeps-take_revision : Keeps R take_revision
  Keeps-take_revision = w.take_revision

  pub Keeps-save_mutation :
      {T : Type 0} (encode : MutationResult T → Stored) (scope operation_id hash : String)
      (result : MutationResult T) (event : OutboxEvent) (sequence : ℕ)
      → Keeps R (save_mutation encode scope operation_id hash result event sequence)
  unfolding save_mutation
  Keeps-save_mutation encode scope operation_id hash result event sequence =
      search (keeps_rules, w.order, w.insert_receipt, w.insert_outbox)

  pub Keeps-existing_result :
      {T : Type 0} (decode : Stored → Option (MutationResult T)) (scope operation_id hash : String)
      → Keeps R (existing_result decode scope operation_id hash)
  unfolding existing_result
  Keeps-existing_result decode scope operation_id hash = search (keeps_rules, w.order)

  pub Keeps-insert_procedure_turn : (t : ProcedureTurn) → Keeps R (insert_procedure_turn t)
  unfolding insert_procedure_turn
  Keeps-insert_procedure_turn t = search (keeps_rules, w.order, w.beside)

  pub Keeps-update_procedure_turns :
      (p : Db → ProcedureTurn → Bool) (status : String) → Keeps R (update_procedure_turns p status)
  unfolding update_procedure_turns
  Keeps-update_procedure_turns p status = search (keeps_rules, w.beside)

  pub Keeps-admit_draft : (m : String) (p : Procedure) (n : ℕ) → Keeps R (admit_draft m p n)
  unfolding admit_draft
  Keeps-admit_draft m p n = search (keeps_rules, w.order)

  pub Keeps-close_project : (id : String) (at : ℕ) → Keeps R (close_project id at)
  unfolding close_project
  Keeps-close_project id at = search (keeps_rules, w.beside)

  ruleset stmts = (
    keeps_rules, Keeps-save_mutation, Keeps-existing_result, Keeps-insert_procedure_turn,
    Keeps-update_procedure_turns, Keeps-admit_draft, Keeps-next_sequence,
  )

  module _ (sha256 : String → String) (json : Json) where
    pub Keeps-save_new :
        ((id : String) (n : ℕ) (text : String) (at : ℕ) → Keeps R (write_document id n text at))
        → (r : ProcedureSaveRecord) → Keeps R (save_new sha256 json r)
    unfolding save_new
    Keeps-save_new write r = search (stmts, w.order, write) depth 20

    pub Keeps-save_tx :
        ((r : ProcedureSaveRecord) → Keeps R (save_new sha256 json r))
        → (r : ProcedureSaveRecord) → Keeps R (save_tx sha256 json r)
    unfolding save_tx
    Keeps-save_tx h r = search (stmts, w.order, h) depth 15

    module _ (close : (id : String) (n at : ℕ) → Keeps R (close_procedure id n at)) where
      pub Keeps-complete_document :
          (r : ProcedureCompleteRecord) (images : List Image) (q : Procedure) (p : Project)
          (d : Document)
          → Keeps R (complete_document sha256 json r images q p d)
      unfolding complete_document
      Keeps-complete_document r images q p d =
          search (stmts, w.order, close, Keeps-close_project, w.insert_outbox) depth 30

      pub Keeps-complete_new :
          (r : ProcedureCompleteRecord) (images : List Image)
          → Keeps R (complete_new sha256 json r images)
      unfolding complete_new
      Keeps-complete_new r images = search (stmts, w.order, Keeps-complete_document) depth 20

    pub Keeps-complete_procedure_tx :
        ((r : ProcedureCompleteRecord) (images : List Image)
          → Keeps R (complete_new sha256 json r images))
        → (r : ProcedureCompleteRecord) (images : List Image)
        → Keeps R (complete_procedure_tx sha256 json r images)
    unfolding complete_procedure_tx
    Keeps-complete_procedure_tx h r images = search (stmts, w.order, h) depth 12

    Keeps-enqueue_revision :
        ((j : RevisionJob) → Keeps R (insert_revision_job j))
        → (r : ProcedureRevisionRecord) (prompt : String)
        → Keeps R (enqueue_revision sha256 json r prompt)
    unfolding enqueue_revision
    Keeps-enqueue_revision h r prompt = search (stmts, w.order, h)

    pub Keeps-accept_revision_new :
        ((j : RevisionJob) → Keeps R (insert_revision_job j))
        → (r : ProcedureRevisionRecord) → Keeps R (accept_revision_new sha256 json r)
    unfolding accept_revision_new
    Keeps-accept_revision_new h r = search (stmts, w.order, Keeps-enqueue_revision h) depth 25

    pub Keeps-accept_revision_tx :
        ((r : ProcedureRevisionRecord) → Keeps R (accept_revision_new sha256 json r))
        → (r : ProcedureRevisionRecord) → Keeps R (accept_revision_tx sha256 json r)
    unfolding accept_revision_tx
    Keeps-accept_revision_tx h r = search (stmts, w.order, h) depth 12

  Keeps-procedure_workspace : (id : String) → Keeps R (procedure_workspace id)
  unfolding procedure_workspace
  Keeps-procedure_workspace id = search (stmts, w.order) depth 15

  Keeps-claim_revision_job : (j : RevisionJob) → Keeps R (claim_revision_job j)
  unfolding claim_revision_job
  Keeps-claim_revision_job j = search (stmts, w.order, Keeps-procedure_workspace) depth 15

  pub Keeps-claim_revision_tx : Keeps R claim_revision_tx
  unfolding claim_revision_tx
  Keeps-claim_revision_tx =
      search (stmts, w.order, Keeps-claim_revision_job, Keeps-take_revision) depth 12

  Keeps-revision_state : (id : String) → Keeps R (revision_state id)
  unfolding revision_state
  Keeps-revision_state id = search (stmts, w.order) depth 12

  module _ (json : Json) where
    pub Keeps-adopt :
        ((id : String) (n : ℕ) (text : String) (at : ℕ) → Keeps R (write_document id n text at))
        → (job : ClaimedProcedureRevision) (d : Document) (at : Time)
        → Keeps R (adopt json job d at)
    unfolding adopt
    Keeps-adopt write job d at = search (stmts, w.order, write) depth 15

    module _ (job : ClaimedProcedureRevision)
        (adopted : (d : Document) (at : Time) → Keeps R (adopt json job d at)) where
      Keeps-examine :
          (answer : String) (d : Document) (at : Time) → Keeps R (examine json job answer d at)
      unfolding examine
      Keeps-examine answer d at = search (stmts, w.order, adopted) depth 15

      Keeps-examine_decoded :
          (answer : String) (d : Option Document) (at : Time)
          → Keeps R (examine_decoded json job answer d at)
      Keeps-examine_decoded answer none at = search (stmts, w.order)
      Keeps-examine_decoded answer (some d) at = Keeps-examine answer d at

      pub Keeps-outcome_of :
          (answer : String) (failed : Bool) (at : Time) (state : JobState) (n : ℕ)
          → Keeps R (outcome_of json job answer failed at state n)
      unfolding outcome_of
      Keeps-outcome_of answer failed at state n =
          search (stmts, w.order, Keeps-examine_decoded) depth 15

    pub Keeps-insert_reply :
        (job : ClaimedProcedureRevision) (answer : String) (state : JobState) (at : Time)
        → Keeps R (insert_reply json job answer state at)
    unfolding insert_reply
    Keeps-insert_reply job answer state at = search (stmts, w.order)

    pub Keeps-settle_revision :
        (job : ClaimedProcedureRevision) (answer : String) (at : Time) (id : String) (o : Outcome)
        → IsEnded o
        → Keeps R (settle_revision json job answer at id o)
    unfolding settle_revision
    Keeps-settle_revision job answer at id o ended =
        search (stmts, w.order, Keeps-insert_reply, w.close_revision, w.insert_outbox) depth 25

    pub Keeps-finish_tx :
        (job : ClaimedProcedureRevision)
        → ((d : Document) (at : Time) → Keeps R (adopt json job d at))
        → (answer : String) (failed : Bool) (at : Time) (id : String)
        → Keeps R (finish_tx json job answer failed at id)
    unfolding finish_tx
    Keeps-finish_tx job adopted answer failed at id =
        Keeps-bind w.order _ _ (Keeps-revision_state job.job_id) (λ found.
          Keeps-bind_yields w.order _ _
            (Keeps-outcome_of job adopted answer failed at found.0 found.1)
            (outcome_of-IsEnded json job answer failed at found.0 found.1)
            (λ o ended. Keeps-settle_revision job answer at id o ended))

  Keeps-announce_interrupted : (at : Time) (j : RevisionJob) → Keeps R (announce_interrupted at j)
  unfolding announce_interrupted
  Keeps-announce_interrupted at j = search (stmts, w.order, w.insert_outbox)

  pub Keeps-recover_revisions_tx : (at : Time) → Keeps R (recover_revisions_tx at)
  unfolding recover_revisions_tx
  Keeps-recover_revisions_tx at =
      search (stmts, w.order, Keeps-announce_interrupted, w.interrupt_revisions) depth 15

  module _ (sha256 : String → String) where
    pub Keeps-cancel_revision_new :
        ((id : String) (st : JobState) (at : Time) → Keeps R (stop_revision id st at))
        → (r : CancelRevisionRecord) → Keeps R (cancel_revision_new sha256 r)
    unfolding cancel_revision_new
    Keeps-cancel_revision_new h r = search (stmts, w.order, h) depth 20

    pub Keeps-cancel_revision_tx :
        ((r : CancelRevisionRecord) → Keeps R (cancel_revision_new sha256 r))
        → (r : CancelRevisionRecord) → Keeps R (cancel_revision_tx sha256 r)
    unfolding cancel_revision_tx
    Keeps-cancel_revision_tx h r = search (stmts, w.order, h) depth 12
