-- ===== src/Procedure/Operations.antt =====
-- The methods of ProcedureRepository that write as requests, and a history of requests, each
-- committed or rolled back before the next. What CompleteProcedure read before its transaction are
-- states of the database of which nothing is supposed.
pub mod Kept
pub mod Sides
use Kept.{
  Writes, Keeps-save_tx, Keeps-complete_procedure_tx, Keeps-accept_revision_tx,
  Keeps-claim_revision_tx, Keeps-finish_tx, Keeps-recover_revisions_tx, Keeps-cancel_revision_tx,
}
use tejun.Prelude.{
  ◌≡◌, String, Option, none, some, List, [], ◌∷◌, Bool, true, false, inl, inr, Bool-cases,
}
use tejun.Sql.Tx.{Result, ok, err, commit}
use tejun.Sql.Keeps.{IsPreorder, Keeps, commit_at}
use tejun.Database.{Db}
use tejun.Database.Time.{Time}
use tejun.Database.Ledger.{MutationResult, ProcedureCompleted}
use tejun.Domain.Integrity.{Document}
use tejun.Procedure.Codec.{Json}
use tejun.Procedure.Draft.{ProcedureSaveRecord, save_new, save_tx, save_procedure_draft}
use tejun.Procedure.Complete.{
  ProcedureCompleteRecord, Image, Verifier, is_verified, complete_new, complete_procedure_tx,
  complete_verified, complete_looked, complete_procedure,
}
use tejun.Procedure.Revision.Accept.{
  ProcedureRevisionRecord, accept_revision_new, accept_revision_tx, accept_procedure_revision,
}
use tejun.Procedure.Revision.Claim.{
  ClaimedProcedureRevision, claim_revision_tx, claim_procedure_revision,
}
use tejun.Procedure.Revision.Finish.{adopt, finish_tx, finish_procedure_revision}
use tejun.Procedure.Revision.Recover.{recover_revisions_tx, fail_interrupted_procedure_revisions}
use tejun.Procedure.Revision.Cancel.{
  CancelRevisionRecord, cancel_revision_new, cancel_revision_tx, cancel_procedure_revision,
}

pub data Request : Type 0 where
  save : ProcedureSaveRecord → Request
  complete : Verifier → ProcedureCompleteRecord → Db → Db → Request
  accept : ProcedureRevisionRecord → Request
  claim : Request
  finish : ClaimedProcedureRevision → String → Bool → Time → String → Request
  recover : Time → Request
  cancel : CancelRevisionRecord → Request

module _ (sha256 : String → String) (json : Json) where
  unfoldable pub perform : Request → Db → Db
  perform (save r) db = (save_procedure_draft sha256 json r db).1
  perform (complete v r first seen) db = (complete_procedure sha256 json v r first seen db).1
  perform (accept r) db = (accept_procedure_revision sha256 json r db).1
  perform claim db = (claim_procedure_revision db).1
  perform (finish job answer failed at id) db =
      (finish_procedure_revision json job answer failed at id db).1
  perform (recover at) db = (fail_interrupted_procedure_revisions at db).1
  perform (cancel r) db = (cancel_procedure_revision sha256 r db).1

  unfoldable pub history : List Request → Db → Db
  history [] db = db
  history (q ∷ qs) db = history qs (perform q db)

  -- A relation that every transaction keeps holds across a history.
  pub record KeptByAll (R : Db → Db → Type 0) : Type 0 where
    pub writes : Writes R
    pub save_new : (r : ProcedureSaveRecord) → Keeps R (save_new sha256 json r)
    pub adopt :
        (job : ClaimedProcedureRevision) (d : Document) (at : Time) → Keeps R (adopt json job d at)
    pub accept_new : (r : ProcedureRevisionRecord) → Keeps R (accept_revision_new sha256 json r)
    pub cancel_new : (r : CancelRevisionRecord) → Keeps R (cancel_revision_new sha256 r)
    pub complete_new :
        (r : ProcedureCompleteRecord) (images : List Image)
        → Keeps R (complete_new sha256 json r images)

  module _ {R : Db → Db → Type 0} (k : KeptByAll R) where
    complete_verified_at :
        (v : Verifier) (r : ProcedureCompleteRecord) (images : Result (List Image)) (db : Db)
        → R db (complete_verified sha256 json v r images db).1
    unfolding complete_verified
    complete_verified_at v r (err e) db = k.writes.order.same db
    complete_verified_at v r (ok images) db = elim (Bool-cases (is_verified v images)) [
      | inl e ↦
          rw (e, complete_verified)
            (commit_at k.writes.order _
              (Keeps-complete_procedure_tx k.writes sha256 json k.complete_new r images) db)
      | inr e ↦ rw (e, complete_verified) (k.writes.order.same db)
    ]

    complete_looked_at :
        (v : Verifier) (r : ProcedureCompleteRecord)
        (found : Result (Option (MutationResult ProcedureCompleted) × Db)) (seen db : Db)
        → R db (complete_looked sha256 json v r found seen db).1
    unfolding complete_looked
    complete_looked_at v r (err e) seen db = k.writes.order.same db
    complete_looked_at v r (ok (some result, s)) seen db = k.writes.order.same db
    complete_looked_at v r (ok (none, s)) seen db = complete_verified_at v r _ db

    pub perform_at : (q : Request) (db : Db) → R db (perform q db)
    unfolding perform save_procedure_draft complete_procedure accept_procedure_revision
        claim_procedure_revision finish_procedure_revision fail_interrupted_procedure_revisions
        cancel_procedure_revision
    perform_at (save r) db =
        commit_at k.writes.order _ (Keeps-save_tx k.writes sha256 json k.save_new r) db
    perform_at (complete v r first seen) db = complete_looked_at v r _ seen db
    perform_at (accept r) db =
        commit_at k.writes.order _ (Keeps-accept_revision_tx k.writes sha256 json k.accept_new r) db
    perform_at claim db = commit_at k.writes.order _ (Keeps-claim_revision_tx k.writes) db
    perform_at (finish job answer failed at id) db =
        commit_at k.writes.order _
          (Keeps-finish_tx k.writes json job (k.adopt job) answer failed at id) db
    perform_at (recover at) db =
        commit_at k.writes.order _ (Keeps-recover_revisions_tx k.writes at) db
    perform_at (cancel r) db =
        commit_at k.writes.order _ (Keeps-cancel_revision_tx k.writes sha256 k.cancel_new r) db

    pub history_at : (qs : List Request) (db : Db) → R db (history qs db)
    unfolding history
    history_at [] db = k.writes.order.same db
    history_at (q ∷ qs) db =
        k.writes.order.joined db (perform q db) (history qs (perform q db)) (perform_at q db)
          (history_at qs (perform q db))
