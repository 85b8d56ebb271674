-- ===== src/Procedure/Tests/Program.antt =====
-- All that the runs on procedures compute with.
use tejun.Execution.Tests.Program.{program}
use tejun.Domain.Integrity.{evaluate, step_issues, ref_issues}
use tejun.Procedure.Codec.{
  has_angle, has_fence_after, all_valid, valid_refs, valid_steps, valid_document_text,
}
use tejun.Procedure.Statements.{
  update_procedures, write_document, update_revision_jobs, update_procedure_turns,
  insert_procedure_turn, insert_revision_job,
}
use tejun.Procedure.Draft.{admit_draft, save_new, save_tx, save_procedure_draft}
use tejun.Procedure.Complete.{
  images_of, procedure_images, same_images, all_verified, close_procedure, close_project,
  complete_document, complete_new, complete_procedure_tx, complete_verified, complete_looked,
  complete_procedure,
}
use tejun.Procedure.Revision.Accept.{
  enqueue_revision, accept_revision_new, accept_revision_tx, accept_procedure_revision,
}
use tejun.Procedure.Revision.Claim.{
  take_revision, procedure_workspace, claim_revision_job, claim_revision_tx,
  claim_procedure_revision,
}
use tejun.Procedure.Revision.Finish.{
  revision_state, close_revision, adopt, examine, outcome_of, insert_reply, settle_revision,
  finish_tx, finish_procedure_revision,
}
use tejun.Procedure.Revision.Recover.{
  announce_interrupted, interrupt_revisions, recover_revisions_tx,
  fail_interrupted_procedure_revisions,
}
use tejun.Procedure.Revision.Cancel.{
  stop_revision, cancel_revision_new, cancel_revision_tx, cancel_procedure_revision,
}
use tejun.Procedure.Operations.{perform, history}

unfoldable pub procedure_program : Unit {0}
unfolding program evaluate step_issues ref_issues has_angle has_fence_after all_valid valid_refs
    valid_steps valid_document_text update_procedures write_document update_revision_jobs
    update_procedure_turns insert_procedure_turn insert_revision_job admit_draft save_new save_tx
    save_procedure_draft images_of procedure_images same_images all_verified close_procedure
    close_project complete_document complete_new complete_procedure_tx complete_verified
    complete_looked complete_procedure enqueue_revision accept_revision_new accept_revision_tx
    accept_procedure_revision take_revision procedure_workspace claim_revision_job claim_revision_tx
    claim_procedure_revision revision_state close_revision adopt examine outcome_of insert_reply
    settle_revision finish_tx finish_procedure_revision announce_interrupted interrupt_revisions
    recover_revisions_tx fail_interrupted_procedure_revisions stop_revision cancel_revision_new
    cancel_revision_tx cancel_procedure_revision perform history
procedure_program = tt
