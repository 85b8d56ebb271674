-- ===== src/Execution/Accept.antt =====
-- AcceptExecutionJob: a request to run checks, or a message to the agent, becomes a queued job.
pub mod Targets
use tejun.Prelude.{
  ℕ, String, Bool, true, false, Option, none, some, List, [], ◌∷◌, ◌++◌, ◌==◌, ◌+s◌, ◌&&◌, ◌||◌,
  not, nat_eq, if◌then◌else◌, coalesce, is_empty, is_blank, decimal, ltb, map, mem_text,
  remove_text,
}
use tejun.Shared.{Error, app, app_error}
use tejun.Sql.Tx.{
  Result, ok, err, Tx, pure, fail, gets, modify, lift, attempt, require, fail_if, for_each,
  found_or, commit, ◌>>=◌, ◌>>◌,
}
use tejun.Sql.Table.{update_where, exists, find, select_where, order_by}
use tejun.Database.{Db}
use tejun.Database.Time.{Time, format}
use tejun.Database.Rows.{
  JobState, AiStatus, ExecutionStatus, JobKind, Execution, Check, Run, RunCheck, Turn, Job,
}
use tejun.Database.Ledger.{MutationResult, ExecutionJobAccepted, Stored}
use tejun.Mutation.{request_hash, existing_result, next_sequence, save_mutation}
use tejun.Execution.Statements.{
  ExecutionJobRecord, null_if_empty, has_execution, insert_turn, insert_job, insert_run,
  insert_run_check, update_checks, update_executions,
}

abbrev pub as_job_accepted : Stored → Option (MutationResult ExecutionJobAccepted)
as_job_accepted (Stored.job_accepted r) = some r
as_job_accepted _ = none

abbrev pub kind_text : JobKind → String
kind_text JobKind.checks = "checks"
kind_text JobKind.message = "message"

abbrev pub is_checks : JobKind → Bool
is_checks JobKind.checks = true
is_checks JobKind.message = false

abbrev pub is_active : ExecutionStatus → Bool
is_active ExecutionStatus.active = true
is_active _ = false

-- aiStatus == "pending" || aiStatus == "failed"
abbrev pub is_runnable : AiStatus → Bool
is_runnable AiStatus.pending = true
is_runnable AiStatus.failed = true
is_runnable _ = false

-- strings.Join
unfoldable pub join : String → List String → String
join sep [] = ""
join sep (x ∷ xs) = if is_empty xs then x else x +s sep +s join sep xs

unfoldable pub invalid_selection : Error
invalid_selection = app_error "validation_failed" "checkIdsが不正です"

-- The first loop: the ids as a set, refused when one is empty or comes twice.
unfoldable pub selection : List String → List String → Result (List String)
unfolding invalid_selection mem_text
selection selected [] = ok selected
selection selected (id ∷ ids) =
    let rest = selection (id ∷ selected) ids in
    if id == "" || mem_text id selected then err invalid_selection else rest

-- The second loop, over the checks in their order: the ids that are targeted, and what is left of
-- the selection.
unfoldable pub target_checks : List String → List Check → Result (List String × List String)
unfolding mem_text remove_text
target_checks selected [] = ok ([], selected)
target_checks selected (c ∷ cs) =
    let chosen = (is_empty selected && is_runnable c.ai_status) || mem_text c.check_id selected in
    let taken : Result (List String × List String) =
      elim (target_checks (remove_text c.check_id selected) cs) [
        | ok p ↦ ok (c.check_id ∷ p.0, p.1)
        | err e ↦ err e
      ] in
    let skipped = target_checks selected cs in
    if chosen
    then (if is_runnable c.ai_status
        then taken
        else err (app_error "invalid_state" "pendingではないcheckがあります"))
    else skipped

-- SELECT check_id, ai_status FROM execution_checks WHERE execution_id = ? ORDER BY sequence
abbrev pub checks_of : String → Db → List Check
checks_of execution_id db =
    order_by (λ (c d : Check). ltb c.sequence d.sequence)
      (select_where (λ (c : Check). c.execution_id == execution_id) db.checks)

unfoldable pub targets_of : ExecutionJobRecord → Tx Db (List String)
targets_of r = if not (is_checks r.kind) then pure [] else do
  selected ← lift (selection [] r.check_ids)
  found ← attempt (λ db. target_checks selected (checks_of r.execution_id db))
  fail_if (not (is_empty found.1) || is_empty found.0)
      (app_error "validation_failed" "対象checkがありません")
  pure found.0

-- The job that is inserted.
abbrev pub queued_job : ExecutionJobRecord → String → Job
queued_job r session_id = record {
  job_id = r.job_id;
  execution_id = r.execution_id;
  run_id = null_if_empty r.run_id;
  turn_id = null_if_empty r.turn_id;
  session_id = session_id;
  kind = r.kind;
  state = JobState.queued;
  prompt_text = r.prompt_text;
  accepted_at = format r.accepted_at;
  completed_at = none;
}

abbrev pub queued_run : ExecutionJobRecord → String → Run
queued_run r session_id = record {
  run_id = r.run_id;
  execution_id = r.execution_id;
  session_id = session_id;
  job_id = r.job_id;
  state = JobState.queued;
  accepted_at = format r.accepted_at;
  completed_at = none;
}

-- One target: its row of execution_run_checks, and its check queued.
unfoldable pub queue_check : ExecutionJobRecord → String → Tx Db Unit
queue_check r id = do
  insert_run_check (record { run_id = r.run_id; check_id = id })
  update_checks (λ db c. c.execution_id == r.execution_id && c.check_id == id)
      (λ c. record c { ai_status = AiStatus.queued; ai_checked_at = none; ai_failure_summary = "" })

-- The rows of a run, or the turn of a message.
unfoldable pub enqueue : ExecutionJobRecord → String → List String → Tx Db Unit
enqueue r session_id targets =
    if is_checks r.kind
    then (do
      insert_run (queued_run r session_id)
      for_each targets (queue_check r)
      update_executions (has_execution r.execution_id)
          (λ e. record e { active_run_id = some r.run_id }))
    else insert_turn (record {
      turn_id = r.turn_id;
      execution_id = r.execution_id;
      role = "user";
      text = r.prompt_text;
      status = "queued";
      created_at = format r.accepted_at;
    })

abbrev pub accepted :
    ExecutionJobRecord → String → List String → MutationResult ExecutionJobAccepted
accepted r session_id targets = record {
  value = record {
    execution_id = r.execution_id;
    run_id = r.run_id;
    turn_id = r.turn_id;
    session_id = session_id;
    job_id = r.job_id;
    accepted_at = r.accepted_at;
    targeted_check_ids = targets;
  };
  receipt = record {
    operation_id = r.operation_id;
    committed_at = r.accepted_at;
    change_sequence = 0;
  };
}

abbrev pub revision_conflict : ℕ → Error
revision_conflict revision = app (record {
  code = "revision_conflict";
  message = "executionが更新されています";
  field_errors = [];
  retryable = false;
  cause_id = "";
  current_revision = some revision;
})

-- The guards on the execution's row.
unfoldable pub admit : ExecutionJobRecord → Execution → Tx Db Unit
admit r e = do
  fail_if (not (is_active e.status) || not (coalesce e.active_run_id "" == ""))
      (app_error "invalid_state" "executionは実行できません")
  fail_if (is_checks r.kind && not (nat_eq e.revision r.expected_revision))
      (revision_conflict e.revision)
  fail_if (not (is_checks r.kind) && is_blank r.prompt_text)
      (app_error "validation_failed" "空のmessageです")

abbrev pub accept_scope : ExecutionJobRecord → String
accept_scope r = "execution_job:" +s kind_text r.kind

-- The branch of a request that has no receipt yet.
unfoldable pub accept_new :
    ExecutionJobRecord → String → Tx Db (MutationResult ExecutionJobAccepted)
accept_new r hash = do
  e ←
      require (λ db. find (has_execution r.execution_id) db.executions)
        (app_error "not_found" "executionがありません")
  admit r e
  targets ← targets_of r
  enqueue r e.session_id targets
  insert_job (queued_job r e.session_id)
  sequence ← next_sequence
  save_mutation Stored.job_accepted (accept_scope r) r.operation_id hash
      (accepted r e.session_id targets) r.event sequence
  pure (accepted r e.session_id targets)

module _ (sha256 : String → String) where
  abbrev pub accept_hash : ExecutionJobRecord → String
  accept_hash r =
      request_hash sha256
        (r.execution_id ∷ r.prompt_text ∷ join "\0" r.check_ids ∷ decimal r.expected_revision ∷ [])

  -- The body of the transaction.
  unfoldable pub accept_tx : ExecutionJobRecord → Tx Db (MutationResult ExecutionJobAccepted)
  accept_tx r = do
    replayed ← existing_result as_job_accepted (accept_scope r) r.operation_id (accept_hash r)
    found_or replayed pure (accept_new r (accept_hash r))

  unfoldable pub accept_execution_job :
      ExecutionJobRecord → Db → Result (MutationResult ExecutionJobAccepted) × Db
  accept_execution_job r = commit (accept_tx r)
