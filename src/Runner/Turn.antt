-- ===== src/Runner/Turn.antt =====
-- RunOne of internal/application/execution_run.go: one turn of the worker. The executor (the agent's
-- process) and what other requests the database sees between two calls of the turn are parameters.
use tejun.Prelude.{
  ℕ, ◌+◌, String, Bool, true, false, Option, none, some, List, [], ◌∷◌, ◌++◌, ◌⊎◌, inl, inr,
  if◌then◌else◌, length,
}
use tejun.Shared.{Error, app, app_error}
use tejun.Sql.Tx.{Result, ok, err}
use tejun.Database.{Db}
use tejun.Database.Time.{Time}
use tejun.Execution.Statements.{
  ClaimedExecutionJob, ExecutionCheckTarget, ExecutionCheckResult, ExecutionJobResult,
}
use tejun.Execution.Accept.{is_checks}
use tejun.Execution.Claim.{claim_execution_job, reconnect_execution_session}
use tejun.Execution.Checks.{start_execution_check, complete_execution_check}
use tejun.Execution.Complete.{ExecuteError, complete_execution_job}
use tejun.Execution.Cancel.{CancelAgentOperationInput}
use tejun.Execution.Operations.{Request, history}

-- ExecutionJobExecutor, the clock, newID, and the other requests: those that reach the database right
-- before the call of the repository with this number. `error_text` is the Error method of the errors
-- of the driver. The executor's calls are numbered too, and so are the ids and the times that are taken.
pub record World : Type 0 where
  pub is_connected : String → Bool
  pub connect : ClaimedExecutionJob → String → ExecuteError ⊎ String
  pub execute : ℕ → ClaimedExecutionJob → ExecutionJobResult × Option ExecuteError
  pub cancel : String → Option ExecuteError
  pub now : ℕ → Time
  pub new_id : ℕ → String
  pub others : ℕ → List Request
  pub error_text : Error → String

-- The zero value of ExecutionJobResult.
abbrev pub no_response : ExecutionJobResult
no_response = record {
  message = "";
  checks = [];
  logs = [];
  is_cancelled = false;
  incremental = false;
}

abbrev pub single : ClaimedExecutionJob → ExecutionCheckTarget → ClaimedExecutionJob
single job check = record job { checks = check ∷ [] }

-- What a part of the turn leaves: the job, the response, the error, and the database.
pub record Progress : Type 0 where
  pub job : ClaimedExecutionJob
  pub response : ExecutionJobResult
  pub error : Option ExecuteError
  pub db : Db

-- The number of the last call of the repository in a turn.
abbrev pub last_call : Progress → ℕ
last_call p = 2 + length p.job.checks + length p.job.checks

module _ (sha256 : String → String) (digest : CancelAgentOperationInput → String)
    (world : World) where
  -- An error of the repository as the runner keeps it.
  abbrev pub as_execute_error : Error → ExecuteError
  as_execute_error (app e) = ExecuteError.app e
  as_execute_error e = ExecuteError.other (world.error_text e)

  abbrev pub failure : Result (Unit {0}) → Option ExecuteError
  failure (ok a) = none
  failure (err e) = some (as_execute_error e)

  -- The database when the call with number `n` is made.
  abbrev pub before : ℕ → Db → Db
  before n db = history sha256 digest (world.others n) db

  -- After ReconnectExecutionSession; when it failed, the new session is disconnected.
  abbrev pub reconnected : ClaimedExecutionJob → Option ExecuteError → Db → Progress
  reconnected job none db = record {
    job = record job { session_id = world.new_id 0 };
    response = no_response;
    error = none;
    db = db;
  }
  reconnected job (some e) db = record {
    job = job;
    response = no_response;
    error = some e;
    db = db;
  }

  -- After ConnectExecutionSession.
  abbrev pub connected : ClaimedExecutionJob → ExecuteError ⊎ String → Db → Progress
  connected job (inl e) db = record { job = job; response = no_response; error = some e; db = db }
  connected job (inr agent_session_id) db =
      let out =
        reconnect_execution_session job (world.new_id 0) agent_session_id (world.now 1)
          (before 1 db) in
      reconnected job (failure out.0) out.1

  -- The part of RunOne that connects the session again.
  unfoldable pub ensure_session : ClaimedExecutionJob → Db → Progress
  ensure_session job db =
      if world.is_connected job.session_id
      then record { job = job; response = no_response; error = none; db = db }
      else connected job (world.connect job (world.new_id 0)) db

  -- After CompleteExecutionCheck; the Boolean tells whether the loop goes on.
  abbrev pub recorded :
      ClaimedExecutionJob
      → ExecutionJobResult
      → ExecutionCheckResult
      → Option ExecuteError
      → Db
      → Progress × Bool
  recorded job response item none db = (
    record {
      job = job;
      response = record response { checks = response.checks ++ item ∷ [] };
      error = none;
      db = db;
    },
    true,
  )
  recorded job response item (some e) db =
      (record { job = job; response = response; error = some e; db = db }, false)

  -- The results of one check: there has to be one.
  abbrev pub checked :
      ℕ
      → ClaimedExecutionJob
      → ExecutionCheckTarget
      → ExecutionJobResult
      → List ExecutionCheckResult
      → List String
      → Db
      → Progress × Bool
  checked n job check response (item ∷ []) logs db =
      let out =
        complete_execution_check job check item logs (world.now (n + 1)) (before (n + 1) db) in
      recorded job response item (failure out.0) out.1
  checked n job check response _ logs db = (
    record {
      job = job;
      response = response;
      error = some (as_execute_error (app_error "invalid_state" "AIチェックの結果が不正です"));
      db = db;
    },
    false,
  )

  abbrev pub stopped : ExecutionJobResult → ExecutionJobResult → ExecutionJobResult
  stopped response result = record response {
    is_cancelled = result.is_cancelled;
    logs = response.logs ++ result.logs;
  }

  -- After ExecuteExecutionJob on one check.
  abbrev pub answered :
      ℕ
      → ClaimedExecutionJob
      → ExecutionCheckTarget
      → ExecutionJobResult
      → ExecutionJobResult
      → Option ExecuteError
      → Db
      → Progress × Bool
  answered n job check response result (some e) db =
      (record { job = job; response = stopped response result; error = some e; db = db }, false)
  answered n job check response result none db =
      if result.is_cancelled
      then (record { job = job; response = stopped response result; error = none; db = db }, false)
      else checked n job check response result.checks result.logs db

  -- One check once it was started.
  unfoldable pub run_check :
      ℕ → ClaimedExecutionJob → ExecutionCheckTarget → ExecutionJobResult → Db → Progress × Bool
  run_check n job check response db =
      let out = world.execute n (single job check) in answered n job check response out.0 out.1 db

  -- The loop over job.Checks; the calls for one check have the numbers `n` and `n + 1`.
  unfoldable pub run_checks :
      ℕ → ClaimedExecutionJob → List ExecutionCheckTarget → ExecutionJobResult → Db → Progress
  run_checks n job [] response db = record { job = job; response = response; error = none; db = db }
  run_checks n job (check ∷ checks) response db =
      let started = start_execution_check job check (world.now n) (before n db) in
      let step = run_check n job check response started.1 in
      let rest = run_checks (n + 2) job checks step.0.response step.0.db in
      elim (failure started.0) [
        | some e ↦ record { job = job; response = response; error = some e; db = started.1 }
        | none ↦ if step.1 then rest else step.0
      ]

  -- RunOne once the session is connected, or is not.
  abbrev pub executed : Progress → Option ExecuteError → Progress
  executed p (some e) = p
  executed p none =
      if is_checks p.job.kind
      then run_checks 2 p.job p.job.checks (record no_response { incremental = true }) p.db
      else record {
        job = p.job;
        response = (world.execute 1 p.job).0;
        error = (world.execute 1 p.job).1;
        db = p.db;
      }

  -- RunOne between its claim and its completion.
  unfoldable pub work : ClaimedExecutionJob → Db → Progress
  work job db = let p = ensure_session job db in executed p p.error

  abbrev pub completion : Progress → Result (Unit {0}) × Db
  completion p =
      complete_execution_job p.job p.response p.error (world.now (last_call p))
        (before (last_call p) p.db)

  -- What RunOne returns after its completion.
  abbrev pub finished : Progress → Option ExecuteError → Db → (Bool × Option ExecuteError) × Db
  finished p none db = ((true, p.error), db)
  finished p (some e) db = ((true, some e), db)

  -- RunOne after its claim.
  abbrev pub claimed_turn :
      Result (Option ClaimedExecutionJob) → Db → (Bool × Option ExecuteError) × Db
  claimed_turn (err e) db = ((false, some (as_execute_error e)), db)
  claimed_turn (ok none) db = ((false, none), db)
  claimed_turn (ok (some job)) db =
      let p = work job db in let out = completion p in finished p (failure out.0) out.1

  -- RunOne: was there a job, and the error that is returned.
  unfoldable pub run_one : Db → (Bool × Option ExecuteError) × Db
  run_one db = let claim = claim_execution_job db in claimed_turn claim.0 claim.1
