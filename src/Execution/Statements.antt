-- ===== src/Execution/Statements.antt =====
-- The statements that several methods of ExecutionRepository send, and the types of
-- internal/application/execution_run.go.
use tejun.Prelude.{
  ℕ, ◌+◌, String, Bool, true, false, Option, none, some, List, ◌==◌, ◌&&◌, ◌||◌, not, if◌then◌else◌,
}
use tejun.Shared.{constraint}
use tejun.Sql.Tx.{Tx, gets, modify, attempt, fail_if, ◌>>=◌, ◌>>◌}
use tejun.Sql.Table.{update_where, exists, insert_row}
use tejun.Database.{Db}
use tejun.Database.Time.{Time}
use tejun.Database.Rows.{JobState, JobKind, Execution, Check, Run, RunCheck, Turn, Job, Evidence}
use tejun.Database.Ledger.{OutboxEvent}

pub record ExecutionJobRecord : Type 0 where
  pub execution_id : String
  pub job_id : String
  pub run_id : String
  pub turn_id : String
  pub kind : JobKind
  pub prompt_text : String
  pub operation_id : String
  pub expected_revision : ℕ
  pub check_ids : List String
  pub accepted_at : Time
  pub event : OutboxEvent

pub record ExecutionCheckTarget : Type 0 where
  pub check_id : String
  pub instruction : String
  pub expected_result : String
  pub sequence : ℕ
  pub title : String
  pub suggested_command : String

pub record ClaimedExecutionJob : Type 0 where
  pub execution_id : String
  pub run_id : String
  pub turn_id : String
  pub session_id : String
  pub job_id : String
  pub kind : JobKind
  pub prompt_text : String
  pub workspace_path : String
  pub command : String
  pub args : List String
  pub transport : String
  pub check_ids : List String
  pub checks : List ExecutionCheckTarget

pub record ExecutionCheckResult : Type 0 where
  pub check_id : String
  pub status : String
  pub evidence : String

pub record ExecutionJobResult : Type 0 where
  pub message : String
  pub checks : List ExecutionCheckResult
  pub logs : List String
  pub is_cancelled : Bool
  pub incremental : Bool

-- nullIfEmpty
unfoldable pub null_if_empty : String → Option String
null_if_empty value = if value == "" then none else some value

abbrev pub job_state_text : JobState → String
job_state_text JobState.queued = "queued"
job_state_text JobState.running = "running"
job_state_text JobState.cancellation_requested = "cancellation_requested"
job_state_text JobState.completed = "completed"
job_state_text JobState.failed = "failed"
job_state_text JobState.cancelled = "cancelled"
job_state_text JobState.interrupted = "interrupted"

-- state IN ('running', 'cancellation_requested')
abbrev pub is_claimed : JobState → Bool
is_claimed JobState.running = true
is_claimed JobState.cancellation_requested = true
is_claimed _ = false

abbrev pub is_queued : JobState → Bool
is_queued JobState.queued = true
is_queued _ = false

abbrev pub is_running : JobState → Bool
is_running JobState.running = true
is_running _ = false

abbrev pub is_cancellation_requested : JobState → Bool
is_cancellation_requested JobState.cancellation_requested = true
is_cancellation_requested _ = false

-- A column that is equal to a text; NULL is equal to none.
abbrev pub column_is : Option String → String → Bool
column_is none s = false
column_is (some t) s = t == s

abbrev pub has_execution : String → Execution → Bool
has_execution id e = e.execution_id == id

abbrev pub has_job : String → Job → Bool
has_job id j = j.job_id == id

-- A foreign key to executions.
unfoldable pub execution_key : String → Tx Db Unit
execution_key id = do
  known ← gets (λ db. exists (has_execution id) db.executions)
  fail_if (not known) constraint

-- INSERT INTO execution_turns
unfoldable pub insert_turn : Turn → Tx Db Unit
insert_turn t = do
  rows ← attempt (λ db. insert_row (λ (u : Turn). u.turn_id == t.turn_id) t db.turns)
  execution_key t.execution_id
  modify (λ db. record db { turns = rows })

-- INSERT INTO execution_agent_jobs
unfoldable pub insert_job : Job → Tx Db Unit
insert_job j = do
  rows ← attempt (λ db. insert_row (has_job j.job_id) j db.jobs)
  execution_key j.execution_id
  modify (λ db. record db { jobs = rows })

-- INSERT INTO execution_runs; job_id is UNIQUE besides the key.
unfoldable pub insert_run : Run → Tx Db Unit
insert_run r = do
  rows ←
      attempt
        (λ db. insert_row (λ (q : Run). q.run_id == r.run_id || q.job_id == r.job_id) r db.runs)
  execution_key r.execution_id
  modify (λ db. record db { runs = rows })

-- INSERT INTO execution_run_checks
unfoldable pub insert_run_check : RunCheck → Tx Db Unit
insert_run_check c = do
  rows ← attempt (λ db.
      insert_row (λ (d : RunCheck). d.run_id == c.run_id && d.check_id == c.check_id) c
        db.run_checks)
  modify (λ db. record db { run_checks = rows })

-- INSERT INTO execution_evidence; (execution_id, check_id) is a foreign key to execution_checks.
unfoldable pub insert_evidence : Evidence → Tx Db Unit
insert_evidence v = do
  rows ← attempt (λ db. insert_row (λ (w : Evidence). w.evidence_id == v.evidence_id) v db.evidence)
  known ← gets (λ db.
      exists (λ (c : Check). c.execution_id == v.execution_id && c.check_id == v.check_id)
        db.checks)
  fail_if (not known) constraint
  modify (λ db. record db { evidence = rows })

-- check_id IN (SELECT check_id FROM execution_run_checks WHERE run_id = ?)
unfoldable pub in_run : String → Db → String → Bool
in_run run_id db check_id =
    exists (λ (c : RunCheck). c.run_id == run_id && c.check_id == check_id) db.run_checks

-- UPDATE execution_agent_jobs
abbrev pub update_jobs : (Job → Bool) → (Job → Job) → Tx Db Unit
update_jobs p f = modify (λ db. record db { jobs = update_where p f db.jobs })

-- UPDATE execution_runs
abbrev pub update_runs : (Run → Bool) → (Run → Run) → Tx Db Unit
update_runs p f = modify (λ db. record db { runs = update_where p f db.runs })

-- UPDATE execution_turns
abbrev pub update_turns : (Turn → Bool) → (Turn → Turn) → Tx Db Unit
update_turns p f = modify (λ db. record db { turns = update_where p f db.turns })

-- UPDATE execution_checks, by a test that may read the other tables
abbrev pub update_checks : (Db → Check → Bool) → (Check → Check) → Tx Db Unit
update_checks p f = modify (λ db. record db { checks = update_where (p db) f db.checks })

-- UPDATE executions
abbrev pub update_executions : (Execution → Bool) → (Execution → Execution) → Tx Db Unit
update_executions p f = modify (λ db. record db { executions = update_where p f db.executions })

-- UPDATE executions SET active_run_id = NULL, revision = revision + 1
-- WHERE execution_id = ? AND active_run_id = ?
unfoldable pub release_run : String → String → Tx Db Unit
release_run execution_id run_id =
    update_executions (λ e. e.execution_id == execution_id && column_is e.active_run_id run_id)
      (λ e. record e { active_run_id = none; revision = e.revision + 1 })
