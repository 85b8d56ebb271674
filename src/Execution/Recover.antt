-- ===== src/Execution/Recover.antt =====
-- FailInterruptedExecutionJobs: at a start, the jobs that a dead process left unfinished.
use tejun.Prelude.{
  ◌+◌, String, Bool, false, Option, none, some, List, [], ◌∷◌, ◌==◌, ◌+s◌, ◌&&◌, if◌then◌else◌, map,
  mem_text,
}
use tejun.Sql.Tx.{Result, Tx, gets, for_each, commit, ◌>>=◌, ◌>>◌}
use tejun.Sql.Table.{exists, select_where}
use tejun.Database.{Db}
use tejun.Database.Time.{Time, format}
use tejun.Database.Rows.{JobState, AiStatus, Check, RunCheck, Job}
use tejun.Mutation.{next_sequence, insert_outbox}
use tejun.Execution.Statements.{
  is_claimed, is_cancellation_requested, column_is, update_jobs, update_runs, update_checks,
  update_executions,
}

-- SELECT DISTINCT
unfoldable pub distinct : List String → List String
unfolding mem_text
distinct [] = []
distinct (x ∷ xs) = let rest = distinct xs in if mem_text x rest then rest else x ∷ rest

-- run_id IN (SELECT run_id FROM execution_agent_jobs WHERE state IN (...)); a NULL is in no set.
abbrev pub claimed_run : Db → String → Bool
claimed_run db run_id =
    exists (λ (j : Job). is_claimed j.state && column_is j.run_id run_id) db.jobs

-- (execution_id, check_id) IN (SELECT j.execution_id, rc.check_id ... WHERE j.state IN (...))
abbrev pub claimed_check : Db → Check → Bool
claimed_check db c =
    exists
      (λ (j : Job).
        is_claimed j.state
        && j.execution_id == c.execution_id
        && exists (λ (rc : RunCheck). column_is j.run_id rc.run_id && rc.check_id == c.check_id)
            db.run_checks)
      db.jobs

-- CASE WHEN state = 'cancellation_requested' THEN 'interrupted' ELSE 'failed' END
abbrev pub recovered_state : JobState → JobState
recovered_state state =
    if is_cancellation_requested state then JobState.interrupted else JobState.failed

-- Two columns that are equal; a NULL is equal to none.
abbrev pub same_run : Option String → Option String → Bool
same_run none b = false
same_run (some a) b = column_is b a

unfoldable pub announce : Time → String → Tx Db Unit
announce at execution_id = do
  sequence ← next_sequence
  insert_outbox
      (record {
        id = "execution:" +s execution_id +s ":recovered:" +s format at;
        name = "execution.updated";
        emitted_at = at;
        aggregate_type = "execution";
        aggregate_id = execution_id;
        correlation = "";
      })
      sequence

-- UPDATE execution_agent_jobs SET state = CASE ... END, completed_at = ? WHERE state IN (...)
unfoldable pub recover_jobs : Time → Tx Db Unit
recover_jobs at =
    update_jobs (λ j. is_claimed j.state)
      (λ j. record j { state = recovered_state j.state; completed_at = some (format at) })

unfoldable pub recover_tx : Time → Tx Db Unit
recover_tx at = do
  ids ← gets (λ db.
      distinct (
        map (λ (j : Job). j.execution_id) (select_where (λ (j : Job). is_claimed j.state) db.jobs)))
  update_checks claimed_check (λ c. record c {
    ai_status = AiStatus.failed;
    ai_checked_at = none;
    ai_failure_summary = "AIチェックが中断されました";
  })
  db ← gets (λ db. db)
  update_runs (λ r. claimed_run db r.run_id)
      (λ r. record r { state = recovered_state r.state; completed_at = some (format at) })
  update_executions
      (λ e. exists (λ (j : Job). is_claimed j.state && same_run e.active_run_id j.run_id) db.jobs)
      (λ e. record e { active_run_id = none; revision = e.revision + 1 })
  recover_jobs at
  for_each ids (announce at)

unfoldable pub fail_interrupted_execution_jobs : Time → Db → Result (Unit {0}) × Db
fail_interrupted_execution_jobs at = commit (recover_tx at)
