-- ===== src/Execution/Tests/Queue.antt =====
-- The properties of the queue at concrete inputs.
use tejun.Prelude.{true, false, some, none, ◌≡◌, refl, Memᴰ}
use tejun.Sql.Tx.{ok}
use tejun.Database.Rows.{JobState, JobKind, Job}
use tejun.Execution.Statements.{is_queued}
use tejun.Execution.Claim.{accepted_before, claim_execution_job}
use tejun.Execution.Lifecycle.Oldest.{claim_execution_job-oldest, claim_execution_job-idle}
use tejun.Execution.Tests.{waiting, job, completed}
use tejun.Execution.Tests.Program.{program}
use tejun.Execution.Tests.Examples.{first_claim, failed_row, completed-Memᴰ}

abbrev second_row : Job
second_row = record {
  job_id = "j2";
  execution_id = "e1";
  run_id = none;
  turn_id = some "t2";
  session_id = "s1";
  kind = JobKind.message;
  state = JobState.queued;
  prompt_text = "hello";
  accepted_at = "2026-09-26T12:00:09Z";
  completed_at = none;
}

waiting-Memᴰ : Memᴰ second_row waiting.jobs
unfolding program
waiting-Memᴰ = Memᴰ.tail (Memᴰ.head refl)

claim_execution_job-oldest_example :
    (n : Job) × Memᴰ n waiting.jobs
    × (n.job_id ≡ job.job_id)
    × (is_queued n.state ≡ true)
    × (accepted_before second_row n ≡ false)
claim_execution_job-oldest_example =
    claim_execution_job-oldest waiting second_row first_claim waiting-Memᴰ refl

-- The only job has ended.
nothing_claimed : claim_execution_job completed ≡ (ok none, (claim_execution_job completed).1)
unfolding program
nothing_claimed = refl

claim_execution_job-idle_example : is_queued failed_row.state ≡ false
claim_execution_job-idle_example =
    claim_execution_job-idle completed failed_row nothing_claimed completed-Memᴰ
