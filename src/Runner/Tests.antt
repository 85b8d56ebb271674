-- ===== src/Runner/Tests.antt =====
-- A turn of the worker on the concrete execution, with a cancellation in between.
use tejun.Prelude.{true, false, none, [], ◌∷◌, ◌≡◌, refl, Memᴰ, inr, nat_eq, not, if◌then◌else◌}
use tejun.Sql.Tx.{ok}
use tejun.Database.Rows.{Job}
use tejun.Execution.Cancel.{is_finished}
use tejun.Execution.Operations.{Request, history, perform}
use tejun.Execution.Tests.{later, plain_hash, plain_digest, queued, running, job}
use tejun.Execution.Tests.Program.{program}
use tejun.Execution.Tests.Examples.{queued-IsUnique, claimed_run}
use tejun.Runner.Turn.{World, completion, work, run_one, run_check, run_checks, ensure_session}
use tejun.Runner.Ended.{run_one-ends}

-- The agent is connected and finds the first check done; a client cancels the job during the second.
abbrev world : World
world = record {
  is_connected = λ s. true;
  connect = λ c s. inr s;
  execute = λ n c. (
    record {
      message = "";
      checks = record { check_id = "c1"; status = "completed"; evidence = "there" } ∷ [];
      logs = [];
      is_cancelled = not (nat_eq n 2);
      incremental = false;
    },
    none,
  );
  cancel = λ id. none;
  now = λ n. later;
  new_id = λ n. "n1";
  others = λ n. if nat_eq n 6 then Request.cancel "j1" "o9" later ∷ [] else [];
  error_text = λ e. "";
}

accepted_run :
    (completion plain_hash plain_digest world (work plain_hash plain_digest world job running)).0
    ≡ ok tt
unfolding program work run_checks run_check ensure_session history perform
accepted_run = refl

run_one-ends_example :
    (l : Job) × Memᴰ l (run_one plain_hash plain_digest world queued).1.jobs
    × (l.job_id ≡ "j1")
    × (is_finished l.state ≡ true)
run_one-ends_example =
    run_one-ends plain_hash plain_digest world queued queued-IsUnique claimed_run accepted_run
