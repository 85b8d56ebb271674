-- ===== src/Execution/Tests/Examples.antt =====
-- The properties of ExecutionRepository at concrete inputs.
use tejun.Prelude.{
  String, true, false, none, some, List, [], ◌∷◌, ◌≡◌, refl, sym, ◌∙◌, Memᴰ, ◌++◌, ◌≤◌, ◌==◌, ◌&&◌,
  ◌↔◌, mem_text, IsDistinct, eq_iff, ap,
}
use tejun.Shared.{app_error}
use tejun.Sql.Tx.{ok, err}
use tejun.Sql.Table.{exists}
use tejun.Database.Rows.{JobState, AiStatus, JobKind, Check, Job}
use tejun.Database.Ledger.{MutationResult, CancellationAccepted, Outbox}
use tejun.Execution.Accept.{accept_execution_job, accept_hash, accepted, is_runnable, target_checks}
use tejun.Execution.Accept.Targets.{target_checks_sound, target_checks-append}
use tejun.Execution.Claim.{claim_execution_job}
use tejun.Execution.Complete.{ExecuteError, judge, complete_execution_job}
use tejun.Execution.Complete.Results.{Answered, all_completed, judge-Answered}
use tejun.Execution.Cancel.{cancel_execution_job, accept_execution_cancellation}
use tejun.Execution.Recover.{fail_interrupted_execution_jobs}
use tejun.Execution.Operations.{Request, history}
use tejun.Execution.Outbox.{history-Grows}
use tejun.Execution.Replay.{accept_execution_job-replay, cancel_execution_job-replay}
use tejun.Execution.Replay.Conflicts.{accept_execution_job-conflict}
use tejun.Execution.Replay.Cancellations.{accept_execution_cancellation-replay}
use tejun.Execution.Lifecycle.{IsUnique, AllFollowed}
use tejun.Execution.Lifecycle.History.{history-Lifecycle}
use tejun.Execution.Lifecycle.Ends.{history-finished, complete_execution_job-once}
use tejun.Execution.Lifecycle.Claims.{claim_execution_job-once}
use tejun.Execution.Lifecycle.Recovery.{NoneClaimed, fail_interrupted_execution_jobs-clears}
use tejun.Execution.Lifecycle.Released.{NotBlocked, complete_execution_job-releases}
use tejun.Execution.Lifecycle.Unblocked.{runs, fail_interrupted_execution_jobs-unblocks}
use tejun.Execution.Tests.{
  noon, later, check, start, run_both, run_one, plain_hash, plain_digest, queued, running, job,
  both_seen, completed, cancel_record, stopping, asked, recovered, waiting, first_claimed,
  other_job,
}
use tejun.Execution.Tests.Program.{program}

queued_run :
    accept_execution_job plain_hash run_both start
    ≡ (ok (accepted run_both "s1" ("c1" ∷ "c2" ∷ [])), queued)
unfolding program
queued_run = refl

pub claimed_run : claim_execution_job queued ≡ (ok (some job), running)
unfolding program
claimed_run = refl

completed_run : complete_execution_job job both_seen none later running ≡ (ok tt, completed)
unfolding program
completed_run = refl

cancelled_run : cancel_execution_job plain_hash "j1" "o2" later running ≡ (ok true, stopping)
unfolding program
cancelled_run = refl

abbrev cancelled_result : MutationResult CancellationAccepted
cancelled_result = record {
  value = record {
    job_id = "k1";
    target_status = "cancellation_requested";
    requested_at = later;
    mechanism = "session_cancel";
  };
  receipt = record { operation_id = "o2"; committed_at = later; change_sequence = 0 };
}

asked_run :
    accept_execution_cancellation plain_digest cancel_record running
    ≡ (ok (cancelled_result, true, "j1"), asked)
unfolding program
asked_run = refl

recovered_run : fail_interrupted_execution_jobs later stopping ≡ (ok tt, recovered)
unfolding program
recovered_run = refl

one_row : (i : Job) → IsUnique (i ∷ [])
one_row i j k (Memᴰ.head p) (Memᴰ.head q) e = p ∙ sym q
one_row i j k (Memᴰ.head p) (Memᴰ.tail m) e = elim m [ ]
one_row i j k (Memᴰ.tail m) n e = elim m [ ]

two_rows : (a b : Job) → ¬ (a.job_id ≡ b.job_id) → IsUnique (a ∷ b ∷ [])
two_rows a b d j k (Memᴰ.head p) (Memᴰ.head q) e = p ∙ sym q
two_rows a b d j k (Memᴰ.head p) (Memᴰ.tail (Memᴰ.head q)) e =
    absurd (d (ap (λ (x : Job). x.job_id) (sym p) ∙ e ∙ ap (λ (x : Job). x.job_id) q))
two_rows a b d j k (Memᴰ.tail (Memᴰ.head p)) (Memᴰ.head q) e =
    absurd (d (ap (λ (x : Job). x.job_id) (sym q) ∙ sym e ∙ ap (λ (x : Job). x.job_id) p))
two_rows a b d j k (Memᴰ.tail (Memᴰ.head p)) (Memᴰ.tail (Memᴰ.head q)) e = p ∙ sym q
two_rows a b d j k (Memᴰ.tail (Memᴰ.tail m)) n e = elim m [ ]
two_rows a b d j k m (Memᴰ.tail (Memᴰ.tail n)) e = elim n [ ]

pub queued-IsUnique : IsUnique queued.jobs
unfolding program
queued-IsUnique = one_row _

running-IsUnique : IsUnique running.jobs
unfolding program
running-IsUnique = one_row _

waiting-IsUnique : IsUnique waiting.jobs
unfolding program
waiting-IsUnique = two_rows _ _ (λ h.
    absurd (let same = (eq_iff "j1" "j2").1 h in let other : ("j1" == "j2") ≡ false = refl in cc))

pub first_claim : claim_execution_job waiting ≡ (ok (some job), first_claimed)
unfolding program
first_claim = refl

second_claim :
    claim_execution_job (history plain_hash plain_digest [] first_claimed)
    ≡ (ok (some other_job), (claim_execution_job first_claimed).1)
unfolding program
second_claim = refl

claim_execution_job-once_example : ¬ (other_job.job_id ≡ job.job_id)
claim_execution_job-once_example =
    claim_execution_job-once plain_hash plain_digest waiting [] waiting-IsUnique first_claim
      second_claim

completed-IsUnique : IsUnique completed.jobs
unfolding program
completed-IsUnique = one_row _

-- The row of the job once it is completed.
abbrev pub failed_row : Job
failed_row = record {
  job_id = "j1";
  execution_id = "e1";
  run_id = some "r1";
  turn_id = none;
  session_id = "s1";
  kind = JobKind.checks;
  state = JobState.failed;
  prompt_text = "";
  accepted_at = "2026-09-26T12:00:00Z";
  completed_at = some "2026-09-26T12:00:05.5Z";
}

pub completed-Memᴰ : Memᴰ failed_row completed.jobs
unfolding program
completed-Memᴰ = Memᴰ.head refl

hashes_differ : ¬ (accept_hash plain_hash run_both ≡ accept_hash plain_hash run_one)
unfolding program
hashes_differ h = absurd (
    let same = (eq_iff (accept_hash plain_hash run_both) (accept_hash plain_hash run_one)).1 h in
    let other : (accept_hash plain_hash run_both == accept_hash plain_hash run_one) ≡ false =
      refl in
    cc)

second_target : target_checks ("c2" ∷ []) start.checks ≡ ok ("c2" ∷ [], [])
unfolding program
second_target = refl

two-IsDistinct : IsDistinct ("c1" ∷ "c2" ∷ [])
unfolding program
two-IsDistinct = (refl, (refl, tt))

-- A job is claimed, cancelled and recovered.
abbrev two_jobs : List Request
two_jobs =
    Request.claim ∷ Request.cancel "j1" "o3" later ∷ Request.recover later ∷ Request.claim ∷ []

history-Lifecycle_example :
    let t = history plain_hash plain_digest two_jobs queued in
    IsUnique t.jobs × AllFollowed queued.jobs t.jobs
history-Lifecycle_example =
    history-Lifecycle plain_hash plain_digest two_jobs queued queued-IsUnique

complete_execution_job-once_example :
    let u = history plain_hash plain_digest two_jobs completed in
    complete_execution_job job both_seen (some (ExecuteError.other "lost")) later u
    ≡ (err (app_error "invalid_state" "jobは既に終了しています"), u)
complete_execution_job-once_example =
    complete_execution_job-once plain_hash plain_digest job both_seen both_seen none
      (some (ExecuteError.other "lost")) later later running two_jobs running-IsUnique completed_run

accept_execution_job-replay_example :
    let u = history plain_hash plain_digest (Request.claim ∷ []) queued in
    accept_execution_job plain_hash run_both u ≡ (ok (accepted run_both "s1" ("c1" ∷ "c2" ∷ [])), u)
accept_execution_job-replay_example =
    accept_execution_job-replay plain_hash plain_digest run_both start (Request.claim ∷ [])
      queued_run

accept_execution_job-conflict_example :
    let u = history plain_hash plain_digest two_jobs queued in
    accept_execution_job plain_hash run_one u
    ≡ (err (app_error "operation_id_conflict" "operationIdが別の入力で使用されています"), u)
accept_execution_job-conflict_example =
    accept_execution_job-conflict plain_hash plain_digest run_both run_one start two_jobs queued_run
      refl refl hashes_differ

cancel_execution_job-replay_example :
    let u = history plain_hash plain_digest two_jobs stopping in
    cancel_execution_job plain_hash "j1" "o2" noon u ≡ (ok false, u)
cancel_execution_job-replay_example =
    cancel_execution_job-replay plain_hash plain_digest "j1" "o2" later noon running two_jobs
      cancelled_run

accept_execution_cancellation-replay_example :
    let u = history plain_hash plain_digest two_jobs asked in
    accept_execution_cancellation plain_digest cancel_record u
    ≡ (ok (cancelled_result, false, ""), u)
accept_execution_cancellation-replay_example =
    accept_execution_cancellation-replay plain_digest plain_hash cancel_record running two_jobs
      asked_run

fail_interrupted_execution_jobs-clears_example : NoneClaimed recovered
fail_interrupted_execution_jobs-clears_example =
    fail_interrupted_execution_jobs-clears later stopping recovered_run

history-finished_example :
    (k : Job) × Memᴰ k (history plain_hash plain_digest two_jobs completed).jobs
    × (k.job_id ≡ "j1")
    × (k.state ≡ JobState.failed)
history-finished_example =
    history-finished plain_hash plain_digest two_jobs completed failed_row completed-IsUnique
      completed-Memᴰ refl

history-Grows_example :
    let t = history plain_hash plain_digest two_jobs start in
    (more : List Outbox) × (t.outbox ≡ start.outbox ++ more)
    × (start.change_sequence ≤ t.change_sequence)
history-Grows_example = history-Grows plain_hash plain_digest two_jobs start

target_checks_sound_example :
    (mem_text "c2" ("c2" ∷ []) ≡ true
      → exists (λ (c : Check). c.check_id == "c2" && is_runnable c.ai_status) start.checks ≡ true)
    × (mem_text "c2" ("c2" ∷ []) ≡ true → mem_text "c2" ("c2" ∷ []) ≡ true)
target_checks_sound_example = target_checks_sound ("c2" ∷ []) start.checks "c2" second_target

-- "c1" is selected, and "c2" is targeted too.
target_checks-append_example :
    target_checks ("c1" ∷ []) (check "c1" 1 AiStatus.pending ∷ check "c2" 2 AiStatus.failed ∷ [])
    ≡ ok ("c1" ∷ "c2" ∷ [], [])
unfolding program
target_checks-append_example =
    target_checks-append ("c1" ∷ []) (check "c1" 1 AiStatus.pending ∷ [])
      (check "c2" 2 AiStatus.failed ∷ []) refl

judge-Answered_example :
    (((judge ("c1" ∷ "c2" ∷ []) both_seen.checks).valid ≡ true) ↔ (
      ¬ (◌≡◌ {A = List String} ("c1" ∷ "c2" ∷ []) [])
      × Answered ("c1" ∷ "c2" ∷ []) both_seen.checks))
    × ((judge ("c1" ∷ "c2" ∷ []) both_seen.checks).valid ≡ true
        → (judge ("c1" ∷ "c2" ∷ []) both_seen.checks).succeeded ≡ all_completed both_seen.checks)
judge-Answered_example = judge-Answered ("c1" ∷ "c2" ∷ []) both_seen.checks two-IsDistinct

job-runs : (job.run_id == "") ≡ false
unfolding program
job-runs = refl

complete_execution_job-releases_example : NotBlocked job.execution_id job.run_id completed
complete_execution_job-releases_example =
    complete_execution_job-releases job both_seen none later running job-runs completed_run

-- The row of the job while it is asked to stop.
abbrev stopping_row : Job
stopping_row = record {
  job_id = "j1";
  execution_id = "e1";
  run_id = some "r1";
  turn_id = none;
  session_id = "s1";
  kind = JobKind.checks;
  state = JobState.cancellation_requested;
  prompt_text = "";
  accepted_at = "2026-09-26T12:00:00Z";
  completed_at = none;
}

stopping-Memᴰ : Memᴰ stopping_row stopping.jobs
unfolding program
stopping-Memᴰ = Memᴰ.head refl

fail_interrupted_execution_jobs-unblocks_example : exists (runs "r1") recovered.executions ≡ false
fail_interrupted_execution_jobs-unblocks_example =
    fail_interrupted_execution_jobs-unblocks later stopping stopping_row "r1" recovered_run
      stopping-Memᴰ refl refl
