-- ===== src/Execution/Lifecycle/Ends.antt =====
-- A job ends once: what its end forbids.
use tejun.Prelude.{
  String, Bool, true, false, Option, none, some, ◌≡◌, refl, ◌∙◌, sym, ap, subst, List, Memᴰ, arith,
  eq_refl, eq_iff,
}
use tejun.Shared.{app_error}
use tejun.Sql.Tx.{ok, err, commit, ◌>>=◌}
use tejun.Sql.Keeps.{>>=-eq-ok, Keeps-bind}
use tejun.Sql.Table.{find, find-Memᴰ, find-some, Memᴰ-update_where, update_where}
use tejun.Database.{Db}
use tejun.Database.Time.{Time, format}
use tejun.Database.Rows.{JobState, Job}
use tejun.Execution.Statements.{ClaimedExecutionJob, ExecutionJobResult, has_job, is_claimed}
use tejun.Execution.Complete.{
  ExecuteError, final_state, is_open_job, close_job, complete_tx, complete_execution_job,
}
use tejun.Execution.Cancel.{CancelAgentOperationInput, is_finished}
use tejun.Execution.Operations.{Request, history}
use tejun.Execution.Operations.Kept.{Keeps-settle_run, Keeps-settle_turns}
use tejun.Sql.Commit.{commit-eq-ok}
use tejun.Execution.Lifecycle.{can_move, Moves, IsUnique}
use tejun.Execution.Lifecycle.History.{
  Lifecycle-writes, Lifecycle-order, close_job-eq-ok, history-Lifecycle,
}

-- No move leaves an end.
ended-stays : (a b : JobState) → is_finished a ≡ true → can_move a b ≡ false
ended-stays JobState.completed b h = refl
ended-stays JobState.failed b h = refl
ended-stays JobState.cancelled b h = refl
ended-stays JobState.interrupted b h = refl
ended-stays JobState.queued b h = absurd (cc)
ended-stays JobState.running b h = absurd (cc)
ended-stays JobState.cancellation_requested b h = absurd (cc)

Moves-finished : {a b : JobState} → Moves a b → is_finished a ≡ true → b ≡ a
Moves-finished (Moves.stay a) h = refl
Moves-finished (Moves.move a b c e m) h = absurd (let n = ended-stays a b h in cc)

-- A job that is completed, failed, cancelled or interrupted keeps that state for good, whatever
-- requests come, where every job id has one row.
pub history-finished :
    (sha256 : String → String) (digest : CancelAgentOperationInput → String) (qs : List Request)
    (s : Db) (j : Job)
    → IsUnique s.jobs
    → Memᴰ j s.jobs
    → is_finished j.state ≡ true
    → (k : Job) × Memᴰ k (history sha256 digest qs s).jobs
      × (k.job_id ≡ j.job_id)
      × (k.state ≡ j.state)
history-finished sha256 digest qs s j u m h =
    let (_, followed) = history-Lifecycle sha256 digest qs s u in
    let (k, mk, f) = followed j m in (k, mk, f.job_id, Moves-finished f.moves h)

-- The row of an id is the one that is found.
find_unique :
    (jobs : List Job) (k : Job)
    → IsUnique jobs
    → Memᴰ k jobs
    → find (has_job k.job_id) jobs ≡ some k
find_unique jobs k u m =
    let (j, found) = find-some (has_job k.job_id) jobs m (eq_refl k.job_id) in
    let (mj, is_it) = find-Memᴰ (has_job k.job_id) jobs found in
    found ∙ ap some (u j k mj m ((eq_iff _ _).0 is_it))

is_finished-final_state :
    (job : ClaimedExecutionJob) (o : ExecutionJobResult) (e : Option ExecuteError) (a : JobState)
    (s : Db)
    → is_finished (final_state job o e a s).0 ≡ true
unfolding final_state
is_finished-final_state job o none a s = ground arith
is_finished-final_state job o (some e) a s = ground arith

-- A claimed row is rewritten by the update that ends the job.
closed_row :
    (id : String) (state : JobState) (at : Time) (jobs : List Job) (row : Job)
    → find (has_job id) jobs ≡ some row
    → is_claimed row.state ≡ true
    → Memᴰ
        (record row { state = state; completed_at = some (format at) })
        (update_where
          (is_open_job id)
          (λ j. record j { state = state; completed_at = some (format at) })
          jobs)
      × (row.job_id ≡ id)
closed_row id state at jobs row found claimed =
    let (mrow, is_it) = find-Memᴰ (has_job id) jobs found in
    let open_row : is_open_job id row ≡ true = ground arith in
    let m =
      Memᴰ-update_where (is_open_job id)
        (λ j. record j { state = state; completed_at = some (format at) }) jobs mrow in
    (rw open_row at m, (eq_iff _ _).0 is_it)

-- The job that close_job ends is in the table, ended.
close_job-ends :
    (job : ClaimedExecutionJob) (o : ExecutionJobResult) (e : Option ExecuteError) (at : Time)
    (s : Db) {outcome : JobState × Bool} {t : Db}
    → close_job job o e at s ≡ ok (outcome, t)
    → (k : Job) × Memᴰ k t.jobs × (k.job_id ≡ job.job_id) × (is_finished k.state ≡ true)
close_job-ends job o e at s {outcome} {t} h =
    let (row, found, claimed, same, after) = close_job-eq-ok job o e at s h in
    let (m, is_it) = closed_row job.job_id outcome.0 at s.jobs row found claimed in
    (
      record row { state = outcome.0; completed_at = some (format at) },
      subst (λ x. Memᴰ (record row { state = outcome.0; completed_at = some (format at) }) x)
          (sym (ap (λ (d : Db). d.jobs) after)) m,
      is_it,
      subst (λ x. is_finished x.0 ≡ true) (sym same) (is_finished-final_state job o e row.state s),
    )

-- After a completion the job is in the table, ended.
pub complete_tx-ends :
    (job : ClaimedExecutionJob) (o : ExecutionJobResult) (e : Option ExecuteError) (at : Time)
    (s : Db) {a : Unit {0}} {t : Db}
    → complete_tx job o e at s ≡ ok (a, t)
    → IsUnique s.jobs
    → IsUnique t.jobs
      × (k : Job) × Memᴰ k t.jobs
      × (k.job_id ≡ job.job_id)
      × (is_finished k.state ≡ true)
unfolding complete_tx
complete_tx-ends job o e at s {t = t} h u =
    let (outcome, s1, h1, k1) = >>=-eq-ok _ _ s h in
    let (k, mk, ek, end) = close_job-ends job o e at s h1 in
    let (u1, _) = ((Lifecycle-writes.close_job job o e at).at s outcome s1 h1).at u in
    let settled =
      (Keeps-bind Lifecycle-order _ _
          (Keeps-settle_run Lifecycle-writes job o e outcome.0 outcome.1 at)
          (λ _.
            Keeps-bind Lifecycle-order _ _ (Keeps-settle_turns Lifecycle-writes job o outcome.0 at)
              (λ _.
                Keeps-bind Lifecycle-order _ _ Lifecycle-writes.next_sequence
                  (λ n. Lifecycle-writes.insert_outbox _ n)))).at
        s1 _ t k1 in
    let (ut, followed) = settled.at u1 in
    let (l, ml, f) = followed k mk in
    (ut, l, ml, f.job_id ∙ ek, rw (Moves-finished f.moves end) end)

-- A job that is already ended is not completed again.
complete_execution_job-finished :
    (job : ClaimedExecutionJob) (o : ExecutionJobResult) (e : Option ExecuteError) (at : Time)
    (s : Db) (k : Job)
    → find (has_job job.job_id) s.jobs ≡ some k
    → is_finished k.state ≡ true
    → complete_execution_job job o e at s ≡ (err (app_error "invalid_state" "jobは既に終了しています"), s)
unfolding complete_execution_job complete_tx close_job commit ◌>>=◌
complete_execution_job-finished job o e at s k found h = ground arith

-- Once a job was completed, completing it again with any result, after any history of requests,
-- fails with invalid_state and changes nothing, where every job id has one row at the first completion.
pub complete_execution_job-once :
    (sha256 : String → String) (digest : CancelAgentOperationInput → String)
    (job : ClaimedExecutionJob) (o p : ExecutionJobResult) (e f : Option ExecuteError)
    (at later : Time) (s : Db) {a : Unit {0}} {t : Db} (between : List Request)
    → IsUnique s.jobs
    → complete_execution_job job o e at s ≡ (ok a, t)
    → let u = history sha256 digest between t in
      complete_execution_job job p f later u ≡ (err (app_error "invalid_state" "jobは既に終了しています"), u)
unfolding complete_execution_job
complete_execution_job-once sha256 digest job o p e f at later s {t = t} between unique h =
    let (ut, k, mk, ek, end) =
      complete_tx-ends job o e at s (commit-eq-ok (complete_tx job o e at) s h) unique in
    let (uu, followed) = history-Lifecycle sha256 digest between t ut in
    let (l, ml, g) = followed k mk in
    complete_execution_job-finished job p f later _ l
      (rw (← (g.job_id ∙ ek)) (find_unique _ l uu ml)) (rw (Moves-finished g.moves end) end)
