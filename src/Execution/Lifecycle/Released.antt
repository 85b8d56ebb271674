-- ===== src/Execution/Lifecycle/Released.antt =====
-- A completed run no longer blocks its execution.
use tejun.Prelude.{
  ℕ, ◌+◌, String, Bool, false, Option, none, List, [], ◌∷◌, ◌≡◌, refl, ◌==◌, ◌&&◌, arith,
}
use tejun.Sql.Tx.{ok, modify}
use tejun.Sql.Keeps.{IsPreorder, Keeps, Keeps-modify, Keeps-bind, >>=-eq-ok, keeps_rules}
use tejun.Sql.Commit.{commit-eq-ok, modify-eq-ok}
use tejun.Sql.Table.{update_where, exists}
use tejun.Database.{Db}
use tejun.Database.Time.{Time}
use tejun.Database.Rows.{JobState, Execution, Turn}
use tejun.Database.Ledger.{OutboxEvent}
use tejun.Mutation.{next_sequence, insert_outbox}
use tejun.Execution.Statements.{
  ClaimedExecutionJob, ExecutionJobResult, column_is, insert_turn, execution_key, release_run,
}
use tejun.Execution.Complete.{
  ExecuteError, settle_run, settle_turns, complete_tx, complete_execution_job,
}

-- An execution that the run blocks: `active_run_id` names it.
abbrev pub is_blocked : String → String → Execution → Bool
is_blocked execution_id run_id e =
    e.execution_id == execution_id && column_is e.active_run_id run_id

abbrev pub NotBlocked : String → String → Db → Type 0
NotBlocked execution_id run_id s = exists (is_blocked execution_id run_id) s.executions ≡ false

-- No execution satisfies `p`, and it stays so.
module _ (p : Execution → Bool) where
  pub record StaysFree (s t : Db) : Type 0 where
    pub at : exists p s.executions ≡ false → exists p t.executions ≡ false

  pub StaysFree-order : IsPreorder StaysFree
  StaysFree-order = record {
    same = λ s. record { at = λ h. h };
    joined = λ s t u k l. record { at = λ h. l.at (k.at h) };
  }

  pub StaysFree-aside :
      (f : Db → Db) → ((s : Db) → (f s).executions ≡ s.executions) → Keeps StaysFree (modify f)
  StaysFree-aside f e = Keeps-modify f (λ s. record { at = λ h. rw (e s) h })

  StaysFree-insert_turn : (t : Turn) → Keeps StaysFree (insert_turn t)
  unfolding insert_turn execution_key
  StaysFree-insert_turn t = search (keeps_rules, StaysFree-order, StaysFree-aside)

  StaysFree-settle_turns :
      (job : ClaimedExecutionJob) (o : ExecutionJobResult) (st : JobState) (at : Time)
      → Keeps StaysFree (settle_turns job o st at)
  unfolding settle_turns
  StaysFree-settle_turns job o st at =
      search (keeps_rules, StaysFree-order, StaysFree-aside, StaysFree-insert_turn) depth 12

  pub StaysFree-next_sequence : Keeps StaysFree next_sequence
  unfolding next_sequence
  StaysFree-next_sequence = search (keeps_rules, StaysFree-order, StaysFree-aside)

  pub StaysFree-insert_outbox : (e : OutboxEvent) (n : ℕ) → Keeps StaysFree (insert_outbox e n)
  unfolding insert_outbox
  StaysFree-insert_outbox e n = search (keeps_rules, StaysFree-order, StaysFree-aside)

released_none :
    (execution_id run_id : String) (rows : List Execution)
    → exists (is_blocked execution_id run_id) (
        update_where
          (is_blocked execution_id run_id)
          (λ e. record e { active_run_id = none; revision = e.revision + 1 })
          rows)
      ≡ false
unfolding exists update_where
released_none x r [] = refl
released_none x r (e ∷ rows) = ground (arith, released_none x r rows)

release_run-frees :
    (execution_id run_id : String) (s : Db) {a : Unit {0}} {t : Db}
    → release_run execution_id run_id s ≡ ok (a, t)
    → NotBlocked execution_id run_id t
unfolding release_run
release_run-frees x r s h = rw (modify-eq-ok _ s h) (released_none x r s.executions)

settle_run-frees :
    (job : ClaimedExecutionJob) (o : ExecutionJobResult) (e : Option ExecuteError) (st : JobState)
    (v : Bool) (at : Time) (s : Db) {a : Unit {0}} {t : Db}
    → (job.run_id == "") ≡ false
    → settle_run job o e st v at s ≡ ok (a, t)
    → NotBlocked job.execution_id job.run_id t
unfolding settle_run
settle_run-frees job o e st v at s run h =
    let (_, s1, h1, k1) = >>=-eq-ok _ _ s (rw (run, settle_run) at h) in
    let (_, s2, h2, k2) = >>=-eq-ok _ _ s1 k1 in release_run-frees job.execution_id job.run_id s2 k2

-- After the job of a run was completed, whatever its outcome, its execution is not blocked by the
-- run: active_run_id does not name it any more.
pub complete_execution_job-releases :
    (job : ClaimedExecutionJob) (o : ExecutionJobResult) (e : Option ExecuteError) (at : Time)
    (s : Db) {a : Unit {0}} {t : Db}
    → (job.run_id == "") ≡ false
    → complete_execution_job job o e at s ≡ (ok a, t)
    → NotBlocked job.execution_id job.run_id t
unfolding complete_execution_job complete_tx
complete_execution_job-releases job o e at s {t = t} run h =
    let (outcome, s1, h1, k1) = >>=-eq-ok _ _ s (commit-eq-ok (complete_tx job o e at) s h) in
    let (_, s2, h2, k2) = >>=-eq-ok _ _ s1 k1 in
    let free = settle_run-frees job o e outcome.0 outcome.1 at s1 run h2 in
    let x = job.execution_id in
    let r = job.run_id in
    let p = is_blocked x r in
    let order = StaysFree-order p in
    let rest = Keeps-bind order _ _ (StaysFree-settle_turns p job o outcome.0 at) (λ _.
      Keeps-bind order _ _ (StaysFree-next_sequence p) (λ n. StaysFree-insert_outbox p _ n)) in
    (rest.at s2 _ t k2).at free
