-- ===== src/Execution/Lifecycle/History.antt =====
-- Every statement on execution_agent_jobs follows the rows, and so does every history of requests.
use tejun.Prelude.{
  String, Bool, true, false, Option, none, some, ◌≡◌, refl, ◌∙◌, sym, List, [], ◌∷◌, Memᴰ, inl, inr,
  Bool-cases, Option-cases, and_left, and_right, arith, eq_iff, ◌++◌,
}
use tejun.Sql.Tx.{modify, ok, ◌>>=◌}
use tejun.Sql.Keeps.{IsPreorder, Keeps, Keeps-modify}
use tejun.Sql.Table.{
  update_where, find, find-Memᴰ, first_by-Memᴰ, select_where-Memᴰ, select_where, exists, insert_row,
}
use tejun.Database.{Db}
use tejun.Database.Time.{Time, format}
use tejun.Database.Rows.{JobState, Job}
use tejun.Execution.Statements.{
  ClaimedExecutionJob, ExecutionJobResult, has_job, is_queued, is_running, is_claimed, update_jobs,
  insert_job, execution_key,
}
use tejun.Execution.Claim.{next_queued, is_next, take_queued, move_job, accepted_before}
use tejun.Execution.Complete.{ExecuteError, final_state, is_open_job, close_job}
use tejun.Execution.Cancel.{CancelAgentOperationInput, cancel_queued, request_running}
use tejun.Execution.Recover.{recovered_state, recover_jobs}
use tejun.Execution.Operations.{Request, history, history_at, kept_by_all}
use tejun.Execution.Operations.Kept.{Writes}
use tejun.Execution.Operations.Sides.{jobs-next_sequence, jobs-insert_outbox, jobs-insert_receipt}
use tejun.Execution.Lifecycle.{
  can_move, Moves, one_move, Follows, Follows-same, Follows-joined, IsUnique, AllFollowed,
  Lifecycle,
}
use tejun.Execution.Lifecycle.Rows.{
  IsUnique-update_where, AllFollowed-update_where, IsUnique-append_one, AllFollowed-append_one,
}

pub Lifecycle-order : IsPreorder Lifecycle
Lifecycle-order = record {
  same = λ s. record { at = λ u. (u, λ j m. (j, m, Follows-same j)) };
  joined = λ r s t p q. record {
    at = λ u.
        let (us, fs) = p.at u in
        let (ut, ft) = q.at us in
        (
          ut,
          λ i m.
              let (j, mj, fj) = fs i m in
              let (k, mk, fk) = ft j mj in (k, mk, Follows-joined i j k fj fk),
        );
  };
}

-- A row with another state, session and time of completion.
Follows-moved :
    (j : Job) (state : JobState) (completed_at : Option String)
    → Moves j.state state
    → Follows j (record j { state = state; completed_at = completed_at })
Follows-moved j state completed_at m = record {
  job_id = refl;
  execution_id = refl;
  run_id = refl;
  turn_id = refl;
  kind = refl;
  prompt_text = refl;
  accepted_at = refl;
  moves = m;
}

Lifecycle-jobs :
    (p : Job → Bool) (f : Job → Job) (s : Db)
    → (IsUnique s.jobs → (j : Job) → Memᴰ j s.jobs → p j ≡ true → Follows j (f j))
    → Lifecycle s (record s { jobs = update_where p f s.jobs })
Lifecycle-jobs p f s h = record {
  at = λ u. (IsUnique-update_where p f s.jobs (h u) u, AllFollowed-update_where p f s.jobs (h u));
}

Keeps-update_jobs :
    (p : Job → Bool) (f : Job → Job)
    → ((j : Job) → p j ≡ true → Follows j (f j))
    → Keeps Lifecycle (update_jobs p f)
Keeps-update_jobs p f h = Keeps-modify _ (λ s. Lifecycle-jobs p f s (λ u j m. h j))

pub Keeps-aside : (f : Db → Db) → ((s : Db) → (f s).jobs ≡ s.jobs) → Keeps Lifecycle (modify f)
Keeps-aside f h =
    Keeps-modify f (λ s. record { at = λ u. rw (h s) (u, λ j m. (j, m, Follows-same j)) })

insert_job-eq-ok :
    (j : Job) (s : Db) {a : Unit {0}} {t : Db}
    → insert_job j s ≡ ok (a, t)
    → (exists (has_job j.job_id) s.jobs ≡ false) × (t ≡ record s { jobs = s.jobs ++ j ∷ [] })
unfolding insert_job ◌>>=◌ insert_row execution_key
insert_job-eq-ok j s h = ground arith

Keeps-insert_job : (j : Job) → Keeps Lifecycle (insert_job j)
Keeps-insert_job j = record {
  at = λ s a t h.
      let (fresh, e) = insert_job-eq-ok j s h in
      rw e (record {
        at = λ u. (IsUnique-append_one j s.jobs fresh u, AllFollowed-append_one j s.jobs);
      });
}

queued-Moves : (a : JobState) → is_queued a ≡ true → Moves a JobState.running
queued-Moves JobState.queued e = one_move JobState.queued JobState.running refl
queued-Moves JobState.running e = absurd (cc)
queued-Moves JobState.cancellation_requested e = absurd (cc)
queued-Moves JobState.completed e = absurd (cc)
queued-Moves JobState.failed e = absurd (cc)
queued-Moves JobState.cancelled e = absurd (cc)
queued-Moves JobState.interrupted e = absurd (cc)

-- The row that is taken is queued.
pub next_queued-Memᴰ :
    (s : Db) {n : Job} → next_queued s ≡ some n → Memᴰ n s.jobs × (is_queued n.state ≡ true)
next_queued-Memᴰ s h =
    select_where-Memᴰ (λ (j : Job). is_queued j.state) s.jobs
      (first_by-Memᴰ accepted_before (select_where (λ (j : Job). is_queued j.state) s.jobs) h)

Follows-next :
    (s : Db) (next : Option Job) (j : Job)
    → next_queued s ≡ next
    → IsUnique s.jobs
    → Memᴰ j s.jobs
    → is_next next j ≡ true
    → Follows j (record j { state = JobState.running })
Follows-next s none j e u m q = absurd (cc)
Follows-next s (some n) j e u m q =
    let (mn, queued) = next_queued-Memᴰ s e in
    let same : j ≡ n = u j n m mn ((eq_iff _ _).0 q) in
    Follows-moved j JobState.running j.completed_at (queued-Moves j.state (rw same queued))

pub take_queued-eq-ok :
    (s : Db) {next : Option Job} {t : Db}
    → take_queued s ≡ ok (next, t)
    → (next ≡ next_queued s)
      × (t ≡ record s {
        jobs =
            update_where
              (is_next (next_queued s))
              (λ k. record k { state = JobState.running })
              s.jobs;
      })
unfolding take_queued ◌>>=◌
take_queued-eq-ok s h = ground arith

Keeps-take_queued : Keeps Lifecycle take_queued
Keeps-take_queued = record {
  at = λ s a t h.
      let (_, e) = take_queued-eq-ok s h in
      rw e (
        Lifecycle-jobs (is_next (next_queued s)) (λ k. record k { state = JobState.running }) s
          (λ u j. Follows-next s (next_queued s) j refl u));
}

-- A claimed job ends in one move.
pub can_move-final_state :
    (job : ClaimedExecutionJob) (o : ExecutionJobResult) (e : Option ExecuteError) (a : JobState)
    (s : Db)
    → is_claimed a ≡ true
    → can_move a (final_state job o e a s).0 ≡ true
unfolding final_state
can_move-final_state job o none JobState.running s h = ground arith
can_move-final_state job o (some e) JobState.running s h = ground arith
can_move-final_state job o none JobState.cancellation_requested s h = ground arith
can_move-final_state job o (some e) JobState.cancellation_requested s h = ground arith
can_move-final_state job o e JobState.queued s h = absurd (cc)
can_move-final_state job o e JobState.completed s h = absurd (cc)
can_move-final_state job o e JobState.failed s h = absurd (cc)
can_move-final_state job o e JobState.cancelled s h = absurd (cc)
can_move-final_state job o e JobState.interrupted s h = absurd (cc)

pub close_job-eq-ok :
    (job : ClaimedExecutionJob) (o : ExecutionJobResult) (e : Option ExecuteError) (at : Time)
    (s : Db) {outcome : JobState × Bool} {t : Db}
    → close_job job o e at s ≡ ok (outcome, t)
    → (row : Job) × (find (has_job job.job_id) s.jobs ≡ some row)
      × (is_claimed row.state ≡ true)
      × (outcome ≡ final_state job o e row.state s)
      × (t ≡ record s {
        jobs =
            update_where
              (is_open_job job.job_id)
              (λ j. record j { state = outcome.0; completed_at = some (format at) })
              s.jobs;
      })
unfolding close_job ◌>>=◌
close_job-eq-ok job o e at s h = elim (Option-cases (find (has_job job.job_id) s.jobs)) [
  | inl missing ↦ absurd (ground arith)
  | inr (row, found) ↦ elim (Bool-cases (is_claimed row.state)) [
    | inl claimed ↦ (row, found, claimed, ground arith, ground arith)
    | inr closed ↦ absurd (ground arith)
  ]
]

Keeps-close_job :
    (job : ClaimedExecutionJob) (o : ExecutionJobResult) (e : Option ExecuteError) (at : Time)
    → Keeps Lifecycle (close_job job o e at)
Keeps-close_job job o e at = record {
  at = λ s outcome t h.
      let (row, found, claimed, same, after) = close_job-eq-ok job o e at s h in
      let (mrow, is_it) = find-Memᴰ (has_job job.job_id) s.jobs found in
      rw after (
        Lifecycle-jobs _ _ s (λ u j m q.
          let one : j ≡ row =
            u j row m mrow ((eq_iff _ _).0 (and_left _ _ q) ∙ sym ((eq_iff _ _).0 is_it)) in
          Follows-moved j outcome.0 _ (
            one_move j.state outcome.0
              (rw (one, same) (can_move-final_state job o e row.state s claimed)))));
}

cancelled-Moves : (a : JobState) → is_queued a ≡ true → Moves a JobState.cancelled
cancelled-Moves JobState.queued e = one_move JobState.queued JobState.cancelled refl
cancelled-Moves JobState.running e = absurd (cc)
cancelled-Moves JobState.cancellation_requested e = absurd (cc)
cancelled-Moves JobState.completed e = absurd (cc)
cancelled-Moves JobState.failed e = absurd (cc)
cancelled-Moves JobState.cancelled e = absurd (cc)
cancelled-Moves JobState.interrupted e = absurd (cc)

requested-Moves : (a : JobState) → is_running a ≡ true → Moves a JobState.cancellation_requested
requested-Moves JobState.running e = one_move JobState.running JobState.cancellation_requested refl
requested-Moves JobState.queued e = absurd (cc)
requested-Moves JobState.cancellation_requested e = absurd (cc)
requested-Moves JobState.completed e = absurd (cc)
requested-Moves JobState.failed e = absurd (cc)
requested-Moves JobState.cancelled e = absurd (cc)
requested-Moves JobState.interrupted e = absurd (cc)

recovered-Moves : (a : JobState) → is_claimed a ≡ true → Moves a (recovered_state a)
recovered-Moves JobState.running e = one_move JobState.running JobState.failed refl
recovered-Moves JobState.cancellation_requested e =
    one_move JobState.cancellation_requested JobState.interrupted refl
recovered-Moves JobState.queued e = absurd (cc)
recovered-Moves JobState.completed e = absurd (cc)
recovered-Moves JobState.failed e = absurd (cc)
recovered-Moves JobState.cancelled e = absurd (cc)
recovered-Moves JobState.interrupted e = absurd (cc)

pub Lifecycle-writes : Writes Lifecycle
unfolding move_job cancel_queued request_running recover_jobs
Lifecycle-writes = record {
  order = Lifecycle-order;
  beside = λ f core. Keeps-aside f (λ s. (core s).jobs);
  insert_job = Keeps-insert_job;
  take_queued = Keeps-take_queued;
  move_job = λ id session_id. Keeps-update_jobs _ _ (λ j q. record {
    job_id = refl;
    execution_id = refl;
    run_id = refl;
    turn_id = refl;
    kind = refl;
    prompt_text = refl;
    accepted_at = refl;
    moves = Moves.stay j.state;
  });
  close_job = Keeps-close_job;
  cancel_queued = λ id at.
      Keeps-update_jobs _ _
        (λ j q. Follows-moved j JobState.cancelled _ (cancelled-Moves j.state (and_right _ _ q)));
  request_running = λ id. Keeps-update_jobs _ _ (λ j q.
      Follows-moved j JobState.cancellation_requested _
        (requested-Moves j.state (and_right _ _ q)));
  recover_jobs = λ at.
      Keeps-update_jobs _ _
        (λ j q. Follows-moved j (recovered_state j.state) _ (recovered-Moves j.state q));
  next_sequence = jobs-next_sequence Lifecycle-order Keeps-aside;
  insert_outbox = jobs-insert_outbox Lifecycle-order Keeps-aside;
  insert_receipt = jobs-insert_receipt Lifecycle-order Keeps-aside;
}

-- Where every job id has one row, it has one after any history of requests, and every job is still
-- there: with its ids, kind, text and time of acceptance, in a state that its old one leads to by
-- moves of `can_move`.
pub history-Lifecycle :
    (sha256 : String → String) (digest : CancelAgentOperationInput → String) (qs : List Request)
    (s : Db)
    → IsUnique s.jobs
    → let t = history sha256 digest qs s in IsUnique t.jobs × AllFollowed s.jobs t.jobs
history-Lifecycle sha256 digest qs s u =
    (history_at sha256 digest (kept_by_all sha256 digest Lifecycle-writes) qs s).at u
