-- ===== src/Runner/Ended.antt =====
-- A turn of the worker ends the job that it claimed.
use tejun.Prelude.{
  ℕ, ◌+◌, String, Bool, true, false, Option, none, some, List, [], ◌∷◌, ◌≡◌, refl, ◌∙◌, sym, ap,
  subst, Memᴰ, ◌⊎◌, inl, inr, if◌then◌else◌,
}
use tejun.Sql.Tx.{Result, ok}
use tejun.Sql.Commit.{commit-eq-ok}
use tejun.Database.{Db}
use tejun.Database.Rows.{Job}
use tejun.Execution.Statements.{
  ClaimedExecutionJob, ExecutionCheckTarget, ExecutionCheckResult, ExecutionJobResult,
}
use tejun.Execution.Accept.{is_checks}
use tejun.Execution.Claim.{claim_execution_job}
use tejun.Execution.Checks.{start_execution_check}
use tejun.Execution.Complete.{ExecuteError, complete_execution_job, complete_tx}
use tejun.Execution.Cancel.{CancelAgentOperationInput, is_finished}
use tejun.Execution.Operations.{Request, perform, KeptByAll, perform_at, history_at, kept_by_all}
use tejun.Execution.Lifecycle.{IsUnique}
use tejun.Execution.Lifecycle.History.{Lifecycle-writes}
use tejun.Execution.Lifecycle.Ends.{complete_tx-ends}
use tejun.Runner.Turn.{
  World, Progress, before, failure, reconnected, connected, ensure_session, recorded, checked,
  answered, single, run_check, run_checks, executed, no_response, finished, claimed_turn, work,
  completion, run_one, last_call,
}

if_case : {A : Type 0} (P : A → Type 0) (b : Bool) (x y : A) → P x → P y → P (if b then x else y)
if_case P true x y p q = p
if_case P false x y p q = q

module _ (sha256 : String → String) (digest : CancelAgentOperationInput → String)
    (world : World) where
  -- A relation that all requests keep holds between the databases of a part of the turn.
  module _ {R : Db → Db → Type 0} (k : KeptByAll sha256 digest R) where
    called :
        (n : ℕ) (q : Request) (db : Db)
        → R db (perform sha256 digest q (before sha256 digest world n db))
    called n q db =
        k.order.joined db (before sha256 digest world n db) _
          (history_at sha256 digest k (world.others n) db)
          (perform_at sha256 digest k q (before sha256 digest world n db))

    -- A part of the turn that began with a job and a database.
    record Works (job : ClaimedExecutionJob) (db : Db) (p : Progress) : Type 0 where
      pub job_id : p.job.job_id ≡ job.job_id
      pub kept : R db p.db

    reconnected-Works :
        (job : ClaimedExecutionJob) (e : Option ExecuteError) (s t : Db)
        → R s t
        → Works job s (reconnected sha256 digest world job e t)
    reconnected-Works job none s t r = record { job_id = refl; kept = r }
    reconnected-Works job (some e) s t r = record { job_id = refl; kept = r }

    connected-Works :
        (job : ClaimedExecutionJob) (a : ExecuteError ⊎ String) (db : Db)
        → Works job db (connected sha256 digest world job a db)
    unfolding perform
    connected-Works job (inl e) db = record { job_id = refl; kept = k.order.same db }
    connected-Works job (inr agent_session_id) db =
        reconnected-Works job _ db _
          (called 1 (Request.reconnect job (world.new_id 0) agent_session_id (world.now 1)) db)

    ensure_session-Works :
        (job : ClaimedExecutionJob) (db : Db)
        → Works job db (ensure_session sha256 digest world job db)
    unfolding ensure_session
    ensure_session-Works job db =
        if_case (Works job db) (world.is_connected job.session_id) _ _
          (record { job_id = refl; kept = k.order.same db })
          (connected-Works job (world.connect job (world.new_id 0)) db)

    recorded-Works :
        (job : ClaimedExecutionJob) (response : ExecutionJobResult) (item : ExecutionCheckResult)
        (e : Option ExecuteError) (s t : Db)
        → R s t
        → Works job s (recorded sha256 digest world job response item e t).0
    recorded-Works job response item none s t r = record { job_id = refl; kept = r }
    recorded-Works job response item (some e) s t r = record { job_id = refl; kept = r }

    checked-Works :
        (n : ℕ) (job : ClaimedExecutionJob) (check : ExecutionCheckTarget)
        (response : ExecutionJobResult) (items : List ExecutionCheckResult) (logs : List String)
        (s db : Db)
        → R s db
        → Works job s (checked sha256 digest world n job check response items logs db).0
    unfolding perform
    checked-Works n job check response [] logs s db r = record { job_id = refl; kept = r }
    checked-Works n job check response (i ∷ []) logs s db r = recorded-Works job response i _ s _ (
        k.order.joined s db _ r
          (called (n + 1) (Request.complete_check job check i logs (world.now (n + 1))) db))
    checked-Works n job check response (i ∷ l ∷ items) logs s db r = record {
      job_id = refl;
      kept = r;
    }

    answered-Works :
        (n : ℕ) (job : ClaimedExecutionJob) (check : ExecutionCheckTarget)
        (response result : ExecutionJobResult) (e : Option ExecuteError) (s db : Db)
        → R s db
        → Works job s (answered sha256 digest world n job check response result e db).0
    answered-Works n job check response result (some e) s db r = record { job_id = refl; kept = r }
    answered-Works n job check response result none s db r =
        if_case (λ (p : Progress × Bool). Works job s p.0) result.is_cancelled _ _
          (record { job_id = refl; kept = r })
          (checked-Works n job check response result.checks result.logs s db r)

    run_check-Works :
        (n : ℕ) (job : ClaimedExecutionJob) (check : ExecutionCheckTarget)
        (response : ExecutionJobResult) (s db : Db)
        → R s db
        → Works job s (run_check sha256 digest world n job check response db).0
    unfolding run_check
    run_check-Works n job check response s db r =
        answered-Works n job check response (world.execute n (single job check)).0
          (world.execute n (single job check)).1 s db r

    after_start :
        (e : Option ExecuteError) (job : ClaimedExecutionJob) (s started : Db)
        (response : ExecutionJobResult) (step : Progress × Bool) (rest : Progress)
        → R s started
        → Works job s step.0
        → Works job s rest
        → Works job s (elim e [
          | some x ↦ record { job = job; response = response; error = some x; db = started }
          | none ↦ if step.1 then rest else step.0
        ])
    after_start (some x) job s started response step rest r done w = record {
      job_id = refl;
      kept = r;
    }
    after_start none job s started response step rest r done w =
        if_case (Works job s) step.1 _ _ w done

    run_checks-Works :
        (n : ℕ) (job : ClaimedExecutionJob) (checks : List ExecutionCheckTarget)
        (response : ExecutionJobResult) (s db : Db)
        → R s db
        → Works job s (run_checks sha256 digest world n job checks response db)
    unfolding run_checks perform
    run_checks-Works n job [] response s db r = record { job_id = refl; kept = r }
    run_checks-Works n job (check ∷ checks) response s db r =
        let started =
          start_execution_check job check (world.now n) (before sha256 digest world n db) in
        let r1 =
          k.order.joined s db started.1 r
            (called n (Request.start_check job check (world.now n)) db) in
        let step = run_check sha256 digest world n job check response started.1 in
        let done = run_check-Works n job check response s started.1 r1 in
        after_start (failure sha256 digest world started.0) job s started.1 response step
          (run_checks sha256 digest world (n + 2) job checks step.0.response step.0.db) r1 done
          (run_checks-Works (n + 2) job checks step.0.response s step.0.db done.kept)

    executed-Works :
        (e : Option ExecuteError) (job : ClaimedExecutionJob) (s : Db) (p : Progress)
        → Works job s p
        → Works job s (executed sha256 digest world p e)
    executed-Works (some e) job s p w = w
    executed-Works none job s p w =
        if_case (Works job s) (is_checks p.job.kind) _ _
          (let rest =
              run_checks-Works 2 p.job p.job.checks (record no_response { incremental = true }) s
                p.db w.kept in
            record { job_id = rest.job_id ∙ w.job_id; kept = rest.kept })
          (record { job_id = w.job_id; kept = w.kept })

    work-Works :
        (job : ClaimedExecutionJob) (db : Db) → Works job db (work sha256 digest world job db)
    unfolding work
    work-Works job db = executed-Works _ job db _ (ensure_session-Works job db)

  -- A successful completion ends the job.
  completion-ends :
      (p : Progress) (id : String)
      → p.job.job_id ≡ id
      → IsUnique p.db.jobs
      → (completion sha256 digest world p).0 ≡ ok tt
      → (l : Job) × Memᴰ l (completion sha256 digest world p).1.jobs
        × (l.job_id ≡ id)
        × (is_finished l.state ≡ true)
  unfolding complete_execution_job
  completion-ends p id same u h =
      let n = last_call p in
      let db = before sha256 digest world n p.db in
      let (ub, _) =
        (history_at sha256 digest (kept_by_all sha256 digest Lifecycle-writes) (world.others n)
            p.db).at
          u in
      let done =
        commit-eq-ok (complete_tx p.job p.response p.error (world.now n)) db
          (ap (λ x. (x, (completion sha256 digest world p).1)) h) in
      let (_, l, ml, idl, end) =
        complete_tx-ends p.job p.response p.error (world.now n) db done ub in
      (l, ml, idl ∙ same, end)

  finished-db :
      (p : Progress) (e : Option ExecuteError) (db : Db)
      → (finished sha256 digest world p e db).1 ≡ db
  finished-db p none db = refl
  finished-db p (some e) db = refl

  -- When a turn of the worker claimed a job and its completion was accepted by the database, the job
  -- is ended after the turn, whatever the agent answered and whatever other requests came in between;
  -- every job id has one row before.
  pub run_one-ends :
      (s : Db) {c : ClaimedExecutionJob} {s1 : Db}
      → IsUnique s.jobs
      → claim_execution_job s ≡ (ok (some c), s1)
      → (completion sha256 digest world (work sha256 digest world c s1)).0 ≡ ok tt
      → (l : Job) × Memᴰ l (run_one sha256 digest world s).1.jobs
        × (l.job_id ≡ c.job_id)
        × (is_finished l.state ≡ true)
  unfolding run_one perform
  run_one-ends s {c} {s1} u h accepted =
      let kept = kept_by_all sha256 digest Lifecycle-writes in
      let turn =
        ap
          (λ (x : Result (Option ClaimedExecutionJob) × Db).
            (claimed_turn sha256 digest world x.0 x.1).1)
          h in
      let u1 : IsUnique s1.jobs =
        subst (λ (x : Result (Option ClaimedExecutionJob) × Db). IsUnique x.1.jobs) h
          ((perform_at sha256 digest kept Request.claim s).at u).0 in
      let w = work-Works kept c s1 in
      let (uw, _) = w.kept.at u1 in
      let p = work sha256 digest world c s1 in
      let (l, ml, id, end) = completion-ends p c.job_id w.job_id uw accepted in
      (
        l,
        subst (λ (x : Db). Memᴰ l x.jobs)
            (sym (
              turn
              ∙ finished-db p (failure sha256 digest world (completion sha256 digest world p).0)
                  (completion sha256 digest world p).1))
            ml,
        id,
        end,
      )
