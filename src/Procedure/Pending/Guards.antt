-- ===== src/Procedure/Pending/Guards.antt =====
-- The two transactions that add or stop a revision under a guard, and histories of all requests.
use tejun.Prelude.{
  ◌≡◌, refl, ◌∙◌, sym, ap, ℕ, String, true, false, List, [], ◌∷◌, ◌++◌, Memᴰ, arith, ltb, ◌==◌,
  ◌&&◌, ◌||◌, not, eq_iff, subst,
}
use tejun.Sql.Tx.{ok, pure, ◌>>=◌, Tx}
use tejun.Sql.Keeps.{IsPreorder, Keeps, >>=-eq-ok, Keeps-bind, Keeps-pure}
use tejun.Sql.Commit.{require-eq-ok, gets-eq-ok, fail_if-eq-ok, modify-eq-ok}
use tejun.Sql.Table.{
  exists, count_where, select_where-Memᴰ, first_by-Memᴰ, select_where, insert_row,
}
use tejun.Database.{Db}
use tejun.Database.Time.{Time}
use tejun.Database.Rows.{JobState, ProcedureTurn, RevisionJob}
use tejun.Execution.Statements.{is_queued, is_running}
use tejun.Mutation.{next_sequence}
use tejun.Procedure.Codec.{Json}
use tejun.Procedure.Statements.{
  is_pending, pending_for, has_revision_job, update_revision_jobs, update_procedures,
  write_document, insert_procedure_turn, insert_revision_job,
}
use tejun.Procedure.Complete.{close_procedure}
use tejun.Procedure.Revision.Accept.{
  ProcedureRevisionRecord, queued_revision, enqueue_revision, accept_revision_new,
}
use tejun.Procedure.Revision.Cancel.{
  CancelRevisionRecord, is_target, stop_revision, cancel_revision_new,
}
use tejun.Procedure.Operations.{Request, history, KeptByAll, history_at}
use tejun.Procedure.Operations.Kept.{
  Keeps-save_new, Keeps-adopt, Keeps-complete_new, Keeps-save_mutation,
  Keeps-update_procedure_turns,
}
use tejun.Procedure.Versions.Stale.{admit_draft-eq-ok}
use tejun.Procedure.Pending.{
  OneRevision, OneRevision-order, OneRevision-aside, OneRevision-update, OneRevision-writes,
}
use tejun.Procedure.Pending.Rows.{IsOrderly, IsOrderly-append_one}

-- The ledger's part of a mutation, whatever it returns.
pub recorded :
    {R : Db → Db → Type 0} {A : Type 0}
    → IsPreorder R
    → Keeps R next_sequence
    → (m : ℕ → Tx Db Unit) (v : ℕ → A) → ((n : ℕ) → Keeps R (m n))
    → Keeps R (next_sequence >>= λ n. m n >>= λ _. pure (v n))
recorded order next m v k =
    Keeps-bind order next_sequence _ next
      (λ n. Keeps-bind order (m n) _ (k n) (λ _. Keeps-pure order (v n)))

insert_revision_job-OneRevision :
    (j : RevisionJob) (s : Db) {a : Unit {0}} {t : Db}
    → insert_revision_job j s ≡ ok (a, t)
    → count_where (pending_for j.procedure_id) s.revision_jobs ≡ 0
    → OneRevision s t
unfolding insert_revision_job insert_row ◌>>=◌
insert_revision_job-OneRevision j s {t = t} h none_pending =
    let fresh : exists (λ (k : RevisionJob). k.job_id == j.job_id || k.turn_id == j.turn_id)
          s.revision_jobs
        ≡ false =
      ground arith in
    let after : t.revision_jobs ≡ s.revision_jobs ++ j ∷ [] = ground arith in
    record {
      at = λ o.
          subst IsOrderly (sym after) (IsOrderly-append_one j s.revision_jobs fresh none_pending o);
    }

pub insert_procedure_turn-jobs :
    (u : ProcedureTurn) (s : Db) {a : Unit {0}} {t : Db}
    → insert_procedure_turn u s ≡ ok (a, t)
    → t.revision_jobs ≡ s.revision_jobs
unfolding insert_procedure_turn insert_row ◌>>=◌
insert_procedure_turn-jobs u s h = ground arith

enqueue-OneRevision :
    (sha256 : String → String) (json : Json) (r : ProcedureRevisionRecord) (prompt : String)
    (s : Db) {a : Unit {0}} {t : Db}
    → enqueue_revision sha256 json r prompt s ≡ ok (a, t)
    → count_where (pending_for r.procedure_id) s.revision_jobs ≡ 0
    → OneRevision s t
unfolding enqueue_revision
enqueue-OneRevision sha256 json r prompt s {t = t} h none_pending =
    let (_, s1, h1, k1) = >>=-eq-ok _ _ s h in
    let same = insert_procedure_turn-jobs _ s h1 in
    let added =
      insert_revision_job-OneRevision (queued_revision r prompt) s1 k1
        (ap (count_where (pending_for r.procedure_id)) same ∙ none_pending) in
    record { at = λ o. added.at (subst IsOrderly (sym same) o) }

-- A revision that is stopped was queued or running.
stop_revision-OneRevision :
    (j : RevisionJob) (at : Time) (s : Db) {a : Unit {0}} {t : Db}
    → stop_revision j.job_id j.state at s ≡ ok (a, t)
    → Memᴰ j s.revision_jobs
    → is_pending j.state ≡ true
    → OneRevision s t
unfolding stop_revision update_revision_jobs
stop_revision-OneRevision j at s h m pending = rw (modify-eq-ok _ s h) (
    OneRevision-update (has_revision_job j.job_id) _ s (λ o k mk hit. record {
      job_id = refl;
      procedure_id = refl;
      pending =
          λ _. let same = o.keyed k j mk m ((eq_iff k.job_id j.job_id).0 hit) in rw same pending;
    }))

stoppable : (a : JobState) → (not (is_queued a) && not (is_running a)) ≡ false → is_pending a ≡ true
stoppable JobState.queued h = refl
stoppable JobState.running h = refl
stoppable JobState.cancellation_requested h = refl
stoppable JobState.completed h = absurd (cc)
stoppable JobState.failed h = absurd (cc)
stoppable JobState.cancelled h = absurd (cc)
stoppable JobState.interrupted h = absurd (cc)

module _ (sha256 : String → String) (json : Json) where
  OneRevision-accept_new :
      (r : ProcedureRevisionRecord) → Keeps OneRevision (accept_revision_new sha256 json r)
  unfolding accept_revision_new
  OneRevision-accept_new r = record {
    at = λ s v t h.
        let (p, s1, h1, k1) = >>=-eq-ok _ _ s h in
        let (_, s2, h2, k2) = >>=-eq-ok _ _ s1 k1 in
        let (pending, s3, h3, k3) = >>=-eq-ok _ _ s2 k2 in
        let (_, s4, h4, k4) = >>=-eq-ok _ _ s3 k3 in
        let (_, s5, h5, k5) = >>=-eq-ok _ _ s4 k4 in
        let (_, s6, h6, k6) = >>=-eq-ok _ _ s5 k5 in
        let (_, same1) = require-eq-ok _ _ s h1 in
        let (_, _, same2) = admit_draft-eq-ok _ p r.expected_revision s1 h2 in
        let (counted, same3) = gets-eq-ok _ s2 h3 in
        let (zero_pending, same4) = fail_if-eq-ok _ _ s3 h4 in
        let (_, same5) = fail_if-eq-ok _ _ s4 h5 in
        let back : s5 ≡ s = same5 ∙ same4 ∙ same3 ∙ same2 ∙ same1 in
        let none_pending : count_where (pending_for r.procedure_id) s5.revision_jobs ≡ 0 =
          ground arith in
        let queued = enqueue-OneRevision sha256 json r _ s5 h6 none_pending in
        let after =
          (recorded OneRevision-order OneRevision-writes.next_sequence _ _
              (λ n. Keeps-save_mutation OneRevision-writes _ _ _ _ _ _ n)).at
            s6 v t k6 in
        record { at = λ o. after.at (queued.at (rw back o)) };
  }

  OneRevision-cancel_new :
      (r : CancelRevisionRecord) → Keeps OneRevision (cancel_revision_new sha256 r)
  unfolding cancel_revision_new
  OneRevision-cancel_new r = record {
    at = λ s v t h.
        let (j, s1, h1, k1) = >>=-eq-ok _ _ s h in
        let (_, s2, h2, k2) = >>=-eq-ok _ _ s1 k1 in
        let (_, s3, h3, k3) = >>=-eq-ok _ _ s2 k2 in
        let (found, same1) = require-eq-ok _ _ s h1 in
        let (open_state, same2) = fail_if-eq-ok _ _ s1 h2 in
        let back : s2 ≡ s = same2 ∙ same1 in
        let (m, _) = select_where-Memᴰ (is_target r) s.revision_jobs (
          first_by-Memᴰ (λ (i k : RevisionJob). ltb k.accepted_at i.accepted_at)
            (select_where (is_target r) s.revision_jobs) found) in
        let pending : is_pending j.state ≡ true = stoppable j.state open_state in
        let stopped =
          stop_revision-OneRevision j r.at s2 h3
            (subst (λ (d : Db). Memᴰ j d.revision_jobs) (sym back) m) pending in
        let after =
          (Keeps-bind OneRevision-order _ _ (Keeps-update_procedure_turns OneRevision-writes _ _)
              (λ _.
                recorded OneRevision-order OneRevision-writes.next_sequence _ _
                  (λ n. Keeps-save_mutation OneRevision-writes _ _ _ _ _ _ n))).at
            s3 v t k3 in
        record {
          at = λ o.
              after.at (stopped.at (subst (λ (d : Db). IsOrderly d.revision_jobs) (sym back) o));
        };
  }

  OneRevision-kept : KeptByAll sha256 json OneRevision
  unfolding write_document close_procedure update_procedures
  OneRevision-kept = record {
    writes = OneRevision-writes;
    save_new =
        Keeps-save_new OneRevision-writes sha256 json
          (λ id n text at. OneRevision-aside _ (λ s. refl));
    adopt = Keeps-adopt OneRevision-writes json (λ id n text at. OneRevision-aside _ (λ s. refl));
    accept_new = OneRevision-accept_new;
    cancel_new = OneRevision-cancel_new;
    complete_new =
        Keeps-complete_new OneRevision-writes sha256 json
          (λ id n at. OneRevision-aside _ (λ s. refl));
  }

  -- Where every job id has one row and each procedure has at most one pending revision, that is so
  -- after any history of requests.
  pub procedure-OneRevision :
      (qs : List Request) (s : Db)
      → IsOrderly s.revision_jobs
      → IsOrderly (history sha256 json qs s).revision_jobs
  procedure-OneRevision qs s o = (history_at sha256 json OneRevision-kept qs s).at o
