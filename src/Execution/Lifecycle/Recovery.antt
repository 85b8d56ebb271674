-- ===== src/Execution/Lifecycle/Recovery.antt =====
-- After a restart no job is left claimed.
use tejun.Prelude.{some, false, ◌≡◌, refl, List, [], ◌∷◌, String, Bool-cases, inl, inr}
use tejun.Sql.Tx.{ok, modify}
use tejun.Sql.Keeps.{IsPreorder, Keeps, Keeps-modify, Keeps-for_each, >>=-eq-ok, keeps_rules}
use tejun.Sql.Commit.{commit-eq-ok, modify-eq-ok}
use tejun.Sql.Table.{update_where, exists}
use tejun.Database.{Db}
use tejun.Database.Time.{Time, format}
use tejun.Database.Rows.{JobState, Job}
use tejun.Execution.Statements.{is_claimed}
use tejun.Execution.Operations.Sides.{jobs-next_sequence, jobs-insert_outbox}
use tejun.Execution.Recover.{
  recovered_state, recover_jobs, announce, recover_tx, fail_interrupted_execution_jobs,
}

abbrev pub NoneClaimed : Db → Type 0
NoneClaimed s = exists (λ (j : Job). is_claimed j.state) s.jobs ≡ false

record KeepsClear (s t : Db) : Type 0 where
  pub at : NoneClaimed s → NoneClaimed t

KeepsClear-order : IsPreorder KeepsClear
KeepsClear-order = record {
  same = λ s. record { at = λ h. h };
  joined = λ s t u p q. record { at = λ h. q.at (p.at h) };
}

KeepsClear-aside : (f : Db → Db) → ((s : Db) → (f s).jobs ≡ s.jobs) → Keeps KeepsClear (modify f)
KeepsClear-aside f h = Keeps-modify f (λ s. record { at = λ k. rw (h s) k })

KeepsClear-announce : (at : Time) (id : String) → Keeps KeepsClear (announce at id)
unfolding announce
KeepsClear-announce at id = search (
  keeps_rules,
  KeepsClear-order,
  jobs-next_sequence KeepsClear-order KeepsClear-aside,
  jobs-insert_outbox KeepsClear-order KeepsClear-aside,
)

unclaimed : (a : JobState) → is_claimed (recovered_state a) ≡ false
unclaimed JobState.queued = refl
unclaimed JobState.running = refl
unclaimed JobState.cancellation_requested = refl
unclaimed JobState.completed = refl
unclaimed JobState.failed = refl
unclaimed JobState.cancelled = refl
unclaimed JobState.interrupted = refl

recovered_none :
    (at : Time) (jobs : List Job)
    → exists
        (λ (j : Job). is_claimed j.state)
        (update_where
          (λ (j : Job). is_claimed j.state)
          (λ j. record j { state = recovered_state j.state; completed_at = some (format at) })
          jobs)
      ≡ false
unfolding exists update_where
recovered_none at [] = refl
recovered_none at (j ∷ jobs) = elim (Bool-cases (is_claimed j.state)) [
  | inl e ↦ rw (e, unclaimed j.state, recovered_none at jobs) refl
  | inr e ↦ rw (e, recovered_none at jobs) (rw e refl)
]

recover_jobs-clears :
    (at : Time) (s : Db) {a : Unit {0}} {t : Db} → recover_jobs at s ≡ ok (a, t) → NoneClaimed t
unfolding recover_jobs
recover_jobs-clears at s h = rw (modify-eq-ok _ s h) (recovered_none at s.jobs)

-- After a start-up that recovered the jobs, none is running or cancellation_requested.
pub fail_interrupted_execution_jobs-clears :
    (at : Time) (s : Db) {a : Unit {0}} {t : Db}
    → fail_interrupted_execution_jobs at s ≡ (ok a, t)
    → NoneClaimed t
unfolding fail_interrupted_execution_jobs recover_tx
fail_interrupted_execution_jobs-clears at s {t = t} h =
    let (ids, s1, h1, k1) = >>=-eq-ok _ _ s (commit-eq-ok (recover_tx at) s h) in
    let (_, s2, h2, k2) = >>=-eq-ok _ _ s1 k1 in
    let (db, s3, h3, k3) = >>=-eq-ok _ _ s2 k2 in
    let (_, s4, h4, k4) = >>=-eq-ok _ _ s3 k3 in
    let (_, s5, h5, k5) = >>=-eq-ok _ _ s4 k4 in
    let (_, s6, h6, k6) = >>=-eq-ok _ _ s5 k5 in
    ((Keeps-for_each KeepsClear-order ids (announce at) (KeepsClear-announce at)).at s6 _ t k6).at
      (recover_jobs-clears at s5 h6)
