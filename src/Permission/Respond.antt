-- ===== src/Permission/Respond.antt =====
-- ExecutionPermission.Respond of internal/application/execution_permission.go: the claim, the answer to
-- the agent, and the completion. The wire to the agent, the clock and the requests that come between
-- the claim and the completion are parameters.
use tejun.Prelude.{
  ℕ, String, Bool, true, false, Option, none, some, List, ◌≡◌, refl, sym, subst, ◌⊎◌, inl, inr,
  ◌&&◌,
}
use tejun.Shared.{Error, app}
use tejun.Sql.Tx.{Result, ok, err}
use tejun.Sql.Keeps.{commit_at}
use tejun.Sql.Commit.{commit-eq-ok}
use tejun.Sql.Table.{exists}
use tejun.Database.{Db}
use tejun.Database.Time.{Time}
use tejun.Database.Ledger.{MutationResult, PermissionResponseResult}
use tejun.Execution.Complete.{ExecuteError}
use tejun.Permission.Claims.{
  PermissionClaim, has_request, is_pending, claim_permission, claim_permission_tx,
}
use tejun.Permission.Answers.{complete_permission}
use tejun.Permission.Spent.{
  PermissionRequest, permission_history, Spent, StaysSpent, StaysSpent-order,
  StaysSpent-complete_tx, spent_history,
}
use tejun.Permission.Once.{claimed-Spent}

-- What RespondPermission reports: nil, an error, or ErrPermissionDeliveryIndeterminate.
pub data Delivery : Type 0 where
  delivered : Delivery
  undelivered : ExecuteError → Delivery
  indeterminate : Delivery

pub record Wire : Type 0 where
  pub generation : String → ExecuteError ⊎ ℕ
  pub deliver : String → String → ℕ → Delivery
  pub now : ℕ → Time
  pub others : List PermissionRequest
  pub error_text : Error → String

-- What Respond returns, the request and the option that were sent to the agent, and the database.
pub record Reply : Type 0 where
  pub result : ExecuteError ⊎ MutationResult PermissionResponseResult
  pub sent : Option (String × String)
  pub db : Db

module _ (sha256 : String → String) (wire : Wire) where
  abbrev pub as_error : Error → ExecuteError
  as_error (app e) = ExecuteError.app e
  as_error e = ExecuteError.other (wire.error_text e)

  abbrev pub sent_reply :
      MutationResult PermissionResponseResult → MutationResult PermissionResponseResult
  sent_reply r = record r {
    value = record (r.value) { status = "sent"; responded_at = some (wire.now 2) };
  }

  -- After CompletePermission.
  abbrev pub completed_reply :
      PermissionClaim
      → MutationResult PermissionResponseResult
      → Option ExecuteError
      → Result (Unit {0})
      → Db
      → Reply
  completed_reply c r e (err x) db = record {
    result = inl (as_error x);
    sent = some (c.permission_request_id, c.option_id);
    db = db;
  }
  completed_reply c r (some e) (ok a) db = record {
    result = inl e;
    sent = some (c.permission_request_id, c.option_id);
    db = db;
  }
  completed_reply c r none (ok a) db = record {
    result = inr (sent_reply r);
    sent = some (c.permission_request_id, c.option_id);
    db = db;
  }

  -- After RespondPermission.
  abbrev pub delivered_reply :
      PermissionClaim → MutationResult PermissionResponseResult → Delivery → Db → Reply
  delivered_reply c r Delivery.indeterminate db = record {
    result = inl (ExecuteError.other "permission delivery is indeterminate");
    sent = some (c.permission_request_id, c.option_id);
    db = db;
  }
  delivered_reply c r (Delivery.undelivered e) db =
      let out =
        complete_permission c.permission_request_id c.operation_id false (wire.now 1)
          (permission_history sha256 wire.others db) in
      completed_reply c r (some e) out.0 out.1
  delivered_reply c r Delivery.delivered db =
      let out =
        complete_permission c.permission_request_id c.operation_id true (wire.now 1)
          (permission_history sha256 wire.others db) in
      completed_reply c r none out.0 out.1

  -- After ClaimPermission.
  abbrev pub claimed_reply :
      PermissionClaim → Result (MutationResult PermissionResponseResult × Bool) → Db → Reply
  claimed_reply c (err e) db = record { result = inl (as_error e); sent = none; db = db }
  claimed_reply c (ok (r, false)) db = record { result = inr r; sent = none; db = db }
  claimed_reply c (ok (r, true)) db =
      delivered_reply c r (wire.deliver c.permission_request_id c.option_id c.process_generation) db

  abbrev pub generation_reply : PermissionClaim → ExecuteError ⊎ ℕ → Db → Reply
  generation_reply c (inl e) db = record { result = inl e; sent = none; db = db }
  generation_reply c (inr generation) db =
      let claim : PermissionClaim = record c { process_generation = generation; at = wire.now 0 } in
      let out = claim_permission sha256 claim db in claimed_reply claim out.0 out.1

  unfoldable pub respond : PermissionClaim → Db → Reply
  respond c db = generation_reply c (wire.generation c.session_id) db

  -- What an answer does to the database after its claim keeps requests spent.
  completed-StaysSpent :
      (c : PermissionClaim) (r : MutationResult PermissionResponseResult) (e : Option ExecuteError)
      (out : Result (Unit {0})) (s db : Db)
      → StaysSpent s db
      → StaysSpent s (completed_reply c r e out db).db
  completed-StaysSpent c r e (err x) s db k = k
  completed-StaysSpent c r (some e) (ok a) s db k = k
  completed-StaysSpent c r none (ok a) s db k = k

  closed-StaysSpent :
      (c : PermissionClaim) (b : Bool) (db : Db)
      → StaysSpent db
          (complete_permission c.permission_request_id c.operation_id b
            (wire.now 1)
            (permission_history sha256 wire.others db)).1
  unfolding complete_permission
  closed-StaysSpent c b db =
      StaysSpent-order.joined db (permission_history sha256 wire.others db) _
        (spent_history sha256 wire.others db)
        (commit_at StaysSpent-order _
          (StaysSpent-complete_tx c.permission_request_id c.operation_id b (wire.now 1)) _)

  delivered-StaysSpent :
      (c : PermissionClaim) (r : MutationResult PermissionResponseResult) (d : Delivery) (db : Db)
      → StaysSpent db (delivered_reply c r d db).db
  delivered-StaysSpent c r Delivery.indeterminate db = StaysSpent-order.same db
  delivered-StaysSpent c r (Delivery.undelivered e) db =
      completed-StaysSpent c r (some e) _ db _ (closed-StaysSpent c false db)
  delivered-StaysSpent c r Delivery.delivered db =
      completed-StaysSpent c r none _ db _ (closed-StaysSpent c true db)

  -- An answer that was sent had a pending request, and leaves it spent.
  abbrev Answers : String → Db → Db → Type 0
  Answers id s t =
      (exists (λ p. has_request id p && is_pending p.state) s.permissions ≡ true) × Spent id t

  claimed_reply-Answers :
      (c : PermissionClaim) (s : Db) (out : Result (MutationResult PermissionResponseResult × Bool))
      (t : Db) {x : String × String}
      → claim_permission sha256 c s ≡ (out, t)
      → (claimed_reply c out t).sent ≡ some x
      → Answers c.permission_request_id s (claimed_reply c out t).db
  unfolding claim_permission
  claimed_reply-Answers c s (err e) t h k = absurd (cc)
  claimed_reply-Answers c s (ok (r, false)) t h k = absurd (cc)
  claimed_reply-Answers c s (ok (r, true)) t h k =
      let (pending, spent) =
        claimed-Spent sha256 c s (commit-eq-ok (claim_permission_tx sha256 c) s h) in
      (
        pending,
        (delivered-StaysSpent c r
              (wire.deliver c.permission_request_id c.option_id c.process_generation) t).at
            c.permission_request_id spent,
      )

  generation_reply-Answers :
      (c : PermissionClaim) (g : ExecuteError ⊎ ℕ) (s : Db) {x : String × String}
      → (generation_reply c g s).sent ≡ some x
      → Answers c.permission_request_id s (generation_reply c g s).db
  generation_reply-Answers c (inl e) s k = absurd (cc)
  generation_reply-Answers c (inr generation) s k =
      claimed_reply-Answers (record c { process_generation = generation; at = wire.now 0 }) s _ _
        refl k

  -- Two answers that were both sent to the agent, one after the other, were to different requests,
  -- whatever the wire reported and whatever permission requests came in between.
  pub respond-once :
      (c d : PermissionClaim) (s : Db) {x y : String × String} (between : List PermissionRequest)
      → (respond c s).sent ≡ some x
      → (respond d (permission_history sha256 between (respond c s).db)).sent ≡ some y
      → ¬ (d.permission_request_id ≡ c.permission_request_id)
  unfolding respond
  respond-once c d s between first second same =
      let (_, spent) = generation_reply-Answers c (wire.generation c.session_id) s first in
      let v = permission_history sha256 between (respond c s).db in
      let (pending, _) = generation_reply-Answers d (wire.generation d.session_id) v second in
      let (_, none_pending) =
        (spent_history sha256 between (respond c s).db).at c.permission_request_id spent in
      absurd (
        let k : exists (λ p. has_request d.permission_request_id p && is_pending p.state)
              v.permissions
            ≡ false =
          subst (λ i. exists (λ p. has_request i p && is_pending p.state) v.permissions ≡ false)
            (sym same) none_pending in
        cc)
