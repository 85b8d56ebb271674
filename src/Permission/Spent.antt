-- ===== src/Permission/Spent.antt =====
-- Histories of permission requests, and what they keep: a request that is no longer pending stays so.
use tejun.Prelude.{
  ℕ, String, Bool, true, false, Option, List, [], ◌∷◌, ◌++◌, ◌&&◌, ◌≡◌, refl, ◌∙◌, subst, arith,
  inl, inr, Bool-cases, eq_iff,
}
use tejun.Sql.Tx.{ok, modify, ◌>>=◌}
use tejun.Sql.Keeps.{
  IsPreorder, Keeps, Keeps-modify, Keeps-bind, Keeps-require, Keeps-pure, commit_at, keeps_rules,
}
use tejun.Sql.Table.{update_where, exists, exists-append, exists-update_where, insert_row}
use tejun.Database.{Db}
use tejun.Database.Time.{Time}
use tejun.Database.Rows.{Permission}
use tejun.Database.Ledger.{MutationResult, OutboxEvent, Receipt, Stored}
use tejun.Execution.Statements.{execution_key}
use tejun.Mutation.{existing_result, next_sequence, insert_outbox, insert_receipt}
use tejun.Permission.Claims.{
  IncomingPermission, PermissionClaim, is_pending, has_request, update_permissions,
  insert_permission, pending_row, register_tx, register_permission, admit_claim, take_pending,
  claim_new, claim_permission_tx, claim_permission,
}
use tejun.Permission.Answers.{
  answer_state, close_responding, store_sent, complete_permission_tx, complete_permission,
  fail_permission, fail_interrupted_tx, fail_interrupted_permissions,
}

-- The methods of PermissionRepository, and histories of them.
pub data PermissionRequest : Type 0 where
  register : IncomingPermission → PermissionRequest
  claim : PermissionClaim → PermissionRequest
  complete : String → String → Bool → Time → PermissionRequest
  fail_interrupted : Time → PermissionRequest

abbrev pub perform_permission : (String → String) → PermissionRequest → Db → Db
perform_permission sha256 (PermissionRequest.register i) db = (register_permission i db).1
perform_permission sha256 (PermissionRequest.claim c) db = (claim_permission sha256 c db).1
perform_permission sha256 (PermissionRequest.complete r o b at) db =
    (complete_permission r o b at db).1
perform_permission sha256 (PermissionRequest.fail_interrupted at) db =
    (fail_interrupted_permissions at db).1

abbrev pub permission_history : (String → String) → List PermissionRequest → Db → Db
permission_history sha256 [] db = db
permission_history sha256 (q ∷ qs) db =
    permission_history sha256 qs (perform_permission sha256 q db)

-- The request is known, and no longer pending.
abbrev pub Spent : String → Db → Type 0
Spent id s =
    (exists (has_request id) s.permissions ≡ true)
    × (exists (λ p. has_request id p && is_pending p.state) s.permissions ≡ false)

pub record StaysSpent (s t : Db) : Type 0 where
  pub at : (id : String) → Spent id s → Spent id t

pub StaysSpent-order : IsPreorder StaysSpent
StaysSpent-order = record {
  same = λ s. record { at = λ id h. h };
  joined = λ s t u p q. record { at = λ id h. q.at id (p.at id h) };
}

StaysSpent-aside :
    (f : Db → Db) → ((s : Db) → (f s).permissions ≡ s.permissions) → Keeps StaysSpent (modify f)
StaysSpent-aside f e = Keeps-modify f (λ s. record { at = λ id h. rw (e s) h })

-- An UPDATE that makes no row pending.
none_made_pending :
    (id : String) (p : Permission → Bool) (f : Permission → Permission) (rows : List Permission)
    → ((r : Permission) → has_request id (f r) ≡ has_request id r)
    → ((r : Permission) → is_pending (f r).state ≡ false)
    → exists (λ r. has_request id r && is_pending r.state) rows ≡ false
    → exists (λ r. has_request id r && is_pending r.state) (update_where p f rows) ≡ false
unfolding exists update_where
none_made_pending id p f [] same never h = refl
none_made_pending id p f (r ∷ rows) same never h =
    ground (arith, same r, never r, none_made_pending id p f rows same never)

StaysSpent-update :
    (p : Permission → Bool) (f : Permission → Permission)
    → ((id : String) (r : Permission) → has_request id (f r) ≡ has_request id r)
    → ((r : Permission) → is_pending (f r).state ≡ false)
    → Keeps StaysSpent (update_permissions p f)
StaysSpent-update p f same never = Keeps-modify _ (λ s. record {
  at = λ id h. (
    exists-update_where (has_request id) p f s.permissions (same id) ∙ h.0,
    none_made_pending id p f s.permissions (same id) never h.1,
  );
})

StaysSpent-next_sequence : Keeps StaysSpent next_sequence
unfolding next_sequence
StaysSpent-next_sequence = search (keeps_rules, StaysSpent-order, StaysSpent-aside)

insert_permission-eq-ok :
    (i : IncomingPermission) (s : Db) {a : Unit {0}} {t : Db}
    → insert_permission i s ≡ ok (a, t)
    → (exists (has_request i.id) s.permissions ≡ false)
      × (t ≡ record s { permissions = s.permissions ++ pending_row i ∷ [] })
unfolding insert_permission ◌>>=◌ insert_row execution_key
insert_permission-eq-ok i s h = ground arith

-- A new row has an id that none has, so no spent request comes back.
appended-Spent :
    (id : String) (p : Permission) (rows : List Permission)
    → exists (has_request p.permission_request_id) rows ≡ false
    → exists (has_request id) rows ≡ true
    → has_request id p ≡ false
appended-Spent id p rows fresh known = elim (Bool-cases (has_request id p)) [
  | inr e ↦ e
  | inl e ↦ absurd (
      let same = (eq_iff _ _).0 e in
      let f : exists (has_request id) rows ≡ false =
        subst (λ x. exists (has_request x) rows ≡ false) same fresh in
      cc)
]

StaysSpent-insert_permission : (i : IncomingPermission) → Keeps StaysSpent (insert_permission i)
unfolding exists
StaysSpent-insert_permission i = record {
  at = λ s a t h.
      let (fresh, after) = insert_permission-eq-ok i s h in
      rw after (record {
        at = λ id k.
            let other = appended-Spent id (pending_row i) s.permissions fresh k.0 in
            (
              exists-append (has_request id) s.permissions (pending_row i ∷ []) ∙ rw k.0 refl,
              exists-append (λ p. has_request id p && is_pending p.state) s.permissions
                    (pending_row i ∷ [])
                  ∙ rw (k.1, other) refl,
            );
      });
}

StaysSpent-insert_outbox : (e : OutboxEvent) (n : ℕ) → Keeps StaysSpent (insert_outbox e n)
unfolding insert_outbox
StaysSpent-insert_outbox e n = search (keeps_rules, StaysSpent-order, StaysSpent-aside)

pub StaysSpent-insert_receipt : (r : Receipt) → Keeps StaysSpent (insert_receipt r)
unfolding insert_receipt
StaysSpent-insert_receipt r = search (keeps_rules, StaysSpent-order, StaysSpent-aside)

StaysSpent-existing_result :
    {T : Type 0} (decode : Stored → Option (MutationResult T)) (scope operation_id hash : String)
    → Keeps StaysSpent (existing_result decode scope operation_id hash)
unfolding existing_result
StaysSpent-existing_result decode scope operation_id hash = search (keeps_rules, StaysSpent-order)

ruleset tx_rules = (
  keeps_rules, StaysSpent-next_sequence, StaysSpent-insert_permission, StaysSpent-insert_outbox,
  StaysSpent-insert_receipt, StaysSpent-existing_result,
)

StaysSpent-register_tx : (i : IncomingPermission) → Keeps StaysSpent (register_tx i)
unfolding register_tx
StaysSpent-register_tx i = search (tx_rules, StaysSpent-order) depth 15

StaysSpent-admit_claim : (c : PermissionClaim) (p : Permission) → Keeps StaysSpent (admit_claim c p)
unfolding admit_claim
StaysSpent-admit_claim c p = search (tx_rules, StaysSpent-order)

StaysSpent-take_pending : (c : PermissionClaim) → Keeps StaysSpent (take_pending c)
unfolding take_pending
StaysSpent-take_pending c = StaysSpent-update _ _ (λ id r. refl) (λ r. refl)

StaysSpent-claim_tx :
    (sha256 : String → String) (c : PermissionClaim)
    → Keeps StaysSpent (claim_permission_tx sha256 c)
unfolding claim_permission_tx claim_new
StaysSpent-claim_tx sha256 c =
    search (tx_rules, StaysSpent-order, StaysSpent-admit_claim, StaysSpent-take_pending) depth 20

answer_state-ended : (b : Bool) → is_pending (answer_state b) ≡ false
answer_state-ended true = refl
answer_state-ended false = refl

StaysSpent-close_responding :
    (id : String) (b : Bool) (at : Time)
    → Keeps StaysSpent (close_responding id (answer_state b) at)
unfolding close_responding
StaysSpent-close_responding id b at =
    Keeps-bind StaysSpent-order _ _ (Keeps-require StaysSpent-order _ _) (λ p.
      Keeps-bind StaysSpent-order _ _
        (StaysSpent-update _ _ (λ i r. refl) (λ r. answer_state-ended b))
        (λ _. Keeps-pure StaysSpent-order p))

StaysSpent-store_sent : (r o p : String) (at : Time) → Keeps StaysSpent (store_sent r o p at)
unfolding store_sent
StaysSpent-store_sent r o p at = search (tx_rules, StaysSpent-order, StaysSpent-aside)

pub StaysSpent-complete_tx :
    (r o : String) (b : Bool) (at : Time) → Keeps StaysSpent (complete_permission_tx r o b at)
unfolding complete_permission_tx
StaysSpent-complete_tx r o b at =
    search
      (
        tx_rules, StaysSpent-order, StaysSpent-aside, StaysSpent-close_responding,
        StaysSpent-store_sent,
      )
      depth 20

StaysSpent-fail_permission : (at : Time) (p : Permission) → Keeps StaysSpent (fail_permission at p)
unfolding fail_permission
StaysSpent-fail_permission at p =
    Keeps-bind StaysSpent-order _ _ (StaysSpent-update _ _ (λ i r. refl) (λ r. refl))
      (λ _. search (tx_rules, StaysSpent-order, StaysSpent-aside))

StaysSpent-fail_interrupted_tx : (at : Time) → Keeps StaysSpent (fail_interrupted_tx at)
unfolding fail_interrupted_tx
StaysSpent-fail_interrupted_tx at = search (tx_rules, StaysSpent-order, StaysSpent-fail_permission)

pub spent_history :
    (sha256 : String → String) (qs : List PermissionRequest) (s : Db)
    → StaysSpent s (permission_history sha256 qs s)
unfolding register_permission claim_permission complete_permission fail_interrupted_permissions
spent_history sha256 [] s = StaysSpent-order.same s
spent_history sha256 (PermissionRequest.register i ∷ qs) s =
    StaysSpent-order.joined s _ _ (commit_at StaysSpent-order _ (StaysSpent-register_tx i) s)
      (spent_history sha256 qs _)
spent_history sha256 (PermissionRequest.claim c ∷ qs) s =
    StaysSpent-order.joined s _ _ (commit_at StaysSpent-order _ (StaysSpent-claim_tx sha256 c) s)
      (spent_history sha256 qs _)
spent_history sha256 (PermissionRequest.complete r o b at ∷ qs) s =
    StaysSpent-order.joined s _ _ (commit_at StaysSpent-order _ (StaysSpent-complete_tx r o b at) s)
      (spent_history sha256 qs _)
spent_history sha256 (PermissionRequest.fail_interrupted at ∷ qs) s =
    StaysSpent-order.joined s _ _
      (commit_at StaysSpent-order _ (StaysSpent-fail_interrupted_tx at) s)
      (spent_history sha256 qs _)
