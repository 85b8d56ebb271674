-- ===== src/Permission/Once.antt =====
-- A permission request is claimed for an answer once.
use tejun.Prelude.{
  String, Bool, true, false, some, List, [], ◌∷◌, ◌==◌, ◌&&◌, ◌≡◌, refl, ◌∙◌, sym, ap, subst, arith,
  inl, inr, and_left,
}
use tejun.Sql.Tx.{ok, pure, ◌>>=◌}
use tejun.Sql.Keeps.{Keeps-bind, Keeps-pure, >>=-eq-ok}
use tejun.Sql.Commit.{require-eq-ok, commit-eq-ok, pure-eq-ok, modify-eq-ok}
use tejun.Sql.Table.{update_where, exists, find, find-Memᴰ, exists-true, exists-update_where}
use tejun.Database.{Db}
use tejun.Database.Rows.{Permission}
use tejun.Database.Ledger.{MutationResult, PermissionResponseResult}
use tejun.Mutation.Receipts.{once-eq-ok}
use tejun.Permission.Claims.{
  as_permission_response, PermissionClaim, is_pending, has_request, admit_claim, take_pending,
  claim_new, claim_permission_tx, claim_permission,
}
use tejun.Permission.Spent.{
  PermissionRequest, permission_history, Spent, StaysSpent-order, StaysSpent-insert_receipt,
  spent_history,
}

-- The UPDATE of a claim leaves no pending row of the request.
none_left_pending :
    (id : String) (f : Permission → Permission) (rows : List Permission)
    → ((r : Permission) → is_pending (f r).state ≡ false)
    → exists
        (λ r. has_request id r && is_pending r.state)
        (update_where (λ r. has_request id r && is_pending r.state) f rows)
      ≡ false
unfolding exists update_where
none_left_pending id f [] never = refl
none_left_pending id f (r ∷ rows) never = ground (arith, never r, none_left_pending id f rows never)

admit_claim-pending :
    (c : PermissionClaim) (p : Permission) (s : Db) {a : Unit {0}} {t : Db}
    → admit_claim c p s ≡ ok (a, t)
    → (is_pending p.state ≡ true) × (t ≡ s)
unfolding admit_claim ◌>>=◌
admit_claim-pending c p s h = ground arith

pending_known :
    (id session_id : String) (rows : List Permission) (p : Permission)
    → find (λ (q : Permission). has_request id q && q.session_id == session_id) rows ≡ some p
    → is_pending p.state ≡ true
    → (exists (λ r. has_request id r && is_pending r.state) rows ≡ true)
      × (exists (has_request id) rows ≡ true)
pending_known id session_id rows p found pending =
    let (m, both) =
      find-Memᴰ (λ (q : Permission). has_request id q && q.session_id == session_id) rows found in
    let same = and_left (has_request id p) _ both in
    (
      exists-true (λ r. has_request id r && is_pending r.state) rows m (rw (same, pending) refl),
      exists-true (has_request id) rows m same,
    )

take_pending-Spent :
    (c : PermissionClaim) (s : Db) {a : Unit {0}} {t : Db}
    → take_pending c s ≡ ok (a, t)
    → exists (has_request c.permission_request_id) s.permissions ≡ true
    → Spent c.permission_request_id t
unfolding take_pending
take_pending-Spent c s h known = rw (modify-eq-ok _ s h) (
  exists-update_where (has_request c.permission_request_id) _ _ s.permissions (λ r. refl) ∙ known,
  none_left_pending c.permission_request_id _ s.permissions (λ r. refl),
)

-- A claim that is to be answered found a pending row, and leaves its request spent.
claim_new-Spent :
    (sha256 : String → String) (c : PermissionClaim) (s : Db)
    {v : MutationResult PermissionResponseResult × Bool} {t : Db}
    → claim_new sha256 c s ≡ ok (v, t)
    → (exists (λ p. has_request c.permission_request_id p && is_pending p.state) s.permissions
        ≡ true)
      × Spent c.permission_request_id t
unfolding claim_new
claim_new-Spent sha256 c s {t = t} h =
    let (p, s1, h1, k1) = >>=-eq-ok _ _ s h in
    let (_, s2, h2, k2) = >>=-eq-ok _ _ s1 k1 in
    let (_, s3, h3, k3) = >>=-eq-ok _ _ s2 k2 in
    let (found, e1) = require-eq-ok _ _ s h1 in
    let (pending, e2) = admit_claim-pending c p s1 h2 in
    let (some_pending, known) =
      pending_known c.permission_request_id c.session_id s.permissions p found pending in
    let spent = take_pending-Spent c s2 h3 (
      subst (λ (d : Db). exists (has_request c.permission_request_id) d.permissions ≡ true)
        (sym (e2 ∙ e1)) known) in
    let rest =
      Keeps-bind StaysSpent-order _ _ (StaysSpent-insert_receipt _)
        (λ _. Keeps-pure StaysSpent-order _) in
    (some_pending, (rest.at s3 _ t k3).at c.permission_request_id spent)

pub claimed-Spent :
    (sha256 : String → String) (c : PermissionClaim) (s : Db)
    {r : MutationResult PermissionResponseResult} {t : Db}
    → claim_permission_tx sha256 c s ≡ ok ((r, true), t)
    → (exists (λ p. has_request c.permission_request_id p && is_pending p.state) s.permissions
        ≡ true)
      × Spent c.permission_request_id t
unfolding claim_permission_tx
claimed-Spent sha256 c s h =
    elim (once-eq-ok as_permission_response _ c.operation_id _ (λ w. pure (w, false))
      (claim_new sha256 c) s h) [
        | inl (w, answered, p) ↦
            absurd (let (same, _) = pure-eq-ok _ s p in let no_answer = ap (λ x. x.1) same in cc)
        | inr p ↦ claim_new-Spent sha256 c s p
      ]

-- Once a claim got leave to answer a permission request, no later claim gets leave to answer the same
-- request, with whatever option, whatever registrations, claims, completions and start-ups came in
-- between: the agent is answered once.
pub claim_permission-once :
    (sha256 : String → String) (c d : PermissionClaim) (s : Db)
    {r q : MutationResult PermissionResponseResult} {t u : Db} (between : List PermissionRequest)
    → claim_permission sha256 c s ≡ (ok (r, true), t)
    → claim_permission sha256 d (permission_history sha256 between t) ≡ (ok (q, true), u)
    → ¬ (d.permission_request_id ≡ c.permission_request_id)
unfolding claim_permission
claim_permission-once sha256 c d s {t = t} between first second same =
    let (_, spent) =
      claimed-Spent sha256 c s (commit-eq-ok (claim_permission_tx sha256 c) s first) in
    let v = permission_history sha256 between t in
    let (pending, _) =
      claimed-Spent sha256 d v (commit-eq-ok (claim_permission_tx sha256 d) v second) in
    let (_, none_pending) = (spent_history sha256 between t).at c.permission_request_id spent in
    absurd (
      let k : exists (λ p. has_request d.permission_request_id p && is_pending p.state)
            v.permissions
          ≡ false =
        subst (λ x. exists (λ p. has_request x p && is_pending p.state) v.permissions ≡ false)
          (sym same) none_pending in
      cc)
