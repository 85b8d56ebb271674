-- ===== src/Execution/Accept/Targets.antt =====
-- Which checks a request targets: the two loops of AcceptExecutionJob.
use tejun.Prelude.{
  String, true, List, [], ◌∷◌, ◌++◌, ◌≡◌, refl, ◌==◌, ◌&&◌, ◌||◌, arith, eq_iff, mem_text,
  remove_text, mem_text-remove_text, inl, inr, map,
}
use tejun.Sql.Tx.{Result, ok, err}
use tejun.Sql.Keeps.{Result-cases}
use tejun.Sql.Table.{exists, select_where}
use tejun.Database.Rows.{Check}
use tejun.Execution.Accept.{is_runnable, target_checks}

-- The ids of the checks that wait or have failed.
abbrev pub runnable_ids : List Check → List String
runnable_ids cs =
    map (λ (c : Check). c.check_id) (select_where (λ (c : Check). is_runnable c.ai_status) cs)

-- One target more before those of the checks that follow.
abbrev add_target : String → Result (List String × List String) → Result (List String × List String)
add_target id (ok p) = ok (id ∷ p.0, p.1)
add_target id (err e) = err e

-- Without a selection, the targets are the checks that wait or have failed, in their order.
pub target_checks-nil : (cs : List Check) → target_checks [] cs ≡ ok (runnable_ids cs, [])
unfolding target_checks select_where mem_text remove_text
target_checks-nil [] = refl
target_checks-nil (c ∷ cs) = ground (arith, target_checks-nil cs)

-- Once the first checks have used up a selection, the targets are theirs and, though nothing more
-- was selected, every later check that waits or has failed.
pub target_checks-append :
    (selected : List String) (cs ds : List Check) {targets : List String}
    → target_checks selected cs ≡ ok (targets, [])
    → target_checks selected (cs ++ ds) ≡ ok (targets ++ runnable_ids ds, [])
unfolding target_checks
target_checks-append selected [] ds {targets} h =
    let none_left : selected ≡ [] = ground arith in
    let none_yet : targets ≡ [] = ground arith in rw (none_left, none_yet) (target_checks-nil ds)
target_checks-append selected (c ∷ cs) ds {targets} h =
    elim (Result-cases (target_checks (remove_text c.check_id selected) cs)) [
      | inl (p, e) ↦ ground (
        arith,
        target_checks-append (remove_text c.check_id selected) cs ds {targets = p.0},
        target_checks-append selected cs ds {targets = targets},
      )
      | inr (x, e) ↦ ground (arith, target_checks-append selected cs ds {targets = targets})
    ]

-- Every target is a check that waits or has failed.
targets_runnable :
    (selected : List String) (cs : List Check) {targets left : List String} (id : String)
    → target_checks selected cs ≡ ok (targets, left)
    → mem_text id targets ≡ true
    → exists (λ (c : Check). c.check_id == id && is_runnable c.ai_status) cs ≡ true
unfolding target_checks mem_text exists
targets_runnable selected [] {targets} id h m =
    let e : targets ≡ [] = ground arith in absurd (ground arith)
targets_runnable selected (c ∷ cs) {targets} {left} id h m =
    elim (Result-cases (target_checks (remove_text c.check_id selected) cs)) [
      | inl (p, e) ↦ ground (
        arith,
        targets_runnable (remove_text c.check_id selected) cs {targets = p.0} {left = p.1} id,
        targets_runnable selected cs {targets = targets} {left = left} id,
      )
      | inr (x, e) ↦
          ground (arith, targets_runnable selected cs {targets = targets} {left = left} id)
    ]

-- Every selected id is a target or is left.
selected_targeted :
    (selected : List String) (cs : List Check) {targets left : List String} (id : String)
    → target_checks selected cs ≡ ok (targets, left)
    → mem_text id selected ≡ true
    → (mem_text id targets || mem_text id left) ≡ true
unfolding target_checks mem_text
selected_targeted selected [] {targets} {left} id h m =
    let e : left ≡ selected = ground arith in rw (e, m) (ground arith)
selected_targeted selected (c ∷ cs) {targets} {left} id h m =
    elim (Result-cases (target_checks (remove_text c.check_id selected) cs)) [
      | inl (p, e) ↦ ground (
        arith,
        selected_targeted (remove_text c.check_id selected) cs {targets = p.0} {left = p.1} id,
        selected_targeted selected cs {targets = targets} {left = left} id,
        mem_text-remove_text id c.check_id selected,
        eq_iff c.check_id id,
      )
      | inr (x, e) ↦
          ground (arith, selected_targeted selected cs {targets = targets} {left = left} id)
    ]

-- When the loop uses its selection up, its targets are all runnable, and every selected id is one.
pub target_checks_sound :
    (selected : List String) (cs : List Check) {targets : List String} (id : String)
    → target_checks selected cs ≡ ok (targets, [])
    → (mem_text id targets ≡ true
        → exists (λ (c : Check). c.check_id == id && is_runnable c.ai_status) cs ≡ true)
      × (mem_text id selected ≡ true → mem_text id targets ≡ true)
unfolding mem_text
target_checks_sound selected cs id h =
    (targets_runnable selected cs id h, λ m. ground (arith, selected_targeted selected cs id h m))
