-- ===== src/Execution/Complete/Results.antt =====
-- When the results of a run count: the loop of CompleteExecutionJob against a description of it.
use tejun.Prelude.{
  String, Bool, true, false, List, [], ◌∷◌, ◌≡◌, refl, ◌==◌, ◌&&◌, not, arith, is_empty, length,
  eq_iff, eq_refl, mem_text, remove_text, mem_text-remove_text, remove_text-IsDistinct,
  length-remove_text, IsDistinct, ◌↔◌, ◌≢◌, map, is_blank,
}
use tejun.Execution.Statements.{ExecutionCheckResult}
use tejun.Execution.Checks.{bad_status}
use tejun.Execution.Complete.{review, judge}

abbrev pub result_ids : List ExecutionCheckResult → List String
result_ids items = map (λ (i : ExecutionCheckResult). i.check_id) items

-- Each result has evidence and one of the two states.
abbrev pub AllWellFormed : List ExecutionCheckResult → Type 0
AllWellFormed [] = Unit
AllWellFormed (i ∷ items) =
    (is_blank i.evidence ≡ false) × (bad_status i ≡ false) × AllWellFormed items

abbrev pub all_completed : List ExecutionCheckResult → Bool
all_completed [] = true
all_completed (i ∷ items) = not (i.status == "failed") && all_completed items

-- The results are one for each expected check, and each is well formed.
pub record Answered (expected : List String) (items : List ExecutionCheckResult) : Type 0 where
  pub once : IsDistinct (result_ids items)
  pub exact : (id : String) → mem_text id (result_ids items) ≡ mem_text id expected
  pub well_formed : AllWellFormed items

nothing_expected :
    (expected : List String)
    → is_empty expected ≡ true
    → (id : String) → mem_text id [] ≡ mem_text id expected
nothing_expected [] h id = refl
nothing_expected (x ∷ xs) h id = absurd (cc)

review-Answered :
    (expected : List String) (items : List ExecutionCheckResult)
    → (review expected items).valid ≡ true
    → Answered expected items
unfolding review mem_text
review-Answered expected [] h = record {
  once = tt;
  exact = nothing_expected expected (ground arith);
  well_formed = tt;
}
review-Answered expected (i ∷ items) h =
    let rest = review-Answered (remove_text i.check_id expected) items (ground arith) in
    record {
      once = (
        ground (
          arith,
          rest.exact i.check_id,
          mem_text-remove_text i.check_id i.check_id expected,
          eq_refl i.check_id,
        ),
        rest.once,
      );
      exact = λ id.
          ground (
            arith,
            rest.exact id,
            mem_text-remove_text id i.check_id expected,
            eq_iff i.check_id id,
          );
      well_formed = (ground arith, ground arith, rest.well_formed);
    }

Answered-tail :
    (expected : List String) (i : ExecutionCheckResult) (items : List ExecutionCheckResult)
    → Answered expected (i ∷ items)
    → Answered (remove_text i.check_id expected) items
unfolding mem_text
Answered-tail expected i items a = record {
  once = a.once.1;
  exact = λ id. ground (
    arith,
    a.exact id,
    a.once.0,
    mem_text-remove_text id i.check_id expected,
    eq_iff i.check_id id,
  );
  well_formed = a.well_formed.2;
}

Answered-review :
    (expected : List String) (items : List ExecutionCheckResult)
    → Answered expected items
    → ((review expected items).valid ≡ true)
      × ((review expected items).succeeded ≡ all_completed items)
unfolding review mem_text
Answered-review [] [] a = (refl, refl)
Answered-review (x ∷ xs) [] a = absurd (ground (arith, a.exact x, eq_refl x))
Answered-review expected (i ∷ items) a =
    let (valid, succeeded) =
      Answered-review (remove_text i.check_id expected) items (Answered-tail expected i items a) in
    ground (arith, a.exact i.check_id, eq_refl i.check_id, a.well_formed.0, a.well_formed.1)

Answered-length :
    (expected : List String) (items : List ExecutionCheckResult)
    → IsDistinct expected
    → Answered expected items
    → length items ≡ length expected
unfolding mem_text
Answered-length [] [] d a = refl
Answered-length (x ∷ xs) [] d a = absurd (ground (arith, a.exact x, eq_refl x))
Answered-length expected (i ∷ items) d a =
    let found : mem_text i.check_id expected ≡ true =
      ground (arith, a.exact i.check_id, eq_refl i.check_id) in
    let rest = remove_text i.check_id expected in
    omega (
      arith,
      length-remove_text i.check_id expected d found,
      Answered-length rest items (remove_text-IsDistinct i.check_id expected d)
          (Answered-tail expected i items a),
    )

-- The results of a run count exactly when the run has checks and they are one well-formed result
-- for each of its checks; then the job is completed exactly when no result is a failure.
pub judge-Answered :
    (expected : List String) (items : List ExecutionCheckResult)
    → IsDistinct expected
    → (((judge expected items).valid ≡ true) ↔ ((expected ≢ []) × Answered expected items))
      × ((judge expected items).valid ≡ true
          → (judge expected items).succeeded ≡ all_completed items)
unfolding judge
judge-Answered [] items d = ((λ h. absurd (cc), λ h. absurd (h.0 refl)), λ h. absurd (cc))
judge-Answered (x ∷ xs) items d = (
  (
    λ h. (λ e. absurd (cc), review-Answered (x ∷ xs) items (ground arith)),
    λ h. ground (arith, Answered-review (x ∷ xs) items h.1, Answered-length (x ∷ xs) items d h.1),
  ),
  λ h.
      ground
        (arith, Answered-review (x ∷ xs) items (review-Answered (x ∷ xs) items (ground arith))),
)
