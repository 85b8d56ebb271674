-- ===== src/Permission/Tests.antt =====
-- Two permission requests of one agent, and answers to them.
use tejun.Prelude.{String, true, none, some, List, [], ◌∷◌, ◌≡◌, refl, inr}
use tejun.Sql.Tx.{ok}
use tejun.Database.{Db}
use tejun.Database.Rows.{PermissionState, Permission}
use tejun.Sql.Table.{delete_where}
use tejun.Execution.Complete.{ExecuteError}
use tejun.Execution.Tests.{noon, later, start, plain_hash}
use tejun.Execution.Tests.Program.{program}
use tejun.Permission.Claims.{
  PermissionClaim, admit_claim, take_pending, claim_new, claim_permission_tx, claim_permission,
  responding_result,
}
use tejun.Permission.Answers.{
  close_responding, store_sent, complete_permission_tx, complete_permission,
}
use tejun.Permission.Spent.{PermissionRequest, permission_history}
use tejun.Permission.Once.{claim_permission-once}
use tejun.Permission.Respond.{Delivery, Wire, respond, respond-once}

abbrev request : String → Permission
request id = record {
  permission_request_id = id;
  execution_id = "e1";
  session_id = "s1";
  run_id = "r1";
  options =
      record { id = "allow"; name = "Allow"; kind = "allow_once" }
      ∷ record { id = "deny"; name = "Deny"; kind = "reject_once" }
      ∷ [];
  process_generation = 4;
  state = PermissionState.pending;
  selected_option_id = none;
  requested_at = "2026-09-26T12:00:00Z";
  expires_at = some later;
  responded_at = none;
}

abbrev asking : Db
asking = record start { permissions = request "q1" ∷ request "q2" ∷ [] }

abbrev answer : String → String → PermissionClaim
answer id operation_id = record {
  session_id = "s1";
  permission_request_id = id;
  option_id = "allow";
  operation_id = operation_id;
  process_generation = 4;
  at = noon;
}

abbrev first_claimed : Db
first_claimed = (claim_permission plain_hash (answer "q1" "o1") asking).1

abbrev between : List PermissionRequest
between = PermissionRequest.complete "q1" "o1" true noon ∷ []

abbrev second_claimed : Db
second_claimed =
    (claim_permission plain_hash (answer "q2" "o2")
      (permission_history plain_hash between first_claimed)).1

unfoldable answers_program : Unit {0}
unfolding program admit_claim take_pending claim_new claim_permission_tx claim_permission
    close_responding store_sent complete_permission_tx complete_permission respond delete_where
answers_program = tt

first_claim :
    claim_permission plain_hash (answer "q1" "o1") asking
    ≡ (ok (responding_result (answer "q1" "o1"), true), first_claimed)
unfolding answers_program
first_claim = refl

second_claim :
    claim_permission plain_hash
      (answer "q2" "o2")
      (permission_history plain_hash between first_claimed)
    ≡ (ok (responding_result (answer "q2" "o2"), true), second_claimed)
unfolding answers_program
second_claim = refl

-- The same request once more, with another operation id.
refused_claim :
    (claim_permission plain_hash
      (answer "q1" "o3")
      (permission_history plain_hash between first_claimed)).1
    ≡ permission_history plain_hash between first_claimed
unfolding answers_program
refused_claim = refl

claim_permission-once_example :
    ¬ ((answer "q2" "o2").permission_request_id ≡ (answer "q1" "o1").permission_request_id)
claim_permission-once_example =
    claim_permission-once plain_hash (answer "q1" "o1") (answer "q2" "o2") asking between
      first_claim second_claim

-- A wire on which every answer is lost.
abbrev wire : Wire
wire = record {
  generation = λ s. inr 4;
  deliver = λ id option n. Delivery.undelivered (ExecuteError.other "closed");
  now = λ n. noon;
  others = [];
  error_text = λ e. "";
}

first_sent : (respond plain_hash wire (answer "q1" "o1") asking).sent ≡ some ("q1", "allow")
unfolding answers_program
first_sent = refl

second_sent :
    (respond plain_hash wire (answer "q2" "o2") (
      permission_history plain_hash [] (respond plain_hash wire (answer "q1" "o1") asking).db)).sent
    ≡ some ("q2", "allow")
unfolding answers_program
second_sent = refl

respond-once_example :
    ¬ ((answer "q2" "o2").permission_request_id ≡ (answer "q1" "o1").permission_request_id)
respond-once_example =
    respond-once plain_hash wire (answer "q1" "o1") (answer "q2" "o2") asking [] first_sent
      second_sent
