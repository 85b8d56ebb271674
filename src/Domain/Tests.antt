-- ===== src/Domain/Tests.antt =====
-- The rules of internal/domain and of the trace at concrete values.
use tejun.Prelude.{
  ℕ, String, true, false, none, [], ◌∷◌, ◌≡◌, refl, ◌≢◌, ◌==◌, ◌↔◌, ◌⊎◌, ◌≤◌, ◌<◌, Memᴰ,
  byte_length,
}
use tejun.Sql.Table.{exists}
use tejun.Domain.Readiness.{
  Check, Snapshot, CheckDone, readiness, check_reasons, readiness-CheckDone,
}
use tejun.Domain.Integrity.{Document, evaluate}
use tejun.Domain.Integrity.Valid.{WellFormed, evaluate-WellFormed}
use tejun.Domain.Connection.{AuthState, Probe, NeedsNoMore, can_complete, can_complete-until}
use tejun.Trace.{IsSpelled, safe_id, safe_id-IsSpelled}

abbrev photo_check : Check
photo_check = record {
  id = "c1";
  ai_required = true;
  human_required = true;
  ai_status = "completed";
  human_status = "completed";
  human_evidence_requirement = "text_or_image";
  evidence = record { actor = "human"; kind = "image"; status = "available" } ∷ [];
}

abbrev snapshot : Snapshot
snapshot = record { status = "active"; checks = photo_check ∷ [] }

-- Without its evidence the check is not done.
lacking :
    (readiness (record snapshot { checks = record photo_check { evidence = [] } ∷ [] })).0 ≡ false
unfolding readiness check_reasons exists
lacking = refl

readiness-CheckDone_example : ((readiness snapshot).0 ≡ true) ↔ (
    (snapshot.status ≡ "active")
    × (snapshot.checks ≢ [])
    × ((c : Check) → Memᴰ c snapshot.checks → CheckDone c))
readiness-CheckDone_example = readiness-CheckDone snapshot

abbrev document : Document
document = record {
  title = "手順";
  overview = "";
  prerequisites = [];
  steps =
      record {
        id = "";
        client_key = "one";
        title = "実行";
        description = "";
        command = "";
        notes = [];
        evidence_refs = record { evidence_id = "v1"; display_name = ""; included = true } ∷ [];
      }
      ∷ [];
}

evaluate-WellFormed_example :
    (((evaluate document ("v1" ∷ [])).status == "valid") ≡ true) ↔ WellFormed document ("v1" ∷ [])
evaluate-WellFormed_example = evaluate-WellFormed document ("v1" ∷ [])

abbrev probe : Probe
probe = record {
  config_fingerprint = "f1";
  compatibility = "compatible";
  auth_state = AuthState.not_required;
  expires_at = 60;
}

passed : can_complete probe 30 "f1" ≡ none
unfolding can_complete
passed = refl

can_complete-until_example :
    ((later : ℕ) (other : String)
      → (can_complete probe later other ≡ none) ↔ ((later < probe.expires_at) × (other ≡ "f1")))
    × (probe.compatibility ≡ "compatible")
    × NeedsNoMore probe.auth_state
can_complete-until_example = can_complete-until probe 30 "f1" passed

safe_id-IsSpelled_example :
    ((safe_id "/home/me" ≡ "/home/me") × (byte_length "/home/me" ≤ 128) × IsSpelled "/home/me")
    ⊎ ((safe_id "/home/me" ≡ "[redacted]")
        × ¬ ((byte_length "/home/me" ≤ 128) × IsSpelled "/home/me"))
safe_id-IsSpelled_example = safe_id-IsSpelled "/home/me"
