-- ===== src/Procedure/Revision/Outcomes.antt =====
-- What FinishProcedureRevision can make of a revision.
use tejun.Prelude.{◌≡◌, refl, ℕ, String, Bool, true, false, Option, none, some, if◌then◌else◌}
use tejun.Sql.Tx.{pure}
use tejun.Sql.Yields.{Yields, Yields-pure, yields_rules}
use tejun.Database.{Db}
use tejun.Database.Time.{Time}
use tejun.Database.Rows.{JobState}
use tejun.Domain.Integrity.{Document}
use tejun.Procedure.Codec.{Json}
use tejun.Procedure.Statements.{is_pending}
use tejun.Procedure.Revision.Claim.{ClaimedProcedureRevision}
use tejun.Procedure.Revision.Finish.{
  Outcome, revision_lost, adopt, examine, examine_decoded, outcome_of,
}

-- A revision that is pending no more.
pub record IsEnded (o : Outcome) : Type 0 where
  pub at : is_pending o.0 ≡ false

failed-IsEnded : (code : String) → Yields {S = Db} IsEnded (pure (JobState.failed, code))
failed-IsEnded code = Yields-pure _ (record { at = refl })

cancelled-IsEnded : (code : String) → Yields {S = Db} IsEnded (pure (JobState.cancelled, code))
cancelled-IsEnded code = Yields-pure _ (record { at = refl })

adopted-IsEnded :
    (b : Bool)
    → Yields {S = Db} IsEnded (pure (if b then (JobState.completed, "") else revision_lost))
adopted-IsEnded true = Yields-pure _ (record { at = refl })
adopted-IsEnded false = Yields-pure _ (record { at = refl })

ruleset endings = (yields_rules, failed-IsEnded, cancelled-IsEnded, adopted-IsEnded)

module _ (json : Json) (job : ClaimedProcedureRevision) where
  adopt-IsEnded : (d : Document) (at : Time) → Yields IsEnded (adopt json job d at)
  unfolding adopt
  adopt-IsEnded d at = search endings depth 12

  examine-IsEnded :
      (answer : String) (d : Document) (at : Time) → Yields IsEnded (examine json job answer d at)
  unfolding examine
  examine-IsEnded answer d at = search (endings, adopt-IsEnded) depth 12

  examine_decoded-IsEnded :
      (answer : String) (d : Option Document) (at : Time)
      → Yields IsEnded (examine_decoded json job answer d at)
  examine_decoded-IsEnded answer none at = search endings
  examine_decoded-IsEnded answer (some d) at = examine-IsEnded answer d at

  pub outcome_of-IsEnded :
      (answer : String) (failed : Bool) (at : Time) (state : JobState) (n : ℕ)
      → Yields IsEnded (outcome_of json job answer failed at state n)
  unfolding outcome_of
  outcome_of-IsEnded answer failed at state n = search (endings, examine_decoded-IsEnded) depth 12
