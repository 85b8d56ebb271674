-- ===== src/Procedure/Sound/Completion.antt =====
-- CompleteProcedure completes the document that it tested, and histories of all requests.
use tejun.Prelude.{
  ◌≡◌, refl, ◌∙◌, sym, ap, ℕ, String, false, some, List, Memᴰ, arith, ◌==◌, eq_iff, subst,
}
use tejun.Sql.Tx.{ok}
use tejun.Sql.Keeps.{Keeps, >>=-eq-ok, Keeps-bind, Keeps-pure}
use tejun.Sql.Commit.{require-eq-ok, gets-eq-ok, fail_if-eq-ok, attempt-eq-ok, modify-eq-ok}
use tejun.Sql.Table.{find-Memᴰ}
use tejun.Database.{Db}
use tejun.Database.Rows.{Procedure, Project}
use tejun.Database.Ledger.{MutationResult, ProcedureCompleted}
use tejun.Domain.Integrity.{Document, evaluate}
use tejun.Procedure.Codec.{Json}
use tejun.Procedure.Statements.{is_draft_at, has_procedure, source_ids, update_procedures}
use tejun.Procedure.Complete.{
  ProcedureCompleteRecord, Image, close_procedure, complete_document, complete_new,
}
use tejun.Procedure.Operations.{Request, history, KeptByAll, history_at}
use tejun.Procedure.Operations.Kept.{
  Keeps-save_new, Keeps-adopt, Keeps-accept_revision_new, Keeps-cancel_revision_new,
  Keeps-close_project, Keeps-save_mutation,
}
use tejun.Procedure.Operations.Sides.{aside-insert_revision_job, aside-stop_revision}
use tejun.Procedure.Versions.Stale.{admit_draft-eq-ok}
use tejun.Procedure.Sound.{
  IsSound, Sound, Sound-order, Sound-aside, Sound-write_document, Sound-writes, IsSound-update,
}

module _ (json : Json) where
  -- The UPDATE of a procedure whose document passed.
  Sound-close_procedure :
      (q : Procedure) (d : Document) (at : ℕ) (s : Db) {a : Unit {0}} {t : Db}
      → close_procedure q.procedure_id q.revision at s ≡ ok (a, t)
      → Memᴰ q s.procedures
      → json.unmarshal q.document ≡ some d
      → ((evaluate d (source_ids q.procedure_id s)).status == "blocked") ≡ false
      → Sound json s t
  unfolding close_procedure update_procedures
  Sound-close_procedure q d at s h m decoded passed = record {
    at = λ o. rw (modify-eq-ok _ s h) (
        IsSound-update json (is_draft_at q.procedure_id q.revision) _ s (λ x. refl)
          (λ x mx hit done.
            let id : x.procedure_id ≡ q.procedure_id = (eq_iff _ _).0 (ground arith) in
            let same = o.keyed x q mx m id in rw same (d, decoded, passed))
          o);
  }

  module _ (sha256 : String → String) where
    Sound-complete_document :
        (r : ProcedureCompleteRecord) (images : List Image) (q : Procedure) (p : Project)
        (d : Document) (s : Db) {v : MutationResult ProcedureCompleted} {t : Db}
        → complete_document sha256 json r images q p d s ≡ ok (v, t)
        → Memᴰ q s.procedures
        → r.procedure_id ≡ q.procedure_id
        → json.unmarshal q.document ≡ some d
        → Sound json s t
    unfolding complete_document
    Sound-complete_document r images q p d s {t = t} h m id decoded =
        let (ids, s1, h1, k1) = >>=-eq-ok _ _ s h in
        let (_, s2, h2, k2) = >>=-eq-ok _ _ s1 k1 in
        let (current, s3, h3, k3) = >>=-eq-ok _ _ s2 k2 in
        let (_, s4, h4, k4) = >>=-eq-ok _ _ s3 k3 in
        let (pending, s5, h5, k5) = >>=-eq-ok _ _ s4 k4 in
        let (_, s6, h6, k6) = >>=-eq-ok _ _ s5 k5 in
        let (_, s7, h7, k7) = >>=-eq-ok _ _ s6 k6 in
        let (counted, same1) = gets-eq-ok _ s h1 in
        let (passed, same2) = fail_if-eq-ok _ _ s1 h2 in
        let (_, same3) = attempt-eq-ok _ s2 h3 in
        let (_, same4) = fail_if-eq-ok _ _ s3 h4 in
        let (_, same5) = gets-eq-ok _ s4 h5 in
        let (_, same6) = fail_if-eq-ok _ _ s5 h6 in
        let back : s6 ≡ s = same6 ∙ same5 ∙ same4 ∙ same3 ∙ same2 ∙ same1 in
        let sources : ids ≡ source_ids q.procedure_id s = counted ∙ ap (λ x. source_ids x s) id in
        let closed =
          Sound-close_procedure q d r.at.micros s
            (subst (λ x. close_procedure x q.revision r.at.micros s ≡ ok (tt, s7)) id
              (subst (λ x. close_procedure r.procedure_id q.revision r.at.micros x ≡ ok (tt, s7))
                back h7))
            m decoded (subst (λ x. ((evaluate d x).status == "blocked") ≡ false) sources passed) in
        let rest : Sound json s7 t =
          (Keeps-bind (Sound-order json) _ _ (Keeps-close_project (Sound-writes json) _ _) (λ _.
              Keeps-bind (Sound-order json) _ _ (Sound-writes json).next_sequence (λ n.
                Keeps-bind (Sound-order json) _ _
                  (Keeps-save_mutation (Sound-writes json) _ _ _ _ _ _ n)
                  (λ _.
                    Keeps-bind (Sound-order json) _ _ ((Sound-writes json).insert_outbox _ n)
                      (λ _. Keeps-pure (Sound-order json) _))))).at
            s7 _ t k7 in
        record { at = λ o. rest.at (closed.at o) }

    Sound-complete_new :
        (r : ProcedureCompleteRecord) (images : List Image)
        → Keeps (Sound json) (complete_new sha256 json r images)
    unfolding complete_new
    Sound-complete_new r images = record {
      at = λ s v t h.
          let (q, s1, h1, k1) = >>=-eq-ok _ _ s h in
          let (p, s2, h2, k2) = >>=-eq-ok _ _ s1 k1 in
          let (_, s3, h3, k3) = >>=-eq-ok _ _ s2 k2 in
          let (d, s4, h4, k4) = >>=-eq-ok _ _ s3 k3 in
          let (found, same1) = require-eq-ok _ _ s h1 in
          let (_, same2) = require-eq-ok _ _ s1 h2 in
          let (_, _, same3) = admit_draft-eq-ok _ q r.expected_revision s2 h3 in
          let (decoded, same4) = require-eq-ok _ _ s3 h4 in
          let back : s4 ≡ s = same4 ∙ same3 ∙ same2 ∙ same1 in
          let (m, id) = find-Memᴰ (has_procedure r.procedure_id) s.procedures found in
          Sound-complete_document r images q p d s
            (subst (λ x. complete_document sha256 json r images q p d x ≡ ok (v, t)) back k4) m
            (sym ((eq_iff _ _).0 id)) decoded;
    }

    Sound-kept : KeptByAll sha256 json (Sound json)
    Sound-kept = record {
      writes = Sound-writes json;
      save_new = Keeps-save_new (Sound-writes json) sha256 json (Sound-write_document json);
      adopt = Keeps-adopt (Sound-writes json) json (Sound-write_document json);
      accept_new =
          Keeps-accept_revision_new (Sound-writes json) sha256 json
            (aside-insert_revision_job (Sound-order json) (λ f p r e. Sound-aside json f p e));
      cancel_new =
          Keeps-cancel_revision_new (Sound-writes json) sha256
            (aside-stop_revision (Sound-order json) (λ f p r e. Sound-aside json f p e));
      complete_new = Sound-complete_new;
    }

    -- Where every procedure id has one row and each completed procedure holds a document that is not
    -- blocked, that is so after any history of requests.
    pub procedure-IsSound :
        (qs : List Request) (s : Db) → IsSound json s → IsSound json (history sha256 json qs s)
    procedure-IsSound qs s o = (history_at sha256 json Sound-kept qs s).at o
