-- ===== src/Execution/Outbox.antt =====
-- The outbox is append-only, and the counter of changes never goes back.
use tejun.Prelude.{ℕ, ◌+◌, ◌≤◌, String, ◌≡◌, refl, ◌∙◌, ap, List, [], ◌∷◌, ◌++◌, arith, inl, inr}
use tejun.Sql.Tx.{ok, modify, ◌>>=◌}
use tejun.Sql.Keeps.{IsPreorder, Keeps, Keeps-modify, Result-cases, keeps_rules}
use tejun.Sql.Table.{insert_row}
use tejun.Database.{Db}
use tejun.Database.Ledger.{OutboxEvent, EventData, Outbox, Receipt}
use tejun.Mutation.{next_sequence, insert_outbox, outbox_row, event_data, insert_receipt}
use tejun.Execution.Cancel.{CancelAgentOperationInput}
use tejun.Execution.Operations.{Request, history, history_at, kept_by_all}
use tejun.Execution.Operations.Sides.{SameLedger, ledger_writes}

pub record Grows (s t : Db) : Type 0 where
  pub more : List Outbox
  pub appended : t.outbox ≡ s.outbox ++ more
  pub counted : s.change_sequence ≤ t.change_sequence

append_nil : {A : Type 0} (xs : List A) → xs ≡ xs ++ []
append_nil [] = refl
append_nil (x ∷ xs) = ap (λ ys. x ∷ ys) (append_nil xs)

append_assoc : {A : Type 0} (xs ys zs : List A) → (xs ++ ys) ++ zs ≡ xs ++ (ys ++ zs)
append_assoc [] ys zs = refl
append_assoc (x ∷ xs) ys zs = ap (λ us. x ∷ us) (append_assoc xs ys zs)

Grows-order : IsPreorder Grows
Grows-order = record {
  same = λ s. record { more = []; appended = append_nil s.outbox; counted = omega arith };
  joined = λ s t u p q. record {
    more = p.more ++ q.more;
    appended =
        q.appended ∙ ap (λ rows. rows ++ q.more) p.appended ∙ append_assoc s.outbox p.more q.more;
    counted = let a = p.counted in let b = q.counted in omega arith;
  };
}

Grows-aside : (f : Db → Db) → ((s : Db) → SameLedger (f s) s) → Keeps Grows (modify f)
Grows-aside f h = Keeps-modify f (λ s. record {
  more = [];
  appended = (h s).outbox ∙ append_nil s.outbox;
  counted = let e = (h s).change_sequence in omega arith;
})

Grows-next_sequence : Keeps Grows next_sequence
unfolding next_sequence
Grows-next_sequence = search (
  keeps_rules,
  Grows-order,
  Keeps-modify {R = Grows} (λ db. record db { change_sequence = db.change_sequence + 1 })
      (λ s. record { more = []; appended = append_nil s.outbox; counted = omega arith }),
)

insert_outbox-eq-ok :
    (e : OutboxEvent) (n : ℕ) (s : Db) {a : Unit {0}} {t : Db}
    → insert_outbox e n s ≡ ok (a, t)
    → (payload : EventData) × (t ≡ record s { outbox = s.outbox ++ outbox_row e n payload ∷ [] })
unfolding insert_outbox ◌>>=◌ insert_row
insert_outbox-eq-ok e n s h = elim (Result-cases (event_data e s)) [
  | inl (payload, p) ↦ (payload, ground arith)
  | inr (x, p) ↦ absurd (ground arith)
]

Grows-insert_outbox : (e : OutboxEvent) (n : ℕ) → Keeps Grows (insert_outbox e n)
Grows-insert_outbox e n = record {
  at = λ s a t h.
      let (payload, after) = insert_outbox-eq-ok e n s h in
      record {
        more = outbox_row e n payload ∷ [];
        appended = ap (λ (d : Db). d.outbox) after;
        counted = let c = ap (λ (d : Db). d.change_sequence) after in omega arith;
      };
}

Grows-insert_receipt : (r : Receipt) → Keeps Grows (insert_receipt r)
unfolding insert_receipt
Grows-insert_receipt r = search (
  keeps_rules,
  Grows-order,
  λ (rows : List Receipt).
      Keeps-modify {R = Grows} (λ db. record db { receipts = rows })
        (λ s. record { more = []; appended = append_nil s.outbox; counted = omega arith }),
)

-- Through any history of requests the outbox is only appended to, and change_sequence never falls.
pub history-Grows :
    (sha256 : String → String) (digest : CancelAgentOperationInput → String) (qs : List Request)
    (s : Db)
    → let t = history sha256 digest qs s in
      (more : List Outbox) × (t.outbox ≡ s.outbox ++ more) × (s.change_sequence ≤ t.change_sequence)
history-Grows sha256 digest qs s =
    let grows =
      history_at sha256 digest
        (kept_by_all sha256 digest (
          ledger_writes Grows-order Grows-aside Grows-next_sequence Grows-insert_outbox
            Grows-insert_receipt))
        qs s in
    (grows.more, grows.appended, grows.counted)
