-- ===== src/Mutation/Receipts.antt =====
-- Receipts are never lost or replaced while mutations are made, and a receipt answers a repeated
-- request.
use tejun.Prelude.{
  ℕ, ◌+◌, String, false, Option, none, some, List, [], ◌∷◌, ◌++◌, ◌≡◌, refl, ◌==◌, arith, ◌⊎◌,
  Option-cases, inl, inr, eq_refl, eq_iff, sym, ◌∙◌, Bool-cases,
}
use tejun.Shared.{Error, app_error}
use tejun.Sql.Tx.{ok, err, Tx, found_or, modify, ◌>>=◌}
use tejun.Sql.Table.{find, exists, insert_row, find-append_left, find-append_one}
use tejun.Sql.Keeps.{IsPreorder, Keeps, Keeps-modify, >>=-eq-ok, keeps_rules, Result-cases}
use tejun.Sql.Commit.{pure-eq-ok}
use tejun.Database.{Db}
use tejun.Database.Time.{Time}
use tejun.Database.Ledger.{MutationResult, Stored, Receipt, Outbox, OutboxEvent}
use tejun.Mutation.{
  same_receipt, check_receipt, existing_result, insert_receipt, next_sequence, insert_outbox,
  save_mutation, receipt_row, mutation,
}

-- Every receipt that can be found before can be found after.
pub record Retains (s t : Db) : Type 0 where
  pub at_key :
      (scope operation_id : String) (r : Receipt)
      → find (same_receipt scope operation_id) s.receipts ≡ some r
      → find (same_receipt scope operation_id) t.receipts ≡ some r

pub Retains-order : IsPreorder Retains
Retains-order = record {
  same = λ s. record { at_key = λ c o r h. h };
  joined = λ s t u p q. record { at_key = λ c o r h. q.at_key c o r (p.at_key c o r h) };
}

-- A statement on another table.
pub Retains-modify :
    (f : Db → Db) → ((s : Db) → (f s).receipts ≡ s.receipts) → Keeps Retains (modify f)
Retains-modify f h = Keeps-modify f (λ s. record { at_key = λ c o r e. rw h e })

pub Retains-next_sequence : Keeps Retains next_sequence
unfolding next_sequence
Retains-next_sequence = search (
  keeps_rules,
  Retains-order,
  Retains-modify (λ db. record db { change_sequence = db.change_sequence + 1 }) (λ s. refl),
)

pub Retains-insert_outbox : (e : OutboxEvent) (n : ℕ) → Keeps Retains (insert_outbox e n)
unfolding insert_outbox
Retains-insert_outbox e n = search (
  keeps_rules,
  Retains-order,
  λ (rows : List Outbox). Retains-modify (λ db. record db { outbox = rows }) (λ s. refl),
)

insert_receipt-eq-ok :
    (r : Receipt) (s : Db) {a : Unit} {t : Db}
    → insert_receipt r s ≡ ok (a, t)
    → (exists (same_receipt r.scope r.operation_id) s.receipts ≡ false)
      × (t ≡ record s { receipts = s.receipts ++ r ∷ [] })
unfolding insert_receipt ◌>>=◌ insert_row
insert_receipt-eq-ok r s h = ground arith

pub Retains-insert_receipt : (r : Receipt) → Keeps Retains (insert_receipt r)
Retains-insert_receipt r = record {
  at = λ s a t h.
      let (fresh, e) = insert_receipt-eq-ok r s h in
      rw e (record {
        at_key = λ c o q found. find-append_left (same_receipt c o) s.receipts (r ∷ []) found;
      });
}

pub Retains-save_mutation :
    {T : Type 0} (encode : MutationResult T → Stored) (scope operation_id hash : String)
    (result : MutationResult T) (event : OutboxEvent) (sequence : ℕ)
    → Keeps Retains (save_mutation encode scope operation_id hash result event sequence)
unfolding save_mutation
Retains-save_mutation encode scope operation_id hash result event sequence =
    search (keeps_rules, Retains-order, Retains-insert_receipt, Retains-insert_outbox)

pub Retains-mutation :
    {T : Type 0} (encode : MutationResult T → Stored) (scope operation_id hash : String) (value : T)
    (at : Time) (event : OutboxEvent)
    → Keeps Retains (mutation encode scope operation_id hash value at event)
unfolding mutation
Retains-mutation encode scope operation_id hash value at event =
    search (keeps_rules, Retains-order, Retains-save_mutation, Retains-next_sequence)

pub Retains-existing_result :
    {T : Type 0} (decode : Stored → Option (MutationResult T)) (scope operation_id hash : String)
    → Keeps Retains (existing_result decode scope operation_id hash)
unfolding existing_result
Retains-existing_result decode scope operation_id hash = search (keeps_rules, Retains-order)

pub ruleset retains_rules = (
  keeps_rules, Retains-order, Retains-next_sequence, Retains-insert_outbox, Retains-save_mutation,
  Retains-mutation, Retains-existing_result,
)

-- The request is answered by its receipt, with nothing changed.
abbrev pub Answers :
    {T : Type 0}
    → (Stored → Option (MutationResult T))
    → String
    → String
    → String
    → MutationResult T
    → Db
    → Type 0
Answers decode scope operation_id hash result s =
    existing_result decode scope operation_id hash s ≡ ok (some result, s)

pub existing_result-same :
    {T : Type 0} (decode : Stored → Option (MutationResult T)) (scope operation_id hash : String)
    (s : Db) {o : Option (MutationResult T)} {t : Db}
    → existing_result decode scope operation_id hash s ≡ ok (o, t)
    → existing_result decode scope operation_id hash s ≡ ok (o, s)
unfolding existing_result ◌>>=◌
existing_result-same decode scope operation_id hash s h = ground arith

pub Answers-Retains :
    {T : Type 0} (decode : Stored → Option (MutationResult T)) (scope operation_id hash : String)
    (result : MutationResult T) {s t : Db}
    → Retains s t
    → Answers decode scope operation_id hash result s
    → Answers decode scope operation_id hash result t
unfolding existing_result check_receipt ◌>>=◌
Answers-Retains decode scope operation_id hash result {s} {t} k h =
    elim (Option-cases (find (same_receipt scope operation_id) s.receipts)) [
      | inl e ↦ absurd (ground arith)
      | inr (r, e) ↦ ground (arith, k.at_key scope operation_id r e)
    ]

pub Answers-save_mutation :
    {T : Type 0} (encode : MutationResult T → Stored) (decode : Stored → Option (MutationResult T))
    (scope operation_id hash : String) (result : MutationResult T) (event : OutboxEvent)
    (sequence : ℕ) (s : Db) {a : Unit} {t : Db}
    → decode (encode result) ≡ some result
    → save_mutation encode scope operation_id hash result event sequence s ≡ ok (a, t)
    → Answers decode scope operation_id hash result t
unfolding existing_result check_receipt ◌>>=◌ save_mutation
Answers-save_mutation encode decode scope operation_id hash result event sequence s {t} d h =
    let r = receipt_row scope operation_id hash (encode result) result.receipt.committed_at in
    let (_, u, first, rest) =
      >>=-eq-ok (insert_receipt r) (λ _. insert_outbox event sequence) s h in
    let (fresh, e) = insert_receipt-eq-ok r s first in
    let found : find (same_receipt scope operation_id) u.receipts ≡ some r = rw e (
      find-append_one (same_receipt scope operation_id) r s.receipts fresh
        (rw (eq_refl scope, eq_refl operation_id))) in
    let kept = (Retains-insert_outbox event sequence).at u _ t rest in
    ground (arith, kept.at_key scope operation_id r found, eq_refl hash)

pub Answers-of_eq :
    {T : Type 0} (decode : Stored → Option (MutationResult T)) (scope operation_id hash : String)
    {v w : MutationResult T} {s t : Db}
    → w ≡ v
    → t ≡ s
    → Answers decode scope operation_id hash v s
    → Answers decode scope operation_id hash w t
Answers-of_eq decode scope operation_id hash p q a = rw (p, q) a

pub Answers-mutation :
    {T : Type 0} (encode : MutationResult T → Stored) (decode : Stored → Option (MutationResult T))
    (scope operation_id hash : String) (value : T) (at : Time) (event : OutboxEvent) (s : Db)
    {out : MutationResult T} {t : Db}
    → ((w : MutationResult T) → decode (encode w) ≡ some w)
    → mutation encode scope operation_id hash value at event s ≡ ok (out, t)
    → Answers decode scope operation_id hash out t
unfolding mutation
Answers-mutation encode decode scope operation_id hash value at event s {out} {t} d h =
    let (n, s1, h1, k1) = >>=-eq-ok _ _ s h in
    let (_, s2, h2, k2) = >>=-eq-ok _ _ s1 k1 in
    let (same, stay) = pure-eq-ok _ s2 k2 in
    rw (same, stay)
      (Answers-save_mutation encode decode scope operation_id hash _ event n s1 (d _) h2)

-- A receipt with another hash refuses the operation id.
pub Answers-conflict :
    {T : Type 0} (decode : Stored → Option (MutationResult T))
    (scope operation_id hash other : String) (result : MutationResult T) (s : Db)
    → Answers decode scope operation_id hash result s
    → ¬ (hash ≡ other)
    → existing_result decode scope operation_id other s
      ≡ err (app_error "operation_id_conflict" "operationIdが別の入力で使用されています")
unfolding existing_result check_receipt ◌>>=◌
Answers-conflict decode scope operation_id hash other result s h differs =
    elim (Option-cases (find (same_receipt scope operation_id) s.receipts)) [
      | inl e ↦ absurd (ground arith)
      | inr (r, e) ↦ elim (Bool-cases (r.request_hash == other)) [
        | inl q ↦ absurd (
            let p = (eq_iff r.request_hash other).0 q in
            let p2 = (eq_iff r.request_hash hash).0 (ground arith) in differs (sym p2 ∙ p))
        | inr q ↦ ground arith
      ]
    ]

-- The frame of a mutation: its receipt's result if it was made before, else its body.
module _ {T B : Type 0} (decode : Stored → Option (MutationResult T))
    (scope operation_id hash : String) (repeat : MutationResult T → Tx Db B) (body : Tx Db B) where
  -- It fails, or it is the one or the other, from the state in which it began.
  pub once-eq-ok :
      (s : Db) {v : B} {t : Db}
      → (existing_result decode scope operation_id hash >>= λ o. found_or o repeat body) s
        ≡ ok (v, t)
      → ((w : MutationResult T) × Answers decode scope operation_id hash w s
          × (repeat w s ≡ ok (v, t)))
        ⊎ (body s ≡ ok (v, t))
  unfolding existing_result ◌>>=◌
  once-eq-ok s h =
      elim (Result-cases
        (check_receipt decode scope hash (find (same_receipt scope operation_id) s.receipts))) [
          | inl (none, e) ↦ inr (ground arith)
          | inl (some w, e) ↦ inl (w, rw e, ground arith)
          | inr (x, e) ↦ absurd (ground arith)
        ]

  pub once-Answers :
      (w : MutationResult T) (s : Db)
      → Answers decode scope operation_id hash w s
      → (existing_result decode scope operation_id hash >>= λ o. found_or o repeat body) s
        ≡ repeat w s
  unfolding ◌>>=◌
  once-Answers w s h = rw h

  pub once-refused :
      (e : Error) (s : Db)
      → existing_result decode scope operation_id hash s ≡ err e
      → (existing_result decode scope operation_id hash >>= λ o. found_or o repeat body) s ≡ err e
  unfolding ◌>>=◌
  once-refused e s h = rw h
