-- ===== src/Sql/Tx.antt =====
-- A transaction over a state: the writes so far and a result, or the error that rolls it back.
-- Every repository method opens one by BeginTx, defers Rollback and ends with Commit, so an error on
-- any branch leaves the database as it was. Failures of the driver itself are not modelled.
use tejun.Prelude.{Bool, true, false, Option, none, some, List, [], ◌∷◌}
use tejun.Shared.{Error}

pub data Result {ℓ} (A : Type ℓ) : Type ℓ where
  ok : A → Result A
  err : Error → Result A

abbrev pub Tx : Type 0 → Type 0 → Type 0
Tx S A = S → Result (A × S)

module _ {S A : Type 0} where
  unfoldable pub pure : A → Tx S A
  pure a s = ok (a, s)

  unfoldable pub fail : Error → Tx S A
  fail e s = err e

  unfoldable pub gets : (S → A) → Tx S A
  gets f s = ok (f s, s)

  unfoldable pub lift : Result A → Tx S A
  lift (ok a) s = ok (a, s)
  lift (err e) s = err e

  -- A statement that reads the state and may fail.
  unfoldable pub attempt : (S → Result A) → Tx S A
  unfolding lift
  attempt f s = lift (f s) s

  -- Reads what a query found, or fails with `e`.
  unfoldable pub require : (S → Option A) → Error → Tx S A
  require f e s = elim (f s) [ none ↦ err e | some a ↦ ok (a, s) ]

unfoldable pub modify : {S : Type 0} → (S → S) → Tx S Unit
modify f s = ok (tt, f s)

-- `if test { return err }`
unfoldable pub fail_if : {S : Type 0} → Bool → Error → Tx S Unit
fail_if true e s = err e
fail_if false e s = ok (tt, s)

-- A branch on what a query found.
unfoldable pub found_or : {S A B : Type 0} → Option A → (A → Tx S B) → Tx S B → Tx S B
found_or (some a) f m = f a
found_or none f m = m

-- What follows a statement: nothing if it failed.
abbrev pub continue : {S A B : Type 0} → Result (A × S) → (A → Tx S B) → Result (B × S)
continue (ok p) f = f p.0 p.1
continue (err e) f = err e

infixl 10 ◌>>=◌ ◌>>◌
-- Opening this opens the statements above too.
unfoldable pub ◌>>=◌ : {S A B : Type 0} → Tx S A → (A → Tx S B) → Tx S B
unfolding pure fail gets lift attempt require modify fail_if found_or
◌>>=◌ m f s = continue (m s) f

abbrev pub ◌>>◌ : {S B : Type 0} → Tx S Unit → Tx S B → Tx S B
m >> k = m >>= λ _. k

-- `for _, x := range xs { ... }`, each round a statement that may fail.
unfoldable pub for_each : {S A : Type 0} → List A → (A → Tx S Unit) → Tx S Unit
for_each [] f = pure tt
for_each (x ∷ xs) f = f x >> for_each xs f

-- BeginTx, the body, and Commit or Rollback.
unfoldable pub commit : {S A : Type 0} → Tx S A → S → Result A × S
commit m s = elim (m s) [ err e ↦ (err e, s) | ok p ↦ (ok p.0, p.1) ]
