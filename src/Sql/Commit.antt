-- ===== src/Sql/Commit.antt =====
-- The results of a transaction that ends with a commit or a rollback.
use tejun.Prelude.{◌≡◌, refl, arith, inl, inr, Bool, true, false, Option, some, Option-cases}
use tejun.Shared.{Error}
use tejun.Sql.Tx.{
  Result, ok, err, Tx, pure, gets, lift, attempt, fail_if, require, modify, commit, ◌>>=◌, ◌>>◌,
}
use tejun.Sql.Keeps.{Result-cases}

-- A committed transaction, read from its result.
pub commit-eq-ok :
    {S A : Type 0} (m : Tx S A) (s : S) {a : A} {t : S} → commit m s ≡ (ok a, t) → m s ≡ ok (a, t)
unfolding commit
commit-eq-ok m s {a} {t} h = elim (Result-cases (m s)) [
  | inl (p, e) ↦ ground arith
  | inr (x, e) ↦ absurd (ground arith)
]

pub commit_of_ok :
    {S A : Type 0} (m : Tx S A) (s : S) {a : A} {t : S} → m s ≡ ok (a, t) → commit m s ≡ (ok a, t)
unfolding commit
commit_of_ok m s h = ground arith

pub pure-eq-ok :
    {S A : Type 0} (a : A) (s : S) {b : A} {t : S} → pure a s ≡ ok (b, t) → (b ≡ a) × (t ≡ s)
unfolding ◌>>=◌
pure-eq-ok a s h = ground arith

pub commit_of_err :
    {S A : Type 0} (m : Tx S A) (s : S) {e : Error} → m s ≡ err e → commit m s ≡ (err e, s)
unfolding commit
commit_of_err m s h = ground arith

pub modify-eq-ok :
    {S : Type 0} (f : S → S) (s : S) {a : Unit {0}} {t : S} → modify f s ≡ ok (a, t) → t ≡ f s
unfolding modify
modify-eq-ok f s h = ground arith

pub gets-eq-ok :
    {S A : Type 0} (f : S → A) (s : S) {a : A} {t : S} → gets f s ≡ ok (a, t) → (a ≡ f s) × (t ≡ s)
unfolding gets
gets-eq-ok f s h = ground arith

pub fail_if-eq-ok :
    {S : Type 0} (b : Bool) (e : Error) (s : S) {a : Unit {0}} {t : S}
    → fail_if b e s ≡ ok (a, t)
    → (b ≡ false) × (t ≡ s)
unfolding fail_if
fail_if-eq-ok true e s h = absurd (cc)
fail_if-eq-ok false e s h = (refl, ground arith)

pub require-eq-ok :
    {S A : Type 0} (f : S → Option A) (e : Error) (s : S) {a : A} {t : S}
    → require f e s ≡ ok (a, t)
    → (f s ≡ some a) × (t ≡ s)
unfolding require
require-eq-ok f e s {a} {t} h = elim (Option-cases (f s)) [
  | inl none_found ↦ absurd (ground arith)
  | inr (b, found) ↦ (ground arith, ground arith)
]

-- A guard that lets the rest through.
pub fail_if_passed :
    {S A : Type 0} (b : Bool) (e : Error) (m : Tx S A) (s : S)
    → b ≡ false
    → (fail_if b e >> m) s ≡ m s
unfolding ◌>>=◌
fail_if_passed true e m s h = absurd (cc)
fail_if_passed false e m s h = refl

pub attempt-eq-ok :
    {S A : Type 0} (f : S → Result A) (s : S) {a : A} {t : S}
    → attempt f s ≡ ok (a, t)
    → (f s ≡ ok a) × (t ≡ s)
unfolding attempt lift
attempt-eq-ok f s h = elim (Result-cases (f s)) [
  | inl (b, e) ↦ (ground arith, ground arith)
  | inr (x, e) ↦ absurd (ground arith)
]
