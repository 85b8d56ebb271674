-- ===== src/Sql/Keeps.antt =====
-- What a transaction keeps: a relation between the state before and the state after, for relations
-- that hold of no change and compose, with one rule for each way to build a transaction.
use tejun.Prelude.{
  ◌≡◌, refl, ap, subst, Bool, true, false, Option, none, some, List, [], ◌∷◌, if◌then◌else◌, arith,
  ◌⊎◌, inl, inr,
}
use tejun.Shared.{Error}
use tejun.Sql.Tx.{
  Result, ok, err, Tx, pure, fail, gets, lift, attempt, require, modify, fail_if, for_each,
  found_or, commit, ◌>>=◌,
}

pub record IsPreorder {S : Type 0} (R : S → S → Type 0) : Type 0 where
  pub same : (s : S) → R s s
  pub joined : (s t u : S) → R s t → R t u → R s u

pub record Keeps {S A : Type 0} (R : S → S → Type 0) (m : Tx S A) : Type 0 where
  pub at : (s : S) (a : A) (t : S) → m s ≡ ok (a, t) → R s t

pub Result-cases :
    {A : Type 0} (r : Result A) → ((a : A) × (r ≡ ok a)) ⊎ ((e : Error) × (r ≡ err e))
Result-cases (ok a) = inl (a, refl)
Result-cases (err e) = inr (e, refl)

-- A successful bind has two successful parts.
pub >>=-eq-ok :
    {S A B : Type 0} (m : Tx S A) (f : A → Tx S B) (s : S) {b : B} {u : S}
    → (m >>= f) s ≡ ok (b, u)
    → (a : A) × (t : S) × (m s ≡ ok (a, t)) × (f a t ≡ ok (b, u))
unfolding ◌>>=◌
>>=-eq-ok m f s h = elim (Result-cases (m s)) [
  | inl (p, e) ↦ (p.0, p.1, e, rw (e, ◌>>=◌) at h)
  | inr (x, e) ↦ absurd (ground arith)
]

abbrev state_of : {S A : Type 0} → S → Result (A × S) → S
state_of s (ok p) = p.1
state_of s (err e) = s

pub ok_state :
    {S A : Type 0} (s : S) {x y : A} {t u : S}
    → ◌≡◌ {A = Result (A × S)} (ok (x, t)) (ok (y, u))
    → t ≡ u
ok_state s h = ap (state_of s) h

module _ {S : Type 0} {R : S → S → Type 0} (order : IsPreorder R) where
  pub Keeps-pure : {A : Type 0} (a : A) → Keeps R (pure a)
  unfolding pure
  Keeps-pure a = record { at = λ s b t h. subst (R s) (ok_state s h) (order.same s) }

  pub Keeps-fail : {A : Type 0} (e : Error) → Keeps R (fail {A = A} e)
  unfolding fail
  Keeps-fail e = record { at = λ s b t h. absurd (cc) }

  pub Keeps-gets : {A : Type 0} (f : S → A) → Keeps R (gets f)
  unfolding gets
  Keeps-gets f = record { at = λ s b t h. subst (R s) (ok_state s h) (order.same s) }

  Keeps-lift-at : {A : Type 0} (r : Result A) (s : S) (a : A) (t : S) → lift r s ≡ ok (a, t) → R s t
  unfolding lift
  Keeps-lift-at (ok b) s a t h = subst (R s) (ok_state s h) (order.same s)
  Keeps-lift-at (err e) s a t h = absurd (cc)

  pub Keeps-lift : {A : Type 0} (r : Result A) → Keeps R (lift {S = S} r)
  Keeps-lift r = record { at = Keeps-lift-at r }

  pub Keeps-attempt : {A : Type 0} (f : S → Result A) → Keeps R (attempt f)
  unfolding attempt
  Keeps-attempt f = record { at = λ s. Keeps-lift-at (f s) s }

  Keeps-require-at :
      {A : Type 0} (e : Error) (o : Option A) (f : S → Option A) (s : S) (a : A) (t : S)
      → f s ≡ o
      → require f e s ≡ ok (a, t)
      → R s t
  unfolding require
  Keeps-require-at e none f s a t p h = absurd (ground arith)
  Keeps-require-at e (some b) f s a t p h =
      subst (R s) (ok_state s {x = b} (rw (p, require) at h)) (order.same s)

  pub Keeps-require : {A : Type 0} (f : S → Option A) (e : Error) → Keeps R (require f e)
  Keeps-require f e = record { at = λ s a t h. Keeps-require-at e (f s) f s a t refl h }

  pub Keeps-fail_if : (b : Bool) (e : Error) → Keeps R (fail_if b e)
  unfolding fail_if
  Keeps-fail_if true e = record { at = λ s b t h. absurd (cc) }
  Keeps-fail_if false e = record { at = λ s b t h. subst (R s) (ok_state s h) (order.same s) }

  pub Keeps-bind :
      {A B : Type 0} (m : Tx S A) (f : A → Tx S B)
      → Keeps R m
      → ((a : A) → Keeps R (f a))
      → Keeps R (m >>= f)
  Keeps-bind m f km kf = record {
    at = λ s b u h.
        let (a, t, first, rest) = >>=-eq-ok m f s h in
        order.joined s t u (km.at s a t first) ((kf a).at t b u rest);
  }

  pub Keeps-if :
      {A : Type 0} (b : Bool) (m n : Tx S A) → Keeps R m → Keeps R n → Keeps R (if b then m else n)
  Keeps-if true m n km kn = km
  Keeps-if false m n km kn = kn

  pub Keeps-found_or :
      {A B : Type 0} (o : Option A) (f : A → Tx S B) (m : Tx S B)
      → ((a : A) → Keeps R (f a))
      → Keeps R m
      → Keeps R (found_or o f m)
  unfolding found_or
  Keeps-found_or none f m kf km = km
  Keeps-found_or (some a) f m kf km = kf a

  pub Keeps-for_each :
      {A : Type 0} (xs : List A) (f : A → Tx S Unit)
      → ((a : A) → Keeps R (f a))
      → Keeps R (for_each xs f)
  unfolding for_each
  Keeps-for_each [] f kf = Keeps-pure tt
  Keeps-for_each (x ∷ xs) f kf =
      Keeps-bind (f x) (λ _. for_each xs f) (kf x) (λ _. Keeps-for_each xs f kf)

-- A statement that changes the state has to be looked at.
pub Keeps-modify :
    {S : Type 0} {R : S → S → Type 0} (f : S → S) → ((s : S) → R s (f s)) → Keeps R (modify f)
unfolding modify
Keeps-modify {R} f h = record { at = λ s a t e. subst (R s) (ok_state s e) (h s) }

-- What holds of a committed transaction: it has the relation, or it failed and changed nothing.
pub commit_at :
    {S A : Type 0} {R : S → S → Type 0} (order : IsPreorder R) (m : Tx S A)
    → Keeps R m
    → (s : S) → R s (commit m s).1
unfolding commit
commit_at {R} order m k s = elim (Result-cases (m s)) [
  | inl (p, e) ↦ rw (e, commit) (k.at s p.0 p.1 e)
  | inr (x, e) ↦ rw (e, commit) (order.same s)
]

pub ruleset keeps_rules = (
  Keeps-pure, Keeps-fail, Keeps-gets, Keeps-lift, Keeps-attempt, Keeps-require, Keeps-fail_if,
  Keeps-bind, Keeps-if, Keeps-found_or, Keeps-for_each,
)
