-- ===== src/Sql/Yields.antt =====
-- What a transaction yields: a property of the result of each successful run, with a rule for each way
-- to build a transaction whose last part decides.
use tejun.Prelude.{◌≡◌, Bool, true, false, if◌then◌else◌}
use tejun.Sql.Tx.{ok, Tx, pure, ◌>>=◌}
use tejun.Sql.Keeps.{IsPreorder, Keeps, >>=-eq-ok}
use tejun.Sql.Commit.{pure-eq-ok}

pub record Yields {S A : Type 0} (P : A → Type 0) (m : Tx S A) : Type 0 where
  pub at : (s : S) (a : A) (t : S) → m s ≡ ok (a, t) → P a

module _ {S A : Type 0} {P : A → Type 0} where
  pub Yields-pure : (a : A) → P a → Yields {S = S} P (pure a)
  Yields-pure a p = record { at = λ s b t h. let (same, _) = pure-eq-ok a s h in rw same p }

  pub Yields-bind :
      {B : Type 0} (m : Tx S B) (f : B → Tx S A) → ((b : B) → Yields P (f b)) → Yields P (m >>= f)
  Yields-bind m f y = record {
    at = λ s a u h. let (b, t, first, rest) = >>=-eq-ok m f s h in (y b).at t a u rest;
  }

  pub Yields-if :
      (b : Bool) (m n : Tx S A) → Yields P m → Yields P n → Yields P (if b then m else n)
  Yields-if true m n ym yn = ym
  Yields-if false m n ym yn = yn

pub ruleset yields_rules = (Yields-bind, Yields-if)

-- A bind whose first part yields what the second needs.
pub Keeps-bind_yields :
    {S A B : Type 0} {R : S → S → Type 0} {P : A → Type 0} (order : IsPreorder R) (m : Tx S A)
    (f : A → Tx S B)
    → Keeps R m
    → Yields P m
    → ((a : A) → P a → Keeps R (f a))
    → Keeps R (m >>= f)
Keeps-bind_yields order m f km ym kf = record {
  at = λ s b u h.
      let (a, t, first, rest) = >>=-eq-ok m f s h in
      order.joined s t u (km.at s a t first) ((kf a (ym.at s a t first)).at t b u rest);
}
