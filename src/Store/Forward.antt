-- ===== src/Store/Forward.antt =====
-- The clock of a store method: it does not go back, and what a method returns may rest on a reading
-- that is not earlier than a given instant.
use go_web_search.Prelude.{◌≤◌, ◌≡◌, refl, Bool, true, false, if◌then◌else◌, arith}
use go_web_search.Clock.{Time}
use go_web_search.Rows.{Tables}
use go_web_search.Store.{Error, Result, ok, err, World, M, continue, ◌>>=◌, pure, fail, lift, query}
use go_web_search.Store.Yields.{Yields}

pub record Forward {A : Type 0} (m : M A) : Type 0 where
  pub at : (w : World) → w.clock ≤ (m w).1.clock

module _ {A : Type 0} where
  pub Forward-pure : (a : A) → Forward (pure a)
  Forward-pure a = record { at = λ w. omega arith }

  pub Forward-fail : (e : Error) → Forward {A = A} (fail e)
  Forward-fail e = record { at = λ w. omega arith }

  pub Forward-lift : (r : Result A) → Forward (lift r)
  unfolding lift
  Forward-lift r = record { at = λ w. omega arith }

  pub Forward-query : (f : Tables → A) → Forward (query f)
  unfolding query
  Forward-query f = record { at = λ w. ground arith }

  pub Forward-if : (b : Bool) (m n : M A) → Forward m → Forward n → Forward (if b then m else n)
  Forward-if true m n h k = h
  Forward-if false m n h k = k

module _ {A B : Type 0} where
  pub Forward-bind :
      (m : M A) (f : A → M B) → Forward m → ((a : A) → Forward (f a)) → Forward (m >>= f)
  Forward-bind m f h k = record { at = λ w. follow (m w) w (h.at w) }
    where
      follow :
          (o : Result A × World) (w : World)
          → w.clock ≤ o.1.clock
          → w.clock ≤ (continue o f).1.clock
      follow (ok a, v) w le = omega (arith, le, (k a).at v)
      follow (err e, v) w le = le

pub record Since (from : Time) {A : Type 0} (Q : A → Type 0) (m : M A) : Type 0 where
  pub at : (w : World) (a : A) → from ≤ w.clock → (m w).0 ≡ ok a → Q a

module _ (from : Time) where
  pub Since-Yields : {A : Type 0} (Q : A → Type 0) (m : M A) → Yields Q m → Since from Q m
  Since-Yields Q m y = record { at = λ w a le e. y.at w a e }

  pub Since-bind :
      {A B : Type 0} (R : A → Type 0) (Q : B → Type 0) (m : M A) (f : A → M B)
      → Forward m
      → Since from R m
      → ((a : A) → R a → Since from Q (f a))
      → Since from Q (m >>= f)
  Since-bind {A} {B} R Q m f fwd h k = record {
    at = λ w b le e. follow (m w) (omega (arith, le, fwd.at w)) (λ a. h.at w a le) b e;
  }
    where
      follow :
          (o : Result A × World)
          → from ≤ o.1.clock
          → ((a : A) → o.0 ≡ ok a → R a)
          → (b : B) → (continue o f).0 ≡ ok b
          → Q b
      follow (ok a, v) le r b e = (k a (r a refl)).at v b le e
      follow (err x, v) le r b e = absurd (no e)
        where
          no : err x ≡ ok b → ⊥
          no h = cc
