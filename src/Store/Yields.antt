-- ===== src/Store/Yields.antt =====
-- What a store method returns, where it returns: one rule for each way to build a method.
use go_web_search.Prelude.{◌≡◌, refl, Bool, true, false, if◌then◌else◌, ap, subst}
use go_web_search.Store.{Error, Result, ok, err, World, M, continue, ◌>>=◌, pure, fail}

pub record Yields {A : Type 0} (Q : A → Type 0) (m : M A) : Type 0 where
  pub at : (w : World) (a : A) → (m w).0 ≡ ok a → Q a

abbrev value_or : {A : Type 0} → A → Result A → A
value_or d (ok a) = a
value_or d (err e) = d

pub ok-injective : {A : Type 0} (a b : A) → ok a ≡ ok b → a ≡ b
ok-injective a b e = ap (value_or a) e

is_ok : {A : Type 0} → Result A → Bool
is_ok (ok a) = true
is_ok (err e) = false

err_not_ok : {A : Type 0} (e : Error) (a : A) → err e ≡ ok a → ⊥
err_not_ok e a h = absurd (cc h)

module _ {A : Type 0} (Q : A → Type 0) where
  pub Yields-pure : (a : A) → Q a → Yields Q (pure a)
  Yields-pure a q = record { at = λ w b e. subst Q (ok-injective a b e) q }

  pub Yields-fail : (e : Error) → Yields Q (fail e)
  Yields-fail e = record { at = λ w b h. absurd (err_not_ok e b h) }

  pub Yields-any : (m : M A) → ((a : A) → Q a) → Yields Q m
  Yields-any m h = record { at = λ w a e. h a }

  pub Yields-if :
      (b : Bool) (m n : M A)
      → (b ≡ true → Yields Q m)
      → (b ≡ false → Yields Q n)
      → Yields Q (if b then m else n)
  Yields-if true m n h k = h refl
  Yields-if false m n h k = k refl

module _ {A B : Type 0} (R : A → Type 0) (Q : B → Type 0) where
  continue_yields :
      (f : A → M B) (r : Result A × World)
      → ((a : A) → r.0 ≡ ok a → R a)
      → ((a : A) → R a → Yields Q (f a))
      → (b : B) → (continue r f).0 ≡ ok b
      → Q b
  continue_yields f (ok a, w) h k b e = (k a (h a refl)).at w b e
  continue_yields f (err x, w) h k b e = absurd (err_not_ok x b e)

  pub Yields-bind :
      (m : M A) (f : A → M B) → Yields R m → ((a : A) → R a → Yields Q (f a)) → Yields Q (m >>= f)
  Yields-bind m f h k = record { at = λ w b e. continue_yields f (m w) (h.at w) k b e }
