-- ===== src/Store/Always.antt =====
-- Store methods that return a value whatever the driver does, and what holds of it.
use go_web_search.Prelude.{◌≡◌, refl, sym, subst, Bool, true, false, if◌then◌else◌}
use go_web_search.Rows.{Tables}
use go_web_search.Store.{
  Result, ok, err, World, M, continue, ◌>>=◌, pure, now, query, ignore, or_default, attempt,
}
use go_web_search.Store.Laws.{now_tables, query_ok}

pub record Always {A : Type 0} (m : M A) (Q : A → Type 0) : Type 0 where
  pub at : (w : World) → (a : A) × ((m w).0 ≡ ok a) × Q a

module _ {A : Type 0} (Q : A → Type 0) where
  pub Always-pure : (a : A) → Q a → Always (pure a) Q
  Always-pure a q = record { at = λ w. (a, refl, q) }

  pub Always-if : (b : Bool) (m n : M A) → Always m Q → Always n Q → Always (if b then m else n) Q
  Always-if true m n h k = h
  Always-if false m n h k = k

  pub Always-ignore_query :
      (d : A) (f : Tables → A) → Q d → ((t : Tables) → Q (f t)) → Always (ignore d (query f)) Q
  Always-ignore_query d f q k = record {
    at = λ w. ignored (query f w) (λ a e. subst Q (sym (query_ok f w a e)) (k w.tables));
  }
    where
      ignored :
          (o : Result A × World)
          → ((a : A) → o.0 ≡ ok a → Q a)
          → (a : A) × ((or_default d o).0 ≡ ok a) × Q a
      ignored (ok a, w) h = (a, refl, h a refl)
      ignored (err e, w) h = (d, refl, q)

pub Always-now : Always now (λ t. Unit {0})
Always-now = record { at = λ w. ((now w).1.clock, (now_tables w).3, tt) }

module _ {A : Type 0} where
  pub Always-attempt : (m : M A) → Always (attempt m) (λ r. Unit {0})
  Always-attempt m = record { at = λ w. ((m w).0, refl, tt) }

module _ {A B : Type 0} (R : A → Type 0) (Q : B → Type 0) where
  pub Always-bind :
      (m : M A) (f : A → M B) → Always m R → ((a : A) → R a → Always (f a) Q) → Always (m >>= f) Q
  Always-bind m f h k = record { at = λ w. let (a, e, r) = h.at w in follow (m w) a e r }
    where
      follow :
          (o : Result A × World) (a : A)
          → o.0 ≡ ok a
          → R a
          → (b : B) × ((continue o f).0 ≡ ok b) × Q b
      follow (ok x, w) a e r = (k x (subst R (sym (same e)) r)).at w
        where
          same : ok x ≡ ok a → x ≡ a
          same e = cc
      follow (err x, w) a e r = absurd (no e)
        where
          no : err x ≡ ok a → ⊥
          no e = cc
