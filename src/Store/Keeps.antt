-- ===== src/Store/Keeps.antt =====
-- Invariants of the tables: one rule for each way to build a store method. A rule speaks of what a
-- method leaves in the tables whether it returns or fails.
use go_web_search.Prelude.{ℕ, inl, inr, Bool, true, false, if◌then◌else◌}
use go_web_search.Rows.{Tables}
use go_web_search.Store.{
  Error, Result, ok, err, World, M, continue, ◌>>=◌, pure, lift, fail, ignore, now, now_rfc3339,
  new_id, exec, query, transaction, or_default, rolled_back,
}
use go_web_search.Store.Laws.{exec-cases, query_tables, now_tables}

pub record Keeps {A : Type 0} (P : Tables → Type 0) (m : M A) : Type 0 where
  pub at : (w : World) → P w.tables → P (m w).1.tables

module _ {A : Type 0} (P : Tables → Type 0) where
  pub Keeps-pure : (a : A) → Keeps P (pure a)
  Keeps-pure a = record { at = λ w h. h }

  pub Keeps-fail : (e : Error) → Keeps P (fail {A = A} e)
  Keeps-fail e = record { at = λ w h. h }

  pub Keeps-lift : (r : Result A) → Keeps P (lift r)
  unfolding lift
  Keeps-lift r = record { at = λ w h. h }

  pub Keeps-query : (f : Tables → A) → Keeps P (query f)
  Keeps-query f = record { at = λ w h. rw query_tables h }

  pub Keeps-if : (b : Bool) (m n : M A) → Keeps P m → Keeps P n → Keeps P (if b then m else n)
  Keeps-if true m n h k = h
  Keeps-if false m n h k = k

  pub Keeps-ignore : (d : A) (m : M A) → Keeps P m → Keeps P (ignore d m)
  Keeps-ignore d m h = record { at = λ w p. step (m w) (h.at w p) }
    where
      step : (r : Result A × World) → P r.1.tables → P (or_default d r).1.tables
      step (ok a, w) p = p
      step (err e, w) p = p

module _ (P : Tables → Type 0) where
  pub Keeps-now : Keeps P now
  Keeps-now = record { at = λ w h. rw ((now_tables w).0) h }

  pub Keeps-now_rfc3339 : Keeps P now_rfc3339
  unfolding now_rfc3339
  Keeps-now_rfc3339 = record { at = λ w h. rw ((now_tables w).0) h }

  pub Keeps-new_id : Keeps P new_id
  unfolding new_id
  Keeps-new_id = record { at = λ w h. h }

  pub Keeps-exec : (f : Tables → Tables × ℕ) → ((t : Tables) → P t → P (f t).0) → Keeps P (exec f)
  Keeps-exec f keep = record {
    at = λ w h. elim (exec-cases f w) [
      | inl same ↦ rw (same.1) h
      | inr changed ↦ rw (changed.1) (keep w.tables h)
    ];
  }

module _ {A B : Type 0} (P : Tables → Type 0) where
  continue_keeps :
      (f : A → M B) (r : Result A × World)
      → ((a : A) → Keeps P (f a))
      → P r.1.tables
      → P (continue r f).1.tables
  continue_keeps f (ok a, w) k h = (k a).at w h
  continue_keeps f (err e, w) k h = h

  pub Keeps-bind :
      (m : M A) (f : A → M B) → Keeps P m → ((a : A) → Keeps P (f a)) → Keeps P (m >>= f)
  Keeps-bind m f h k = record { at = λ w p. continue_keeps f (m w) k (h.at w p) }

module _ {A : Type 0} (P : Tables → Type 0) where
  rolled_back_keeps :
      (t : Tables) (r : Result A × World) → P t → P r.1.tables → P (rolled_back t r).1.tables
  rolled_back_keeps t (ok a, w) h k = k
  rolled_back_keeps t (err e, w) h k = h

  pub Keeps-transaction : (m : M A) → Keeps P m → Keeps P (transaction m)
  unfolding transaction
  Keeps-transaction m h = record {
    at = λ w p. rolled_back_keeps w.tables _ p (
        (Keeps-bind P (query (λ _. tt {0})) _ (Keeps-query P (λ _. tt {0})) λ _.
            Keeps-bind P m _ h λ a.
              Keeps-bind P (query (λ _. tt {0})) _ (Keeps-query P (λ _. tt {0}))
                λ _. Keeps-pure P a).at
          w p);
  }

pub ruleset keeps_rules = (
  Keeps-pure, Keeps-fail, Keeps-lift, Keeps-query, Keeps-if, Keeps-ignore, Keeps-now,
  Keeps-now_rfc3339, Keeps-new_id, Keeps-exec, Keeps-bind, Keeps-transaction,
)
