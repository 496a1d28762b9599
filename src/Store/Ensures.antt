-- ===== src/Store/Ensures.antt =====
-- What a store method leaves in the tables where it returns: rules for each way to build a method.
use go_web_search.Prelude.{◌≡◌, refl, subst, sym, inl, inr, ℕ}
use go_web_search.Rows.{Tables}
use go_web_search.Store.{Error, Result, ok, err, World, M, continue, ◌>>=◌, exec}
use go_web_search.Store.Laws.{exec-cases}
use go_web_search.Store.Keeps.{Keeps}

pub record Ensures {A : Type 0} (Q : Tables → Type 0) (m : M A) : Type 0 where
  pub at : (w : World) (a : A) → (m w).0 ≡ ok a → Q (m w).1.tables

failed_not_ok : {A : Type 0} (r : Result A) (e : Error) (a : A) → r ≡ err e → r ≡ ok a → ⊥
failed_not_ok r e a h k = cc

module _ {A B : Type 0} (Q : Tables → Type 0) where
  -- The rest keeps what the first step ensures.
  pub Ensures-kept :
      (m : M A) (f : A → M B) → Ensures Q m → ((a : A) → Keeps Q (f a)) → Ensures Q (m >>= f)
  Ensures-kept m f h k = record { at = λ w b e. kept f (m w) (h.at w) k b e }
    where
      kept :
          (f : A → M B) (r : Result A × World)
          → ((a : A) → r.0 ≡ ok a → Q r.1.tables)
          → ((a : A) → Keeps Q (f a))
          → (b : B) → (continue r f).0 ≡ ok b
          → Q (continue r f).1.tables
      kept f (ok a, w) h k b e = (k a).at w (h a refl)
      kept f (err x, w) h k b e = absurd (failed_not_ok (err x) x b refl e)

  -- The rest alone ensures it.
  pub Ensures-then : (m : M A) (f : A → M B) → ((a : A) → Ensures Q (f a)) → Ensures Q (m >>= f)
  Ensures-then m f k = record { at = λ w b e. then_ f (m w) k b e }
    where
      then_ :
          (f : A → M B) (r : Result A × World)
          → ((a : A) → Ensures Q (f a))
          → (b : B) → (continue r f).0 ≡ ok b
          → Q (continue r f).1.tables
      then_ f (ok a, w) k b e = (k a).at w b e
      then_ f (err x, w) k b e = absurd (failed_not_ok (err x) x b refl e)

pub Ensures-exec :
    (Q : Tables → Type 0) (f : Tables → Tables × ℕ)
    → ((t : Tables) → Q (f t).0)
    → Ensures Q (exec f)
Ensures-exec Q f h = record {
  at = λ w n e. elim (exec-cases f w) [
    | inl same ↦ absurd (failed_not_ok _ _ n (same.0) e)
    | inr done ↦ subst Q (sym (done.1)) (h w.tables)
  ];
}
