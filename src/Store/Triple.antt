-- ===== src/Store/Triple.antt =====
-- What a store method leaves in the tables where it returns, from what held of them before: rules for
-- each way to build a method.
use go_web_search.Prelude.{◌∙◌, ◌≡◌, refl, subst, sym, inl, inr, ℕ, String}
use go_web_search.Clock.{Stamp}
use go_web_search.Rows.{Tables}
use go_web_search.Store.{
  Error, Result, ok, err, World, M, continue, ◌>>=◌, pure, fail, now_rfc3339, new_id, exec, query,
  transaction, rolled_back,
}
use go_web_search.Store.Laws.{exec-cases, query_tables, query_ok, now_tables}
use go_web_search.Store.Yields.{ok-injective}

pub record Triple {A : Type 0} (P : Tables → Type 0) (m : M A) (Q : A → Tables → Type 0)
    : Type 0 where
  pub at : (w : World) (a : A) → P w.tables → (m w).0 ≡ ok a → Q a (m w).1.tables

failed_not_ok : {A : Type 0} (r : Result A) (e : Error) (a : A) → r ≡ err e → r ≡ ok a → ⊥
failed_not_ok r e a h k = cc

module _ {A : Type 0} (P : Tables → Type 0) where
  pub Triple-pure :
      (a : A) (Q : A → Tables → Type 0) → ((t : Tables) → P t → Q a t) → Triple P (pure a) Q
  Triple-pure a Q k = record {
    at = λ w b h e. subst (λ c. Q c w.tables) (ok-injective a b e) (k w.tables h);
  }

  pub Triple-fail : (e : Error) (Q : A → Tables → Type 0) → Triple P (fail e) Q
  Triple-fail e Q = record { at = λ w b h k. absurd (failed_not_ok (err e) e b refl k) }

  -- A read returns what the tables hold, and leaves them.
  pub Triple-query : (f : Tables → A) → Triple P (query f) (λ b t. (b ≡ f t) × P t)
  Triple-query f = record { at = λ w b h e. rw query_tables (query_ok f w b e, h) }

  pub Triple-read :
      (f : Tables → A) (Q : A → Tables → Type 0)
      → ((t : Tables) → P t → Q (f t) t)
      → Triple P (query f) Q
  Triple-read f Q k = record {
    at = λ w b h e.
        let (same, p) = (Triple-query f).at w b h e in
        subst (λ c. Q c (query f w).1.tables) (sym same) (k (query f w).1.tables p);
  }

  -- What holds before may be used to choose the rule.
  pub Triple-given :
      (m : M A) (Q : A → Tables → Type 0) → ((t : Tables) → P t → Triple P m Q) → Triple P m Q
  Triple-given m Q k = record { at = λ w a p e. (k w.tables p).at w a p e }

  -- Of a method that nothing is asked of.
  pub Triple-any : (m : M A) → (Q : Type 0) → ((t : Tables) → P t → Q) → Triple P m (λ _ t. Q)
  Triple-any m Q k = record { at = λ w a h e. k w.tables h }

module _ (P : Tables → Type 0) where
  pub Triple-now_rfc3339 : Triple P now_rfc3339 (λ (s : Stamp) t. P t)
  unfolding now_rfc3339
  Triple-now_rfc3339 = record { at = λ w a h e. rw ((now_tables w).0) h }

  pub Triple-new_id : Triple P new_id (λ (s : String) t. P t)
  unfolding new_id
  Triple-new_id = record { at = λ w a h e. h }

  -- With the number of rows that the statement affects.
  pub Triple-exec_count :
      (Q : ℕ → Tables → Type 0) (f : Tables → Tables × ℕ)
      → ((t : Tables) → P t → Q (f t).1 (f t).0)
      → Triple P (exec f) Q
  Triple-exec_count Q f step = record {
    at = λ w n h e. elim (exec-cases f w) [
      | inl same ↦ absurd (failed_not_ok _ _ n (same.0) e)
      | inr done ↦
          subst (Q n) (sym (done.1)) (
            subst (λ m. Q m (f w.tables).0) (ok-injective _ n (sym (done.0) ∙ e)) (step w.tables h))
    ];
  }

  pub Triple-exec :
      (Q : Tables → Type 0) (f : Tables → Tables × ℕ)
      → ((t : Tables) → P t → Q (f t).0)
      → Triple P (exec f) (λ n t. Q t)
  Triple-exec Q f step = record {
    at = λ w n h e. elim (exec-cases f w) [
      | inl same ↦ absurd (failed_not_ok _ _ n (same.0) e)
      | inr done ↦ subst Q (sym (done.1)) (step w.tables h)
    ];
  }

module _ {A B : Type 0} (P : Tables → Type 0) (R : A → Tables → Type 0)
    (Q : B → Tables → Type 0) where
  then_rest :
      (f : A → M B) (r : Result A × World)
      → ((a : A) → r.0 ≡ ok a → R a r.1.tables)
      → ((a : A) → Triple (R a) (f a) Q)
      → (b : B) → (continue r f).0 ≡ ok b
      → Q b (continue r f).1.tables
  then_rest f (ok a, w) h k b e = (k a).at w b (h a refl) e
  then_rest f (err x, w) h k b e = absurd (failed_not_ok (err x) x b refl e)

  pub Triple-bind :
      (m : M A) (f : A → M B)
      → Triple P m R
      → ((a : A) → Triple (R a) (f a) Q)
      → Triple P (m >>= f) Q
  Triple-bind m f h k = record { at = λ w b p e. then_rest f (m w) (λ a d. h.at w a p d) k b e }

module _ {A : Type 0} (P : Tables → Type 0) (Q R : A → Tables → Type 0) where
  pub Triple-weaken :
      (m : M A) → Triple P m Q → ((a : A) (t : Tables) → Q a t → R a t) → Triple P m R
  Triple-weaken m h k = record { at = λ w a p e. k a (m w).1.tables (h.at w a p e) }

-- BEGIN and COMMIT read nothing.
silent : (P : Tables → Type 0) → Triple P (query (λ _. tt {0})) (λ _ t. P t)
silent P = record { at = λ w a h e. (((Triple-query P (λ _. tt {0})).at w a h e).1) }

module _ {A : Type 0} (P : Tables → Type 0) (Q : A → Tables → Type 0) where
  pub Triple-transaction : (m : M A) → Triple P m Q → Triple P (transaction m) Q
  unfolding transaction
  Triple-transaction m h = record { at = λ w a p e. committed w.tables _ a e (body.at w a p) }
    where
      body :
          Triple P (query (λ _. tt {0}) >>= λ _. m >>= λ a. query (λ _. tt {0}) >>= λ _. pure a) Q
      body =
          Triple-bind P (λ _ t. P t) Q (query (λ _. tt {0})) _ (silent P)
            λ _. Triple-bind P Q Q m _ h λ a.
              Triple-bind (Q a) (λ _ t. Q a t) Q (query (λ _. tt {0})) _ (silent (Q a))
                λ _. Triple-pure (Q a) a Q λ t q. q

      committed :
          (t : Tables) (r : Result A × World) (a : A)
          → (rolled_back t r).0 ≡ ok a
          → (r.0 ≡ ok a → Q a r.1.tables)
          → Q a (rolled_back t r).1.tables
      committed t (ok b, w) a e k = k e
      committed t (err x, w) a e k = absurd (failed_not_ok (err x) x a refl e)
