-- ===== src/Store/Laws.antt =====
-- What the store's primitives do, whether or not the driver performs its statements.
use go_web_search.Prelude.{ℕ, ◌≤◌, ◌≡◌, ◌⊎◌, [], ◌∷◌, List, refl, ℤ, pos, negsuc, arith, ap, ◌∙◌}
use go_web_search.Rows.{Tables}
use go_web_search.Store.{
  ok, err, World, exec, query, now, driver, clamp_page, transaction, M, ◌>>=◌, continue,
  rolled_back, tick_from,
}

-- A paginated listing is bounded whatever the request says: at least one row, at most 500, and a
-- limit within these bounds is taken as it is.
pub clamp_page_bounds :
    (limit offset : ℤ)
    → (1 ≤ (clamp_page limit offset).0)
      × ((clamp_page limit offset).0 ≤ 500)
      × ((n : ℕ) → limit ≡ pos n → 1 ≤ n → n ≤ 500 → (clamp_page limit offset).0 ≡ n)
      × ((n : ℕ) → offset ≡ pos n → (clamp_page limit offset).1 ≡ n)
unfolding clamp_page
clamp_page_bounds (pos n) offset =
    (ground arith, ground arith, λ m e h k. ground arith, λ m e. ground arith)
clamp_page_bounds (negsuc n) offset =
    (ground arith, ground arith, λ m e h k. ground arith, λ m e. ground arith)

-- A statement fails and changes no table, or has its effect.
pub exec-cases :
    (f : Tables → Tables × ℕ) (w : World)
    → ((exec f w).0 ≡ err driver) × ((exec f w).1.tables ≡ w.tables)
      ⊎ ((exec f w).0 ≡ ok (f w.tables).1) × ((exec f w).1.tables ≡ (f w.tables).0)
unfolding exec
exec-cases f w = ground arith

pub exec_calm :
    (f : Tables → Tables × ℕ) (w : World)
    → w.faults ≡ []
    → exec f w ≡ (ok (f w.tables).1, record w { tables = (f w.tables).0 })
unfolding exec
exec_calm f w h = ground arith

pub query_calm {ℓ} :
    {A : Type ℓ} (f : Tables → A) (w : World) → w.faults ≡ [] → query f w ≡ (ok (f w.tables), w)
unfolding query
query_calm f w h = ground arith

pub query_tables {ℓ} : {A : Type ℓ} (f : Tables → A) (w : World) → (query f w).1.tables ≡ w.tables
unfolding query
query_tables f w = ground arith

pub now_tables :
    (w : World)
    → ((now w).1.tables ≡ w.tables)
      × ((now w).1.faults ≡ w.faults)
      × (w.clock ≤ (now w).1.clock)
      × ((now w).0 ≡ ok (now w).1.clock)
unfolding now
now_tables w = ground arith

pub query_ok {ℓ} :
    {A : Type ℓ} (f : Tables → A) (w : World) (a : A) → (query f w).0 ≡ ok a → a ≡ f w.tables
unfolding query
query_ok f w a h = ground arith

-- The next step runs on what the one before it returned.
pub bind_ok :
    {A B : Type 0} (m : M A) (f : A → M B) (w : World) (a : A) (w' : World)
    → m w ≡ (ok a, w')
    → (m >>= f) w ≡ f a w'
bind_ok m f w a w' e = ap (λ o. continue o f) e

pub transaction_calm :
    {A : Type 0} (m : M A) (w : World) (a : A) (w' : World)
    → w.faults ≡ []
    → w'.faults ≡ []
    → m w ≡ (ok a, w')
    → transaction m w ≡ (ok a, w')
unfolding transaction
transaction_calm m w a w' calm calm' e = ap (rolled_back w.tables) (
    bind_ok (query (λ _. tt {0})) _ w tt w (query_calm (λ _. tt {0}) w calm)
    ∙ bind_ok m _ w a w' e
    ∙ bind_ok (query (λ _. tt {0})) _ w' tt w' (query_calm (λ _. tt {0}) w' calm'))

-- Reading the clock touches neither the tables nor the driver.
pub tick_from_same :
    (ts : List ℕ) (w : World)
    → ((tick_from ts w).faults ≡ w.faults) × ((tick_from ts w).tables ≡ w.tables)
unfolding tick_from
tick_from_same [] w = (refl, refl)
tick_from_same (d ∷ ds) w = (refl, refl)
