-- ===== src/Store.antt =====
-- store.go: the open store, and what a statement on it does. A store method is a state transformer
-- that returns a Go error or a value; what it wrote before an error stays written.
--
-- What the code does not implement enters as fields of the world: whether the database driver
-- performs the next statement (`faults`, true where it returns an error; a driver whose list has
-- run out performs everything), how far the clock moves before each reading (`ticks`), the
-- identifiers that the uuid package returns, and the engine's cosine distance in millionths.
pub mod Laws
pub mod Keeps
pub mod Yields
pub mod Forward
pub mod Ensures
pub mod Triple
pub mod Always
use go_web_search.Prelude.{
  ℕ, zero, suc, ◌+◌, Bool, true, false, List, [], ◌∷◌, Option, none, some, String, if◌then◌else◌, ℤ,
  pos, negsuc, ltb,
}
use go_web_search.Clock.{Time, Stamp, format}
use go_web_search.Strings.{Text, runes, text_eq, to_lower, trim_space}
use go_web_search.Rows.{Tables, Vec}

pub data Error : Type 0 where
  -- the driver failed, or `no such table`, or `sql.ErrNoRows`
  driver no_such_table no_rows : Error
  -- a JSON text that does not decode
  decode : Error
  -- the model service failed, or answered with an unexpected number of vectors
  llm no_vector : Error
  not_configured no_active_table : Error
  -- a request or a setting that is refused
  invalid : Error

pub data Result {ℓ} (A : Type ℓ) : Type ℓ where
  ok : A → Result A
  err : Error → Result A

pub record World : Type 0 where
  pub tables : Tables
  pub faults : List Bool
  pub clock : Time
  pub ticks : List ℕ
  pub uuid : ℕ → String
  pub issued : ℕ
  pub cosine : Vec → Vec → ℕ

abbrev pub M : Type 0 → Type 0
M A = World → Result A × World

abbrev pub continue : {A B : Type 0} → Result A × World → (A → M B) → Result B × World
continue (ok a, w) f = f a w
continue (err e, w) f = (err e, w)

infixl 5 ◌>>=◌ ◌>>◌
abbrev pub ◌>>=◌ : {A B : Type 0} → M A → (A → M B) → M B
◌>>=◌ m f w = continue (m w) f

abbrev pub ◌>>◌ : {A B : Type 0} → M A → M B → M B
m >> n = m >>= λ _. n

abbrev pub pure : {A : Type 0} → A → M A
pure a w = (ok a, w)

-- A call that does not touch the store.
unfoldable pub lift : {A : Type 0} → Result A → M A
lift r w = (r, w)

abbrev pub fail : {A : Type 0} → Error → M A
fail e w = (err e, w)

-- `v, _ := m`, `_ = m`: the error is dropped, and `d` stands for the value.
abbrev pub or_default : {A : Type 0} → A → Result A × World → Result A × World
or_default d (ok a, w) = (ok a, w)
or_default d (err e, w) = (ok d, w)

abbrev pub ignore : {A : Type 0} → A → M A → M A
ignore d m w = or_default d (m w)

-- The error as a value that the caller looks at.
abbrev pub attempt : {A : Type 0} → M A → M (Result A)
attempt m w = (ok (m w).0, (m w).1)

-- `defer m`: it runs behind the body, and its error is dropped.
abbrev pub ensuring : {A B : Type 0} → M A → M B → M B
ensuring m body w = ((body w).0, (m (body w).1).1)

-- time.Now().UTC()
pub tick_from : List ℕ → World → World
tick_from [] w = w
tick_from (d ∷ ds) w = record w { clock = w.clock + d; ticks = ds }

unfoldable pub now : M Time
unfolding tick_from
now w = let w' = tick_from w.ticks w in (ok w'.clock, w')

-- nowRFC3339
unfoldable pub now_rfc3339 : M Stamp
unfolding now
now_rfc3339 = do t ← now; pure (format t)

-- newID
unfoldable pub new_id : M String
new_id w = (ok (w.uuid w.issued), record w { issued = suc w.issued })

-- The driver's verdict on the next statement.
pub verdict_from : List Bool → World → Bool × World
verdict_from [] w = (false, w)
verdict_from (b ∷ bs) w = (b, record w { faults = bs })

-- ExecContext: the statement changes the tables and tells how many rows it affected.
unfoldable pub exec : (Tables → Tables × ℕ) → M ℕ
unfolding verdict_from
exec f w =
    let (bad, w') = verdict_from w.faults w in
    let (t, n) = f w'.tables in
    if bad then (err Error.driver, w') else (ok n, record w' { tables = t })

-- QueryContext and QueryRowContext, with the scan of the rows.
unfoldable pub query {ℓ} : {A : Type ℓ} → (Tables → A) → World → Result A × World
unfolding verdict_from
query f w =
    let (bad, w') = verdict_from w.faults w in
    if bad then (err Error.driver, w') else (ok (f w'.tables), w')

-- BeginTx ... Commit with `defer tx.Rollback()`: an error on the way undoes the writes.
abbrev pub rolled_back : {A : Type 0} → Tables → Result A × World → Result A × World
rolled_back t (ok a, w) = (ok a, w)
rolled_back t (err e, w) = (err e, record w { tables = t })

unfoldable pub transaction : {A : Type 0} → M A → M A
unfolding query
transaction m w =
    rolled_back w.tables ((do query (λ _. tt {0}); a ← m; query (λ _. tt {0}); pure a) w)

-- `limit <= 0 || limit > max` gives the default.
unfoldable pub clamp_limit : ℕ → ℕ → ℤ → ℕ
clamp_limit default max (pos zero) = default
clamp_limit default max (pos (suc n)) = if ltb max (suc n) then default else suc n
clamp_limit default max (negsuc n) = default

-- `offset < 0` gives 0.
unfoldable pub clamp_offset : ℤ → ℕ
clamp_offset (pos n) = n
clamp_offset (negsuc n) = 0

-- clampPage
unfoldable pub clamp_page : ℤ → ℤ → ℕ × ℕ
unfolding clamp_limit clamp_offset
clamp_page limit offset = (clamp_limit 50 500 limit, clamp_offset offset)

-- normalizeAutoVacuum
unfoldable pub normalize_auto_vacuum : Text → String
unfolding to_lower trim_space
normalize_auto_vacuum v =
    let mode = to_lower (trim_space v) in
    if text_eq mode (runes "full")
    then "FULL"
    else if text_eq mode (runes "incremental")
    then "INCREMENTAL"
    else ""
