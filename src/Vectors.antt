-- ===== src/Vectors.antt =====
-- vectors.go: the generation tables of embeddings, their exact nearest-neighbour scan, and which
-- table semantic reads use.
pub mod Laws
pub mod Forward
pub mod Nearest
pub mod Upsert
use go_web_search.Prelude.{
  ℕ, zero, suc, ◌-◌, Bool, true, false, not, ◌&&◌, List, [], ◌∷◌, ◌++◌, map, Option, none, some,
  String, str_eq, if◌then◌else◌, ℤ, pos, negsuc, ltb, take,
}
use go_web_search.Clock.{Stamp}
use go_web_search.Strings.{Text, text_eq}
use go_web_search.Rows.{
  OwnerKind, memory, search, unknown, Vec, VectorRow, VectorTable, Tables, vector_migration,
  vector_table,
}
use go_web_search.Sql.{select, delete, count, order_by}
use go_web_search.Store.{
  Error, Result, ok, err, World, M, ◌>>=◌, ◌>>◌, pure, fail, now_rfc3339, exec, query, transaction,
  verdict_from,
}
use go_web_search.Meta.{meta_get}

-- Distance in millionths, in [0, 2000000].
pub record VectorHit : Type 0 where
  pub id : String
  pub distance : ℕ

abbrev pub owner_kind_eq : OwnerKind → OwnerKind → Bool
owner_kind_eq memory memory = true
owner_kind_eq search search = true
owner_kind_eq (unknown a) (unknown b) = str_eq a b
owner_kind_eq _ _ = false

unfoldable pub find_table : Text → List VectorTable → Option VectorTable
find_table name [] = none
find_table name (t ∷ ts) = if text_eq t.name name then some t else find_table name ts

unfoldable pub map_table :
    Text → (List VectorRow → List VectorRow) → List VectorTable → List VectorTable
map_table name f [] = []
map_table name f (t ∷ ts) =
    (if text_eq t.name name then record t { rows = f t.rows } else t) ∷ map_table name f ts

abbrev pub on_vectors : (List VectorTable → List VectorTable) → Tables → Tables
on_vectors f t = record t { vectors = f t.vectors }

-- CREATE TABLE IF NOT EXISTS; the index that follows changes no row. The declared dimension is the
-- column's type only and is not kept.
unfoldable pub create_table : Text → List VectorTable → List VectorTable
unfolding find_table
create_table name ts = elim (find_table name ts) [
  | none ↦ ts ++ record { name = name; rows = [] } ∷ []
  | some t ↦ ts
]

unfoldable pub ensure_vector_table : Text → ℤ → M ℕ
unfolding create_table
ensure_vector_table name dim = do
  exec (λ t. (on_vectors (create_table name) t, 0))
  exec (λ t. (t, 0))

-- A statement on one generation table, which must exist.
abbrev pub when_table : {A : Type 0} → Text → M A → M A
when_table name m w = elim (find_table name w.tables.vectors) [
  | none ↦ (err Error.no_such_table, w)
  | some t ↦ m w
]

abbrev pub owned_by : OwnerKind → String → VectorRow → Bool
owned_by kind id r = owner_kind_eq r.owner_kind kind && str_eq r.id id

unfoldable pub delete_vector : Text → OwnerKind → String → M ℕ
unfolding find_table map_table
delete_vector table kind id =
    when_table table (exec (λ t. (on_vectors (map_table table (delete (owned_by kind id))) t, 0)))

unfoldable pub insert_vector : Text → VectorRow → M ℕ
unfolding find_table map_table
insert_vector table r =
    when_table table (exec (λ t. (on_vectors (map_table table (λ rows. rows ++ r ∷ [])) t, 1)))

unfoldable pub upsert_vector : Text → OwnerKind → String → Vec → Text → ℤ → M ℕ
upsert_vector table kind id embedding model dim = transaction (do
  delete_vector table kind id
  at ← now_rfc3339
  insert_vector table (record {
    id = id;
    owner_kind = kind;
    embedding = embedding;
    model = model;
    dim = dim;
    created_at = at;
  }))

abbrev pub search_limit : ℤ → ℕ
search_limit (pos zero) = 8
search_limit (pos (suc n)) = suc n
search_limit (negsuc n) = 8

unfoldable pub hit : (Vec → Vec → ℕ) → Vec → VectorRow → VectorHit
hit cosine query_vec r = record { id = r.id; distance = cosine r.embedding query_vec }

unfoldable pub nearest : (Vec → Vec → ℕ) → OwnerKind → Vec → ℕ → List VectorRow → List VectorHit
unfolding hit
nearest cosine kind query_vec k rows = take k (
    order_by (λ a b. ltb a.distance b.distance)
      (map (hit cosine query_vec) (select (λ r. owner_kind_eq r.owner_kind kind) rows)))

abbrev pub rows_of : Option VectorTable → List VectorRow
rows_of none = []
rows_of (some t) = t.rows

unfoldable pub vector_search : Text → OwnerKind → Vec → ℤ → M (List VectorHit)
vector_search table kind query_vec k w =
    when_table table
      (query λ t.
        nearest w.cosine kind query_vec (search_limit k) (rows_of (find_table table t.vectors)))
      w

abbrev pub no_table : Text
no_table = []

-- The active table, "" for none, and whether semantic reads may use it.
abbrev pub ready_unless : Text → Option Text → Text × Bool
ready_unless table none = (table, true)
ready_unless table (some []) = (table, true)
ready_unless table (some (c ∷ s)) = (table, false)

abbrev pub active_from : Option Text → M (Text × Bool)
active_from none = pure (no_table, false)
active_from (some []) = pure (no_table, false)
active_from (some (c ∷ s)) = do
  migrating ← meta_get vector_migration
  pure (ready_unless (c ∷ s) migrating)

unfoldable pub active_vector_table : M (Text × Bool)
unfolding meta_get
active_vector_table = do found ← meta_get vector_table; active_from found
