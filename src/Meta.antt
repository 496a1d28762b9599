-- ===== src/Meta.antt =====
-- meta.go: the key/value rows of system_meta.
pub mod Laws
use go_web_search.Prelude.{
  ℕ, Bool, true, false, List, [], ◌∷◌, ◌++◌, Option, none, some, if◌then◌else◌, ltb,
}
use go_web_search.Clock.{Stamp}
use go_web_search.Strings.{Text}
use go_web_search.Rows.{
  MetaKey, embed_model, embed_dim, vector_migration, vector_table, vector_gen, MetaRow, Tables,
}
use go_web_search.Sql.{count, first, update}
use go_web_search.Store.{Result, ok, err, World, M, ◌>>=◌, ◌>>◌, pure, now_rfc3339, exec, query}

abbrev pub meta_key_eq : MetaKey → MetaKey → Bool
meta_key_eq embed_model embed_model = true
meta_key_eq embed_dim embed_dim = true
meta_key_eq vector_migration vector_migration = true
meta_key_eq vector_table vector_table = true
meta_key_eq vector_gen vector_gen = true
meta_key_eq _ _ = false

abbrev pub has_key : MetaKey → MetaRow → Bool
has_key k r = meta_key_eq r.key k

abbrev pub value_of : Option MetaRow → Option Text
value_of none = none
value_of (some r) = some r.value

unfoldable pub meta_value : MetaKey → List MetaRow → Option Text
meta_value k rows = value_of (first (has_key k) rows)

-- none: the key is absent.
unfoldable pub meta_get : MetaKey → M (Option Text)
unfolding meta_value
meta_get k = query (λ t. meta_value k t.system_meta)

-- INSERT ... ON CONFLICT(key) DO UPDATE
unfoldable pub upsert_meta : MetaKey → Text → Stamp → List MetaRow → List MetaRow
upsert_meta k v at rows =
    if ltb 0 (count (has_key k) rows)
    then update (has_key k) (λ r. record r { value = v; updated_at = at }) rows
    else rows ++ record { key = k; value = v; updated_at = at } ∷ []

abbrev pub on_meta : (List MetaRow → List MetaRow) → Tables → Tables
on_meta f t = record t { system_meta = f t.system_meta }

unfoldable pub meta_set : MetaKey → Text → M ℕ
unfolding upsert_meta
meta_set k v = do at ← now_rfc3339; exec (λ t. (on_meta (upsert_meta k v at) t, 1))
