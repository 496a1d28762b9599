-- ===== src/Vectors/Forward.antt =====
-- vectors.go: the reads do not turn the clock back.
use go_web_search.Prelude.{[], ◌∷◌, Option, none, some, List, ℤ, ◌≤◌, arith}
use go_web_search.Strings.{Text}
use go_web_search.Rows.{OwnerKind, Vec, VectorTable, vector_table, vector_migration}
use go_web_search.Meta.{meta_get}
use go_web_search.Store.{Result, err, World, M, query, no_such_table}
use go_web_search.Store.Forward.{Forward, Forward-pure, Forward-query, Forward-bind}
use go_web_search.Vectors.{
  VectorHit, vector_search, find_table, nearest, search_limit, rows_of, active_vector_table,
  active_from,
}

-- What is done with the table that is found.
found_forward :
    {A : Type 0} (m : M A) (w : World) (o : Option VectorTable)
    → w.clock ≤ (m w).1.clock
    → w.clock
      ≤ (elim o as (λ _. Result A × World) [ none ↦ (err no_such_table, w) | some t ↦ m w ]).1.clock
found_forward m w none le = omega arith
found_forward m w (some t) le = le

pub vector_search-Forward :
    (table : Text) (kind : OwnerKind) (q : Vec) (k : ℤ) → Forward (vector_search table kind q k)
unfolding vector_search
vector_search-Forward table kind q k = record {
  at = λ w.
      let m : M (List VectorHit) =
        query
          λ t. nearest w.cosine kind q (search_limit k) (rows_of (find_table table t.vectors)) in
      found_forward m w (find_table table w.tables.vectors) ((Forward-query _).at w);
}

pub active_vector_table-Forward : Forward active_vector_table
unfolding active_vector_table meta_get
active_vector_table-Forward =
    Forward-bind (meta_get vector_table) active_from (Forward-query _) from
  where
    from : (found : Option Text) → Forward (active_from found)
    from none = Forward-pure _
    from (some []) = Forward-pure _
    from (some (c ∷ s)) =
        Forward-bind (meta_get vector_migration) _ (Forward-query _) λ m. Forward-pure _
