-- ===== src/Vectors/Nearest.antt =====
-- VectorSearch: the exact nearest neighbours of the wanted kind.
use go_web_search.Prelude.{ℕ, ◌≤◌, ◌≡◌, ◌⊎◌, true, List, map, All, In, length, ltb}
use go_web_search.Rows.{OwnerKind, Vec, VectorRow}
use go_web_search.Sql.{select, order_by, count}
use go_web_search.Sql.Order.{Ordered}
use go_web_search.Vectors.{VectorHit, owner_kind_eq, hit}

-- The hit is a row of the kind with its distance to the query.
abbrev pub IsHit : (Vec → Vec → ℕ) → OwnerKind → Vec → List VectorRow → VectorHit → Type 0
IsHit cosine kind q rows h =
    (r : VectorRow) × In r rows
    × (owner_kind_eq r.owner_kind kind ≡ true)
    × (h.id ≡ r.id)
    × (h.distance ≡ cosine r.embedding q)

-- What an exact nearest-neighbour search returns: k rows of the kind, or all of them where there are
-- fewer, nearest first, and no row of the kind that is left out is nearer than one that is returned.
pub record IsNearest (cosine : Vec → Vec → ℕ) (kind : OwnerKind) (q : Vec) (k : ℕ)
    (rows : List VectorRow) (hits : List VectorHit) : Type 0 where
  pub full :
      (length hits ≡ k)
      ⊎ ((length hits ≤ k) × (length hits ≡ count (λ r. owner_kind_eq r.owner_kind kind) rows))
  pub ordered : Ordered (λ (h : VectorHit). h.distance) hits
  pub sound : All (IsHit cosine kind q rows) hits
  pub complete :
      (r : VectorRow)
      → In r rows
      → owner_kind_eq r.owner_kind kind ≡ true
      → In (hit cosine q r) hits ⊎ All (λ h. h.distance ≤ cosine r.embedding q) hits

module _ (cosine : Vec → Vec → ℕ) (kind : OwnerKind) (q : Vec) (k : ℕ) (rows : List VectorRow) where
  abbrev of_kind : List VectorRow
  of_kind = select (λ r. owner_kind_eq r.owner_kind kind) rows

  abbrev by_distance : List VectorHit
  by_distance = order_by (λ a b. ltb a.distance b.distance) (map (hit cosine q) of_kind)
