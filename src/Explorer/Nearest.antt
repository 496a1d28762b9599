-- ===== src/Explorer/Nearest.antt =====
-- explorer.go, `Explore`: what is shown.
use go_web_search.Prelude.{
  ℕ, zero, suc, ◌≤◌, ◌<◌, ltb, ◌≡◌, ◌⊎◌, refl, inl, inr, Bool, true, false, List, [], ◌∷◌, ◌++◌,
  Option, none, some, String, str_eq, eq_iff, In, All, All-append, arith, ℤ, pos, negsuc, length,
  length-take, ap, sym, subst, Bool-cases,
}
use go_web_search.Strings.{Text}
use go_web_search.Rows.{memory, search, FactRow, SearchCacheRow, Vec, Tables}
use go_web_search.Sql.{select, order_by}
use go_web_search.Sql.Rows.{All-order_by, All-take, All-select, All-In, All-weaken}
use go_web_search.Sql.Order.{Ordered, order_by-Ordered, take-Ordered}
use go_web_search.Store.{Error, Result, ok, err, World, pure, query, lift, attempt}
use go_web_search.Store.Triple.{
  Triple, Triple-pure, Triple-fail, Triple-query, Triple-any, Triple-bind,
}
use go_web_search.Llm.{LlmClient}
use go_web_search.Vectors.{VectorHit, active_vector_table, vector_search}
use go_web_search.Explorer.{
  Neighbor, ExploreResult, explore_k, is_hit, last_with, memory_neighbor, search_neighbor,
  cons_found, resolve_hits, resolve_memory_hits, resolve_search_hits, closer, unavailable,
  no_vectors_note, migrating_note, explore_hits, explore_found, explore_vec, explore_in, explore,
}

-- The neighbour is a stored fact or a cached search, under the id of its row.
abbrev pub Shown : Tables → Neighbor → Type 0
Shown t n =
    ((r : FactRow) × In r t.memory_facts × (n.id ≡ r.id) × (n.text ≡ r.text))
    ⊎ ((r : SearchCacheRow) × In r t.search_cache × (n.id ≡ r.id) × (n.text ≡ r.query))

-- The number of neighbours that a caller's k asks for: 10 where it is not positive, and 100 at most.
abbrev pub Asked : ℤ → ℕ → Type 0
Asked (pos zero) m = m ≡ 10
Asked (pos (suc n)) m = ((suc n ≤ 100) × (m ≡ suc n)) ⊎ ((100 < suc n) × (m ≡ 100))
Asked (negsuc n) m = m ≡ 10

-- What Explore returns for a caller's k.
pub record IsListing (asked : ℤ) (r : ExploreResult) (t : Tables) : Type 0 where
  pub wanted : Asked asked r.k
  pub some_wanted : 1 ≤ r.k
  pub at_most : r.k ≤ 100
  pub bounded : length r.neighbors ≤ r.k
  pub ordered : Ordered (λ (n : Neighbor). n.distance) r.neighbors
  pub shown : All (Shown t) r.neighbors
  pub silent : r.available ≡ false → r.neighbors ≡ []

module _ {A : Type 0} (id_of : A → String) (P : A → Type 0) where
  -- The row that is found is one of the rows, under the id.
  last_with_found :
      (id : String) (rs : List A) (found : Option A) (r : A)
      → ((x : A) → found ≡ some x → P x × (id_of x ≡ id))
      → All P rs
      → last_with id_of id found rs ≡ some r
      → P r × (id_of r ≡ id)
  unfolding last_with
  last_with_found id [] found r h k e = h r e
  last_with_found id (x ∷ rs) found r h k e = elim (Bool-cases (str_eq (id_of x) id)) [
    | inl same ↦
        last_with_found id rs (some x) r
          (λ y e'.
            subst (λ z. P z × (id_of z ≡ id)) (some_injective x y e')
              (k.0, (eq_iff (id_of x) id).0 same))
          k.1 (rw same at e)
    | inr other ↦ last_with_found id rs found r h k.1 (rw other at e)
  ]
    where
      some_injective : (x y : A) → some x ≡ some y → x ≡ y
      some_injective x y e = ap (λ (o : Option A). elim o [ none ↦ x | some z ↦ z ]) e

  resolve_hits-All :
      (f : VectorHit → A → Neighbor) (Q : Neighbor → Type 0)
      → ((h : VectorHit) (r : A) → P r → id_of r ≡ h.id → Q (f h r))
      → (rs : List A) → All P rs
      → (hs : List VectorHit) → All Q (resolve_hits id_of f rs hs)
  unfolding resolve_hits
  resolve_hits-All f Q q rs k [] = tt
  resolve_hits-All f Q q rs k (h ∷ hs) =
      with_row (last_with id_of h.id none rs) refl (resolve_hits-All f Q q rs k hs)
    where
      with_row :
          (o : Option A)
          → last_with id_of h.id none rs ≡ o
          → All Q (resolve_hits id_of f rs hs)
          → All Q (cons_found (f h) o (resolve_hits id_of f rs hs))
      with_row none e rest = rest
      with_row (some r) e rest =
          let (p, same) = last_with_found h.id rs none r (λ x e'. absurd (nothing x e')) k e in
          (q h r p same, rest)
        where
          nothing : (x : A) → none ≡ some x → ⊥
          nothing x e' = cc

module _ (P : Tables → Type 0) where
  shown_facts :
      (hs : List VectorHit) → Triple P (resolve_memory_hits hs) (λ ns t. P t × All (Shown t) ns)
  unfolding resolve_memory_hits
  shown_facts [] = Triple-pure P [] _ λ t p. (p, tt)
  shown_facts (h ∷ hs) =
      Triple-bind P
        (λ rs t. (rs ≡ select (λ (r : FactRow). is_hit (h ∷ hs) r.id) t.memory_facts) × P t) _
        (query (λ t. select (λ (r : FactRow). is_hit (h ∷ hs) r.id) t.memory_facts)) _
        (Triple-query P _)
        λ rs. Triple-pure _ _ _ λ t p. (
          p.1,
          resolve_hits-All (λ (r : FactRow). r.id) (λ r. In r t.memory_facts) memory_neighbor
              (Shown t) (λ x r i e. inl (r, i, sym e, refl)) rs
              (subst (All (λ (r : FactRow). In r t.memory_facts)) (sym p.0) (
                All-weaken _ _ _ (λ r k. k.0)
                  (All-select (λ (r : FactRow). In r t.memory_facts) _ t.memory_facts
                    (All-In t.memory_facts))))
              (h ∷ hs),
        )

  shown_searches :
      (hs : List VectorHit) → Triple P (resolve_search_hits hs) (λ ns t. P t × All (Shown t) ns)
  unfolding resolve_search_hits
  shown_searches [] = Triple-pure P [] _ λ t p. (p, tt)
  shown_searches (h ∷ hs) =
      Triple-bind P
        (λ rs t. (rs ≡ select (λ (r : SearchCacheRow). is_hit (h ∷ hs) r.id) t.search_cache) × P t)
        _ (query (λ t. select (λ (r : SearchCacheRow). is_hit (h ∷ hs) r.id) t.search_cache)) _
        (Triple-query P _)
        λ rs. Triple-pure _ _ _ λ t p. (
          p.1,
          resolve_hits-All (λ (r : SearchCacheRow). r.id) (λ r. In r t.search_cache) search_neighbor
              (Shown t) (λ x r i e. inr (r, i, sym e, refl)) rs
              (subst (All (λ (r : SearchCacheRow). In r t.search_cache)) (sym p.0) (
                All-weaken _ _ _ (λ r k. k.0)
                  (All-select (λ (r : SearchCacheRow). In r t.search_cache) _ t.search_cache
                    (All-In t.search_cache))))
              (h ∷ hs),
        )

explore_k-Asked : (k : ℤ) → Asked k (explore_k k)
explore_k-Asked (pos zero) = refl
explore_k-Asked (pos (suc n)) = elim (Bool-cases (ltb 100 (suc n))) [
  | inl e ↦ inr (ground (arith, e), ground (arith, e))
  | inr e ↦ inl (ground (arith, e), ground (arith, e))
]
explore_k-Asked (negsuc n) = refl

explore_k_bounds : (k : ℤ) → (1 ≤ explore_k k) × (explore_k k ≤ 100)
explore_k_bounds (pos zero) = (omega arith, omega arith)
explore_k_bounds (pos (suc n)) = (ground arith, ground arith)
explore_k_bounds (negsuc n) = (omega arith, omega arith)

abbrev Any : Tables → Type 0
Any t = Unit

module _ (q : Text) (asked : ℤ) (k : ℕ) (want : Asked asked k) (lo : 1 ≤ k) (hi : k ≤ 100) where
  abbrev Listing : ExploreResult → Tables → Type 0
  Listing = IsListing asked

  unavailable-IsListing : (note : Text) → Triple Any (pure (unavailable q k note)) Listing
  unavailable-IsListing note = Triple-pure Any (unavailable q k note) Listing λ t p. record {
    wanted = want;
    some_wanted = lo;
    at_most = hi;
    bounded = omega arith;
    ordered = tt;
    shown = tt;
    silent = λ e. refl;
  }

  explore_hits-IsListing :
      (table : Text) (vec : Vec) (hits : List VectorHit)
      → Triple Any (explore_hits q k table vec hits) Listing
  unfolding explore_hits
  explore_hits-IsListing table vec hits =
      Triple-bind Any (λ hs t. Unit {0}) Listing (vector_search table search vec (pos k)) _
        (Triple-any Any (vector_search table search vec (pos k)) (Unit {0}) (λ t p. tt))
        λ found.
          Triple-bind Any (λ ns t. Unit {0} × All (Shown t) ns) Listing (resolve_memory_hits hits) _
            (shown_facts Any hits)
            λ facts.
              Triple-bind (λ t. Unit {0} × All (Shown t) facts)
                (λ ns t. (Unit {0} × All (Shown t) facts) × All (Shown t) ns) Listing
                (resolve_search_hits found) _ (shown_searches _ found)
                λ cached. Triple-pure _ _ Listing λ t p. record {
                  wanted = want;
                  some_wanted = lo;
                  at_most = hi;
                  bounded = omega (arith, length-take k (order_by closer (facts ++ cached)));
                  ordered =
                      take-Ordered (λ (n : Neighbor). n.distance) k
                        (order_by closer (facts ++ cached))
                        (order_by-Ordered (λ (n : Neighbor). n.distance) (facts ++ cached));
                  shown = All-take (Shown t) k _ (
                      All-order_by (Shown t) closer (facts ++ cached)
                        (All-append (Shown t) facts cached (p.0.1) p.1));
                  silent = λ e. absurd (available e);
                }
    where
      available : true ≡ false → ⊥
      available e = cc

  explore_found-IsListing :
      (table : Text) (vec : Vec) (found : Result (List VectorHit))
      → Triple Any (explore_found q k table vec found) Listing
  unfolding explore_found explore_hits
  explore_found-IsListing table vec (ok hits) = explore_hits-IsListing table vec hits
  explore_found-IsListing table vec (err Error.no_such_table) =
      unavailable-IsListing no_vectors_note
  explore_found-IsListing table vec (err e) = Triple-fail Any _ Listing

  explore_vec-IsListing :
      (table : Text) (vec : Vec) → Triple Any (explore_vec q k table vec) Listing
  unfolding explore_vec
  explore_vec-IsListing table [] = Triple-fail Any Error.no_vector Listing
  explore_vec-IsListing table (x ∷ vec) =
      Triple-bind Any (λ found t. Unit {0}) Listing
        (attempt (vector_search table memory (x ∷ vec) (pos k))) _
        (Triple-any Any (attempt (vector_search table memory (x ∷ vec) (pos k))) (Unit {0})
          (λ t p. tt))
        (explore_found-IsListing table (x ∷ vec))

  explore_in-IsListing :
      (llm : LlmClient) (active : Text × Bool) → Triple Any (explore_in llm q k active) Listing
  unfolding explore_in
  explore_in-IsListing llm ([], ready) = unavailable-IsListing no_vectors_note
  explore_in-IsListing llm (c ∷ s, false) = unavailable-IsListing migrating_note
  explore_in-IsListing llm (c ∷ s, true) =
      Triple-bind Any (λ vec t. Unit {0}) Listing (lift (llm.embed true q)) _
        (Triple-any Any (lift (llm.embed true q)) (Unit {0}) (λ t p. tt))
        (explore_vec-IsListing (c ∷ s))

-- Whatever the model, the vectors and the driver do: where Explore returns, it lists at most as many
-- neighbours as the caller's k asks for (10 for a k that is not positive, and 100 at most), the nearest
-- first, and each is a stored
-- fact or a cached search; where the vectors are not available it lists none.
pub explore-IsListing :
    (llm : LlmClient) (q : Text) (k : ℤ) (w : World) (r : ExploreResult)
    → (explore llm q k w).0 ≡ ok r
    → IsListing k r (explore llm q k w).1.tables
unfolding explore
explore-IsListing llm q k w r e =
    let (lo, hi) = explore_k_bounds k in
    (Triple-bind Any (λ active t. Unit {0}) (IsListing k) active_vector_table _
        (Triple-any Any active_vector_table (Unit {0}) (λ t p. tt))
        (explore_in-IsListing q k (explore_k k) (explore_k-Asked k) lo hi llm)).at
      w r tt e
