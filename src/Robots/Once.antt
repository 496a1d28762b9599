-- ===== src/Robots/Once.antt =====
-- robots.go: how often a robots.txt is fetched.
use go_web_search.Prelude.{
  ℕ, ◌≡◌, refl, ap, ◌∙◌, sym, subst, List, [], ◌∷◌, ◌++◌, map, map-snoc, Option, none, some, In,
  Distinct, Distinct-snoc, Bool, true, false, Bool-cases, inl, inr,
}
use go_web_search.Strings.{Text, text_eq, text_eq_iff}
use go_web_search.Robots.{
  Target, Group, RobotsCache, new_robots_cache, find_entry, origin_of, group_or_fetch, allowed,
}

-- The requests are those of the entries, and no origin was asked twice.
pub record IsOnce (c : RobotsCache) : Type 0 where
  pub asked : map (λ (e : Text × Option Group). e.0) c.entries ≡ c.requests
  pub distinct : Distinct c.requests

find_entry-none :
    (key : Text) (es : List (Text × Option Group))
    → find_entry key es ≡ none
    → ¬ In key (map (λ (e : Text × Option Group). e.0) es)
unfolding find_entry
find_entry-none key [] e i = i
find_entry-none key ((k, g) ∷ es) e i = elim (Bool-cases (text_eq k key)) [
  | inl here ↦ found (rw here at e)
  | inr other ↦ behind other i (find_entry-none key es (rw other at e))
]
  where
    found : {A : Type 0} {a : A} → some a ≡ none → ⊥
    found e = cc

    behind :
        text_eq k key ≡ false
        → In key (k ∷ map (λ (e : Text × Option Group). e.0) es)
        → ¬ In key (map (λ (e : Text × Option Group). e.0) es)
        → ⊥
    behind other (inl same) h = clash other ((text_eq_iff k key).1 same)
      where
        clash : {b : Bool} → b ≡ false → b ≡ true → ⊥
        clash p q = cc
    behind other (inr j) h = h j

module _ (get : Text → Option (ℕ × Text)) (find_group : ℕ → Text → Option Group) where
  -- Any targets, one after another.
  unfoldable pub allowed_all : List Target → RobotsCache → RobotsCache
  allowed_all [] c = c
  allowed_all (t ∷ ts) c = allowed_all ts (allowed get find_group t c).1

  allowed-IsOnce : (t : Target) (c : RobotsCache) → IsOnce c → IsOnce (allowed get find_group t c).1
  unfolding allowed
  allowed-IsOnce t c h = by_entry (find_entry (origin_of t) c.entries) refl
    where
      by_entry :
          (found : Option (Option Group))
          → find_entry (origin_of t) c.entries ≡ found
          → IsOnce (group_or_fetch get find_group (origin_of t) c found).1
      by_entry (some g) e = h
      by_entry none e = record {
        asked =
            map-snoc (λ (x : Text × Option Group). x.0) c.entries _
            ∙ ap (λ ks. ks ++ origin_of t ∷ []) h.asked;
        distinct = Distinct-snoc c.requests (origin_of t) h.distinct (λ i.
            find_entry-none (origin_of t) c.entries e (subst (In (origin_of t)) (sym h.asked) i));
      }

  -- Whatever targets are asked about, and whatever their servers answer: the robots.txt of an origin is
  -- requested once at most, a failing request included.
  pub allowed_all-Distinct :
      (ts : List Target) → Distinct (allowed_all ts new_robots_cache).requests
  unfolding allowed_all
  allowed_all-Distinct ts =
      (all ts new_robots_cache (record { asked = refl; distinct = tt })).distinct
    where
      all : (ts : List Target) (c : RobotsCache) → IsOnce c → IsOnce (allowed_all ts c)
      all [] c h = h
      all (t ∷ ts) c h = all ts _ (allowed-IsOnce t c h)
