-- ===== src/Scraper/Grouped.antt =====
-- scraper.go, `groupByHost`: the groups against a selection by host.
use go_web_search.Prelude.{
  ◌≡◌, refl, ◌∙◌, sym, Bool, true, false, List, [], ◌∷◌, ◌++◌, map, Option, none, some, In,
  Distinct, if◌then◌else◌, if-holds, ◌⊎◌, Bool-cases, inl, inr, arith,
}
use mathlib.Core.List.{append_assoc, append-nil}
use go_web_search.Strings.{Text, text_eq, text_eq_iff}
use go_web_search.Sql.{select}
use go_web_search.Scraper.Groups.{Groups, add_to_group, add_if_host, host_of, group_urls}

-- The URLs that are grouped under the host.
abbrev pub urls_under : Text → Groups → List Text
urls_under host [] = []
urls_under host ((h, urls) ∷ gs) = if text_eq h host then urls else urls_under host gs

-- The URL has this host.
abbrev pub at_host : (Text → Option Text) → Text → Text → Bool
at_host hostname host raw = elim (host_of hostname raw) [ none ↦ false | some h ↦ text_eq h host ]

abbrev hosts : Groups → List Text
hosts = map (λ (g : Text × List Text). g.0)

urls_under-add_to_group :
    (host h raw : Text) (gs : Groups)
    → urls_under host (add_to_group h raw gs)
      ≡ (if text_eq h host then urls_under host gs ++ raw ∷ [] else urls_under host gs)
unfolding add_to_group
urls_under-add_to_group host h raw [] = refl
urls_under-add_to_group host h raw ((k, urls) ∷ gs) = ground (
  arith,
  text_eq_iff k h,
  text_eq_iff h host,
  text_eq_iff k host,
  urls_under-add_to_group host h raw gs,
)

hosts-add_to_group :
    (h raw : Text) (gs : Groups) (x : Text)
    → In x (hosts (add_to_group h raw gs))
    → (h ≡ x) ⊎ In x (hosts gs)
unfolding add_to_group
hosts-add_to_group h raw [] x (inl e) = inl e
hosts-add_to_group h raw [] x (inr i) = absurd i
hosts-add_to_group h raw ((k, urls) ∷ gs) x i = elim (Bool-cases (text_eq k h)) [
  | inl e ↦ inr (rw e at i)
  | inr e ↦ behind (rw e at i) (hosts-add_to_group h raw gs x)
]
  where
    behind :
        In x (k ∷ hosts (add_to_group h raw gs))
        → (In x (hosts (add_to_group h raw gs)) → (h ≡ x) ⊎ In x (hosts gs))
        → (h ≡ x) ⊎ In x (k ∷ hosts gs)
    behind (inl same) f = inr (inl same)
    behind (inr j) f = elim (f j) [ inl same ↦ inl same | inr later ↦ inr (inr later) ]

add_to_group-Distinct :
    (h raw : Text) (gs : Groups) → Distinct (hosts gs) → Distinct (hosts (add_to_group h raw gs))
unfolding add_to_group
add_to_group-Distinct h raw [] d = (λ i. i, tt)
add_to_group-Distinct h raw ((k, urls) ∷ gs) d =
    if-holds (λ (gs' : Groups). Distinct (hosts gs')) (text_eq k h) _ _ (λ e. d)
      (λ e. (
        λ i. elim (hosts-add_to_group h raw gs k i) [
          | inl same ↦ clash e ((text_eq_iff k h).1 (sym same))
          | inr j ↦ d.0 j
        ],
        add_to_group-Distinct h raw gs d.1,
      ))
  where
    clash : {b : Bool} → b ≡ false → b ≡ true → ⊥
    clash p q = cc

module _ (hostname : Text → Option Text) where
  group_urls-urls_under :
      (host : Text) (urls : List Text) (gs : Groups)
      → urls_under host (group_urls hostname urls gs)
        ≡ urls_under host gs ++ select (at_host hostname host) urls
  unfolding group_urls select
  group_urls-urls_under host [] gs = sym (append-nil (urls_under host gs))
  group_urls-urls_under host (raw ∷ urls) gs =
      group_urls-urls_under host urls (add_if_host (host_of hostname raw) raw gs)
      ∙ one_more (select (at_host hostname host) urls) (host_of hostname raw)
    where
      one_more :
          (rest : List Text) (o : Option Text)
          → urls_under host (add_if_host o raw gs) ++ rest
            ≡ urls_under host gs
              ++ (if elim o [ none ↦ false | some h ↦ text_eq h host ] then raw ∷ rest else rest)
      one_more rest none = refl
      one_more rest (some h) = elim (Bool-cases (text_eq h host)) [
        | inl e ↦
            rw (urls_under-add_to_group host h raw gs)
              (rw e (append_assoc (urls_under host gs) (raw ∷ []) rest))
        | inr e ↦ rw (urls_under-add_to_group host h raw gs) (rw e refl)
      ]

  group_urls-Distinct :
      (urls : List Text) (gs : Groups)
      → Distinct (hosts gs)
      → Distinct (hosts (group_urls hostname urls gs))
  unfolding group_urls
  group_urls-Distinct [] gs d = d
  group_urls-Distinct (raw ∷ urls) gs d = group_urls-Distinct urls _ (added (host_of hostname raw))
    where
      added : (host : Option Text) → Distinct (hosts (add_if_host host raw gs))
      added none = d
      added (some h) = add_to_group-Distinct h raw gs d

  -- Each host is a group of its own, and its group holds exactly the URLs with that host, in the order
  -- in which they were given, as often as they were.
  pub group_urls_lem :
      (urls : List Text)
      → Distinct (map (λ (g : Text × List Text). g.0) (group_urls hostname urls []))
        × ((host : Text)
            → urls_under host (group_urls hostname urls []) ≡ select (at_host hostname host) urls)
  group_urls_lem urls = (group_urls-Distinct urls [] tt, λ host. group_urls-urls_under host urls [])
