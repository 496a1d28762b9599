-- ===== src/Robots.antt =====
-- robots.go: one robots.txt for each origin, fetched when it is first asked for and then kept.
--
-- The robotstxt package and the network are parameters: what a GET of a robots.txt returns (none where
-- it fails), the group that the package finds for the agent in an answer (none where it refuses the
-- answer), and the parts of a URL.
pub mod Once
use go_web_search.Prelude.{
  ℕ, Bool, true, false, List, [], ◌∷◌, ◌++◌, Option, none, some, if◌then◌else◌, ℤ, pos,
}
use go_web_search.Strings.{Text, runes, text_eq}

-- url.URL, as far as the code reads it.
pub record Target : Type 0 where
  pub scheme : Text
  pub host : Text
  pub escaped_path : Text
  pub raw_query : Text

-- robotstxt.Group: its test of a path, and its crawl delay.
pub record Group : Type 0 where
  pub test : Text → Bool
  pub crawl_delay : ℤ

-- The entries that are fetched, and the origins whose robots.txt was asked for, in order.
pub record RobotsCache : Type 0 where
  pub entries : List (Text × Option Group)
  pub requests : List Text

-- newRobotsCache
abbrev pub new_robots_cache : RobotsCache
new_robots_cache = record { entries = []; requests = [] }

unfoldable pub find_entry : Text → List (Text × Option Group) → Option (Option Group)
find_entry key [] = none
find_entry key ((k, g) ∷ es) = if text_eq k key then some g else find_entry key es

abbrev pub origin_of : Target → Text
origin_of target = target.scheme ++ (runes "://" ++ target.host)

abbrev pub or_slash : Text → Text
or_slash [] = runes "/"
or_slash (c ∷ s) = c ∷ s

abbrev pub with_query : Text → Text → Text
with_query path [] = path
with_query path (c ∷ s) = path ++ (runes "?" ++ c ∷ s)

module _ (get : Text → Option (ℕ × Text)) (find_group : ℕ → Text → Option Group) where
  abbrev pub group_in : Option (ℕ × Text) → Option Group
  group_in none = none
  group_in (some (status, body)) = find_group status body

  -- fetch
  unfoldable pub fetch : Text → Option Group
  fetch origin = group_in (get (origin ++ runes "/robots.txt"))

  abbrev pub group_or_fetch :
      Text → RobotsCache → Option (Option Group) → Option Group × RobotsCache
  unfolding fetch
  group_or_fetch key c (some g) = (g, c)
  group_or_fetch key c none = (
    fetch key,
    record c { entries = c.entries ++ (key, fetch key) ∷ []; requests = c.requests ++ key ∷ [] },
  )

  -- group
  unfoldable pub group : Target → RobotsCache → Option Group × RobotsCache
  unfolding group_or_fetch find_entry
  group target c = group_or_fetch (origin_of target) c (find_entry (origin_of target) c.entries)

  abbrev pub verdict : Target → Option Group → Bool × ℤ
  verdict target none = (true, pos 0)
  verdict target (some g) =
      (g.test (with_query (or_slash target.escaped_path) target.raw_query), g.crawl_delay)

  -- Allowed: whether the target may be fetched, with the crawl delay.
  unfoldable pub allowed : Target → RobotsCache → (Bool × ℤ) × RobotsCache
  unfolding group
  allowed target c = let (g, c') = group target c in (verdict target g, c')
