-- ===== src/Examples/Harvests.antt =====
-- The theorems on a harvest and on the links of a results page, with a small web.
use go_web_search.Prelude.{ℕ, ◌≡◌, true, List, [], ◌∷◌, map, none, some, Option, In, All, Distinct}
use go_web_search.Strings.{Text, runes, join}
use go_web_search.Store.{ok}
use go_web_search.Runs.Links.{IsLinked}
use go_web_search.Extract.{Url, destinations}
use go_web_search.Extract.Unique.{keys, of_link, destinations_lem}
use go_web_search.Engines.{EngineDef, engines_by_names}
use go_web_search.Harvest.{SearchConfig, Web, landed, search_terms}
use go_web_search.Harvest.Complete.{AllAsked, search_terms_lem}
use go_web_search.Examples.Data.{world}

-- Every text is the URL of a page of go.dev.
abbrev a_url : Text → Option Url
a_url href = some (record {
  scheme = runes "https";
  hostname = runes "go.dev";
  escaped_path = href;
  raw_query = [];
  param = λ key. [];
  without_fragment = href;
})

abbrev no_base64 : Text → Option Text
no_base64 s = none

abbrev links : List Text
links = runes "/a" ∷ runes "/b" ∷ runes "/a" ∷ []

destinations_lem_example :
    (pairs : List (Text × Text)) × (destinations a_url no_base64 [] [] links ≡ map (λ p. p.1) pairs)
    × Distinct (keys pairs)
    × All (λ p. (href : Text) × In href links × (of_link a_url no_base64 [] [] href ≡ some p)) pairs
    × ((href : Text) (p : Text × Text)
        → In href links
        → of_link a_url no_base64 [] [] href ≡ some p
        → In p.0 (keys pairs))
destinations_lem_example = destinations_lem a_url no_base64 [] [] links

abbrev pub search_settings : SearchConfig
search_settings = record {
  engines = runes "ddg" ∷ [];
  typed = [];
  results = [];
  exclude_hosts = [];
}

abbrev pub web : Web
web = record {
  parse = a_url;
  base64 = no_base64;
  escape = λ s. s;
  hostname = λ s. some (runes "go.dev");
  visit = λ e term typed count. (
    landed (record { landed_url = []; html = runes "<html>"; links = links; http_status = 200 }),
    5,
  );
  begins = λ n. true;
  waits = λ n. true;
  cut_short = λ n e. none;
}

world-IsLinked : IsLinked world.tables
world-IsLinked = record { links = tt; raws = tt; unique = tt }

search_terms_lem_example :
    IsLinked (search_terms search_settings web "r" (runes "go" ∷ []) world).1.tables
    × (((n : ℕ) (e : EngineDef) → web.cut_short n e ≡ none)
        → (search_terms search_settings web "r" (runes "go" ∷ []) world).0 ≡ ok true
        → (engines : List EngineDef) × (engines_by_names (join (44 ∷ []) search_settings.engines)
            ≡ ok engines)
          × All
              (λ term.
                AllAsked "r" engines term
                  (search_terms search_settings web "r" (runes "go" ∷ []) world).1.tables)
              (runes "go" ∷ []))
search_terms_lem_example =
    search_terms_lem search_settings web "r" (runes "go" ∷ []) world world-IsLinked
