-- ===== src/Engines.antt =====
-- engine.go: the table of engines, the choice of engines, and the tests on a landed page.
use go_web_search.Prelude.{
  ℕ, ◌==◌, Bool, false, ◌||◌, List, [], ◌∷◌, ◌++◌, Option, none, some, if◌then◌else◌, ltb_ℤ, ℤ, pos,
}
use go_web_search.Strings.{Text, runes, text_eq, to_lower, trim_space, contains, fields, join}
use go_web_search.Decimal.{itoa}
use go_web_search.Distill.{byte_prefix}
use go_web_search.Store.{Error, Result, ok, err}
use go_web_search.Extract.{Url}

-- engineDef, without the selectors, which only the browser reads. `search_prefix` is the results URL
-- up to the escaped term.
pub record EngineDef : Type 0 where
  pub name : Text
  pub home : Text
  pub search_prefix : Text
  pub results_param : Text
  pub skip_labels : List Text
  pub skip_hosts : List Text

abbrev pub shared_skip_labels : List Text
shared_skip_labels =
    runes "gstatic"
    ∷ runes "googleusercontent"
    ∷ runes "googleapis"
    ∷ runes "googlesyndication"
    ∷ runes "googleadservices"
    ∷ runes "doubleclick"
    ∷ []

abbrev pub google : EngineDef
google = record {
  name = runes "google";
  home = runes "https://www.google.com/";
  search_prefix = runes "https://www.google.com/search?q=";
  results_param = runes "num";
  skip_labels = runes "google" ∷ shared_skip_labels;
  skip_hosts = runes "google.com" ∷ [];
}

abbrev pub bing : EngineDef
bing = record {
  name = runes "bing";
  home = runes "https://www.bing.com/";
  search_prefix = runes "https://www.bing.com/search?q=";
  results_param = runes "count";
  skip_labels = runes "bing" ∷ runes "microsofttranslator" ∷ shared_skip_labels;
  skip_hosts =
      runes "go.microsoft.com"
      ∷ runes "login.live.com"
      ∷ runes "msn.com"
      ∷ runes "onenote.com"
      ∷ [];
}

abbrev pub duckduckgo : EngineDef
duckduckgo = record {
  name = runes "duckduckgo";
  home = runes "https://duckduckgo.com/";
  search_prefix = runes "https://duckduckgo.com/?q=";
  results_param = [];
  skip_labels = runes "duckduckgo" ∷ runes "duck" ∷ shared_skip_labels;
  skip_hosts = runes "spreadprivacy.com" ∷ runes "apps.apple.com" ∷ [];
}

-- allEngines
abbrev pub all_engines : List EngineDef
all_engines = google ∷ bing ∷ duckduckgo ∷ []

-- searchURL; `escape` is url.QueryEscape.
unfoldable pub search_url : (Text → Text) → EngineDef → Text → ℤ → Text
search_url escape e term results =
    let u = e.search_prefix ++ escape term in
    if text_eq e.results_param []
    then u
    else if ltb_ℤ (pos 0) results
    then u ++ (runes "&" ++ (e.results_param ++ (runes "=" ++ itoa results)))
    else u

-- strings.Split(csv, ",")
abbrev cons_entry : ℕ → List Text → List Text
cons_entry c [] = (c ∷ []) ∷ []
cons_entry c (p ∷ ps) = (c ∷ p) ∷ ps

unfoldable pub split_commas : Text → List Text
split_commas [] = [] ∷ []
split_commas (c ∷ s) = let rest = split_commas s in if c == 44 then [] ∷ rest else cons_entry c rest

abbrev cons_named : Text → List Text → List Text
cons_named [] rest = rest
cons_named (c ∷ s) rest = (c ∷ s) ∷ rest

unfoldable pub keep_entries : List Text → List Text
unfolding to_lower trim_space
keep_entries [] = []
keep_entries (raw ∷ entries) = cons_named (to_lower (trim_space raw)) (keep_entries entries)

-- splitList
unfoldable pub split_list : Text → List Text
unfolding keep_entries split_commas
split_list csv = keep_entries (split_commas csv)

unfoldable pub canonical_engine : Text → Text
canonical_engine name = if text_eq name (runes "ddg") then runes "duckduckgo" else name

unfoldable pub find_engine : Text → List EngineDef → Option EngineDef
find_engine name [] = none
find_engine name (e ∷ es) = if text_eq e.name name then some e else find_engine name es

abbrev cons_engine : Option EngineDef → Result (List EngineDef) → Result (List EngineDef)
cons_engine none rest = err Error.invalid
cons_engine (some e) (ok es) = ok (e ∷ es)
cons_engine (some e) (err x) = err x

unfoldable pub engines_named : List Text → Result (List EngineDef)
unfolding find_engine canonical_engine
engines_named [] = ok []
engines_named (name ∷ names) =
    cons_engine (find_engine (canonical_engine name) all_engines) (engines_named names)

abbrev some_engine : Result (List EngineDef) → Result (List EngineDef)
some_engine (ok []) = err Error.invalid
some_engine (ok (e ∷ es)) = ok (e ∷ es)
some_engine (err x) = err x

-- enginesByNames
unfoldable pub engines_by_names : Text → Result (List EngineDef)
unfolding engines_named split_list
engines_by_names csv = some_engine (engines_named (split_list csv))

-- parseEngineSet, as the list of the names in the set.
unfoldable pub engine_names : List Text → List Text
unfolding canonical_engine
engine_names [] = []
engine_names (name ∷ names) =
    let rest = engine_names names in
    if text_eq name (runes "none") then rest else canonical_engine name ∷ rest

unfoldable pub parse_engine_set : Text → List Text
unfolding engine_names split_list
parse_engine_set csv = engine_names (split_list csv)

abbrev pub block_hints : List Text
block_hints =
    runes "unusual traffic"
    ∷ runes "verify you are human"
    ∷ runes "are you a robot"
    ∷ runes "our systems have detected"
    ∷ runes "recaptcha"
    ∷ runes "solve the challenge"
    ∷ []

unfoldable pub any_hint : List Text → Text → Bool
unfolding contains
any_hint [] body = false
any_hint (hint ∷ hints) body = contains hint body || any_hint hints body

-- looksBlocked; the page is cut at 200000 bytes, which splits no hint.
unfoldable pub looks_blocked : Text → Text → Bool
unfolding any_hint contains to_lower byte_prefix
looks_blocked landed_url html =
    let lower = to_lower landed_url in
    contains (runes "/sorry/") lower
    || contains (runes "captcha") lower
    || any_hint block_hints (byte_prefix 200000 (to_lower html))

abbrev or_param : Text → Text → Text
or_param [] rest = rest
or_param (c ∷ s) rest = c ∷ s

abbrev query_of : Option Url → Text
query_of none = []
query_of (some u) =
    or_param (u.param (runes "q")) (or_param (u.param (runes "p")) (u.param (runes "query")))

-- landedQuery
unfoldable pub landed_query : (Text → Option Url) → Text → Text
landed_query parse landed = query_of (parse landed)

-- sameQuery
abbrev norm : Text → Text
unfolding to_lower join fields
norm s = to_lower (join (32 ∷ []) (fields s))

unfoldable pub same_query : Text → Text → Bool
unfolding norm
same_query a b = text_eq (norm a) (norm b)
