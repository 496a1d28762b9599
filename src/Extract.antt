-- ===== src/Extract.antt =====
-- extract.go: the destinations behind the links of a results page.
pub mod Unique
use go_web_search.Prelude.{
  ℕ, zero, suc, ◌==◌, Bool, true, false, ◌&&◌, ◌||◌, List, [], ◌∷◌, ◌++◌, Option, none, some,
  if◌then◌else◌,
}
use go_web_search.Strings.{Text, runes, text_eq, to_lower, has_prefix}
use go_web_search.Runs.Listing.{member}
use go_web_search.Clean.{trim_suffix}

-- What url.Parse finds in a text: the parts that the code reads, Query().Get, and String() once the
-- fragment is cleared.
pub record Url : Type 0 where
  pub scheme : Text
  pub hostname : Text
  pub escaped_path : Text
  pub raw_query : Text
  pub param : Text → Text
  pub without_fragment : Text

abbrev pub wrapper_params : List Text
wrapper_params = runes "uddg" ∷ runes "url" ∷ runes "u" ∷ runes "q" ∷ runes "target" ∷ []

-- isHTTP
unfoldable pub is_http : Text → Bool
unfolding has_prefix
is_http s = has_prefix (runes "http://") s || has_prefix (runes "https://") s

-- strings.TrimRight(s, "=")
abbrev keep_code : ℕ → Text → Text
keep_code c [] = if c == 61 then [] else c ∷ []
keep_code c (d ∷ s) = c ∷ d ∷ s

unfoldable pub trim_equals : Text → Text
trim_equals [] = []
trim_equals (c ∷ s) = keep_code c (trim_equals s)

-- strings.TrimPrefix(v, "a1")
unfoldable pub trim_a1 : Text → Text
trim_a1 [] = []
trim_a1 (c ∷ []) = c ∷ []
trim_a1 (c ∷ d ∷ s) = if c == 97 && d == 49 then s else c ∷ d ∷ s

-- strings.Split(s, ".")
abbrev cons_part : ℕ → List Text → List Text
cons_part c [] = (c ∷ []) ∷ []
cons_part c (p ∷ ps) = (c ∷ p) ∷ ps

unfoldable pub split_dots : Text → List Text
split_dots [] = [] ∷ []
split_dots (c ∷ s) = let rest = split_dots s in if c == 46 then [] ∷ rest else cons_part c rest

-- strings.HasSuffix
unfoldable pub has_suffix : Text → Text → Bool
unfolding text_eq
has_suffix suffix [] = text_eq [] suffix
has_suffix suffix (c ∷ s) = let rest = has_suffix suffix s in text_eq (c ∷ s) suffix || rest

unfoldable pub in_hosts : Text → List Text → Bool
unfolding has_suffix
in_hosts host [] = false
in_hosts host (h ∷ hosts) = text_eq host h || has_suffix (46 ∷ h) host || in_hosts host hosts

unfoldable pub has_label : List Text → List Text → Bool
unfolding member
has_label parts [] = false
has_label parts (label ∷ labels) = member text_eq label parts || has_label parts labels

-- skipHost
unfoldable pub skip_host : Text → List Text → List Text → Bool
unfolding in_hosts has_label split_dots
skip_host host labels hosts = in_hosts host hosts || has_label (split_dots host) labels

-- `parse` is url.Parse, and `base64` the decoding without padding of encoding/base64 as a text; none
-- where they fail.
module _ (parse : Text → Option Url) (base64 : Text → Option Text) where
  abbrev if_http : Option Text → Text
  unfolding is_http
  if_http none = []
  if_http (some s) = if is_http s then s else []

  -- decodeBingTarget
  unfoldable pub decode_bing_target : Text → Text
  unfolding if_http trim_equals trim_a1
  decode_bing_target v = if_http (base64 (trim_equals (trim_a1 v)))

  -- The target that one parameter holds; empty where it holds none.
  abbrev pub param_target : Text → Text → Text
  unfolding is_http decode_bing_target
  param_target key [] = []
  param_target key (c ∷ v) =
      if is_http (c ∷ v)
      then c ∷ v
      else if text_eq key (runes "u")
      then decode_bing_target (c ∷ v)
      else []

  abbrev or_rest : Text → Text → Text
  or_rest [] rest = rest
  or_rest (c ∷ s) rest = c ∷ s

  unfoldable pub first_target : Text → Url → List Text → Text
  unfolding param_target
  first_target raw u [] = raw
  first_target raw u (key ∷ keys) =
      or_rest (param_target key (u.param key)) (first_target raw u keys)

  abbrev unwrap_parsed : Text → Option Url → Text
  unfolding first_target
  unwrap_parsed raw none = raw
  unwrap_parsed raw (some u) = first_target raw u wrapper_params

  -- unwrapOnce
  unfoldable pub unwrap_once : Text → Text
  unfolding unwrap_parsed
  unwrap_once raw = unwrap_parsed raw (parse raw)

  -- unwrap
  unfoldable pub unwrap : ℕ → Text → Text
  unfolding unwrap_once
  unwrap zero current = current
  unwrap (suc depth) current =
      let next = unwrap_once current in
      let deeper = unwrap depth next in
      if text_eq next [] || text_eq next current then current else deeper

  abbrev pub key_of : Url → Text
  unfolding to_lower trim_suffix
  key_of u =
      trim_suffix (runes "/") (to_lower u.hostname ++ u.escaped_path) ++ (runes "?" ++ u.raw_query)

  module _ (labels hosts : List Text) where
    -- The key of a link's destination and its URL; none for a link that is skipped.
    abbrev pub wanted : Option Url → Option (Text × Text)
    unfolding skip_host to_lower
    wanted none = none
    wanted (some u) =
        if text_eq u.scheme (runes "http") || text_eq u.scheme (runes "https")
        then if text_eq (to_lower u.hostname) [] || skip_host (to_lower u.hostname) labels hosts
          then none
          else some (key_of u, u.without_fragment)
        else none

    unfoldable pub destination_of : Text → Option (Text × Text)
    unfolding wanted unwrap
    destination_of href = wanted (parse (unwrap 3 href))

    abbrev pub unless_seen : List Text → Option (Text × Text) → (List Text → List Text) → List Text
    unfolding member
    unless_seen seen none rest = rest seen
    unless_seen seen (some (key, url)) rest =
        if member text_eq key seen then rest seen else url ∷ rest (key ∷ seen)

    -- destinations; `seen` holds the keys of the links before.
    unfoldable pub destinations_from : List Text → List Text → List Text
    unfolding unless_seen destination_of
    destinations_from seen [] = []
    destinations_from seen (href ∷ raw) =
        unless_seen seen (destination_of href) (λ keys. destinations_from keys raw)

    unfoldable pub destinations : List Text → List Text
    unfolding destinations_from
    destinations raw = destinations_from [] raw
