-- ===== src/Clean.antt =====
-- clean.go: a page as title, stripped HTML, plain text and images, on the tree that the html package
-- parses. An element is known by its name, as its atom is: a name that no atom has is in none of the
-- lists.
pub mod Document
pub mod Prune
pub mod Images
use go_web_search.Prelude.{
  ℕ, zero, suc, ◌+◌, ◌-◌, ◌*◌, ◌^◌, Bool, true, false, not, ◌&&◌, ◌||◌, List, [], ◌∷◌, ◌++◌, map,
  Option, none, some, if◌then◌else◌, ltb, ◌==◌, ℤ, pos, negsuc,
}
use go_web_search.Strings.{Text, runes, text_eq, trim_space, fields, join, to_lower, has_prefix}
use go_web_search.Decimal.{read_digits}
use go_web_search.Rows.{ImageRef}
use go_web_search.Runs.Listing.{member}

pub record Attr : Type 0 where
  pub key : Text
  pub val : Text

-- html.Node with its children; `document` is any node that is neither text, comment nor element.
mutual
  pub data Node : Type 0 where
    text : Text → Node
    comment : Text → Node
    element : Text → List Attr → Nodes → Node
    document : Nodes → Node

  pub data Nodes : Type 0 where
    nil : Nodes
    cons : Node → Nodes → Nodes

abbrev pub drop_tags : List Text
drop_tags =
    runes "script"
    ∷ runes "style"
    ∷ runes "noscript"
    ∷ runes "iframe"
    ∷ runes "svg"
    ∷ runes "canvas"
    ∷ runes "template"
    ∷ runes "form"
    ∷ runes "nav"
    ∷ runes "header"
    ∷ runes "footer"
    ∷ runes "aside"
    ∷ runes "object"
    ∷ runes "embed"
    ∷ []

abbrev pub block_tags : List Text
block_tags =
    runes "p"
    ∷ runes "div"
    ∷ runes "br"
    ∷ runes "li"
    ∷ runes "tr"
    ∷ runes "section"
    ∷ runes "article"
    ∷ runes "h1"
    ∷ runes "h2"
    ∷ runes "h3"
    ∷ runes "h4"
    ∷ runes "h5"
    ∷ runes "h6"
    ∷ runes "blockquote"
    ∷ runes "pre"
    ∷ runes "td"
    ∷ runes "th"
    ∷ []

unfoldable pub is_drop : Text → Bool
unfolding member
is_drop name = member text_eq name drop_tags

unfoldable pub is_block : Text → Bool
unfolding member
is_block name = member text_eq name block_tags

-- Node.Data
abbrev pub node_data : Node → Text
node_data (text s) = s
node_data (comment s) = s
node_data (element name attrs kids) = name
node_data (document kids) = []

abbrev pub title_in : Nodes → Text → Text
title_in nil found = found
title_in (cons c cs) found = trim_space (node_data c)

abbrev pub has_kids : Nodes → Bool
has_kids nil = false
has_kids (cons c cs) = true

-- findTitle: the walk stops once it has found a title that is not empty.
unfoldable mutual
  pub title_walk : Node → Text → Text
  title_walk n (c ∷ s) = c ∷ s
  title_walk (text s) [] = []
  title_walk (comment s) [] = []
  title_walk (element name attrs kids) [] =
      let inside = title_list kids [] in
      if text_eq name (runes "title") && has_kids kids then title_in kids [] else inside
  title_walk (document kids) [] = title_list kids []

  pub title_list : Nodes → Text → Text
  title_list nil found = found
  title_list (cons c cs) found = title_list cs (title_walk c found)

-- findBody
unfoldable mutual
  pub body_walk : Node → Option Node → Option Node
  body_walk n (some b) = some b
  body_walk (text s) none = none
  body_walk (comment s) none = none
  body_walk (element name attrs kids) none =
      let inside = body_list kids none in
      if text_eq name (runes "body") then some (element name attrs kids) else inside
  body_walk (document kids) none = body_list kids none

  pub body_list : Nodes → Option Node → Option Node
  body_list nil found = found
  body_list (cons c cs) found = body_list cs (body_walk c found)

abbrev pub or_root : Node → Option Node → Node
or_root root none = root
or_root root (some b) = b

-- strconv.Atoi with the error dropped: 0 for a text that is no number, the nearest int64 for one that
-- is out of range.
abbrev max_int : ℕ
max_int = 2 ^ 63 - 1

abbrev clamp_pos : Option ℕ → ℤ
clamp_pos none = pos 0
clamp_pos (some n) = if ltb max_int n then pos max_int else pos n

abbrev clamp_neg : Option ℕ → ℤ
clamp_neg none = pos 0
clamp_neg (some zero) = pos 0
clamp_neg (some (suc n)) = if ltb max_int n then negsuc max_int else negsuc n

abbrev digits_of : Text → Option ℕ
unfolding read_digits
digits_of [] = none
digits_of (c ∷ s) = read_digits 0 (c ∷ s)

unfoldable pub atoi : Text → ℤ
unfolding digits_of
atoi [] = pos 0
atoi (c ∷ s) =
    if c == b'-'
    then clamp_neg (digits_of s)
    else if c == b'+'
    then clamp_pos (digits_of s)
    else clamp_pos (digits_of (c ∷ s))

-- strings.TrimSuffix
unfoldable pub trim_suffix : Text → Text → Text
trim_suffix suffix [] = []
trim_suffix suffix (c ∷ s) =
    let rest = trim_suffix suffix s in if text_eq (c ∷ s) suffix then [] else c ∷ rest

abbrev pub or_src : Text → Text → Text
or_src v [] = v
or_src v (c ∷ s) = c ∷ s

-- One attribute of an <img>.
unfoldable pub read_attr : ImageRef → Attr → ImageRef
unfolding atoi trim_suffix to_lower
read_attr img a =
    let key = to_lower a.key in
    if text_eq key (runes "src")
    then record img { url = a.val }
    else if text_eq key (runes "data-src")
    then record img { url = or_src a.val img.url }
    else if text_eq key (runes "alt")
    then record img { alt = a.val }
    else if text_eq key (runes "width")
    then record img { width = atoi (trim_suffix (runes "px") a.val) }
    else if text_eq key (runes "height")
    then record img { height = atoi (trim_suffix (runes "px") a.val) }
    else img

unfoldable pub read_attrs : ImageRef → List Attr → ImageRef
unfolding read_attr
read_attrs img [] = img
read_attrs img (a ∷ attrs) = read_attrs (read_attr img a) attrs

abbrev pub no_image : ImageRef
no_image = record { url = []; alt = []; width = pos 0; height = pos 0 }

abbrev pub image_urls : List ImageRef → List Text
image_urls = map (λ i. i.url)

-- The images in order, the resolved URL of each unseen so far.
abbrev pub keep_image : Text → ImageRef → List ImageRef → List ImageRef
unfolding member
keep_image [] img out = out
keep_image (c ∷ s) img out =
    if member text_eq (c ∷ s) (image_urls out) then out else out ++ record img { url = c ∷ s } ∷ []

module _ (resolve : Text → Text) where
  abbrev pub resolve_image : Text → ImageRef → List ImageRef → List ImageRef
  unfolding keep_image
  resolve_image [] img out = out
  resolve_image (c ∷ s) img out = keep_image (resolve (c ∷ s)) img out

  unfoldable pub add_image : List Attr → List ImageRef → List ImageRef
  unfolding read_attrs resolve_image
  add_image attrs out = let img = read_attrs no_image attrs in resolve_image img.url img out

  -- collectImages; the images collected are those seen.
  unfoldable mutual
    unfolding add_image

    pub images_walk : Node → List ImageRef → List ImageRef
    images_walk (text s) out = out
    images_walk (comment s) out = out
    images_walk (element name attrs kids) out =
        images_list kids (if text_eq name (runes "img") then add_image attrs out else out)
    images_walk (document kids) out = images_list kids out

    pub images_list : Nodes → List ImageRef → List ImageRef
    images_list nil out = out
    images_list (cons c cs) out = images_list cs (images_walk c out)

-- prune
unfoldable mutual
  pub prune : Node → Node
  prune (text s) = text s
  prune (comment s) = comment s
  prune (element name attrs kids) = element name attrs (prune_list kids)
  prune (document kids) = document (prune_list kids)

  pub prune_list : Nodes → Nodes
  prune_list nil = nil
  prune_list (cons (text s) cs) = cons (text s) (prune_list cs)
  prune_list (cons (comment s) cs) = prune_list cs
  prune_list (cons (element name attrs kids) cs) =
      let rest = prune_list cs in
      let kept = element name attrs (prune_list kids) in
      if is_drop name then rest else cons kept rest
  prune_list (cons (document kids) cs) = cons (document (prune_list kids)) (prune_list cs)

abbrev pub newline : Text
newline = 10 ∷ []

-- The text of extractText before the whitespace is collapsed.
unfoldable mutual
  pub text_walk : Node → Text
  text_walk (text s) = s
  text_walk (comment s) = []
  text_walk (element name attrs kids) =
      let inside = text_list kids in
      if is_drop name then [] else if is_block name then newline ++ (inside ++ newline) else inside
  text_walk (document kids) = text_list kids

  pub text_list : Nodes → Text
  text_list nil = []
  text_list (cons c cs) = text_walk c ++ text_list cs

-- strings.Split(s, "\n")
abbrev pub cons_line : ℕ → List Text → List Text
cons_line c [] = (c ∷ []) ∷ []
cons_line c (l ∷ ls) = (c ∷ l) ∷ ls

unfoldable pub split_lines : Text → List Text
split_lines [] = [] ∷ []
split_lines (c ∷ s) = let rest = split_lines s in if c == 10 then [] ∷ rest else cons_line c rest

abbrev pub is_nil : {A : Type 0} → List A → Bool
is_nil [] = true
is_nil (x ∷ xs) = false

-- The loop of collapseWhitespace.
unfoldable pub collapse_step : Text → Bool × List Text → Bool × List Text
collapse_step [] (blank, out) = if blank || is_nil out then (blank, out) else (true, out ++ [] ∷ [])
collapse_step (c ∷ s) (blank, out) = (false, out ++ (c ∷ s) ∷ [])

unfoldable pub collapse_lines : List Text → Bool × List Text → List Text
unfolding collapse_step
collapse_lines [] (blank, out) = out
collapse_lines (l ∷ ls) st = collapse_lines ls (collapse_step (join (32 ∷ []) (fields l)) st)

unfoldable pub collapse_whitespace : Text → Text
unfolding collapse_lines split_lines
collapse_whitespace s = trim_space (join newline (collapse_lines (split_lines s) (false, [])))

unfoldable pub extract_text : Node → Text
unfolding text_walk collapse_whitespace
extract_text n = collapse_whitespace (text_walk n)
