-- ===== src/Clean/Document.antt =====
-- clean.go, `cleanHTML`.
use go_web_search.Prelude.{List, [], Option, none, some}
use go_web_search.Strings.{Text}
use go_web_search.Rows.{ImageRef}
use go_web_search.Clean.{Node, body_walk, extract_text, images_walk, or_root, prune, title_walk}

pub record CleanedDoc : Type 0 where
  pub title : Text
  pub clean_html : Text
  pub text : Text
  pub images : List ImageRef

-- html.Parse and html.Render are parameters; none is an error of theirs.
module _ (parse_html : Text → Option Node) (render : Node → Option Text) where
  abbrev pub rendered : Node → Node → List ImageRef → Option Text → Option CleanedDoc
  unfolding title_walk extract_text
  rendered root body images none = none
  rendered root body images (some html) = some (record {
    title = title_walk root [];
    clean_html = html;
    text = extract_text body;
    images = images;
  })

  abbrev pub clean_root : (Text → Text) → Option Node → Option CleanedDoc
  unfolding body_walk images_walk prune rendered
  clean_root resolve none = none
  clean_root resolve (some root) =
      let body = or_root root (body_walk root none) in
      rendered root (prune body) (images_walk resolve body []) (render (prune body))

  -- cleanHTML. (The title is read before the pruning; pruning the body in place changes no title that
  -- was read.)
  unfoldable pub clean_html : Text → (Text → Text) → Option CleanedDoc
  unfolding clean_root
  clean_html raw resolve = clean_root resolve (parse_html raw)
