-- ===== src/Clean/Prune.antt =====
-- clean.go, `prune`: what is left, and that the text of the page is.
use go_web_search.Prelude.{
  ◌≡◌, refl, ap, ◌∙◌, Bool, true, false, List, [], ◌++◌, if◌then◌else◌, if-holds,
}
use go_web_search.Strings.{Text}
use go_web_search.Clean.{
  Node, text, comment, element, document, Nodes, Attr, nil, cons, is_drop, is_block, prune,
  prune_list, text_walk, text_list, newline, extract_text, collapse_whitespace,
}

-- Below the node there is no comment and no element that carries no content.
abbrev pub Stays : Node → Type 0
Stays (text s) = Unit
Stays (comment s) = ⊥
Stays (element name attrs kids) = is_drop name ≡ false
Stays (document kids) = Unit

abbrev mutual
  pub IsPruned : Node → Type 0
  IsPruned (text s) = Unit
  IsPruned (comment s) = Unit
  IsPruned (element name attrs kids) = ArePruned kids
  IsPruned (document kids) = ArePruned kids

  pub ArePruned : Nodes → Type 0
  ArePruned nil = Unit
  ArePruned (cons c cs) = Stays c × IsPruned c × ArePruned cs

mutual
  unfolding prune prune_list

  prune-IsPruned : (n : Node) → IsPruned (prune n)
  prune-IsPruned (text s) = tt
  prune-IsPruned (comment s) = tt
  prune-IsPruned (element name attrs kids) = prune_list-ArePruned kids
  prune-IsPruned (document kids) = prune_list-ArePruned kids

  prune_list-ArePruned : (cs : Nodes) → ArePruned (prune_list cs)
  prune_list-ArePruned nil = tt
  prune_list-ArePruned (cons (text s) cs) = (tt, tt, prune_list-ArePruned cs)
  prune_list-ArePruned (cons (comment s) cs) = prune_list-ArePruned cs
  prune_list-ArePruned (cons (element name attrs kids) cs) =
      if-holds ArePruned (is_drop name) _ _ (λ gone. prune_list-ArePruned cs)
        (λ stays. (stays, prune_list-ArePruned kids, prune_list-ArePruned cs))
  prune_list-ArePruned (cons (document kids) cs) =
      (tt, prune_list-ArePruned kids, prune_list-ArePruned cs)

-- What is pruned already stays as it is.
mutual
  unfolding prune prune_list

  prune_pruned : (n : Node) → IsPruned n → prune n ≡ n
  prune_pruned (text s) h = refl
  prune_pruned (comment s) h = refl
  prune_pruned (element name attrs kids) h = ap (element name attrs) (prune_list_pruned kids h)
  prune_pruned (document kids) h = ap document (prune_list_pruned kids h)

  prune_list_pruned : (cs : Nodes) → ArePruned cs → prune_list cs ≡ cs
  prune_list_pruned nil h = refl
  prune_list_pruned (cons (text s) cs) h = ap (cons (text s)) (prune_list_pruned cs (h.2))
  prune_list_pruned (cons (comment s) cs) h = absurd h.0
  prune_list_pruned (cons (element name attrs kids) cs) h = rw h.0 (
      ap (λ ks. cons (element name attrs ks) (prune_list cs)) (prune_list_pruned kids (h.1))
      ∙ ap (cons (element name attrs kids)) (prune_list_pruned cs (h.2)))
  prune_list_pruned (cons (document kids) cs) h =
      ap (λ ks. cons (document ks) (prune_list cs)) (prune_list_pruned kids (h.1))
      ∙ ap (cons (document kids)) (prune_list_pruned cs (h.2))

-- The text of an element, by that of its children.
abbrev wrapped : Text → Text → Text
wrapped name inside =
    if is_drop name then [] else if is_block name then newline ++ (inside ++ newline) else inside

pruned_text :
    (name : Text) (attrs : List Attr) (kids cs : Nodes)
    → text_list (prune_list kids) ≡ text_list kids
    → text_list (prune_list cs) ≡ text_list cs
    → (drops : Bool) → is_drop name ≡ drops
    → text_list (
        if drops
        then prune_list cs
        else cons (element name attrs (prune_list kids)) (prune_list cs))
      ≡ wrapped name (text_list kids) ++ text_list cs
unfolding text_walk text_list
pruned_text name attrs kids cs same same' true gone = rw gone same'
pruned_text name attrs kids cs same same' false stays =
    ap (λ t. wrapped name t ++ text_list (prune_list cs)) same
    ∙ ap (λ t. wrapped name (text_list kids) ++ t) same'

mutual
  unfolding prune prune_list text_walk text_list

  text_walk-prune : (n : Node) → text_walk (prune n) ≡ text_walk n
  text_walk-prune (text s) = refl
  text_walk-prune (comment s) = refl
  text_walk-prune (element name attrs kids) = ap (wrapped name) (text_list-prune_list kids)
  text_walk-prune (document kids) = text_list-prune_list kids

  text_list-prune_list : (cs : Nodes) → text_list (prune_list cs) ≡ text_list cs
  text_list-prune_list nil = refl
  text_list-prune_list (cons (text s) cs) = ap (λ t. s ++ t) (text_list-prune_list cs)
  text_list-prune_list (cons (comment s) cs) = text_list-prune_list cs
  text_list-prune_list (cons (element name attrs kids) cs) =
      pruned_text name attrs kids cs (text_list-prune_list kids) (text_list-prune_list cs)
        (is_drop name) refl
  text_list-prune_list (cons (document kids) cs) =
      ap (λ t. t ++ text_list (prune_list cs)) (text_list-prune_list kids)
      ∙ ap (λ t. text_list kids ++ t) (text_list-prune_list cs)

-- Pruning leaves no comment and no element of the dropped kinds below the node, loses nothing of the
-- text that is extracted from the page, and does nothing to a pruned page.
pub prune_lem :
    (n : Node)
    → IsPruned (prune n) × (extract_text (prune n) ≡ extract_text n) × (prune (prune n) ≡ prune n)
unfolding extract_text
prune_lem n = (
  prune-IsPruned n,
  ap collapse_whitespace (text_walk-prune n),
  prune_pruned (prune n) (prune-IsPruned n),
)
