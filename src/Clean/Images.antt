-- ===== src/Clean/Images.antt =====
-- clean.go, `collectImages`: the images that are kept.
use go_web_search.Prelude.{
  ◌≡◌, ◌⊎◌, sym, subst, Bool, true, false, List, [], ◌∷◌, In, Option, none, some, Distinct,
  Distinct-snoc, In-append-cases, map-snoc, if-holds, inl, inr,
}
use go_web_search.Strings.{Text, runes, text_eq}
use go_web_search.Rows.{ImageRef}
use go_web_search.Runs.Listing.{member}
use go_web_search.Runs.Member.{member_of_In}
use go_web_search.Clean.{
  Node, text, comment, element, document, Nodes, nil, cons, Attr, image_urls, keep_image,
  resolve_image, add_image, images_walk, images_list, read_attrs, no_image, or_root, body_walk,
  prune,
}
use go_web_search.Clean.Document.{CleanedDoc, clean_html, clean_root, rendered}

-- No image is listed twice, and none has an empty URL.
pub record AreKept (out : List ImageRef) : Type 0 where
  pub distinct : Distinct (image_urls out)
  pub named : ¬ In [] (image_urls out)

keep_image-AreKept :
    (url : Text) (img : ImageRef) (out : List ImageRef)
    → AreKept out
    → AreKept (keep_image url img out)
unfolding member
keep_image-AreKept [] img out h = h
keep_image-AreKept (c ∷ s) img out h =
    if-holds AreKept (member text_eq (c ∷ s) (image_urls out)) out _ (λ seen. h)
      (λ new. record {
        distinct = subst Distinct (sym (map-snoc (λ (i : ImageRef). i.url) out _)) (
            Distinct-snoc (image_urls out) (c ∷ s) h.distinct
              (λ i. clash new (member_of_In (c ∷ s) (image_urls out) i)));
        named = λ i. new_named (
            In-append-cases (image_urls out) ((c ∷ s) ∷ []) []
              (subst (In []) (map-snoc (λ (i : ImageRef). i.url) out _) i));
      })
  where
    clash : {b : Bool} → b ≡ false → b ≡ true → ⊥
    clash p q = cc

    new_named : In [] (image_urls out) ⊎ In [] ((c ∷ s) ∷ []) → ⊥
    new_named (inl i) = h.named i
    new_named (inr (inl e)) = cc
    new_named (inr (inr i)) = i

module _ (resolve : Text → Text) where
  add_image-AreKept :
      (attrs : List Attr) (out : List ImageRef)
      → AreKept out
      → AreKept (add_image resolve attrs out)
  unfolding add_image
  add_image-AreKept attrs out h =
      resolved (read_attrs no_image attrs).url (read_attrs no_image attrs)
    where
      resolved : (url : Text) (img : ImageRef) → AreKept (resolve_image resolve url img out)
      resolved [] img = h
      resolved (c ∷ s) img = keep_image-AreKept (resolve (c ∷ s)) img out h

  mutual
    unfolding images_walk images_list

    images_walk-AreKept :
        (n : Node) (out : List ImageRef) → AreKept out → AreKept (images_walk resolve n out)
    images_walk-AreKept (text s) out h = h
    images_walk-AreKept (comment s) out h = h
    images_walk-AreKept (element name attrs kids) out h = images_list-AreKept kids _ (
        if-holds AreKept (text_eq name (runes "img")) _ out (λ e. add_image-AreKept attrs out h)
          (λ e. h))
    images_walk-AreKept (document kids) out h = images_list-AreKept kids out h

    images_list-AreKept :
        (cs : Nodes) (out : List ImageRef) → AreKept out → AreKept (images_list resolve cs out)
    images_list-AreKept nil out h = h
    images_list-AreKept (cons c cs) out h =
        images_list-AreKept cs (images_walk resolve c out) (images_walk-AreKept c out h)

none_kept : AreKept []
none_kept = record { distinct = tt; named = λ i. i }

module _ (parse_html : Text → Option Node) (render : Node → Option Text)
    (resolve : Text → Text) where
  -- A cleaned page lists no image twice, and none with an empty URL.
  pub clean_html-AreKept :
      (raw : Text) (doc : CleanedDoc)
      → clean_html parse_html render raw resolve ≡ some doc
      → AreKept doc.images
  unfolding clean_html
  clean_html-AreKept raw doc e = parsed (parse_html raw) e
    where
      written :
          (root body : Node) (images : List ImageRef) (html : Option Text)
          → rendered parse_html render root body images html ≡ some doc
          → AreKept images
          → AreKept doc.images
      written root body images none e h = absurd (no_doc e)
        where
          no_doc : none ≡ some doc → ⊥
          no_doc e = cc
      written root body images (some html) e h =
          subst (λ o. elim o [ none ↦ Unit | some d ↦ AreKept d.images ]) e h

      parsed :
          (root : Option Node)
          → clean_root parse_html render resolve root ≡ some doc
          → AreKept doc.images
      parsed none e = absurd (no_doc e)
        where
          no_doc : none ≡ some doc → ⊥
          no_doc e = cc
      parsed (some root) e =
          let body = or_root root (body_walk root none) in
          written root (prune body) (images_walk resolve body []) (render (prune body)) e
            (images_walk-AreKept resolve body [] none_kept)
