-- ===== src/Som/Filter/Laws.antt =====
-- What a filter of elements keeps: src/som/filter.rs.
use plasmate.Common.{
  ◌≡◌, refl, ap, sym, ◌∙◌, Bool, true, false, not, ◌&&◌, ◌||◌, Option, none, some, List, [], ◌∷◌,
  ◌++◌, arith, is_empty, Bool-cases, inl, inr, if◌then◌else◌,
}
use plasmate.Text.{Text}
use plasmate.Som.Types.{
  ElementInfo, Element, element, Children, no_children, children, ShadowRoot, no_shadow, shadow,
  Elements, nil, cons,
}
use plasmate.Som.Filter.{
  is_nil, or_none, has_children, keep_some, or_same, keep_element, filter_element, filter_children,
  filter_shadow, filter_elements,
}

is_empty-append : {A : Type 0} (xs ys : List A) → is_empty (xs ++ ys) ≡ (is_empty xs && is_empty ys)
is_empty-append [] ys = refl
is_empty-append (x ∷ xs) ys = refl

is_empty→nil : {A : Type 0} (xs : List A) → is_empty xs ≡ true → xs ≡ []
is_empty→nil [] h = refl
is_empty→nil (x ∷ xs) h = cc

module _ {J : Type 0} (matches : ElementInfo J → Bool) where
  -- The elements that match, at any depth: an element before its children, and these before its shadow
  -- root.
  unfoldable mutual
    pub found_element : Element J → List (ElementInfo J)
    found_element (element i c s) =
        (if matches i then i ∷ [] else []) ++ (found_children c ++ found_shadow s)

    pub found_children : Children J → List (ElementInfo J)
    found_children no_children = []
    found_children (children es) = found_elements es

    pub found_shadow : ShadowRoot J → List (ElementInfo J)
    found_shadow no_shadow = []
    found_shadow (shadow mode es) = found_elements es

    pub found_elements : Elements J → List (ElementInfo J)
    found_elements nil = []
    found_elements (cons e es) = found_element e ++ found_elements es

  abbrev pub found_option : Option (Element J) → List (ElementInfo J)
  found_option none = []
  found_option (some e) = found_element e

  abbrev pub is_none : Option (Element J) → Bool
  is_none none = true
  is_none (some e) = false

  pub record Finds (e : Element J) (o : Option (Element J)) : Type 0 where
    pub same : found_option o ≡ found_element e
    pub none_if_empty : is_none o ≡ is_empty (found_element e)

  pub record FindsChildren (c c' : Children J) : Type 0 where
    pub same : found_children c' ≡ found_children c
    pub some_if_found : has_children c' ≡ not (is_empty (found_children c))

  pub record FindsShadow (s : ShadowRoot J) (out : ShadowRoot J × Bool) : Type 0 where
    pub same : found_shadow out.0 ≡ found_shadow s
    pub some_if_found : out.1 ≡ not (is_empty (found_shadow s))

  pub record FindsElements (es es' : Elements J) : Type 0 where
    pub same : found_elements es' ≡ found_elements es
    pub nil_if_empty : is_nil es' ≡ is_empty (found_elements es)

  keep_element-Finds :
      (i : ElementInfo J) (c c' : Children J) (s : ShadowRoot J) (out : ShadowRoot J × Bool)
      → FindsChildren c c'
      → FindsShadow s out
      → Finds (element i c s) (keep_element matches i c' out)
  unfolding found_element
  keep_element-Finds i c c' s (s', hit) hc hs =
      let whole : found_element (element i c' s') ≡ found_element (element i c s) =
        rw (hc.same, hs.same) refl in
      let below : is_empty (found_children c ++ found_shadow s) ≡ not (has_children c' || hit) =
        is_empty-append (found_children c) (found_shadow s) ∙ ground arith in
      elim (Bool-cases (matches i)) [
        | inl m ↦ rw m (record { same = whole; none_if_empty = rw m refl })
        | inr m ↦ elim (Bool-cases (has_children c' || hit)) [
          | inl k ↦ rw (m, k) (record { same = whole; none_if_empty = rw m (sym (rw k at below)) })
          | inr k ↦
              let nothing = is_empty→nil (found_children c ++ found_shadow s) (rw k at below) in
              rw (m, k)
                (record { same = rw m (sym nothing); none_if_empty = rw m (sym (rw k at below)) })
        ]
      ]

  or_none-FindsChildren :
      (es es' : Elements J) → FindsElements es es' → FindsChildren (children es) (or_none es')
  unfolding found_element
  or_none-FindsChildren es nil f = record { same = f.same; some_if_found = ap not f.nil_if_empty }
  or_none-FindsChildren es (cons e k) f = record {
    same = f.same;
    some_if_found = ap not f.nil_if_empty;
  }

  or_same-FindsShadow :
      (mode : Text) (es es' : Elements J)
      → FindsElements es es'
      → FindsShadow (shadow mode es) (or_same mode es es')
  unfolding found_element
  or_same-FindsShadow mode es nil f = record { same = refl; some_if_found = ap not f.nil_if_empty }
  or_same-FindsShadow mode es (cons e k) f = record {
    same = f.same;
    some_if_found = ap not f.nil_if_empty;
  }

  keep_some-FindsElements :
      (e : Element J) (es es' : Elements J) (o : Option (Element J))
      → Finds e o
      → FindsElements es es'
      → FindsElements (cons e es) (keep_some o es')
  unfolding found_element
  keep_some-FindsElements e es es' none h k =
      let nothing : found_element e ≡ [] = sym h.same in
      record { same = rw nothing k.same; nil_if_empty = rw nothing k.nil_if_empty }
  keep_some-FindsElements e es es' (some e') h k = record {
    same = rw (h.same, k.same) refl;
    nil_if_empty =
        sym (is_empty-append (found_element e) (found_elements es) ∙ rw (← h.none_if_empty) refl);
  }

  mutual
    unfolding filter_element found_element

    pub filter_element-Finds : (e : Element J) → Finds e (filter_element matches e)
    filter_element-Finds (element i c s) =
        keep_element-Finds i c (filter_children matches c) s (filter_shadow matches s)
          (filter_children-Finds c) (filter_shadow-Finds s)

    pub filter_children-Finds : (c : Children J) → FindsChildren c (filter_children matches c)
    filter_children-Finds no_children = record { same = refl; some_if_found = refl }
    filter_children-Finds (children es) =
        or_none-FindsChildren es (filter_elements matches es) (filter_elements-Finds es)

    pub filter_shadow-Finds : (s : ShadowRoot J) → FindsShadow s (filter_shadow matches s)
    filter_shadow-Finds no_shadow = record { same = refl; some_if_found = refl }
    filter_shadow-Finds (shadow mode es) =
        or_same-FindsShadow mode es (filter_elements matches es) (filter_elements-Finds es)

    pub filter_elements-Finds : (es : Elements J) → FindsElements es (filter_elements matches es)
    filter_elements-Finds nil = record { same = refl; nil_if_empty = refl }
    filter_elements-Finds (cons e es) =
        keep_some-FindsElements e es (filter_elements matches es) (filter_element matches e)
          (filter_element-Finds e) (filter_elements-Finds es)
