-- ===== src/Som/Filter/Pages.antt =====
-- What is left of a page: src/som/filter.rs.
use plasmate.Common.{
  ◌≡◌, ◌≢◌, ◌⊎◌, refl, ap, sym, ◌∙◌, Bool, true, false, ◌||◌, Option, none, some, List, [], ◌∷◌,
  ◌++◌, All, is_empty, Bool-cases, inl, inr,
}
use plasmate.Text.{Text}
use plasmate.Som.Types.{
  ElementInfo, Element, element, Children, no_children, children, ShadowRoot, no_shadow, shadow,
  Elements, nil, cons, Region, Som,
}
use plasmate.Som.Filter.{
  is_nil, or_none, has_children, keep_some, or_same, keep_element, filter_element, filter_children,
  filter_shadow, filter_elements, keep_region, filter_regions, with_regions, filter_som_elements,
}
use plasmate.Som.Filter.Laws.{
  found_element, found_elements, Finds, FindsElements, filter_element-Finds, filter_elements-Finds,
}

module _ {J : Type 0} (matches : ElementInfo J → Bool) where
  -- Each element holds one that matches, or is one; but a shadow root in which nothing matches may stand
  -- as it was.
  abbrev mutual
    pub Needed : Element J → Type 0
    Needed (element i c s) =
        (found_element matches (element i c s) ≢ []) × NeededChildren c × NeededShadow s

    pub NeededChildren : Children J → Type 0
    NeededChildren no_children = Unit {0}
    NeededChildren (children es) = NeededElements es

    pub NeededShadow : ShadowRoot J → Type 0
    NeededShadow no_shadow = Unit {0}
    NeededShadow (shadow mode es) = (found_elements matches es ≡ []) ⊎ NeededElements es

    pub NeededElements : Elements J → Type 0
    NeededElements nil = Unit {0}
    NeededElements (cons e es) = Needed e × NeededElements es

  abbrev NeededOption : Option (Element J) → Type 0
  NeededOption none = Unit {0}
  NeededOption (some e) = Needed e

  keep_element-Needed :
      (e : Element J) (i : ElementInfo J) (c : Children J) (out : ShadowRoot J × Bool)
      → Finds matches e (keep_element matches i c out)
      → NeededChildren c
      → NeededShadow out.0
      → NeededOption (keep_element matches i c out)
  keep_element-Needed e i c (s, hit) f hc hs =
      elim (Bool-cases (matches i || (has_children c || hit))) [
        | inr k ↦ rw k tt
        | inl k ↦
            let whole : found_element matches (element i c s) ≡ found_element matches e =
              rw k at f.same in
            let some_found : false ≡ is_empty (found_element matches e) = rw k at f.none_if_empty in
            rw k (
              λ z.
                  (let bad : is_empty (found_element matches e) ≡ true =
                      ap is_empty (sym whole ∙ z) in
                    cc),
              hc,
              hs,
            )
      ]

  or_none-Needed : (es : Elements J) → NeededElements es → NeededChildren (or_none es)
  or_none-Needed nil h = tt
  or_none-Needed (cons e es) h = h

  or_same-Needed :
      (mode : Text) (es es' : Elements J)
      → FindsElements matches es es'
      → NeededElements es'
      → NeededShadow (or_same mode es es').0
  unfolding found_elements
  or_same-Needed mode es nil f h = inl (sym f.same)
  or_same-Needed mode es (cons e k) f h = inr h

  keep_some-Needed :
      (o : Option (Element J)) (es : Elements J)
      → NeededOption o
      → NeededElements es
      → NeededElements (keep_some o es)
  keep_some-Needed none es h k = k
  keep_some-Needed (some e) es h k = (h, k)

  mutual
    unfolding filter_element found_element

    filter_element-Needed : (e : Element J) → NeededOption (filter_element matches e)
    filter_element-Needed (element i c s) =
        keep_element-Needed (element i c s) i (filter_children matches c) (filter_shadow matches s)
          (filter_element-Finds matches (element i c s)) (filter_children-Needed c)
          (filter_shadow-Needed s)

    filter_children-Needed : (c : Children J) → NeededChildren (filter_children matches c)
    filter_children-Needed no_children = tt
    filter_children-Needed (children es) =
        or_none-Needed (filter_elements matches es) (filter_elements-Needed es)

    filter_shadow-Needed : (s : ShadowRoot J) → NeededShadow (filter_shadow matches s).0
    filter_shadow-Needed no_shadow = tt
    filter_shadow-Needed (shadow mode es) =
        or_same-Needed mode es (filter_elements matches es) (filter_elements-Finds matches es)
          (filter_elements-Needed es)

    filter_elements-Needed : (es : Elements J) → NeededElements (filter_elements matches es)
    filter_elements-Needed nil = tt
    filter_elements-Needed (cons e es) =
        keep_some-Needed (filter_element matches e) (filter_elements matches es)
          (filter_element-Needed e) (filter_elements-Needed es)

  unfoldable pub found_regions : List (Region J) → List (ElementInfo J)
  found_regions [] = []
  found_regions (r ∷ rs) = found_elements matches r.elements ++ found_regions rs

  -- The regions that are left: none is empty.
  abbrev pub NeededRegions : List (Region J) → Type 0
  NeededRegions rs =
      All (λ r. (found_elements matches r.elements ≢ []) × NeededElements r.elements) rs

  record FindsRegions (rs rs' : List (Region J)) : Type 0 where
    same : found_regions rs' ≡ found_regions rs
    needed : NeededRegions rs'

  keep_region-FindsRegions :
      (r : Region J) (es : Elements J) (rs rs' : List (Region J))
      → FindsElements matches r.elements es
      → NeededElements es
      → FindsRegions rs rs'
      → FindsRegions (r ∷ rs) (keep_region r es rs')
  unfolding found_regions found_elements
  keep_region-FindsRegions r nil rs rs' f n k =
      let nothing : found_elements matches r.elements ≡ [] = sym f.same in
      record { same = rw nothing k.same; needed = k.needed }
  keep_region-FindsRegions r (cons e es) rs rs' f n k = record {
    same = rw (f.same, k.same) refl;
    needed = (
      (
        λ z.
            let bad : is_empty (found_elements matches r.elements) ≡ true =
              ap is_empty (sym f.same ∙ z) in
            let good : false ≡ is_empty (found_elements matches r.elements) = f.nil_if_empty in cc,
        n,
      ),
      k.needed,
    );
  }

  filter_regions-FindsRegions : (rs : List (Region J)) → FindsRegions rs (filter_regions matches rs)
  unfolding filter_regions found_regions
  filter_regions-FindsRegions [] = record { same = refl; needed = tt }
  filter_regions-FindsRegions (r ∷ rs) =
      keep_region-FindsRegions r (filter_elements matches r.elements) rs (filter_regions matches rs)
        (filter_elements-Finds matches r.elements) (filter_elements-Needed r.elements)
        (filter_regions-FindsRegions rs)

  -- A page narrowed to what matches, or left alone where nothing does.
  pub data Narrowed (som out : Som J) : Type 0 where
    left_alone : found_regions som.regions ≡ [] → out ≡ som → Narrowed som out
    narrowed :
        (rs : List (Region J))
        → out ≡ record som { regions = rs }
        → rs ≢ []
        → found_regions rs ≡ found_regions som.regions
        → NeededRegions rs
        → Narrowed som out

  with_regions-Narrowed :
      (som : Som J) (rs : List (Region J))
      → FindsRegions som.regions rs
      → Narrowed som (with_regions som rs)
  unfolding with_regions found_regions
  with_regions-Narrowed som [] f = left_alone (sym f.same) refl
  with_regions-Narrowed som (r ∷ rs) f = narrowed (r ∷ rs) refl (λ z. (cc)) f.same f.needed

  -- Filtering a page by a test of its elements loses no element that matches and reorders none; each
  -- region and each element that is left holds a match, but for those of a shadow root in which nothing
  -- matches; and where nothing on the page matches, the page is left as it is.
  pub filter_som_elements-Narrowed : (som : Som J) → Narrowed som (filter_som_elements som matches)
  unfolding filter_som_elements
  filter_som_elements-Narrowed som =
      with_regions-Narrowed som (filter_regions matches som.regions)
        (filter_regions-FindsRegions som.regions)

  -- An element that is kept keeps the whole of a shadow root in which nothing matches, while children
  -- in which nothing matches are dropped.
  pub filter_element-shadow_kept :
      (i : ElementInfo J) (es fs : Elements J) (mode : Text)
      → matches i ≡ true
      → found_elements matches es ≡ []
      → found_elements matches fs ≡ []
      → filter_element matches (element i (children es) (shadow mode fs))
        ≡ some (element i no_children (shadow mode fs))
  unfolding filter_element
  filter_element-shadow_kept i es fs mode m e f =
      let dropped =
        nil_of (filter_elements matches es)
          ((filter_elements-Finds matches es).nil_if_empty ∙ ap is_empty e) in
      let kept =
        nil_of (filter_elements matches fs)
          ((filter_elements-Finds matches fs).nil_if_empty ∙ ap is_empty f) in
      rw (dropped, kept, m) refl
    where
      nil_of : (es : Elements J) → is_nil es ≡ true → es ≡ nil
      nil_of nil h = refl
      nil_of (cons e es) h = cc
