-- ===== src/Som/Diff/Prices.antt =====
-- The texts in which prices are looked for: `detect_price_changes_in_regions` of src/som/diff.rs.
use plasmate.Common.{
  ◌≡◌, refl, sym, ◌∙◌, arith, Bool, false, ◌||◌, Option, none, some, List, [], ◌∷◌, ◌++◌, any,
}
use plasmate.Text.{Text}
use plasmate.Som.Diff.Types.{
  TextChange, ElementDiff, element_diff, Changes, no_changes, changes, Diffs, no_diffs, more_diffs,
  RegionDiff,
}
use plasmate.Som.Diff.Pages.{
  is_price_change, detect_price_changes_in_element, detect_price_changes_in_children,
  detect_price_changes_in_elements, detect_price_changes_in_regions,
}

-- The texts before and after the changes that are reported, at every depth.
abbrev texts_of : Option TextChange → List Text
texts_of none = []
texts_of (some tc) = tc.old ∷ tc.new ∷ []

any-append : (p : Text → Bool) (xs ys : List Text) → any p (xs ++ ys) ≡ (any p xs || any p ys)
any-append p [] ys = refl
any-append p (x ∷ xs) ys = ground (arith, any-append p xs ys)

any-texts_of : (p : Text → Bool) (o : Option TextChange) → any p (texts_of o) ≡ is_price_change p o
any-texts_of p none = refl
any-texts_of p (some tc) = ground arith

module _ {J : Type 0} where
  unfoldable mutual
    pub element_texts : ElementDiff J → List Text
    element_texts (element_diff d c) = texts_of d.text_change ++ children_texts c

    pub children_texts : Changes J → List Text
    children_texts no_changes = []
    children_texts (changes ds) = diffs_texts ds

    pub diffs_texts : Diffs J → List Text
    diffs_texts no_diffs = []
    diffs_texts (more_diffs d ds) = element_texts d ++ diffs_texts ds

  abbrev region_texts : RegionDiff J → List Text
  unfolding diffs_texts
  region_texts r = elim r.element_changes [ none ↦ [] | some ds ↦ diffs_texts ds ]

  abbrev pub all_texts : List (RegionDiff J) → List Text
  unfolding diffs_texts
  all_texts [] = []
  all_texts (r ∷ rs) = region_texts r ++ all_texts rs

  module _ (is_price_text : Text → Bool) where
    mutual
      unfolding element_texts detect_price_changes_in_element

      any-element_texts :
          (d : ElementDiff J)
          → any is_price_text (element_texts d) ≡ detect_price_changes_in_element is_price_text d
      any-element_texts (element_diff d c) =
          any-append is_price_text (texts_of d.text_change) (children_texts c)
          ∙ rw (any-texts_of is_price_text d.text_change, any-children_texts c) refl

      any-children_texts :
          (c : Changes J)
          → any is_price_text (children_texts c) ≡ detect_price_changes_in_children is_price_text c
      any-children_texts no_changes = refl
      any-children_texts (changes ds) = any-diffs_texts ds

      any-diffs_texts :
          (ds : Diffs J)
          → any is_price_text (diffs_texts ds) ≡ detect_price_changes_in_elements is_price_text ds
      any-diffs_texts no_diffs = refl
      any-diffs_texts (more_diffs d ds) =
          any-append is_price_text (element_texts d) (diffs_texts ds)
          ∙ rw (any-element_texts d, any-diffs_texts ds) refl

    any-region_texts :
        (o : Option (Diffs J))
        → any is_price_text (elim o [ none ↦ [] | some ds ↦ diffs_texts ds ])
          ≡ elim o [ none ↦ false | some ds ↦ detect_price_changes_in_elements is_price_text ds ]
    any-region_texts none = refl
    any-region_texts (some ds) = any-diffs_texts ds

    -- A price change is found exactly where a text that is reported, before or after its change and at
    -- any depth of any region, looks like a price.
    pub detect_price_changes_in_regions-any :
        (rs : List (RegionDiff J))
        → detect_price_changes_in_regions is_price_text rs ≡ any is_price_text (all_texts rs)
    unfolding detect_price_changes_in_regions all_texts region_texts
    detect_price_changes_in_regions-any [] = refl
    detect_price_changes_in_regions-any (r ∷ rs) = sym (
        any-append is_price_text (region_texts r) (all_texts rs)
        ∙ rw (any-region_texts r.element_changes, detect_price_changes_in_regions-any rs) refl)
