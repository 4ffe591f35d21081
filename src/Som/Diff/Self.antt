-- ===== src/Som/Diff/Self.antt =====
-- A page is no different from itself: src/som/diff.rs.
use plasmate.Common.{◌≡◌, refl, true, false, Option, none, some}
use plasmate.Text.{Text, text_eq_refl}
use plasmate.Som.Types.{
  ElementRole, RegionRole, role_eq, region_role_eq, ElementInfo, Element, element, Children,
  no_children, children, ShadowRoot, Elements, nil, cons, ElementRole-discrete, RegionRole-discrete,
}
use plasmate.Som.Diff.Types.{no_diffs, no_changes, Json}
use plasmate.Som.Diff.Elements.{
  option_text_eq, no_counts, diff_attrs, or_empty, id_of, find_element, info_diff, has_changes,
  finish, removed_elements, diff_single_element, diff_children, new_elements, diff_elements, joined,
}
use plasmate.Som.Diff.Lookup.{new_elements-found}

pub option_text_eq_refl : (o : Option Text) → option_text_eq o o ≡ true
unfolding option_text_eq
option_text_eq_refl none = refl
option_text_eq_refl (some s) = text_eq_refl s

role_eq_refl : (r : ElementRole) → role_eq r r ≡ true
unfolding role_eq
role_eq_refl r =
    elim (ElementRole-discrete r r) as (λ d. elim d [ yes _ ↦ true | no _ ↦ false ] ≡ true) [
      | yes _ ↦ refl
      | no k ↦ absurd (k refl)
    ]

pub region_role_eq_refl : (r : RegionRole) → region_role_eq r r ≡ true
unfolding region_role_eq
region_role_eq_refl r =
    elim (RegionRole-discrete r r) as (λ d. elim d [ yes _ ↦ true | no _ ↦ false ] ≡ true) [
      | yes _ ↦ refl
      | no k ↦ absurd (k refl)
    ]

module _ {J : Type 0} where
  -- No id stands twice among the elements of a list, here and among the children.
  abbrev mutual
    pub UniqueElement : Element J → Type 0
    UniqueElement (element i c s) = UniqueChildren c

    pub UniqueChildren : Children J → Type 0
    UniqueChildren no_children = Unit {0}
    UniqueChildren (children es) = UniqueElements es

    pub UniqueElements : Elements J → Type 0
    UniqueElements nil = Unit {0}
    UniqueElements (cons e es) =
        (find_element (id_of e) es ≡ none) × (UniqueElement e × UniqueElements es)

module _ {J : Type 0} (json : Json J) (json_eq_refl : (v : J) → json.json_eq v v ≡ true) where
  diff_attrs_self : (a : Option J) → diff_attrs json a a ≡ none
  unfolding diff_attrs
  diff_attrs_self a = rw (json_eq_refl (or_empty json a)) refl

  info_diff_self : (i : ElementInfo J) → has_changes (info_diff json i i) ≡ false
  unfolding info_diff
  info_diff_self i =
      rw
        (
          option_text_eq_refl i.text,
          role_eq_refl i.role,
          diff_attrs_self i.attrs,
          text_eq_refl (joined i.actions),
          text_eq_refl (joined i.hints),
        )
        refl

  -- Each element of the second list is what the first finds at its id.
  abbrev FoundAll : Elements J → Elements J → Type 0
  FoundAll old nil = Unit {0}
  FoundAll old (cons e es) = (find_element (id_of e) old ≡ some e) × FoundAll old es

  find_later :
      (id : Text) (e f : Element J) (es : Elements J)
      → find_element id es ≡ some f
      → find_element id (cons e es) ≡ some f
  unfolding find_element
  find_later id e f es h = rw h refl

  FoundAll-cons : (e : Element J) (old es : Elements J) → FoundAll old es → FoundAll (cons e old) es
  FoundAll-cons e old nil h = tt
  FoundAll-cons e old (cons f es) (p, h) =
      (find_later (id_of f) e f old p, FoundAll-cons e old es h)

  find_first :
      (e : Element J) (es : Elements J)
      → find_element (id_of e) es ≡ none
      → find_element (id_of e) (cons e es) ≡ some e
  unfolding find_element
  find_first e es h = rw (h, text_eq_refl (id_of e)) refl

  FoundAll-self : (es : Elements J) → UniqueElements es → FoundAll es es
  FoundAll-self nil u = tt
  FoundAll-self (cons e es) (fresh, (_, u)) =
      (find_first e es fresh, FoundAll-cons e es es (FoundAll-self es u))

  removed_elements-none :
      (new es : Elements J) → FoundAll new es → removed_elements es new ≡ (no_diffs, 0)
  unfolding removed_elements
  removed_elements-none new nil h = refl
  removed_elements-none new (cons e es) (p, h) = rw (p, removed_elements-none new es h) refl

  mutual
    unfolding new_elements finish removed_elements

    pub diff_single_element_self :
        (e : Element J) → UniqueElement e → diff_single_element json e e ≡ none
    diff_single_element_self (element i c s) u = rw (info_diff_self i, diff_children_self c u) refl

    diff_children_self : (c : Children J) → UniqueChildren c → diff_children json c c ≡ no_changes
    diff_children_self no_children u = refl
    diff_children_self (children es) u =
        let f = FoundAll-self es u in
        rw (removed_elements-none es es f, new_elements_self es es u f) refl

    new_elements_self :
        (old es : Elements J)
        → UniqueElements es
        → FoundAll old es
        → new_elements json old es ≡ (no_diffs, no_counts)
    new_elements_self old nil u h = refl
    new_elements_self old (cons e es) (fresh, (ue, u)) (p, h) =
        rw
          (
            new_elements-found json old es e e p,
            diff_single_element_self e ue,
            new_elements_self old es u h,
          )
          refl

  pub diff_elements_self :
      (es : Elements J) → UniqueElements es → diff_elements json es es ≡ (no_diffs, no_counts)
  unfolding diff_elements
  diff_elements_self es u =
      let f = FoundAll-self es u in
      rw (removed_elements-none es es f, new_elements_self es es u f) refl

  -- Of two elements that differ in nothing but the `html_id`, the label and the shadow root, no
  -- difference is reported, where no id stands twice in a list of children and a JSON value equals itself.
  pub diff_single_element-unseen :
      (i : ElementInfo J) (c : Children J) (s t : ShadowRoot J) (html_id label : Option Text)
      → UniqueChildren c
      → diff_single_element json
          (element i c s)
          (element (record i { html_id = html_id; label = label }) c t)
        ≡ none
  unfolding diff_single_element finish info_diff
  diff_single_element-unseen i c s t html_id label u =
      rw (diff_children_self c u) (rw (info_diff_self i) refl)
