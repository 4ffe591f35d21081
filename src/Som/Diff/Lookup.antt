-- ===== src/Som/Diff/Lookup.antt =====
-- One step of the loop over the elements of the new page: `diff_elements` of src/som/diff.rs.
use plasmate.Common.{
  ◌≡◌, refl, ap, sym, ◌∙◌, Option-cases, Bool, true, none, some, List, [], ◌∷◌, any, Bool-cases,
  inl, inr,
}
use plasmate.Text.{Text, text_eq}
use plasmate.Som.Types.{Element, Elements, nil, cons, Region}
use plasmate.Som.Diff.Types.{added, Json}
use plasmate.Som.Diff.Elements.{
  is_some, id_of, find_element, whole, push_added, push_modified, diff_single_element, new_elements,
}
use plasmate.Som.Diff.Pages.{find_region, new_regions, compare_region, push_added_region}

module _ {J : Type 0} (json : Json J) where
  pub new_elements-found :
      (old es : Elements J) (e o : Element J)
      → find_element (id_of e) old ≡ some o
      → new_elements json old (cons e es)
        ≡ push_modified (diff_single_element json o e) (new_elements json old es)
  unfolding new_elements find_element
  new_elements-found old es e o h =
      ap
        (λ f. elim f [
          | none ↦ push_added (whole added e) (new_elements json old es)
          | some p ↦ push_modified (diff_single_element json p e) (new_elements json old es)
        ])
        h

  pub new_elements-missing :
      (old es : Elements J) (e : Element J)
      → find_element (id_of e) old ≡ none
      → new_elements json old (cons e es) ≡ push_added (whole added e) (new_elements json old es)
  unfolding new_elements find_element
  new_elements-missing old es e h =
      ap
        (λ f. elim f [
          | none ↦ push_added (whole added e) (new_elements json old es)
          | some p ↦ push_modified (diff_single_element json p e) (new_elements json old es)
        ])
        h

  pub new_regions-found :
      (old rs : List (Region J)) (r o : Region J)
      → find_region r.id old ≡ some o
      → new_regions json old (r ∷ rs) ≡ compare_region json o r (new_regions json old rs)
  unfolding new_regions find_region
  new_regions-found old rs r o h =
      ap
        (λ f. elim f [
          | none ↦ push_added_region r (new_regions json old rs)
          | some p ↦ compare_region json p r (new_regions json old rs)
        ])
        h

  pub new_regions-missing :
      (old rs : List (Region J)) (r : Region J)
      → find_region r.id old ≡ none
      → new_regions json old (r ∷ rs) ≡ push_added_region r (new_regions json old rs)
  unfolding new_regions find_region
  new_regions-missing old rs r h =
      ap
        (λ f. elim f [
          | none ↦ push_added_region r (new_regions json old rs)
          | some p ↦ compare_region json p r (new_regions json old rs)
        ])
        h

abbrev pub has_id : Text → List Text → Bool
has_id id is = any (λ j. text_eq j id) is

-- The ids of elements, in order.
module _ {J : Type 0} where
  unfoldable pub ids : Elements J → List Text
  ids nil = []
  ids (cons e es) = id_of e ∷ ids es

  pub find_element-has_id :
      (id : Text) (es : Elements J) → is_some (find_element id es) ≡ has_id id (ids es)
  unfolding find_element ids
  find_element-has_id id nil = refl
  find_element-has_id id (cons e es) = elim (Option-cases (find_element id es)) [
    | inl h ↦ elim (Bool-cases (text_eq (id_of e) id)) [
      | inl k ↦ rw (h, k) refl
      | inr k ↦ rw (h, k, sym (find_element-has_id id es), h) refl
    ]
    | inr (f, h) ↦
        let later : true ≡ has_id id (ids es) = ap is_some (sym h) ∙ find_element-has_id id es in
        elim (Bool-cases (text_eq (id_of e) id)) [
          | inl k ↦ rw (h, k) refl
          | inr k ↦ rw (h, k) later
        ]
  ]
