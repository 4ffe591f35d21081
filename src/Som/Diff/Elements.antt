-- ===== src/Som/Diff/Elements.antt =====
-- The comparison of elements: `diff_elements`, `diff_single_element` and `diff_attrs` of
-- src/som/diff.rs. A `HashMap` that is collected from a list is read by the last entry with the id.
use plasmate.Common.{
  ℕ, ◌+◌, Bool, true, false, ◌||◌, Option, none, some, List, [], ◌∷◌, ◌++◌, if◌then◌else◌,
}
use plasmate.Text.{Text, codes, text_eq}
use plasmate.Assoc.{get}
use plasmate.Som.Types.{
  ElementInfo, Element, element, Children, no_children, children, Elements, nil, cons, info_of,
  role_as_str, role_eq,
}
use plasmate.Som.Diff.Types.{
  ChangeType, added, removed, modified, TextChange, AttrChange, DiffInfo, ElementDiff, element_diff,
  Changes, no_changes, changes, Diffs, no_diffs, more_diffs, Json,
}

-- `Some(TextChange { … })` where the two differ.
abbrev pub text_change_of : Bool → Text → Text → Option TextChange
text_change_of same old new = if same then none else some (record { old = old; new = new })

abbrev pub unwrap_or_default : Option Text → Text
unwrap_or_default none = []
unwrap_or_default (some s) = s

unfoldable pub option_text_eq : Option Text → Option Text → Bool
option_text_eq none none = true
option_text_eq (some s) (some t) = text_eq s t
option_text_eq _ _ = false

-- `a.join(",")`
unfoldable pub join : List Text → Text
join [] = []
join (s ∷ []) = s
join (s ∷ t ∷ ss) = s ++ (codes "," ++ join (t ∷ ss))

unfoldable pub joined : Option (List Text) → Text
unfolding join
joined none = []
joined (some ss) = join ss

abbrev pub is_some : {A : Type 0} → Option A → Bool
is_some none = false
is_some (some a) = true

pub record Counts : Type 0 where
  pub added_count : ℕ
  pub removed_count : ℕ
  pub modified_count : ℕ

abbrev pub no_counts : Counts
no_counts = record { added_count = 0; removed_count = 0; modified_count = 0 }

module _ {J : Type 0} where
  unfoldable pub removed_keys : List (Text × J) → List (Text × J) → List (AttrChange J)
  removed_keys [] new = []
  removed_keys ((k, v) ∷ old) new =
      let rest = removed_keys old new in
      if is_some (get k new) then rest else record { key = k; old = some v; new = none } ∷ rest

  abbrev pub some_unless_empty : List (AttrChange J) → Option (List (AttrChange J))
  some_unless_empty [] = none
  some_unless_empty (c ∷ cs) = some (c ∷ cs)

  abbrev pub id_of : Element J → Text
  id_of e = (info_of e).id

  -- `map.get(id)` of the map that is collected from the elements.
  unfoldable pub find_element : Text → Elements J → Option (Element J)
  find_element id nil = none
  find_element id (cons e es) = elim (find_element id es) [
    | none ↦ if text_eq (id_of e) id then some e else none
    | some f ↦ some f
  ]

  -- A whole element that was added or removed.
  unfoldable pub whole : ChangeType → Element J → ElementDiff J
  whole change (element i c s) =
      element_diff
        (record {
          id = i.id;
          change_type = change;
          role = some (role_as_str i.role);
          text = i.text;
          attrs = i.attrs;
          text_change = none;
          role_change = none;
          attr_changes = none;
          actions_change = none;
          hints_change = none;
        })
        no_changes

  unfoldable pub whole_all : ChangeType → Elements J → Diffs J
  unfolding whole
  whole_all change nil = no_diffs
  whole_all change (cons e es) = more_diffs (whole change e) (whole_all change es)

  abbrev pub changes_unless_empty : Diffs J → Changes J
  changes_unless_empty no_diffs = no_changes
  changes_unless_empty (more_diffs d ds) = changes (more_diffs d ds)

  abbrev pub has_child_changes : Changes J → Bool
  has_child_changes no_changes = false
  has_child_changes (changes ds) = true

  abbrev pub has_changes : DiffInfo J → Bool
  has_changes d =
      is_some d.text_change
      || (is_some d.role_change
          || (is_some d.attr_changes || (is_some d.actions_change || is_some d.hints_change)))

  unfoldable pub finish : DiffInfo J → Changes J → Option (ElementDiff J)
  finish d c = if has_changes d || has_child_changes c then some (element_diff d c) else none

  -- The elements of the first that the second does not have.
  unfoldable pub removed_elements : Elements J → Elements J → Diffs J × ℕ
  unfolding find_element whole
  removed_elements nil new = (no_diffs, 0)
  removed_elements (cons e es) new =
      let (ds, n) = removed_elements es new in
      if is_some (find_element (id_of e) new)
      then (ds, n)
      else (more_diffs (whole removed e) ds, n + 1)

  abbrev pub append_diffs : Diffs J → Diffs J → Diffs J
  append_diffs no_diffs es = es
  append_diffs (more_diffs d ds) es = more_diffs d (append_diffs ds es)

  abbrev pub join_diffs : Diffs J × ℕ → Diffs J × Counts → Diffs J × Counts
  join_diffs (gone, n) (ds, counts) = (append_diffs gone ds, record counts { removed_count = n })

  abbrev pub push_added : ElementDiff J → Diffs J × Counts → Diffs J × Counts
  push_added d (ds, counts) =
      (more_diffs d ds, record counts { added_count = counts.added_count + 1 })

  abbrev pub push_modified : Option (ElementDiff J) → Diffs J × Counts → Diffs J × Counts
  push_modified none out = out
  push_modified (some d) (ds, counts) =
      (more_diffs d ds, record counts { modified_count = counts.modified_count + 1 })

  unfoldable pub removed_children : Children J → Changes J
  unfolding whole_all
  removed_children no_children = no_changes
  removed_children (children old) = changes_unless_empty (whole_all removed old)

  -- The children of the second, which are compared with those of the first where it has any.
  unfoldable pub with_children : Children J → Elements J → (Elements J → Diffs J) → Changes J
  unfolding whole_all
  with_children no_children new compare = changes_unless_empty (whole_all added new)
  with_children (children old) new compare = changes_unless_empty (compare old)

  abbrev pub children_of : Element J → Children J
  children_of (element i c s) = c

  module _ (json : Json J) where
    unfoldable pub changed_keys : List (Text × J) → List (Text × J) → List (AttrChange J)
    changed_keys old [] = []
    changed_keys old ((k, v) ∷ new) =
        let rest = changed_keys old new in
        elim (get k old) [
          | none ↦ record { key = k; old = none; new = some v } ∷ rest
          | some w ↦
              if json.json_eq w v
              then rest
              else record { key = k; old = some w; new = some v } ∷ rest
        ]

    abbrev pub or_empty : Option J → J
    or_empty none = json.empty_obj
    or_empty (some v) = v

    -- Two values that are not the same; where one is no object they are one change.
    unfoldable pub diff_objects :
        Option J
        → Option J
        → Option (List (Text × J))
        → Option (List (Text × J))
        → Option (List (AttrChange J))
    unfolding removed_keys changed_keys
    diff_objects old new (some o) (some n) =
        some_unless_empty (removed_keys o n ++ changed_keys o n)
    diff_objects old new _ _ = some (record { key = codes "_value"; old = old; new = new } ∷ [])

    unfoldable pub diff_attrs : Option J → Option J → Option (List (AttrChange J))
    unfolding removed_keys changed_keys
    diff_attrs old new =
        if json.json_eq (or_empty old) (or_empty new)
        then none
        else diff_objects old new (json.as_object (or_empty old)) (json.as_object (or_empty new))

    -- The changes of two elements but for those of their children.
    unfoldable pub info_diff : ElementInfo J → ElementInfo J → DiffInfo J
    unfolding option_text_eq diff_attrs
    info_diff old new = record {
      id = old.id;
      change_type = modified;
      role = none;
      text = none;
      attrs = none;
      text_change =
          text_change_of (option_text_eq old.text new.text) (unwrap_or_default old.text)
            (unwrap_or_default new.text);
      role_change =
          text_change_of (role_eq old.role new.role) (role_as_str old.role) (role_as_str new.role);
      attr_changes = diff_attrs old.attrs new.attrs;
      actions_change =
          text_change_of (text_eq (joined old.actions) (joined new.actions)) (joined old.actions)
            (joined new.actions);
      hints_change =
          text_change_of (text_eq (joined old.hints) (joined new.hints)) (joined old.hints)
            (joined new.hints);
    }

    unfoldable mutual
      unfolding find_element whole removed_children with_children info_diff finish removed_elements

      pub diff_single_element : Element J → Element J → Option (ElementDiff J)
      diff_single_element old (element i c s) =
          finish (info_diff (info_of old) i) (diff_children (children_of old) c)

      pub diff_children : Children J → Children J → Changes J
      diff_children old no_children = removed_children old
      diff_children old (children new) =
          with_children old new (λ o. (join_diffs (removed_elements o new) (new_elements o new)).0)

      -- The loop over the elements of `new`.
      pub new_elements : Elements J → Elements J → Diffs J × Counts
      new_elements old nil = (no_diffs, no_counts)
      new_elements old (cons e es) =
          let rest = new_elements old es in
          elim (find_element (id_of e) old) [
            | none ↦ push_added (whole added e) rest
            | some o ↦ push_modified (diff_single_element o e) rest
          ]

    unfoldable pub diff_elements : Elements J → Elements J → Diffs J × Counts
    unfolding removed_elements new_elements
    diff_elements old new = join_diffs (removed_elements old new) (new_elements old new)
