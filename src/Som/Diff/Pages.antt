-- ===== src/Som/Diff/Pages.antt =====
-- The comparison of pages: `diff_soms`, `diff_page`, `diff_meta`, `diff_regions` and the two detections
-- of src/som/diff.rs. The regular expression of `is_price_text` is an argument.
use plasmate.Common.{
  ℕ, ◌+◌, ◌-◌, ◌%◌, ◌^◌, Bool, false, ◌&&◌, ◌||◌, Option, none, some, List, [], ◌∷◌, ◌++◌, ◌==◌,
  ltb, any, if◌then◌else◌,
}
use plasmate.Text.{Text, text_eq}
use plasmate.Som.Types.{RegionRole, Region, Som, SomMeta, region_role_str, region_role_eq}
use plasmate.Som.Diff.Types.{
  ChangeType, added, removed, modified, TextChange, ElementDiff, element_diff, Changes, no_changes,
  changes, Diffs, no_diffs, more_diffs, RegionDiff, PageDiff, MetaDiff, DiffSummary, SomDiff, Json,
}
use plasmate.Som.Diff.Elements.{
  text_change_of, unwrap_or_default, option_text_eq, is_some, Counts, diff_elements,
}

-- `new as i64 - old as i64`, as a bit pattern
unfoldable pub delta : ℕ → ℕ → ℕ
delta new old = (new % 2 ^ 64 + (2 ^ 64 - old % 2 ^ 64)) % 2 ^ 64

abbrev pub unless_zero : ℕ → Option ℕ
unless_zero n = if n == 0 then none else some n

unfoldable pub diff_meta : SomMeta → SomMeta → Option MetaDiff
unfolding delta
diff_meta old new =
    let html_delta = delta new.html_bytes old.html_bytes in
    let som_delta = delta new.som_bytes old.som_bytes in
    if (html_delta == 0) && (som_delta == 0)
    then none
    else some (record {
      html_bytes_delta = unless_zero html_delta;
      som_bytes_delta = unless_zero som_delta;
    })

abbrev pub empty_summary : DiffSummary
empty_summary = record {
  total_changes = 0;
  elements_added = 0;
  elements_removed = 0;
  elements_modified = 0;
  regions_added = 0;
  regions_removed = 0;
  has_price_changes = false;
  has_content_changes = false;
  has_structural_changes = false;
}

abbrev pub Found : Type 0 → Type 0
Found J = List (RegionDiff J) × DiffSummary

abbrev pub add_counts : Counts → DiffSummary → DiffSummary
add_counts counts summary = record summary {
  elements_added = summary.elements_added + counts.added_count;
  elements_removed = summary.elements_removed + counts.removed_count;
  elements_modified = summary.elements_modified + counts.modified_count;
  total_changes =
      summary.total_changes + (counts.added_count + counts.removed_count + counts.modified_count);
}

abbrev pub is_price_change : (Text → Bool) → Option TextChange → Bool
is_price_change is_price_text none = false
is_price_change is_price_text (some tc) = is_price_text tc.old || is_price_text tc.new

module _ {J : Type 0} where
  unfoldable pub diff_page : Som J → Som J → PageDiff
  unfolding delta
  diff_page old new = record {
    title_change = text_change_of (text_eq old.title new.title) old.title new.title;
    url_change = text_change_of (text_eq old.url new.url) old.url new.url;
    lang_change = text_change_of (text_eq old.lang new.lang) old.lang new.lang;
    element_count_delta = unless_zero (delta new.meta.element_count old.meta.element_count);
    interactive_count_delta =
        unless_zero (delta new.meta.interactive_count old.meta.interactive_count);
  }

  -- `map.get(id)` of the map that is collected from the regions.
  unfoldable pub find_region : Text → List (Region J) → Option (Region J)
  find_region id [] = none
  find_region id (r ∷ rs) = elim (find_region id rs) [
    | none ↦ if text_eq r.id id then some r else none
    | some s ↦ some s
  ]

  abbrev pub whole_region : ChangeType → Region J → RegionDiff J
  whole_region change r = record {
    id = r.id;
    change_type = change;
    role_change = none;
    label_change = none;
    element_changes = none;
  }

  abbrev pub some_diffs : Diffs J → Option (Diffs J)
  some_diffs no_diffs = none
  some_diffs (more_diffs d ds) = some (more_diffs d ds)

  -- The loop over the removed regions; what follows it is what is found after it.
  unfoldable pub removed_regions : List (Region J) → List (Region J) → Found J → Found J
  unfolding find_region
  removed_regions [] new found = found
  removed_regions (r ∷ rs) new found =
      let (ds, summary) = removed_regions rs new found in
      if is_some (find_region r.id new) then (ds, summary) else (
        whole_region removed r ∷ ds,
        record summary {
          regions_removed = summary.regions_removed + 1;
          total_changes = summary.total_changes + 1;
        },
      )

  -- A region that both pages have, with the changes of its role, its label and its elements.
  unfoldable pub push_region :
      Text → Option TextChange → Option TextChange → Diffs J × Counts → Found J → Found J
  push_region id role_change label_change (elem_diffs, elem_counts) (ds, summary) =
      let counted = add_counts elem_counts summary in
      let attributes = is_some role_change || is_some label_change in
      let diff : RegionDiff J = record {
        id = id;
        change_type = modified;
        role_change = role_change;
        label_change = label_change;
        element_changes = some_diffs elem_diffs;
      } in
      if attributes
      then (diff ∷ ds, record counted { total_changes = counted.total_changes + 1 })
      else if is_some (some_diffs elem_diffs)
      then (diff ∷ ds, counted)
      else (ds, counted)

  abbrev pub push_added_region : Region J → Found J → Found J
  push_added_region r (ds, summary) = (
    whole_region added r ∷ ds,
    record summary {
      regions_added = summary.regions_added + 1;
      total_changes = summary.total_changes + 1;
    },
  )

  module _ (json : Json J) where
    unfoldable pub compare_region : Region J → Region J → Found J → Found J
    compare_region old new =
        push_region new.id
          (text_change_of (region_role_eq old.role new.role) (region_role_str old.role)
            (region_role_str new.role))
          (text_change_of (option_text_eq old.label new.label) (unwrap_or_default old.label)
            (unwrap_or_default new.label))
          (diff_elements json old.elements new.elements)

    -- The loop over the regions of the new page.
    unfoldable pub new_regions : List (Region J) → List (Region J) → Found J
    unfolding find_region compare_region
    new_regions old [] = ([], empty_summary)
    new_regions old (r ∷ rs) =
        let rest = new_regions old rs in
        elim (find_region r.id old) [
          | none ↦ push_added_region r rest
          | some o ↦ compare_region o r rest
        ]

    unfoldable pub diff_regions : List (Region J) → List (Region J) → Found J
    unfolding removed_regions new_regions
    diff_regions old new = removed_regions old new (new_regions old new)

  module _ (is_price_text : Text → Bool) where
    unfoldable mutual
      pub detect_price_changes_in_element : ElementDiff J → Bool
      detect_price_changes_in_element (element_diff d c) =
          is_price_change is_price_text d.text_change || detect_price_changes_in_children c

      pub detect_price_changes_in_children : Changes J → Bool
      detect_price_changes_in_children no_changes = false
      detect_price_changes_in_children (changes ds) = detect_price_changes_in_elements ds

      pub detect_price_changes_in_elements : Diffs J → Bool
      detect_price_changes_in_elements no_diffs = false
      detect_price_changes_in_elements (more_diffs d ds) =
          detect_price_changes_in_element d || detect_price_changes_in_elements ds

    unfoldable pub detect_price_changes_in_regions : List (RegionDiff J) → Bool
    unfolding detect_price_changes_in_elements
    detect_price_changes_in_regions rs =
        any
          (λ r. elim r.element_changes [
            | none ↦ false
            | some ds ↦ detect_price_changes_in_elements ds
          ])
          rs

  -- Whether an element of the list, but none of its children, has a change of its text.
  unfoldable pub has_text_change : Diffs J → Bool
  has_text_change no_diffs = false
  has_text_change (more_diffs (element_diff d c) ds) = is_some d.text_change || has_text_change ds

  abbrev is_main_id : Text → List (Region J) → Bool
  is_main_id id rs = any (λ r. region_role_eq r.role RegionRole.main && text_eq r.id id) rs

  unfoldable pub detect_content_changes :
      List (RegionDiff J) → List (Region J) → List (Region J) → Bool
  unfolding has_text_change
  detect_content_changes diffs old new =
      any
        (λ d.
          is_main_id d.id (old ++ new)
          && elim d.element_changes [ none ↦ false | some ds ↦ has_text_change ds ])
        diffs

  -- The flags of the summary.
  unfoldable pub flag_summary : (Text → Bool) → Som J → Som J → Found J → Found J
  unfolding detect_price_changes_in_regions detect_content_changes
  flag_summary is_price_text old new (regions, summary) = (
    regions,
    record summary {
      has_price_changes = detect_price_changes_in_regions is_price_text regions;
      has_content_changes = detect_content_changes regions old.regions new.regions;
      has_structural_changes =
          ltb 0 summary.regions_added
          || (ltb 0 summary.regions_removed
              || (ltb 0 summary.elements_added || ltb 0 summary.elements_removed));
    },
  )

  unfoldable pub diff_soms : Json J → (Text → Bool) → Som J → Som J → Bool → SomDiff J
  unfolding diff_page diff_meta diff_regions detect_price_changes_in_regions detect_content_changes
  diff_soms json is_price_text old new ignore_meta =
      let (regions, summary) =
        flag_summary is_price_text old new (diff_regions json old.regions new.regions) in
      record {
        page = diff_page old new;
        meta = if ignore_meta then none else diff_meta old.meta new.meta;
        regions = regions;
        summary = summary;
      }
