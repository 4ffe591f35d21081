-- ===== src/Som/Diff/Summary.antt =====
-- The counts of the summary: `diff_regions` and `diff_soms` of src/som/diff.rs.
use plasmate.Common.{
  ℕ, ◌+◌, ◌≡◌, refl, sym, subst, Bool, Option, none, some, List, [], ◌∷◌, arith, length,
  Option-cases, inl, inr, if◌then◌else◌, ◌||◌,
}
use plasmate.Text.{Text}
use plasmate.Som.Types.{Region, Som}
use plasmate.Som.Diff.Types.{
  ChangeType, added, removed, modified, TextChange, Diffs, no_diffs, more_diffs, RegionDiff,
  DiffSummary, Json,
}
use plasmate.Som.Diff.Elements.{Counts, is_some}
use plasmate.Som.Diff.Pages.{
  find_region, some_diffs, whole_region, Found, removed_regions, add_counts, push_region,
  push_added_region, compare_region, flag_summary, new_regions, diff_regions, diff_soms,
}
use plasmate.Som.Diff.Lookup.{new_regions-found, new_regions-missing}
use plasmate.Som.Diff.Counts.{same_change, ids_of, diff_elements-Reports}

module _ {J : Type 0} where
  -- The regions that are reported with a type of change.
  abbrev pub region_count : ChangeType → List (RegionDiff J) → ℕ
  region_count change [] = 0
  region_count change (d ∷ ds) =
      (if same_change d.change_type change then 1 else 0) + region_count change ds

  -- The regions that are reported with another role or label.
  abbrev pub altered : List (RegionDiff J) → ℕ
  altered [] = 0
  altered (d ∷ ds) = (if is_some d.role_change || is_some d.label_change then 1 else 0) + altered ds

  abbrev reported : ChangeType → Option (Diffs J) → ℕ
  reported change none = 0
  reported change (some ds) = length (ids_of change ds)

  -- The elements that are reported with a type of change, children not counted.
  abbrev pub element_count : ChangeType → List (RegionDiff J) → ℕ
  element_count change [] = 0
  element_count change (d ∷ ds) = reported change d.element_changes + element_count change ds

  -- The counts are those of the diffs.
  pub record Balanced (ds : List (RegionDiff J)) (s : DiffSummary) : Type 0 where
    pub regions_added : s.regions_added ≡ region_count added ds
    pub regions_removed : s.regions_removed ≡ region_count removed ds
    pub elements_added : s.elements_added ≡ element_count added ds
    pub elements_removed : s.elements_removed ≡ element_count removed ds
    pub elements_modified : s.elements_modified ≡ element_count modified ds
    pub total :
        s.total_changes
        ≡ s.regions_added
          + s.regions_removed
          + (s.elements_added + s.elements_removed + s.elements_modified + altered ds)

  Balanced-added :
      (r : Region J) (found : Found J)
      → Balanced found.0 found.1
      → Balanced (push_added_region r found).0 (push_added_region r found).1
  Balanced-added r (ds, s) b = record {
    regions_added = omega (arith, b.regions_added);
    regions_removed = omega (arith, b.regions_removed);
    elements_added = omega (arith, b.elements_added);
    elements_removed = omega (arith, b.elements_removed);
    elements_modified = omega (arith, b.elements_modified);
    total = omega (arith, b.total);
  }

  Balanced-removed :
      (r : Region J) (ds : List (RegionDiff J)) (s : DiffSummary)
      → Balanced ds s
      → Balanced (whole_region removed r ∷ ds) (record s {
        regions_removed = s.regions_removed + 1;
        total_changes = s.total_changes + 1;
      })
  Balanced-removed r ds s b = record {
    regions_added = omega (arith, b.regions_added);
    regions_removed = omega (arith, b.regions_removed);
    elements_added = omega (arith, b.elements_added);
    elements_removed = omega (arith, b.elements_removed);
    elements_modified = omega (arith, b.elements_modified);
    total = omega (arith, b.total);
  }

  abbrev pub Counted : Diffs J × Counts → Type 0
  Counted (ds, counts) =
      (counts.added_count ≡ length (ids_of added ds))
      × ((counts.removed_count ≡ length (ids_of removed ds))
          × (counts.modified_count ≡ length (ids_of modified ds)))

  reported-some_diffs :
      (change : ChangeType) (ds : Diffs J)
      → reported change (some_diffs ds) ≡ length (ids_of change ds)
  unfolding ids_of
  reported-some_diffs change no_diffs = refl
  reported-some_diffs change (more_diffs d ds) = refl

  abbrev region_diff : Text → Option TextChange → Option TextChange → Diffs J → RegionDiff J
  region_diff id role label ds = record {
    id = id;
    change_type = modified;
    role_change = role;
    label_change = label;
    element_changes = some_diffs ds;
  }

  Balanced-modified :
      (id : Text) (role label : Option TextChange) (ds : Diffs J) (counts : Counts) (n : ℕ)
      (rs : List (RegionDiff J)) (s : DiffSummary)
      → (if is_some role || is_some label then 1 else 0) ≡ n
      → Counted (ds, counts)
      → Balanced rs s
      → Balanced
          (region_diff id role label ds ∷ rs)
          (record (add_counts counts s) { total_changes = (add_counts counts s).total_changes + n })
  Balanced-modified id role label ds counts n rs s e (a, (r, m)) b =
      let ra = reported-some_diffs added ds in
      let rr = reported-some_diffs removed ds in
      let rm = reported-some_diffs modified ds in
      record {
        regions_added = omega (arith, b.regions_added);
        regions_removed = omega (arith, b.regions_removed);
        elements_added = omega (arith, b.elements_added, a, ra);
        elements_removed = omega (arith, b.elements_removed, r, rr);
        elements_modified = omega (arith, b.elements_modified, m, rm);
        total = omega (arith, b.total, e);
      }

  Balanced-unchanged :
      (counts : Counts) (rs : List (RegionDiff J)) (s : DiffSummary)
      → Counted (no_diffs, counts)
      → Balanced rs s
      → Balanced rs (add_counts counts s)
  unfolding ids_of
  Balanced-unchanged counts rs s (a, (r, m)) b = record {
    regions_added = b.regions_added;
    regions_removed = b.regions_removed;
    elements_added = omega (arith, b.elements_added, a);
    elements_removed = omega (arith, b.elements_removed, r);
    elements_modified = omega (arith, b.elements_modified, m);
    total = omega (arith, b.total, a, r, m);
  }

  Balanced-same_total :
      (counts : Counts) (ds : List (RegionDiff J)) (s : DiffSummary)
      → Balanced ds
          (record (add_counts counts s) { total_changes = (add_counts counts s).total_changes + 0 })
      → Balanced ds (add_counts counts s)
  Balanced-same_total counts ds s b = record {
    regions_added = b.regions_added;
    regions_removed = b.regions_removed;
    elements_added = b.elements_added;
    elements_removed = b.elements_removed;
    elements_modified = b.elements_modified;
    total = omega (arith, b.total);
  }

  abbrev IsBalanced : Found J → Type 0
  IsBalanced out = Balanced out.0 out.1

  Balanced-push_region :
      (id : Text) (role label : Option TextChange) (ds : Diffs J) (counts : Counts)
      (rs : List (RegionDiff J)) (s : DiffSummary)
      → Counted (ds, counts)
      → Balanced rs s
      → IsBalanced (push_region id role label (ds, counts) (rs, s))
  unfolding push_region
  Balanced-push_region id (some role) label ds counts rs s c b =
      Balanced-modified id (some role) label ds counts 1 rs s refl c b
  Balanced-push_region id none (some label) ds counts rs s c b =
      Balanced-modified id none (some label) ds counts 1 rs s refl c b
  Balanced-push_region id none none (more_diffs d ds) counts rs s c b =
      Balanced-same_total counts _ s
        (Balanced-modified id none none (more_diffs d ds) counts 0 rs s refl c b)
  Balanced-push_region id none none no_diffs counts rs s c b = Balanced-unchanged counts rs s c b

  module _ (json : Json J) where
    compare_region-Balanced :
        (old new : Region J) (found : Found J)
        → IsBalanced found
        → IsBalanced (compare_region json old new found)
    unfolding compare_region
    compare_region-Balanced old new (rs, s) b =
        let r = diff_elements-Reports json old.elements new.elements in
        Balanced-push_region _ _ _ _ _ rs s
          (r.added_counted, (r.removed_counted, r.modified_counted)) b

    new_regions-Balanced : (old new : List (Region J)) → IsBalanced (new_regions json old new)
    unfolding new_regions
    new_regions-Balanced old [] = record {
      regions_added = refl;
      regions_removed = refl;
      elements_added = refl;
      elements_removed = refl;
      elements_modified = refl;
      total = refl;
    }
    new_regions-Balanced old (r ∷ rs) =
        let rest = new_regions-Balanced old rs in
        elim (Option-cases (find_region r.id old)) [
          | inl h ↦
              subst IsBalanced (sym (new_regions-missing json old rs r h))
                (Balanced-added r (new_regions json old rs) rest)
          | inr (o, h) ↦
              subst IsBalanced (sym (new_regions-found json old rs r o h))
                (compare_region-Balanced o r (new_regions json old rs) rest)
        ]

    removed_regions-Balanced :
        (old new : List (Region J)) (found : Found J)
        → IsBalanced found
        → IsBalanced (removed_regions old new found)
    unfolding removed_regions
    removed_regions-Balanced [] new found b = b
    removed_regions-Balanced (r ∷ rs) new found b =
        let rest = removed_regions-Balanced rs new found b in
        elim (Option-cases (find_region r.id new)) [
          | inl h ↦ rw h (Balanced-removed r _ _ rest)
          | inr (o, h) ↦ rw h rest
        ]

    diff_regions-Balanced : (old new : List (Region J)) → IsBalanced (diff_regions json old new)
    unfolding diff_regions
    diff_regions-Balanced old new =
        removed_regions-Balanced old new (new_regions json old new) (new_regions-Balanced old new)

    -- The summary of a comparison counts what the comparison reports: the regions and the elements that
    -- were added, removed and modified, children not counted, and in all those and the regions of
    -- another role or label.
    pub diff_soms-Balanced :
        (is_price_text : Text → Bool) (old new : Som J) (ignore_meta : Bool)
        → Balanced
            (diff_soms json is_price_text old new ignore_meta).regions
            (diff_soms json is_price_text old new ignore_meta).summary
    unfolding diff_soms flag_summary
    diff_soms-Balanced is_price_text old new ignore_meta =
        let b = diff_regions-Balanced old.regions new.regions in
        record {
          regions_added = b.regions_added;
          regions_removed = b.regions_removed;
          elements_added = b.elements_added;
          elements_removed = b.elements_removed;
          elements_modified = b.elements_modified;
          total = b.total;
        }
