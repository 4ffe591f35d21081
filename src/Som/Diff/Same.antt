-- ===== src/Som/Diff/Same.antt =====
-- The comparison of a page with itself: `diff_soms` of src/som/diff.rs.
use plasmate.Common.{ℕ, ◌≡◌, refl, ◌∙◌, Bool, true, false, none, some, List, [], ◌∷◌, arith}
use plasmate.Text.{Text, text_eq_refl}
use plasmate.Som.Types.{Region, Som, SomMeta}
use plasmate.Som.Diff.Types.{PageDiff, SomDiff, Json}
use plasmate.Som.Diff.Pages.{
  delta, diff_meta, empty_summary, diff_page, find_region, Found, removed_regions, push_region,
  compare_region, flag_summary, new_regions, diff_regions, detect_price_changes_in_regions,
  detect_content_changes, diff_soms,
}
use plasmate.Som.Diff.Self.{
  option_text_eq_refl, region_role_eq_refl, UniqueElements, diff_elements_self,
}
use plasmate.Som.Diff.Lookup.{new_regions-found}

delta_self : (n : ℕ) → delta n n ≡ 0
unfolding delta
delta_self n = omega arith

diff_meta_self : (m : SomMeta) → diff_meta m m ≡ none
unfolding diff_meta
diff_meta_self m = rw (delta_self m.html_bytes, delta_self m.som_bytes) refl

-- The result where nothing changed.
abbrev pub no_page_diff : PageDiff
no_page_diff = record {
  title_change = none;
  url_change = none;
  lang_change = none;
  element_count_delta = none;
  interactive_count_delta = none;
}

module _ {J : Type 0} where
  abbrev pub no_diff : SomDiff J
  no_diff = record { page = no_page_diff; meta = none; regions = []; summary = empty_summary }

  diff_page_self : (som : Som J) → diff_page som som ≡ no_page_diff
  unfolding diff_page
  diff_page_self som =
      rw
        (
          text_eq_refl som.title,
          text_eq_refl som.url,
          text_eq_refl som.lang,
          delta_self som.meta.element_count,
          delta_self som.meta.interactive_count,
        )
        refl

  -- No id stands twice among the regions, nor among the elements of a list.
  abbrev pub UniqueRegions : List (Region J) → Type 0
  UniqueRegions [] = Unit {0}
  UniqueRegions (r ∷ rs) =
      (find_region r.id rs ≡ none) × (UniqueElements r.elements × UniqueRegions rs)

  abbrev FoundRegions : List (Region J) → List (Region J) → Type 0
  FoundRegions old [] = Unit {0}
  FoundRegions old (r ∷ rs) = (find_region r.id old ≡ some r) × FoundRegions old rs

  find_region-later :
      (id : Text) (r s : Region J) (rs : List (Region J))
      → find_region id rs ≡ some s
      → find_region id (r ∷ rs) ≡ some s
  unfolding find_region
  find_region-later id r s rs h = rw h refl

  FoundRegions-cons :
      (r : Region J) (old rs : List (Region J)) → FoundRegions old rs → FoundRegions (r ∷ old) rs
  FoundRegions-cons r old [] h = tt
  FoundRegions-cons r old (s ∷ rs) (p, h) =
      (find_region-later s.id r s old p, FoundRegions-cons r old rs h)

  find_region-first :
      (r : Region J) (rs : List (Region J))
      → find_region r.id rs ≡ none
      → find_region r.id (r ∷ rs) ≡ some r
  unfolding find_region
  find_region-first r rs h = rw (h, text_eq_refl r.id) refl

  FoundRegions-self : (rs : List (Region J)) → UniqueRegions rs → FoundRegions rs rs
  FoundRegions-self [] u = tt
  FoundRegions-self (r ∷ rs) (fresh, (_, u)) =
      (find_region-first r rs fresh, FoundRegions-cons r rs rs (FoundRegions-self rs u))

  removed_regions-none :
      (new rs : List (Region J)) (found : Found J)
      → FoundRegions new rs
      → removed_regions rs new found ≡ found
  unfolding removed_regions
  removed_regions-none new [] found h = refl
  removed_regions-none new (r ∷ rs) found (p, h) = rw (p, removed_regions-none new rs found h) refl

  module _ (json : Json J) (json_eq_refl : (v : J) → json.json_eq v v ≡ true) where
    new_regions_self :
        (old rs : List (Region J))
        → UniqueRegions rs
        → FoundRegions old rs
        → new_regions json old rs ≡ ([], empty_summary)
    unfolding push_region new_regions compare_region
    new_regions_self old [] u h = refl
    new_regions_self old (r ∷ rs) (fresh, (ue, u)) (p, h) =
        rw
          (
            new_regions-found json old rs r r p,
            region_role_eq_refl r.role,
            option_text_eq_refl r.label,
            diff_elements_self json json_eq_refl r.elements ue,
            new_regions_self old rs u h,
          )
          refl

    diff_regions_self :
        (rs : List (Region J)) → UniqueRegions rs → diff_regions json rs rs ≡ ([], empty_summary)
    unfolding diff_regions
    diff_regions_self rs u =
        let f = FoundRegions-self rs u in
        removed_regions-none rs rs (new_regions json rs rs) f ∙ new_regions_self rs rs u f

    -- A page in which no id stands twice is not different from itself: no change is reported and every
    -- count is 0, whether the sizes are ignored or not, where a JSON value equals itself.
    pub diff_soms_self :
        (is_price_text : Text → Bool) (som : Som J) (ignore_meta : Bool)
        → UniqueRegions som.regions
        → diff_soms json is_price_text som som ignore_meta ≡ no_diff
    unfolding diff_soms flag_summary detect_price_changes_in_regions detect_content_changes
    diff_soms_self is_price_text som true u =
        rw (diff_page_self som, diff_regions_self som.regions u) refl
    diff_soms_self is_price_text som false u =
        rw (diff_page_self som, diff_meta_self som.meta, diff_regions_self som.regions u) refl
