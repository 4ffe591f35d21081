-- ===== src/Som/Diff/Types.antt =====
-- The data of src/som/diff.rs. `Option<Vec<ElementDiff>>` is a type of its own, as it holds diffs; an
-- `i64` is its two's complement bit pattern, a number below 2 ^ 64.
use plasmate.Common.{ℕ, Bool, Option, List}
use plasmate.Text.{Text}

pub data ChangeType : Type 0 where
  added removed modified : ChangeType

pub record TextChange : Type 0 where
  pub old : Text
  pub new : Text

pub record AttrChange (J : Type 0) : Type 0 where
  pub key : Text
  pub old : Option J
  pub new : Option J

-- The fields of an element's diff but the changes of its children.
pub record DiffInfo (J : Type 0) : Type 0 where
  pub id : Text
  pub change_type : ChangeType
  pub role : Option Text
  pub text : Option Text
  pub attrs : Option J
  pub text_change : Option TextChange
  pub role_change : Option TextChange
  pub attr_changes : Option (List (AttrChange J))
  pub actions_change : Option TextChange
  pub hints_change : Option TextChange

mutual
  pub data ElementDiff (J : Type 0) : Type 0 where
    element_diff : DiffInfo J → Changes J → ElementDiff J

  pub data Changes (J : Type 0) : Type 0 where
    no_changes : Changes J
    changes : Diffs J → Changes J

  pub data Diffs (J : Type 0) : Type 0 where
    no_diffs : Diffs J
    more_diffs : ElementDiff J → Diffs J → Diffs J

pub record RegionDiff (J : Type 0) : Type 0 where
  pub id : Text
  pub change_type : ChangeType
  pub role_change : Option TextChange
  pub label_change : Option TextChange
  pub element_changes : Option (Diffs J)

pub record PageDiff : Type 0 where
  pub title_change : Option TextChange
  pub url_change : Option TextChange
  pub lang_change : Option TextChange
  pub element_count_delta : Option ℕ
  pub interactive_count_delta : Option ℕ

pub record MetaDiff : Type 0 where
  pub html_bytes_delta : Option ℕ
  pub som_bytes_delta : Option ℕ

pub record DiffSummary : Type 0 where
  pub total_changes : ℕ
  pub elements_added : ℕ
  pub elements_removed : ℕ
  pub elements_modified : ℕ
  pub regions_added : ℕ
  pub regions_removed : ℕ
  pub has_price_changes : Bool
  pub has_content_changes : Bool
  pub has_structural_changes : Bool

pub record SomDiff (J : Type 0) : Type 0 where
  pub page : PageDiff
  pub meta : Option MetaDiff
  pub regions : List (RegionDiff J)
  pub summary : DiffSummary

-- What is used of a JSON value: the test of equality, the pairs of an object in the order of its keys,
-- and the empty object.
pub record Json (J : Type 0) : Type 0 where
  pub json_eq : J → J → Bool
  pub as_object : J → Option (List (Text × J))
  pub empty_obj : J
