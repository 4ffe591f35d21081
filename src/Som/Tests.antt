-- ===== src/Som/Tests.antt =====
-- Small pages on which the theorems about pages are applied.
use plasmate.Common.{
  ℕ, zero, suc, ◌≡◌, ◌≢◌, refl, Bool, true, false, Option, none, some, List, [], ◌∷◌, ◌==◌, ==_iff,
  any,
}
use plasmate.Text.{Text, codes, text_eq, text_eq_iff}
use plasmate.Assoc.{get}
use plasmate.Som.Types.{
  RegionRole, link, ElementInfo, Element, element, no_children, children, no_shadow, Elements, nil,
  cons, Region, Som,
}
use plasmate.Som.Filter.{filter_som_elements, has_html_id}
use plasmate.Som.Filter.Pages.{Narrowed, filter_som_elements-Narrowed}
use plasmate.Som.ElementId.{new_tracker, register_all}
use plasmate.Som.ElementId.Laws.{IsDistinct, register_all-IsDistinct}
use plasmate.Som.Diff.Types.{Json, RegionDiff}
use plasmate.Som.Diff.Elements.{find_element, diff_attrs, diff_elements}
use plasmate.Som.Diff.Pages.{find_region, diff_soms}
use plasmate.Som.Diff.Counts.{Reports, diff_elements-Reports}
use plasmate.Som.Diff.Summary.{Balanced, diff_soms-Balanced}
use plasmate.Som.Diff.Attrs.{apply_changes, changes_of, diff_attrs-patch}
use plasmate.Som.Diff.Same.{no_diff, diff_soms_self}

abbrev info : Text → Text → ElementInfo ℕ
info id text = record {
  id = id;
  role = link;
  html_id = some (codes "go");
  text = some text;
  label = none;
  actions = some (codes "click" ∷ []);
  attrs = some 1;
  hints = none;
}

abbrev first_element : Element ℕ
first_element = element (info (codes "e_1") (codes "$5")) no_children no_shadow

abbrev second_element : Element ℕ
second_element =
    element (info (codes "e_2") (codes "old")) (children (cons first_element nil)) no_shadow

abbrev second_changed : Element ℕ
second_changed = element (info (codes "e_2") (codes "$6")) no_children no_shadow

abbrev region : Elements ℕ → Region ℕ
region es = record {
  id = codes "r_main";
  role = RegionRole.main;
  label = none;
  action = none;
  method = none;
  target = none;
  enctype = none;
  novalidate = none;
  accept_charset = none;
  autocomplete = none;
  elements = es;
}

abbrev page : Elements ℕ → Som ℕ
page es = record {
  som_version = codes "1.0";
  url = codes "https://example.com/";
  title = codes "Example";
  lang = codes "en";
  regions = region es ∷ [];
  meta = record { html_bytes = 100; som_bytes = 50; element_count = 2; interactive_count = 2 };
}

abbrev old_elements : Elements ℕ
old_elements = cons first_element (cons second_element nil)

abbrev changed_elements : Elements ℕ
changed_elements = cons second_changed nil

-- JSON values by number: 0 is `{}`, 1 is `{"a": 5}`, 2 is `{"a": 6, "b": 7}`.
abbrev object_of : ℕ → Option (List (Text × ℕ))
object_of zero = some []
object_of (suc zero) = some ((codes "a", 5) ∷ [])
object_of (suc (suc zero)) = some ((codes "a", 6) ∷ (codes "b", 7) ∷ [])
object_of (suc (suc (suc n))) = none

numbers_refl : (n : ℕ) → (n == n) ≡ true
numbers_refl n = (==_iff n n).1 refl

abbrev numbers : Json ℕ
numbers = record { json_eq = λ v w. v == w; as_object = object_of; empty_obj = 0 }

abbrev is_dollars : Text → Bool
is_dollars s = any (λ c. c == b'$') s

is_go : ElementInfo ℕ → Bool
is_go = has_html_id (codes "go")

filter_som_elements-Narrowed_example :
    Narrowed
      (λ i. is_go i)
      (page old_elements)
      (filter_som_elements (page old_elements) (λ i. is_go i))
filter_som_elements-Narrowed_example =
    filter_som_elements-Narrowed (λ i. is_go i) (page old_elements)

register_all-IsDistinct_example :
    IsDistinct (register_all new_tracker (codes "e_1" ∷ codes "e_2" ∷ codes "e_1" ∷ []))
register_all-IsDistinct_example =
    register_all-IsDistinct new_tracker 3 (codes "e_1" ∷ codes "e_2" ∷ codes "e_1" ∷ [])
      (refl, (refl, (refl, tt)))

diff_soms_self_example :
    diff_soms numbers is_dollars (page old_elements) (page old_elements) false ≡ no_diff
unfolding text_eq find_region find_element
diff_soms_self_example =
    diff_soms_self numbers numbers_refl is_dollars (page old_elements) false
      (refl, ((refl, (tt, (refl, ((refl, (tt, tt)), tt)))), tt))

diff_elements-Reports_example :
    Reports old_elements changed_elements (diff_elements numbers old_elements changed_elements)
diff_elements-Reports_example = diff_elements-Reports numbers old_elements changed_elements

diff_soms-Balanced_example :
    Balanced
      (diff_soms numbers is_dollars (page old_elements) (page changed_elements) true).regions
      (diff_soms numbers is_dollars (page old_elements) (page changed_elements) true).summary
diff_soms-Balanced_example =
    diff_soms-Balanced numbers is_dollars (page old_elements) (page changed_elements) true

b_not_a : codes "b" ≢ codes "a"
unfolding text_eq
b_not_a e =
    let same = (text_eq_iff (codes "b") (codes "a")).1 e in let differ : false ≡ true = same in cc

diff_attrs-patch_example :
    get
      (codes "b")
      (apply_changes (changes_of (diff_attrs numbers (some 1) (some 2))) ((codes "a", 5) ∷ []))
    ≡ get (codes "b") ((codes "a", 6) ∷ (codes "b", 7) ∷ [])
diff_attrs-patch_example =
    diff_attrs-patch numbers ==_iff (codes "b") (some 1) (some 2) ((codes "a", 5) ∷ [])
      ((codes "a", 6) ∷ (codes "b", 7) ∷ []) refl refl (tt, tt) ((b_not_a, tt), (tt, tt))

reported_regions : List (RegionDiff ℕ)
reported_regions =
    (diff_soms numbers is_dollars (page old_elements) (page changed_elements) true).regions
