-- ===== src/Som/Filter.antt =====
-- Selectors: src/som/filter.rs. Each closure that is passed as `matches` reads fields of the element
-- alone, so a test is one of `ElementInfo`. The warnings that are printed are left out.
pub mod Laws
pub mod Pages
use plasmate.Common.{
  ℕ, Bool, true, false, not, ◌&&◌, ◌||◌, Option, none, some, List, [], ◌∷◌, ◌==◌, if◌then◌else◌,
  is_empty, any, keep, map,
}
use plasmate.Text.{Text, codes, text_eq, lowercase, trim, strip_prefix, eq_ignore_case}
use plasmate.Som.Types.{
  RegionRole, navigation, main, aside, header, footer, form, dialog, content, ElementRole, link,
  button, text_input, textarea, select, checkbox, radio, heading, image, list, table, paragraph,
  section, group, separator, details, iframe, ElementInfo, Element, element, Children, no_children,
  children, ShadowRoot, no_shadow, shadow, Elements, nil, cons, Region, Som, is_interactive,
  role_eq, region_role_eq,
}

-- `match s { … }` on texts, each arm with its result.
unfoldable pub match_arms : {A : Type 0} → Text → List (Text × A) → Option A
match_arms s [] = none
match_arms s ((name, a) ∷ arms) = if text_eq s name then some a else match_arms s arms

abbrev pub region_arms : List (Text × RegionRole)
region_arms =
    (codes "main", main)
    ∷ (codes "nav", navigation)
    ∷ (codes "navigation", navigation)
    ∷ (codes "aside", aside)
    ∷ (codes "header", header)
    ∷ (codes "footer", footer)
    ∷ (codes "form", form)
    ∷ (codes "dialog", dialog)
    ∷ (codes "content", content)
    ∷ []

abbrev pub role_arms : List (Text × ElementRole)
role_arms =
    (codes "link", link)
    ∷ (codes "button", button)
    ∷ (codes "text_input", text_input)
    ∷ (codes "textbox", text_input)
    ∷ (codes "input", text_input)
    ∷ (codes "textarea", textarea)
    ∷ (codes "select", select)
    ∷ (codes "checkbox", checkbox)
    ∷ (codes "radio", radio)
    ∷ (codes "heading", heading)
    ∷ (codes "image", image)
    ∷ (codes "img", image)
    ∷ (codes "list", list)
    ∷ (codes "table", table)
    ∷ (codes "paragraph", paragraph)
    ∷ (codes "section", section)
    ∷ (codes "group", group)
    ∷ (codes "separator", separator)
    ∷ (codes "details", details)
    ∷ (codes "iframe", iframe)
    ∷ []

unfoldable pub parse_region_role : Text → Option RegionRole
unfolding match_arms
parse_region_role selector = match_arms (lowercase selector) region_arms

-- `replace('-', "_")`
abbrev dash_to_underscore : ℕ → ℕ
dash_to_underscore c = if c == b'-' then b'_' else c

unfoldable pub parse_element_role : Text → Option ElementRole
unfolding match_arms
parse_element_role selector =
    match_arms (map dash_to_underscore (lowercase (trim selector))) role_arms

module _ {J : Type 0} where
  abbrev pub is_nil : Elements J → Bool
  is_nil nil = true
  is_nil (cons e es) = false

  abbrev pub or_none : Elements J → Children J
  or_none nil = no_children
  or_none (cons e es) = children (cons e es)

  abbrev pub has_children : Children J → Bool
  has_children no_children = false
  has_children (children es) = true

  abbrev pub keep_some : Option (Element J) → Elements J → Elements J
  keep_some none es = es
  keep_some (some e) es = cons e es

  -- The shadow root of the clone, and whether it was replaced: where nothing in it matches, the clone
  -- keeps the shadow root of the element.
  abbrev pub or_same : Text → Elements J → Elements J → ShadowRoot J × Bool
  or_same mode es nil = (shadow mode es, false)
  or_same mode es (cons f fs) = (shadow mode (cons f fs), true)

  abbrev pub keep_region : Region J → Elements J → List (Region J) → List (Region J)
  keep_region r nil rs = rs
  keep_region r (cons e es) rs = record r { elements = cons e es } ∷ rs

  module _ (matches : ElementInfo J → Bool) where
    abbrev pub keep_element : ElementInfo J → Children J → ShadowRoot J × Bool → Option (Element J)
    keep_element i c (s, shadow_match) =
        if matches i || (has_children c || shadow_match) then some (element i c s) else none

    -- `filter_elements_by`, and `filter_elements_by_html_id` at the test of the id.
    unfoldable mutual
      pub filter_element : Element J → Option (Element J)
      filter_element (element i c s) = keep_element i (filter_children c) (filter_shadow s)

      pub filter_children : Children J → Children J
      filter_children no_children = no_children
      filter_children (children es) = or_none (filter_elements es)

      pub filter_shadow : ShadowRoot J → ShadowRoot J × Bool
      filter_shadow no_shadow = (no_shadow, false)
      filter_shadow (shadow mode es) = or_same mode es (filter_elements es)

      pub filter_elements : Elements J → Elements J
      filter_elements nil = nil
      filter_elements (cons e es) = keep_some (filter_element e) (filter_elements es)

    unfoldable pub filter_regions : List (Region J) → List (Region J)
    filter_regions [] = []
    filter_regions (r ∷ rs) = keep_region r (filter_elements r.elements) (filter_regions rs)

  -- The page itself where nothing is left.
  unfoldable pub with_regions : Som J → List (Region J) → Som J
  with_regions som [] = som
  with_regions som (r ∷ rs) = record som { regions = r ∷ rs }

  unfoldable pub filter_som_elements : Som J → (ElementInfo J → Bool) → Som J
  unfolding with_regions
  filter_som_elements som matches = with_regions som (filter_regions matches som.regions)

  abbrev pub has_action : Text → ElementInfo J → Bool
  has_action action i = elim i.actions [
    | none ↦ false
    | some actions ↦ any (λ a. eq_ignore_case a action) actions
  ]

  abbrev pub has_html_id : Text → ElementInfo J → Bool
  has_html_id id i = elim i.html_id [ none ↦ false | some h ↦ text_eq h id ]

  -- The arm of `#my-id`.
  unfoldable pub by_id : Som J → Option Text → Som J
  unfolding with_regions
  by_id som none = som
  by_id som (some id) =
      let region_matches = keep (λ r. text_eq r.id id) som.regions in
      if is_empty region_matches
      then with_regions som (filter_regions (has_html_id id) som.regions)
      else record som { regions = region_matches }

  -- The arm of `action:…`; without an action the next arm is taken.
  unfoldable pub by_action : Som J → Text → Option Text → Som J
  by_action som selector none = by_id som (strip_prefix selector (codes "#"))
  by_action som selector (some rest) =
      let action = lowercase (trim rest) in
      if is_empty action
      then by_id som (strip_prefix selector (codes "#"))
      else filter_som_elements som (has_action action)

  unfoldable pub by_element : Som J → Text → Option ElementRole → Som J
  by_element som selector (some role) = filter_som_elements som (λ i. role_eq i.role role)
  by_element som selector none =
      if eq_ignore_case selector (codes "interactive")
      then filter_som_elements som (λ i. is_interactive i.role)
      else by_action som selector (strip_prefix (lowercase selector) (codes "action:"))

  unfoldable pub by_region : Som J → Text → Option RegionRole → Som J
  unfolding with_regions
  by_region som selector (some role) =
      with_regions som (keep (λ r. region_role_eq r.role role) som.regions)
  by_region som selector none = by_element som selector (parse_element_role selector)

  unfoldable pub apply_selector : Som J → Text → Som J
  apply_selector som selector = by_region som (trim selector) (parse_region_role (trim selector))
