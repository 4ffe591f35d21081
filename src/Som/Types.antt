-- ===== src/Som/Types.antt =====
-- The data of src/som/types.rs. The attributes of an element are a JSON value, whose type is an
-- argument. `Option<Vec<Element>>` and `Option<ShadowRoot>` are types of their own, as they hold
-- elements; the structured data of a page, which nothing modelled here reads, is left out.
use plasmate.Common.{ℕ, Bool, true, false, Option, List, [], ◌∷◌}
use plasmate.Text.{Text, codes}

pub data RegionRole : Type 0 where
  navigation main aside header footer form dialog content : RegionRole

pub data ElementRole : Type 0 where
  link button text_input textarea select checkbox radio heading image list table : ElementRole
  paragraph section group separator details iframe : ElementRole

pub record SomMeta : Type 0 where
  pub html_bytes : ℕ
  pub som_bytes : ℕ
  pub element_count : ℕ
  pub interactive_count : ℕ

-- The fields of an element but its children and its shadow root.
pub record ElementInfo (J : Type 0) : Type 0 where
  pub id : Text
  pub role : ElementRole
  pub html_id : Option Text
  pub text : Option Text
  pub label : Option Text
  pub actions : Option (List Text)
  pub attrs : Option J
  pub hints : Option (List Text)

mutual
  pub data Element (J : Type 0) : Type 0 where
    element : ElementInfo J → Children J → ShadowRoot J → Element J

  pub data Children (J : Type 0) : Type 0 where
    no_children : Children J
    children : Elements J → Children J

  pub data ShadowRoot (J : Type 0) : Type 0 where
    no_shadow : ShadowRoot J
    shadow : Text → Elements J → ShadowRoot J

  pub data Elements (J : Type 0) : Type 0 where
    nil : Elements J
    cons : Element J → Elements J → Elements J

pub record Region (J : Type 0) : Type 0 where
  pub id : Text
  pub role : RegionRole
  pub label : Option Text
  pub action : Option Text
  pub method : Option Text
  pub target : Option Text
  pub enctype : Option Text
  pub novalidate : Option Bool
  pub accept_charset : Option Text
  pub autocomplete : Option Text
  pub elements : Elements J

pub record Som (J : Type 0) : Type 0 where
  pub som_version : Text
  pub url : Text
  pub title : Text
  pub lang : Text
  pub regions : List (Region J)
  pub meta : SomMeta

abbrev pub info_of : {J : Type 0} → Element J → ElementInfo J
info_of (element i c s) = i

unfoldable pub is_interactive : ElementRole → Bool
is_interactive ElementRole.link = true
is_interactive ElementRole.button = true
is_interactive ElementRole.text_input = true
is_interactive ElementRole.textarea = true
is_interactive ElementRole.select = true
is_interactive ElementRole.checkbox = true
is_interactive ElementRole.radio = true
is_interactive ElementRole.details = true
is_interactive _ = false

unfoldable pub default_actions : ElementRole → List Text
default_actions ElementRole.link = codes "click" ∷ []
default_actions ElementRole.button = codes "click" ∷ []
default_actions ElementRole.text_input = codes "type" ∷ codes "clear" ∷ []
default_actions ElementRole.textarea = codes "type" ∷ codes "clear" ∷ []
default_actions ElementRole.select = codes "select" ∷ []
default_actions ElementRole.checkbox = codes "toggle" ∷ []
default_actions ElementRole.radio = codes "select" ∷ []
default_actions ElementRole.details = codes "toggle" ∷ []
default_actions _ = []

unfoldable pub role_as_str : ElementRole → Text
role_as_str ElementRole.link = codes "link"
role_as_str ElementRole.button = codes "button"
role_as_str ElementRole.text_input = codes "text_input"
role_as_str ElementRole.textarea = codes "textarea"
role_as_str ElementRole.select = codes "select"
role_as_str ElementRole.checkbox = codes "checkbox"
role_as_str ElementRole.radio = codes "radio"
role_as_str ElementRole.heading = codes "heading"
role_as_str ElementRole.image = codes "image"
role_as_str ElementRole.list = codes "list"
role_as_str ElementRole.table = codes "table"
role_as_str ElementRole.paragraph = codes "paragraph"
role_as_str ElementRole.section = codes "section"
role_as_str ElementRole.group = codes "group"
role_as_str ElementRole.separator = codes "separator"
role_as_str ElementRole.details = codes "details"
role_as_str ElementRole.iframe = codes "iframe"

-- The name that `serde` gives a role.
unfoldable pub region_role_str : RegionRole → Text
region_role_str RegionRole.navigation = codes "navigation"
region_role_str RegionRole.main = codes "main"
region_role_str RegionRole.aside = codes "aside"
region_role_str RegionRole.header = codes "header"
region_role_str RegionRole.footer = codes "footer"
region_role_str RegionRole.form = codes "form"
region_role_str RegionRole.dialog = codes "dialog"
region_role_str RegionRole.content = codes "content"

pub ElementRole-discrete : Discrete ElementRole
ElementRole-discrete = hlevel

unfoldable pub role_eq : ElementRole → ElementRole → Bool
unfolding ElementRole-discrete
role_eq a b = elim (ElementRole-discrete a b) [ yes _ ↦ true | no _ ↦ false ]

pub RegionRole-discrete : Discrete RegionRole
RegionRole-discrete = hlevel

unfoldable pub region_role_eq : RegionRole → RegionRole → Bool
unfolding RegionRole-discrete
region_role_eq a b = elim (RegionRole-discrete a b) [ yes _ ↦ true | no _ ↦ false ]
