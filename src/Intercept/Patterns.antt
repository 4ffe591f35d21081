-- ===== src/Intercept/Patterns.antt =====
-- `pattern_matches` of src/network/intercept.rs, and what it decides.
use plasmate.Common.{
  ◌≡◌, ◌↔◌, refl, Bool, true, false, not, Option, none, some, arith, if◌then◌else◌,
}
use plasmate.Text.{Text}
use plasmate.Wildcard.{Matches}
use plasmate.Intercept.Glob.{url_glob_match}
use plasmate.Intercept.Glob.Laws.{url_glob_match_iff}
use plasmate.Intercept.Kinds.{ResourceType, resource_type_eq}
use plasmate.Intercept.Kinds.Names.{resource_type_eq_iff}
use plasmate.Intercept.Types.{RequestPattern}

unfoldable pub pattern_matches : RequestPattern → Text → ResourceType → Bool
pattern_matches p url kind =
    if elim p.resource_type [ none ↦ false | some rt ↦ not (resource_type_eq rt kind) ]
    then false
    else elim p.url_pattern [ none ↦ true | some pat ↦ url_glob_match pat url ]

abbrev pub TypeFits : Option ResourceType → ResourceType → Type 0
TypeFits none kind = Unit
TypeFits (some rt) kind = rt ≡ kind

abbrev pub UrlFits : Option Text → Text → Type 0
UrlFits none url = Unit
UrlFits (some pat) url = Matches pat url

-- What a pattern asks of a request: each of the two conditions that it states.
pub record Applies (p : RequestPattern) (url : Text) (kind : ResourceType) : Type 0 where
  pub type_fits : TypeFits p.resource_type kind
  pub url_fits : UrlFits p.url_pattern url

fits_iff :
    (rt : Option ResourceType) (pat : Option Text) (url : Text) (kind : ResourceType)
    → ((if elim rt [ none ↦ false | some t ↦ not (resource_type_eq t kind) ]
          then false
          else elim pat [ none ↦ true | some q ↦ url_glob_match q url ])
        ≡ true)
      ↔ (TypeFits rt kind × UrlFits pat url)
fits_iff none none url kind = (λ _. (tt, tt), λ _. refl)
fits_iff none (some q) url kind =
    (λ h. (tt, (url_glob_match_iff q url).0 h), λ h. (url_glob_match_iff q url).1 h.1)
fits_iff (some t) none url kind = (
  λ h. ((resource_type_eq_iff t kind).0 (ground arith), tt),
  λ h. rw ((resource_type_eq_iff t kind).1 h.0) refl,
)
fits_iff (some t) (some q) url kind = (
  λ h.
      ((resource_type_eq_iff t kind).0 (ground arith), (url_glob_match_iff q url).0 (ground arith)),
  λ h. rw ((resource_type_eq_iff t kind).1 h.0) ((url_glob_match_iff q url).1 h.1),
)

pub pattern_matches_iff :
    (p : RequestPattern) (url : Text) (kind : ResourceType)
    → (pattern_matches p url kind ≡ true) ↔ Applies p url kind
unfolding pattern_matches
pattern_matches_iff p url kind =
    let (there, back) = fits_iff p.resource_type p.url_pattern url kind in
    (
      λ h. record { type_fits = (there h).0; url_fits = (there h).1 },
      λ a. back (a.type_fits, a.url_fits),
    )

pub pattern_matches-not :
    (p : RequestPattern) (url : Text) (kind : ResourceType)
    → pattern_matches p url kind ≡ false
    → ¬ Applies p url kind
pattern_matches-not p url kind e a = let t = (pattern_matches_iff p url kind).1 a in cc
