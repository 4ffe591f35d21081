-- ===== src/Intercept/Kinds/Names.antt =====
-- The names of the enums of src/network/intercept.rs read back.
use plasmate.Common.{◌≡◌, refl, ◌⊎◌, ◌↔◌, inr, true, List, [], ◌∷◌, arith, all}
use plasmate.Text.{Text, text_eq, text_eq_iff}
use plasmate.Intercept.Kinds.{
  ResourceType, document, other, ErrorReason, failed, match_str, resource_type_arms,
  resource_type_of, resource_type_name, error_reason_arms, error_reason_of, error_reason_name,
  resource_type_eq,
}

match_str_cases :
    {A : Type 0} (name : A → Text) (s : Text) (arms : List (Text × A)) (d : A)
    → all (λ arm. text_eq (name arm.1) arm.0) arms ≡ true
    → (name (match_str s arms d) ≡ s) ⊎ (match_str s arms d ≡ d)
unfolding match_str
match_str_cases name s [] d h = inr refl
match_str_cases name s ((n, a) ∷ arms) d h =
    ground (arith, text_eq_iff s n, text_eq_iff (name a) n, match_str_cases name s arms d)

resource_type_of-name : (t : ResourceType) → resource_type_of (resource_type_name t) ≡ t
unfolding resource_type_of resource_type_name text_eq
resource_type_of-name document = refl
resource_type_of-name _ = refl

error_reason_of-name : (r : ErrorReason) → error_reason_of (error_reason_name r) ≡ r
unfolding error_reason_of error_reason_name text_eq
error_reason_of-name failed = refl
error_reason_of-name _ = refl

-- A protocol name of a resource type that `from_cdp_str` reads as anything but `Other` is printed
-- again by `as_str`, and what `as_str` prints is read back as the same type.
pub resource_type-roundtrip :
    ((s : Text) → (resource_type_name (resource_type_of s) ≡ s) ⊎ (resource_type_of s ≡ other))
    × ((t : ResourceType) → resource_type_of (resource_type_name t) ≡ t)
unfolding resource_type_of resource_type_name text_eq
resource_type-roundtrip =
    (λ s. match_str_cases resource_type_name s resource_type_arms other refl, resource_type_of-name)

-- A protocol name of an error reason that `from_cdp_str` reads as anything but `Failed` is printed
-- again by `as_str`, and what `as_str` prints is read back as the same reason.
pub error_reason-roundtrip :
    ((s : Text) → (error_reason_name (error_reason_of s) ≡ s) ⊎ (error_reason_of s ≡ failed))
    × ((r : ErrorReason) → error_reason_of (error_reason_name r) ≡ r)
unfolding error_reason_of error_reason_name text_eq
error_reason-roundtrip =
    (λ s. match_str_cases error_reason_name s error_reason_arms failed refl, error_reason_of-name)

pub resource_type_eq_iff : (a b : ResourceType) → (resource_type_eq a b ≡ true) ↔ (a ≡ b)
unfolding resource_type_eq
resource_type_eq_iff a b = ground arith
