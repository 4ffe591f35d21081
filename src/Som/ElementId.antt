-- ===== src/Som/ElementId.antt =====
-- The ids of elements: `ElementIdTracker` and `generate_region_id` of src/som/element_id.rs.
--
-- The hash of `generate_element_id` is a library; what is used of its ids is that they are as long as
-- each other.
pub mod Decimal
pub mod Laws
use plasmate.Common.{
  ℕ, zero, suc, ◌+◌, ◌/◌, ◌%◌, Bool, true, false, Option, none, some, List, [], ◌∷◌, ◌++◌, ◌==◌,
  if◌then◌else◌,
}
use plasmate.Text.{Text, codes}
use plasmate.Assoc.{get, insert}
use Decimal.{decimal}

unfoldable pub generate_region_id : Text → ℕ → Text
generate_region_id role index =
    if index == 0 then codes "r_" ++ role else codes "r_" ++ (role ++ (codes "_" ++ decimal index))

pub record ElementIdTracker : Type 0 where
  pub seen : List (Text × ℕ)

unfoldable pub new_tracker : ElementIdTracker
new_tracker = record { seen = [] }

abbrev pub or_zero : Option ℕ → ℕ
or_zero none = 0
or_zero (some n) = n

unfoldable pub register : ElementIdTracker → Text → ElementIdTracker × Text
register t id =
    let count = or_zero (get id t.seen) + 1 in
    (
      record { seen = insert id count t.seen },
      if count == 1 then id else id ++ (codes "_" ++ decimal count),
    )

-- The ids of a page, in order.
unfoldable pub register_all : ElementIdTracker → List Text → List Text
unfolding register
register_all t [] = []
register_all t (id ∷ ids) = (register t id).1 ∷ register_all (register t id).0 ids
