-- ===== src/Assoc.antt =====
-- `HashMap<String, V>` as an association list: at most one entry for a key, in an order that no
-- theorem depends on.
pub mod Laws
use plasmate.Common.{ℕ, Bool, true, false, Option, none, some, List, [], ◌∷◌, if◌then◌else◌}
use plasmate.Text.{Text, text_eq}

module _ {V : Type 0} where
  unfoldable pub get : Text → List (Text × V) → Option V
  get k [] = none
  get k ((j, v) ∷ m) = if text_eq j k then some v else get k m

  unfoldable pub insert : Text → V → List (Text × V) → List (Text × V)
  insert k v [] = (k, v) ∷ []
  insert k v ((j, w) ∷ m) = if text_eq j k then (j, v) ∷ m else (j, w) ∷ insert k v m

  unfoldable pub remove : Text → List (Text × V) → List (Text × V)
  remove k [] = []
  remove k ((j, v) ∷ m) = if text_eq j k then m else (j, v) ∷ remove k m
