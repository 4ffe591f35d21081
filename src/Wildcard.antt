-- ===== src/Wildcard.antt =====
-- What a pattern with `*` means, independently of any matching code.
pub mod Pieces
use plasmate.Common.{ℕ, ◌≡◌, ◌≢◌, [], ◌∷◌, arith}
use plasmate.Text.{Text}

-- `*` stands for any run of bytes, the empty run included; every other byte for itself.
pub data Matches : Text → Text → Type 0 where
  done : Matches [] []
  byte : {c : ℕ} {p t : Text} → c ≢ b'*' → Matches p t → Matches (c ∷ p) (c ∷ t)
  star_end : {c : ℕ} {p t : Text} → c ≡ b'*' → Matches p t → Matches (c ∷ p) t
  star_more : {c d : ℕ} {p t : Text} → c ≡ b'*' → Matches (c ∷ p) t → Matches (c ∷ p) (d ∷ t)

abbrev pub star : Text
star = b'*' ∷ []

pub star-Matches : (t : Text) → Matches star t
star-Matches [] = star_end (omega arith) done
star-Matches (d ∷ t) = star_more (omega arith) (star-Matches t)
