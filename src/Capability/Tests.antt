-- ===== src/Capability/Tests.antt =====
-- A token and its header.
use plasmate.Common.{◌≡◌, ◌↔◌, refl, true, some, ok}
use plasmate.Text.{codes}
use plasmate.Capability.{validate_token, bearer_matches}
use plasmate.Capability.Laws.{bearer_matches_iff}

token_accepted : validate_token (codes "0123456789abcdef0123456789abcdef") ≡ ok tt
unfolding validate_token
token_accepted = refl

bearer_matches_iff_example :
    (bearer_matches (some (codes "Bearer 0123")) (codes "0123") ≡ true)
    ↔ (some (codes "Bearer 0123") ≡ some (codes "Bearer 0123"))
bearer_matches_iff_example = bearer_matches_iff (some (codes "Bearer 0123")) (codes "0123")
