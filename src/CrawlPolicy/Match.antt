-- ===== src/CrawlPolicy/Match.antt =====
-- Matching a rule against a path: `pattern_matches` and `pattern_specificity` of src/crawl_policy.rs.
-- An index into a slice is the rest of the slice from that index on.
pub mod Spec
pub mod Sound
pub mod Total
pub mod Complete
use plasmate.Common.{
  ℕ, zero, suc, ◌+◌, ◌-◌, ◌*◌, Bool, true, false, not, ◌&&◌, Option, none, some, List, [], ◌∷◌,
  ◌==◌, if◌then◌else◌, length, drop, ◌≡◌, refl,
}
use plasmate.Text.{Text, codes}

-- `bytes.last() == Some(&b'$')`
unfoldable pub ends_anchored : Text → Bool
ends_anchored [] = false
ends_anchored (c ∷ []) = c == b'$'
ends_anchored (c ∷ d ∷ s) = ends_anchored (d ∷ s)

-- `&pattern[..pattern.len() - 1]`
unfoldable pub drop_last : Text → Text
drop_last [] = []
drop_last (c ∷ []) = []
drop_last (c ∷ d ∷ s) = c ∷ drop_last (d ∷ s)

-- The trailing loop over the stars, and the test that the pattern is used up.
unfoldable pub only_stars : Text → Bool
only_stars [] = true
only_stars (c ∷ p) = (c == b'*') && only_stars p

-- What is remembered of the last star: the pattern behind it, and the target from
-- `star_target_index` on.
pub record Star : Type 0 where
  pub after_star : Text
  pub star_target : Text

-- The loop, with `pattern[pattern_index..]` and `target[target_index..]`; `none` if the fuel runs out.
unfoldable pub match_loop : ℕ → Bool → Text → Text → Option Star → Option Bool
unfolding only_stars
match_loop zero anchored_end pattern target last_star = none
match_loop (suc fuel) anchored_end pattern [] last_star = some (only_stars pattern)
match_loop (suc fuel) anchored_end [] (t ∷ target) last_star = some (not anchored_end)
match_loop (suc fuel) anchored_end (p ∷ pattern) (t ∷ target) last_star =
    let step = match_loop fuel anchored_end pattern target last_star in
    let star : Star = record { after_star = pattern; star_target = t ∷ target } in
    let at_star = match_loop fuel anchored_end pattern (t ∷ target) (some star) in
    if p == t then step else if p == b'*' then at_star else elim last_star [
      | none ↦ some false
      | some s ↦
          let shorter = drop 1 s.star_target in
          match_loop fuel anchored_end s.after_star shorter
            (some (record s { star_target = shorter }))
    ]

-- Enough for every round: see `match_loop_total`.
abbrev pub enough : Text → Text → ℕ
enough pattern target = (length target + 1) * (length pattern + 1) + length pattern + 1

abbrev or_false : Option Bool → Bool
or_false none = false
or_false (some b) = b

unfoldable pub match_body : Bool → Text → Text → Bool
unfolding match_loop
match_body anchored_end pattern target =
    or_false (match_loop (enough pattern target) anchored_end pattern target none)

unfoldable pub pattern_matches : Text → Text → Bool
unfolding match_body ends_anchored drop_last
pattern_matches pattern target =
    if ends_anchored pattern
    then match_body true (drop_last pattern) target
    else match_body false pattern target

-- `pattern_specificity`: the loop stops before an end anchor.
unfoldable pub count_octets : Bool → Text → ℕ
count_octets end_anchor [] = 0
count_octets end_anchor (c ∷ []) = if end_anchor then 0 else if c == b'*' then 0 else 1
count_octets end_anchor (c ∷ d ∷ []) =
    let rest = count_octets end_anchor (d ∷ []) in if c == b'*' then rest else suc rest
count_octets end_anchor (c ∷ d ∷ e ∷ s) =
    let rest = count_octets end_anchor (d ∷ e ∷ s) in
    let behind = count_octets end_anchor s in
    if c == b'*' then rest else if c == b'%' then suc behind else suc rest

unfoldable pub pattern_specificity : Text → ℕ
unfolding count_octets ends_anchored
pattern_specificity pattern = count_octets (ends_anchored pattern) pattern

pattern_matches_test :
    (pattern_matches (codes "/a*c") (codes "/abcd") ≡ true)
    × (pattern_matches (codes "/a*c$") (codes "/abcd") ≡ false)
    × (pattern_matches (codes "/a*b*d$") (codes "/abcd") ≡ true)
    × (pattern_specificity (codes "/a*%2Fd$") ≡ 4)
unfolding pattern_matches pattern_specificity
pattern_matches_test = (refl, refl, refl, refl)
