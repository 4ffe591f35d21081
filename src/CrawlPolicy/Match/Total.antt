-- ===== src/CrawlPolicy/Match/Total.antt =====
-- The fuel of the loop in `pattern_matches` of src/crawl_policy.rs.
use plasmate.Common.{
  ℕ, zero, suc, ◌+◌, ◌*◌, ◌≤◌, ◌<◌, ◌≡◌, refl, Bool, false, not, Option, none, some, [], ◌∷◌, arith,
  length, length-drop, drop, ◌==◌, Bool-cases, Option-cases, inl, inr,
}
use plasmate.Text.{Text}
use plasmate.CrawlPolicy.Match.{Star, match_loop, only_stars, enough}

abbrev Fits : ℕ → ℕ → Option Star → Type 0
Fits k n none = Unit
Fits k n (some s) = (length s.star_target ≤ k) × (length s.after_star ≤ n)

-- Each round shortens the pattern left, or moves the place of the star one byte on.
match_loop_fuel :
    (fuel k n : ℕ) (a : Bool) (p t : Text) (last : Option Star)
    → length t ≤ k
    → length p ≤ n
    → Fits k n last
    → k * (n + 1) + length p < fuel
    → (b : Bool) × (match_loop fuel a p t last ≡ some b)
unfolding match_loop
match_loop_fuel zero k n a p t last ht hp hl f = absurd (omega arith)
match_loop_fuel (suc fuel) k n a p [] last ht hp hl f = (only_stars p, refl)
match_loop_fuel (suc fuel) k n a [] (d ∷ t) last ht hp hl f = (not a, refl)
match_loop_fuel (suc fuel) zero n a (c ∷ p) (d ∷ t) last ht hp hl f = absurd (omega arith)
match_loop_fuel (suc fuel) (suc k) n a (c ∷ p) (d ∷ t) last ht hp hl f =
    elim (Bool-cases (c == d)) [
      | inl e ↦
          rw e
            (match_loop_fuel fuel (suc k) n a p t last (omega arith) (omega arith) hl (omega arith))
      | inr e ↦ elim (Bool-cases (c == b'*')) [
        | inl s ↦
            rw (e, s)
              (match_loop_fuel fuel (suc k) n a p (d ∷ t) _ ht (omega arith) (ht, omega arith)
                (omega arith))
        | inr s ↦ elim (Option-cases last) [
          | inl l ↦ rw (e, s, l) (false, refl)
          | inr (st, l) ↦
              let fits : Fits (suc k) n (some st) = rw l at hl in
              let short : length (drop 1 st.star_target) ≤ k =
                omega (arith, length-drop 1 st.star_target) in
              rw (e, s, l)
                (match_loop_fuel fuel k n a st.after_star (drop 1 st.star_target)
                  (some (record st { star_target = drop 1 st.star_target })) short fits.1
                  (short, fits.1) (omega arith))
        ]
      ]
    ]

-- The loop always ends by one of its own tests, with the fuel that `match_body` gives it.
pub match_loop_total :
    (a : Bool) (p t : Text) → (b : Bool) × (match_loop (enough p t) a p t none ≡ some b)
match_loop_total a p t =
    match_loop_fuel (enough p t) (length t) (length p) a p t none (omega arith) (omega arith) tt
      (omega arith)
