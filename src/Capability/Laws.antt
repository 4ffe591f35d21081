-- ===== src/Capability/Laws.antt =====
-- What is let in: src/auth/capability.rs.
use Prim.Native.Nat.{max, bit_or, bit_xor}
use plasmate.Common.{
  ℕ, zero, suc, ◌+◌, ◌<◌, ◌≡◌, ◌↔◌, refl, ap, subst, ◌∙◌, true, Option, none, some, [], ◌∷◌, ◌++◌,
  arith, length, ==_iff, eq_of_some,
}
use plasmate.Text.{Text, codes}
use plasmate.Capability.{byte_at, compare_from, constant_time_eq, bearer_matches}
use plasmate.Capability.Bits.{bit_or-zero_iff, bit_xor-zero_iff}

compare_from-zero :
    (rounds index : ℕ) (left right : Text) (difference : ℕ)
    → compare_from rounds index left right difference ≡ 0
    → (difference ≡ 0)
      × ((j : ℕ) → j < rounds → byte_at (index + j) left ≡ byte_at (index + j) right)
unfolding compare_from
compare_from-zero zero index left right difference h = (h, λ j l. absurd (omega arith))
compare_from-zero (suc rounds) index left right difference h =
    let (d, rest) = compare_from-zero rounds (index + 1) left right _ h in
    let (p, q) =
      (bit_or-zero_iff difference (bit_xor (byte_at index left) (byte_at index right))).0 d in
    let here : byte_at index left ≡ byte_at index right =
      (bit_xor-zero_iff (byte_at index left) (byte_at index right)).0 q in
    (p, at_each rounds index left right here rest)
  where
    at_each :
        (rounds index : ℕ) (left right : Text)
        → byte_at index left ≡ byte_at index right
        → ((j : ℕ) → j < rounds → byte_at (index + 1 + j) left ≡ byte_at (index + 1 + j) right)
        → (j : ℕ) → j < suc rounds
        → byte_at (index + j) left ≡ byte_at (index + j) right
    at_each rounds index left right here rest zero l =
        subst (λ k. byte_at k left ≡ byte_at k right) (omega arith) here
    at_each rounds index left right here rest (suc j) l =
        subst (λ k. byte_at k left ≡ byte_at k right) (omega arith) (rest j (omega (arith, l)))

compare_from-same : (rounds index : ℕ) (s : Text) → compare_from rounds index s s 0 ≡ 0
unfolding compare_from
compare_from-same zero index s = refl
compare_from-same (suc rounds) index s =
    let none_here : bit_xor (byte_at index s) (byte_at index s) ≡ 0 =
      (bit_xor-zero_iff (byte_at index s) (byte_at index s)).1 refl in
    let still : bit_or 0 (bit_xor (byte_at index s) (byte_at index s)) ≡ 0 =
      (bit_or-zero_iff 0 (bit_xor (byte_at index s) (byte_at index s))).1 (refl, none_here) in
    ap (λ d. compare_from rounds (index + 1) s s d) still ∙ compare_from-same rounds (index + 1) s

eq_of_bytes :
    (s t : Text)
    → length s ≡ length t
    → ((j : ℕ) → j < length s → byte_at j s ≡ byte_at j t)
    → s ≡ t
unfolding byte_at
eq_of_bytes [] [] l h = refl
eq_of_bytes [] (b ∷ t) l h = absurd (omega (arith, l))
eq_of_bytes (a ∷ s) [] l h = absurd (omega (arith, l))
eq_of_bytes (a ∷ s) (b ∷ t) l h =
    let head : a ≡ b = h zero (omega arith) in
    let tail : s ≡ t = eq_of_bytes s t (omega (arith, l)) (λ j k. h (suc j) (omega (arith, k))) in
    cc

constant_time_eq_iff : (left right : Text) → (constant_time_eq left right ≡ true) ↔ (left ≡ right)
unfolding constant_time_eq
constant_time_eq_iff left right =
    (to left right, λ e. subst (λ t. constant_time_eq left t ≡ true) e (self left))
  where
    to : (left right : Text) → constant_time_eq left right ≡ true → left ≡ right
    to left right h =
        let zero_difference = (==_iff _ 0).0 h in
        let (l, bytes) =
          compare_from-zero (max (length left) (length right)) 0 left right _ zero_difference in
        let sizes : length left ≡ length right =
          (bit_xor-zero_iff (length left) (length right)).0 l in
        eq_of_bytes left right sizes (λ j k.
          subst (λ i. byte_at i left ≡ byte_at i right) (omega arith) (bytes j (omega (arith, k))))

    self : (s : Text) → constant_time_eq s s ≡ true
    self s =
        let sizes : bit_xor (length s) (length s) ≡ 0 =
          (bit_xor-zero_iff (length s) (length s)).1 refl in
        (==_iff _ 0).1 (rw sizes (compare_from-same (max (length s) (length s)) 0 s))

-- A request is let in exactly where its header is the word Bearer, a space and the expected token: the
-- comparison that takes the same time wherever two texts differ is an equality.
pub bearer_matches_iff :
    (supplied : Option Text) (expected_token : Text)
    → (bearer_matches supplied expected_token ≡ true)
      ↔ (supplied ≡ some (codes "Bearer " ++ expected_token))
unfolding bearer_matches
bearer_matches_iff none expected_token = (λ h. cc, λ h. cc)
bearer_matches_iff (some value) expected_token =
    let both = constant_time_eq_iff value (codes "Bearer " ++ expected_token) in
    (λ h. ap some (both.0 h), λ e. both.1 (eq_of_some e))
