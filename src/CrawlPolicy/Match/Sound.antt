-- ===== src/CrawlPolicy/Match/Sound.antt =====
-- What `pattern_matches` of src/crawl_policy.rs accepts is matched.
use plasmate.Common.{
  ℕ, zero, suc, ◌≡◌, ◌≢◌, ◌⊎◌, refl, sym, ap, ◌∙◌, Bool, true, false, Option, none, some, [], ◌∷◌,
  ◌++◌, arith, drop, take, take-append-drop, ◌==◌, Bool-cases, Option-cases, inl, inr, append_assoc,
  append-nil,
}
use plasmate.Text.{Text}
use plasmate.Wildcard.{Matches, byte, star_end, star_more, star-Matches}
use plasmate.CrawlPolicy.Match.{
  Star, match_loop, match_body, enough, or_false, pattern_matches, ends_anchored, drop_last,
}
use plasmate.CrawlPolicy.Match.Spec.{
  RuleMatches, whole, prefix, ends_anchored-split, not_anchored, ending, only_stars-Matches,
  star_gap,
}

-- A match behind the star that is remembered, further on than it was tried.
abbrev Later : Bool → Option Star → Type 0
Later a none = ⊥
Later a (some s) =
    (w : Text) × (v : Text) × (drop 1 s.star_target ≡ w ++ v) × Matches (s.after_star ++ ending a) v

Later-retry :
    (a : Bool) (s : Star)
    → Matches (s.after_star ++ ending a) (drop 1 s.star_target)
      ⊎ Later a (some (record s { star_target = drop 1 s.star_target }))
    → Later a (some s)
Later-retry a s (inl m) = ([], drop 1 s.star_target, refl, m)
Later-retry a s (inr (w, v, e, m)) =
    let t = drop 1 s.star_target in
    (
      take 1 t ++ w,
      v,
      sym (take-append-drop 1 t) ∙ ap (◌++◌ (take 1 t)) e ∙ sym (append_assoc (take 1 t) w v),
      m,
    )

byte_step : (c d : ℕ) (p t : Text) → (c == d) ≡ true → Matches p t → Matches (c ∷ p) (d ∷ t)
byte_step c d p t e m = elim (Bool-cases (c == b'*')) [
  | inl s ↦ star_more (ground arith) (star_end (ground arith) m)
  | inr s ↦
      let same : d ≡ c = ground arith in
      let other : c ≢ b'*' = ground arith in rw same (byte other m)
]

star_step :
    (a : Bool) (c : ℕ) (p t : Text)
    → c ≡ b'*'
    → Matches (p ++ ending a) t ⊎ Later a (some (record { after_star = p; star_target = t }))
    → Matches (c ∷ (p ++ ending a)) t
star_step a c p t e (inl m) = star_end e m
star_step a c p t e (inr (w, v, same, m)) =
    let whole : t ≡ (take 1 t ++ w) ++ v =
      sym (take-append-drop 1 t) ∙ ap (◌++◌ (take 1 t)) same ∙ sym (append_assoc (take 1 t) w v) in
    rw whole (star_gap c (p ++ ending a) (take 1 t ++ w) v e m)

match_loop_sound :
    (fuel : ℕ) (a : Bool) (p t : Text) (last : Option Star)
    → match_loop fuel a p t last ≡ some true
    → Matches (p ++ ending a) t ⊎ Later a last
unfolding match_loop
match_loop_sound zero a p t last h = cc
match_loop_sound (suc fuel) a p [] last h = inl (only_stars-Matches a p (cc))
match_loop_sound (suc fuel) true [] (d ∷ t) last h = cc
match_loop_sound (suc fuel) false [] (d ∷ t) last h = inl (star-Matches (d ∷ t))
match_loop_sound (suc fuel) a (c ∷ p) (d ∷ t) last h = elim (Bool-cases (c == d)) [
  | inl e ↦ elim (match_loop_sound fuel a p t last (rw e at h)) [
    | inl m ↦ inl (byte_step c d (p ++ ending a) t e m)
    | inr l ↦ inr l
  ]
  | inr e ↦ elim (Bool-cases (c == b'*')) [
    | inl s ↦
        let star_here : c ≡ b'*' = ground arith in
        inl
          (star_step a c p (d ∷ t) star_here (match_loop_sound fuel a p (d ∷ t) _ (rw (e, s) at h)))
    | inr s ↦ elim (Option-cases last) [
      | inl l ↦ let bad : some false ≡ some true = rw (e, s, l) at h in cc
      | inr (st, l) ↦ rw l (
          inr (
            Later-retry a st (
              match_loop_sound fuel a st.after_star (drop 1 st.star_target) _ (rw (e, s, l) at h))))
    ]
  ]
]

match_body_sound : (a : Bool) (p t : Text) → match_body a p t ≡ true → Matches (p ++ ending a) t
unfolding match_body
match_body_sound a p t h = elim (match_loop_sound (enough p t) a p t none (or_false_true _ h)) [
  | inl m ↦ m
  | inr l ↦ absurd l
]
  where
    or_false_true : (o : Option Bool) → or_false o ≡ true → o ≡ some true
    or_false_true none e = cc
    or_false_true (some b) e = ap some e

-- Whatever `pattern_matches` accepts is matched in the sense of the standard: `*` stands for any
-- run of bytes, `$` at the end of the pattern for the end of the target.
pub pattern_matches_sound : (p t : Text) → pattern_matches p t ≡ true → RuleMatches p t
unfolding pattern_matches
pattern_matches_sound p t h = elim (Bool-cases (ends_anchored p)) [
  | inl e ↦
      let m = match_body_sound true (drop_last p) t (rw e at h) in
      whole (drop_last p) (ends_anchored-split p e) (rw append-nil at m)
  | inr e ↦ prefix (λ q. not_anchored p q e) (match_body_sound false p t (rw e at h))
]
