-- ===== src/CrawlPolicy/Match/Complete.antt =====
-- What is matched, `pattern_matches` of src/crawl_policy.rs accepts, for patterns with no end anchor;
-- and what it makes of patterns with one.
use plasmate.Common.{
  ℕ, zero, suc, ◌≡◌, ◌≢◌, ◌↔◌, refl, sym, ap, ◌∙◌, Bool, true, false, none, some, [], ◌∷◌, ◌++◌,
  ◌<◌, ◌≤◌, arith, drop, length, ◌==◌, Bool-cases, inl, inr, append_assoc, append-nil, All-append,
  append-cancel_left,
}
use plasmate.Text.{Text}
use plasmate.Wildcard.{Matches, done, byte, star}
use plasmate.CrawlPolicy.Match.{
  Star, match_loop, match_body, only_stars, enough, pattern_matches, ends_anchored, drop_last,
}
use plasmate.CrawlPolicy.Match.Spec.{
  NoStar, Matches-only_stars, star_split, byte_split, literal_split, suffix_behind, RuleMatches,
  whole, prefix, ends_anchored-concat, drop_last-concat, not_anchored, star_gap,
}
use plasmate.CrawlPolicy.Match.Total.{match_loop_total}
use plasmate.CrawlPolicy.Match.Sound.{pattern_matches_sound}

-- Where the loop stands after a star: the bytes `l` behind the star have been matched at the place
-- that is remembered, and the rest of the pattern matches from there on or later.
record Reaches (p t : Text) (s : Star) : Type 0 where
  l : Text
  pattern_so_far : s.after_star ≡ l ++ p
  target_so_far : s.star_target ≡ l ++ t
  l_plain : NoStar l
  skipped : Text
  found : Text
  split : s.star_target ≡ skipped ++ found
  matched : Matches (s.after_star ++ star) found

-- Behind the literal bytes the match goes on.
Reaches-behind :
    (p t : Text) (s : Star) (r : Reaches p t s)
    → (w : Text) × (z : Text) × (t ≡ w ++ z) × Matches (p ++ star) z × (r.found ≡ r.l ++ z)
Reaches-behind p t s r =
    let m : Matches (r.l ++ (p ++ star)) r.found =
      rw (← append_assoc, ← r.pattern_so_far) r.matched in
    let (z, e, k) = literal_split r.l (p ++ star) r.found r.l_plain m in
    let (w, same) =
      suffix_behind r.l t r.skipped z (sym r.target_so_far ∙ r.split ∙ ap (◌++◌ r.skipped) e) in
    (w, z, same, k, e)

NoStar-drop : (t : Text) → NoStar t → NoStar (drop 1 t)
NoStar-drop [] n = n
NoStar-drop (c ∷ t) n = n.1

-- A star: the search starts again here.
Reaches-star :
    (c : ℕ) (p t : Text)
    → c ≡ b'*'
    → (w z : Text) → t ≡ w ++ z
    → Matches ((c ∷ p) ++ star) z
    → Reaches p t (record { after_star = p; star_target = t })
Reaches-star c p t e w z same m =
    let (w', v, same', k) = star_split m e in
    record {
      l = [];
      pattern_so_far = refl;
      target_so_far = refl;
      l_plain = tt;
      skipped = w ++ w';
      found = v;
      split = same ∙ ap (◌++◌ w) same' ∙ sym (append_assoc w w' v);
      matched = k;
    }

skipped_some :
    (c d : ℕ) (p t l z skipped found st : Text)
    → c ≢ b'*'
    → c ≢ d
    → st ≡ l ++ d ∷ t
    → st ≡ skipped ++ found
    → found ≡ l ++ z
    → Matches ((c ∷ p) ++ star) z
    → (v : Text) × (drop 1 st ≡ v ++ found)
skipped_some c d p t l z [] found st plain differ e1 e2 e3 m =
    let same : z ≡ d ∷ t = append-cancel_left l z (d ∷ t) (sym e3 ∙ sym e2 ∙ e1) in
    absurd (differ (byte_split (rw same at m) plain).0)
skipped_some c d p t l z (x ∷ v) found st plain differ e1 e2 e3 m = (v, ap (drop 1) e2)

-- A byte that differs: the match is at a later place.
Reaches-retry :
    (c d : ℕ) (p t : Text) (s : Star)
    → c ≢ b'*'
    → c ≢ d
    → Reaches (c ∷ p) (d ∷ t) s
    → Reaches s.after_star (drop 1 s.star_target) (record s { star_target = drop 1 s.star_target })
Reaches-retry c d p t s plain differ r =
    let (w, z, same, m, e) = Reaches-behind (c ∷ p) (d ∷ t) s r in
    let (v, split) =
      skipped_some c d p t r.l z r.skipped r.found s.star_target plain differ r.target_so_far
        r.split e m in
    record {
      l = [];
      pattern_so_far = refl;
      target_so_far = refl;
      l_plain = tt;
      skipped = v;
      found = r.found;
      split = split;
      matched = r.matched;
    }

-- A byte that fits.
Reaches-step :
    (c d : ℕ) (p t : Text) (s : Star) → c ≢ b'*' → c ≡ d → Reaches (c ∷ p) (d ∷ t) s → Reaches p t s
Reaches-step c d p t s plain same r = record {
  l = r.l ++ c ∷ [];
  pattern_so_far = r.pattern_so_far ∙ sym (append_assoc r.l (c ∷ []) p);
  target_so_far =
      r.target_so_far ∙ ap (λ b. r.l ++ b ∷ t) (sym same) ∙ sym (append_assoc r.l (c ∷ []) t);
  l_plain = All-append (λ b. b ≢ b'*') r.l (c ∷ []) r.l_plain (plain, tt);
  skipped = r.skipped;
  found = r.found;
  split = r.split;
  matched = r.matched;
}

Reaches-end : (p : Text) (s : Star) → Reaches p [] s → only_stars p ≡ true
Reaches-end p s r =
    let (w, z, same, m, e) = Reaches-behind p [] s r in
    let nothing : z ≡ [] = nil_of w z same in Matches-only_stars p star (rw nothing at m)
  where
    nil_of : (w z : Text) → [] ≡ w ++ z → z ≡ []
    nil_of [] z e = sym e
    nil_of (x ∷ w) z e = cc

loop_complete_star :
    (fuel : ℕ) (p t : Text) (s : Star)
    → NoStar t
    → NoStar s.star_target
    → Reaches p t s
    → match_loop fuel false p t (some s) ≢ some false
unfolding match_loop
loop_complete_star zero p t s n ns r h = cc
loop_complete_star (suc fuel) p [] s n ns r h = let e = Reaches-end p s r in cc
loop_complete_star (suc fuel) [] (d ∷ t) s n ns r h = cc
loop_complete_star (suc fuel) (c ∷ p) (d ∷ t) s n ns r h = elim (Bool-cases (c == d)) [
  | inl e ↦
      let same : c ≡ d = ground arith in
      let plain : c ≢ b'*' = λ k. n.0 (sym same ∙ k) in
      loop_complete_star fuel p t s n.1 ns (Reaches-step c d p t s plain same r) (rw e at h)
  | inr e ↦ elim (Bool-cases (c == b'*')) [
    | inl k ↦
        let star_here : c ≡ b'*' = ground arith in
        let (w, z, same, m, _) = Reaches-behind (c ∷ p) (d ∷ t) s r in
        loop_complete_star fuel p (d ∷ t) _ n n (Reaches-star c p (d ∷ t) star_here w z same m)
          (rw (e, k) at h)
    | inr k ↦
        let plain : c ≢ b'*' = ground arith in
        let differ : c ≢ d = ground arith in
        loop_complete_star fuel s.after_star (drop 1 s.star_target) _ (NoStar-drop s.star_target ns)
          (NoStar-drop s.star_target ns) (Reaches-retry c d p t s plain differ r) (rw (e, k) at h)
  ]
]

loop_complete :
    (fuel : ℕ) (p t : Text)
    → NoStar t
    → Matches (p ++ star) t
    → match_loop fuel false p t none ≢ some false
unfolding match_loop
loop_complete zero p t n m h = cc
loop_complete (suc fuel) p [] n m h = let e = Matches-only_stars p star m in cc
loop_complete (suc fuel) [] (d ∷ t) n m h = cc
loop_complete (suc fuel) (c ∷ p) (d ∷ t) n m h = elim (Bool-cases (c == d)) [
  | inl e ↦
      let same : c ≡ d = ground arith in
      loop_complete fuel p t n.1 (byte_split m (λ k. n.0 (sym same ∙ k))).1 (rw e at h)
  | inr e ↦ elim (Bool-cases (c == b'*')) [
    | inl k ↦
        let star_here : c ≡ b'*' = ground arith in
        loop_complete_star fuel p (d ∷ t) _ n n
          (Reaches-star c p (d ∷ t) star_here [] (d ∷ t) refl m) (rw (e, k) at h)
    | inr k ↦
        let plain : c ≢ b'*' = ground arith in
        let differ : c ≢ d = ground arith in absurd (differ (byte_split m plain).0)
  ]
]

-- A pattern with no `$` at its end accepts exactly the targets of which it matches a beginning,
-- where the target holds no `*` of its own: backtracking to the last star alone loses no match.
pub pattern_matches-prefix_iff :
    (p t : Text)
    → ends_anchored p ≡ false
    → NoStar t
    → (pattern_matches p t ≡ true) ↔ Matches (p ++ star) t
unfolding pattern_matches match_body
pattern_matches-prefix_iff p t open_end n = (
  λ h. elim (pattern_matches_sound p t h) [
    | whole q e m ↦ absurd (not_anchored p q open_end e)
    | prefix _ m ↦ m
  ],
  λ m.
      let (b, e) = match_loop_total false p t in
      let ok = loop_complete (enough p t) p t n m in
      rw (open_end, e) (ends b (λ k. ok (e ∙ ap some k))),
)
  where
    ends : (b : Bool) → b ≢ false → b ≡ true
    ends true h = refl
    ends false h = absurd (h refl)

loop_exact : (fuel : ℕ) (q : Text) → length q < fuel → match_loop fuel true q q none ≡ some true
unfolding match_loop only_stars
loop_exact zero q h = absurd (omega arith)
loop_exact (suc fuel) [] h = refl
loop_exact (suc fuel) (c ∷ q) h =
    let same : (c == c) ≡ true = ground arith in rw same (loop_exact fuel q (omega arith))

-- A pattern with `$` at its end and no `*` accepts exactly its own bytes.
pub pattern_matches-exact_iff :
    (q t : Text) → NoStar q → (pattern_matches (q ++ b'$' ∷ []) t ≡ true) ↔ (t ≡ q)
unfolding pattern_matches match_body
pattern_matches-exact_iff q t n = (
  λ h. elim (pattern_matches_sound (q ++ b'$' ∷ []) t h) [
    | whole q' e m ↦
        let same : q ≡ q' = sym (drop_last-concat q) ∙ ap drop_last e ∙ drop_last-concat q' in
        exact q t n (rw (← same, ← append-nil q) at m)
    | prefix none_such m ↦ absurd (none_such q refl)
  ],
  λ e.
      rw (ends_anchored-concat q, drop_last-concat q, e, loop_exact (enough q q) q (omega arith))
        refl,
)
  where
    exact : (q t : Text) → NoStar q → Matches (q ++ []) t → t ≡ q
    exact q t n m = let (z, e, k) = literal_split q [] t n m in rw (e, nothing k) (append-nil q)
      where
        nothing : {z : Text} → Matches [] z → z ≡ []
        nothing done = refl

missed_loop :
    (fuel x : ℕ) (s : Text)
    → x ≢ b'*'
    → 3 ≤ fuel
    → match_loop fuel true (b'*' ∷ x ∷ []) (x ∷ (s ++ x ∷ [])) none ≡ some false
unfolding match_loop
missed_loop zero x s plain h = absurd (omega arith)
missed_loop (suc zero) x s plain h = absurd (omega arith)
missed_loop (suc (suc zero)) x s plain h = absurd (omega arith)
missed_loop (suc (suc (suc f))) x [] plain h =
    let differ : (b'*' == x) ≡ false = ground arith in
    let same : (x == x) ≡ true = ground arith in rw (differ, same) refl
missed_loop (suc (suc (suc f))) x (c ∷ s) plain h =
    let differ : (b'*' == x) ≡ false = ground arith in
    let same : (x == x) ≡ true = ground arith in rw (differ, same) refl

-- With both a star and `$` the search is not complete: it stops where the pattern is first used up,
-- and does not try a later place for the star. So `*x$` refuses every target that begins and also
-- ends with the byte `x` and is longer than one byte, although the pattern matches it.
pub pattern_matches-anchored_star_missed :
    (x : ℕ) (s : Text)
    → x ≢ b'*'
    → RuleMatches (b'*' ∷ x ∷ b'$' ∷ []) (x ∷ (s ++ x ∷ []))
      × (pattern_matches (b'*' ∷ x ∷ b'$' ∷ []) (x ∷ (s ++ x ∷ [])) ≡ false)
unfolding pattern_matches match_body ends_anchored drop_last
pattern_matches-anchored_star_missed x s plain = (
  whole (b'*' ∷ x ∷ []) refl
      (star_gap b'*' (x ∷ []) (x ∷ s) (x ∷ []) (omega arith) (byte plain done)),
  rw (missed_loop (enough (b'*' ∷ x ∷ []) (x ∷ (s ++ x ∷ []))) x s plain (omega arith)) refl,
)
