-- ===== src/CrawlPolicy/Match/Spec.antt =====
-- `pattern_matches` of src/crawl_policy.rs against the meaning of a rule's pattern.
use plasmate.Common.{
  ℕ, ◌≡◌, ◌≢◌, refl, sym, ap, Bool, true, false, [], ◌∷◌, ◌++◌, arith, All, append_assoc,
  drop-append_le, length, drop, length-append, drop-append_self, ◌∙◌,
}
use plasmate.Text.{Text}
use plasmate.Wildcard.{Matches, done, byte, star_end, star_more, star, star-Matches}
use plasmate.CrawlPolicy.Match.{only_stars, ends_anchored, drop_last}

-- What is matched behind the pattern's own bytes: without an end anchor, anything.
abbrev pub ending : Bool → Text
ending true = []
ending false = star

abbrev pub NoStar : Text → Type 0
NoStar t = All (λ b. b ≢ b'*') t

pub only_stars-Matches : (a : Bool) (p : Text) → only_stars p ≡ true → Matches (p ++ ending a) []
unfolding only_stars
only_stars-Matches true [] h = done
only_stars-Matches false [] h = star-Matches []
only_stars-Matches a (c ∷ p) h = star_end (ground arith) (only_stars-Matches a p (ground arith))

pub Matches-only_stars : (p q : Text) → Matches (p ++ q) [] → only_stars p ≡ true
unfolding only_stars
Matches-only_stars [] q m = refl
Matches-only_stars (c ∷ p) q (star_end e m) = ground (arith, Matches-only_stars p q m)

pub star_gap : (c : ℕ) (p w x : Text) → c ≡ b'*' → Matches p x → Matches (c ∷ p) (w ++ x)
star_gap c p [] x e m = star_end e m
star_gap c p (d ∷ w) x e m = star_more e (star_gap c p w x e m)

pub star_split :
    {c : ℕ} {p t : Text}
    → Matches (c ∷ p) t
    → c ≡ b'*'
    → (w : Text) × (v : Text) × (t ≡ w ++ v) × Matches p v
star_split (byte ne m) e = absurd (ne e)
star_split (star_end {t = t} _ m) e = ([], t, refl, m)
star_split (star_more {d = d} _ m) e =
    let (w, v, same, k) = star_split m e in (d ∷ w, v, ap (◌∷◌ d) same, k)

pub byte_split : {c d : ℕ} {p t : Text} → Matches (c ∷ p) (d ∷ t) → c ≢ b'*' → (c ≡ d) × Matches p t
byte_split (byte _ m) ne = (refl, m)
byte_split (star_end e m) ne = absurd (ne e)
byte_split (star_more e m) ne = absurd (ne e)

-- A literal prefix is matched by itself alone.
pub literal_split :
    (l q v : Text) → NoStar l → Matches (l ++ q) v → (z : Text) × (v ≡ l ++ z) × Matches q z
literal_split [] q v n m = (v, refl, m)
literal_split (c ∷ l) q [] (ne, n) (star_end e m) = absurd (ne e)
literal_split (c ∷ l) q (d ∷ v) (ne, n) m =
    let (same, k) = byte_split m ne in
    let (z, e, r) = literal_split l q v n k in
    (z, ap (◌∷◌ d) e ∙ ap (λ k. k ∷ (l ++ z)) (sym same), r)

-- Of two ends of one text, what stands behind the same prefix length is the shorter.
pub suffix_behind : (l t w z : Text) → l ++ t ≡ w ++ (l ++ z) → (w' : Text) × (t ≡ w' ++ z)
suffix_behind l t w z e = (
  drop (length l) (w ++ l),
  sym (drop-append_self l t)
      ∙ ap (drop (length l)) (e ∙ sym (append_assoc w l z))
      ∙ drop-append_le (length l) (w ++ l) z (omega (arith, length-append w l)),
)

-- What a rule's pattern means. With `$` at its end the rest must match the whole target; otherwise a
-- beginning of the target.
pub data RuleMatches (p t : Text) : Type 0 where
  whole : (q : Text) → p ≡ q ++ b'$' ∷ [] → Matches q t → RuleMatches p t
  prefix : ((q : Text) → p ≢ q ++ b'$' ∷ []) → Matches (p ++ star) t → RuleMatches p t

pub ends_anchored-split : (p : Text) → ends_anchored p ≡ true → p ≡ drop_last p ++ b'$' ∷ []
unfolding ends_anchored drop_last
ends_anchored-split [] h = cc
ends_anchored-split (c ∷ []) h = ground arith
ends_anchored-split (c ∷ d ∷ s) h = ap (◌∷◌ c) (ends_anchored-split (d ∷ s) h)

pub ends_anchored-concat : (q : Text) → ends_anchored (q ++ b'$' ∷ []) ≡ true
unfolding ends_anchored
ends_anchored-concat [] = refl
ends_anchored-concat (c ∷ []) = refl
ends_anchored-concat (c ∷ d ∷ q) = ends_anchored-concat (d ∷ q)

pub drop_last-concat : (q : Text) → drop_last (q ++ b'$' ∷ []) ≡ q
unfolding drop_last
drop_last-concat [] = refl
drop_last-concat (c ∷ []) = refl
drop_last-concat (c ∷ d ∷ q) = ap (◌∷◌ c) (drop_last-concat (d ∷ q))

pub not_anchored : (p q : Text) → ends_anchored p ≡ false → p ≢ q ++ b'$' ∷ []
not_anchored p q h e =
    let anchored = ends_anchored-concat q in
    let same : ends_anchored p ≡ ends_anchored (q ++ b'$' ∷ []) = ap ends_anchored e in cc
