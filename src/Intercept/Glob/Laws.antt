-- ===== src/Intercept/Glob/Laws.antt =====
-- The greedy search of src/network/intercept.rs decides the meaning of the pattern.
use plasmate.Common.{
  ℕ, ◌+◌, ◌≡◌, ◌↔◌, refl, sym, ap, ◌∙◌, true, false, some, List, [], ◌∷◌, ◌++◌, length, drop, arith,
  inl, inr, Bool-cases, append_assoc, append-nil, take, Option-cases, drop-append_self,
}
use plasmate.Text.{Text, codes, text_eq, text_eq_iff, starts_with, find, split_on}
use plasmate.Text.Search.{
  starts_with_sound, starts_with-append, ends_with_sound, ends_with-append, find_sound,
  find_complete,
}
use plasmate.Wildcard.{Matches, star-Matches}
use plasmate.Wildcard.Pieces.{Pieces, Matches-Pieces, Pieces-Matches}
use plasmate.Intercept.Glob.{glob_rest, glob_parts, url_glob_match}

-- A success of the loop places the pieces, after a gap.
glob_rest_sound :
    (g : Text) (rs : List Text) (v : Text)
    → glob_rest (g ∷ rs) v ≡ true
    → (w : Text) × (x : Text) × (v ≡ w ++ x) × Pieces g rs x
unfolding glob_rest
glob_rest_sound [] [] v h = (v, [], sym (append-nil v), refl)
glob_rest_sound (c ∷ g) [] v h = let (w, e) = ends_with_sound v (c ∷ g) h in (w, c ∷ g, e, refl)
glob_rest_sound [] (r ∷ rs) v h =
    let (w, x, e, k) = glob_rest_sound r rs v h in ([], v, refl, (w, x, e, k))
glob_rest_sound (c ∷ g) (r ∷ rs) v h = elim (Option-cases (find v (c ∷ g))) [
  | inl e ↦ let bad : false ≡ true = rw (e, glob_rest) at h in cc
  | inr (i, e) ↦
      let (w, x, same, k) = glob_rest_sound r rs _ (rw (e, glob_rest) at h) in
      (
        take i v,
        (c ∷ g) ++ (w ++ x),
        find_sound v (c ∷ g) i e ∙ ap (λ z. take i v ++ ((c ∷ g) ++ z)) same,
        (w, x, refl, k),
      )
]

glob_rest_found :
    (c : ℕ) (g r : Text) (rs : List Text) (v : Text) (i : ℕ)
    → find v (c ∷ g) ≡ some i
    → glob_rest ((c ∷ g) ∷ r ∷ rs) v ≡ glob_rest (r ∷ rs) (drop (i + length (c ∷ g)) v)
unfolding glob_rest
glob_rest_found c g r rs v i e = rw (e, glob_rest)

-- Wherever the pieces stand, the loop succeeds: taking the leftmost place never loses a match.
glob_rest_complete :
    (g : Text) (rs : List Text) (w x : Text) → Pieces g rs x → glob_rest (g ∷ rs) (w ++ x) ≡ true
unfolding glob_rest
glob_rest_complete [] [] w x h = refl
glob_rest_complete (c ∷ g) [] w x h = rw h (ends_with-append w (c ∷ g))
glob_rest_complete [] (r ∷ rs) w x (w', x', e, k) =
    let flat : x ≡ w' ++ x' = e in
    rw (flat, ← append_assoc) (glob_rest_complete r rs (w ++ w') x' k)
glob_rest_complete (c ∷ g) (r ∷ rs) w x (w', x', e, k) =
    let (i, y, found, rest) = find_complete w (c ∷ g) (w' ++ x') in
    let flat : x ≡ (c ∷ g) ++ (w' ++ x') = e in
    let later = glob_rest_complete r rs (y ++ w') x' k in
    rw flat (
      glob_rest_found c g r rs _ i found
      ∙ ap (glob_rest (r ∷ rs)) (rest ∙ sym (append_assoc y w' x'))
      ∙ later)

glob_parts_sound :
    (p u f : Text) (rs : List Text) → (rs ≡ [] → p ≡ f) → glob_parts p u f rs ≡ true → Pieces f rs u
unfolding glob_parts
glob_parts_sound p u f [] whole h = (text_eq_iff u p).0 h ∙ whole refl
glob_parts_sound p u [] (r ∷ rs) whole h = glob_rest_sound r rs u h
glob_parts_sound p u (c ∷ f) (r ∷ rs) whole h =
    let starts : starts_with u (c ∷ f) ≡ true = ground arith in
    let (w, x, e, k) = glob_rest_sound r rs (drop (length (c ∷ f)) u) (ground arith) in
    (w, x, starts_with_sound u (c ∷ f) starts ∙ ap (◌++◌ (c ∷ f)) e, k)

glob_parts_complete :
    (p u f : Text) (rs : List Text) → (rs ≡ [] → p ≡ f) → Pieces f rs u → glob_parts p u f rs ≡ true
unfolding glob_parts
glob_parts_complete p u f [] whole h = (text_eq_iff u p).1 (h ∙ sym (whole refl))
glob_parts_complete p u [] (r ∷ rs) whole (w, x, e, k) = rw e (glob_rest_complete r rs w x k)
glob_parts_complete p u (c ∷ f) (r ∷ rs) whole (w, x, e, k) =
    rw (e, starts_with-append (c ∷ f) (w ++ x), drop-append_self (c ∷ f) (w ++ x))
      (glob_rest_complete r rs w x k)

split_on-whole : (p : Text) → (split_on b'*' p).1 ≡ [] → p ≡ (split_on b'*' p).0
unfolding split_on
split_on-whole [] h = refl
split_on-whole (c ∷ p) h = ground (arith, split_on-whole p)

-- `url_glob_match` accepts exactly the URLs that the pattern means, where `*` stands for any run of
-- bytes and every other byte for itself: the greedy search loses no match and makes none up.
pub url_glob_match_iff :
    (pattern url : Text) → (url_glob_match pattern url ≡ true) ↔ Matches pattern url
unfolding url_glob_match
url_glob_match_iff pattern url = elim (Bool-cases (text_eq pattern (codes "*"))) [
  | inl e ↦ (λ _. rw ((text_eq_iff _ _).0 e) (star-Matches url), λ _. rw e refl)
  | inr e ↦ (
    λ h.
        Pieces-Matches pattern url
          (glob_parts_sound pattern url _ _ (split_on-whole pattern) (rw e at h)),
    λ m. rw e (glob_parts_complete pattern url _ _ (split_on-whole pattern) (Matches-Pieces m)),
  )
]
