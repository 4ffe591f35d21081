-- ===== src/Wildcard/Pieces.antt =====
-- A pattern read as the pieces between its stars.
use plasmate.Common.{ℕ, ◌≡◌, ◌≢◌, inl, inr, refl, ap, List, [], ◌∷◌, ◌++◌, arith, ◌==◌, Bool-cases}
use plasmate.Text.{Text, split_on}
use plasmate.Wildcard.{Matches, done, byte, star_end, star_more}

-- `Pieces f rs t`: the text is `f`, then for each piece of `rs` a gap and the piece.
abbrev pub Pieces : Text → List Text → Text → Type 0
Pieces f [] t = t ≡ f
Pieces f (g ∷ rs) t = (w : Text) × (x : Text) × (t ≡ f ++ (w ++ x)) × Pieces g rs x

-- A byte more in front of the first piece.
Pieces-cons :
    (c : ℕ) (f : Text) (rs : List Text) (t : Text) → Pieces f rs t → Pieces (c ∷ f) rs (c ∷ t)
Pieces-cons c f [] t h = ap (◌∷◌ c) h
Pieces-cons c f (g ∷ rs) t (w, x, e, h) = (w, x, ap (◌∷◌ c) e, h)

Pieces-uncons :
    (c : ℕ) (f : Text) (rs : List Text) (t : Text)
    → Pieces (c ∷ f) rs t
    → (u : Text) × (t ≡ c ∷ u) × Pieces f rs u
Pieces-uncons c f [] t h = (f, h, refl)
Pieces-uncons c f (g ∷ rs) t (w, x, e, h) = (f ++ (w ++ x), e, (w, x, refl, h))

split_on-sep :
    (s : Text) (c : ℕ)
    → c ≡ b'*'
    → split_on b'*' (c ∷ s) ≡ ([], (split_on b'*' s).0 ∷ (split_on b'*' s).1)
unfolding split_on
split_on-sep s c e = ground arith

split_on-other :
    (s : Text) (c : ℕ)
    → c ≢ b'*'
    → split_on b'*' (c ∷ s) ≡ (c ∷ (split_on b'*' s).0, (split_on b'*' s).1)
unfolding split_on
split_on-other s c e = ground arith

abbrev PiecesOf : Text → Text → Type 0
PiecesOf p t = Pieces (split_on b'*' p).0 (split_on b'*' p).1 t

pub Matches-Pieces : {p t : Text} → Matches p t → PiecesOf p t
unfolding split_on
Matches-Pieces done = refl
Matches-Pieces (byte {c = c} {p = p} {t = t} ne m) =
    rw (split_on-other p c ne) (Pieces-cons c _ _ t (Matches-Pieces m))
Matches-Pieces (star_end {c = c} {p = p} {t = t} e m) =
    rw (split_on-sep p c e) ([], t, refl, Matches-Pieces m)
Matches-Pieces (star_more {c = c} {d = d} {p = p} {t = t} e m) =
    let (w, x, same, h) = rw (split_on-sep p c e) at (Matches-Pieces m) in
    rw (split_on-sep p c e) (d ∷ w, x, ap (◌∷◌ d) same, h)

star_gap : (c : ℕ) (p w x : Text) → c ≡ b'*' → Matches p x → Matches (c ∷ p) (w ++ x)
star_gap c p [] x e m = star_end e m
star_gap c p (d ∷ w) x e m = star_more e (star_gap c p w x e m)

pub Pieces-Matches : (p t : Text) → PiecesOf p t → Matches p t
unfolding split_on
Pieces-Matches [] t h = rw h done
Pieces-Matches (c ∷ p) t h = elim (Bool-cases (c == b'*')) [
  | inl e ↦
      let is_star : c ≡ b'*' = ground arith in
      let (w, x, same, k) = rw (split_on-sep p c is_star) at h in
      rw same (star_gap c p w x is_star (Pieces-Matches p x k))
  | inr e ↦
      let is_other : c ≢ b'*' = ground arith in
      let (u, same, k) = Pieces-uncons c _ _ t (rw (split_on-other p c is_other) at h) in
      rw same (byte is_other (Pieces-Matches p u k))
]
