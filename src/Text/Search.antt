-- ===== src/Text/Search.antt =====
-- What the searching methods of a text find.
use plasmate.Common.{
  ℕ, zero, suc, ◌+◌, ◌-◌, ◌≡◌, ◌∙◌, refl, sym, ap, true, false, some, List, [], ◌∷◌, ◌++◌, arith,
  length, drop, take, length-append, drop-append_le, drop-append_self, take-append-drop,
  append_assoc, Bool-cases, inl, inr,
}
use plasmate.Text.{Text, text_eq_iff, starts_with, ends_with, find}

pub starts_with-append : (p s : Text) → starts_with (p ++ s) p ≡ true
unfolding starts_with
starts_with-append [] s = refl
starts_with-append (b ∷ p) s = ground (arith, starts_with-append p s)

pub starts_with_sound : (s p : Text) → starts_with s p ≡ true → s ≡ p ++ drop (length p) s
unfolding starts_with
starts_with_sound s [] h = refl
starts_with_sound [] (b ∷ p) h = cc
starts_with_sound (a ∷ s) (b ∷ p) h = ground (arith, starts_with_sound s p)

pub ends_with_sound : (s p : Text) → ends_with s p ≡ true → (w : Text) × (s ≡ w ++ p)
unfolding ends_with
ends_with_sound s p h =
    let n = length s - length p in
    let e : drop n s ≡ p = (text_eq_iff _ _).0 (ground arith) in
    (take n s, sym (ap (◌++◌ (take n s)) (sym e) ∙ take-append-drop n s))

pub ends_with-append : (w p : Text) → ends_with (w ++ p) p ≡ true
unfolding ends_with
ends_with-append w p =
    let n : length (w ++ p) - length p ≡ length w = omega (arith, length-append w p) in
    let e : drop (length (w ++ p) - length p) (w ++ p) ≡ p = rw n (drop-append_self w p) in
    ground (arith, (text_eq_iff _ _).1 e, length-append w p)

-- A cut at the offset and then after the occurrence.
drop-zero-add {ℓ} : {A : Type ℓ} (n : ℕ) (s : List A) → drop (0 + n) s ≡ drop n s
drop-zero-add n s = ap (λ k. drop k s) (omega arith)

drop-suc-add {ℓ} :
    {A : Type ℓ} (i n : ℕ) (c : A) (s : List A) → drop (suc i + n) (c ∷ s) ≡ drop (i + n) s
drop-suc-add i n c s = let e : suc i + n ≡ suc (i + n) = omega arith in ap (λ k. drop k (c ∷ s)) e

-- A hit splits the text around the occurrence.
pub find_sound :
    (s p : Text) (i : ℕ) → find s p ≡ some i → s ≡ take i s ++ (p ++ drop (i + length p) s)
unfolding find
find_sound [] p zero h = rw drop-zero-add (starts_with_sound [] p (ground arith))
find_sound [] p (suc i) h = ground arith
find_sound (c ∷ s) p zero h = rw drop-zero-add (starts_with_sound (c ∷ s) p (ground arith))
find_sound (c ∷ s) p (suc i) h = rw drop-suc-add (ap (◌∷◌ c) (find_sound s p i (ground arith)))

find_here : (s p : Text) → starts_with s p ≡ true → find s p ≡ some 0
unfolding find
find_here [] p h = ground arith
find_here (c ∷ s) p h = ground arith

find_there :
    (c : ℕ) (s p : Text) (i : ℕ)
    → starts_with (c ∷ s) p ≡ false
    → find s p ≡ some i
    → find (c ∷ s) p ≡ some (suc i)
unfolding find
find_there c s p i h k = ground arith

-- The first occurrence ends no later than any other.
pub find_complete :
    (w p z : Text)
    → (i : ℕ) × (y : Text) × (find (w ++ (p ++ z)) p ≡ some i)
      × (drop (i + length p) (w ++ (p ++ z)) ≡ y ++ z)
find_complete [] p z = (
  0,
  [],
  find_here (p ++ z) p (starts_with-append p z),
  drop-zero-add (length p) (p ++ z) ∙ drop-append_self p z,
)
find_complete (d ∷ w) p z = elim (Bool-cases (starts_with (d ∷ (w ++ (p ++ z))) p)) [
  | inl e ↦ (
    0,
    drop (length p) (d ∷ (w ++ p)),
    find_here _ p e,
    drop-zero-add (length p) (d ∷ (w ++ (p ++ z)))
        ∙ (rw (← append_assoc)
            (drop-append_le (length p) (d ∷ (w ++ p)) z (omega (arith, length-append w p)))),
  )
  | inr e ↦
      let (i, y, found, rest) = find_complete w p z in
      (suc i, y, find_there d _ p i e found, drop-suc-add i (length p) d _ ∙ rest)
]
