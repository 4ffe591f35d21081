-- ===== src/CrawlPolicy/Bound.antt =====
-- `bound_string` of src/crawl_policy.rs: a text cut to a number of bytes, between two characters.
use plasmate.Common.{
  ℕ, zero, suc, ◌+◌, ◌≤◌, ◌≡◌, ◌⊎◌, refl, sym, Bool, true, not, ◌&&◌, [], ◌∷◌, ◌++◌, arith, leb,
  if◌then◌else◌, length, take, drop, take-append-drop, length-take-le, Bool-cases, inl, inr, ap,
  append-nil,
}
use plasmate.Text.{Text}

-- A byte 10xxxxxx continues a character.
unfoldable pub is_continuation : ℕ → Bool
is_continuation b = leb 128 b && leb b 191

-- `s.is_char_boundary(end)` where `end` is at most the length: the rest is empty or starts a character.
unfoldable pub starts_char : Text → Bool
unfolding is_continuation
starts_char [] = true
starts_char (b ∷ s) = not (is_continuation b)

-- `while !input.is_char_boundary(end) { end -= 1; }`
unfoldable pub back_to_boundary : Text → ℕ → ℕ
unfolding starts_char
back_to_boundary input zero = 0
back_to_boundary input (suc end) =
    let earlier = back_to_boundary input end in
    if starts_char (drop (suc end) input) then suc end else earlier

unfoldable pub bound_string : Text → ℕ → Text
unfolding back_to_boundary
bound_string input max_bytes =
    if leb (length input) max_bytes then input else take (back_to_boundary input max_bytes) input

back_to_boundary-le : (s : Text) (n : ℕ) → back_to_boundary s n ≤ n
unfolding back_to_boundary
back_to_boundary-le s zero = omega arith
back_to_boundary-le s (suc n) = ground (arith, back_to_boundary-le s n)

back_to_boundary-starts :
    (s : Text) (n : ℕ)
    → (back_to_boundary s n ≡ 0) ⊎ (starts_char (drop (back_to_boundary s n) s) ≡ true)
unfolding back_to_boundary
back_to_boundary-starts s zero = inl refl
back_to_boundary-starts s (suc n) = elim (Bool-cases (starts_char (drop (suc n) s))) [
  | inl e ↦ rw e (inr e)
  | inr e ↦ rw e (back_to_boundary-starts s n)
]

-- What a cut text is: the beginning of the input, within the bound, and cut between characters, not
-- inside one; an input within the bound is left whole.
pub record IsCut (input : Text) (max_bytes : ℕ) (out : Text) : Type 0 where
  pub rest : Text
  pub beginning : input ≡ out ++ rest
  pub within : length out ≤ max_bytes
  pub whole : (rest ≡ []) ⊎ (max_bytes + 1 ≤ length input)
  pub at_boundary : (out ≡ []) ⊎ (starts_char rest ≡ true)

-- `bound_string` cuts between characters, to at most the given number of bytes, and leaves a text
-- within the bound whole.
pub bound_string-IsCut :
    (input : Text) (max_bytes : ℕ) → IsCut input max_bytes (bound_string input max_bytes)
unfolding bound_string starts_char
bound_string-IsCut input max_bytes = elim (Bool-cases (leb (length input) max_bytes)) [
  | inl e ↦ rw e (record {
    rest = [];
    beginning = sym (append-nil input);
    within = ground arith;
    whole = inl refl;
    at_boundary = inr (starts_char-nil);
  })
  | inr e ↦
      let n = back_to_boundary input max_bytes in
      rw e (record {
        rest = drop n input;
        beginning = sym (take-append-drop n input);
        within = omega (arith, length-take-le n input, back_to_boundary-le input max_bytes);
        whole = inr (ground arith);
        at_boundary = elim (back_to_boundary-starts input max_bytes) [
          | inl z ↦ inl (ap (λ k. take k input) z)
          | inr s ↦ inr s
        ];
      })
]
  where
    starts_char-nil : starts_char [] ≡ true
    starts_char-nil = refl
