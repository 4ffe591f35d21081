-- ===== src/Text.antt =====
-- Rust's `str`: its UTF-8 bytes, as a list of numbers, with the methods of `str` that the program
-- calls. Constants are written `codes "..."` and are ASCII.
pub mod Search
use Prim.Native.Char.{code}
use Prim.Native.String.{String}
use plasmate.Common.{
  ℕ, zero, suc, ◌+◌, ◌-◌, ◌≡◌, ◌↔◌, refl, ap, Bool, true, false, ◌&&◌, ◌||◌, Option, none, some,
  List, [], ◌∷◌, ◌++◌, map, reverse, arith, leb, ◌==◌, if◌then◌else◌, length, drop, is_empty,
}

abbrev pub Text : Type 0
Text = List ℕ

abbrev pub codes : String → Text
codes String.[] = []
codes (String.◌∷◌ c s) = code c ∷ codes s

-- `a == b`
unfoldable pub text_eq : Text → Text → Bool
text_eq [] [] = true
text_eq (a ∷ s) (b ∷ t) = (a == b) && text_eq s t
text_eq _ _ = false

pub text_eq_iff : (s t : Text) → (text_eq s t ≡ true) ↔ (s ≡ t)
unfolding text_eq
text_eq_iff [] [] = (λ _. refl, λ _. refl)
text_eq_iff [] (b ∷ t) = (λ h. cc, λ h. cc)
text_eq_iff (a ∷ s) [] = (λ h. cc, λ h. cc)
text_eq_iff (a ∷ s) (b ∷ t) =
    (λ h. ground (arith, text_eq_iff s t), λ h. ground (arith, text_eq_iff s t))

pub text_eq_refl : (s : Text) → text_eq s s ≡ true
text_eq_refl s = (text_eq_iff s s).1 refl

-- `s.strip_prefix(p)`
unfoldable pub strip_prefix : Text → Text → Option Text
strip_prefix s [] = some s
strip_prefix [] (b ∷ p) = none
strip_prefix (a ∷ s) (b ∷ p) = if a == b then strip_prefix s p else none

-- `s.starts_with(p)`
unfoldable pub starts_with : Text → Text → Bool
starts_with s [] = true
starts_with [] (b ∷ p) = false
starts_with (a ∷ s) (b ∷ p) = (a == b) && starts_with s p

-- `s.ends_with(p)`
unfoldable pub ends_with : Text → Text → Bool
unfolding text_eq
ends_with s p = leb (length p) (length s) && text_eq (drop (length s - length p) s) p

-- `s.find(p)`: the byte offset of the first occurrence.
unfoldable pub find : Text → Text → Option ℕ
unfolding starts_with
find [] p = if starts_with [] p then some 0 else none
find (c ∷ s) p =
    if starts_with (c ∷ s) p
    then some 0
    else elim (find s p) [ none ↦ none | some i ↦ some (suc i) ]

-- `s.split(c)` for an ASCII separator: the first piece, and the pieces after it.
unfoldable pub split_on : ℕ → Text → Text × List Text
split_on sep [] = ([], [])
split_on sep (c ∷ s) =
    let (first, more) = split_on sep s in if c == sep then ([], first ∷ more) else (c ∷ first, more)

-- `s.split_once(c)` for an ASCII separator.
unfoldable pub split_once : ℕ → Text → Option (Text × Text)
split_once sep [] = none
split_once sep (c ∷ s) =
    if c == sep
    then some ([], s)
    else elim (split_once sep s) [ none ↦ none | some (before, after) ↦ some (c ∷ before, after) ]

-- `u8::is_ascii_uppercase` and its companions
abbrev pub is_upper : ℕ → Bool
is_upper c = leb b'A' c && leb c b'Z'

abbrev pub is_lower : ℕ → Bool
is_lower c = leb b'a' c && leb c b'z'

abbrev pub is_digit : ℕ → Bool
is_digit c = leb b'0' c && leb c b'9'

abbrev pub is_alphabetic : ℕ → Bool
is_alphabetic c = is_upper c || is_lower c

abbrev pub lower_byte : ℕ → ℕ
lower_byte c = if is_upper c then c + 32 else c

-- `s.to_ascii_lowercase()`
unfoldable pub lowercase : Text → Text
lowercase s = map lower_byte s

-- `a.eq_ignore_ascii_case(b)`
unfoldable pub eq_ignore_case : Text → Text → Bool
unfolding text_eq lowercase
eq_ignore_case a b = text_eq (lowercase a) (lowercase b)

-- The UTF-8 forms of the characters with the property White_Space.
abbrev whitespace : List Text
whitespace =
    (32 ∷ [])
    ∷ (9 ∷ [])
    ∷ (10 ∷ [])
    ∷ (11 ∷ [])
    ∷ (12 ∷ [])
    ∷ (13 ∷ [])
    ∷ (194 ∷ 133 ∷ [])
    ∷ (194 ∷ 160 ∷ [])
    ∷ (225 ∷ 154 ∷ 128 ∷ [])
    ∷ (226 ∷ 128 ∷ 128 ∷ [])
    ∷ (226 ∷ 128 ∷ 129 ∷ [])
    ∷ (226 ∷ 128 ∷ 130 ∷ [])
    ∷ (226 ∷ 128 ∷ 131 ∷ [])
    ∷ (226 ∷ 128 ∷ 132 ∷ [])
    ∷ (226 ∷ 128 ∷ 133 ∷ [])
    ∷ (226 ∷ 128 ∷ 134 ∷ [])
    ∷ (226 ∷ 128 ∷ 135 ∷ [])
    ∷ (226 ∷ 128 ∷ 136 ∷ [])
    ∷ (226 ∷ 128 ∷ 137 ∷ [])
    ∷ (226 ∷ 128 ∷ 138 ∷ [])
    ∷ (226 ∷ 128 ∷ 168 ∷ [])
    ∷ (226 ∷ 128 ∷ 169 ∷ [])
    ∷ (226 ∷ 128 ∷ 175 ∷ [])
    ∷ (226 ∷ 129 ∷ 159 ∷ [])
    ∷ (227 ∷ 128 ∷ 128 ∷ [])
    ∷ []

-- One of the given characters taken off the front.
strip_any : List Text → Text → Option Text
unfolding strip_prefix
strip_any [] s = none
strip_any (w ∷ ws) s = elim (strip_prefix s w) [ none ↦ strip_any ws s | some t ↦ some t ]

-- The fuel is the length: each round takes at least one byte off.
strip_all : ℕ → List Text → Text → Text
unfolding strip_any
strip_all zero ws s = s
strip_all (suc f) ws s = elim (strip_any ws s) [ none ↦ s | some t ↦ strip_all f ws t ]

-- `trim_start_matches` of a set of characters, `trim_start`, `trim_end` and `trim`.
unfoldable pub trim_start_of : List Text → Text → Text
unfolding strip_all
trim_start_of ws s = strip_all (length s) ws s

unfoldable pub trim_end_of : List Text → Text → Text
unfolding trim_start_of
trim_end_of ws s = reverse (trim_start_of (map reverse ws) (reverse s))

unfoldable pub trim : Text → Text
unfolding trim_start_of trim_end_of
trim s = trim_end_of whitespace (trim_start_of whitespace s)

trim_example : trim (codes " \t a b\r ") ≡ codes "a b"
unfolding trim
trim_example = refl

split_on_example : split_on b'*' (codes "a*bc*") ≡ (codes "a", codes "bc" ∷ [] ∷ [])
unfolding split_on
split_on_example = refl
