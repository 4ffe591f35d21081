-- ===== src/Som/ElementId/Decimal.antt =====
-- Decimal numerals, as `format!("{}", n)` prints them, read back.
use plasmate.Common.{
  ℕ, zero, suc, ◌+◌, ◌-◌, ◌*◌, ◌/◌, ◌%◌, ◌<◌, ◌≡◌, refl, ap, sym, ◌∙◌, [], ◌∷◌, ◌++◌, arith, ltb,
  Bool-cases, inl, inr, if◌then◌else◌,
}
use plasmate.Text.{Text}

-- The fuel is the number itself.
digits_of : ℕ → ℕ → Text
digits_of zero n = []
digits_of (suc fuel) n =
    let more = digits_of fuel (n / 10) in
    if ltb n 10 then (b'0' + n) ∷ [] else more ++ (b'0' + n % 10) ∷ []

unfoldable pub decimal : ℕ → Text
unfolding digits_of
decimal n = digits_of (n + 1) n

unfoldable pub value_from : ℕ → Text → ℕ
value_from acc [] = acc
value_from acc (c ∷ s) = value_from (acc * 10 + (c - b'0')) s

value_from-append :
    (acc c : ℕ) (s : Text) → value_from acc (s ++ c ∷ []) ≡ value_from acc s * 10 + (c - b'0')
unfolding value_from
value_from-append acc c [] = refl
value_from-append acc c (d ∷ s) = value_from-append (acc * 10 + (d - b'0')) c s

digits_of-value : (fuel n : ℕ) → n < fuel → value_from 0 (digits_of fuel n) ≡ n
unfolding digits_of value_from
digits_of-value zero n h = absurd (omega arith)
digits_of-value (suc fuel) n h = elim (Bool-cases (ltb n 10)) [
  | inl small ↦ rw small (omega arith)
  | inr large ↦
      let more = digits_of-value fuel (n / 10) (ground arith) in
      rw large (omega (arith, value_from-append 0 (b'0' + n % 10) (digits_of fuel (n / 10)), more))
]

-- A numeral is read back as the number that it was printed from.
pub decimal-value : (n : ℕ) → value_from 0 (decimal n) ≡ n
unfolding decimal
decimal-value n = digits_of-value (n + 1) n (omega arith)

pub decimal-injective : (m n : ℕ) → decimal m ≡ decimal n → m ≡ n
decimal-injective m n e = sym (decimal-value m) ∙ ap (value_from 0) e ∙ decimal-value n
