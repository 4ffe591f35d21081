-- ===== src/Capability/Bits.antt =====
-- When the bitwise operations give 0.
use Prim.Native.Nat.{max, bit_or, bit_xor, digits, differ, bit_or-bitwise, bit_xor-bitwise}
use plasmate.Common.{ℕ, zero, suc, ◌/◌, ◌%◌, ◌≤◌, ◌≡◌, ◌↔◌, refl, ap, sym, ◌∙◌, arith}

or_digits : ℕ → ℕ → ℕ → ℕ
or_digits n a b = digits (λ c. c) max n a b

or_digits-zero : (n a b : ℕ) → a ≤ n → or_digits n a b ≡ 0 → (a ≡ 0) × (b ≡ 0)
unfolding or_digits
or_digits-zero zero a b l h = (omega arith, h)
or_digits-zero (suc n) zero b l h = (refl, h)
or_digits-zero (suc n) (suc a) b l h =
    let high : or_digits n (suc a / 2) (b / 2) ≡ 0 = omega (arith, h) in
    let low : max (suc a % 2) (b % 2) ≡ 0 = omega (arith, h) in
    let (p, q) = or_digits-zero n (suc a / 2) (b / 2) (omega (arith, l)) high in
    (omega (arith, p, low), omega (arith, q, low))

pub bit_or-zero_iff : (a b : ℕ) → (bit_or a b ≡ 0) ↔ ((a ≡ 0) × (b ≡ 0))
unfolding or_digits
bit_or-zero_iff a b = (
  λ h. or_digits-zero a a b (omega arith) (sym (bit_or-bitwise a b) ∙ h),
  λ (p, q). rw (p, q) (bit_or-bitwise 0 0),
)

xor_digits : ℕ → ℕ → ℕ → ℕ
xor_digits n a b = digits (λ c. c) differ n a b

differ-zero : (a b : ℕ) → differ a b ≡ 0 → a ≡ b
differ-zero zero b h = sym h
differ-zero (suc a) zero h = h
differ-zero (suc a) (suc b) h = ap suc (differ-zero a b h)

differ_self : (a : ℕ) → differ a a ≡ 0
differ_self zero = refl
differ_self (suc a) = differ_self a

xor_digits-eq : (n a b : ℕ) → a ≤ n → xor_digits n a b ≡ 0 → a ≡ b
unfolding xor_digits
xor_digits-eq zero a b l h = omega (arith, l, h)
xor_digits-eq (suc n) zero b l h = omega (arith, h)
xor_digits-eq (suc n) (suc a) b l h =
    let high : xor_digits n (suc a / 2) (b / 2) ≡ 0 = omega (arith, h) in
    let low : differ (suc a % 2) (b % 2) ≡ 0 = omega (arith, h) in
    let p = xor_digits-eq n (suc a / 2) (b / 2) (omega (arith, l)) high in
    let q = differ-zero (suc a % 2) (b % 2) low in omega (arith, p, q)

xor_digits-same : (n a : ℕ) → a ≤ n → xor_digits n a a ≡ 0
unfolding xor_digits
xor_digits-same zero a l = omega (arith, l)
xor_digits-same (suc n) zero l = refl
xor_digits-same (suc n) (suc a) l =
    omega (arith, xor_digits-same n (suc a / 2) (omega (arith, l)), differ_self (suc a % 2))

pub bit_xor-zero_iff : (a b : ℕ) → (bit_xor a b ≡ 0) ↔ (a ≡ b)
unfolding xor_digits
bit_xor-zero_iff a b = (
  λ h. xor_digits-eq a a b (omega arith) (sym (bit_xor-bitwise a b) ∙ h),
  λ e. rw (sym e) (bit_xor-bitwise a a ∙ xor_digits-same a a (omega arith)),
)
