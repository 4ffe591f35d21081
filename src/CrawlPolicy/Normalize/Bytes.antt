-- ===== src/CrawlPolicy/Normalize/Bytes.antt =====
-- The bytes of an escape and the bytes that stand for themselves: src/crawl_policy.rs.
use plasmate.Common.{
  ℕ, zero, suc, ◌/◌, ◌%◌, ◌<◌, ◌≡◌, ◌≢◌, ◌⊎◌, refl, ap, Bool, true, false, not, ◌&&◌, ◌||◌, Option,
  none, some, [], ◌∷◌, arith, ◌==◌, Bool-cases, inl, inr,
}
use plasmate.Text.{text_eq, text_eq_iff}
use plasmate.CrawlPolicy.Normalize.{hex_upper, is_unreserved, percent, plain, escaped}

-- A test that holds for every byte, by evaluation.
unfoldable pub passes : (ℕ → Bool) → ℕ → Bool
passes p zero = true
passes p (suc k) = passes p k && p k

passes_below : (p : ℕ → Bool) (b n : ℕ) → b < n → passes p n ≡ true → p b ≡ true
unfolding passes
passes_below p b zero lt h = absurd (omega arith)
passes_below p b (suc k) lt h = ground (arith, passes_below p b k)

pub every_byte : (p : ℕ → Bool) → passes p 256 ≡ true → (b : ℕ) → b < 256 → p b ≡ true
every_byte p h b lt = passes_below p b 256 lt h

is_some_of : Option ℕ → ℕ → Bool
is_some_of none d = false
is_some_of (some v) d = v == d

is_some_of_eq : (o : Option ℕ) (d : ℕ) → is_some_of o d ≡ true → o ≡ some d
unfolding is_some_of
is_some_of_eq none d h = cc
is_some_of_eq (some v) d h = ap some (ground arith)

escaped-percent_table :
    passes (λ d. is_some_of (escaped (hex_upper (d / 16)) (hex_upper (d % 16))) d) 256 ≡ true
unfolding passes escaped hex_upper is_some_of
escaped-percent_table = refl

-- The escape that is written for a byte reads back as that byte.
pub escaped-hex_upper :
    (d : ℕ) → d < 256 → escaped (hex_upper (d / 16)) (hex_upper (d % 16)) ≡ some d
escaped-hex_upper d h = is_some_of_eq _ d (
    every_byte (λ d. is_some_of (escaped (hex_upper (d / 16)) (hex_upper (d % 16))) d)
      escaped-percent_table d h)

-- A byte that stands for itself, and one that is escaped.
unfoldable pub stays : Bool → ℕ → Bool
stays preserve c = not (c == b'%') && text_eq (plain preserve c) (c ∷ [])

goes : Bool → ℕ → Bool
goes preserve c = not (is_unreserved c) && text_eq (plain preserve c) (percent c)

plain_table : (preserve : Bool) → passes (λ c. stays preserve c || goes preserve c) 256 ≡ true
unfolding passes stays goes plain is_unreserved text_eq
plain_table true = refl
plain_table false = refl

unreserved_table :
    (preserve : Bool) → passes (λ c. not (is_unreserved c) || stays preserve c) 256 ≡ true
unfolding passes stays plain is_unreserved text_eq
unreserved_table true = refl
unreserved_table false = refl

abbrev pub Stays : Bool → ℕ → Type 0
Stays preserve c = (c ≢ b'%') × (plain preserve c ≡ c ∷ [])

abbrev pub Goes : Bool → ℕ → Type 0
Goes preserve c = (is_unreserved c ≡ false) × (plain preserve c ≡ percent c)

pub stays-Stays : (preserve : Bool) (c : ℕ) → stays preserve c ≡ true → Stays preserve c
unfolding stays
stays-Stays preserve c h = ground (arith, text_eq_iff (plain preserve c) (c ∷ []))

pub plain-cases : (preserve : Bool) (c : ℕ) → c < 256 → Stays preserve c ⊎ Goes preserve c
unfolding goes
plain-cases preserve c h =
    let e = every_byte (λ c. stays preserve c || goes preserve c) (plain_table preserve) c h in
    elim (Bool-cases (stays preserve c)) [
      | inl s ↦ inl (stays-Stays preserve c s)
      | inr s ↦ inr (ground (arith, text_eq_iff (plain preserve c) (percent c)))
    ]

pub unreserved-Stays :
    (preserve : Bool) (c : ℕ) → c < 256 → is_unreserved c ≡ true → Stays preserve c
unreserved-Stays preserve c h u =
    let e =
      every_byte (λ c. not (is_unreserved c) || stays preserve c) (unreserved_table preserve) c h in
    stays-Stays preserve c (ground arith)
