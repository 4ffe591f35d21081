-- ===== src/CrawlPolicy/Normalize/Laws.antt =====
-- `normalize_path` of src/crawl_policy.rs: its output is normal, and holds no wildcard bytes of its own.
use plasmate.Common.{
  ℕ, ◌+◌, ◌*◌, ◌/◌, ◌%◌, ◌<◌, ◌≤◌, ◌≡◌, ◌≢◌, ◌⊎◌, refl, sym, ap, ◌∙◌, Bool, true, false, not, ◌&&◌,
  ◌||◌, none, some, [], ◌∷◌, ◌++◌, arith, ltb, ◌==◌, Bool-cases, Option-cases, inl, inr, append-nil,
  All,
}
use plasmate.Text.{Text, text_eq, text_eq_iff}
use plasmate.CrawlPolicy.Normalize.{
  hex_value, hex_upper, is_unreserved, percent, escape, plain, escaped, normalize_path,
}
use plasmate.CrawlPolicy.Normalize.Bytes.{
  passes, every_byte, escaped-hex_upper, stays, Stays, plain-cases, unreserved-Stays,
}

-- Texts that normalisation leaves alone.
data Normal (preserve : Bool) : Text → Type 0 where
  nil : Normal preserve []
  unit :
      {c : ℕ} {s : Text} → c < 256 → Stays preserve c → Normal preserve s → Normal preserve (c ∷ s)
  triple :
      {s t : Text} (d : ℕ)
      → d < 256
      → is_unreserved d ≡ false
      → t ≡ percent d ++ s
      → Normal preserve s
      → Normal preserve t

-- One byte, or one escape, at a time.
normalize_path-plain :
    (preserve : Bool) (c : ℕ) (s : Text)
    → c ≢ b'%'
    → normalize_path preserve (c ∷ s) ≡ plain preserve c ++ normalize_path preserve s
unfolding normalize_path
normalize_path-plain preserve c [] h = sym (append-nil (plain preserve c))
normalize_path-plain preserve c (d ∷ []) h = refl
normalize_path-plain preserve c (d ∷ e ∷ s) h =
    let other : (c == b'%') ≡ false = ground arith in rw other refl

normalize_path-escaped :
    (preserve : Bool) (h l d : ℕ) (s : Text)
    → escaped h l ≡ some d
    → normalize_path preserve (b'%' ∷ h ∷ l ∷ s) ≡ escape d ++ normalize_path preserve s
unfolding normalize_path
normalize_path-escaped preserve h l d s e = rw (e, normalize_path) refl

normalize_path-nil : (preserve : Bool) → normalize_path preserve [] ≡ []
unfolding normalize_path
normalize_path-nil preserve = refl

escape_kept : (d : ℕ) → is_unreserved d ≡ false → escape d ≡ percent d
unfolding escape
escape_kept d h = rw h refl

escape_unreserved : (d : ℕ) → is_unreserved d ≡ true → escape d ≡ d ∷ []
unfolding escape
escape_unreserved d h = rw h refl

normalize_path-percent :
    (preserve : Bool) (d : ℕ) (s : Text)
    → d < 256
    → normalize_path preserve (percent d ++ s) ≡ escape d ++ normalize_path preserve s
unfolding percent
normalize_path-percent preserve d s h =
    normalize_path-escaped preserve (hex_upper (d / 16)) (hex_upper (d % 16)) d s
      (escaped-hex_upper d h)

normalize_path-Normal :
    (preserve : Bool) {s : Text} → Normal preserve s → normalize_path preserve s ≡ s
normalize_path-Normal preserve nil = normalize_path-nil preserve
normalize_path-Normal preserve (unit {c = c} {s = s} small (ne, same) n) =
    normalize_path-plain preserve c s ne ∙ rw (same, normalize_path-Normal preserve n) refl
normalize_path-Normal preserve (triple {s = s} d small kept e n) =
    ap (normalize_path preserve) e
    ∙ normalize_path-percent preserve d s small
    ∙ ap (λ k. k ++ normalize_path preserve s) (escape_kept d kept)
    ∙ ap (◌++◌ (percent d)) (normalize_path-Normal preserve n)
    ∙ sym e

abbrev pub IsBytes : Text → Type 0
IsBytes t = All (λ b. b < 256) t

plain-Normal :
    (preserve : Bool) (c : ℕ) (s : Text)
    → c < 256
    → Normal preserve s
    → Normal preserve (plain preserve c ++ s)
plain-Normal preserve c s h n = elim (plain-cases preserve c h) [
  | inl (ne, e) ↦ rw e (unit h (ne, e) n)
  | inr (kept, e) ↦ triple c h kept (ap (λ k. k ++ s) e) n
]

escape-Normal :
    (preserve : Bool) (d : ℕ) (s : Text)
    → d < 256
    → Normal preserve s
    → Normal preserve (escape d ++ s)
escape-Normal preserve d s h n = elim (Bool-cases (is_unreserved d)) [
  | inl u ↦ rw (escape_unreserved d u) (unit h (unreserved-Stays preserve d h u) n)
  | inr k ↦ triple d h k (ap (λ e. e ++ s) (escape_kept d k)) n
]

hex_value-lt : (b v : ℕ) → hex_value b ≡ some v → v < 16
unfolding hex_value
hex_value-lt b v h = ground arith

escaped-lt : (h l d : ℕ) → escaped h l ≡ some d → d < 256
unfolding escaped
escaped-lt h l d e = elim (Option-cases (hex_value h)) [
  | inl n ↦ let bad : none ≡ some d = rw (n, escaped) at e in cc
  | inr (high, eh) ↦ elim (Option-cases (hex_value l)) [
    | inl n ↦ let bad : none ≡ some d = rw (eh, n, escaped) at e in cc
    | inr (low, el) ↦
        let same : some (high * 16 + low) ≡ some d = rw (eh, el, escaped) at e in
        let a = hex_value-lt h high eh in let b = hex_value-lt l low el in ground arith
  ]
]

Normal-normalize_path :
    (preserve : Bool) (t : Text) → IsBytes t → Normal preserve (normalize_path preserve t)
unfolding normalize_path
Normal-normalize_path preserve [] n = nil
Normal-normalize_path preserve (c ∷ []) (h, n) =
    rw (← append-nil (plain preserve c)) (plain-Normal preserve c [] h nil)
Normal-normalize_path preserve (c ∷ d ∷ []) (h, (k, n)) =
    plain-Normal preserve c _ h
      (rw (← append-nil (plain preserve d)) (plain-Normal preserve d [] k nil))
Normal-normalize_path preserve (c ∷ d ∷ e ∷ s) (hc, (hd, (he, n))) =
    let next =
      plain-Normal preserve c _ hc (Normal-normalize_path preserve (d ∷ e ∷ s) (hd, (he, n))) in
    let behind = Normal-normalize_path preserve s n in
    elim (Bool-cases (c == b'%')) [
      | inr other ↦ rw (other, normalize_path) next
      | inl p ↦ elim (Option-cases (escaped d e)) [
        | inl no_escape ↦ rw (p, no_escape, normalize_path) next
        | inr (v, found) ↦
            rw (p, found, normalize_path)
              (escape-Normal preserve v _ (escaped-lt d e v found) behind)
      ]
    ]

Stays-plain : (preserve : Bool) {c : ℕ} → Stays preserve c → plain preserve c ≡ c ∷ []
Stays-plain preserve h = h.1

Stays-ne : (preserve : Bool) {c : ℕ} → Stays preserve c → c ≢ b'%'
Stays-ne preserve h = h.0

not_unreserved : (c : ℕ) → 128 ≤ c → is_unreserved c ≡ false
unfolding is_unreserved
not_unreserved c h = ground arith

plain_big : (preserve : Bool) (c : ℕ) → 128 ≤ c → plain preserve c ≡ percent c
unfolding plain
plain_big preserve c h = let big : ltb c 128 ≡ false = ground arith in rw big refl

abbrev IsTame : ℕ → Type 0
IsTame b = (b ≢ b'*') × (b ≢ b'$') × (b < 128)

Stays-tame_table :
    passes (λ c. not (stays false c) || (not (c == b'*') && not (c == b'$') && ltb c 128)) 256
    ≡ true
unfolding passes stays plain text_eq
Stays-tame_table = refl

Stays-IsTame : (c : ℕ) → c < 256 → Stays false c → IsTame c
unfolding stays
Stays-IsTame c h (ne, same) =
    let e =
      every_byte (λ c. not (stays false c) || (not (c == b'*') && not (c == b'$') && ltb c 128))
        Stays-tame_table c h in
    let t = (text_eq_iff (plain false c) (c ∷ [])).1 same in ground arith

hex_upper-IsTame : (v : ℕ) → v < 16 → IsTame (hex_upper v)
unfolding hex_upper
hex_upper-IsTame v h = ground arith

Normal-NoWildcard : {s : Text} → Normal false s → All IsTame s
unfolding percent
Normal-NoWildcard nil = tt
Normal-NoWildcard (unit {c = c} small st n) = (Stays-IsTame c small st, Normal-NoWildcard n)
Normal-NoWildcard (triple d small kept e n) = rw e (
  (omega arith, omega arith, omega arith),
  (
    hex_upper-IsTame (d / 16) (omega arith),
    (hex_upper-IsTame (d % 16) (omega arith), Normal-NoWildcard n),
  ),
)

-- Normalising a second time changes nothing, for patterns and for targets.
pub normalize_path_idempotent :
    (preserve : Bool) (t : Text)
    → IsBytes t
    → normalize_path preserve (normalize_path preserve t) ≡ normalize_path preserve t
normalize_path_idempotent preserve t n =
    normalize_path-Normal preserve (Normal-normalize_path preserve t n)

-- How a byte is written does not matter for bytes that need no escape and for bytes outside ASCII:
-- an escape of such a byte, in digits of either case, is normalised as the byte itself.
pub normalize_path-escape_irrelevant :
    (preserve : Bool) (h l c : ℕ) (s : Text)
    → escaped h l ≡ some c
    → (is_unreserved c ≡ true) ⊎ (128 ≤ c)
    → normalize_path preserve (b'%' ∷ h ∷ l ∷ s) ≡ normalize_path preserve (c ∷ s)
normalize_path-escape_irrelevant preserve h l c s e kind =
    normalize_path-escaped preserve h l c s e
    ∙ ap (λ k. k ++ normalize_path preserve s) (same kind)
    ∙ sym (normalize_path-plain preserve c s (not_percent kind))
  where
    same : (is_unreserved c ≡ true) ⊎ (128 ≤ c) → escape c ≡ plain preserve c
    same (inl u) =
        escape_unreserved c u
        ∙ sym (Stays-plain preserve (unreserved-Stays preserve c (escaped-lt h l c e) u))
    same (inr big) = escape_kept c (not_unreserved c big) ∙ sym (plain_big preserve c big)

    not_percent : (is_unreserved c ≡ true) ⊎ (128 ≤ c) → c ≢ b'%'
    not_percent (inl u) = Stays-ne preserve (unreserved-Stays preserve c (escaped-lt h l c e) u)
    not_percent (inr big) = omega arith

-- A normalised target holds no wildcard of its own: neither `*` nor `$` nor a byte outside ASCII.
pub normalize_path-NoWildcard :
    (t : Text) → IsBytes t → All (λ b. (b ≢ b'*') × (b ≢ b'$') × (b < 128)) (normalize_path false t)
normalize_path-NoWildcard t n = Normal-NoWildcard (Normal-normalize_path false t n)
