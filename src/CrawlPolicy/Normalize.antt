-- ===== src/CrawlPolicy/Normalize.antt =====
-- Percent-encoding of paths and patterns: `normalize_path` of src/crawl_policy.rs. A byte is a number
-- below 256.
pub mod Bytes
pub mod Laws
use plasmate.Common.{
  ℕ, suc, ◌+◌, ◌-◌, ◌*◌, ◌/◌, ◌%◌, Bool, true, false, not, ◌&&◌, ◌||◌, Option, none, some, List, [],
  ◌∷◌, ◌++◌, leb, ltb, ◌==◌, ◌≡◌, refl, if◌then◌else◌,
}
use plasmate.Text.{Text, codes, is_alphabetic, is_digit}

unfoldable pub hex_value : ℕ → Option ℕ
hex_value byte =
    if is_digit byte
    then some (byte - b'0')
    else if leb b'a' byte && leb byte b'f'
    then some (byte - b'a' + 10)
    else if leb b'A' byte && leb byte b'F'
    then some (byte - b'A' + 10)
    else none

-- `b"0123456789ABCDEF"[value]`
unfoldable pub hex_upper : ℕ → ℕ
hex_upper value = if ltb value 10 then b'0' + value else b'A' + (value - 10)

unfoldable pub is_unreserved : ℕ → Bool
is_unreserved byte =
    is_alphabetic byte
    || is_digit byte
    || byte == b'-'
    || byte == b'.'
    || byte == b'_'
    || byte == b'~'

unfoldable pub percent : ℕ → Text
unfolding hex_upper
percent byte = b'%' ∷ hex_upper (byte / 16) ∷ hex_upper (byte % 16) ∷ []

-- What an escape `%hl` is replaced by.
unfoldable pub escape : ℕ → Text
unfolding is_unreserved percent
escape decoded = if is_unreserved decoded then decoded ∷ [] else percent decoded

-- What a byte outside an escape is replaced by.
unfoldable pub plain : Bool → ℕ → Text
unfolding percent
plain preserve byte =
    if ltb byte 128
    then (if byte == b'%'
        then codes "%25"
        else if preserve && (byte == b'*' || byte == b'$')
        then byte ∷ []
        else if not preserve && (byte == b'*' || byte == b'$')
        then percent byte
        else byte ∷ [])
    else percent byte

-- The value of the escape whose two digits stand at the head, if both are hexadecimal.
unfoldable pub escaped : ℕ → ℕ → Option ℕ
unfolding hex_value
escaped h l = elim (hex_value h) [
  | none ↦ none
  | some high ↦ elim (hex_value l) [ none ↦ none | some low ↦ some (high * 16 + low) ]
]

unfoldable pub normalize_path : Bool → Text → Text
normalize_path preserve [] = []
normalize_path preserve (byte ∷ []) = plain preserve byte
normalize_path preserve (byte ∷ h ∷ []) = plain preserve byte ++ plain preserve h
normalize_path preserve (byte ∷ h ∷ l ∷ rest) =
    let next = normalize_path preserve (h ∷ l ∷ rest) in
    let after = normalize_path preserve rest in
    if byte == b'%'
    then elim (escaped h l) [ none ↦ plain preserve byte ++ next | some d ↦ escape d ++ after ]
    else plain preserve byte ++ next

normalize_test : normalize_path false (codes "/%7euser/%2f%2A*%") ≡ codes "/~user/%2F%2A%2A%25"
unfolding normalize_path escape plain escaped
normalize_test = refl
