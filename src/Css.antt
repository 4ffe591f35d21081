-- ===== src/Css.antt =====
-- Style sheets: `parse_css` of src/som/css_visibility.rs, with the rules for which it calls
-- `process_rule`, in order.
pub mod Laws
mod Tests
use plasmate.Common.{
  ℕ, zero, suc, ◌+◌, Bool, true, false, ◌&&◌, List, [], ◌∷◌, ◌++◌, ◌==◌, if◌then◌else◌,
}
use plasmate.Text.{Text, codes, trim}

-- The depth of the braces, which may be negative: `below n` is `-1 - n`.
pub data Depth : Type 0 where
  above below : ℕ → Depth

unfoldable pub deeper : Depth → Depth
deeper (above n) = above (n + 1)
deeper (below zero) = above 0
deeper (below (suc n)) = below n

unfoldable pub shallower : Depth → Depth
shallower (above zero) = below 0
shallower (above (suc n)) = above n
shallower (below n) = below (n + 1)

abbrev pub is_depth : ℕ → Depth → Bool
is_depth n (above m) = m == n
is_depth n (below m) = false

pub record Parsing : Type 0 where
  pub selector : Text
  pub in_block : Bool
  pub block_content : Text
  pub brace_depth : Depth
  pub rules : List (Text × Text)

unfoldable pub push_char : ℕ → Parsing → Parsing
push_char ch p =
    if p.in_block
    then record p { block_content = p.block_content ++ ch ∷ [] }
    else record p { selector = p.selector ++ ch ∷ [] }

unfoldable pub close_block : Parsing → Parsing
unfolding trim
close_block p = record p {
  in_block = false;
  selector = [];
  rules = p.rules ++ (trim p.selector, p.block_content) ∷ [];
}

unfoldable pub open_brace : Parsing → Parsing
unfolding push_char
open_brace p =
    if is_depth 1 p.brace_depth
    then record p { in_block = true; block_content = [] }
    else push_char b'{' p

unfoldable pub close_brace : Parsing → Parsing
unfolding push_char close_block
close_brace p = if is_depth 0 p.brace_depth && p.in_block then close_block p else push_char b'}' p

unfoldable pub parse_char : ℕ → Parsing → Parsing
unfolding open_brace close_brace push_char deeper shallower
parse_char ch p =
    if ch == b'{'
    then open_brace (record p { brace_depth = deeper p.brace_depth })
    else if ch == b'}'
    then close_brace (record p { brace_depth = shallower p.brace_depth })
    else push_char ch p

unfoldable pub parse_chars : Text → Parsing → Parsing
unfolding parse_char
parse_chars [] p = p
parse_chars (ch ∷ css) p = parse_chars css (parse_char ch p)

abbrev pub start : Parsing
start = record {
  selector = [];
  in_block = false;
  block_content = [];
  brace_depth = above 0;
  rules = [];
}

unfoldable pub parse_css : Text → List (Text × Text)
unfolding parse_chars
parse_css css = (parse_chars css start).rules
