-- ===== src/Cookies/SameSite.antt =====
-- `SameSite` of src/cdp/cookies.rs.
use plasmate.Common.{if◌then◌else◌}
use plasmate.Text.{Text, codes, text_eq, lowercase}

pub data SameSite : Type 0 where
  strict lax none : SameSite

unfoldable pub from_str : Text → SameSite
from_str s =
    if text_eq (lowercase s) (codes "strict")
    then strict
    else if text_eq (lowercase s) (codes "none")
    then none
    else lax

unfoldable pub as_str : SameSite → Text
as_str strict = codes "Strict"
as_str lax = codes "Lax"
as_str none = codes "None"
