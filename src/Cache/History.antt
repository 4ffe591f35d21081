-- ===== src/Cache/History.antt =====
-- Any sequence of calls on a cache, with what it was last given for each key: src/cache/store.rs.
use plasmate.Common.{ℕ, Option, none, some, List, [], ◌∷◌, length, if◌then◌else◌}
use plasmate.Text.{Text, text_eq}
use plasmate.Cache.{CacheEntry, CacheConfig, SomCache, init, lookup_key, lookup_any_key, store_key}

-- A call, at a time and on a key.
pub data Call : Type 0 where
  stores : ℕ → Text → ℕ → List ℕ → ℕ → Option (Text × Option (List ℕ)) → Call
  looks : ℕ → Text → ℕ → Call
  looks_any : ℕ → Text → Call

unfoldable pub step : SomCache → Call → SomCache
step c (stores now key hash json html page) = store_key now key hash json html page c
step c (looks now key hash) = (lookup_key now key hash c).0
step c (looks_any now key) = (lookup_any_key now key c).0

-- The newest call stands first.
unfoldable pub run : CacheConfig → List Call → SomCache
run config [] = init config
run config (call ∷ older) = step (run config older) call

-- What a store puts on record: all of an entry but the time of its last use and its count of hits.
pub record Stored : Type 0 where
  pub at : ℕ
  pub hash : ℕ
  pub json : List ℕ
  pub html : ℕ
  pub json_size : ℕ
  pub page_html : Option Text
  pub catalog : Option (List ℕ)

abbrev pub content : CacheEntry → Stored
content e = record {
  at = e.created_at;
  hash = e.content_hash;
  json = e.som_json;
  html = e.html_bytes;
  json_size = e.som_bytes;
  page_html = e.effective_html;
  catalog = e.webmcp_json;
}

-- The page state of a store, if it has one: the page as its scripts left it, and perhaps a catalog.
abbrev pub page_html_of : Option (Text × Option (List ℕ)) → Option Text
page_html_of none = none
page_html_of (some page) = some page.0

abbrev pub page_catalog_of : Option (Text × Option (List ℕ)) → Option (List ℕ)
page_catalog_of none = none
page_catalog_of (some page) = page.1

unfoldable pub last_store : Text → List Call → Option Stored
last_store k [] = none
last_store k (stores now key hash json html page ∷ older) =
    if text_eq key k
    then some (record {
      at = now;
      hash = hash;
      json = json;
      html = html;
      json_size = length json;
      page_html = page_html_of page;
      catalog = page_catalog_of page;
    })
    else last_store k older
last_store k (looks now key hash ∷ older) = last_store k older
last_store k (looks_any now key ∷ older) = last_store k older
