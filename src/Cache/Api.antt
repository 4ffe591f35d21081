-- ===== src/Cache/Api.antt =====
-- The public calls of the cache, by URL and selector: src/cache/store.rs.
pub mod Derived
use plasmate.Common.{
  ℕ, ◌+◌, ◌-◌, ◌≤◌, ◌≡◌, refl, Bool, true, false, Option, none, some, List, [], ◌∷◌, arith,
  if◌then◌else◌, length,
}
use plasmate.Text.{Text}
use plasmate.Cache.{
  CacheEntry, CacheLookup, hit, stale, miss, SomCache, lookup_key, lookup_any_key, store_key,
  store_page_state_with_webmcp,
}
use plasmate.Cache.Keys.{UrlApi, cache_key, normalized_selector}

module _ (U : UrlApi) where
  unfoldable pub lookup_with_selector :
      ℕ → Text → ℕ → Option Text → SomCache → SomCache × CacheLookup
  lookup_with_selector now url content_hash selector c =
      lookup_key now (cache_key U url selector) content_hash c

  unfoldable pub lookup : ℕ → Text → ℕ → SomCache → SomCache × CacheLookup
  unfolding lookup_with_selector
  lookup now url content_hash c = lookup_with_selector now url content_hash none c

  unfoldable pub lookup_any_with_selector :
      ℕ → Text → Option Text → SomCache → SomCache × Option CacheEntry
  lookup_any_with_selector now url selector c = lookup_any_key now (cache_key U url selector) c

  unfoldable pub lookup_any : ℕ → Text → SomCache → SomCache × Option CacheEntry
  lookup_any now url c = lookup_any_with_selector now url none c

  unfoldable pub store_with_selector : ℕ → Text → ℕ → Option Text → List ℕ → ℕ → SomCache → SomCache
  store_with_selector now url content_hash selector som_json html_bytes c =
      store_key now (cache_key U url selector) content_hash som_json html_bytes none c

  unfoldable pub store : ℕ → Text → ℕ → List ℕ → ℕ → SomCache → SomCache
  store now url content_hash som_json html_bytes c =
      store_with_selector now url content_hash none som_json html_bytes c

  unfoldable pub store_page_state : ℕ → Text → ℕ → List ℕ → ℕ → Text → SomCache → SomCache
  store_page_state now url content_hash som_json html_bytes effective_html c =
      store_key now (cache_key U url none) content_hash som_json html_bytes
        (some (effective_html, none)) c

  unfoldable pub store_full_page_state :
      ℕ → Text → ℕ → List ℕ → ℕ → Text → List ℕ → SomCache → SomCache
  store_full_page_state now url content_hash som_json html_bytes effective_html webmcp_json c =
      store_page_state_with_webmcp now (cache_key U url none) content_hash som_json html_bytes
        effective_html webmcp_json c

  -- The filter of a page by a selector, from JSON to JSON: it fails where the page cannot be read or the
  -- result not be written.
  module _ (filter : List ℕ → Text → Option (List ℕ)) where
    unfoldable pub derive : ℕ → Text → ℕ → Text → CacheEntry → SomCache → SomCache × CacheLookup
    derive now url content_hash selector full_entry c = elim (filter full_entry.som_json selector) [
      | none ↦ (c, hit full_entry)
      | some filtered ↦ lookup_with_selector now url content_hash (some selector) (
          store_with_selector now url content_hash (some selector) filtered full_entry.html_bytes c)
    ]

    unfoldable pub filter_full :
        ℕ → Text → ℕ → Text → SomCache × CacheLookup → SomCache × CacheLookup
    filter_full now url content_hash selector (c, hit full_entry) =
        derive now url content_hash selector full_entry c
    filter_full now url content_hash selector (c, stale old_hash new_hash) =
        (c, stale old_hash new_hash)
    filter_full now url content_hash selector (c, miss) = (c, miss)

    unfoldable pub after_lookup :
        ℕ → Text → ℕ → Option Text → SomCache × CacheLookup → SomCache × CacheLookup
    after_lookup now url content_hash none (c, found) = (c, found)
    after_lookup now url content_hash (some selector) (c, hit e) = (c, hit e)
    after_lookup now url content_hash (some selector) (c, stale old_hash new_hash) =
        (c, stale old_hash new_hash)
    after_lookup now url content_hash (some selector) (c, miss) =
        filter_full now url content_hash selector (lookup now url content_hash c)

    unfoldable pub lookup_or_filter_selector :
        ℕ → Text → ℕ → Option Text → SomCache → SomCache × CacheLookup
    lookup_or_filter_selector now url content_hash selector c =
        after_lookup now url content_hash (normalized_selector selector)
          (lookup_with_selector now url content_hash selector c)
