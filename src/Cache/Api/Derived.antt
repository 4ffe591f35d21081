-- ===== src/Cache/Api/Derived.antt =====
-- Pages filtered out of a cached full page: `lookup_or_filter_selector` of src/cache/store.rs.
use plasmate.Common.{ℕ, ◌≡◌, refl, Option, none, some, List, arith, inl, inr}
use plasmate.Text.{Text}
use plasmate.Cache.{CacheEntry, CacheLookup, hit, stale, miss, SomCache, touch, new_entry}
use plasmate.Cache.Keys.{UrlApi, cache_key, normalized_selector}
use plasmate.Cache.Lookups.{lookup_key-store_key}
use plasmate.Cache.Api.{
  lookup_with_selector, lookup, store_with_selector, derive, filter_full, after_lookup,
  lookup_or_filter_selector,
}

stored_is_found :
    (U : UrlApi) (now : ℕ) (url : Text) (hash : ℕ) (s json : List ℕ) (html : ℕ) (c : SomCache)
    → (lookup_with_selector U now url hash
        (some s)
        (store_with_selector U now url hash (some s) json html c)).1
      ≡ hit (touch now (new_entry now hash json html none))
unfolding lookup_with_selector store_with_selector
stored_is_found U now url hash s json html c =
    elim (lookup_key-store_key now now (cache_key U url (some s)) hash hash json html none c
      (omega arith)) [ inl (same, found) ↦ found | inr (other, found) ↦ absurd (other refl) ]

after-miss :
    (U : UrlApi) (filter : List ℕ → Text → Option (List ℕ)) (now : ℕ) (url : Text) (hash : ℕ)
    (s json : List ℕ) (full : CacheEntry) (found whole : SomCache × CacheLookup)
    → found.1 ≡ miss
    → lookup U now url hash found.0 ≡ whole
    → whole.1 ≡ hit full
    → filter full.som_json s ≡ some json
    → (after_lookup U filter now url hash (some s) found).1
      ≡ hit (touch now (new_entry now hash json full.html_bytes none))
unfolding after_lookup filter_full derive
after-miss U filter now url hash s json full (c, hit e) whole m l w f = cc
after-miss U filter now url hash s json full (c, stale a b) whole m l w f = cc
after-miss U filter now url hash s json full (c, miss) (d, miss) m l w f = cc
after-miss U filter now url hash s json full (c, miss) (d, stale a b) m l w f = cc
after-miss U filter now url hash s json full (c, miss) (d, hit e) m l w f =
    let same : e ≡ full = cc in
    rw l (rw same (rw (f, derive) (stored_is_found U now url hash s json full.html_bytes d)))

-- Where the page of a selector is not held but a fresh full page with the content hash asked for is, and
-- the filter succeeds on it, the call answers with the filtered page, under that hash, made now.
pub lookup_or_filter_selector-derived :
    (U : UrlApi) (filter : List ℕ → Text → Option (List ℕ)) (now : ℕ) (url : Text) (hash : ℕ)
    (selector : Option Text) (s json : List ℕ) (full : CacheEntry) (c : SomCache)
    → normalized_selector selector ≡ some s
    → (lookup_with_selector U now url hash selector c).1 ≡ miss
    → (lookup U now url hash (lookup_with_selector U now url hash selector c).0).1 ≡ hit full
    → filter full.som_json s ≡ some json
    → (lookup_or_filter_selector U filter now url hash selector c).1
      ≡ hit (touch now (new_entry now hash json full.html_bytes none))
unfolding lookup_or_filter_selector
lookup_or_filter_selector-derived U filter now url hash selector s json full c n m w f =
    rw n (after-miss U filter now url hash s json full _ _ m refl w f)
