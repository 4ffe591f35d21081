-- ===== src/Cache/Tests.antt =====
-- Runs of the cache on concrete calls.
use plasmate.Common.{Option, ℕ, ◌-◌, ◌≤◌, ◌≡◌, refl, false, none, some, List, [], ◌∷◌}
use plasmate.Text.{Text, codes, text_eq}
use plasmate.Assoc.{get, insert, remove}
use plasmate.Cache.{
  make_room, least_recent, CacheEntry, CacheConfig, SomCache, init, lookup_key, lookup_entry,
  store_key, evict_lru, touch, new_entry,
}
use plasmate.Cache.Keys.{UrlApi}
use plasmate.Cache.History.{Call, stores, looks, run, step, last_store, content}
use plasmate.Cache.Bounded.{Bounded, run-Bounded}
use plasmate.Cache.Lookups.{lookup_key-hit}

abbrev one_entry : CacheConfig
one_entry = record {
  max_hot_entries = 1;
  max_age = 300;
  prefetch_enabled = false;
  prefetch_concurrency = 4;
}

abbrev page : Text
page = codes "http://a/"

abbrev shown : Option (Text × Option (List ℕ))
shown = some (codes "<p>", some (5 ∷ []))

-- The newest first: a page is stored, another one takes its place, and the first is stored again.
abbrev calls : List Call
calls =
    stores 7 page 42 (1 ∷ 2 ∷ []) 90 shown
    ∷ looks 6 page 41
    ∷ stores 5 (codes "http://b/") 40 [] 10 none
    ∷ stores 3 page 41 (1 ∷ []) 80 none
    ∷ []

run-Bounded_example : Bounded (run one_entry calls)
run-Bounded_example = run-Bounded one_entry calls

abbrev found : CacheEntry
found = touch 9 (new_entry 7 42 (1 ∷ 2 ∷ []) 90 shown)

lookup_key-hit_example :
    (last_store page calls ≡ some (content found))
    × (found.content_hash ≡ 42)
    × (found.last_accessed ≡ 9)
    × (9 - found.created_at ≤ 300)
unfolding touch new_entry run init lookup_key lookup_entry store_key get step insert remove
    evict_lru make_room text_eq least_recent
lookup_key-hit_example = lookup_key-hit one_entry calls 9 page 42 found refl

abbrev hash : ℕ
hash = 42

abbrev held : CacheEntry
held = new_entry 3 41 [] 80 none

abbrev full : SomCache
full = record (init one_entry) { entries = (page, held) ∷ [] }

-- URLs that are their own normal form.
abbrev plain_urls : UrlApi
plain_urls = record {
  Url = Text;
  parse = some;
  print = λ u. u;
  path = λ u. codes "/";
  set_path = λ u p. u;
  without_fragment = λ u. u;
}

abbrev filtered : List ℕ → Text → Option (List ℕ)
filtered json selector = some []

abbrev whole : CacheEntry
whole = touch 9 held
