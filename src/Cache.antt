-- ===== src/Cache.antt =====
-- The SOM cache: src/cache/store.rs.
--
-- The time of a call is its argument `now`, and every `Instant::now()` of the call reads it; a length
-- of time is a difference of two times. The counters of the statistics are 64 bits wide.
pub mod Keys
pub mod History
pub mod Lookups
pub mod Bounded
pub mod Api
mod Tests
use plasmate.Common.{
  ℕ, ◌+◌, ◌-◌, ◌%◌, ◌^◌, Bool, true, false, not, ◌&&◌, Option, none, some, List, [], ◌∷◌, leb, ltb,
  ◌==◌, if◌then◌else◌, length,
}
use plasmate.Text.{Text}
use plasmate.Assoc.{get, insert, remove}

pub record CacheEntry : Type 0 where
  pub som_json : List ℕ
  pub content_hash : ℕ
  pub created_at : ℕ
  pub last_accessed : ℕ
  pub html_bytes : ℕ
  pub som_bytes : ℕ
  pub effective_html : Option Text
  pub webmcp_json : Option (List ℕ)
  pub hit_count : ℕ

pub data CacheLookup : Type 0 where
  hit : CacheEntry → CacheLookup
  stale : ℕ → ℕ → CacheLookup
  miss : CacheLookup

pub record CacheConfig : Type 0 where
  pub max_hot_entries : ℕ
  pub max_age : ℕ
  pub prefetch_enabled : Bool
  pub prefetch_concurrency : ℕ

pub record CacheStats : Type 0 where
  pub hits : ℕ
  pub stale_hits : ℕ
  pub misses : ℕ
  pub evictions : ℕ
  pub total_som_bytes_served : ℕ
  pub total_webmcp_bytes_served : ℕ
  pub total_html_bytes_avoided : ℕ

pub record SomCache : Type 0 where
  pub config : CacheConfig
  pub entries : List (Text × CacheEntry)
  pub stats : CacheStats

unfoldable pub init : CacheConfig → SomCache
init config = record {
  config = config;
  entries = [];
  stats = record {
    hits = 0;
    stale_hits = 0;
    misses = 0;
    evictions = 0;
    total_som_bytes_served = 0;
    total_webmcp_bytes_served = 0;
    total_html_bytes_avoided = 0;
  };
}

-- `+=` on a `u64`
abbrev pub add_u64 : ℕ → ℕ → ℕ
add_u64 a b = (a + b) % 2 ^ 64

abbrev pub bytes_of : Option (List ℕ) → ℕ
bytes_of none = 0
bytes_of (some b) = length b

unfoldable pub count_miss : CacheStats → CacheStats
count_miss s = record s { misses = add_u64 s.misses 1 }

unfoldable pub count_stale : CacheStats → CacheStats
count_stale s = record s { stale_hits = add_u64 s.stale_hits 1 }

unfoldable pub count_hit : CacheEntry → CacheStats → CacheStats
count_hit e s = record s {
  hits = add_u64 s.hits 1;
  total_som_bytes_served = add_u64 s.total_som_bytes_served e.som_bytes;
  total_webmcp_bytes_served = add_u64 s.total_webmcp_bytes_served (bytes_of e.webmcp_json);
  total_html_bytes_avoided = add_u64 s.total_html_bytes_avoided e.html_bytes;
}

unfoldable pub touch : ℕ → CacheEntry → CacheEntry
touch now e = record e { last_accessed = now; hit_count = add_u64 e.hit_count 1 }

-- `entry.created_at.elapsed() > self.config.max_age`
abbrev pub is_expired : ℕ → CacheConfig → CacheEntry → Bool
is_expired now config e = ltb config.max_age (now - e.created_at)

abbrev pub missed : SomCache → SomCache
missed c = record c { stats = count_miss c.stats }

abbrev pub served : ℕ → Text → CacheEntry → SomCache → SomCache
served now key e c = record c {
  entries = insert key (touch now e) c.entries;
  stats = count_hit e c.stats;
}

abbrev pub dropped : Text → SomCache → SomCache
dropped key c = record c { entries = remove key c.entries }

-- The body of `lookup_with_selector`, at the key of the URL and the selector.
unfoldable pub lookup_entry : ℕ → Text → ℕ → CacheEntry → SomCache → SomCache × CacheLookup
lookup_entry now key content_hash e c =
    if is_expired now c.config e
    then (dropped key (missed c), miss)
    else if e.content_hash == content_hash
    then (served now key e c, hit (touch now e))
    else (record c { stats = count_stale c.stats }, stale e.content_hash content_hash)

unfoldable pub lookup_key : ℕ → Text → ℕ → SomCache → SomCache × CacheLookup
lookup_key now key content_hash c = elim (get key c.entries) [
  | none ↦ (missed c, miss)
  | some e ↦ lookup_entry now key content_hash e c
]

-- The body of `lookup_any_with_selector`.
unfoldable pub lookup_any_entry : ℕ → Text → CacheEntry → SomCache → SomCache × Option CacheEntry
lookup_any_entry now key e c =
    if not (is_expired now c.config e)
    then (served now key e c, some (touch now e))
    else (missed (dropped key c), none)

unfoldable pub lookup_any_key : ℕ → Text → SomCache → SomCache × Option CacheEntry
lookup_any_key now key c = elim (get key c.entries) [
  | none ↦ (missed c, none)
  | some e ↦ lookup_any_entry now key e c
]

-- `entries.iter().min_by_key(|(_, e)| e.last_accessed)`: the first of the least.
unfoldable pub least_recent : List (Text × CacheEntry) → Option (Text × CacheEntry)
least_recent [] = none
least_recent (x ∷ m) = elim (least_recent m) [
  | none ↦ some x
  | some y ↦ if leb x.1.last_accessed y.1.last_accessed then some x else some y
]

unfoldable pub evict_lru : SomCache → SomCache
unfolding least_recent
evict_lru c = elim (least_recent c.entries) [
  | none ↦ c
  | some (key, _) ↦ record c {
    entries = remove key c.entries;
    stats = record (c.stats) { evictions = add_u64 c.stats.evictions 1 };
  }
]

abbrev pub is_some : {A : Type 0} → Option A → Bool
is_some none = false
is_some (some a) = true

unfoldable pub make_room : Text → SomCache → SomCache
make_room key c =
    if not (is_some (get key c.entries)) && leb c.config.max_hot_entries (length c.entries)
    then evict_lru c
    else c

abbrev html_of : Option (Text × Option (List ℕ)) → Option Text
html_of none = none
html_of (some (html, catalog)) = some html

abbrev catalog_of : Option (Text × Option (List ℕ)) → Option (List ℕ)
catalog_of none = none
catalog_of (some (html, catalog)) = catalog

unfoldable pub new_entry : ℕ → ℕ → List ℕ → ℕ → Option (Text × Option (List ℕ)) → CacheEntry
new_entry now content_hash som_json html_bytes page_state = record {
  som_json = som_json;
  content_hash = content_hash;
  created_at = now;
  last_accessed = now;
  html_bytes = html_bytes;
  som_bytes = length som_json;
  effective_html = html_of page_state;
  webmcp_json = catalog_of page_state;
  hit_count = 0;
}

-- `store_with_selector_and_effective_html`, at the key.
unfoldable pub store_key :
    ℕ → Text → ℕ → List ℕ → ℕ → Option (Text × Option (List ℕ)) → SomCache → SomCache
unfolding new_entry
store_key now key content_hash som_json html_bytes page_state c =
    let room = make_room key c in
    record room {
      entries = insert key (new_entry now content_hash som_json html_bytes page_state) room.entries;
    }

-- `MAX_CATALOG_BYTES` of src/webmcp.rs
abbrev pub max_catalog_bytes : ℕ
max_catalog_bytes = 262144

-- `store_page_state_with_webmcp`: a catalog above the bound is left out.
unfoldable pub store_page_state_with_webmcp :
    ℕ → Text → ℕ → List ℕ → ℕ → Text → List ℕ → SomCache → SomCache
store_page_state_with_webmcp now key content_hash som_json html_bytes html catalog c =
    store_key now key content_hash som_json html_bytes
      (some (html, if leb (length catalog) max_catalog_bytes then some catalog else none)) c
