-- ===== src/Cache/Bounded.antt =====
-- The size of the cache, and what is evicted: src/cache/store.rs.
use Prim.Native.Nat.{max}
use plasmate.Common.{
  ℕ, ◌+◌, ◌≤◌, ◌≡◌, ◌⊎◌, refl, ap, ◌∙◌, Bool, true, false, Option, none, some, List, [], ◌∷◌, arith,
  if◌then◌else◌, length, All, In, Bool-cases, Option-cases, inl, inr, leb, ◌==◌,
}
use plasmate.Text.{Text, text_eq, text_eq_refl}
use plasmate.Assoc.{get, insert, remove}
use plasmate.Assoc.Laws.{
  IsMap, get-remove, insert-IsMap, remove-IsMap, length-insert_new, length-insert_old,
  length-remove_old, length-remove-le,
}
use plasmate.Cache.{
  CacheEntry, CacheConfig, SomCache, init, lookup_entry, lookup_key, lookup_any_entry,
  lookup_any_key, store_key, evict_lru, least_recent, make_room, new_entry, is_expired, touch,
}
use plasmate.Cache.History.{Call, stores, looks, looks_any, step, run}

-- The entry that was read least recently: one of the entries, and no other was read before it.
pub record IsLeastRecent (k : Text) (e : CacheEntry) (m : List (Text × CacheEntry)) : Type 0 where
  pub held : In (k, e) m
  pub oldest : All (λ x. e.last_accessed ≤ x.1.last_accessed) m

All-le :
    (a b : ℕ) (m : List (Text × CacheEntry))
    → a ≤ b
    → All (λ x. b ≤ x.1.last_accessed) m
    → All (λ x. a ≤ x.1.last_accessed) m
All-le a b [] h k = tt
All-le a b (x ∷ m) h (k, ks) = (omega arith, All-le a b m h ks)

least_recent-IsLeastRecent :
    (x : Text × CacheEntry) (m : List (Text × CacheEntry))
    → (k : Text) × (e : CacheEntry) × (least_recent (x ∷ m) ≡ some (k, e))
      × IsLeastRecent k e (x ∷ m)
unfolding least_recent
least_recent-IsLeastRecent (k, e) [] =
    (k, e, refl, record { held = inl refl; oldest = (omega arith, tt) })
least_recent-IsLeastRecent (k, e) (y ∷ m) =
    let (j, f, found, least) = least_recent-IsLeastRecent y m in
    elim (Bool-cases (leb e.last_accessed f.last_accessed)) [
      | inl first ↦ (
        k,
        e,
        rw (found, first) refl,
        record {
          held = inl refl;
          oldest = (
            omega arith,
            All-le e.last_accessed f.last_accessed (y ∷ m) (ground arith) least.oldest,
          );
        },
      )
      | inr later ↦ (
        j,
        f,
        rw (found, later) refl,
        record { held = inr least.held; oldest = (ground arith, least.oldest) },
      )
    ]

get_of_In :
    (k : Text) (e : CacheEntry) (m : List (Text × CacheEntry))
    → In (k, e) m
    → (v : CacheEntry) × (get k m ≡ some v)
unfolding get
get_of_In k e [] i = absurd i
get_of_In k e ((j, w) ∷ m) (inl same) =
    let keys : k ≡ j = ap (λ p. p.0) same in (w, rw (keys, text_eq_refl j) refl)
get_of_In k e ((j, w) ∷ m) (inr i) = elim (Bool-cases (text_eq j k)) [
  | inl t ↦ (w, rw t refl)
  | inr t ↦ let (v, found) = get_of_In k e m i in (v, rw t found)
]

-- What an eviction does: it takes out the entry that was read least recently.
pub record Evicted (c c' : SomCache) : Type 0 where
  pub key : Text
  pub entry : CacheEntry
  pub least : IsLeastRecent key entry c.entries
  pub left : c'.entries ≡ remove key c.entries
  pub config_same : c'.config ≡ c.config

-- On a cache with entries, `evict_lru` takes out the entry of one key, no other entry was read
-- before that one, and the configuration stays.
pub evict_lru-Evicted :
    (c : SomCache) (x : Text × CacheEntry) (m : List (Text × CacheEntry))
    → c.entries ≡ x ∷ m
    → Evicted c (evict_lru c)
unfolding evict_lru
evict_lru-Evicted c x m e =
    let (k, f, found, least) = least_recent-IsLeastRecent x m in
    let found_here : least_recent c.entries ≡ some (k, f) = ap least_recent e ∙ found in
    rw (found_here, evict_lru)
      (record { key = k; entry = f; least = rw e least; left = refl; config_same = refl })

-- The keys are distinct, and there is room for at most the configured number of entries, or for one
-- where the configuration says none.
pub record Bounded (c : SomCache) : Type 0 where
  pub distinct : IsMap c.entries
  pub within : length c.entries ≤ max 1 c.config.max_hot_entries

-- What a store of a key leaves to be filled in: the key is held, or there is room for it.
record HasRoom (key : Text) (c : SomCache) : Type 0 where
  distinct : IsMap c.entries
  room :
      ((v : CacheEntry) × (get key c.entries ≡ some v)
        × (length c.entries ≤ max 1 c.config.max_hot_entries))
      ⊎ ((get key c.entries ≡ none) × (length c.entries + 1 ≤ max 1 c.config.max_hot_entries))

get_absent-remove :
    (key k : Text) (m : List (Text × CacheEntry))
    → IsMap m
    → get key m ≡ none
    → get key (remove k m) ≡ none
get_absent-remove key k m u h = get-remove k key m u ∙ both (text_eq k key)
  where
    both : (b : Bool) → (if b then none else get key m) ≡ none
    both true = refl
    both false = h

Evicted-HasRoom :
    (key : Text) (c c' : SomCache)
    → Bounded c
    → get key c.entries ≡ none
    → Evicted c c'
    → HasRoom key c'
Evicted-HasRoom key c c' b new ev =
    let (v, held) = get_of_In ev.key ev.entry c.entries ev.least.held in
    record {
      distinct = rw ev.left (remove-IsMap ev.key c.entries b.distinct);
      room = inr (
        ap (get key) ev.left ∙ get_absent-remove key ev.key c.entries b.distinct new,
        omega (
          arith,
          b.within,
          ap length ev.left,
          ap (λ k. k.max_hot_entries) ev.config_same,
          length-remove_old ev.key v c.entries held,
        ),
      );
    }

pub evict_lru-empty : (c : SomCache) → c.entries ≡ [] → evict_lru c ≡ c
unfolding evict_lru least_recent
evict_lru-empty c e =
    let nothing : least_recent c.entries ≡ none = ap least_recent e in rw (nothing, evict_lru) refl

make_room-HasRoom : (key : Text) (c : SomCache) → Bounded c → HasRoom key (make_room key c)
unfolding make_room
make_room-HasRoom key c b = elim (Option-cases (get key c.entries)) [
  | inr (v, held) ↦ rw held (record { distinct = b.distinct; room = inl (v, held, b.within) })
  | inl new ↦ elim (Bool-cases (leb c.config.max_hot_entries (length c.entries))) [
    | inr room ↦ rw (new, room) (record { distinct = b.distinct; room = inr (new, ground arith) })
    | inl full ↦ rw (new, full) (by_entries c.entries refl new full)
  ]
]
  where
    by_entries :
        (m : List (Text × CacheEntry))
        → c.entries ≡ m
        → get key c.entries ≡ none
        → leb c.config.max_hot_entries (length c.entries) ≡ true
        → HasRoom key (evict_lru c)
    by_entries [] e new full =
        rw (evict_lru-empty c e)
          (record { distinct = b.distinct; room = inr (new, omega (arith, ap length e)) })
    by_entries (x ∷ m) e new full = Evicted-HasRoom key c _ b new (evict_lru-Evicted c x m e)

pub make_room-config : (key : Text) (c : SomCache) → (make_room key c).config ≡ c.config
unfolding make_room evict_lru
make_room-config key c = ground arith

insert-Bounded :
    (key : Text) (e : CacheEntry) (c : SomCache)
    → HasRoom key c
    → Bounded (record c { entries = insert key e c.entries })
insert-Bounded key e c h = record {
  distinct = insert-IsMap key e c.entries h.distinct;
  within = elim h.room [
    | inl (v, held, w) ↦ omega (arith, length-insert_old key e v c.entries held)
    | inr (new, w) ↦ omega (arith, length-insert_new key e c.entries new)
  ];
}

store_key-Bounded :
    (now : ℕ) (key : Text) (hash : ℕ) (json : List ℕ) (html : ℕ)
    (page : Option (Text × Option (List ℕ))) (c : SomCache)
    → Bounded c
    → Bounded (store_key now key hash json html page c)
unfolding store_key
store_key-Bounded now key hash json html page c b =
    insert-Bounded key (new_entry now hash json html page) (make_room key c)
      (make_room-HasRoom key c b)

served-Bounded :
    (key : Text) (e v : CacheEntry) (c : SomCache)
    → Bounded c
    → get key c.entries ≡ some v
    → Bounded (record c { entries = insert key e c.entries })
served-Bounded key e v c b held =
    insert-Bounded key e c (record { distinct = b.distinct; room = inl (v, held, b.within) })

lookup_key-Bounded :
    (now : ℕ) (key : Text) (hash : ℕ) (c : SomCache)
    → Bounded c
    → Bounded (lookup_key now key hash c).0
unfolding lookup_key lookup_entry
lookup_key-Bounded now key hash c b = elim (Option-cases (get key c.entries)) [
  | inl e ↦ rw (e, lookup_key) (record { distinct = b.distinct; within = b.within })
  | inr (v, held) ↦ elim (Bool-cases (is_expired now c.config v)) [
    | inl old ↦
        rw (held, old, lookup_key)
          (record {
            distinct = remove-IsMap key c.entries b.distinct;
            within = omega (arith, b.within, length-remove-le key c.entries);
          })
    | inr young ↦ elim (Bool-cases (v.content_hash == hash)) [
      | inl same ↦
          let s = served-Bounded key (touch now v) v c b held in
          rw (held, young, same, lookup_key) (record { distinct = s.distinct; within = s.within })
      | inr other ↦
          rw (held, young, other, lookup_key) (record { distinct = b.distinct; within = b.within })
    ]
  ]
]

lookup_any_key-Bounded :
    (now : ℕ) (key : Text) (c : SomCache) → Bounded c → Bounded (lookup_any_key now key c).0
unfolding lookup_any_key lookup_any_entry
lookup_any_key-Bounded now key c b = elim (Option-cases (get key c.entries)) [
  | inl e ↦ rw (e, lookup_any_key) (record { distinct = b.distinct; within = b.within })
  | inr (v, held) ↦ elim (Bool-cases (is_expired now c.config v)) [
    | inl old ↦
        rw (held, old, lookup_any_key)
          (record {
            distinct = remove-IsMap key c.entries b.distinct;
            within = omega (arith, b.within, length-remove-le key c.entries);
          })
    | inr young ↦
        let s = served-Bounded key (touch now v) v c b held in
        rw (held, young, lookup_any_key) (record { distinct = s.distinct; within = s.within })
  ]
]

-- Every call keeps the keys distinct and the number of entries within the configured maximum, or
-- within one entry if the maximum is 0.
pub run-Bounded : (config : CacheConfig) (cs : List Call) → Bounded (run config cs)
unfolding run step init
run-Bounded config [] = record { distinct = tt; within = omega arith }
run-Bounded config (stores now key hash json html page ∷ older) =
    store_key-Bounded now key hash json html page (run config older) (run-Bounded config older)
run-Bounded config (looks now key hash ∷ older) =
    lookup_key-Bounded now key hash (run config older) (run-Bounded config older)
run-Bounded config (looks_any now key ∷ older) =
    lookup_any_key-Bounded now key (run config older) (run-Bounded config older)
