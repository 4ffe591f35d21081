-- ===== src/Cache/Lookups.antt =====
-- What a lookup may answer: src/cache/store.rs.
use plasmate.Common.{
  ℕ, ◌-◌, ◌≤◌, ◌≡◌, ◌≢◌, ◌⊎◌, refl, ap, sym, ◌∙◌, false, not, ◌&&◌, Option, none, some, List, [],
  ◌∷◌, arith, length, Bool-cases, Option-cases, inl, inr, eq_of_some, leb, ◌==◌,
}
use plasmate.Text.{Text, text_eq, text_eq_iff}
use plasmate.Assoc.{get, insert, remove}
use plasmate.Assoc.Laws.{
  IsMap, get-insert_self, get-insert_same, get-insert_other, get-remove_same, get-remove_other,
}
use plasmate.Cache.{
  CacheEntry, hit, stale, miss, CacheConfig, SomCache, init, lookup_entry, lookup_key,
  lookup_any_entry, lookup_any_key, store_key, evict_lru, make_room, is_some, new_entry, is_expired,
  touch,
}
use plasmate.Cache.History.{
  Call, stores, looks, looks_any, step, run, content, last_store, page_html_of, page_catalog_of,
}
use plasmate.Cache.Bounded.{
  Bounded, run-Bounded, Evicted, evict_lru-Evicted, evict_lru-empty, make_room-config,
}

-- An entry held is what was last stored for its key.
abbrev Agrees : SomCache → List Call → Type 0
Agrees c cs =
    (k : Text) (e : CacheEntry) → get k c.entries ≡ some e → last_store k cs ≡ some (content e)

-- A map with entries taken out.
abbrev Fewer : List (Text × CacheEntry) → List (Text × CacheEntry) → Type 0
Fewer m m' = (k : Text) (e : CacheEntry) → get k m' ≡ some e → get k m ≡ some e

remove-Fewer : (key : Text) (m : List (Text × CacheEntry)) → IsMap m → Fewer m (remove key m)
remove-Fewer key m u k e h = elim (Bool-cases (text_eq key k)) [
  | inl t ↦ let bad : none ≡ some e = sym (get-remove_same key k m u t) ∙ h in cc
  | inr t ↦ sym (get-remove_other key k m u t) ∙ h
]

touched :
    (now : ℕ) (key : Text) (v : CacheEntry) (c : SomCache) (cs : List Call)
    → get key c.entries ≡ some v
    → Agrees c cs
    → (k : Text) (e : CacheEntry) → get k (insert key (touch now v) c.entries) ≡ some e
    → last_store k cs ≡ some (content e)
unfolding touch
touched now key v c cs held a k e h = elim (Bool-cases (text_eq key k)) [
  | inl t ↦
      let same : key ≡ k = (text_eq_iff key k).0 t in
      let it : touch now v ≡ e =
        eq_of_some (sym (get-insert_same key k (touch now v) c.entries t) ∙ h) in
      ap (λ j. last_store j cs) (sym same) ∙ a key v held ∙ ap (λ x. some (content x)) it
  | inr t ↦ a k e (sym (get-insert_other key k (touch now v) c.entries t) ∙ h)
]

Evicted-Fewer : (c c' : SomCache) → Bounded c → Evicted c c' → Fewer c.entries c'.entries
Evicted-Fewer c c' b ev k e h =
    remove-Fewer ev.key c.entries b.distinct k e (ap (get k) (sym ev.left) ∙ h)

evict_lru-Fewer :
    (c : SomCache) (m : List (Text × CacheEntry))
    → c.entries ≡ m
    → Bounded c
    → Fewer c.entries (evict_lru c).entries
evict_lru-Fewer c [] q b k e h = ap (get k) (sym (ap (λ d. d.entries) (evict_lru-empty c q))) ∙ h
evict_lru-Fewer c (x ∷ m) q b k e h =
    Evicted-Fewer c (evict_lru c) b (evict_lru-Evicted c x m q) k e h

make_room-Fewer :
    (key : Text) (c : SomCache) → Bounded c → Fewer c.entries (make_room key c).entries
unfolding make_room
make_room-Fewer key c b k e h =
    elim (Bool-cases
      (not (is_some (get key c.entries)) && leb c.config.max_hot_entries (length c.entries))) [
        | inl full ↦ evict_lru-Fewer c c.entries refl b k e (rw full at h)
        | inr room ↦ rw room at h
      ]

new_entry-content :
    (now hash : ℕ) (json : List ℕ) (html : ℕ) (page : Option (Text × Option (List ℕ)))
    → content (new_entry now hash json html page) ≡ record {
      at = now;
      hash = hash;
      json = json;
      html = html;
      json_size = length json;
      page_html = page_html_of page;
      catalog = page_catalog_of page;
    }
unfolding new_entry
new_entry-content now hash json html none = refl
new_entry-content now hash json html (some page) = refl

store_key-Agrees :
    (now : ℕ) (key : Text) (hash : ℕ) (json : List ℕ) (html : ℕ)
    (page : Option (Text × Option (List ℕ))) (c : SomCache) (cs : List Call)
    → Bounded c
    → Agrees c cs
    → Agrees (store_key now key hash json html page c) (stores now key hash json html page ∷ cs)
unfolding store_key last_store new_entry
store_key-Agrees now key hash json html page c cs b a k e h =
    let room = (make_room key c).entries in
    let new = new_entry now hash json html page in
    elim (Bool-cases (text_eq key k)) [
      | inl t ↦
          let it : new ≡ e = eq_of_some (sym (get-insert_same key k new room t) ∙ h) in
          rw t (
            ap some (sym (new_entry-content now hash json html page))
            ∙ ap (λ x. some (content x)) it)
      | inr t ↦
          rw t (a k e (make_room-Fewer key c b k e (sym (get-insert_other key k new room t) ∙ h)))
    ]

lookup_key-Agrees :
    (now : ℕ) (key : Text) (hash : ℕ) (c : SomCache) (cs : List Call)
    → Bounded c
    → Agrees c cs
    → Agrees (lookup_key now key hash c).0 cs
unfolding lookup_key lookup_entry
lookup_key-Agrees now key hash c cs b a k e h = elim (Option-cases (get key c.entries)) [
  | inl g ↦ a k e (rw (g, lookup_key) at h)
  | inr (v, g) ↦ elim (Bool-cases (is_expired now c.config v)) [
    | inl old ↦ a k e (remove-Fewer key c.entries b.distinct k e (rw (g, old, lookup_key) at h))
    | inr young ↦ elim (Bool-cases (v.content_hash == hash)) [
      | inl same ↦ touched now key v c cs g a k e (rw (g, young, same, lookup_key) at h)
      | inr other ↦ a k e (rw (g, young, other, lookup_key) at h)
    ]
  ]
]

lookup_any_key-Agrees :
    (now : ℕ) (key : Text) (c : SomCache) (cs : List Call)
    → Bounded c
    → Agrees c cs
    → Agrees (lookup_any_key now key c).0 cs
unfolding lookup_any_key lookup_any_entry
lookup_any_key-Agrees now key c cs b a k e h = elim (Option-cases (get key c.entries)) [
  | inl g ↦ a k e (rw (g, lookup_any_key) at h)
  | inr (v, g) ↦ elim (Bool-cases (is_expired now c.config v)) [
    | inl old ↦ a k e (remove-Fewer key c.entries b.distinct k e (rw (g, old, lookup_any_key) at h))
    | inr young ↦ touched now key v c cs g a k e (rw (g, young, lookup_any_key) at h)
  ]
]

run-Agrees : (config : CacheConfig) (cs : List Call) → Agrees (run config cs) cs
unfolding run step init last_store get
run-Agrees config [] k e h = cc
run-Agrees config (stores now key hash json html page ∷ older) k e h =
    store_key-Agrees now key hash json html page (run config older) older (run-Bounded config older)
      (run-Agrees config older) k e h
run-Agrees config (looks now key hash ∷ older) k e h =
    lookup_key-Agrees now key hash (run config older) older (run-Bounded config older)
      (run-Agrees config older) k e h
run-Agrees config (looks_any now key ∷ older) k e h =
    lookup_any_key-Agrees now key (run config older) older (run-Bounded config older)
      (run-Agrees config older) k e h

hit-cases :
    (now : ℕ) (key : Text) (hash : ℕ) (c : SomCache) (e : CacheEntry)
    → (lookup_key now key hash c).1 ≡ hit e
    → (v : CacheEntry) × (get key c.entries ≡ some v)
      × (touch now v ≡ e)
      × (v.content_hash ≡ hash)
      × (now - v.created_at ≤ c.config.max_age)
unfolding lookup_key lookup_entry
hit-cases now key hash c e h = elim (Option-cases (get key c.entries)) [
  | inl g ↦ let bad : miss ≡ hit e = rw (g, lookup_key) at h in cc
  | inr (v, g) ↦ elim (Bool-cases (is_expired now c.config v)) [
    | inl old ↦ let bad : miss ≡ hit e = rw (g, old, lookup_key) at h in cc
    | inr young ↦ elim (Bool-cases (v.content_hash == hash)) [
      | inl same ↦
          let it : hit (touch now v) ≡ hit e = rw (g, young, same, lookup_key) at h in
          (v, g, (cc), ground arith, ground arith)
      | inr other ↦
          let bad : stale v.content_hash hash ≡ hit e = rw (g, young, other, lookup_key) at h in cc
    ]
  ]
]

run-config : (config : CacheConfig) (cs : List Call) → (run config cs).config ≡ config
unfolding run step init store_key make_room evict_lru lookup_key lookup_entry lookup_any_key
    lookup_any_entry
run-config config [] = refl
run-config config (stores now key hash json html page ∷ older) =
    ground (arith, run-config config older)
run-config config (looks now key hash ∷ older) = ground (arith, run-config config older)
run-config config (looks_any now key ∷ older) = ground (arith, run-config config older)

-- After any sequence of calls, a hit of a lookup is what was last stored for that key, with the page's
-- HTML and catalog, its sizes and its time: in all but the time of its last use, which is now, and its
-- count of hits. Its content hash is the one asked for, and it was stored at most the maximal age ago.
-- Reading an entry does not lengthen its life.
pub lookup_key-hit :
    (config : CacheConfig) (cs : List Call) (now : ℕ) (key : Text) (hash : ℕ) (e : CacheEntry)
    → (lookup_key now key hash (run config cs)).1 ≡ hit e
    → (last_store key cs ≡ some (content e))
      × (e.content_hash ≡ hash)
      × (e.last_accessed ≡ now)
      × (now - e.created_at ≤ config.max_age)
unfolding touch
lookup_key-hit config cs now key hash e h =
    let (v, held, it, same, young) = hit-cases now key hash (run config cs) e h in
    (
      run-Agrees config cs key v held ∙ ap (λ x. some (content x)) it,
      sym (ap (λ x. x.content_hash) it) ∙ same,
      sym (ap (λ x. x.last_accessed) it),
      omega (arith, ap (λ x. x.created_at) it, ap (λ x. x.max_age) (run-config config cs)),
    )

stored-config :
    (at : ℕ) (key : Text) (hash : ℕ) (json : List ℕ) (html : ℕ)
    (page : Option (Text × Option (List ℕ))) (c : SomCache)
    → (store_key at key hash json html page c).config ≡ c.config
unfolding store_key
stored-config at key hash json html page c = make_room-config key c

stored-get :
    (at : ℕ) (key : Text) (hash : ℕ) (json : List ℕ) (html : ℕ)
    (page : Option (Text × Option (List ℕ))) (c : SomCache)
    → get key (store_key at key hash json html page c).entries
      ≡ some (new_entry at hash json html page)
unfolding store_key
stored-get at key hash json html page c =
    get-insert_self key (new_entry at hash json html page) (make_room key c).entries

lookup_key-held :
    (now : ℕ) (key : Text) (asked : ℕ) (c : SomCache) (e : CacheEntry)
    → get key c.entries ≡ some e
    → now - e.created_at ≤ c.config.max_age
    → ((e.content_hash ≡ asked) × ((lookup_key now key asked c).1 ≡ hit (touch now e)))
      ⊎ ((e.content_hash ≢ asked) × ((lookup_key now key asked c).1 ≡ stale e.content_hash asked))
unfolding lookup_key lookup_entry
lookup_key-held now key asked c e g young =
    let fresh : is_expired now c.config e ≡ false = ground arith in
    elim (Bool-cases (e.content_hash == asked)) [
      | inl same ↦ inl (ground arith, rw (g, fresh, same, lookup_key) refl)
      | inr other ↦ inr (ground arith, rw (g, fresh, other, lookup_key) refl)
    ]

-- What was just stored is found: a lookup of the key within the maximal age hits if it asks for the
-- content hash that was stored, and is told of the change if it asks for another one.
pub lookup_key-store_key :
    (at now : ℕ) (key : Text) (hash asked : ℕ) (json : List ℕ) (html : ℕ)
    (page : Option (Text × Option (List ℕ))) (c : SomCache)
    → now - at ≤ c.config.max_age
    → ((hash ≡ asked)
        × ((lookup_key now key asked (store_key at key hash json html page c)).1
            ≡ hit (touch now (new_entry at hash json html page))))
      ⊎ ((hash ≢ asked)
          × ((lookup_key now key asked (store_key at key hash json html page c)).1
              ≡ stale hash asked))
unfolding new_entry
lookup_key-store_key at now key hash asked json html page c young =
    let stored = store_key at key hash json html page c in
    lookup_key-held now key asked stored (new_entry at hash json html page)
      (stored-get at key hash json html page c)
      (rw (stored-config at key hash json html page c) young)
