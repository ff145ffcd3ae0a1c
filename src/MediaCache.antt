-- ===== src/MediaCache.antt =====
-- internal/mediacache/mediacache.go: the disk-backed LRU of media cuts. Each function is a body
-- that runs under the cache's lock; a Fill is its start, the fetch outside the lock, the landing of
-- what was fetched, and its end. The uses are numbered without a bound here: the uint64 would wrap
-- at 2^64 uses.
pub mod Shed
pub mod Newest
pub mod Schedule
pub mod Sound
use curtilage.Prelude.{
  ℕ, zero, suc, ◌+◌, ◌-◌, ◌≡◌, ◌↔◌, refl, Bool, true, false, not, ◌&&◌, ◌||◌, List, [], ◌∷◌, ◌++◌,
  Option, none, some, Text, codes, length, nat_eq, ltb, if◌then◌else◌, ◌==◌, Comparable, eq_text,
  text_eq, text_eq_iff, nat_eq_iff, arith, is_some, contains, keep_if,
}
use curtilage.Prelude.Map.{Map, get, put, del}
use curtilage.Strings.{decimal}

pub record Key : Type 0 where
  pub media : Text
  pub ref : Text
  pub start : ℕ
  pub end : ℕ
  pub variant : Text

key_eq : Key → Key → Bool
key_eq a b =
    text_eq a.media b.media
    && (text_eq a.ref b.ref
        && (nat_eq a.start b.start && (nat_eq a.end b.end && text_eq a.variant b.variant)))

key_eq_iff : (a b : Key) → (key_eq a b ≡ true) ↔ (a ≡ b)
unfolding key_eq
key_eq_iff a b =
    ground
      (arith, text_eq_iff a.media b.media, text_eq_iff a.ref b.ref, text_eq_iff a.variant b.variant)

instance pub eq_key : Comparable Key
eq_key = record { same = key_eq; same_iff = key_eq_iff }

-- (k Key) filename
unfoldable pub filename : Key → Text
filename k =
    let v = if k.variant == [] then codes "orig" else k.variant in
    k.media
    ++ (codes "-"
        ++ (k.ref
            ++ (codes "-"
                ++ (decimal k.start ++ (codes "-" ++ (decimal k.end ++ (codes "-" ++ v)))))))

pub record Entry : Type 0 where
  pub path : Text
  pub size : ℕ
  pub seq : ℕ  -- last use

pub record Cache : Type 0 where
  pub budget : ℕ
  pub entries : Map Key Entry
  pub inflight : List Key
  pub size : ℕ
  pub seq : ℕ

-- New, once the directory is empty.
unfoldable pub new : ℕ → Cache
new budget = record { budget = budget; entries = []; inflight = []; size = 0; seq = 0 }

-- `c.seq++; e.seq = c.seq` for the entry found.
unfoldable pub touch : Key → Entry → Cache → Cache
touch key e c = record c {
  seq = c.seq + 1;
  entries = put key (record e { seq = c.seq + 1 }) c.entries;
}

-- (c *Cache) Get
unfoldable pub get_cut : Key → Cache → Cache × Option Text
unfolding touch
get_cut key c = elim (get key c.entries) [
  | none ↦ (c, none)
  | some e ↦ (touch key e c, some e.path)
]

-- (c *Cache) Contains
unfoldable pub contains_cut : Key → Cache → Bool
contains_cut key c = is_some (get key c.entries)

-- (c *Cache) drop
unfoldable pub drop : Key → Entry → Cache → Cache
drop key e c = record c { size = c.size - e.size; entries = del key c.entries }

-- The loop of shed that looks for the least recently used entry.
unfoldable pub lru : Option (Key × Entry) → Map Key Entry → Option (Key × Entry)
lru best [] = best
lru none (p ∷ m) = lru (some p) m
lru (some b) (p ∷ m) = lru (some (if ltb p.1.seq b.1.seq then p else b)) m

-- (c *Cache) shed: a round drops an entry, so the number of entries is fuel enough.
unfoldable pub shed_loop : ℕ → Cache → Cache
unfolding drop
shed_loop zero c = c
shed_loop (suc fuel) c =
    let next = elim (lru none c.entries) as (λ _. Cache) [
      | none ↦ c
      | some (k, e) ↦ shed_loop fuel (drop k e c)
    ] in
    if ltb c.budget c.size && ltb 1 (length c.entries) then next else c

unfoldable pub shed : Cache → Cache
unfolding shed_loop
shed c = shed_loop (length c.entries) c

-- What Fill finds under the lock: the cut, another fetch to wait for, or its own fetch to make.
pub data Found : Type 0 where
  hit : Text → Found
  joined : Found
  fetching : Found

-- (c *Cache) Fill up to the fetch.
unfoldable pub fill_start : Key → Cache → Cache × Found
unfolding touch
fill_start key c = elim (get key c.entries) [
  | some e ↦ (touch key e c, hit e.path)
  | none ↦
      if contains c.inflight key
      then (c, joined)
      else (record c { inflight = key ∷ c.inflight }, fetching)
]

-- (c *Cache) fill, under the lock: the file is complete, with `n` bytes.
unfoldable pub fill_land : Key → ℕ → Cache → Cache
unfolding shed
fill_land key n c = shed (record c {
  seq = c.seq + 1;
  entries = put key (record { path = filename key; size = n; seq = c.seq + 1 }) c.entries;
  size = c.size + n;
})

-- (c *Cache) Fill, under the lock again: the fetch has landed or failed.
unfoldable pub fill_end : Key → Cache → Cache
fill_end key c = record c { inflight = keep_if (λ k. not (k == key)) c.inflight }

unfoldable pub size_of : Option Entry → ℕ
size_of none = 0
size_of (some e) = e.size

-- (c *Cache) Put, of a finished file of `n` bytes.
unfoldable pub put_cut : Key → ℕ → Cache → Cache
unfolding shed size_of
put_cut key n c = shed (record c {
  seq = c.seq + 1;
  entries = put key (record { path = filename key; size = n; seq = c.seq + 1 }) c.entries;
  size = c.size - size_of (get key c.entries) + n;
})

-- (c *Cache) Evict
unfoldable pub evict : Key → Cache → Cache
unfolding drop
evict key c = elim (get key c.entries) [ none ↦ c | some e ↦ drop key e c ]

-- (c *Cache) Stats
unfoldable pub stats : Cache → ℕ × ℕ
stats c = (length c.entries, c.size)
