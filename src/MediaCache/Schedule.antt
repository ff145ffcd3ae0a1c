-- ===== src/MediaCache/Schedule.antt =====
-- internal/mediacache/mediacache.go under its lock: every interleaving of calls, a Fill being a
-- start, a landing unless its fetch fails, and an end, with anything in between. Put is not called
-- for a key while it is being fetched: the server puts only "stitch" keys and fills only the
-- others.
use curtilage.Prelude.{
  ℕ, ◌≡◌, ◌≤◌, ◌⊎◌, refl, inl, inr, true, false, List, [], ◌∷◌, none, length, ◌==◌, arith,
  Bool-cases, All, contains, is_some, keep_if, not,
}
use native.Mathlib.Nat.{le_refl}
use curtilage.Prelude.Map.{Map, get, put, del, get-put, get-del}
use curtilage.MediaCache.{
  Key, Entry, Cache, eq_key, new, get_cut, fill_start, fill_land, fill_end, Found, put_cut, evict,
  drop, shed,
}
use curtilage.MediaCache.Shed.{IsBalanced, UniqKeys, total, shed_rule, del-All}

pub data Event : Type 0 where
  gets : Key → Event
  starts : Key → Event
  lands : Key → ℕ → Event
  ends : Key → Event
  puts : Key → ℕ → Event
  evicts : Key → Event

unfoldable pub apply_event : Event → Cache → Cache
apply_event (gets k) c = (get_cut k c).0
apply_event (starts k) c = (fill_start k c).0
apply_event (lands k n) c = fill_land k n c
apply_event (ends k) c = fill_end k c
apply_event (puts k n) c = put_cut k n c
apply_event (evicts k) c = evict k c

abbrev pub others : Key → List Key → List Key
others k = keep_if (λ j. not (j == k))

abbrev pub started : Key → Found → List Key → List Key
started k Found.fetching ks = k ∷ ks
started k Found.joined ks = ks
started k (Found.hit path) ks = ks

-- The keys that are being fetched: from the start that finds nothing to the landing, or to the end
-- when the fetch fails.
unfoldable pub fetching_after : Event → Cache → List Key → List Key
fetching_after (starts k) c ks = started k (fill_start k c).1 ks
fetching_after (lands k n) c ks = others k ks
fetching_after (ends k) c ks = others k ks
fetching_after (gets k) c ks = ks
fetching_after (puts k n) c ks = ks
fetching_after (evicts k) c ks = ks

-- What lands was being fetched, what ends was started, and Put keeps off the keys being fetched.
abbrev pub IsAllowed : Event → Cache → List Key → Type 0
IsAllowed (lands k n) c ks = contains ks k ≡ true
IsAllowed (ends k) c ks = contains c.inflight k ≡ true
IsAllowed (puts k n) c ks = contains ks k ≡ false
IsAllowed (gets k) c ks = Unit
IsAllowed (starts k) c ks = Unit
IsAllowed (evicts k) c ks = Unit

pub data Reach (budget : ℕ) : List Key → Cache → Type 0 where
  fresh : Reach budget [] (new budget)
  next :
      {ks js : List Key} {c d : Cache}
      → Reach budget ks c
      → (e : Event) → IsAllowed e c ks
      → js ≡ fetching_after e c ks
      → d ≡ apply_event e c
      → Reach budget js d

-- No key being fetched has an entry.
abbrev pub Apart : List Key → Map Key Entry → Type 0
Apart ks m = All (λ k. is_some (get k m) ≡ false) ks

pub record IsSound (fetching : List Key) (c : Cache) : Type 0 where
  pub uniq : UniqKeys c.entries
  pub sum : c.size ≡ total c.entries
  pub recent : All (λ p. p.1.seq ≤ c.seq) c.entries
  pub apart : Apart fetching c.entries
  pub within : (c.size ≤ c.budget) ⊎ (length c.entries ≤ 1)

pub put-Apart :
    (k : Key) (v : Entry) (ks : List Key) (m : Map Key Entry)
    → contains ks k ≡ false
    → Apart ks m
    → Apart ks (put k v m)
put-Apart k v [] m f a = tt
put-Apart k v (j ∷ ks) m f a = (
  ground (arith, get-put k j v m, eq_key.same_iff k j, eq_key.same_iff j k, a.0),
  put-Apart k v ks m (ground arith) a.1,
)

pub del-Apart : (k : Key) (ks : List Key) (m : Map Key Entry) → Apart ks m → Apart ks (del k m)
del-Apart k [] m a = tt
del-Apart k (j ∷ ks) m a = (ground (arith, get-del k j m, a.0), del-Apart k ks m a.1)

pub Apart-lacks :
    (k : Key) (ks : List Key) (m : Map Key Entry)
    → Apart ks m
    → contains ks k ≡ true
    → get k m ≡ none
Apart-lacks k [] m a h = cc
Apart-lacks k (j ∷ ks) m a h = elim (Bool-cases (j == k)) [
  | inl t ↦
      let same : j ≡ k = (eq_key.same_iff j k).0 t in
      let lacks : is_some (get k m) ≡ false = rw (← same) a.0 in ground (arith, lacks)
  | inr f ↦ Apart-lacks k ks m a.1 (rw f at h)
]

-- What shed keeps besides the balance.
abbrev pub Kept : Cache → List Key → Cache → Type 0
Kept c ks d =
    All (λ p. p.1.seq ≤ c.seq) d.entries
    × Apart ks d.entries
    × (d.seq ≡ c.seq)
    × (d.inflight ≡ c.inflight)

pub shed-Kept :
    (c : Cache) (ks : List Key)
    → IsBalanced c
    → All (λ p. p.1.seq ≤ c.seq) c.entries
    → Apart ks c.entries
    → Kept c ks (shed c)
      × IsBalanced (shed c)
      × (((shed c).size ≤ (shed c).budget) ⊎ (length (shed c).entries ≤ 1))
unfolding shed
shed-Kept c ks v r a =
    shed_rule (Kept c ks) (λ d q w p mem least l. keep d q p) (length c.entries) c
      (le_refl (length c.entries)) v (r, a, refl, refl)
  where
    keep : (d : Cache) (q : Key × Entry) → Kept c ks d → Kept c ks (drop q.0 q.1 d)
    keep d q (r, a, s, i) =
        unfold drop in
        (del-All (λ p. p.1.seq ≤ c.seq) q.0 d.entries r, del-Apart q.0 ks d.entries a, s, i)
