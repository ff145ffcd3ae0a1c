-- ===== src/MediaCache/Sound.antt =====
-- internal/mediacache/mediacache.go: every call keeps the cache sound, so every reachable cache is.
use curtilage.Prelude.{
  ℕ, ◌+◌, ◌-◌, ◌≡◌, ◌≤◌, ◌⊎◌, refl, inl, inr, true, false, List, [], ◌∷◌, none, some, length, arith,
  Bool-cases, Option-cases, All-map, contains,
}
use curtilage.Prelude.Map.{Map, get, put}
use curtilage.MediaCache.{
  Key, Entry, Cache, Found, eq_key, new, touch, get_cut, fill_start, fill_land, fill_end, put_cut,
  evict, drop, shed, filename, size_of,
}
use curtilage.MediaCache.Shed.{
  IsBalanced, total, put-UniqKeys, total-put, total-put_new, total-del, put-All, del-All,
  drop-IsBalanced, length-drop_lt,
}
use curtilage.MediaCache.Schedule.{
  Event, gets, starts, lands, ends, puts, evicts, apply_event, IsAllowed, Reach, others,
  fetching_after, started, fresh, next, Apart, IsSound, put-Apart, del-Apart, Apart-lacks, Kept,
  shed-Kept,
}

-- An insertion, before shed: the balance, the recency and the keys being fetched.
module _ (key : Key) (v : Entry) (old : List Key) (c : Cache) (s : IsSound old c) where
  abbrev inserted : ℕ → Cache
  inserted size = record c { seq = c.seq + 1; entries = put key v c.entries; size = size }

  insert-Kept :
      (ks : List Key) (size : ℕ)
      → v.seq ≡ c.seq + 1
      → size ≡ total (put key v c.entries)
      → contains ks key ≡ false
      → Apart ks c.entries
      → Kept (inserted size) ks (shed (inserted size))
        × IsBalanced (shed (inserted size))
        × (((shed (inserted size)).size ≤ (shed (inserted size)).budget)
            ⊎ (length (shed (inserted size)).entries ≤ 1))
  insert-Kept ks size e sum off a =
      shed-Kept (inserted size) ks
        (record { uniq = put-UniqKeys key v c.entries s.uniq; sum = sum })
        (put-All (λ p. p.1.seq ≤ c.seq + 1) key v c.entries (omega arith)
          (All-map (λ p. p.1.seq ≤ c.seq) (λ p. p.1.seq ≤ c.seq + 1) c.entries (λ p h. omega arith)
            s.recent))
        (put-Apart key v ks c.entries off a)

length-put_old :
    (k : Key) (v e : Entry) (m : Map Key Entry) → get k m ≡ some e → length (put k v m) ≡ length m
length-put_old k v e [] h = cc
length-put_old k v e ((j, x) ∷ m) h = ground (arith, length-put_old k v e m)

-- A key with an entry is not being fetched.
present_off :
    (k : Key) (e : Entry) (ks : List Key) (m : Map Key Entry)
    → Apart ks m
    → get k m ≡ some e
    → contains ks k ≡ false
present_off k e ks m a h = elim (Bool-cases (contains ks k)) [
  | inl t ↦ absurd (never (Apart-lacks k ks m a t))
  | inr f ↦ f
]
  where
    never : get k m ≡ none → ⊥
    never n = cc

touch-IsSound :
    (k : Key) (e : Entry) (ks : List Key) (c : Cache)
    → get k c.entries ≡ some e
    → IsSound ks c
    → IsSound ks (touch k e c)
unfolding touch
touch-IsSound k e ks c h s =
    let v : Entry = record e { seq = c.seq + 1 } in
    record {
      uniq = put-UniqKeys k v c.entries s.uniq;
      sum = omega (arith, s.sum, total-put k v e c.entries s.uniq h);
      recent =
          put-All (λ p. p.1.seq ≤ c.seq + 1) k v c.entries (omega arith)
            (All-map (λ p. p.1.seq ≤ c.seq) (λ p. p.1.seq ≤ c.seq + 1) c.entries
              (λ p l. omega arith) s.recent);
      apart = put-Apart k v ks c.entries (present_off k e ks c.entries s.apart h) s.apart;
      within = omega (arith, s.within, length-put_old k v e c.entries h);
    }

get_cut-IsSound : (k : Key) (ks : List Key) (c : Cache) → IsSound ks c → IsSound ks (get_cut k c).0
unfolding get_cut
get_cut-IsSound k ks c s = elim (Option-cases (get k c.entries)) [
  | inl n ↦ rw (n, get_cut) s
  | inr (e, h) ↦ rw (h, get_cut) (touch-IsSound k e ks c h s)
]

pub fill_start_joined :
    (k : Key) (c : Cache)
    → get k c.entries ≡ none
    → contains c.inflight k ≡ true
    → fill_start k c ≡ (c, Found.joined)
unfolding fill_start
fill_start_joined k c n t = rw (n, fill_start) (rw t refl)

pub fill_start-fetching :
    (k : Key) (c : Cache)
    → get k c.entries ≡ none
    → contains c.inflight k ≡ false
    → fill_start k c ≡ (record c { inflight = k ∷ c.inflight }, Found.fetching)
unfolding fill_start
fill_start-fetching k c n f = rw (n, fill_start) (rw f refl)

fill_start_hit :
    (k : Key) (e : Entry) (c : Cache)
    → get k c.entries ≡ some e
    → fill_start k c ≡ (touch k e c, Found.hit e.path)
unfolding fill_start
fill_start_hit k e c h = rw (h, fill_start) refl

fill_start-IsSound :
    (k : Key) (ks : List Key) (c : Cache)
    → IsSound ks c
    → IsSound (started k (fill_start k c).1 ks) (fill_start k c).0
fill_start-IsSound k ks c s = elim (Option-cases (get k c.entries)) [
  | inr (e, h) ↦ rw (fill_start_hit k e c h) (touch-IsSound k e ks c h s)
  | inl n ↦ elim (Bool-cases (contains c.inflight k)) [
    | inl t ↦ rw (fill_start_joined k c n t) s
    | inr f ↦ rw (fill_start-fetching k c n f) (record {
      uniq = s.uniq;
      sum = s.sum;
      recent = s.recent;
      apart = (ground (arith, n), s.apart);
      within = s.within;
    })
  ]
]

evict-IsSound : (k : Key) (ks : List Key) (c : Cache) → IsSound ks c → IsSound ks (evict k c)
unfolding evict
evict-IsSound k ks c s = elim (Option-cases (get k c.entries)) [
  | inl n ↦ rw (n, evict) s
  | inr (e, h) ↦
      let b = drop-IsBalanced (k, e) c (record { uniq = s.uniq; sum = s.sum }) h in
      rw (h, evict)
        (unfold drop in
          record {
            uniq = b.uniq;
            sum = b.sum;
            recent = del-All (λ p. p.1.seq ≤ c.seq) k c.entries s.recent;
            apart = del-Apart k ks c.entries s.apart;
            within = omega (arith, s.within, length-drop_lt (k, e) c h);
          })
]

abbrev pub new_entry : Key → ℕ → Cache → Entry
new_entry k n c = record { path = filename k; size = n; seq = c.seq + 1 }

-- The size that Put writes is the total, whether or not the key had an entry.
put-total :
    (k : Key) (n : ℕ) (ks : List Key) (c : Cache)
    → IsSound ks c
    → c.size - size_of (get k c.entries) + n ≡ total (put k (new_entry k n c) c.entries)
unfolding size_of
put-total k n ks c s = elim (Option-cases (get k c.entries)) [
  | inl none_there ↦
      rw (none_there) (omega (arith, s.sum, total-put_new k (new_entry k n c) c.entries none_there))
  | inr (e, h) ↦ rw h (
      omega (
        arith,
        s.sum,
        total-put k (new_entry k n c) e c.entries s.uniq h,
        total-del k e c.entries s.uniq h,
      ))
]

put_cut-IsSound :
    (k : Key) (n : ℕ) (ks : List Key) (c : Cache)
    → contains ks k ≡ false
    → IsSound ks c
    → IsSound ks (put_cut k n c)
unfolding put_cut
put_cut-IsSound k n ks c off s =
    let (kept, balanced, within) =
      insert-Kept k (new_entry k n c) ks c s ks (c.size - size_of (get k c.entries) + n) refl
        (put-total k n ks c s) off s.apart in
    record {
      uniq = balanced.uniq;
      sum = balanced.sum;
      recent = rw kept.2 kept.0;
      apart = kept.1;
      within = within;
    }

others-Apart : (k : Key) (ks : List Key) (m : Map Key Entry) → Apart ks m → Apart (others k ks) m
others-Apart k [] m a = tt
others-Apart k (j ∷ ks) m a = ground (arith, others-Apart k ks m a.1)

others_off : (k : Key) (ks : List Key) → contains (others k ks) k ≡ false
others_off k [] = refl
others_off k (j ∷ ks) = ground (arith, others_off k ks)

fill_land-IsSound :
    (k : Key) (n : ℕ) (ks : List Key) (c : Cache)
    → contains ks k ≡ true
    → IsSound ks c
    → IsSound (others k ks) (fill_land k n c)
unfolding fill_land
fill_land-IsSound k n ks c on s =
    let lacks : get k c.entries ≡ none = Apart-lacks k ks c.entries s.apart on in
    let (kept, balanced, within) =
      insert-Kept k (new_entry k n c) ks c s (others k ks) (c.size + n) refl
        (omega (arith, s.sum, total-put_new k (new_entry k n c) c.entries lacks)) (others_off k ks)
        (others-Apart k ks c.entries s.apart) in
    record {
      uniq = balanced.uniq;
      sum = balanced.sum;
      recent = rw kept.2 kept.0;
      apart = kept.1;
      within = within;
    }

fill_end-IsSound :
    (k : Key) (ks : List Key) (c : Cache) → IsSound ks c → IsSound (others k ks) (fill_end k c)
unfolding fill_end
fill_end-IsSound k ks c s = record {
  uniq = s.uniq;
  sum = s.sum;
  recent = s.recent;
  apart = others-Apart k ks c.entries s.apart;
  within = s.within;
}

apply_event-IsSound :
    (e : Event) (ks : List Key) (c : Cache)
    → IsAllowed e c ks
    → IsSound ks c
    → IsSound (fetching_after e c ks) (apply_event e c)
unfolding apply_event fetching_after
apply_event-IsSound (gets k) ks c a s = get_cut-IsSound k ks c s
apply_event-IsSound (starts k) ks c a s = fill_start-IsSound k ks c s
apply_event-IsSound (lands k n) ks c a s = fill_land-IsSound k n ks c a s
apply_event-IsSound (ends k) ks c a s = fill_end-IsSound k ks c s
apply_event-IsSound (puts k n) ks c a s = put_cut-IsSound k n ks c a s
apply_event-IsSound (evicts k) ks c a s = evict-IsSound k ks c s

-- However the locked steps of Get, Fill, Put and Evict are interleaved, as long as no key is put
-- while it is being fetched: the recorded size is the bytes of the entries, no key has two entries,
-- or an entry before its fetch has landed, and the cache is within its budget unless it has one
-- entry at most.
pub Reach-IsSound :
    (budget : ℕ) (fetching : List Key) (c : Cache) → Reach budget fetching c → IsSound fetching c
Reach-IsSound budget ks c fresh =
    unfold new in
    record { uniq = tt; sum = refl; recent = tt; apart = tt; within = inr (omega arith) }
Reach-IsSound budget js d (next {ks = ks} {c = c} r e a p q) =
    rw (p, q) (apply_event-IsSound e ks c a (Reach-IsSound budget ks c r))
