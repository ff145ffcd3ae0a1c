-- ===== src/MediaCache/Shed.antt =====
-- internal/mediacache/mediacache.go, shed: the size it keeps and what it evicts.
use curtilage.Prelude.{
  ℕ, zero, suc, ◌+◌, ◌≡◌, ◌≤◌, ◌<◌, ◌⊎◌, refl, ap, inl, inr, true, false, ◌&&◌, [], ◌∷◌, none, some,
  length, ltb, ◌==◌, arith, Bool-cases, All, ==_refl,
}
use native.Mathlib.Nat.{le_refl}
use curtilage.Prelude.Map.{Map, get, put, del}
use curtilage.MediaCache.{Key, Entry, Cache, eq_key, drop, lru, shed_loop}

-- No key stands twice.
abbrev pub UniqKeys : Map Key Entry → Type 0
UniqKeys [] = Unit
UniqKeys ((k, e) ∷ m) = All (λ p. (p.0 == k) ≡ false) m × UniqKeys m

abbrev pub total : Map Key Entry → ℕ
total [] = 0
total ((k, e) ∷ m) = e.size + total m

-- The bytes of all entries are the size.
pub record IsBalanced (c : Cache) : Type 0 where
  pub uniq : UniqKeys c.entries
  pub sum : c.size ≡ total c.entries

pub del-All : (P : Key × Entry → Type 0) (k : Key) (m : Map Key Entry) → All P m → All P (del k m)
del-All P k [] a = tt
del-All P k ((j, e) ∷ m) a = ground (arith, del-All P k m a.1)

del-UniqKeys : (k : Key) (m : Map Key Entry) → UniqKeys m → UniqKeys (del k m)
del-UniqKeys k [] u = tt
del-UniqKeys k ((j, e) ∷ m) u =
    ground (arith, del-UniqKeys k m u.1, del-All (λ p. (p.0 == j) ≡ false) k m u.0)

pub put-All :
    (P : Key × Entry → Type 0) (k : Key) (v : Entry) (m : Map Key Entry)
    → P (k, v)
    → All P m
    → All P (put k v m)
put-All P k v [] p a = (p, tt)
put-All P k v ((j, e) ∷ m) p a = ground (arith, put-All P k v m p a.1)

pub put-UniqKeys : (k : Key) (v : Entry) (m : Map Key Entry) → UniqKeys m → UniqKeys (put k v m)
put-UniqKeys k v [] u = (tt, tt)
put-UniqKeys k v ((j, e) ∷ m) u = elim (Bool-cases (j == k)) [
  | inl t ↦ let same : j ≡ k = (eq_key.same_iff j k).0 t in rw t (rw (← same) u.0, u.1)
  | inr f ↦
      let other : (k == j) ≡ false = ground (arith, eq_key.same_iff j k, eq_key.same_iff k j, f) in
      rw f (put-All (λ p. (p.0 == j) ≡ false) k v m other u.0, put-UniqKeys k v m u.1)
]

del_absent : (k : Key) (m : Map Key Entry) → All (λ p. (p.0 == k) ≡ false) m → del k m ≡ m
del_absent k [] a = refl
del_absent k ((j, e) ∷ m) a = ground (arith, del_absent k m a.1)

pub total-del :
    (k : Key) (e : Entry) (m : Map Key Entry)
    → UniqKeys m
    → get k m ≡ some e
    → e.size + total (del k m) ≡ total m
total-del k e [] u h = cc
total-del k e ((j, x) ∷ m) u h = elim (Bool-cases (j == k)) [
  | inl t ↦
      let same : j ≡ k = (eq_key.same_iff j k).0 t in
      let gone : del k m ≡ m = del_absent k m (rw (← same) u.0) in ground (arith, gone, t)
  | inr f ↦ ground (arith, f, total-del k e m u.1)
]

length-del :
    (k : Key) (e : Entry) (m : Map Key Entry) → get k m ≡ some e → length (del k m) < length m
length-del k e [] h = cc
length-del k e ((j, x) ∷ m) h = elim (Bool-cases (j == k)) [
  | inl t ↦ rw t (omega (arith, length-del_le k m))
  | inr f ↦ rw f (omega (arith, length-del k e m (rw f at h)))
]
  where
    length-del_le : (k : Key) (m : Map Key Entry) → length (del k m) ≤ length m
    length-del_le k [] = omega arith
    length-del_le k ((j, x) ∷ m) = ground (arith, length-del_le k m)

abbrev pub Has : Key × Entry → Map Key Entry → Type 0
Has q [] = ⊥
Has q (p ∷ m) = (q ≡ p) ⊎ Has q m

get-Has : (q : Key × Entry) (m : Map Key Entry) → UniqKeys m → Has q m → get q.0 m ≡ some q.1
get-Has q [] u h = absurd h
get-Has q (p ∷ m) u (inl e) = rw (← e, ==_refl q.0)
get-Has q (p ∷ m) u (inr h) = rw (other q m u.0 h) (get-Has q m u.1 h)
  where
    other :
        (q : Key × Entry) (m : Map Key Entry)
        → All (λ x. (x.0 == p.0) ≡ false) m
        → Has q m
        → (p.0 == q.0) ≡ false
    other q [] a h = absurd h
    other q (x ∷ m) a (inl e) =
        let f : (q.0 == p.0) ≡ false = rw e a.0 in
        ground (arith, f, eq_key.same_iff p.0 q.0, eq_key.same_iff q.0 p.0)
    other q (x ∷ m) a (inr h) = other q m a.1 h

-- `lru` finds an entry that no other is older than.
abbrev pub IsLeast : (Key × Entry) → Map Key Entry → Type 0
IsLeast q m = All (λ p. q.1.seq ≤ p.1.seq) m

lru-IsLeast :
    (b : Key × Entry) (m : Map Key Entry)
    → (q : Key × Entry) × (lru (some b) m ≡ some q)
      × ((q ≡ b) ⊎ Has q m)
      × (q.1.seq ≤ b.1.seq)
      × IsLeast q m
unfolding lru
lru-IsLeast b [] = (b, refl, inl refl, le_refl b.1.seq, tt)
lru-IsLeast b (p ∷ m) = elim (Bool-cases (ltb p.1.seq b.1.seq)) [
  | inl t ↦
      let (q, found, mem, le, least) = lru-IsLeast p m in
      (q, rw t found, inr mem, ground arith, (le, least))
  | inr f ↦
      let (q, found, mem, le, least) = lru-IsLeast b m in
      (q, rw f found, elim mem [ inl e ↦ inl e | inr h ↦ inr (inr h) ], le, (ground arith, least))
]

-- With two entries or more, the one dropped is least and is there.
pub lru_found :
    (p : Key × Entry) (m : Map Key Entry)
    → UniqKeys (p ∷ m)
    → (q : Key × Entry) × (lru none (p ∷ m) ≡ some q)
      × (get q.0 (p ∷ m) ≡ some q.1)
      × IsLeast q (p ∷ m)
lru_found p m u =
    let (q, found, mem, le, least) = lru-IsLeast p m in
    (q, unfold lru in found, get-Has q (p ∷ m) u mem, (le, least))

pub drop-IsBalanced :
    (q : Key × Entry) (c : Cache)
    → IsBalanced c
    → get q.0 c.entries ≡ some q.1
    → IsBalanced (drop q.0 q.1 c)
unfolding drop
drop-IsBalanced q c v h = record {
  uniq = del-UniqKeys q.0 c.entries v.uniq;
  sum = omega (arith, v.sum, total-del q.0 q.1 c.entries v.uniq h);
}

lru-some :
    (m : Map Key Entry)
    → 1 < length m
    → UniqKeys m
    → (q : Key × Entry) × (lru none m ≡ some q) × (get q.0 m ≡ some q.1) × IsLeast q m
lru-some [] l u = absurd (omega arith)
lru-some (p ∷ m) l u = lru_found p m u

shed_more :
    (fuel : ℕ) (c : Cache) (q : Key × Entry)
    → (ltb c.budget c.size && ltb 1 (length c.entries)) ≡ true
    → lru none c.entries ≡ some q
    → shed_loop (suc fuel) c ≡ shed_loop fuel (drop q.0 q.1 c)
unfolding shed_loop
shed_more fuel c q t e = rw t (rw e)

pub length-drop_lt :
    (q : Key × Entry) (c : Cache)
    → get q.0 c.entries ≡ some q.1
    → length (drop q.0 q.1 c).entries < length c.entries
unfolding drop
length-drop_lt q c h = length-del q.0 q.1 c.entries h

-- A property of caches that dropping the least recently used entry keeps holds of what shed leaves,
-- which is within budget or down to one entry.
pub shed_rule {ℓ} :
    (P : Cache → Type ℓ)
    → ((c : Cache) (q : Key × Entry)
        → IsBalanced c
        → P c
        → get q.0 c.entries ≡ some q.1
        → IsLeast q c.entries
        → 1 < length c.entries
        → P (drop q.0 q.1 c))
    → (fuel : ℕ) (c : Cache) → length c.entries ≤ fuel
    → IsBalanced c
    → P c
    → P (shed_loop fuel c)
      × IsBalanced (shed_loop fuel c)
      × (((shed_loop fuel c).size ≤ (shed_loop fuel c).budget)
          ⊎ (length (shed_loop fuel c).entries ≤ 1))
unfolding shed_loop
shed_rule P keep zero c l v p = (p, v, inr (omega arith))
shed_rule P keep (suc fuel) c l v p =
    elim (Bool-cases (ltb c.budget c.size && ltb 1 (length c.entries))) [
      | inl more ↦
          let l' : 1 < length c.entries = ground arith in
          let (q, found, mem, least) = lru-some c.entries l' v.uniq in
          rw (shed_more fuel c q more found) (
            shed_rule P keep fuel (drop q.0 q.1 c) (omega (arith, length-drop_lt q c mem))
              (drop-IsBalanced q c v mem) (keep c q v p mem least l'))
      | inr done ↦ rw done (p, v, ground arith)
    ]

-- The total after a write: the new entry's bytes instead of those the key had.
pub total-put :
    (k : Key) (v e : Entry) (m : Map Key Entry)
    → UniqKeys m
    → get k m ≡ some e
    → total (put k v m) + e.size ≡ total m + v.size
total-put k v e [] u h = cc
total-put k v e ((j, x) ∷ m) u h = elim (Bool-cases (j == k)) [
  | inl t ↦
      rw t (let same : x ≡ e = found (rw t at h) in omega (arith, ap (λ (y : Entry). y.size) same))
  | inr f ↦ rw f (omega (arith, total-put k v e m u.1 (rw f at h)))
]
  where
    found : some x ≡ some e → x ≡ e
    found q = cc

pub total-put_new :
    (k : Key) (v : Entry) (m : Map Key Entry)
    → get k m ≡ none
    → total (put k v m) ≡ total m + v.size
total-put_new k v [] h = omega arith
total-put_new k v ((j, x) ∷ m) h = elim (Bool-cases (j == k)) [
  | inl t ↦ absurd (never (rw t at h))
  | inr f ↦ rw f (omega (arith, total-put_new k v m (rw f at h)))
]
  where
    never : some x ≡ none → ⊥
    never q = cc
