-- ===== src/MediaCache/Newest.antt =====
-- internal/mediacache/mediacache.go, shed: the entry used last is the one that stays.
use curtilage.Prelude.{
  ℕ, ◌≡◌, ◌≤◌, ◌<◌, ◌⊎◌, refl, ap, inl, inr, false, [], ◌∷◌, some, length, ◌==◌, arith, Bool-cases,
  All,
}
use native.Mathlib.Nat.{le_refl}
use curtilage.Prelude.Map.{Map, get, get-del}
use curtilage.MediaCache.{Key, Entry, Cache, eq_key, drop, shed}
use curtilage.MediaCache.Shed.{UniqKeys, IsBalanced, Has, IsLeast, shed_rule, del-All}

All-Has : (P : Key × Entry → Type 0) (p : Key × Entry) (m : Map Key Entry) → All P m → Has p m → P p
All-Has P p [] a h = absurd h
All-Has P p (q ∷ m) a (inl e) = rw e a.0
All-Has P p (q ∷ m) a (inr h) = All-Has P p m a.1 h

another :
    (k : Key) (m : Map Key Entry)
    → UniqKeys m
    → 1 < length m
    → (p : Key × Entry) × Has p m × ((p.0 == k) ≡ false)
another k [] u l = absurd (omega arith)
another k (a ∷ []) u l = absurd (omega arith)
another k (a ∷ b ∷ m) u l = elim (Bool-cases (a.0 == k)) [
  | inl t ↦
      let same : a.0 ≡ k = (eq_key.same_iff a.0 k).0 t in (b, inr (inl refl), rw (← same) u.0.0)
  | inr f ↦ (a, inl refl, f)
]

-- The entry of `k` was used after all others.
abbrev pub IsNewest : Key → Entry → Cache → Type 0
IsNewest k e c =
    (get k c.entries ≡ some e) × All (λ p. (p.0 == k) ≡ false → p.1.seq < e.seq) c.entries

keep-IsNewest :
    (k : Key) (e : Entry) (c : Cache) (q : Key × Entry)
    → IsBalanced c
    → IsNewest k e c
    → get q.0 c.entries ≡ some q.1
    → IsLeast q c.entries
    → 1 < length c.entries
    → IsNewest k e (drop q.0 q.1 c)
unfolding drop
keep-IsNewest k e c q v (here, newest) mem least l = elim (Bool-cases (q.0 == k)) [
  | inl t ↦
      let (p, has, other) = another k c.entries v.uniq l in
      let newer : p.1.seq < e.seq =
        All-Has (λ p. (p.0 == k) ≡ false → p.1.seq < e.seq) p c.entries newest has other in
      let older : q.1.seq ≤ p.1.seq = All-Has (λ p. q.1.seq ≤ p.1.seq) p c.entries least has in
      let key : q.0 ≡ k = (eq_key.same_iff q.0 k).0 t in
      let same : q.1 ≡ e = found (rw key at mem) in
      absurd (no_way (ap (λ (y : Entry). y.seq) same) newer older)
  | inr f ↦ (
    ground (arith, get-del q.0 k c.entries, f, here),
    del-All (λ p. (p.0 == k) ≡ false → p.1.seq < e.seq) q.0 c.entries newest,
  )
]
  where
    found : get k c.entries ≡ some q.1 → q.1 ≡ e
    found h = cc

    no_way : {x y z : ℕ} → x ≡ y → z < y → x ≤ z → ⊥
    no_way a b d = omega arith

-- What was used last survives shed, which ends within budget or with that entry alone.
pub shed-newest :
    (k : Key) (e : Entry) (c : Cache)
    → IsBalanced c
    → IsNewest k e c
    → (get k (shed c).entries ≡ some e)
      × (((shed c).size ≤ (shed c).budget) ⊎ (length (shed c).entries ≤ 1))
unfolding shed
shed-newest k e c v n =
    let (newest, balanced, within) =
      shed_rule (IsNewest k e) (keep-IsNewest k e) (length c.entries) c (le_refl (length c.entries))
        v n in
    (newest.0, within)
