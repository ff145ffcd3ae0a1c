-- ===== src/Store/Retention.antt =====
-- internal/store/store.go, Prune and Stats: what the retention window forgets.
use curtilage.Prelude.{
  ℕ, zero, suc, ◌+◌, ◌≡◌, refl, ap, sym, ◌∙◌, inl, inr, Bool, true, false, not, List, [], ◌∷◌, none,
  some, Text, All, All-map, arith, ltb, length, take, length-take, ◌%◌, ◌^◌, keep_if, get_elem?,
  if◌then◌else◌, Bool-cases, ◌==◌, eq_text, text_eq_iff,
}
use curtilage.Prelude.Map.{del, get-del}
use curtilage.Prelude.Search.{IsUp}
use curtilage.Policy.{running}
use curtilage.Store.{Store, Entry, u64}
use curtilage.Store.Order.{older}
use curtilage.Store.Slice.{Desc, Uniq, find}
use curtilage.Store.Index.{IsIndexed}

-- StartedAt.Before(now.Add(-retention)), with nothing subtracted.
abbrev pub is_expired : ℕ → ℕ → Entry → Bool
is_expired retention now e = ltb (e.ev.started_at + retention) now

-- The loop of Prune, `i + 1` entries of the slice not yet looked at, `n` forgotten so far.
prune_loop : ℕ → ℕ → Store → ℕ → Store × ℕ
prune_loop now zero s n = (s, n)
prune_loop now (suc i) s n = elim (get_elem? s.ordered i) [
  | none ↦ (s, n)
  | some x ↦
      let t = record s { by_id = del x.ev.id s.by_id; ordered = take i s.ordered } in
      let rest = prune_loop now i t (n + 1) in if is_expired s.retention now x then rest else (s, n)
]

-- (s *Store) Prune
unfoldable pub prune : ℕ → Store → Store × ℕ
unfolding prune_loop
prune now s =
    let (t, n) = prune_loop now (length s.ordered) s 0 in
    (record t { pruned = u64 (t.pruned + n) }, n)

pub record Stats : Type 0 where
  pub entries : ℕ
  pub live : ℕ
  pub watchers : ℕ
  pub applied : ℕ
  pub pruned : ℕ

-- (s *Store) Stats
unfoldable pub stats : Store → Stats
stats s = record {
  entries = length s.by_id;
  live = length (keep_if (λ kv. running kv.1.ev) s.by_id);
  watchers = length s.subs;
  applied = s.applied;
  pruned = s.pruned;
}

IsUp-is_expired : (r now : ℕ) (xs : List Entry) → Desc xs → IsUp (is_expired r now) xs
unfolding older
IsUp-is_expired r now [] d = tt
IsUp-is_expired r now (x ∷ xs) d =
    ((λ h. All-map _ _ xs (λ y k. ground arith) d.0), IsUp-is_expired r now xs d.1)

take-All : (P : Entry → Type 0) (i : ℕ) (xs : List Entry) → All P xs → All P (take i xs)
take-All P zero xs a = tt
take-All P (suc i) [] a = tt
take-All P (suc i) (x ∷ xs) a = (a.0, take-All P i xs a.1)

take-Desc : (i : ℕ) (xs : List Entry) → Desc xs → Desc (take i xs)
take-Desc zero xs d = tt
take-Desc (suc i) [] d = tt
take-Desc (suc i) (x ∷ xs) d = (take-All _ i xs d.0, take-Desc i xs d.1)

take-Uniq : (i : ℕ) (xs : List Entry) → Uniq xs → Uniq (take i xs)
take-Uniq zero xs u = tt
take-Uniq (suc i) [] u = tt
take-Uniq (suc i) (x ∷ xs) u = (take-All _ i xs u.0, take-Uniq i xs u.1)

All-get :
    (P : Entry → Type 0) (i : ℕ) (xs : List Entry) (e : Entry)
    → All P xs
    → get_elem? xs i ≡ some e
    → P e
All-get P i [] e a h = cc
All-get P zero (x ∷ xs) e a h = let same : x ≡ e = cc in rw (← same) a.0
All-get P (suc i) (x ∷ xs) e a h = All-get P i xs e a.1 h

-- Without its last entry the slice finds every id but that entry's.
find-take :
    (id : Text) (i : ℕ) (xs : List Entry) (e : Entry)
    → length xs ≡ suc i
    → get_elem? xs i ≡ some e
    → Uniq xs
    → find id (take i xs) ≡ (if e.ev.id == id then none else find id xs)
find-take id i [] e l h u = cc
find-take id zero (x ∷ []) e l h u = ground arith
find-take id zero (x ∷ y ∷ xs) e l h u = absurd (omega arith)
find-take id (suc i) (x ∷ xs) e l h u = ground (
  arith,
  find-take id i xs e,
  All-get (λ y. (y.ev.id == x.ev.id) ≡ false) i xs e u.0 h,
  text_eq_iff e.ev.id id,
  text_eq_iff x.ev.id id,
  text_eq_iff e.ev.id x.ev.id,
)

module _ (p : Entry → Bool) where
  abbrev unless : List Entry → List Entry
  unless = keep_if (λ x. not (p x))

  drop_last :
      (i : ℕ) (xs : List Entry) (e : Entry)
      → length xs ≡ suc i
      → get_elem? xs i ≡ some e
      → p e ≡ true
      → unless (take i xs) ≡ unless xs
  drop_last i [] e l h t = cc
  drop_last zero (x ∷ []) e l h t = ground arith
  drop_last zero (x ∷ y ∷ xs) e l h t = absurd (omega arith)
  drop_last (suc i) (x ∷ xs) e l h t = ground (arith, drop_last i xs e)

  keep_last :
      (i : ℕ) (xs : List Entry) (e : Entry)
      → IsUp p xs
      → length xs ≡ suc i
      → get_elem? xs i ≡ some e
      → p e ≡ false
      → unless xs ≡ xs
  keep_last i [] e u l h f = cc
  keep_last zero (x ∷ []) e u l h f = ground arith
  keep_last zero (x ∷ y ∷ xs) e u l h f = absurd (omega arith)
  keep_last (suc i) (x ∷ xs) e u l h f = elim (Bool-cases (p x)) [
    | inl t ↦
        let t' : p e ≡ true = All-get (λ y. p y ≡ true) i xs e (u.0 t) h in absurd (not_both t' f)
    | inr f' ↦ rw f' (ap (◌∷◌ x) (keep_last i xs e u.1 (omega arith) h f))
  ]
    where
      not_both : {b : Bool} → b ≡ true → b ≡ false → ⊥
      not_both t f = cc

last_entry : (i : ℕ) (xs : List Entry) → length xs ≡ suc i → (e : Entry) × (get_elem? xs i ≡ some e)
last_entry i [] l = absurd (omega arith)
last_entry zero (x ∷ xs) l = (x, refl)
last_entry (suc i) (x ∷ xs) l = last_entry i xs (omega arith)

-- What a run of the loop over the whole slice leaves.
abbrev Pruned : ℕ → ℕ → Store → Store × ℕ → Type 0
Pruned now n s (t, m) =
    IsIndexed t
    × (t.ordered ≡ keep_if (λ e. not (is_expired s.retention now e)) s.ordered)
    × (m + length t.ordered ≡ n + length s.ordered)
    × (t.retention ≡ s.retention)
    × (t.pruned ≡ s.pruned)

popped : Store → ℕ → Entry → Store
popped s i x = record s { by_id = del x.ev.id s.by_id; ordered = take i s.ordered }

popped-IsIndexed :
    (s : Store) (i : ℕ) (x : Entry)
    → IsIndexed s
    → length s.ordered ≡ suc i
    → get_elem? s.ordered i ≡ some x
    → IsIndexed (popped s i x)
unfolding popped
popped-IsIndexed s i x v l h = record {
  desc = take-Desc i s.ordered v.desc;
  uniq = take-Uniq i s.ordered v.uniq;
  agree = λ id.
      get-del x.ev.id id s.by_id ∙ rw (v.agree id) (sym (find-take id i s.ordered x l h v.uniq));
}

prune_more :
    (now i : ℕ) (s : Store) (n : ℕ) (x : Entry)
    → get_elem? s.ordered i ≡ some x
    → is_expired s.retention now x ≡ true
    → prune_loop now (suc i) s n ≡ prune_loop now i (popped s i x) (n + 1)
unfolding prune_loop popped
prune_more now i s n x h t = rw (h, prune_loop) (rw t)

prune_done :
    (now i : ℕ) (s : Store) (n : ℕ) (x : Entry)
    → get_elem? s.ordered i ≡ some x
    → is_expired s.retention now x ≡ false
    → prune_loop now (suc i) s n ≡ (s, n)
unfolding prune_loop
prune_done now i s n x h f = rw (h, prune_loop) (rw f)

prune_loop-Pruned :
    (now i : ℕ) (s : Store) (n : ℕ)
    → length s.ordered ≡ i
    → IsIndexed s
    → Pruned now n s (prune_loop now i s n)
unfolding prune_loop popped
prune_loop-Pruned now zero s n l v = (v, empty s.ordered l, refl, refl, refl)
  where
    empty :
        (xs : List Entry)
        → length xs ≡ 0
        → xs ≡ keep_if (λ e. not (is_expired s.retention now e)) xs
    empty [] l = refl
    empty (x ∷ xs) l = absurd (omega arith)
prune_loop-Pruned now (suc i) s n l v = pop (last_entry i s.ordered l) (λ x h.
    prune_loop-Pruned now i (popped s i x) (n + 1) (omega (arith, length-take i s.ordered))
      (popped-IsIndexed s i x v l h))
  where
    pop :
        (q : (x : Entry) × (get_elem? s.ordered i ≡ some x))
        → ((x : Entry)
            → get_elem? s.ordered i ≡ some x
            → Pruned now (n + 1) (popped s i x) (prune_loop now i (popped s i x) (n + 1)))
        → Pruned now n s (prune_loop now (suc i) s n)
    pop (x, h) ih = elim (Bool-cases (is_expired s.retention now x)) [
      | inl t ↦ rw (prune_more now i s n x h t) (
          let (w, o, m, r, c) = ih x h in
          (
            w,
            o ∙ drop_last (is_expired s.retention now) i s.ordered x l h t,
            omega (arith, m, length-take i s.ordered),
            r,
            c,
          ))
      | inr f ↦ rw (prune_done now i s n x h f) (
        v,
        sym (
            keep_last (is_expired s.retention now) i s.ordered x
              (IsUp-is_expired s.retention now s.ordered v.desc) l h f),
        refl,
        refl,
        refl,
      )
    ]

-- Prune forgets exactly the events that started before the retention window, says how many, adds
-- them to the counter modulo 2^64, and keeps the map and the slice one index.
pub prune-ordered :
    (now : ℕ) (s : Store)
    → IsIndexed s
    → IsIndexed (prune now s).0
      × ((prune now s).0.ordered ≡ keep_if (λ e. not (is_expired s.retention now e)) s.ordered)
      × ((prune now s).1 + length (prune now s).0.ordered ≡ length s.ordered)
      × ((prune now s).0.pruned ≡ (s.pruned + (prune now s).1) % 2 ^ 64)
unfolding prune
prune-ordered now s v =
    let q = prune_loop-Pruned now (length s.ordered) s 0 refl v in
    (
      record { desc = q.0.desc; uniq = q.0.uniq; agree = q.0.agree },
      q.1,
      omega (arith, q.2),
      rw q.4 refl,
    )
