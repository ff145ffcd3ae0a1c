-- ===== src/Prelude/Search.antt =====
-- sort.Search, the standard library's binary search, as its documentation and loop have it, and
-- the same over a slice whose test turns from false to true once.
use Prim.Native.Nat.{ℕ, zero, suc, ◌+◌, ◌-◌, ◌/◌, ◌<◌, ◌≤◌}
use mathlib.Core.Path.{◌≡◌}
use mathlib.Core.Logic.{inl, inr}
use mathlib.Core.Bool.{Bool, true, false}
use mathlib.Core.List.{List, [], ◌∷◌}
use mathlib.Core.Option.{none, some}
use native.Mathlib.Omega.{arith}
use curtilage.Prelude.Tests.{ltb, if◌then◌else◌, Bool-cases}
use curtilage.Prelude.Lists.{length, get_elem?, All}

-- `for i < j { h := (i + j) / 2; if !f(h) { i = h + 1 } else { j = h } }`: each round shortens
-- `j - i`, so a fuel above it is enough.
search_loop : ℕ → (ℕ → Bool) → ℕ → ℕ → ℕ
search_loop zero f i j = i
search_loop (suc fuel) f i j =
    let h = (i + j) / 2 in
    let right = search_loop fuel f (h + 1) j in
    let left = search_loop fuel f i h in if ltb i j then (if f h then left else right) else i

unfoldable pub search_from : ℕ → (ℕ → Bool) → ℕ
unfolding search_loop
search_from n f = search_loop (suc n) f 0 n

-- `f` is false below `r` and true from `r` up to `n`.
abbrev IsEdge : ℕ → (ℕ → Bool) → ℕ → Type 0
IsEdge n f r = (r ≤ n) × ((k : ℕ) → k < r → f k ≡ false) × ((k : ℕ) → r ≤ k → k < n → f k ≡ true)

module _ (n : ℕ) (f : ℕ → Bool) (up : (a b : ℕ) → a ≤ b → b < n → f a ≡ true → f b ≡ true) where
  below_false : (h k : ℕ) → h < n → f h ≡ false → k ≤ h → f k ≡ false
  below_false h k hn e kh = elim (Bool-cases (f k)) [
    | inl t ↦ let t' : f h ≡ true = up k h kh hn t in cc
    | inr t ↦ t
  ]

  search_loop-IsEdge :
      (fuel i j : ℕ)
      → j - i < fuel
      → i ≤ j
      → j ≤ n
      → ((k : ℕ) → k < i → f k ≡ false)
      → ((k : ℕ) → j ≤ k → k < n → f k ≡ true)
      → IsEdge n f (search_loop fuel f i j)
  unfolding search_loop
  search_loop-IsEdge zero i j fu ij jn lo hi = absurd (omega arith)
  search_loop-IsEdge (suc fuel) i j fu ij jn lo hi = elim (Bool-cases (ltb i j)) [
    | inl more ↦ elim (Bool-cases (f ((i + j) / 2))) [
      | inl t ↦
          rw (more, t)
            (search_loop-IsEdge fuel i ((i + j) / 2) (ground arith) (ground arith) (ground arith) lo
              (λ k hk kn. up ((i + j) / 2) k hk kn t))
      | inr t ↦
          rw (more, t)
            (search_loop-IsEdge fuel ((i + j) / 2 + 1) j (ground arith) (ground arith) jn
              (λ k hk. below_false ((i + j) / 2) k (ground arith) t (omega arith)) hi)
    ]
    | inr done ↦ rw done (ground arith, lo, λ k hk kn. hi k (ground arith) kn)
  ]

  search-IsEdge : IsEdge n f (search_from n f)
  unfolding search_from
  search-IsEdge =
      search_loop-IsEdge (suc n) 0 n (omega arith) (omega arith) (omega arith)
        (λ k h. absurd (omega arith)) (λ k h h'. absurd (omega arith))

module _ {ℓ} {A : Type ℓ} where
  -- The test at an index; an index out of range, at which Go panics, is never asked.
  abbrev pub holds_at : (A → Bool) → List A → ℕ → Bool
  holds_at p xs i = elim (get_elem? xs i) [ none ↦ false | some x ↦ p x ]

  -- sort.Search(len(xs), func(i int) bool { return p(xs[i]) })
  unfoldable pub search : (A → Bool) → List A → ℕ
  unfolding search_from
  search p xs = search_from (length xs) (holds_at p xs)

  -- The reference: the first index at which the test holds.
  abbrev pub first_index : (A → Bool) → List A → ℕ
  first_index p [] = 0
  first_index p (x ∷ xs) = let rest = suc (first_index p xs) in if p x then 0 else rest

  -- Once the test holds, it holds from there on.
  abbrev pub IsUp : (A → Bool) → List A → Type ℓ
  IsUp p [] = Unit
  IsUp p (x ∷ xs) = (p x ≡ true → All (λ y. p y ≡ true) xs) × IsUp p xs

module _ {ℓ} {A : Type ℓ} (p : A → Bool) where
  All-at : (xs : List A) (k : ℕ) → All (λ y. p y ≡ true) xs → k < length xs → holds_at p xs k ≡ true
  All-at [] k h lt = absurd (omega arith)
  All-at (x ∷ xs) zero h lt = h.0
  All-at (x ∷ xs) (suc k) h lt = All-at xs k h.1 (omega arith)

  IsUp-at :
      (xs : List A) (a b : ℕ)
      → IsUp p xs
      → a ≤ b
      → b < length xs
      → holds_at p xs a ≡ true
      → holds_at p xs b ≡ true
  IsUp-at [] a b u ab lt h = absurd (omega arith)
  IsUp-at (x ∷ xs) zero zero u ab lt h = h
  IsUp-at (x ∷ xs) zero (suc b) u ab lt h = All-at xs b (u.0 h) (omega arith)
  IsUp-at (x ∷ xs) (suc a) zero u ab lt h = absurd (omega arith)
  IsUp-at (x ∷ xs) (suc a) (suc b) u ab lt h = IsUp-at xs a b u.1 (omega arith) (omega arith) h

  first_index-le : (xs : List A) → first_index p xs ≤ length xs
  first_index-le [] = omega arith
  first_index-le (x ∷ xs) = ground (arith, first_index-le xs)

  first_index_below : (xs : List A) (k : ℕ) → k < first_index p xs → holds_at p xs k ≡ false
  first_index_below [] k h = absurd (omega arith)
  first_index_below (x ∷ xs) zero h = ground arith
  first_index_below (x ∷ xs) (suc k) h = ground (arith, first_index_below xs k)

  first_index_at :
      (xs : List A) → first_index p xs < length xs → holds_at p xs (first_index p xs) ≡ true
  first_index_at [] h = absurd (omega arith)
  first_index_at (x ∷ xs) h = ground (arith, first_index_at xs)

  -- On a slice over which the test turns once, the binary search finds the first index.
  pub search-first_index : (xs : List A) → IsUp p xs → search p xs ≡ first_index p xs
  unfolding search
  search-first_index xs u =
      edge_unique
        (search-IsEdge (length xs) (holds_at p xs) (λ a b ab lt h. IsUp-at xs a b u ab lt h))
    where
      edge_unique :
          IsEdge (length xs) (holds_at p xs) (search p xs) → search p xs ≡ first_index p xs
      edge_unique (le, below, above) = elim (Bool-cases (ltb (search p xs) (first_index p xs))) [
        | inl lt ↦
            let t : holds_at p xs (search p xs) ≡ true =
              above (search p xs) (omega arith) (ground (arith, first_index-le xs)) in
            let t' : holds_at p xs (search p xs) ≡ false =
              first_index_below xs (search p xs) (ground arith) in
            cc
        | inr ge ↦ elim (Bool-cases (ltb (first_index p xs) (search p xs))) [
          | inl lt ↦
              let t : holds_at p xs (first_index p xs) ≡ true = first_index_at xs (ground arith) in
              let t' : holds_at p xs (first_index p xs) ≡ false =
                below (first_index p xs) (ground arith) in
              cc
          | inr le' ↦ ground arith
        ]
      ]
