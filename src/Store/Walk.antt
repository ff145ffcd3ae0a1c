-- ===== src/Store/Walk.antt =====
-- internal/store/store.go, List called page after page, each with the token of the one before.
use curtilage.Prelude.{
  ℕ, zero, suc, ◌+◌, ◌<◌, ◌≡◌, refl, ap, sym, ◌∙◌, inl, inr, Bool, true, List, [], ◌∷◌, ◌++◌,
  Option, none, some, Text, All, arith, length, take, drop, keep_if, last_of, length-drop,
  Option-cases, take-append-drop,
}
use curtilage.Prelude.Search.{search-first_index, first_index}
use curtilage.Policy.{Event}
use curtilage.Store.{Store, Entry, position, is_older}
use curtilage.Store.Order.{Cursor, older, older_asym}
use curtilage.Store.Slice.{Desc, IsUp-is_older}
use curtilage.Store.Index.{IsIndexed}
use curtilage.Store.Pages.{list, start_at, cursor_of, left, events, page-left, last_All, resume}

All-drop : (P : Entry → Type 0) (k : ℕ) (xs : List Entry) → All P xs → All P (drop k xs)
All-drop P zero xs a = a
All-drop P (suc k) [] a = tt
All-drop P (suc k) (x ∷ xs) a = All-drop P k xs a.1

Desc-drop : (k : ℕ) (xs : List Entry) → Desc xs → Desc (drop k xs)
Desc-drop zero xs d = d
Desc-drop (suc k) [] d = tt
Desc-drop (suc k) (x ∷ xs) d = Desc-drop k xs d.1

-- The place after an entry of the suffix is the same from the whole slice.
drop_past :
    (w : Entry → Bool) (n k : ℕ) (xs : List Entry) (e : Entry)
    → Desc xs
    → last_of (take n (keep_if w (drop k xs))) ≡ some e
    → drop (first_index (is_older (position e)) xs) xs
      ≡ drop (first_index (is_older (position e)) (drop k xs)) (drop k xs)
drop_past w n zero xs e d h = refl
drop_past w n (suc k) [] e d h = refl
drop_past w n (suc k) (x ∷ xs) e d h =
    let p : older (position e) (position x) ≡ true =
      last_All w _ n (drop k xs) e (All-drop _ k xs d.0) h in
    rw (older_asym (position e) (position x) p) (drop_past w n k xs e d.1 h)

cursor_of-last :
    (l : List Entry) (c : Cursor)
    → cursor_of (last_of (events l)) ≡ some c
    → (e : Entry) × (last_of l ≡ some e) × (position e ≡ c)
unfolding cursor_of
cursor_of-last [] c h = cc
cursor_of-last (x ∷ []) c h = (x, refl, ground arith)
cursor_of-last (x ∷ y ∷ l) c h = cursor_of-last (y ∷ l) c h

next-cursor :
    (cameras : List Text) (n : ℕ) (after : Option Cursor) (s : Store)
    → (list cameras n after s).1 ≡ cursor_of (last_of (list cameras n after s).0)
unfolding list
next-cursor cameras n after s = refl

-- The token of a page of `n` leaves what is left, less the first `n`.
pub left-next :
    (cameras : List Text) (n : ℕ) (after : Option Cursor) (s : Store) (c : Cursor)
    → IsIndexed s
    → (list cameras n after s).1 ≡ some c
    → left cameras (some c) s ≡ drop n (left cameras after s)
left-next cameras n after s c v h = go (cursor_of-last (take n (left cameras after s)) c last)
  where
    last : cursor_of (last_of (events (take n (left cameras after s)))) ≡ some c
    last = rw (← page-left cameras n after s) (sym (next-cursor cameras n after s) ∙ h)

    go :
        (e : Entry) × (last_of (take n (left cameras after s)) ≡ some e) × (position e ≡ c)
        → left cameras (some c) s ≡ drop n (left cameras after s)
    go (e, l, p) =
        unfold start_at in
        rw (← p) (
          rw
            (search-first_index (is_older (position e)) s.ordered
              (IsUp-is_older (position e) s.ordered v.desc))
            (rw (drop_past _ n (start_at after s.ordered) s.ordered e v.desc l) (
              resume _ n (drop (start_at after s.ordered) s.ordered) e
                (Desc-drop (start_at after s.ordered) s.ordered v.desc) l)))

take-nil {ℓ} : {A : Type ℓ} (n : ℕ) → take {A = A} n [] ≡ []
take-nil zero = refl
take-nil (suc n) = refl

take-add {ℓ} : {A : Type ℓ} (n m : ℕ) (l : List A) → take n l ++ take m (drop n l) ≡ take (n + m) l
take-add zero m l = ap (λ k. take k l) (omega arith)
take-add (suc n) m [] = let e : suc n + m ≡ suc (n + m) = omega arith in rw e (take-nil m)
take-add (suc n) m (x ∷ l) =
    let e : suc n + m ≡ suc (n + m) = omega arith in rw e (ap (◌∷◌ x) (take-add n m l))

events-append : (a b : List Entry) → events (a ++ b) ≡ events a ++ events b
events-append [] b = refl
events-append (x ∷ a) b = rw (events-append a b)

-- Two pages, the second with the token of the first, are one page of both sizes: nothing is
-- skipped and nothing is listed twice, with or without a camera filter.
pub list-list :
    (cameras : List Text) (n m : ℕ) (after : Option Cursor) (s : Store) (c : Cursor)
    → IsIndexed s
    → (list cameras n after s).1 ≡ some c
    → (list cameras n after s).0 ++ (list cameras m (some c) s).0 ≡ (list cameras (n + m) after s).0
list-list cameras n m after s c v h =
    rw
      (
        page-left cameras n after s,
        page-left cameras m (some c) s,
        page-left cameras (n + m) after s,
        left-next cameras n after s c v h,
        ← take-add n m (left cameras after s),
      )
      (sym (events-append (take n (left cameras after s)) (take m (drop n (left cameras after s)))))

following : List Event → Option (List Event) → Option (List Event)
following page none = none
following page (some rest) = some (page ++ rest)

-- A client that follows the tokens until one is empty; none when it is still going after that many
-- calls.
pub walk : ℕ → List Text → ℕ → Option Cursor → Store → Option (List Event)
walk zero cameras n after s = none
walk (suc fuel) cameras n after s = elim (list cameras n after s).1 [
  | none ↦ some (list cameras n after s).0
  | some c ↦ following (list cameras n after s).0 (walk fuel cameras n (some c) s)
]

no_cursor :
    (n : ℕ) (l : List Entry) → 0 < n → cursor_of (last_of (events (take n l))) ≡ none → l ≡ []
unfolding cursor_of
no_cursor zero l p h = absurd (omega arith)
no_cursor (suc n) [] p h = refl
no_cursor (suc n) (x ∷ l) p h = go (take n l) x h
  where
    go : (k : List Entry) (y : Entry) → cursor_of (last_of (events (y ∷ k))) ≡ none → x ∷ l ≡ []
    go [] y q = cc
    go (z ∷ k) y q = go k z q

-- In a store whose map and slice are one index, from any token, a client that follows the tokens
-- with a positive page size comes to an empty token within one call more than there are wanted
-- events past its own, and has then been given each of these once, newest first.
pub walk-left :
    (fuel : ℕ) (cameras : List Text) (n : ℕ) (after : Option Cursor) (s : Store)
    → IsIndexed s
    → 0 < n
    → length (left cameras after s) < fuel
    → walk fuel cameras n after s ≡ some (events (left cameras after s))
unfolding walk following
walk-left zero cameras n after s v p h = elim h [ ]
walk-left (suc fuel) cameras n after s v p h = elim (Option-cases (list cameras n after s).1) [
  | inl e ↦
      let none_left : left cameras after s ≡ [] =
        no_cursor n (left cameras after s) p
          (rw (← page-left cameras n after s, ← next-cursor cameras n after s) e) in
      rw (e, walk)
        (rw (page-left cameras n after s) (rw none_left (ap (λ l. some (events l)) (take-nil n))))
  | inr (c, e) ↦
      let q : left cameras (some c) s ≡ drop n (left cameras after s) =
        left-next cameras n after s c v e in
      rw (e, walk)
        (rw
          (
            page-left cameras n after s,
            walk-left fuel cameras n (some c) s v p (rw q (shorter c e)),
            q,
          )
          (ap some (
            sym (events-append (take n (left cameras after s)) (drop n (left cameras after s)))
            ∙ ap events (take-append-drop n (left cameras after s)))))
]
  where
    shorter :
        (c : Cursor)
        → (list cameras n after s).1 ≡ some c
        → length (drop n (left cameras after s)) < fuel
    shorter c e =
        some_left (left cameras after s) (cursor_of-last (take n (left cameras after s)) c last) h
      where
        last : cursor_of (last_of (events (take n (left cameras after s)))) ≡ some c
        last = rw (← page-left cameras n after s) (sym (next-cursor cameras n after s) ∙ e)

        some_left :
            (l : List Entry)
            → (x : Entry) × (last_of (take n l) ≡ some x) × (position x ≡ c)
            → length l < suc fuel
            → length (drop n l) < fuel
        some_left [] (x, q, r) lt = absurd (impossible x (rw (take-nil {A = Entry} n) at q))
          where
            impossible : (x : Entry) → none ≡ some x → ⊥
            impossible x q = cc
        some_left (y ∷ l) (x, q, r) lt = omega (arith, length-drop n (y ∷ l))
