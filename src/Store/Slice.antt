-- ===== src/Store/Slice.antt =====
-- internal/store/store.go, insert and remove against plain recursions: on a slice in list order the
-- binary searches find the place, and the pointer test finds the entry itself.
use curtilage.Prelude.{
  ◌≡◌, refl, inl, inr, Bool, true, false, not, List, [], ◌∷◌, ◌++◌, Option, none, some, Text, take,
  drop, get_elem?, keep_if, All, All-map, arith, if◌then◌else◌, ◌==◌, eq_text, Bool-cases,
  text_eq_iff,
}
use curtilage.Prelude.Search.{search-first_index, first_index, IsUp}
use curtilage.Store.{Entry, insert, remove, position, is_older, is_newer, delete_at}
use curtilage.Store.Order.{Cursor, older, newer, newer-eq-older, older_irrefl, older_trans}

-- In list order: every later entry is older.
abbrev pub Desc : List Entry → Type 0
Desc [] = Unit
Desc (x ∷ xs) = All (λ y. older (position y) (position x) ≡ true) xs × Desc xs

-- No id stands twice.
abbrev pub Uniq : List Entry → Type 0
Uniq [] = Unit
Uniq (x ∷ xs) = All (λ y. (y.ev.id == x.ev.id) ≡ false) xs × Uniq xs

abbrev pub find : Text → List Entry → Option Entry
find id [] = none
find id (x ∷ xs) = if x.ev.id == id then some x else find id xs

abbrev pub without : Text → List Entry → List Entry
without id = keep_if (λ x. not (x.ev.id == id))

abbrev pub insert_sorted : Entry → List Entry → List Entry
insert_sorted e [] = e ∷ []
insert_sorted e (x ∷ xs) = if is_older (position e) x then e ∷ x ∷ xs else x ∷ insert_sorted e xs

pub IsUp-is_older : (c : Cursor) (xs : List Entry) → Desc xs → IsUp (is_older c) xs
IsUp-is_older c [] d = tt
IsUp-is_older c (x ∷ xs) d = (
  (λ h. All-map _ _ xs (λ y k. older_trans (position y) (position x) c k h) d.0),
  IsUp-is_older c xs d.1,
)

not-newer_mono :
    (c x y : Cursor) → older y x ≡ true → not (newer x c) ≡ true → not (newer y c) ≡ true
not-newer_mono c x y k h = elim (Bool-cases (older c y)) [
  | inl t ↦ ground (arith, older_trans c y x t k, newer-eq-older x c, newer-eq-older y c)
  | inr f ↦ rw (newer-eq-older y c, f)
]

IsUp-not_newer : (c : Cursor) (xs : List Entry) → Desc xs → IsUp (λ x. not (is_newer c x)) xs
IsUp-not_newer c [] d = tt
IsUp-not_newer c (x ∷ xs) d = (
  (λ h. All-map _ _ xs (λ y k. not-newer_mono c (position x) (position y) k h) d.0),
  IsUp-not_newer c xs d.1,
)

at_first_index :
    (e : Entry) (xs : List Entry)
    → take (first_index (is_older (position e)) xs) xs
        ++ e ∷ drop (first_index (is_older (position e)) xs) xs
      ≡ insert_sorted e xs
at_first_index e [] = refl
at_first_index e (x ∷ xs) = ground (arith, at_first_index e xs)

pub insert-insert_sorted :
    (e : Entry) (xs : List Entry) → Desc xs → insert e xs ≡ insert_sorted e xs
unfolding insert
insert-insert_sorted e xs d =
    rw (search-first_index (is_older (position e)) xs (IsUp-is_older (position e) xs d))
      (at_first_index e xs)

-- `find` finds an entry older than all that stand before it.
find-older :
    (c : Cursor) (id : Text) (e : Entry) (xs : List Entry)
    → All (λ y. older (position y) c ≡ true) xs
    → find id xs ≡ some e
    → older (position e) c ≡ true
find-older c id e [] a h = cc
find-older c id e (x ∷ xs) a h = ground (arith, find-older c id e xs a.1)

without_fresh :
    (id : Text) (xs : List Entry) → All (λ y. (y.ev.id == id) ≡ false) xs → without id xs ≡ xs
without_fresh id [] a = refl
without_fresh id (x ∷ xs) a = ground (arith, without_fresh id xs a.1)

find_id : (id : Text) (e : Entry) (xs : List Entry) → find id xs ≡ some e → e.ev.id ≡ id
find_id id e [] h = cc
find_id id e (x ∷ xs) h = ground (arith, find_id id e xs, text_eq_iff x.ev.id id)

abbrev past : Entry → Entry → Bool
past e x = not (is_newer (position e) x)

past_self : (e : Entry) → past e e ≡ true
past_self e = rw (newer-eq-older (position e) (position e), older_irrefl (position e))

past_before : (e x : Entry) → older (position e) (position x) ≡ true → past e x ≡ false
past_before e x h = rw (newer-eq-older (position x) (position e), h)

delete_first :
    (id : Text) (e : Entry) (xs : List Entry)
    → Desc xs
    → Uniq xs
    → find id xs ≡ some e
    → (get_elem? xs (first_index (past e) xs) ≡ some e)
      × (delete_at (first_index (past e) xs) xs ≡ without id xs)
unfolding delete_at
delete_first id e [] d u h = cc
delete_first id e (x ∷ xs) d u h = elim (Bool-cases (x.ev.id == id)) [
  | inl here ↦
      let same : x ≡ e = ground arith in
      let at : x.ev.id ≡ id = (text_eq_iff x.ev.id id).0 here in
      let p : past e x ≡ true = rw same (past_self e) in
      let rest : without id xs ≡ xs = without_fresh id xs (rw (← at) u.0) in
      (ground arith, ground arith)
  | inr there ↦
      let found : find id xs ≡ some e = ground arith in
      let p : past e x ≡ false = past_before e x (find-older (position x) id e xs d.0 found) in
      let ih = delete_first id e xs d.1 u.1 found in (ground (arith, ih), ground (arith, ih))
]

-- remove takes out exactly the entry with that id.
pub remove-without :
    (id : Text) (e : Entry) (xs : List Entry)
    → Desc xs
    → Uniq xs
    → find id xs ≡ some e
    → remove e xs ≡ without id xs
unfolding remove
remove-without id e xs d u h =
    let q = delete_first id e xs d u h in
    rw (search-first_index (past e) xs (IsUp-not_newer (position e) xs d), q.0)
      (ground (arith, q.1))
