-- ===== src/Store/Index.antt =====
-- internal/store/store.go, Apply and Get: the map and the ordered slice stay one index, and the
-- store reads as a finite map from ids to their newest state.
use curtilage.Prelude.{
  ℕ, ◌≡◌, refl, sym, ◌∙◌, inl, inr, true, false, List, [], ◌∷◌, none, some, Text, All, All-map,
  arith, if◌then◌else◌, ◌==◌, eq_text, Bool-cases, Option-cases, text_eq_iff,
}
use curtilage.Prelude.Map.{get, get-put}
use curtilage.Policy.{Change}
use curtilage.Store.{
  Store, Entry, new, apply, position, is_older, ordered_without, applied_entry, get_event,
}
use curtilage.Store.Order.{older, older_trans, older_total}
use curtilage.Store.Slice.{
  Desc, Uniq, find, without, insert_sorted, insert-insert_sorted, remove-without,
}

-- The slice is in list order and free of repeated ids, and the map finds what the slice holds.
pub record IsIndexed (s : Store) : Type 0 where
  pub desc : Desc s.ordered
  pub uniq : Uniq s.ordered
  pub agree : (id : Text) → get id s.by_id ≡ find id s.ordered

abbrev Lacks : Text → List Entry → Type 0
Lacks id = All (λ y. (y.ev.id == id) ≡ false)

without-Lacks : (id : Text) (xs : List Entry) → Lacks id (without id xs)
without-Lacks id [] = tt
without-Lacks id (x ∷ xs) = ground (arith, without-Lacks id xs)

without-All : (P : Entry → Type 0) (id : Text) (xs : List Entry) → All P xs → All P (without id xs)
without-All P id [] a = tt
without-All P id (x ∷ xs) a = ground (arith, without-All P id xs a.1)

without-Desc : (id : Text) (xs : List Entry) → Desc xs → Desc (without id xs)
without-Desc id [] d = tt
without-Desc id (x ∷ xs) d = ground (
  arith,
  without-Desc id xs d.1,
  without-All (λ y. older (position y) (position x) ≡ true) id xs d.0,
)

without-Uniq : (id : Text) (xs : List Entry) → Uniq xs → Uniq (without id xs)
without-Uniq id [] u = tt
without-Uniq id (x ∷ xs) u =
    ground
      (arith, without-Uniq id xs u.1, without-All (λ y. (y.ev.id == x.ev.id) ≡ false) id xs u.0)

find-without :
    (k id : Text) (xs : List Entry)
    → find id (without k xs) ≡ (if k == id then none else find id xs)
find-without k id [] = ground arith
find-without k id (x ∷ xs) =
    ground
      (arith, find-without k id xs, text_eq_iff x.ev.id k, text_eq_iff x.ev.id id, text_eq_iff k id)

insert_sorted-All :
    (P : Entry → Type 0) (e : Entry) (xs : List Entry) → P e → All P xs → All P (insert_sorted e xs)
insert_sorted-All P e [] p a = (p, tt)
insert_sorted-All P e (x ∷ xs) p a = ground (arith, insert_sorted-All P e xs p a.1)

-- Of two entries with different ids, one is older.
older_of_ne :
    (a b : Entry)
    → (a.ev.id == b.ev.id) ≡ false
    → older (position a) (position b) ≡ false
    → older (position b) (position a) ≡ true
older_of_ne a b n h =
    ground (arith, older_total (position a) (position b), text_eq_iff a.ev.id b.ev.id)

insert_sorted-Desc :
    (e : Entry) (xs : List Entry) → Desc xs → Lacks e.ev.id xs → Desc (insert_sorted e xs)
insert_sorted-Desc e [] d l = (tt, tt)
insert_sorted-Desc e (x ∷ xs) d l = elim (Bool-cases (is_older (position e) x)) [
  | inl t ↦
      rw t
        ((t, All-map _ _ xs (λ y k. older_trans (position y) (position x) (position e) k t) d.0), d)
  | inr f ↦ rw f (
    insert_sorted-All (λ y. older (position y) (position x) ≡ true) e xs (older_of_ne x e l.0 f)
        d.0,
    insert_sorted-Desc e xs d.1 l.1,
  )
]

lacks_sym : (a b : Text) → (a == b) ≡ false → (b == a) ≡ false
lacks_sym a b h = ground (arith, text_eq_iff a b, text_eq_iff b a)

insert_sorted-Uniq :
    (e : Entry) (xs : List Entry) → Uniq xs → Lacks e.ev.id xs → Uniq (insert_sorted e xs)
insert_sorted-Uniq e [] u l = (tt, tt)
insert_sorted-Uniq e (x ∷ xs) u l = ground (
  arith,
  lacks_sym x.ev.id e.ev.id,
  insert_sorted-All (λ y. (y.ev.id == x.ev.id) ≡ false) e xs (lacks_sym x.ev.id e.ev.id l.0) u.0,
  insert_sorted-Uniq e xs u.1 l.1,
)

find-insert_sorted :
    (id : Text) (e : Entry) (xs : List Entry)
    → Lacks e.ev.id xs
    → find id (insert_sorted e xs) ≡ (if e.ev.id == id then some e else find id xs)
find-insert_sorted id e [] l = refl
find-insert_sorted id e (x ∷ xs) l = ground (
  arith,
  find-insert_sorted id e xs l.1,
  text_eq_iff x.ev.id e.ev.id,
  text_eq_iff x.ev.id id,
  text_eq_iff e.ev.id id,
)

-- Taking out the entry that the map has leaves the slice without that id.
ordered_without-without :
    (id : Text) (s : Store)
    → IsIndexed s
    → ordered_without (get id s.by_id) s.ordered ≡ without id s.ordered
unfolding ordered_without
ordered_without-without id s v = elim (Option-cases (get id s.by_id)) [
  | inl n ↦ rw n (sym (absent s.ordered (sym (v.agree id) ∙ n)))
  | inr (e, h) ↦ rw h (remove-without id e s.ordered v.desc v.uniq (sym (v.agree id) ∙ h))
]
  where
    absent : (xs : List Entry) → find id xs ≡ none → without id xs ≡ xs
    absent [] n = refl
    absent (x ∷ xs) n = ground (arith, absent xs)

-- What Apply makes of the ordered slice.
pub apply-ordered :
    (at : ℕ) (c : Change) (s : Store)
    → IsIndexed s
    → (apply at c s).ordered ≡ insert_sorted (applied_entry at c s) (without c.event.id s.ordered)
unfolding apply
apply-ordered at c s v = rw (ordered_without-without c.event.id s v) (
    insert-insert_sorted (applied_entry at c s) (without c.event.id s.ordered)
      (without-Desc c.event.id s.ordered v.desc))

pub new-IsIndexed : (retention : ℕ) → IsIndexed (new retention)
unfolding new
new-IsIndexed retention = record { desc = tt; uniq = tt; agree = λ id. refl }

applied_id : (at : ℕ) (c : Change) (s : Store) → (applied_entry at c s).ev.id ≡ c.event.id
unfolding applied_entry
applied_id at c s = refl

-- Apply keeps the ordered slice sorted newest first and free of repeated ids, and the map finds
-- exactly what the slice holds.
pub apply-IsIndexed : (at : ℕ) (c : Change) (s : Store) → IsIndexed s → IsIndexed (apply at c s)
apply-IsIndexed at c s v = record {
  desc =
      rw (apply-ordered at c s v)
        (insert_sorted-Desc e rest (without-Desc id s.ordered v.desc) fresh);
  uniq =
      rw (apply-ordered at c s v)
        (insert_sorted-Uniq e rest (without-Uniq id s.ordered v.uniq) fresh);
  agree = λ j. rw (apply-ordered at c s v) (by_id j ∙ sym (find-insert_sorted j e rest fresh));
}
  where
    e : Entry
    e = applied_entry at c s

    id : Text
    id = c.event.id

    rest : List Entry
    rest = without id s.ordered

    fresh : Lacks e.ev.id rest
    fresh = rw (applied_id at c s) (without-Lacks id s.ordered)

    by_id : (j : Text) → get j (apply at c s).by_id ≡ (if e.ev.id == j then some e else find j rest)
    by_id j =
        unfold apply in
        ground
          (arith, applied_id at c s, get-put id j e s.by_id, find-without id j s.ordered, v.agree j)

-- The store reads as a map from ids to events: Apply sets the event of its id and no other.
pub get_event-apply :
    (id : Text) (at : ℕ) (c : Change) (s : Store)
    → get_event id (apply at c s) ≡ (if c.event.id == id then some c.event else get_event id s)
unfolding get_event apply
get_event-apply id at c s = ground (arith, get-put c.event.id id (applied_entry at c s) s.by_id)
