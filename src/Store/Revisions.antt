-- ===== src/Store/Revisions.antt =====
-- internal/store/store.go, Apply and History: the revisions that are kept of an event.
use curtilage.Prelude.{
  ℕ, ◌+◌, ◌-◌, ◌≤◌, ◌≡◌, ◌≢◌, refl, ap, inl, inr, List, [], ◌∷◌, ◌++◌, true, false, some, Text,
  arith, ltb, length, length-append, drop, take, Bool-cases, eq_text, text_eq_iff, if◌then◌else◌,
}
use curtilage.Prelude.Map.{get, get-put}
use curtilage.Policy.{Change}
use curtilage.Store.{
  Store, Revision, apply, applied_entry, record_revision, history, history_of, max_history,
}

-- With the first and the newest kept, a full list loses its second revision to the new one.
abbrev extended : Revision → List Revision → List Revision
extended r old =
    if ltb (length old) max_history then old ++ r ∷ [] else take 1 old ++ (drop 2 old ++ r ∷ [])

record_revision-extended :
    (r : Revision) (old : List Revision)
    → length old ≤ max_history
    → record_revision r old ≡ extended r old
unfolding record_revision
record_revision-extended r [] b = refl
record_revision-extended r (x ∷ []) b = refl
record_revision-extended r (x ∷ y ∷ xs) b =
    elim (Bool-cases (ltb (length (x ∷ y ∷ xs)) max_history)) [
      | inl t ↦
          let f : ltb max_history (length (x ∷ y ∷ xs ++ r ∷ [])) ≡ false =
            ground (arith, t, length-append xs (r ∷ [])) in
          rw (f, t) refl
      | inr f ↦
          let t : ltb max_history (length (x ∷ y ∷ xs ++ r ∷ [])) ≡ true =
            ground (arith, f, length-append xs (r ∷ [])) in
          let two : length (x ∷ y ∷ xs ++ r ∷ []) - max_history + 1 ≡ 2 =
            ground (arith, f, length-append xs (r ∷ [])) in
          rw (f, t) (ap (λ k. x ∷ drop k (x ∷ y ∷ xs ++ r ∷ [])) two)
    ]

length-extended :
    (r : Revision) (old : List Revision)
    → length old ≤ max_history
    → length (extended r old) ≤ max_history
length-extended r [] b = omega arith
length-extended r (x ∷ []) b = omega arith
length-extended r (x ∷ y ∷ xs) b = ground (arith, length-append xs (r ∷ []))

-- Apply adds its revision to those that the event has, given that these are at most 64. While there
-- are fewer than 64 all of them stay; of 64 only the second is dropped, so that the first ever said
-- stays first and the others keep their order. There are then at most 64, and no other event's
-- revisions change.
pub apply-history :
    (at : ℕ) (c : Change) (s : Store)
    → length (history c.event.id s) ≤ max_history
    → let r : Revision = record { at = at; op = c.op; event = c.event } in
      let old : List Revision = history c.event.id s in
      (history c.event.id (apply at c s) ≡ (
        if ltb (length old) max_history
        then old ++ r ∷ []
        else take 1 old ++ (drop 2 old ++ r ∷ [])))
      × (length (history c.event.id (apply at c s)) ≤ max_history)
      × ((id : Text) → c.event.id ≢ id → history id (apply at c s) ≡ history id s)
unfolding history apply
apply-history at c s b =
    let r : Revision = record { at = at; op = c.op; event = c.event } in
    let old : List Revision = history_of (get c.event.id s.by_id) in
    let self : get c.event.id (apply at c s).by_id ≡ some (applied_entry at c s) = ground (
      arith,
      get-put c.event.id c.event.id (applied_entry at c s) s.by_id,
      text_eq_iff c.event.id c.event.id,
    ) in
    (
      rw self (record_revision-extended r old b),
      rw self (rw (record_revision-extended r old b) (length-extended r old b)),
      λ id ne. ground (
        arith,
        get-put c.event.id id (applied_entry at c s) s.by_id,
        text_eq_iff c.event.id id,
        ne,
      ),
    )
