-- ===== src/Policy/Activity/Counting.antt =====
-- internal/policy/incidents.go: how many things an incident's event says there were.
use curtilage.Prelude.{
  ℕ, ◌+◌, ◌↔◌, ltb, nat_eq, max, ◌≡◌, ◌≤◌, refl, ◌∙◌, ap, Bool, true, List, [], ◌∷◌, some, Text,
  if◌then◌else◌, ◌==◌, eq_text, arith, Bool-cases, inl, inr, ◌≢◌, text_eq_iff,
}
use curtilage.Prelude.Map.{Map, put, get-put}
use curtilage.Policy.{Event, Digest}
use curtilage.Policy.Activity.{
  Member, live_end, Draft, counts_with, concurrent, count_if, count_of, Incident, finish, build_of,
  build, first_draft, is_zoned, include_member, anchor, draft,
}

-- The instant up to which a member is known to be there
abbrev pub seen_until : Member → ℕ → ℕ
seen_until m at = if nat_eq m.end 0 then at else m.end

-- The member `o` is with `m`: it has its camera and label, it was there when `m` came, and it stays
-- for the overlap after that.
abbrev pub IsWith : ℕ → ℕ → Member → Member → Type 0
IsWith overlap at m o =
    (o.camera ≡ m.camera)
    × (o.label ≡ m.label)
    × (o.start ≤ m.start)
    × (m.start + overlap ≤ seen_until o at)

pub counts_with-IsWith :
    (overlap at : ℕ) (m o : Member)
    → (counts_with m (m.start + overlap) at o ≡ true) ↔ IsWith overlap at m o
unfolding counts_with live_end
counts_with-IsWith overlap at m o = (
  λ h. ground (arith, h, text_eq_iff o.camera m.camera, text_eq_iff o.label m.label),
  λ w.
      ground
        (arith, w.0, w.1, w.2, w.3, text_eq_iff o.camera m.camera, text_eq_iff o.label m.label),
)

-- Tests that agree on every member count the same.
count_if_same :
    (p q : Member → Bool) (ms : List Member)
    → ((o : Member) → (p o ≡ true) ↔ (q o ≡ true))
    → count_if p ms ≡ count_if q ms
count_if_same p q [] h = refl
count_if_same p q (o ∷ ms) h = ground (arith, h o, count_if_same p q ms h)

count_of-put :
    (k j : Text) (n : ℕ) (objects : Map Text ℕ)
    → count_of j (put k n objects) ≡ (if k == j then n else count_of j objects)
count_of-put k j n objects = elim (Bool-cases (k == j)) [
  | inl e ↦ rw (count_of, get-put k j n objects, e) refl
  | inr e ↦ rw (count_of, get-put k j n objects, e) refl
]

count_of-max :
    (k l : Text) (n : ℕ) (objects : Map Text ℕ)
    → count_of l (put k (max (count_of k objects) n) objects)
      ≡ (if k == l then max (count_of l objects) n else count_of l objects)
count_of-max k l n objects = elim (Bool-cases (k == l)) [
  | inl e ↦
      let same : k ≡ l = (text_eq_iff k l).0 e in
      rw (count_of-put k l (max (count_of k objects) n) objects, e)
        (ap (λ x. max (count_of x objects) n) same)
  | inr f ↦ rw (count_of-put k l (max (count_of k objects) n) objects, f) refl
]

count_of-include :
    (overlap : ℕ) (members : List Member) (at : ℕ) (m : Member) (b : Draft) (l : Text)
    → count_of l (include_member overlap members at m (anchor m b)).event.objects ≡ (
        if m.label == l
        then max (count_of l b.event.objects) (concurrent overlap members m at)
        else count_of l b.event.objects)
unfolding include_member anchor is_zoned
count_of-include overlap members at m b l = elim (Bool-cases (is_zoned m)) [
  | inl z ↦ rw z (count_of-max m.label l (concurrent overlap members m at) b.event.objects)
  | inr z ↦ rw z (count_of-max m.label l (concurrent overlap members m at) b.event.objects)
]

-- What the members `ms` make of the count `n` of a label.
abbrev pub counted : ℕ → List Member → ℕ → Text → List Member → ℕ → ℕ
counted overlap members at l [] n = n
counted overlap members at l (m ∷ ms) n =
    counted overlap members at l ms
      (if m.label == l then max n (concurrent overlap members m at) else n)

count_of-draft :
    (overlap : ℕ) (members : List Member) (at : ℕ) (l : Text) (ms : List Member) (b : Draft)
    → count_of l (draft overlap members at ms b).event.objects
      ≡ counted overlap members at l ms (count_of l b.event.objects)
unfolding draft
count_of-draft overlap members at l [] b = refl
count_of-draft overlap members at l (m ∷ ms) b =
    count_of-draft overlap members at l ms (include_member overlap members at m (anchor m b))
    ∙ ap (counted overlap members at l ms) (count_of-include overlap members at m b l)

module _ (overlap : ℕ) (at : ℕ) (is_with : Member → Member → Bool) where
  -- How many things there were with `m` when it had stayed for the overlap: itself alone if it has
  -- not.
  abbrev pub company : List Member → Member → ℕ
  company members m =
      if ltb (seen_until m at) (m.start + overlap) then 1 else max (count_if (is_with m) members) 1

  -- The most that any of the members `ms` of the label had with it; 0 where none has the label
  abbrev pub most : Text → List Member → List Member → ℕ
  most l members [] = 0
  most l members (m ∷ ms) =
      if m.label == l then max (company members m) (most l members ms) else most l members ms

  module _ (decides : (m o : Member) → (is_with m o ≡ true) ↔ IsWith overlap at m o) where
    concurrent-company :
        (members : List Member) (m : Member) → concurrent overlap members m at ≡ company members m
    unfolding concurrent live_end
    concurrent-company members m =
        let same : count_if (counts_with m (m.start + overlap) at) members
            ≡ count_if (is_with m) members =
          count_if_same (counts_with m (m.start + overlap) at) (is_with m) members λ o. (
            λ c. (decides m o).1 ((counts_with-IsWith overlap at m o).0 c),
            λ w. (counts_with-IsWith overlap at m o).1 ((decides m o).0 w),
          ) in
        rw same refl

    counted-most :
        (members : List Member) (l : Text) (ms : List Member) (n : ℕ)
        → counted overlap members at l ms n ≡ max n (most l members ms)
    counted-most members l [] n = omega arith
    counted-most members l (m ∷ ms) n = elim (Bool-cases (m.label == l)) [
      | inr f ↦ rw f (counted-most members l ms n)
      | inl t ↦
          rw (t, concurrent-company members m)
            (counted-most members l ms (max n (company members m))
              ∙ max_assoc n (company members m) (most l members ms))
    ]
      where
        max_assoc : (a b c : ℕ) → max (max a b) c ≡ max a (max b c)
        max_assoc a b c = omega arith

    build_of-most :
        (d : Digest) (inc : Incident) (ended : Bool) (l : Text) (ms : List Member)
        → ms ≢ []
        → (e : Event) × (build_of d overlap inc at ended ms ≡ some e)
          × (count_of l e.objects ≡ most l ms ms)
    unfolding build_of finish first_draft
    build_of-most d inc ended l [] n = elim (n refl) [ ]
    build_of-most d inc ended l (m ∷ ms) n = (
      _,
      refl,
      count_of-draft overlap (m ∷ ms) at l (m ∷ ms) (first_draft d inc m)
          ∙ counted-most (m ∷ ms) l (m ∷ ms) 0
          ∙ zero_max (most l (m ∷ ms) (m ∷ ms)),
    )
      where
        zero_max : (a : ℕ) → max 0 a ≡ a
        zero_max a = omega arith

    -- Given any test of being with a member (of its camera and label, there when it came, and still
    -- there when the overlap after that is over): what the event of an incident that has members
    -- shows of a label is the most that any member of the label had with it, itself included, or
    -- one for a member that left before the overlap was over; and it is 0 where no member has the
    -- label.
    pub build-most :
        (d : Digest) (inc : Incident) (ended : Bool) (l : Text)
        → inc.members ≢ []
        → (e : Event) × (build d overlap inc at ended ≡ some e)
          × (count_of l e.objects ≡ most l inc.members inc.members)
    unfolding build
    build-most d inc ended l n = build_of-most d inc ended l inc.members n
