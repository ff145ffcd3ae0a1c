-- ===== src/Policy/Occupancy/Superseding.antt =====
-- internal/policy/occupancy.go: a parked object is counted under one identity.
use curtilage.Prelude.{
  ℕ, zero, suc, ◌+◌, ◌-◌, ◌*◌, ◌<◌, ◌≤◌, ◌⊎◌, min, max, nat_eq, leb, ◌||◌, List, ◌≡◌, ◌≢◌, refl,
  ◌∙◌, Bool, true, false, not, ◌&&◌, [], ◌∷◌, none, some, Text, keep_if, ◌==◌, eq_text, arith,
  Bool-cases, inl, inr, All, ==_refl, text_eq_iff, ne→==,
}
use curtilage.Prelude.Map.{Map, get, put, get-put}
use curtilage.Frigate.{Object, ChangeType}
use curtilage.Frigate
use curtilage.Policy.Occupancy.{
  Watch, Track, supersedes, is_orphan, sweep, absorb, note_track, new_track, is_watched, is_end,
  has_box,
}

-- The pixels that two boxes share, and those of one
abbrev pub shared_area : List ℕ → List ℕ → ℕ
shared_area (ax ∷ ay ∷ az ∷ aw ∷ []) (bx ∷ by ∷ bz ∷ bw ∷ []) =
    (min az bz - max ax bx) * (min aw bw - max ay by)
shared_area a b = 0

abbrev pub area : List ℕ → ℕ
area (x ∷ y ∷ z ∷ w ∷ []) = (z - x) * (w - y)
area a = 0

-- Less than 0.7 of what the boxes cover together is covered by both, or nothing is.
abbrev pub AreApart : List ℕ → List ℕ → Type 0
AreApart a b =
    (shared_area a b ≡ 0) ⊎ (10 * shared_area a b < 7 * (area a + area b - shared_area a b))

abbrev pub Differs : Text → Track → Text × Track → Type 0
Differs id tr other =
    (other.0 ≢ id)
    → (other.1.camera ≡ tr.camera)
    → (other.1.label ≡ tr.label)
    → AreApart tr.box other.1.box

-- Every other track of the table is of another label or camera, or its box is apart.
abbrev pub IsAlone : Text → Track → Map Text Track → Type 0
IsAlone id tr = All (Differs id tr)

mul_zero : (x y : ℕ) → (nat_eq x 0 || nat_eq y 0) ≡ true → x * y ≡ 0
mul_zero zero y h = omega arith
mul_zero (suc x) zero h = omega arith
mul_zero (suc x) (suc y) h = ground (arith, h)

mul_le : (a b c d : ℕ) → a ≤ c → b ≤ d → a * b ≤ c * d
mul_le a b c d h k = grind arith

no_union : (s a b : ℕ) → s ≤ a → s ≤ b → nat_eq (a + b - s) 0 ≡ true → s ≡ 0
no_union s a b h k e = ground (arith, h, k, e)

not_most : (s u : ℕ) → leb (7 * u) (10 * s) ≡ false → 10 * s < 7 * u
not_most s u e = ground (arith, e)

supersedes-AreApart : (a b : List ℕ) → supersedes a b ≡ false → AreApart a b
unfolding supersedes
supersedes-AreApart (ax ∷ ay ∷ az ∷ aw ∷ []) (bx ∷ by ∷ bz ∷ bw ∷ []) h =
    elim (Bool-cases (nat_eq ix 0 || nat_eq iy 0)) [
      | inl t ↦ inl (mul_zero ix iy t)
      | inr f ↦ elim (Bool-cases (nat_eq union 0)) [
        | inl t ↦ inl (
            no_union (ix * iy) ((az - ax) * (aw - ay)) ((bz - bx) * (bw - by))
              (mul_le ix iy (az - ax) (aw - ay) (omega arith) (omega arith))
              (mul_le ix iy (bz - bx) (bw - by) (omega arith) (omega arith)) t)
        | inr g ↦ inr (not_most (ix * iy) union (rw (f, g) at h))
      ]
    ]
  where
    ix : ℕ
    ix = min az bz - max ax bx

    iy : ℕ
    iy = min aw bw - max ay by

    union : ℕ
    union = (az - ax) * (aw - ay) + (bz - bx) * (bw - by) - ix * iy
supersedes-AreApart [] b h = inl refl
supersedes-AreApart (x ∷ []) b h = inl refl
supersedes-AreApart (x ∷ y ∷ []) b h = inl refl
supersedes-AreApart (x ∷ y ∷ z ∷ []) b h = inl refl
supersedes-AreApart (x ∷ y ∷ z ∷ w ∷ v ∷ a) b h = inl refl
supersedes-AreApart (p ∷ q ∷ r ∷ s ∷ []) [] h = inl refl
supersedes-AreApart (p ∷ q ∷ r ∷ s ∷ []) (x ∷ []) h = inl refl
supersedes-AreApart (p ∷ q ∷ r ∷ s ∷ []) (x ∷ y ∷ []) h = inl refl
supersedes-AreApart (p ∷ q ∷ r ∷ s ∷ []) (x ∷ y ∷ z ∷ []) h = inl refl
supersedes-AreApart (p ∷ q ∷ r ∷ s ∷ []) (x ∷ y ∷ z ∷ w ∷ v ∷ a) h = inl refl

keep_if-All :
    (test : Text × Track → Bool) (tracks : Map Text Track)
    → All (λ t. test t ≡ false) (keep_if (λ t. not (test t)) tracks)
keep_if-All test [] = tt
keep_if-All test (t ∷ tracks) = elim (Bool-cases (test t)) [
  | inl e ↦ rw e (keep_if-All test tracks)
  | inr e ↦ rw e (e, keep_if-All test tracks)
]

get-keep_if :
    (test : Text × Track → Bool) (id : Text) (tr : Track) (tracks : Map Text Track)
    → ((t : Track) → test (id, t) ≡ false)
    → get id tracks ≡ some tr
    → get id (keep_if (λ t. not (test t)) tracks) ≡ some tr
get-keep_if test id tr [] h e = cc
get-keep_if test id tr ((j, t) ∷ tracks) h e = elim (Bool-cases (j == id)) [
  | inl s ↦
      let kept : test (j, t) ≡ false = rw ((text_eq_iff j id).0 s) (h t) in rw (kept, s) (rw s at e)
  | inr n ↦ elim (Bool-cases (test (j, t))) [
    | inl o ↦ rw o (get-keep_if test id tr tracks h (rw n at e))
    | inr o ↦ rw (o, n) (get-keep_if test id tr tracks h (rw n at e))
  ]
]

is_orphan-Differs :
    (id : Text) (tr : Track) (other : Text × Track)
    → is_orphan id tr other ≡ false
    → Differs id tr other
unfolding is_orphan
is_orphan-Differs id tr (j, t) h n c l =
    let other : (j == id) ≡ false = ne→== j id n in
    let camera : (t.camera == tr.camera) ≡ true = (text_eq_iff t.camera tr.camera).1 c in
    let label : (t.label == tr.label) ≡ true = (text_eq_iff t.label tr.label).1 l in
    supersedes-AreApart tr.box t.box (rw (other, camera, label) at h)

orphans-IsAlone :
    (id : Text) (tr : Track) (tracks : Map Text Track)
    → All (λ t. is_orphan id tr t ≡ false) tracks
    → IsAlone id tr tracks
orphans-IsAlone id tr [] a = tt
orphans-IsAlone id tr (t ∷ tracks) a =
    (is_orphan-Differs id tr t a.0, orphans-IsAlone id tr tracks a.1)

own_track : (id : Text) (tr t : Track) → is_orphan id tr (id, t) ≡ false
unfolding is_orphan
own_track id tr t = ground (arith, text_eq_iff id id)

-- The track that a message of the object leaves, given the one that there was.
abbrev pub noted : Map Text Watch → ℕ → Object → Map Text Track → Track
noted watches at o tracks =
    note_track watches at o (elim (get o.id tracks) [ none ↦ new_track o | some tr ↦ tr ])

sweep-IsAlone :
    (o : Object) (tr : Track) (tracks : Map Text Track)
    → o.stationary ≡ true
    → has_box tr.box ≡ true
    → get o.id tracks ≡ some tr
    → (get o.id (sweep o tr tracks) ≡ some tr) × IsAlone o.id tr (sweep o tr tracks)
unfolding sweep
sweep-IsAlone o tr tracks s b g =
    let sweeps : (o.stationary && has_box tr.box) ≡ true = rw (s, b) refl in
    rw sweeps (
      get-keep_if (is_orphan o.id tr) o.id tr tracks (own_track o.id tr) g,
      orphans-IsAlone o.id tr (keep_if (λ t. not (is_orphan o.id tr t)) tracks)
          (keep_if-All (is_orphan o.id tr) tracks),
    )

not_end : (t : ChangeType) → t ≢ ChangeType.end → is_end t ≡ false
unfolding is_end
not_end ChangeType.end h = absurd (h refl)
not_end ChangeType.new h = refl
not_end ChangeType.update h = refl

-- A message of a watched object that stands still, with a box, leaves one identity of it: its track
-- is the noted one, and of every other track that is left of its label on its camera, the box
-- shares less than 0.7 of what the two cover with the noted one's, or nothing.
pub absorb-IsAlone :
    (watches : Map Text Watch) (at : ℕ) (msg : Frigate.Event) (tracks : Map Text Track)
    → is_watched watches msg.after.label ≡ true
    → msg.type ≢ ChangeType.end
    → msg.after.stationary ≡ true
    → has_box (noted watches at msg.after tracks).box ≡ true
    → (get msg.after.id (absorb watches at msg tracks) ≡ some (noted watches at msg.after tracks))
      × IsAlone msg.after.id (noted watches at msg.after tracks) (absorb watches at msg tracks)
unfolding absorb
absorb-IsAlone watches at msg tracks w t s b =
    let tr : Track = noted watches at msg.after tracks in
    let goes_on : is_end msg.type ≡ false = not_end msg.type t in
    let there : get msg.after.id (put msg.after.id tr tracks) ≡ some tr =
      get-put msg.after.id msg.after.id tr tracks ∙ rw (==_refl msg.after.id) refl in
    rw (w, goes_on) (sweep-IsAlone msg.after tr (put msg.after.id tr tracks) s b there)
