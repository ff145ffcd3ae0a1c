-- ===== src/Policy/Occupancy/Patience.antt =====
-- internal/policy/occupancy.go: when a ledger believes that something has left.
use curtilage.Prelude.{
  ℕ, ◌+◌, ◌≡◌, ◌≤◌, ◌<◌, refl, ap, ◌∙◌, not, ◌&&◌, ◌⊎◌, inl, inr, List, [], ◌∷◌, Option, none, some,
  nat_eq, ltb, leb, if◌then◌else◌, arith, Bool-cases, All,
}
use curtilage.Policy.Occupancy.{Ledger, Track, Counts}
use curtilage.Policy.Occupancy.Clock.{cover_ledger, believe_ledger, step_ledger, remember}

-- What one tick counts, and when.
pub record Sight : Type 0 where
  pub at : ℕ
  pub seen : Counts

unfoldable pub watch_over : List Sight → Ledger → Ledger
watch_over [] l = l
watch_over (s ∷ ss) l = watch_over ss (step_ledger s.at s.seen l).0

-- The ledger is not waiting for a departure, or only since `start`.
abbrev Waits : ℕ → Ledger → Type 0
Waits start l = (l.below_since ≡ 0) ⊎ (start ≤ l.below_since)

remember_lem :
    (c : Option Track) (l : Ledger)
    → ((remember c l).present ≡ l.present)
      × ((remember c l).below_since ≡ l.below_since)
      × ((remember c l).watch ≡ l.watch)
unfolding remember
remember_lem none l = (refl, refl, refl)
remember_lem (some tr) l = (refl, refl, refl)

-- What covering leaves as it is, and since when the ledger waits after it.
cover_lem :
    (at : ℕ) (c : Counts) (l : Ledger)
    → ((cover_ledger at c l).present ≡ l.present)
      × ((cover_ledger at c l).watch ≡ l.watch)
      × ((cover_ledger at c l).below_since ≡ (
          if leb l.present c.raw then 0 else if nat_eq l.below_since 0 then at else l.below_since))
unfolding cover_ledger
cover_lem at c l = elim (Bool-cases (leb l.present c.raw)) [
  | inl t ↦ elim (Bool-cases (ltb 0 c.raw)) [
    | inl u ↦
        let (present, below, watch) =
          remember_lem c.cover (record l { below_since = 0; last_seen = at }) in
        rw (t, u) (present, watch, below)
    | inr u ↦ rw (t, u) (refl, refl, refl)
  ]
  | inr f ↦ elim (Bool-cases (nat_eq l.below_since 0)) [
    | inl z ↦ rw (f, z) (refl, refl, refl)
    | inr z ↦ rw (f, z) (refl, refl, refl)
  ]
]

believe_patient :
    (at start patience : ℕ) (c : Counts) (l : Ledger)
    → l.watch.depart_after ≡ patience
    → start ≤ at
    → at < start + patience
    → Waits start l
    → (l.present ≤ (believe_ledger at c l).0.present)
      × Waits start (believe_ledger at c l).0
      × ((believe_ledger at c l).0.watch ≡ l.watch)
unfolding believe_ledger
believe_patient at start patience c l p h k w = elim (Bool-cases (ltb l.present c.qualified)) [
  | inl t ↦ rw t (ground (arith, t), inl refl, refl)
  | inr f ↦
      let leaves =
        ltb 0 l.present
        && (not (nat_eq l.below_since 0) && leb (l.below_since + l.watch.depart_after) at) in
      elim (Bool-cases leaves) [
        | inl t ↦ absurd (ground (arith, t, p, k, w))
        | inr n ↦ rw (f, n) (omega arith, w, refl)
      ]
]

cover-Waits :
    (at start : ℕ) (c : Counts) (l : Ledger)
    → start ≤ at
    → Waits start l
    → Waits start (cover_ledger at c l)
cover-Waits at start c l h w =
    let below = (cover_lem at c l).2 in
    elim (Bool-cases (leb l.present c.raw)) [
      | inl t ↦ inl (below ∙ rw t refl)
      | inr f ↦ elim (Bool-cases (nat_eq l.below_since 0)) [
        | inl z ↦ inr (rw (below, f, z) h)
        | inr z ↦ inr (rw (below, f, z) (ground (arith, w, z)))
      ]
    ]

step_patient :
    (at start patience : ℕ) (c : Counts) (l : Ledger)
    → l.watch.depart_after ≡ patience
    → start ≤ at
    → at < start + patience
    → Waits start l
    → (l.present ≤ (step_ledger at c l).0.present)
      × Waits start (step_ledger at c l).0
      × ((step_ledger at c l).0.watch ≡ l.watch)
unfolding step_ledger
step_patient at start patience c l p h k w =
    let (present, watch, below) = cover_lem at c l in
    let (kept, waits, same) =
      believe_patient at start patience c (cover_ledger at c l) (ap (λ v. v.depart_after) watch ∙ p)
        h k (cover-Waits at start c l h w) in
    (omega (arith, present, kept), waits, same ∙ watch)

patient :
    (start patience : ℕ) (ss : List Sight) (l : Ledger)
    → l.watch.depart_after ≡ patience
    → Waits start l
    → All (λ s. (start ≤ s.at) × (s.at < start + patience)) ss
    → l.present ≤ (watch_over ss l).present
unfolding watch_over
patient start patience [] l p w a = omega arith
patient start patience (s ∷ ss) l p w a =
    let (kept, waits, watch) = step_patient s.at start patience s.seen l p a.0.0 a.0.1 w in
    omega (
      arith,
      kept,
      patient start patience ss (step_ledger s.at s.seen l).0 (ap (λ v. v.depart_after) watch ∙ p)
          waits a.1,
    )

-- The sight comes in the time that the watch waits, counted from `start`.
abbrev pub IsSoon : ℕ → ℕ → Sight → Type 0
IsSoon start patience s = (start ≤ s.at) × (s.at < start + patience)

-- However the counts drop, by occlusion or in the dark, a ledger that is not waiting yet lowers its
-- count at none of the ticks of a span shorter than the watch's wait for a departure.
pub watch_over_patient :
    (start patience : ℕ) (ss : List Sight) (l : Ledger)
    → l.watch.depart_after ≡ patience
    → l.below_since ≡ 0
    → All (IsSoon start patience) ss
    → l.present ≤ (watch_over ss l).present
watch_over_patient start patience ss l p z a = patient start patience ss l p (inl z) a
