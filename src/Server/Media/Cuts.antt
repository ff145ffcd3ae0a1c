-- ===== src/Server/Media/Cuts.antt =====
-- internal/server/media.go: a fixed cut has settled on Frigate's disk.
use curtilage.Prelude.{
  ℕ, ◌+◌, ◌≡◌, ◌≤◌, ◌≢◌, refl, true, false, not, ◌&&◌, ◌⊎◌, inl, inr, List, [], ◌∷◌, nat_eq, ltb,
  leb, arith, Bool-cases, IfSome,
}
use curtilage.Policy.{Event}
use curtilage.Server.Media.{
  climb, latest_checkpoint, clip_cut, clip_key, snap_key, clip_margin, warm_grace, media_snapshot,
  media_clip, warm_ladder,
}
use curtilage.Server.Media.Door.{Outside, Plan, plan}

-- No checkpoint, or one whose recording has had the grace to land.
abbrev Settled : ℕ → ℕ → Type 0
Settled now best = (best ≡ 0) ⊎ (best + warm_grace ≤ now)

climb-Settled :
    (bs : List ℕ) (started now best : ℕ)
    → Settled now best
    → Settled now (climb bs started now best)
unfolding climb
climb-Settled [] started now best h = h
climb-Settled (b ∷ bs) started now best h =
    climb-Settled bs started now _ (elim (Bool-cases (leb (started + (b + warm_grace)) now)) [
      | inl t ↦ rw t (inr (ground (arith, t)))
      | inr f ↦ rw f h
    ])

latest_checkpoint-Settled : (started now : ℕ) → Settled now (latest_checkpoint started now)
unfolding latest_checkpoint
latest_checkpoint-Settled started now = climb-Settled warm_ladder started now 0 (inl refl)

-- The plan's cut is of a piece of media that no longer changes: the snapshot of an event that has
-- ended, or the clip between two instants of which the later is at least the grace before now.
abbrev pub IsFixed : Outside → ℕ → Event → Plan → Type 0
IsFixed x now e p =
    ((e.ended_at ≢ 0) × (p.key ≡ snap_key e) × (p.source ≡ x.snapshot e.source_id))
    ⊎ ((start : ℕ) × (end : ℕ) × (end + warm_grace ≤ now)
        × (p.key ≡ clip_key e.camera start end)
        × (p.source ≡ x.clip e.camera start end))

clip_cut_settled :
    (e : Event) (now : ℕ)
    → (not (nat_eq e.ended_at 0) && ltb now (e.ended_at + (clip_margin + warm_grace))) ≡ false
    → not (clip_cut e now true).stable ≡ false
    → (clip_cut e now true).end + warm_grace ≤ now
unfolding clip_cut
clip_cut_settled e now z s = elim (Bool-cases (nat_eq e.ended_at 0)) [
  | inr running ↦ rw running (ground (arith, z, running))
  | inl ended ↦ elim (Bool-cases (nat_eq (latest_checkpoint e.started_at now) 0)) [
    | inl none_yet ↦ let t : true ≡ false = rw (ended, none_yet) at s in cc
    | inr some_yet ↦
        rw (ended, some_yet) (ground (arith, latest_checkpoint-Settled e.started_at now, some_yet))
  ]
]

pub plan-IsFixed :
    (x : Outside) (media now : ℕ) (e : Event) → IfSome (IsFixed x now e) (plan x media now e)
unfolding plan
plan-IsFixed x media now e = elim (Bool-cases (nat_eq media media_snapshot)) [
  | inl t ↦ elim (Bool-cases (nat_eq e.ended_at 0)) [
    | inl z ↦ rw (t, z) tt
    | inr z ↦ rw (t, z) (inl ((λ q. ground (arith, z, q)), refl, refl))
  ]
  | inr f ↦ elim (Bool-cases (nat_eq media media_clip)) [
    | inr g ↦ rw (f, g) tt
    | inl g ↦
        elim (Bool-cases
          (not (nat_eq e.ended_at 0) && ltb now (e.ended_at + (clip_margin + warm_grace)))) [
            | inl early ↦ rw (f, g, early) tt
            | inr late ↦ elim (Bool-cases (not (clip_cut e now true).stable)) [
              | inl moving ↦ rw (f, g, late, moving) tt
              | inr still ↦
                  rw (f, g, late, still)
                    (inr (
                      (clip_cut e now true).start,
                      (clip_cut e now true).end,
                      clip_cut_settled e now late still,
                      refl,
                      refl,
                    ))
            ]
          ]
  ]
]
