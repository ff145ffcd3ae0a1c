-- ===== src/Server/Media/Sealing.antt =====
-- internal/server/warm.go: the final cuts of an event that ended, and the checkpoints that go then.
-- A step is at the clock that it finds after its waits; the stitched view is left.
use curtilage.Prelude.{
  ℕ, ◌+◌, ◌-◌, ◌≡◌, refl, sym, ap, ◌∙◌, Bool, true, false, not, ◌&&◌, ◌||◌, List, [], ◌∷◌, none,
  some, Text, nat_eq, if◌then◌else◌, ◌==◌, eq_text, any, all, ltb, arith, Option-cases, ne→==,
  Bool-cases, inl, inr, ==→eq, ==_refl, nat_eq_iff,
}
use curtilage.Prelude.Map.{Map, get, get-del}
use curtilage.Policy.{Event, ClipState, no_event}
use curtilage.Store.{Store, get_event}
use curtilage.MediaCache.{Key, Cache, eq_key, contains_cut, evict, drop}
use curtilage.Server.Media.{
  clip_cut, clip_key, snap_key, clip_margin, warm_grace, event_cameras, unix,
}
use curtilage.Server.Media.Door.{Outside, Door, fill}

-- The loop over the cameras
unfoldable pub fill_clips : Outside → ℕ → ℕ → List Text → Door → Door
fill_clips x start end [] d = d
fill_clips x start end (c ∷ cs) d =
    fill_clips x start end cs (fill x (clip_key c start end) (x.clip c start end) d).0

has_clip : ClipState → Bool
has_clip ClipState.no_clip = false
has_clip _ = true

-- warmFinal; nothing is cut when the context is cancelled while the last footage settles.
unfoldable pub warm_final : Outside → ℕ → Event → Door → Door
unfolding fill_clips has_clip
warm_final x now e d =
    let cut = clip_cut e now true in
    let clips = if has_clip e.clip then fill_clips x cut.start cut.end (event_cameras e) d else d in
    if nat_eq e.ended_at 0 || (x.cancelled || not cut.stable)
    then d
    else if e.has_snapshot
    then (fill x (snap_key e) (x.snapshot e.source_id) clips).0
    else clips

-- The loop of evictCheckpoints
unfoldable pub evict_all : ℕ → Map Text ℕ → Cache → Cache
evict_all start [] c = c
evict_all start ((cam, end) ∷ prev) c = evict_all start prev (evict (clip_key cam start end) c)

-- evictCheckpoints
unfoldable pub evict_checkpoints : Event → Map Text ℕ → Cache → Cache
unfolding evict_all
evict_checkpoints e prev c = evict_all (e.started_at - clip_margin) prev c

-- The case of warmLive in which the event has ended; st.Get leaves the zero event when it finds
-- none.
unfoldable pub seal : Outside → Store → Text → ℕ → Map Text ℕ → Door → Door
unfolding warm_final evict_checkpoints
seal x s id now prev d =
    let e : Event = elim (get_event id s) [ none ↦ no_event | some found ↦ found ] in
    let warm : Door = elim (get_event id s) [ none ↦ d | some found ↦ warm_final x now found d ] in
    record warm { cache = evict_checkpoints e prev warm.cache }

-- ClipCached, of a server with a cache
unfoldable pub clip_cached : ℕ → Event → Cache → Bool
unfolding has_clip
clip_cached now e c =
    let cut = clip_cut e now true in
    if not (has_clip e.clip)
    then false
    else if not (nat_eq e.ended_at 0) && ltb now (e.ended_at + (clip_margin + warm_grace))
    then false
    else if not cut.stable
    then false
    else all (λ cam. contains_cut (clip_key cam cut.start cut.end) c) (event_cameras e)

get-evict :
    (k j : Key) (c : Cache) → get j (evict k c).entries ≡ (if k == j then none else get j c.entries)
unfolding evict drop
get-evict k j c = elim (Option-cases (get k c.entries)) [
  | inl e ↦ elim (Bool-cases (k == j)) [
    | inl t ↦ rw (evict, e, t) (ap (λ i. get i c.entries) (sym (==→eq k j t)) ∙ e)
    | inr f ↦ rw (evict, e, f) refl
  ]
  | inr (entry, e) ↦ rw (evict, e) (get-del k j c.entries)
]

clip_key_same :
    (a b : Text) (s t m n : ℕ)
    → (clip_key a s m == clip_key b t n)
      ≡ ((a == b) && (nat_eq (unix s) (unix t) && nat_eq (unix m) (unix n)))
unfolding clip_key
clip_key_same a b s t m n =
    let k : Key = clip_key a s m in
    let l : Key = clip_key b t n in
    elim (Bool-cases (a == b)) [
      | inr f ↦ rw f (
          ne→== k l λ e.
            let z : a ≡ b = ap (λ i. i.ref) e in let y : (a == b) ≡ true = rw z (==_refl b) in cc)
      | inl camera ↦ elim (Bool-cases (nat_eq (unix s) (unix t))) [
        | inr f ↦
            rw (camera, f)
              (ne→== k l λ e. let z = (nat_eq_iff (unix s) (unix t)).1 (ap (λ i. i.start) e) in cc)
        | inl start ↦ elim (Bool-cases (nat_eq (unix m) (unix n))) [
          | inr f ↦
              rw (camera, start, f)
                (ne→== k l λ e. let z = (nat_eq_iff (unix m) (unix n)).1 (ap (λ i. i.end) e) in cc)
          | inl end ↦
              let same : k ≡ l =
                let x = ==→eq a b camera in
                let y = (nat_eq_iff (unix s) (unix t)).0 start in
                let z = (nat_eq_iff (unix m) (unix n)).0 end in cc in
              rw (camera, start, end) (ap (λ i. i == l) same ∙ ==_refl l)
        ]
      ]
    ]

contains_evict :
    (k j : Key) (c : Cache) → contains_cut j (evict k c) ≡ (contains_cut j c && not (k == j))
unfolding contains_cut
contains_evict k j c = elim (Bool-cases (k == j)) [
  | inl t ↦ rw (get-evict k j c, t) (ground arith)
  | inr f ↦ rw (get-evict k j c, f) (ground arith)
]

-- One of the checkpoints of that camera ends in the same second as `end`.
unfoldable pub shares_second : Text → ℕ → Map Text ℕ → Bool
shares_second camera end prev = any (λ p. (p.0 == camera) && nat_eq (unix p.1) (unix end)) prev

-- The checkpoints, cut from `from`, have one of the clip's camera with its start and end in
-- seconds.
abbrev pub is_evicted : ℕ → Text → ℕ → ℕ → Map Text ℕ → Bool
is_evicted from camera start end prev =
    nat_eq (unix from) (unix start) && shares_second camera end prev

contains_evict_all :
    (from start end : ℕ) (camera : Text) (prev : Map Text ℕ) (c : Cache)
    → contains_cut (clip_key camera start end) (evict_all from prev c)
      ≡ (contains_cut (clip_key camera start end) c && not (is_evicted from camera start end prev))
unfolding evict_all shares_second
contains_evict_all from start end camera [] c = ground arith
contains_evict_all from start end camera ((cam, at) ∷ prev) c =
    contains_evict_all from start end camera prev (evict (clip_key cam from at) c)
    ∙ rw
        (
          contains_evict (clip_key cam from at) (clip_key camera start end) c,
          clip_key_same cam camera from start at end,
        )
        (ground arith)

-- What is left of a clip from `start` to `end` when its event has ended. If the store has the
-- event, the clip is in the cache if and only if warming had it there and no checkpoint of the
-- event has its camera, its start and its end in whole seconds: a key holds no more, so such a
-- checkpoint takes the final cut with it. If the store has the event no more nothing is warmed, and
-- the clip is in the cache if and only if it was and the checkpoints' ends are not its own on a
-- start at time zero: the checkpoints of an event of after 1970 stay.
pub seal-warm_final :
    (x : Outside) (s : Store) (id : Text) (now start end : ℕ) (camera : Text) (prev : Map Text ℕ)
    (d : Door)
    → contains_cut (clip_key camera start end) (seal x s id now prev d).cache
      ≡ (elim (get_event id s) [
        | none ↦
            contains_cut (clip_key camera start end) d.cache
            && not (is_evicted 0 camera start end prev)
        | some e ↦
            contains_cut (clip_key camera start end) (warm_final x now e d).cache
            && not (is_evicted (e.started_at - clip_margin) camera start end prev)
      ])
unfolding seal evict_checkpoints
seal-warm_final x s id now start end camera prev d = elim (Option-cases (get_event id s)) [
  | inl n ↦
      rw (seal, n)
        (contains_evict_all (no_event.started_at - clip_margin) start end camera prev d.cache)
  | inr (e, h) ↦
      rw (seal, h)
        (contains_evict_all (e.started_at - clip_margin) start end camera prev
          (warm_final x now e d).cache)
]
