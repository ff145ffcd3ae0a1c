-- ===== src/Edl/Reel.antt =====
-- internal/edl/edl.go: the segments cover the clip.
use curtilage.Prelude.{
  ℕ, zero, suc, ◌+◌, ◌-◌, ◌*◌, ◌/◌, ◌≡◌, ◌≢◌, ◌≤◌, ◌<◌, refl, sym, ap, Bool, true, false, not, ◌&&◌,
  inl, inr, List, [], ◌∷◌, ◌++◌, Option, none, some, Text, nat_eq, ltb, leb, if◌then◌else◌, ◌==◌,
  eq_text, is_some, last_of, length, arith, Bool-cases, IfSome, ne→==, ==→ne, ltb→lt, by_test,
  by_option,
}
use curtilage.Prelude.Map.{Map, get}
use curtilage.Policy.{Event, BoxSample}
use curtilage.Edl.{
  Segment, Dims, Score, Editing, edl_step, edl_min_shot, per_camera, score, is_over, has_advantage,
  best_of, best_at, newest, emit, cut_to, held_by, roll, build,
}

-- The segments follow each other without a gap from one instant to the other, and none is shorter
-- than the least shot.
unfoldable pub IsReel : ℕ → List Segment → ℕ → Type 0
IsReel from [] to = from ≡ to
IsReel from (s ∷ ss) to = (s.start ≡ from) × (s.start + edl_min_shot ≤ s.end) × IsReel s.end ss to

append-IsReel :
    (from : ℕ) (ss : List Segment) (s : Segment)
    → IsReel from ss s.start
    → s.start + edl_min_shot ≤ s.end
    → IsReel from (ss ++ s ∷ []) s.end
unfolding IsReel
append-IsReel from [] s r l = (sym r, l, refl)
append-IsReel from (x ∷ ss) s r l = (r.0, r.1, append-IsReel x.end ss s r.2 l)

last_of-append : (ss : List Segment) (s : Segment) → last_of (ss ++ s ∷ []) ≡ some s
last_of-append [] s = refl
last_of-append (x ∷ []) s = refl
last_of-append (x ∷ y ∷ ss) s = last_of-append (y ∷ ss) s

-- The last segment is of another camera.
Apart : Text → Option Segment → Type 0
Apart camera = IfSome (λ s. (s.camera == camera) ≡ false)

not_joined :
    (camera : Text) (o : Option Segment)
    → Apart camera o
    → (elim o as (λ _. Bool) [ none ↦ false | some s ↦ s.camera == camera ]) ≡ false
unfolding Apart
not_joined camera none a = refl
not_joined camera (some s) a = a

abbrev pub shot : ℕ → ℕ → ℕ → Text → Segment
shot clip_start from to camera = record {
  camera = camera;
  start = from - clip_start;
  end = to - clip_start;
}

emit_lem :
    (clip_start from to : ℕ) (ed : Editing)
    → ed.current ≢ []
    → from < to
    → Apart ed.current (last_of ed.segs)
    → emit clip_start from to ed ≡ ed.segs ++ shot clip_start from to ed.current ∷ []
unfolding emit
emit_lem clip_start from to ed c l a =
    let named : (ed.current == []) ≡ false = ne→== ed.current [] c in
    let forward : leb to from ≡ false = ground (arith, l) in
    rw (named, forward, not_joined ed.current (last_of ed.segs) a) refl

-- A camera has the cut: the segments reach up to the segment that it is in.
IsRunning : ℕ → ℕ → Editing → Type 0
IsRunning clip_start clip_end ed =
    (ed.current ≢ [])
    × IsReel 0 ed.segs (ed.seg_start - clip_start)
    × (clip_start ≤ ed.seg_start)
    × (ed.seg_start ≤ ed.since)
    × (ed.since < clip_end)
    × Apart ed.current (last_of ed.segs)

-- No camera has had it yet.
abbrev IsIdle : Editing → Type 0
IsIdle ed = (ed.current ≡ []) × (ed.segs ≡ [])

-- The camera with the best score has a name.
abbrev IsNamed : Text × Score → Type 0
IsNamed best = is_some best.1 ≡ true → best.0 ≢ []

module _ (clip_start clip_end t : ℕ) (best : Text × Score) (held : Score)
    (named : IsNamed best) where
  cut_to-starts :
      (ed : Editing)
      → clip_start ≤ t
      → t < clip_end
      → is_some best.1 ≡ true
      → IsIdle ed
      → IsRunning clip_start clip_end (cut_to clip_start t best held ed)
  unfolding cut_to IsRunning IsReel Apart
  cut_to-starts ed s l b (c, e) = rw (cut_to, b, c, e) (named b, omega arith, omega arith, s, l, tt)

  -- The camera takes the cut, after the segments.
  abbrev shows : Text → List Segment → Editing
  shows camera ss = record { segs = ss; current = camera; since = t; seg_start = t }

  abbrev next_shot : Editing → Editing
  next_shot ed = shows best.0 (ed.segs ++ shot clip_start ed.seg_start t ed.current ∷ [])

  cut_to-IsRunning :
      (ed : Editing)
      → clip_start ≤ t
      → t < clip_end
      → IsRunning clip_start clip_end ed
      → IsRunning clip_start clip_end (cut_to clip_start t best held ed)
  unfolding cut_to IsRunning Apart
  cut_to-IsRunning ed s l r =
      let unnamed : (ed.current == []) ≡ false = ne→== ed.current [] r.0 in
      elim (Bool-cases (is_some best.1)) [
        | inr b ↦ rw (cut_to, b) r
        | inl b ↦
            let switches =
              not (best.0 == ed.current)
              && (leb (ed.since + edl_min_shot) t && has_advantage best.1 held) in
            elim (Bool-cases switches) [
              | inr q ↦ rw (cut_to, b, unnamed, q) r
              | inl q ↦
                  let late : ed.since + edl_min_shot ≤ t = ground (arith, q) in
                  let differs : (best.0 == ed.current) ≡ false = ground (arith, q) in
                  let other : (ed.current == best.0) ≡ false =
                    ne→== ed.current best.0 (λ e. ==→ne best.0 ed.current differs (sym e)) in
                  let kept : Segment = shot clip_start ed.seg_start t ed.current in
                  let added : emit clip_start ed.seg_start t ed ≡ ed.segs ++ kept ∷ [] =
                    emit_lem clip_start ed.seg_start t ed r.0 (omega (arith, r.3, late)) r.5 in
                  let switched : cut_to clip_start t best held ed ≡ next_shot ed =
                    rw (cut_to, b, unnamed, q) (ap (shows best.0) added) in
                  rw switched (
                    named b,
                    append-IsReel 0 ed.segs kept r.1 (omega (arith, r.2, r.3, late)),
                    s,
                    omega arith,
                    l,
                    rw (last_of-append ed.segs kept) other,
                  )
            ]
      ]

cut_to_waits :
    (clip_start t : ℕ) (best : Text × Score) (held : Score) (ed : Editing)
    → is_some best.1 ≡ false
    → cut_to clip_start t best held ed ≡ ed
unfolding cut_to
cut_to_waits clip_start t best held ed b = rw (cut_to, b) refl

nameless :
    (dims : Dims) (samples : List BoxSample) (t : ℕ)
    → get [] dims ≡ none
    → score dims [] samples t ≡ none
unfolding score
nameless dims samples t e =
    by_option (λ o. o ≡ none) (newest t none samples) none _ refl λ s f. rw e refl

best_of-IsNamed :
    (dims : Dims) (t : ℕ) (best : Text × Score) (m : Map Text (List BoxSample))
    → get [] dims ≡ none
    → IsNamed best
    → IsNamed (best_of dims t best m)
unfolding best_of
best_of-IsNamed dims t best [] e n = n
best_of-IsNamed dims t best ((camera, samples) ∷ m) e n =
    let sc : Score = score dims camera samples t in
    let named : IsNamed (camera, sc) = λ b c.
      let silent : sc ≡ none = rw c (nameless dims samples t e) in
      let no : false ≡ true = rw silent at b in cc in
    best_of-IsNamed dims t (if is_over sc best.1 then (camera, sc) else best) m e
      (by_test IsNamed (is_over sc best.1) (camera, sc) best named n)

best_at-IsNamed :
    (dims : Dims) (m : Map Text (List BoxSample)) (t : ℕ)
    → get [] dims ≡ none
    → IsNamed (best_at dims m t)
unfolding best_at
best_at-IsNamed dims m t e =
    best_of-IsNamed dims t ([], none) m e (λ b. let no : false ≡ true = b in cc)

module _ (dims : Dims) (m : Map Text (List BoxSample)) (clip_start clip_end : ℕ)
    (e : get [] dims ≡ none) where
  roll-IsRunning :
      (fuel t : ℕ) (ed : Editing)
      → clip_start ≤ t
      → IsRunning clip_start clip_end ed
      → IsRunning clip_start clip_end (roll dims m clip_start clip_end fuel t ed)
  unfolding roll
  roll-IsRunning zero t ed s r = r
  roll-IsRunning (suc fuel) t ed s r = elim (Bool-cases (ltb t clip_end)) [
    | inr f ↦ rw f r
    | inl l ↦ rw l (
        roll-IsRunning fuel (t + edl_step) _ (omega (arith, s)) (
          cut_to-IsRunning clip_start clip_end t (best_at dims m t) _ (best_at-IsNamed dims m t e)
            ed s (ltb→lt t clip_end l) r))
  ]

  roll-starts :
      (k fuel t : ℕ) (ed : Editing)
      → clip_start ≤ t
      → k < fuel
      → t + k * edl_step < clip_end
      → is_some (best_at dims m (t + k * edl_step)).1 ≡ true
      → IsIdle ed
      → IsRunning clip_start clip_end (roll dims m clip_start clip_end fuel t ed)
  unfolding roll
  roll-starts k zero t ed s l b q i = absurd (omega (arith, l))
  roll-starts zero (suc fuel) t ed s l b q i =
      let inside : ltb t clip_end ≡ true = ground (arith, b) in
      let now : t + 0 * edl_step ≡ t = omega arith in
      rw inside (
        roll-IsRunning fuel (t + edl_step) _ (omega (arith, s)) (
          cut_to-starts clip_start clip_end t (best_at dims m t) (held_by dims m t ed.current)
            (best_at-IsNamed dims m t e) ed s (ltb→lt t clip_end inside) (rw now at q) i))
  roll-starts (suc k) (suc fuel) t ed s l b q i =
      let inside : ltb t clip_end ≡ true = ground (arith, b) in
      let later : t + suc k * edl_step ≡ (t + edl_step) + k * edl_step = omega arith in
      let first : Text × Score = best_at dims m t in
      let held : Score = held_by dims m t ed.current in
      rw inside (elim (Bool-cases (is_some first.1)) [
        | inl now ↦
            roll-IsRunning fuel (t + edl_step) (cut_to clip_start t first held ed)
              (omega (arith, s))
              (cut_to-starts clip_start clip_end t first held (best_at-IsNamed dims m t e) ed s
                (ltb→lt t clip_end inside) now i)
        | inr not_yet ↦ rw (cut_to_waits clip_start t first held ed not_yet) (
            roll-starts k fuel (t + edl_step) ed (omega (arith, s)) (omega (arith, l))
              (omega (arith, b)) (rw later at q) i)
      ])

no_camera :
    (dims : Dims) (m : Map Text (List BoxSample)) (t : ℕ)
    → nat_eq (length m) 0 ≡ true
    → is_some (best_at dims m t).1 ≡ false
unfolding best_at best_of
no_camera dims [] t z = refl
no_camera dims (c ∷ m) t z = absurd (ground (arith, z))

-- If no camera has the empty name and some camera has a score at a step of the clip, the segments
-- cover the whole clip: the first starts where it does, each next one where the one before it ends,
-- the last ends where the clip does, and all but the last are at least the least shot.
pub build-IsReel :
    (ev : Event) (clip_start clip_end : ℕ) (dims : Dims) (k : ℕ)
    → get [] dims ≡ none
    → clip_start + k * edl_step < clip_end
    → is_some (best_at dims (per_camera dims ev.boxes []) (clip_start + k * edl_step)).1 ≡ true
    → (front : List Segment) × (last : Segment) × (build ev clip_start clip_end dims
        ≡ front ++ last ∷ [])
      × IsReel 0 front last.start
      × (last.start < last.end)
      × (last.end ≡ clip_end - clip_start)
unfolding build IsRunning
build-IsReel ev clip_start clip_end dims k e b q =
    let m : Map Text (List BoxSample) = per_camera dims ev.boxes [] in
    let fuel : ℕ = (clip_end - clip_start) / edl_step + 1 in
    let ed : Editing =
      roll dims m clip_start clip_end fuel clip_start
        (record { segs = []; current = []; since = 0; seg_start = clip_start }) in
    let running : IsRunning clip_start clip_end ed =
      roll-starts dims m clip_start clip_end e k fuel clip_start _ (omega arith) (omega (arith, b))
        b q (refl, refl) in
    let some_camera : nat_eq (length m) 0 ≡ false = elim (Bool-cases (nat_eq (length m) 0)) [
      | inl z ↦ let none_there = no_camera dims m (clip_start + k * edl_step) z in cc
      | inr f ↦ f
    ] in
    (
      ed.segs,
      shot clip_start ed.seg_start clip_end ed.current,
      rw (build, some_camera)
          (emit_lem clip_start ed.seg_start clip_end ed running.0
            (omega (arith, running.3, running.4)) running.5),
      running.1,
      omega (arith, running.2, running.3, running.4),
      refl,
    )
