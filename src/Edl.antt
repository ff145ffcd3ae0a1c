-- ===== src/Edl.antt =====
-- internal/edl/edl.go: the edit decision list of an event. A segment's ends are in nanoseconds of
-- the clip, a score is a fraction, compared exactly, and none where the source has -1. The index
-- that `score` keeps per camera only saves it from walking the samples again, and is left out. The
-- range over the cameras has one order for a whole build, where Go may take another at each step.
pub mod Reel
use curtilage.Prelude.{
  ℕ, zero, suc, ◌+◌, ◌-◌, ◌*◌, ◌/◌, Bool, true, false, not, ◌&&◌, ◌||◌, List, [], ◌∷◌, ◌++◌, Option,
  none, some, Text, nat_eq, ltb, leb, if◌then◌else◌, ◌==◌, eq_text, is_some, last_of, length,
}
use curtilage.Prelude.Map.{Map, get, put}
use curtilage.Policy.{Event, BoxSample, Box}

-- Half a second, five seconds and two and a half
abbrev pub edl_step : ℕ
edl_step = 500_000_000

abbrev edl_stale : ℕ
edl_stale = 5_000_000_000

abbrev pub edl_min_shot : ℕ
edl_min_shot = 2_500_000_000

pub record Segment : Type 0 where
  pub camera : Text
  pub start : ℕ
  pub end : ℕ

-- The width and the height of a camera's frame
abbrev pub Dims : Type 0
Dims = Map Text (ℕ × ℕ)

-- The first loop of Build: the samples of each camera that has dims
unfoldable pub per_camera :
    Dims → List BoxSample → Map Text (List BoxSample) → Map Text (List BoxSample)
per_camera dims [] m = m
per_camera dims (b ∷ bs) m = elim (get b.camera dims) [
  | none ↦ per_camera dims bs m
  | some (w, h) ↦
      let known : List BoxSample = elim (get b.camera m) [ none ↦ [] | some known ↦ known ] in
      per_camera dims bs (if nat_eq w 0 || nat_eq h 0 then m else put b.camera (known ++ b ∷ []) m)
]

-- The sample before the first one that is after t, or the last one
newest : ℕ → Option BoxSample → List BoxSample → Option BoxSample
newest t found [] = found
newest t found (s ∷ samples) =
    let later = newest t (some s) samples in if leb s.at t then later else found

-- A fraction of the frame
abbrev pub Score : Type 0
Score = Option (ℕ × ℕ)

-- score, of a camera's samples
unfoldable pub score : Dims → Text → List BoxSample → ℕ → Score
unfolding newest
score dims camera samples t = elim (newest t none samples) [
  | none ↦ none
  | some s ↦ elim (get camera dims) [
    | none ↦ none
    | some (dw, dh) ↦
        let w = s.box.x2 - s.box.x1 in
        let h = s.box.y2 - s.box.y1 in
        if ltb (s.at + edl_stale) t
        then none
        else if nat_eq w 0 || nat_eq h 0
        then none
        else some (w * h, dw * dh)
  ]
]

-- a > b
unfoldable pub is_over : Score → Score → Bool
is_over none b = false
is_over (some a) none = true
is_over (some (n, d)) (some (m, e)) = ltb (m * d) (n * e)

-- a >= b * 1.3
unfoldable pub has_advantage : Score → Score → Bool
has_advantage none b = false
has_advantage (some a) none = true
has_advantage (some (n, d)) (some (m, e)) = leb (13 * (m * d)) (10 * (n * e))

-- The loop over the cameras, from the best one so far
best_of : Dims → ℕ → Text × Score → Map Text (List BoxSample) → Text × Score
best_of dims t best [] = best
best_of dims t best ((camera, samples) ∷ m) =
    let sc = score dims camera samples t in
    best_of dims t (if is_over sc best.1 then (camera, sc) else best) m

unfoldable pub best_at : Dims → Map Text (List BoxSample) → ℕ → Text × Score
unfolding best_of
best_at dims m t = best_of dims t ([], none) m

pub record Editing : Type 0 where
  pub segs : List Segment
  pub current : Text
  pub since : ℕ
  pub seg_start : ℕ

unfoldable pub extend_last : ℕ → List Segment → List Segment
extend_last end [] = []
extend_last end (s ∷ []) = record s { end = end } ∷ []
extend_last end (s ∷ r ∷ ss) = s ∷ extend_last end (r ∷ ss)

-- emit
unfoldable pub emit : ℕ → ℕ → ℕ → Editing → List Segment
unfolding extend_last
emit clip_start from to ed =
    let seg : Segment = record {
      camera = ed.current;
      start = from - clip_start;
      end = to - clip_start;
    } in
    let joins : Bool = elim (last_of ed.segs) [ none ↦ false | some s ↦ s.camera == ed.current ] in
    if (ed.current == []) || leb to from
    then ed.segs
    else if joins
    then extend_last (to - clip_start) ed.segs
    else ed.segs ++ seg ∷ []

-- The body of the loop over the clip, with the best camera found
unfoldable pub cut_to : ℕ → ℕ → Text × Score → Score → Editing → Editing
cut_to clip_start t best held ed =
    if not (is_some best.1)
    then ed
    else if ed.current == []
    then record ed {
      current = best.0;
      since = t;
      seg_start = if nat_eq (length ed.segs) 0 then clip_start else t;
    }
    else if not (best.0 == ed.current)
        && (leb (ed.since + edl_min_shot) t && has_advantage best.1 held)
    then record {
      segs = emit clip_start ed.seg_start t ed;
      current = best.0;
      since = t;
      seg_start = t;
    }
    else ed

-- The score of the current camera; one without samples has none.
held_by : Dims → Map Text (List BoxSample) → ℕ → Text → Score
held_by dims m t camera = elim (get camera m) [ none ↦ none | some ss ↦ score dims camera ss t ]

-- The loop over the clip
unfoldable pub roll : Dims → Map Text (List BoxSample) → ℕ → ℕ → ℕ → ℕ → Editing → Editing
unfolding cut_to held_by
roll dims m clip_start clip_end zero t ed = ed
roll dims m clip_start clip_end (suc fuel) t ed =
    let next =
      roll dims m clip_start clip_end fuel (t + edl_step)
        (cut_to clip_start t (best_at dims m t) (held_by dims m t ed.current) ed) in
    if ltb t clip_end then next else ed

-- Build: a round takes a step, so as many rounds as the clip has steps, and one, are enough.
unfoldable pub build : Event → ℕ → ℕ → Dims → List Segment
unfolding roll
build e clip_start clip_end dims =
    let m = per_camera dims e.boxes [] in
    let fuel = (clip_end - clip_start) / edl_step + 1 in
    let ed =
      roll dims m clip_start clip_end fuel clip_start
        (record { segs = []; current = []; since = 0; seg_start = clip_start }) in
    if nat_eq (length m) 0 then [] else emit clip_start ed.seg_start clip_end ed
