-- ===== src/Policy/Activity.antt =====
-- internal/policy/incidents.go: one incident and the event that it makes. `inc.byID` holds the
-- pointers of `inc.members` under their sources, so it is a search of the members here. A detection
-- box is in whole pixels, and a missing one is no box.
pub mod Counting
use curtilage.Prelude.{
  ℕ, ◌+◌, ◌%◌, max, ◌≡◌, refl, Bool, true, false, not, ◌&&◌, ◌||◌, List, [], ◌∷◌, ◌++◌, Option,
  none, some, Text, codes, text_lt, nat_eq, ltb, leb, if◌then◌else◌, ◌==◌, eq_text, arith, contains,
  any, map, length, is_some,
}
use curtilage.Prelude.Map.{Map, get, put}
use curtilage.Policy.{Event, no_event, ClipState, Digest, mint_id, Kind, Box, BoxSample, Span}
use curtilage.Policy.Passthrough.{texts_eq, bool_eq, clip_number}

pub record Member : Type 0 where
  pub source : Text
  pub camera : Text
  pub label : Text
  pub start : ℕ
  pub end : ℕ  -- zero while live
  pub zones : List Text
  pub snapshot : Bool
  pub clip : Bool

pub record Incident : Type 0 where
  pub first : ℕ  -- earliest member start
  pub last : ℕ  -- latest activity
  pub members : List Member
  pub path : List Text  -- named zones, order first entered
  pub sent : Bool  -- Started has been emitted
  pub event : Event  -- as last emitted
  pub boxes : List BoxSample

abbrev pub new_incident : Incident
new_incident = record {
  first = 0;
  last = 0;
  members = [];
  path = [];
  sent = false;
  event = no_event;
  boxes = [];
}

-- Every second sample, the first of them kept.
abbrev pub thin : List BoxSample → List BoxSample
thin [] = []
thin (b ∷ []) = b ∷ []
thin (b ∷ c ∷ bs) = b ∷ thin bs

abbrev pub max_box_samples : ℕ
max_box_samples = 2048

-- addBox, with the `len(obj.Box) == 4` of its caller
unfoldable pub add_box : Text → ℕ → List ℕ → List BoxSample → List BoxSample
add_box camera at (x1 ∷ y1 ∷ x2 ∷ y2 ∷ []) boxes =
    let sample : BoxSample = record {
      camera = camera;
      at = at;
      box = record { x1 = x1; y1 = y1; x2 = x2; y2 = y2 };
    } in
    (if leb max_box_samples (length boxes) then thin boxes else boxes) ++ sample ∷ []
add_box camera at box boxes = boxes

-- liveEnd
unfoldable pub live_end : Member → ℕ → ℕ
live_end m at = if nat_eq m.end 0 then at else m.end

-- Whether `o` counts with the anchor `m` at the instant `t`.
unfoldable pub counts_with : Member → ℕ → ℕ → Member → Bool
unfolding live_end
counts_with m t at o =
    (o.camera == m.camera)
    && ((o.label == m.label) && (not (ltb m.start o.start) && not (ltb (live_end o at) t)))

abbrev pub count_if {ℓ} : {A : Type ℓ} → (A → Bool) → List A → ℕ
count_if p [] = 0
count_if p (x ∷ xs) = if p x then count_if p xs + 1 else count_if p xs

-- concurrent
unfoldable pub concurrent : ℕ → List Member → Member → ℕ → ℕ
unfolding counts_with live_end
concurrent overlap members m at =
    let t = m.start + overlap in
    if ltb (live_end m at) t then 1 else max (count_if (counts_with m t at) members) 1

-- The value of a missing key is 0.
abbrev pub count_of : Text → Map Text ℕ → ℕ
count_of l objects = elim (get l objects) [ none ↦ 0 | some n ↦ n ]

-- Whether the label `a` with its count sorts before `b`.
before_label : Text × ℕ → Text × ℕ → Bool
before_label a b = if nat_eq a.1 b.1 then text_lt a.0 b.0 else ltb b.1 a.1

-- The first label in that order (the order is total on distinct labels).
least_label : Text × ℕ → Map Text ℕ → Text
unfolding before_label
least_label best [] = best.0
least_label best (o ∷ objects) = least_label (if before_label o best then o else best) objects

-- primaryLabel
unfoldable pub primary_label : Map Text ℕ → Text
unfolding least_label
primary_label [] = []
primary_label (o ∷ objects) =
    if ltb 0 (count_of (codes "person") (o ∷ objects))
    then codes "person"
    else least_label o objects

-- `append` of what is not there yet
abbrev pub add_once : Text → List Text → List Text
add_once x xs = if contains xs x then xs else xs ++ x ∷ []

abbrev pub add_all_once : List Text → List Text → List Text
add_all_once [] ys = ys
add_all_once (x ∷ xs) ys = add_all_once xs (add_once x ys)

-- What the loop of build has gathered.
pub record Draft : Type 0 where
  pub event : Event
  pub last : ℕ
  pub unzoned : List Text
  pub snapshot_of : Text
  pub any_clip : Bool

unfoldable pub is_zoned : Member → Bool
is_zoned m = not (texts_eq m.zones [])

-- The first half of the loop's body: what only members with a zone give.
unfoldable pub anchor : Member → Draft → Draft
unfolding is_zoned
anchor m b =
    let e = b.event in
    if is_zoned m
    then record b {
      event = record e {
        started_at =
            if nat_eq e.started_at 0 || ltb m.start e.started_at then m.start else e.started_at;
        cameras = add_once m.camera e.cameras;
        source_id = if m.snapshot && (e.source_id == []) then m.source else e.source_id;
        has_snapshot = (m.snapshot && (e.source_id == [])) || e.has_snapshot;
      };
    }
    else record b { unzoned = add_once m.camera b.unzoned }

-- The second half: what every member gives.
unfoldable pub include_member : ℕ → List Member → ℕ → Member → Draft → Draft
unfolding live_end
include_member overlap members at m b =
    let e = b.event in
    record b {
      event = record e {
        source_ids = e.source_ids ++ m.source ∷ [];
        spans =
            e.spans
            ++ record { camera = m.camera; label = m.label; start = m.start; end = m.end } ∷ [];
        objects =
            put m.label (max (count_of m.label e.objects) (concurrent overlap members m at))
              e.objects;
      };
      snapshot_of = if m.snapshot && (b.snapshot_of == []) then m.source else b.snapshot_of;
      any_clip = b.any_clip || m.clip;
      last = max b.last (live_end m at);
    }

-- The loop of build over the members left, all of them being `members`.
unfoldable pub draft : ℕ → List Member → ℕ → List Member → Draft → Draft
unfolding anchor include_member
draft overlap members at [] b = b
draft overlap members at (m ∷ ms) b =
    draft overlap members at ms (include_member overlap members at m (anchor m b))

-- `ev.Cameras[0]`; a panic of an empty list is no text.
first_of : List Text → Text
first_of [] = []
first_of (x ∷ xs) = x

-- The rest of build.
unfoldable pub finish : Incident → Text → Bool → Draft → Event
unfolding first_of
finish inc first ended b =
    let e = b.event in
    let cameras = add_all_once b.unzoned e.cameras in
    let shown = (e.source_id == []) && not (b.snapshot_of == []) in
    let source = if shown then b.snapshot_of else e.source_id in
    record e {
      started_at = if nat_eq e.started_at 0 then inc.first else e.started_at;
      cameras = cameras;
      source_id = if source == [] then first else source;
      has_snapshot = shown || e.has_snapshot;
      camera = first_of cameras;
      label = primary_label e.objects;
      ended_at = if ended then b.last else 0;
      boxes = if ended then inc.boxes else [];
      clip =
          if not b.any_clip
          then ClipState.no_clip
          else if ended
          then ClipState.final
          else ClipState.growing;
    }

-- `ev` where build's loop begins
unfoldable pub first_draft : Digest → Incident → Member → Draft
first_draft d inc first = record {
  event = record no_event {
    id = mint_id d (codes "activity/" ++ first.source);
    kind = Kind.activity;
    path = inc.path;
    zones = inc.path;
  };
  last = 0;
  unzoned = [];
  snapshot_of = [];
  any_clip = false;
}

-- build on the incident's members; where there are none and `inc.members[0]` would panic, there is
-- no event.
unfoldable pub build_of : Digest → ℕ → Incident → ℕ → Bool → List Member → Option Event
unfolding first_draft draft finish
build_of d overlap inc at ended [] = none
build_of d overlap inc at ended (first ∷ rest) =
    let all_members = first ∷ rest in
    some (
      finish inc first.source ended
        (draft overlap all_members at all_members (first_draft d inc first)))

-- build
unfoldable pub build : Digest → ℕ → Incident → ℕ → Bool → Option Event
unfolding build_of
build d overlap inc at ended = build_of d overlap inc at ended inc.members

-- sameActivity
unfoldable pub same_activity : Event → Event → Bool
same_activity a b =
    nat_eq (length a.objects) (length b.objects)
    && not (any (λ o. not (nat_eq (count_of o.0 b.objects) o.1)) a.objects)
    && (texts_eq a.path b.path
        && (texts_eq a.cameras b.cameras
            && (bool_eq a.has_snapshot b.has_snapshot
                && (nat_eq (clip_number a.clip) (clip_number b.clip)
                    && nat_eq a.ended_at b.ended_at))))
