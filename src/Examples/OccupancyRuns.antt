-- ===== src/Examples/OccupancyRuns.antt =====
-- Runs of internal/policy/occupancy.go: a car on a side lot, seen by a camera that restarts.
use curtilage.Prelude.{
  ◌≡◌, ◌≤◌, refl, eq_text, true, false, [], ◌∷◌, none, some, Text, codes, arith,
}
use curtilage.Prelude.Map.{Map, get}
use curtilage.Frigate.{Object, Decoded, ChangeType}
use curtilage.Frigate
use curtilage.Policy.Occupancy.{
  Watch, Track, Ledger, Counts, is_watched, has_box, absorb, supersedes, note_track, is_orphan,
  sweep, new_track,
}
use curtilage.Policy.Occupancy.Patience.{watch_over, watch_over_patient}
use curtilage.Policy.Occupancy.Superseding.{absorb-IsAlone, IsAlone, noted}

abbrev lot : Watch
lot = record {
  zone = codes "lot";
  labels = codes "car" ∷ [];
  arrive_after = 60;
  depart_after = 300;
  quiet = false;
}

abbrev parked : Object
parked = record {
  id = codes "8";
  camera = codes "drive";
  label = codes "car";
  sub_label = [];
  false_positive = false;
  start_time = 100;
  end_time = 0;
  stationary = true;
  current_zones = [];
  entered_zones = codes "gate" ∷ codes "lot" ∷ [];
  box = 10 ∷ 10 ∷ 110 ∷ 60 ∷ [];
  has_clip = true;
  has_snapshot = true;
  plate = [];
}

-- The same car before the restart
abbrev orphan : Track
orphan = record {
  source = codes "7";
  camera = codes "drive";
  label = codes "car";
  plate = [];
  sub_label = [];
  snapshot = true;
  entered = (codes "lot", 50) ∷ [];
  box = 11 ∷ 10 ∷ 111 ∷ 61 ∷ [];
}

abbrev watches : Map Text Watch
watches = (codes "lot", lot) ∷ []

abbrev message : Frigate.Event
message = record { type = ChangeType.update; after = parked }

abbrev tracks : Map Text Track
tracks = (codes "7", orphan) ∷ []

watched : is_watched watches (codes "car") ≡ true
unfolding is_watched
watched = refl

boxed : has_box (noted watches 200 parked tracks).box ≡ true
unfolding has_box note_track new_track
boxed = refl

absorb-IsAlone_example :
    (get (codes "8") (absorb watches 200 message tracks) ≡ some (noted watches 200 parked tracks))
    × IsAlone (codes "8") (noted watches 200 parked tracks) (absorb watches 200 message tracks)
absorb-IsAlone_example = absorb-IsAlone watches 200 message tracks watched (λ e. cc) refl boxed

swept : absorb watches 200 message tracks ≡ (codes "8", noted watches 200 parked tracks) ∷ []
unfolding absorb is_watched sweep has_box note_track new_track is_orphan supersedes
swept = refl

abbrev believed : Ledger
believed = record {
  watch = lot;
  label = codes "car";
  present = 2;
  since = 10;
  last_seen = 90;
  below_since = 0;
  seen_camera = codes "drive";
  seen_source = codes "7";
  seen_snapshot = true;
}

abbrev nothing : Counts
nothing = record { qualified = 0; raw = 0; cover = none }

abbrev one : Counts
one = record { qualified = 1; raw = 1; cover = some orphan }

watch_over_patient_example :
    2
    ≤ (watch_over
        (record { at = 100; seen = nothing }
          ∷ record { at = 250; seen = one }
          ∷ record { at = 399; seen = nothing }
          ∷ [])
        believed).present
watch_over_patient_example =
    watch_over_patient 100 300
      (record { at = 100; seen = nothing }
        ∷ record { at = 250; seen = one }
        ∷ record { at = 399; seen = nothing }
        ∷ [])
      believed refl refl
      ((omega arith, omega arith), ((omega arith, omega arith), ((omega arith, omega arith), tt)))
