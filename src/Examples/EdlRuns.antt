-- ===== src/Examples/EdlRuns.antt =====
-- Runs of internal/edl: a clip of eight seconds, with a walk from one camera's view into another's.
use curtilage.Prelude.{
  ℕ, ◌+◌, ◌-◌, ◌*◌, ◌≡◌, ◌<◌, refl, true, List, [], ◌∷◌, ◌++◌, Text, codes, is_some, arith,
}
use curtilage.Policy.{Event, BoxSample, no_event}
use curtilage.Edl.{
  Segment, Dims, edl_step, per_camera, score, is_over, has_advantage, best_at, emit, cut_to, roll,
  build,
}
use curtilage.Edl.Reel.{IsReel, build-IsReel}

abbrev start : ℕ
start = 100_000_000_000

abbrev end : ℕ
end = 108_000_000_000

abbrev dims : Dims
dims = (codes "porch", (100, 100)) ∷ (codes "drive", (200, 100)) ∷ []

abbrev sighting : Text → ℕ → ℕ → BoxSample
sighting camera at side = record {
  camera = camera;
  at = at;
  box = record { x1 = 0; y1 = 0; x2 = side; y2 = side };
}

abbrev walk : Event
walk = record no_event {
  boxes =
      sighting (codes "porch") 101_000_000_000 20
      ∷ sighting (codes "drive") 103_000_000_000 60
      ∷ [];
}

follows :
    build walk start end dims
    ≡ record { camera = codes "porch"; start = 0; end = 3_500_000_000 }
      ∷ record { camera = codes "drive"; start = 3_500_000_000; end = 8_000_000_000 }
      ∷ []
unfolding build per_camera roll best_at score is_over has_advantage cut_to emit
follows = refl

seen : is_some (best_at dims (per_camera dims walk.boxes []) (start + 2 * edl_step)).1 ≡ true
unfolding per_camera best_at score is_over
seen = refl

build-IsReel_example :
    (front : List Segment) × (last : Segment) × (build walk start end dims ≡ front ++ last ∷ [])
    × IsReel 0 front last.start
    × (last.start < last.end)
    × (last.end ≡ end - start)
build-IsReel_example = build-IsReel walk start end dims 2 refl (omega arith) seen
