-- ===== src/Server/Media.antt =====
-- internal/server/media.go: which cut of an event's media is asked for, and when it is fixed. A
-- time's Unix() is in whole seconds, and does not go below 1970 here.
pub mod Cuts
pub mod Door
pub mod Files
pub mod Entitled
pub mod Sealing
use curtilage.Prelude.{
  ℕ, ◌+◌, ◌-◌, ◌/◌, Bool, true, false, not, ◌&&◌, ◌||◌, List, [], ◌∷◌, ◌++◌, Option, none, some,
  Text, codes, nat_eq, ltb, leb, if◌then◌else◌, ◌==◌, eq_text, contains, keep_if,
}
use curtilage.Strings.{decimal}
use curtilage.Captoken.{second, epoch}
use curtilage.Policy.{Event}
use curtilage.Store.{Store, get_event}
use curtilage.MediaCache.{Key}

abbrev pub clip_margin : ℕ
clip_margin = 5_000_000_000

abbrev pub warm_grace : ℕ
warm_grace = 5_000_000_000

-- 15 and 30 seconds, one, two and four minutes
abbrev pub warm_ladder : List ℕ
warm_ladder =
    15_000_000_000 ∷ 30_000_000_000 ∷ 60_000_000_000 ∷ 120_000_000_000 ∷ 240_000_000_000 ∷ []

-- The loop of latestCheckpoint
unfoldable pub climb : List ℕ → ℕ → ℕ → ℕ → ℕ
climb [] started now best = best
climb (b ∷ bs) started now best =
    climb bs started now (if leb (started + (b + warm_grace)) now then started + b else best)

-- latestCheckpoint
unfoldable pub latest_checkpoint : ℕ → ℕ → ℕ
unfolding climb
latest_checkpoint started now = climb warm_ladder started now 0

-- What clipCut gives: the start, the end, and whether they are fixed
pub record Cut : Type 0 where
  pub start : ℕ
  pub end : ℕ
  pub stable : Bool

-- clipCut
unfoldable pub clip_cut : Event → ℕ → Bool → Cut
clip_cut e now checkpoints =
    let start = e.started_at - clip_margin in
    let checkpoint = latest_checkpoint e.started_at now in
    if not (nat_eq e.ended_at 0)
    then record { start = start; end = e.ended_at + clip_margin; stable = true }
    else if checkpoints && not (nat_eq checkpoint 0)
    then record { start = start; end = checkpoint; stable = true }
    else record { start = start; end = now; stable = false }

-- Unix()
unfoldable pub unix : ℕ → ℕ
unix t = t / second - epoch

-- cutTag
unfoldable pub cut_tag : Text → ℕ → ℕ → Text
unfolding unix
cut_tag camera start end =
    codes "\""
    ++ (camera
        ++ (codes "-"
            ++ (decimal (unix start) ++ (codes "-" ++ (decimal (unix end) ++ codes "\"")))))

-- clipKey
unfoldable pub clip_key : Text → ℕ → ℕ → Key
unfolding unix
clip_key camera start end = record {
  media = codes "clip";
  ref = camera;
  start = unix start;
  end = unix end;
  variant = [];
}

-- snapKey
unfoldable pub snap_key : Event → Key
snap_key e = record {
  media = codes "snapshot";
  ref = e.source_id;
  start = 0;
  end = 0;
  variant = [];
}

-- The values of the enumeration Media
abbrev pub media_snapshot : ℕ
media_snapshot = 1

abbrev pub media_clip : ℕ
media_clip = 2

-- Why a piece of media is not given
pub data Failure : Type 0 where
  not_found invalid_argument unavailable : Failure

pub data Result {ℓ} (A : Type ℓ) : Type ℓ where
  ok : A → Result A
  failed : Failure → Result A

-- resolveEvent, from its switch on
unfoldable pub check_media : ℕ → Event → Result Event
check_media media e =
    if nat_eq media media_snapshot
    then (if e.has_snapshot then Result.ok e else Result.failed Failure.not_found)
    else if nat_eq media media_clip
    then Result.ok e
    else Result.failed Failure.invalid_argument

-- resolveEvent
unfoldable pub resolve_event : Store → Text → ℕ → Text → Result Event
unfolding check_media
resolve_event s event_id media camera = elim (get_event event_id s) [
  | none ↦ Result.failed Failure.not_found
  | some e ↦
      if camera == []
      then check_media media e
      else if not (nat_eq media media_clip)
          || (not (camera == e.camera) && not (contains e.cameras camera))
      then Result.failed Failure.not_found
      else check_media media (record e { camera = camera })
]

-- eventCameras in warm.go
unfoldable pub event_cameras : Event → List Text
event_cameras e =
    let rest = keep_if (λ c. not (c == e.camera)) e.cameras in
    if e.camera == [] then rest else e.camera ∷ rest
