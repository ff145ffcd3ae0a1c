-- ===== src/Policy.antt =====
-- internal/policy/policy.go: the events the engines emit, and who they are for. An instant
-- (time.Time) is a number of nanoseconds since the zero time, so 0 is `IsZero`; a Go string is a
-- list of bytes; a count is a number. Detection boxes are whole detect-resolution pixels.
pub mod Activity
pub mod Adjacency
pub mod Incidents
pub mod Occupancy
pub mod Passthrough
pub mod States
use curtilage.Prelude.{
  ℕ, ◌≡◌, ◌↔◌, refl, Bool, true, false, not, ◌&&◌, List, [], ◌++◌, Text, codes, take, arith, nat_eq,
  if◌then◌else◌, Bool-cases, inl, inr,
}
use curtilage.Prelude.Map.{Map}

pub data Kind : Type 0 where
  unknown arrival departure package_seen detection activity state sighting : Kind

pub data ClipState : Type 0 where
  unknown no_clip growing final : ClipState

pub record Box : Type 0 where
  pub x1 : ℕ
  pub y1 : ℕ
  pub x2 : ℕ
  pub y2 : ℕ

pub record BoxSample : Type 0 where
  pub camera : Text
  pub at : ℕ
  pub box : Box

pub record Span : Type 0 where
  pub camera : Text
  pub label : Text
  pub start : ℕ
  pub end : ℕ  -- zero while that sighting is live

pub record Event : Type 0 where
  pub id : Text
  pub camera : Text
  pub label : Text
  pub sub_label : Text
  pub plate : Text
  pub quiet : Bool
  pub zones : List Text
  pub kind : Kind
  pub started_at : ℕ
  pub ended_at : ℕ  -- zero while running
  pub has_snapshot : Bool
  pub clip : ClipState
  pub source_id : Text
  pub objects : Map Text ℕ
  pub path : List Text
  pub cameras : List Text
  pub source_ids : List Text
  pub spans : List Span
  pub boxes : List BoxSample

-- The zero value of the struct.
abbrev pub no_event : Event
no_event = record {
  id = [];
  camera = [];
  label = [];
  sub_label = [];
  plate = [];
  quiet = false;
  zones = [];
  kind = Kind.unknown;
  started_at = 0;
  ended_at = 0;
  has_snapshot = false;
  clip = ClipState.unknown;
  source_id = [];
  objects = [];
  path = [];
  cameras = [];
  source_ids = [];
  spans = [];
  boxes = [];
}

abbrev pub running : Event → Bool
running e = nat_eq e.ended_at 0

abbrev household : Text
household = codes "household"

abbrev list_only : Text
list_only = codes "nobody (list only)"

abbrev nobody : Text
nobody = codes "nobody"

-- Audience(k Kind)
kind_audience : Kind → Text
kind_audience Kind.arrival = household
kind_audience Kind.departure = household
kind_audience Kind.package_seen = household
kind_audience Kind.activity = household
kind_audience Kind.state = household
kind_audience Kind.sighting = household
kind_audience Kind.detection = list_only
kind_audience Kind.unknown = nobody

-- Event.Audience
pub audience : Event → Text
unfolding kind_audience
audience e = if e.quiet then list_only else kind_audience e.kind

-- Sent(k Kind)
kind_sent : Kind → Bool
kind_sent Kind.arrival = true
kind_sent Kind.departure = true
kind_sent Kind.package_seen = true
kind_sent Kind.activity = true
kind_sent Kind.state = true
kind_sent Kind.sighting = true
kind_sent Kind.detection = false
kind_sent Kind.unknown = false

-- Event.Sent
unfoldable pub sent : Event → Bool
unfolding kind_sent
sent e = kind_sent e.kind && not e.quiet

pub data Op : Type 0 where
  unknown started updated ended : Op

pub record Change : Type 0 where
  pub op : Op
  pub event : Event

-- The hash and the encoding that MintID composes; their results matter nowhere else.
pub record Digest : Type 0 where
  pub sha256 : Text → Text
  pub base32 : Text → Text

-- MintID
unfoldable pub mint_id : Digest → Text → Text
mint_id d source = take 20 (d.base32 (d.sha256 (codes "curtilage/event/" ++ source)))

kind_sent_iff : (k : Kind) → (kind_sent k ≡ true) ↔ (kind_audience k ≡ household)
unfolding kind_sent kind_audience
kind_sent_iff Kind.unknown = ((λ h. cc), (λ h. cc))
kind_sent_iff Kind.detection = ((λ h. cc), (λ h. cc))
kind_sent_iff _ = ((λ h. refl), (λ h. refl))

-- An event is sent exactly when its audience is the household: the two switches over the kinds and
-- the quiet rule agree.
sent_iff_household : (e : Event) → (sent e ≡ true) ↔ (audience e ≡ codes "household")
unfolding sent audience
sent_iff_household e = elim (Bool-cases e.quiet) [
  | inl q ↦ rw q ((λ h. ground (arith, h)), (λ h. cc))
  | inr q ↦ rw q (
    (λ h. (kind_sent_iff e.kind).0 (ground (arith, h))),
    (λ h. ground (arith, (kind_sent_iff e.kind).1 h)),
  )
]
