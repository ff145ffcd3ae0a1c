-- ===== src/Policy/Passthrough.antt =====
-- internal/policy/policy.go, Passthrough: every tracked object is a detection from its first
-- message to its end. `p.live` is a map from source ids to the events still running.
pub mod Lifetime
use curtilage.Prelude.{
  ℕ, ◌+◌, ◌%◌, ◌^◌, ◌≡◌, refl, Bool, true, false, not, ◌&&◌, ◌||◌, List, [], ◌∷◌, ◌++◌, Option,
  none, some, Text, nat_eq, if◌then◌else◌, ◌==◌, eq_text, arith, contains, is_some, Bool-cases,
  Option-cases, inl, inr, text_eq_iff, ==_refl,
}
use curtilage.Prelude.Map.{Map, get, put, del, get-put, get-del}
use curtilage.Frigate.{Object, Decoded, ChangeType, parse_topic, parse_event}
use curtilage.Frigate
use curtilage.Policy.{Change, Op, Event, no_event, ClipState, Digest, mint_id, Kind}

pub record Passthrough : Type 0 where
  pub live : Map Text Event  -- by source id
  pub notable : List Text
  pub undecodable : ℕ

-- NewPassthrough
abbrev pub new_passthrough : Passthrough
new_passthrough = record { live = []; notable = []; undecodable = 0 }

-- clipState
unfoldable pub clip_state : Object → Bool → ClipState
clip_state o running =
    if not o.has_clip
    then ClipState.no_clip
    else if running
    then ClipState.growing
    else ClipState.final

-- The zones an object entered, or those it is in when it entered none.
zones_of : List Text → List Text → List Text
zones_of [] current = current
zones_of (z ∷ zs) current = z ∷ zs

-- fromObject
unfoldable pub from_object : Digest → Object → ℕ → Event
unfolding zones_of clip_state
from_object d o at = record no_event {
  id = mint_id d o.id;
  camera = o.camera;
  label = o.label;
  sub_label = o.sub_label;
  plate = o.plate;
  zones = zones_of o.entered_zones o.current_zones;
  kind = Kind.detection;
  started_at = if nat_eq o.start_time 0 then at else o.start_time;
  ended_at = o.end_time;
  has_snapshot = o.has_snapshot;
  source_id = o.id;
  clip = clip_state o (nat_eq o.end_time 0);
}

-- slices.Equal on lists of strings
abbrev pub texts_eq : List Text → List Text → Bool
texts_eq [] [] = true
texts_eq [] (y ∷ ys) = false
texts_eq (x ∷ xs) [] = false
texts_eq (x ∷ xs) (y ∷ ys) = (x == y) && texts_eq xs ys

-- == on booleans and on the two enumerations
abbrev pub bool_eq : Bool → Bool → Bool
bool_eq true b = b
bool_eq false b = not b

abbrev pub clip_number : ClipState → ℕ
clip_number ClipState.unknown = 0
clip_number ClipState.no_clip = 1
clip_number ClipState.growing = 2
clip_number ClipState.final = 3

abbrev kind_number : Kind → ℕ
kind_number Kind.unknown = 0
kind_number Kind.arrival = 1
kind_number Kind.departure = 2
kind_number Kind.package_seen = 3
kind_number Kind.detection = 4
kind_number Kind.activity = 5
kind_number Kind.state = 6
kind_number Kind.sighting = 7

-- same
unfoldable pub same : Event → Event → Bool
same a b =
    (a.sub_label == b.sub_label)
    && ((a.plate == b.plate)
        && (bool_eq a.has_snapshot b.has_snapshot
            && (nat_eq (clip_number a.clip) (clip_number b.clip)
                && (nat_eq (kind_number a.kind) (kind_number b.kind) && texts_eq a.zones b.zones))))

-- `next` of Observe: what the message's object is now.
unfoldable pub next_event : Digest → Passthrough → Object → ℕ → Event
unfolding from_object
next_event d p o at =
    let next = from_object d o at in
    if contains p.notable o.label then record next { kind = Kind.sighting } else next

-- The switch of Observe on the message's type, the live event of the object, if any, given.
unfoldable pub lifecycle :
    ℕ → Object → Event → Map Text Event → ChangeType → Option Event → Map Text Event × List Change
unfolding clip_state
lifecycle at o next live ChangeType.new none =
    (put o.id next live, record { op = Op.started; event = next } ∷ [])
lifecycle at o next live ChangeType.new (some prev) = (live, [])
lifecycle at o next live ChangeType.update none =
    (put o.id next live, record { op = Op.started; event = next } ∷ [])
lifecycle at o next live ChangeType.update (some prev) =
    if same prev next
    then (live, [])
    else (put o.id next live, record { op = Op.updated; event = next } ∷ [])
lifecycle at o next live ChangeType.end prev =
    let started = record next { ended_at = 0; clip = clip_state o true } in
    let ended = record next {
      ended_at = if nat_eq next.ended_at 0 then at else next.ended_at;
      clip = clip_state o false;
    } in
    (
      del o.id live,
      (if is_some prev then [] else record { op = Op.started; event = started } ∷ [])
          ++ record { op = Op.ended; event = ended } ∷ [],
    )

unfoldable pub observe_parsed :
    Digest → ℕ → Option Frigate.Event → Passthrough → Passthrough × List Change
unfolding lifecycle next_event
observe_parsed d at none p = (record p { undecodable = (p.undecodable + 1) % 2 ^ 64 }, [])
observe_parsed d at (some msg) p =
    let o = msg.after in
    if o.false_positive
    then (p, [])
    else let (live, changes) =
        lifecycle at o (next_event d p o at) p.live msg.type (get o.id p.live) in
      (record p { live = live }, changes)

-- Observe once the topic is parsed.
unfoldable pub dispatch :
    Digest
    → (Text → Option Decoded)
    → ℕ
    → Text
    → Frigate.Kind
    → Passthrough
    → Passthrough × List Change
unfolding observe_parsed
dispatch d decode at payload Frigate.Kind.events p =
    observe_parsed d at (parse_event decode payload) p
dispatch d decode at payload _ p = (p, [])

-- (p *Passthrough) Observe
unfoldable pub observe :
    Digest → (Text → Option Decoded) → ℕ → Text → Text → Passthrough → Passthrough × List Change
unfolding dispatch
observe d decode at topic payload p = dispatch d decode at payload (parse_topic topic).kind p
