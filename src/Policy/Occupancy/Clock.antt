-- ===== src/Policy/Occupancy/Clock.antt =====
-- internal/policy/occupancy.go: every message is a tick for the ledgers. `t` below is the time in
-- nanoseconds of the message.
use curtilage.Prelude.{
  ℕ, ◌+◌, max, Bool, true, false, not, ◌&&◌, List, [], ◌∷◌, ◌++◌, Option, none, some, Text, codes,
  nat_eq, ltb, leb, if◌then◌else◌, ◌==◌, eq_text, contains, is_some,
}
use curtilage.Prelude.Map.{Map}
use curtilage.Strings.{unix_nano}
use curtilage.Frigate.{Decoded, parse_topic, parse_event}
use curtilage.Frigate
use curtilage.Policy.{Change, Op, Event, no_event, ClipState, Digest, mint_id, Kind}
use curtilage.Policy.Occupancy.{Ledger, Track, Occupancy, Counts, counts, absorb, since_when}

is_departure : Kind → Bool
is_departure Kind.departure = true
is_departure _ = false

-- A departure's event is anchored where the ledger was last covered.
anchor_departure : Ledger → Event → Event
anchor_departure l e =
    let seen = record e { started_at = l.last_seen; ended_at = l.last_seen } in
    if l.seen_camera == [] then seen else record seen {
      camera = l.seen_camera;
      source_id = l.seen_source;
      has_snapshot = l.seen_snapshot;
      cameras = l.seen_camera ∷ [];
      source_ids = l.seen_source ∷ [];
    }

-- The loop of event over the tracks
add_track : Track → Event → Event
add_track tr e =
    let bare = e.camera == [] in
    record e {
      camera = if bare then tr.camera else e.camera;
      source_id = if bare then tr.source else e.source_id;
      has_snapshot = if bare then tr.snapshot else e.has_snapshot;
      plate = if e.plate == [] then tr.plate else e.plate;
      sub_label = if e.sub_label == [] then tr.sub_label else e.sub_label;
      cameras = if contains e.cameras tr.camera then e.cameras else e.cameras ++ tr.camera ∷ [];
      source_ids = e.source_ids ++ tr.source ∷ [];
    }

add_tracks : Ledger → Map Text Track → Event → Event
unfolding add_track since_when
add_tracks l [] e = e
add_tracks l ((id, tr) ∷ tracks) e =
    add_tracks l tracks (if is_some (since_when l tr) then add_track tr e else e)

-- event
unfoldable pub event : Digest → Map Text Track → Ledger → ℕ → Kind → Event
unfolding is_departure anchor_departure add_tracks
event d tracks l at kind =
    let e = record no_event {
      id = mint_id d (
          codes "occupancy/"
          ++ (l.watch.zone ++ (codes "/" ++ (l.label ++ (codes "/" ++ unix_nano at)))));
      kind = kind;
      quiet = l.watch.quiet;
      label = l.label;
      zones = l.watch.zone ∷ [];
      path = l.watch.zone ∷ [];
      objects = (l.label, l.present) ∷ [];
      started_at = at;
      ended_at = at;
      clip = ClipState.final;
    } in
    add_tracks l tracks
      (if is_departure kind && not (nat_eq l.last_seen 0) then anchor_departure l e else e)

-- The track that covers the ledger, remembered
unfoldable pub remember : Option Track → Ledger → Ledger
remember none l = l
remember (some tr) l = record l {
  seen_camera = tr.camera;
  seen_source = tr.source;
  seen_snapshot = tr.snapshot;
}

-- The first `if` of tick
unfoldable pub cover_ledger : ℕ → Counts → Ledger → Ledger
unfolding remember
cover_ledger at c l =
    if leb l.present c.raw
    then (let clear = record l { below_since = 0 } in
        if ltb 0 c.raw then remember c.cover (record clear { last_seen = at }) else clear)
    else if nat_eq l.below_since 0
    then record l { below_since = at }
    else l

-- The rest of tick's loop body: the ledger and the kind of the transition, if there is one
unfoldable pub believe_ledger : ℕ → Counts → Ledger → Ledger × Option Kind
believe_ledger at c l =
    if ltb l.present c.qualified
    then (record l { present = c.qualified; since = at; below_since = 0 }, some Kind.arrival)
    else if ltb 0 l.present
        && (not (nat_eq l.below_since 0) && leb (l.below_since + l.watch.depart_after) at)
    then (record l { present = max c.qualified c.raw; below_since = 0 }, some Kind.departure)
    else (l, none)

unfoldable pub step_ledger : ℕ → Counts → Ledger → Ledger × Option Kind
unfolding cover_ledger believe_ledger
step_ledger at c l = believe_ledger at c (cover_ledger at c l)

say_kind : Digest → Map Text Track → ℕ → Ledger → Option Kind → List Change
say_kind d tracks at l none = []
say_kind d tracks at l (some kind) =
    record { op = Op.started; event = event d tracks l at kind } ∷ []

-- tick
unfoldable pub tick : Digest → Map Text Track → ℕ → Map Text Ledger → Map Text Ledger × List Change
unfolding step_ledger say_kind
tick d tracks at [] = ([], [])
tick d tracks at ((k, l) ∷ ledgers) =
    let (next, kind) = step_ledger at (counts l at tracks) l in
    let (rest, more) = tick d tracks at ledgers in
    ((k, next) ∷ rest, say_kind d tracks at next kind ++ more)

observe_tracks : Frigate.Kind → ℕ → Option Frigate.Event → Occupancy → Occupancy
observe_tracks Frigate.Kind.events at (some msg) o =
    if msg.after.false_positive then o else record o { tracks = absorb o.watches at msg o.tracks }
observe_tracks _ at _ o = o

-- (o *Occupancy) Observe
unfoldable pub observe :
    Digest → (Text → Option Decoded) → ℕ → Text → Text → Occupancy → Occupancy × List Change
unfolding observe_tracks tick
observe d decode at topic payload o =
    let p = observe_tracks (parse_topic topic).kind at (parse_event decode payload) o in
    let (ledgers, changes) = tick d p.tracks at p.ledgers in
    (record p { ledgers = ledgers }, changes)

-- ZoneState, and Presence before it is sorted
pub record ZoneState : Type 0 where
  pub zone : Text
  pub label : Text
  pub count : ℕ
  pub since : ℕ
  pub last_seen : ℕ

unfoldable pub state_of_ledger : Ledger → ZoneState
state_of_ledger l = record {
  zone = l.watch.zone;
  label = l.label;
  count = l.present;
  since = l.since;
  last_seen = l.last_seen;
}

-- An engine is what it makes of a message and what it says.
abbrev pub Engine : Type 0 → Type 0
Engine S = ℕ → Text → Text → S → S × List Change

-- (m Multi) Observe
unfoldable pub multi :
    {S : Type 0} → ℕ → Text → Text → List (S × Engine S) → List (S × Engine S) × List Change
multi at topic payload [] = ([], [])
multi at topic payload ((s, f) ∷ es) =
    let (t, changes) = f at topic payload s in
    let (rest, more) = multi at topic payload es in ((t, f) ∷ rest, changes ++ more)
