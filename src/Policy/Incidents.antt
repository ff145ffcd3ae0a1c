-- ===== src/Policy/Incidents.antt =====
-- internal/policy/incidents.go: the engine that folds people and dogs moving about into incidents.
-- The lookups of a Go map and of a set are searches; the order of `range` over `inc.byID` does not
-- show, because it only marks every member as closed.
pub mod Runs
pub mod Sound
use curtilage.Prelude.{
  ℕ, ◌+◌, ◌≡◌, refl, Bool, true, false, not, ◌&&◌, ◌||◌, List, [], ◌∷◌, ◌++◌, Option, none, some,
  Text, codes, nat_eq, ltb, leb, if◌then◌else◌, ◌==◌, eq_text, contains, any, keep_if, is_some,
}
use curtilage.Prelude.Map.{Map, get, put}
use curtilage.Frigate.{Object, Decoded, ChangeType, parse_topic, parse_event}
use curtilage.Frigate
use curtilage.Policy.{Change, Op, Event, Digest}
use curtilage.Policy.Adjacency.{graph_of, reachable}
use curtilage.Policy.Passthrough.{Passthrough, new_passthrough}
use curtilage.Policy.Passthrough
use curtilage.Policy.Activity.{
  Member, Incident, new_incident, add_box, add_all_once, add_once, build, same_activity,
}

pub record IncidentConfig : Type 0 where
  pub labels : List Text
  pub gap : ℕ
  pub overlap : ℕ
  pub notable : List Text
  pub adjacent : Map Text (List Text)

pub record Incidents : Type 0 where
  pub cfg : IncidentConfig
  pub adjacent : Option (Map Text (List Text))  -- none: every camera adjoins every other
  pub rest : Passthrough
  pub opened : List Incident  -- oldest first
  pub closed : Map Text ℕ

-- DefaultIncidentConfig
abbrev pub default_config : IncidentConfig
default_config = record {
  labels = codes "person" ∷ codes "dog" ∷ [];
  gap = 60_000_000_000;
  overlap = 3_000_000_000;
  notable = [];
  adjacent = [];
}

labels_or : List Text → List Text → List Text
labels_or [] ls = ls
labels_or (l ∷ ls) _ = l ∷ ls

-- NewIncidents
unfoldable pub new_incidents : IncidentConfig → Incidents
unfolding labels_or graph_of
new_incidents cfg = record {
  cfg = record cfg {
    labels = labels_or cfg.labels default_config.labels;
    gap = if nat_eq cfg.gap 0 then default_config.gap else cfg.gap;
    overlap = if nat_eq cfg.overlap 0 then default_config.overlap else cfg.overlap;
  };
  adjacent = graph_of cfg.adjacent;
  rest = record new_passthrough { notable = cfg.notable };
  opened = [];
  closed = [];
}

-- emit, once the event as it now stands is built
unfoldable pub say : Incident → Option Event → Incident × List Change
say inc none = (inc, [])
say inc (some next) =
    if not inc.sent
    then (record inc { sent = true; event = next }, record { op = Op.started; event = next } ∷ [])
    else if same_activity inc.event next
    then (inc, [])
    else (record inc { event = next }, record { op = Op.updated; event = next } ∷ [])

-- emit
unfoldable pub emit : Digest → ℕ → ℕ → Incident → Incident × List Change
unfolding say
emit d overlap at inc = elim inc.path [
  | [] ↦ (inc, [])
  | _ ↦ say inc (build d overlap inc at false)
]

mark_closed : ℕ → List Member → Map Text ℕ → Map Text ℕ
mark_closed at [] closed = closed
mark_closed at (m ∷ ms) closed = mark_closed at ms (put m.source at closed)

abbrev pub hour : ℕ
hour = 3_600_000_000_000

ended : Option Event → List Change
ended none = []
ended (some e) = record { op = Op.ended; event = e } ∷ []

-- close
unfoldable pub close : Digest → ℕ → ℕ → Incident → Map Text ℕ → Map Text ℕ × List Change
unfolding mark_closed ended
close d overlap at inc closed = (
  keep_if (λ c. not (ltb (c.1 + hour) at)) (mark_closed at inc.members closed),
  if inc.sent then ended (build d overlap inc at true) else [],
)

-- The first loop of Observe: the incidents past their gap are closed, the others stay open.
unfoldable pub close_due :
    Digest
    → IncidentConfig
    → ℕ
    → List Incident
    → Map Text ℕ
    → List Incident × Map Text ℕ × List Change
close_due d cfg at [] closed = ([], closed, [])
close_due d cfg at (inc ∷ opened) closed =
    let due = leb (inc.last + cfg.gap) at in
    let (after, changes) = if due then close d cfg.overlap at inc closed else (closed, []) in
    let (kept, last, more) = close_due d cfg at opened after in
    (if due then kept else inc ∷ kept, last, changes ++ more)

-- `obj.StartTime`, or now
member_of : Object → ℕ → Member
member_of o at = record {
  source = o.id;
  camera = o.camera;
  label = o.label;
  start = if nat_eq o.start_time 0 then at else o.start_time;
  end = 0;
  zones = [];
  snapshot = false;
  clip = false;
}

-- inc.byID[source]
abbrev pub has_source : Text → Incident → Bool
has_source source inc = any (λ m. m.source == source) inc.members

-- The block for an object that the incident does not know yet
unfoldable pub enter : Object → ℕ → Incident → Incident
unfolding member_of
enter o at inc =
    let m = member_of o at in
    if has_source o.id inc then inc else record inc {
      members = inc.members ++ m ∷ [];
      first = if nat_eq inc.first 0 || ltb m.start inc.first then m.start else inc.first;
    }

unfoldable pub is_named : Text → Bool
is_named z = not (z == [])

-- What a message of the object changes of its member
unfoldable pub note_member : ChangeType → Object → ℕ → Member → Member
unfolding is_named
note_member type o at m =
    let n = record m {
      snapshot = m.snapshot || o.has_snapshot;
      clip = m.clip || o.has_clip;
      zones = add_all_once (keep_if is_named (o.entered_zones ++ o.current_zones)) m.zones;
    } in
    elim type [
      | ChangeType.end ↦ record n { end = if nat_eq o.end_time 0 then at else o.end_time }
      | _ ↦ n
    ]

-- `m` points into the members.
unfoldable pub change_member : Text → (Member → Member) → List Member → List Member
change_member source f [] = []
change_member source f (m ∷ ms) =
    if m.source == source then f m ∷ ms else m ∷ change_member source f ms

-- The rest of Observe, from `inc.last = at` to emit
unfoldable pub take_message :
    Digest → ℕ → ℕ → ChangeType → Object → Incident → Incident × List Change
unfolding enter note_member change_member is_named
take_message d overlap at type o inc =
    let known = enter o at (record inc { last = at }) in
    emit d overlap at (record known {
      members = change_member o.id (note_member type o at) known.members;
      path = add_all_once (keep_if is_named (o.entered_zones ++ o.current_zones)) known.path;
      boxes = add_box o.camera at o.box known.boxes;
    })

-- The first open incident that passes the test takes the message; none if no incident does.
unfoldable pub update_first :
    (Incident → Bool)
    → (Incident → Incident × List Change)
    → List Incident
    → Option (List Incident × List Change)
update_first p f [] = none
update_first p f (inc ∷ opened) =
    let rest = update_first p f opened in
    if p inc
    then (let (next, changes) = f inc in some (next ∷ opened, changes))
    else elim rest [ none ↦ none | some (incs, changes) ↦ some (inc ∷ incs, changes) ]

unfoldable pub or_else {ℓ} : {A : Type ℓ} → Option A → A → A
or_else none a = a
or_else (some b) a = b

-- A new incident, with what its first message says
unfoldable pub open_new :
    Digest → ℕ → ℕ → ChangeType → Object → List Incident → List Incident × List Change
unfolding take_message
open_new d overlap at type o opened =
    let (inc, changes) = take_message d overlap at type o new_incident in
    (opened ++ inc ∷ [], changes)

unfoldable pub is_end : ChangeType → Bool
is_end ChangeType.end = true
is_end _ = false

-- A message of an object that no open incident has: an end is dropped, any other joins the oldest
-- incident that the actor could have walked out of, or opens a new one.
unfoldable pub join :
    Digest → Incidents → ℕ → ChangeType → Object → List Incident → List Incident × List Change
unfolding or_else open_new is_end
join d e at type o opened =
    if is_end type
    then (opened, [])
    else or_else
        (update_first (reachable e.adjacent o.camera) (take_message d e.cfg.overlap at type o)
          opened)
        (open_new d e.cfg.overlap at type o opened)

-- A message of an activity's object, with the incidents left open
unfoldable pub assign :
    Digest → Incidents → ℕ → ChangeType → Object → List Incident → List Incident × List Change
unfolding or_else join
assign d e at type o opened =
    or_else (update_first (has_source o.id) (take_message d e.cfg.overlap at type o) opened)
      (join d e at type o opened)

-- The message goes to the passthrough engine.
unfoldable pub is_other : Incidents → Option Frigate.Event → Bool
is_other e none = true
is_other e (some msg) = msg.after.false_positive || not (contains e.cfg.labels msg.after.label)

unfoldable pub fold_message :
    Digest → Incidents → ℕ → Option Frigate.Event → Incidents × List Change
unfolding assign
fold_message d e at none = (e, [])
fold_message d e at (some msg) =
    if is_some (get msg.after.id e.closed)
    then (e, [])
    else let (opened, changes) = assign d e at msg.type msg.after e.opened in
      (record e { opened = opened }, changes)

-- Observe, behind its first loop
unfoldable pub observe_event :
    Digest → (Text → Option Decoded) → ℕ → Text → Text → Incidents → Incidents × List Change
unfolding is_other fold_message
observe_event d decode at topic payload e =
    if is_other e (parse_event decode payload)
    then (let (rest, changes) = Passthrough.observe d decode at topic payload e.rest in
        (record e { rest = rest }, changes))
    else fold_message d e at (parse_event decode payload)

unfoldable pub dispatch :
    Digest
    → (Text → Option Decoded)
    → ℕ
    → Text
    → Text
    → Frigate.Kind
    → Incidents
    → Incidents × List Change
unfolding observe_event
dispatch d decode at topic payload Frigate.Kind.events e = observe_event d decode at topic payload e
dispatch d decode at topic payload _ e = (e, [])

-- (e *Incidents) Observe
unfoldable pub observe :
    Digest → (Text → Option Decoded) → ℕ → Text → Text → Incidents → Incidents × List Change
unfolding close_due dispatch
observe d decode at topic payload e =
    let (opened, closed, changes) = close_due d e.cfg at e.opened e.closed in
    let (next, more) =
      dispatch d decode at topic payload (parse_topic topic).kind
        (record e { opened = opened; closed = closed }) in
    (next, changes ++ more)
