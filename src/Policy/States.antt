-- ===== src/Policy/States.antt =====
-- internal/policy/states.go: the engine that believes classifier verdicts slowly. `s.models` is a
-- map, so its order here is any order in which Go may visit it.
pub mod Belief
pub mod Settling
use curtilage.Prelude.{
  ℕ, ◌+◌, ◌≡◌, refl, Bool, true, false, not, ◌&&◌, ◌||◌, List, [], ◌∷◌, ◌++◌, Option, none, some,
  Text, codes, nat_eq, ltb, leb, if◌then◌else◌, ◌==◌, eq_text,
}
use curtilage.Prelude.Map.{Map, get, put}
use curtilage.Strings.{unix_nano, trim_prefix, replace_byte}
use curtilage.Frigate.{Topic, parse_topic, parse_class, Kind}
use curtilage.Policy.{Change, Op, Event, no_event, ClipState, Digest, mint_id}
use curtilage.Policy

pub record StateModel : Type 0 where
  pub model : Text
  pub hold : ℕ
  pub news : Bool
  pub alarm_class : Text
  pub alarm_after : ℕ

pub record Model : Type 0 where
  pub cfg : StateModel
  pub camera : Text
  pub raw : Text
  pub raw_at : ℕ  -- when raw last changed
  pub held : Text
  pub held_at : ℕ  -- when held last changed
  pub alarmed : Bool  -- this episode already alarmed

abbrev ten_minutes : ℕ
ten_minutes = 600_000_000_000

with_default : StateModel → StateModel
with_default m = if nat_eq m.hold 0 then record m { hold = ten_minutes } else m

fresh_model : StateModel → Model
unfolding with_default
fresh_model m = record {
  cfg = with_default m;
  camera = [];
  raw = [];
  raw_at = 0;
  held = [];
  held_at = 0;
  alarmed = false;
}

-- A later model of one name replaces an earlier one.
add_models : Map Text Model → List StateModel → Map Text Model
unfolding fresh_model
add_models models [] = models
add_models models (m ∷ ms) = add_models (put m.model (fresh_model m) models) ms

-- NewStates; a duration is at least 0 here, and 0 takes the default.
unfoldable pub new_states : List StateModel → Map Text Model
unfolding add_models
new_states ms = add_models [] ms

-- The body of Observe for the model that the topic names, once its class is parsed.
unfoldable pub reading : ℕ → Text → Text → Model → Model
reading at camera class m =
    let n = record m {
      camera = camera;
      raw = class;
      raw_at = if class == m.raw then m.raw_at else at;
    } in
    if n.held == [] then record n { held = class; held_at = at } else n

unfoldable pub state_event : Digest → Model → ℕ → ℕ → Event
state_event d m started at = record no_event {
  id =
      mint_id d
        (codes "state/" ++ (m.cfg.model ++ (codes "/" ++ (m.held ++ (codes "/" ++ unix_nano at)))));
  kind = Policy.Kind.state;
  camera = m.camera;
  cameras = m.camera ∷ [];
  label = m.cfg.model;
  sub_label = m.held;
  started_at = started;
  ended_at = at;
  clip = ClipState.final;
}

-- The first half of tick's loop body: a raw value that survived the hold is believed.
unfoldable pub believe : Digest → ℕ → Model → Model × List Change
unfolding state_event
believe d at m =
    let n = record m { held = m.raw; held_at = m.raw_at; alarmed = false } in
    if not (m.raw == []) && (not (m.raw == m.held) && leb (m.raw_at + m.cfg.hold) at)
    then (
      n,
      if m.cfg.news
          then record { op = Op.started; event = state_event d n m.raw_at m.raw_at } ∷ []
          else [],
    )
    else (m, [])

-- The second half: a believed state that has endured alarms, once an episode.
unfoldable pub alarm : Digest → ℕ → Model → Model × List Change
unfolding state_event
alarm d at m =
    let n = record m { alarmed = true } in
    if not m.alarmed
      && (not (m.cfg.alarm_class == [])
          && ((m.held == m.cfg.alarm_class) && leb (m.held_at + m.cfg.alarm_after) at))
    then (n, record { op = Op.started; event = state_event d n m.held_at at } ∷ [])
    else (m, [])

unfoldable pub tick_model : Digest → ℕ → Model → Model × List Change
unfolding believe alarm
tick_model d at m =
    let (n, news) = believe d at m in let (o, alarms) = alarm d at n in (o, news ++ alarms)

-- (s *States) tick
unfoldable pub tick : Digest → ℕ → Map Text Model → Map Text Model × List Change
unfolding tick_model
tick d at [] = ([], [])
tick d at ((k, m) ∷ models) =
    let (n, changes) = tick_model d at m in
    let (rest, more) = tick d at models in ((k, n) ∷ rest, changes ++ more)

take_reading : ℕ → Text → Text → Option Text → Option Model → Map Text Model → Map Text Model
unfolding reading
take_reading at model camera none m models = models
take_reading at model camera (some class) none models = models
take_reading at model camera (some class) (some m) models =
    put model (reading at camera class m) models

-- (s *States) Observe
unfoldable pub observe : Digest → ℕ → Text → Text → Map Text Model → Map Text Model × List Change
unfolding take_reading tick
observe d at topic payload models =
    let top = parse_topic topic in
    tick d at (elim top.kind [
      | Kind.classification ↦
          take_reading at top.model top.camera (parse_class payload) (get top.model models) models
      | _ ↦ models
    ])

-- ModelState
pub record ModelState : Type 0 where
  pub model : Text
  pub camera : Text
  pub held : Text
  pub held_since : ℕ
  pub raw : Text
  pub raw_since : ℕ

unfoldable pub state_of : Model → ModelState
state_of m = record {
  model = m.cfg.model;
  camera = m.camera;
  held = m.held;
  held_since = m.held_at;
  raw = m.raw;
  raw_since = m.raw_at;
}
