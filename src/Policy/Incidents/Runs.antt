-- ===== src/Policy/Incidents/Runs.antt =====
-- internal/policy/incidents.go from a new engine on: Observe with every message in turn.
use curtilage.Prelude.{
  ℕ, ◌≡◌, ◌≤◌, refl, sym, ap, ◌∙◌, List, [], ◌∷◌, Option, none, some, Text, All, arith, eq_text,
  Bool-cases, inl, inr, is_some,
}
use curtilage.Prelude.Map.{get}
use curtilage.Frigate.{Decoded, parse_topic, parse_event}
use curtilage.Frigate
use curtilage.Policy.{Digest}
use curtilage.Policy.Passthrough.Lifetime.{Message}
use curtilage.Policy.Incidents.{
  IncidentConfig, Incidents, new_incidents, is_other, fold_message, observe_event, dispatch,
  observe,
}
use curtilage.Policy.Incidents.Sound.{IsSound, observe-IsSound}

unfoldable pub run : Digest → (Text → Option Decoded) → List Message → Incidents → Incidents
run d decode [] e = e
run d decode (m ∷ ms) e = run d decode ms (observe d decode m.at m.topic m.payload e).0

fold_message_cfg :
    (d : Digest) (e : Incidents) (at : ℕ) (msg : Option Frigate.Event)
    → (fold_message d e at msg).0.cfg ≡ e.cfg
unfolding fold_message
fold_message_cfg d e at none = refl
fold_message_cfg d e at (some msg) = elim (Bool-cases (is_some (get msg.after.id e.closed))) [
  | inl t ↦ rw t refl
  | inr n ↦ rw n refl
]

dispatch_cfg :
    (d : Digest) (decode : Text → Option Decoded) (at : ℕ) (topic payload : Text) (k : Frigate.Kind)
    (e : Incidents)
    → (dispatch d decode at topic payload k e).0.cfg ≡ e.cfg
unfolding dispatch observe_event
dispatch_cfg d decode at topic payload Frigate.Kind.events e =
    elim (Bool-cases (is_other e (parse_event decode payload))) [
      | inl t ↦ rw t refl
      | inr n ↦ rw n (fold_message_cfg d e at (parse_event decode payload))
    ]
dispatch_cfg d decode at topic payload _ e = refl

observe_cfg :
    (d : Digest) (decode : Text → Option Decoded) (m : Message) (e : Incidents)
    → (observe d decode m.at m.topic m.payload e).0.cfg ≡ e.cfg
unfolding observe
observe_cfg d decode m e = dispatch_cfg d decode m.at m.topic m.payload (parse_topic m.topic).kind _

-- The instant of the last message, `at` if there is none.
abbrev pub last_time : ℕ → List Message → ℕ
last_time at [] = at
last_time at (m ∷ ms) = last_time m.at ms

run-All :
    (d : Digest) (decode : Text → Option Decoded) (gap at : ℕ) (ms : List Message) (e : Incidents)
    → e.cfg.gap ≡ gap
    → 1 ≤ gap
    → All (IsSound gap at) e.opened
    → All (IsSound gap (last_time at ms)) (run d decode ms e).opened
unfolding run
run-All d decode gap at [] e c g h = h
run-All d decode gap at (m ∷ ms) e c g h =
    let sound : All (IsSound gap m.at) (observe d decode m.at m.topic m.payload e).0.opened =
      rw (sym c) (observe-IsSound d decode at m.at m.topic m.payload e (rw c g) (rw c h)) in
    run-All d decode gap m.at ms (observe d decode m.at m.topic m.payload e).0
      (ap (λ k. k.gap) (observe_cfg d decode m e) ∙ c) g sound

new_incidents_lem : (cfg : IncidentConfig) → 1 ≤ (new_incidents cfg).cfg.gap
unfolding new_incidents
new_incidents_lem cfg = ground arith

no_open :
    (cfg : IncidentConfig) → All (IsSound (new_incidents cfg).cfg.gap 0) (new_incidents cfg).opened
unfolding new_incidents
no_open cfg = tt

-- From a new engine on, however it is configured and whatever messages come, in whatever order of
-- their instants, after each of them every open incident has a member to build its event from,
-- holds at most 2048 boxes, was sent only with a named zone, and is not past its gap.
pub run-IsSound :
    (d : Digest) (decode : Text → Option Decoded) (cfg : IncidentConfig) (ms : List Message)
    → All
        (IsSound (new_incidents cfg).cfg.gap (last_time 0 ms))
        (run d decode ms (new_incidents cfg)).opened
run-IsSound d decode cfg ms =
    run-All d decode (new_incidents cfg).cfg.gap 0 ms (new_incidents cfg) refl
      (new_incidents_lem cfg) (no_open cfg)
