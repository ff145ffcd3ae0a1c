-- ===== src/Examples/IncidentRuns.antt =====
-- Runs of internal/policy/incidents.go and of Passthrough: two people on a porch, and a car.
use curtilage.Prelude.{List, ◌+◌, ◌≡◌, true, false, [], ◌∷◌, Option, some, Text, codes, All}
use curtilage.Frigate.{Object, Decoded}
use curtilage.Policy.{Event, Digest}
use curtilage.Policy.Activity.{Member, Incident, new_incident, build, count_of, counts_with}
use curtilage.Policy.Activity.Counting.{build-most, most, counts_with-IsWith}
use curtilage.Policy.Incidents.{new_incidents, default_config}
use curtilage.Policy.Incidents.Runs.{run-IsSound}
use curtilage.Policy.Incidents.Runs
use curtilage.Policy.Incidents.Sound.{IsSound}
use curtilage.Policy.Passthrough.Lifetime.{Message}
use curtilage.Policy.Passthrough.{new_passthrough}
use curtilage.Policy.Passthrough.Lifetime.{follow, run, run-lifetime, is_live}

abbrev pub digest : Digest
digest = record { sha256 = λ t. t; base32 = λ t. t }

abbrev car : Object
car = record {
  id = codes "7";
  camera = codes "drive";
  label = codes "person";
  sub_label = [];
  false_positive = false;
  start_time = 100;
  end_time = 0;
  stationary = false;
  current_zones = codes "gate" ∷ [];
  entered_zones = [];
  box = 1 ∷ 2 ∷ 3 ∷ 4 ∷ [];
  has_clip = true;
  has_snapshot = true;
  plate = [];
}

-- A payload is the type alone here, about the one object.
abbrev pub decode : Text → Option Decoded
decode payload = some (record { type_text = payload; after = some car })

abbrev pub events : Text
events = codes "frigate/events"

run-lifetime_example :
    follow
      (codes "7")
      false
      (run digest decode
        (record { at = 101; topic = events; payload = codes "update" }
          ∷ record { at = 102; topic = events; payload = codes "new" }
          ∷ record { at = 103; topic = events; payload = codes "end" }
          ∷ [])
        new_passthrough).1
    ≡ some (
        is_live
          (codes "7")
          (run digest decode
            (record { at = 101; topic = events; payload = codes "update" }
              ∷ record { at = 102; topic = events; payload = codes "new" }
              ∷ record { at = 103; topic = events; payload = codes "end" }
              ∷ [])
            new_passthrough).0)
run-lifetime_example =
    run-lifetime digest decode (codes "7")
      (record { at = 101; topic = events; payload = codes "update" }
        ∷ record { at = 102; topic = events; payload = codes "new" }
        ∷ record { at = 103; topic = events; payload = codes "end" }
        ∷ [])
      new_passthrough

abbrev walker : Text → Member
walker source = record {
  source = source;
  camera = codes "porch";
  label = codes "person";
  start = 100;
  end = 0;
  zones = codes "steps" ∷ [];
  snapshot = true;
  clip = true;
}

abbrev porch : Incident
porch = record new_incident {
  first = 100;
  last = 120;
  members = walker (codes "a") ∷ walker (codes "b") ∷ [];
  path = codes "steps" ∷ [];
  sent = true;
}

build-most_example :
    (e : Event) × (build digest 3 porch 120 false ≡ some e)
    × (count_of (codes "person") e.objects
        ≡ most 3 120
            (λ m o. counts_with m (m.start + 3) 120 o)
            (codes "person")
            porch.members
            porch.members)
build-most_example =
    build-most 3 120 (λ m o. counts_with m (m.start + 3) 120 o) (counts_with-IsWith 3 120) digest
      porch false (codes "person") (λ e. cc)

abbrev messages : List Message
messages =
    record { at = 101; topic = events; payload = codes "new" }
    ∷ record { at = 130; topic = events; payload = codes "update" }
    ∷ []

run-IsSound_example :
    All
      (IsSound (new_incidents default_config).cfg.gap 130)
      (Runs.run digest decode messages (new_incidents default_config)).opened
run-IsSound_example = run-IsSound digest decode default_config messages
