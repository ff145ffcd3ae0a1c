-- ===== src/Examples/RebuildRuns.antt =====
-- Runs of internal/store/rebuild.go: three recordings, of which one is past its time.
use curtilage.Prelude.{ℕ, ◌+◌, ◌≡◌, true, [], ◌∷◌, Text, codes, length}
use curtilage.Policy.Occupancy.Clock.{Engine}
use curtilage.Policy.Passthrough.{Passthrough, new_passthrough}
use curtilage.Policy.Passthrough
use curtilage.Store.{Store}
use curtilage.Store
use curtilage.Store.Rebuild.{
  Message, Reading, Recording, rebuild, feed_all, kept_messages, rebuild-feed_all,
}
use curtilage.Examples.IncidentRuns.{digest, decode, events}

abbrev engine : Engine Passthrough
engine = Passthrough.observe digest decode

abbrev start : Passthrough × Store
start = (new_passthrough, Store.new 100)

abbrev message : ℕ → Text → Message
message at payload = record { at = at; topic = events; payload = payload }

abbrev past : Recording
past = record {
  start = 10;
  messages = message 15 (codes "new") ∷ [];
  reading = Reading.whole;
  removes = true;
}

abbrev today : Recording
today = record {
  start = 150;
  messages = message 160 (codes "new") ∷ message 170 (codes "update") ∷ [];
  reading = Reading.whole;
  removes = true;
}

abbrev torn : Recording
torn = record {
  start = 180;
  messages = message 190 (codes "end") ∷ [];
  reading = Reading.truncated;
  removes = true;
}

rebuild-feed_all_example :
    ((rebuild engine 200 (past ∷ today ∷ torn ∷ []) start).0
      ≡ feed_all engine
          (kept_messages engine start.1.retention 200 (past ∷ today ∷ torn ∷ []))
          start)
    × ((rebuild engine 200 (past ∷ today ∷ torn ∷ []) start).1.records
        ≡ length (kept_messages engine start.1.retention 200 (past ∷ today ∷ torn ∷ [])))
    × ((rebuild engine 200 (past ∷ today ∷ torn ∷ []) start).1.files
          + (rebuild engine 200 (past ∷ today ∷ torn ∷ []) start).1.deleted
          + (rebuild engine 200 (past ∷ today ∷ torn ∷ []) start).1.errors
        ≡ length (past ∷ today ∷ torn ∷ []))
rebuild-feed_all_example = rebuild-feed_all engine 200 (past ∷ today ∷ torn ∷ []) start
