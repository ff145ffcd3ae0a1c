-- ===== src/Examples/StateRuns.antt =====
-- Runs of internal/policy/states.go: a garage door, with times in minutes.
use curtilage.Prelude.{◌≡◌, inl, refl, true, false, List, [], ◌∷◌, codes, any, if◌then◌else◌, arith}
use curtilage.Policy.{Digest}
use curtilage.Policy.States.{Model}
use curtilage.Policy.States.Belief.{Input, class_at, tick_at, run, SameBelief, run-SameBelief}
use curtilage.Policy.States.Settling.{run-held, is_past, deadline}

abbrev digest : Digest
digest = record { sha256 = λ t. t; base32 = λ t. t }

abbrev door : Model
door = record {
  cfg = record {
    model = codes "door";
    hold = 10;
    news = true;
    alarm_class = codes "open";
    alarm_after = 60;
  };
  camera = codes "drive";
  raw = codes "open";
  raw_at = 100;
  held = codes "open";
  held_at = 100;
  alarmed = false;
}

abbrev flicker : List Input
flicker =
    class_at 201 (codes "drive") (codes "closed")
    ∷ tick_at 205
    ∷ class_at 209 (codes "drive") (codes "open")
    ∷ []

run-SameBelief_example : SameBelief door (run digest flicker door).0
run-SameBelief_example = run-SameBelief digest 200 flicker door (λ e. cc) (inl refl) (omega arith)

abbrev closing : Model
closing = record door { raw = codes "closed"; raw_at = 200 }

run-held_example : (run digest (tick_at 205 ∷ tick_at 211 ∷ []) closing).0.held ≡ (
    if any (is_past (deadline closing)) (tick_at 205 ∷ tick_at 211 ∷ [])
    then closing.raw
    else closing.held)
run-held_example =
    run-held digest (tick_at 205 ∷ tick_at 211 ∷ []) closing (λ e. cc) (λ e. cc) (tt, (tt, tt))

abbrev during : List Input
during = tick_at 150 ∷ class_at 170 (codes "hall") (codes "open") ∷ tick_at 190 ∷ tick_at 260 ∷ []
