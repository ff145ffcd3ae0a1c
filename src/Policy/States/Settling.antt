-- ===== src/Policy/States/Settling.antt =====
-- internal/policy/states.go over time: a raw value that stays is believed, and an episode alarms
-- once.
use curtilage.Prelude.{
  ℕ, ◌+◌, ◌≡◌, ◌≢◌, refl, ◌∙◌, inl, inr, Bool, false, not, ◌&&◌, List, [], ◌∷◌, Text, leb,
  if◌then◌else◌, ◌==◌, eq_text, arith, All, any, Bool-cases, text_eq_iff, ne→==, length,
}
use curtilage.Policy.{Digest, Change}
use curtilage.Policy.States.{Model, reading, believe, alarm, tick_model}
use curtilage.Policy.States.Belief.{Input, class_at, tick_at, time, step, run}

-- The message repeats the class `c`, or is none of this model's.
abbrev pub Repeats : Text → Input → Type 0
Repeats c (class_at at camera class) = class ≡ c
Repeats c (tick_at at) = Unit

-- When the hold of the raw value is over, and whether a message comes then or later.
abbrev pub deadline : Model → ℕ
deadline m = m.raw_at + m.cfg.hold

abbrev pub is_past : ℕ → Input → Bool
is_past t i = leb t (time i)

tick_repeat :
    (d : Digest) (at : ℕ) (m : Model)
    → m.raw ≢ []
    → ((tick_model d at m).0.held ≡ (if leb (m.raw_at + m.cfg.hold) at then m.raw else m.held))
      × ((tick_model d at m).0.raw ≡ m.raw)
      × ((tick_model d at m).0.raw_at ≡ m.raw_at)
      × ((tick_model d at m).0.cfg ≡ m.cfg)
unfolding tick_model believe alarm
tick_repeat d at m r =
    let some_raw : (m.raw == []) ≡ false = ne→== m.raw [] r in
    ground (arith, text_eq_iff m.raw m.held)

reading_repeat :
    (at : ℕ) (camera : Text) (m : Model)
    → m.held ≢ []
    → reading at camera m.raw m ≡ record m { camera = camera }
unfolding reading
reading_repeat at camera m h =
    let held : (m.held == []) ≡ false = ne→== m.held [] h in ground (arith, text_eq_iff m.raw m.raw)

step_repeat :
    (d : Digest) (i : Input) (m : Model)
    → m.raw ≢ []
    → m.held ≢ []
    → Repeats m.raw i
    → ((step d i m).0.held ≡ (if is_past (deadline m) i then m.raw else m.held))
      × ((step d i m).0.raw ≡ m.raw)
      × ((step d i m).0.raw_at ≡ m.raw_at)
      × ((step d i m).0.cfg ≡ m.cfg)
unfolding step
step_repeat d (tick_at at) m r h p = tick_repeat d at m r
step_repeat d (class_at at camera class) m r h p =
    rw (p, reading_repeat at camera m h) (tick_repeat d at (record m { camera = camera }) r)

-- A raw value that nothing contradicts is believed by the first message after its hold, and stays
-- believed while it is repeated; before that the old belief stands.
pub run-held :
    (d : Digest) (is : List Input) (m : Model)
    → m.raw ≢ []
    → m.held ≢ []
    → All (Repeats m.raw) is
    → (run d is m).0.held ≡ (if any (is_past (deadline m)) is then m.raw else m.held)
unfolding run
run-held d [] m r h a = refl
run-held d (i ∷ is) m r h a =
    let (e, raw, raw_at, cfg) = step_repeat d i m r h a.0 in
    let n : Model = (step d i m).0 in
    let n_held : n.held ≢ [] = elim (Bool-cases (is_past (deadline m) i)) [
      | inl t ↦ rw (e, t) r
      | inr f ↦ rw (e, f) h
    ] in
    let same : deadline n ≡ deadline m = rw (raw_at, cfg) in
    let ih = run-held d is n (rw raw r) n_held (rw raw a.1) in ih ∙ rw (same, raw, e) (ground arith)

-- The alarm that an episode still has to give: the believed class is the alarm's and a message
-- comes when it has endured long enough.
abbrev pub is_due : Model → List Input → Bool
is_due m is =
    not m.alarmed
    && (not (m.cfg.alarm_class == [])
        && ((m.held == m.cfg.alarm_class) && any (is_past (m.held_at + m.cfg.alarm_after)) is))

-- A message says an alarm or leaves it due, and keeps what is believed.
abbrev Owes : Model → Input → List Input → Model × List Change → Type 0
Owes m i is r =
    (r.0.raw ≡ m.raw)
    × (r.0.held ≡ m.held)
    × (length r.1 + (if is_due r.0 is then 1 else 0) ≡ (if is_due m (i ∷ is) then 1 else 0))
