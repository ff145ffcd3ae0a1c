-- ===== src/Policy/States/Belief.antt =====
-- internal/policy/states.go over time: one model, fed the readings of its topic and the clock ticks
-- that every other message is.
use curtilage.Prelude.{
  ℕ, ◌+◌, ◌≡◌, ◌≢◌, ◌≤◌, ◌<◌, ◌⊎◌, refl, sym, ◌∙◌, inl, inr, List, [], ◌∷◌, ◌++◌, Text, ◌==◌,
  eq_text, arith, All, Bool-cases, text_eq_iff, ne→==,
}
use curtilage.Policy.{Change, Digest}
use curtilage.Policy.States.{Model, reading, believe, alarm, tick_model}

-- A message: a class for this model, or any other.
pub data Input : Type 0 where
  class_at : ℕ → Text → Text → Input
  tick_at : ℕ → Input

abbrev pub time : Input → ℕ
time (class_at at camera class) = at
time (tick_at at) = at

-- What Observe does to the model.
unfoldable pub step : Digest → Input → Model → Model × List Change
unfolding reading tick_model
step d (class_at at camera class) m = tick_model d at (reading at camera class m)
step d (tick_at at) m = tick_model d at m

unfoldable pub run : Digest → List Input → Model → Model × List Change
run d [] m = (m, [])
run d (i ∷ is) m =
    let (n, changes) = step d i m in let (o, more) = run d is n in (o, changes ++ more)

-- The raw value is the believed one, or it changed no earlier than `t`.
abbrev Recent : ℕ → Model → Type 0
Recent t m = (m.raw ≡ m.held) ⊎ (t ≤ m.raw_at)

-- The belief of `n` is that of `m`.
abbrev pub SameBelief : Model → Model → Type 0
SameBelief m n = (n.held ≡ m.held) × (n.held_at ≡ m.held_at) × (n.cfg ≡ m.cfg)

believe_early :
    (d : Digest) (t at : ℕ) (m : Model)
    → Recent t m
    → at < t + m.cfg.hold
    → believe d at m ≡ (m, [])
unfolding believe
believe_early d t at m (inl e) h = ground (arith, text_eq_iff m.raw m.held, e)
believe_early d t at m (inr r) h = ground arith

alarm_keeps :
    (d : Digest) (at : ℕ) (m : Model)
    → SameBelief m (alarm d at m).0
      × ((alarm d at m).0.raw ≡ m.raw)
      × ((alarm d at m).0.raw_at ≡ m.raw_at)
unfolding alarm
alarm_keeps d at m = ground arith

reading_keeps :
    (t at : ℕ) (camera class : Text) (m : Model)
    → m.held ≢ []
    → t ≤ at
    → Recent t m
    → SameBelief m (reading at camera class m) × Recent t (reading at camera class m)
unfolding reading
reading_keeps t at camera class m h le r = elim (Bool-cases (class == m.raw)) [
  | inl same ↦
      rw (same, ne→== m.held [] h) ((refl, refl, refl), rw ((text_eq_iff class m.raw).0 same) r)
  | inr other ↦ rw (other, ne→== m.held [] h) ((refl, refl, refl), inr le)
]

tick_early :
    (d : Digest) (t at : ℕ) (m : Model)
    → at < t + m.cfg.hold
    → Recent t m
    → SameBelief m (tick_model d at m).0 × Recent t (tick_model d at m).0
unfolding tick_model
tick_early d t at m lt r =
    let k = alarm_keeps d at m in
    rw (believe_early d t at m r lt)
      (k.0, elim r [ inl e ↦ inl (k.1 ∙ (e ∙ sym k.0.0)) | inr le' ↦ inr (rw k.2 le') ])

SameBelief-trans : (m n o : Model) → SameBelief m n → SameBelief n o → SameBelief m o
SameBelief-trans m n o (a, b, c) (a', b', c') = (a' ∙ a, b' ∙ b, c' ∙ c)

-- A step before the hold is over leaves the belief, and what it needs, in place.
step_early :
    (d : Digest) (t : ℕ) (i : Input) (m : Model)
    → m.held ≢ []
    → t ≤ time i
    → time i < t + m.cfg.hold
    → Recent t m
    → SameBelief m (step d i m).0 × Recent t (step d i m).0
unfolding step
step_early d t (tick_at at) m h le lt r = tick_early d t at m lt r
step_early d t (class_at at camera class) m h le lt r =
    let k = reading_keeps t at camera class m h le r in
    let hold : (reading at camera class m).cfg ≡ m.cfg = k.0.2 in
    let q = tick_early d t at (reading at camera class m) (rw hold lt) k.1 in
    (
      SameBelief-trans m (reading at camera class m) (tick_model d at (reading at camera class m)).0
          k.0 q.0,
      q.1,
    )

-- A flicker is never believed: while the raw value is the believed one at time `t`, no readings and
-- ticks from `t` on, whatever classes they bring, change the believed state, since when it is
-- believed, or the settings before the hold has passed.
pub run-SameBelief :
    (d : Digest) (t : ℕ) (is : List Input) (m : Model)
    → m.held ≢ []
    → (m.raw ≡ m.held) ⊎ (t ≤ m.raw_at)
    → All (λ i. (t ≤ time i) × (time i < t + m.cfg.hold)) is
    → SameBelief m (run d is m).0
unfolding run
run-SameBelief d t [] m h r a = (refl, refl, refl)
run-SameBelief d t (i ∷ is) m h r a =
    let k = step_early d t i m h a.0.0 a.0.1 r in
    let cfg : (step d i m).0.cfg ≡ m.cfg = k.0.2 in
    let held : (step d i m).0.held ≡ m.held = k.0.0 in
    SameBelief-trans m (step d i m).0 (run d is (step d i m).0).0 k.0
      (run-SameBelief d t is (step d i m).0 (rw held h) k.1 (rw cfg a.1))
