-- ===== src/Policy/Passthrough/Lifetime.antt =====
-- internal/policy/policy.go: the changes that Passthrough says of one tracked object, in order.
use curtilage.Prelude.{
  ℕ, ◌≡◌, refl, sym, ap, ◌∙◌, Bool, true, false, List, [], ◌∷◌, ◌++◌, Option, none, some, Text,
  if◌then◌else◌, ◌==◌, eq_text, contains, is_some, Bool-cases, Option-cases, inl, inr, text_eq_iff,
}
use curtilage.Prelude.Map.{Map, get, get-put, get-del}
use curtilage.Frigate.{Object, Decoded, ChangeType, parse_topic, parse_event}
use curtilage.Frigate
use curtilage.Policy.{Change, Op, Event, Digest}
use curtilage.Policy.Passthrough.{
  Passthrough, from_object, next_event, lifecycle, observe_parsed, dispatch, observe, same,
}

-- What a change makes of a sighting that runs or does not: only a sighting that does not run
-- starts, and only one that runs is updated or ends.
abbrev pub advance : Op → Bool → Option Bool
advance Op.started false = some true
advance Op.updated true = some true
advance Op.ended true = some false
advance _ _ = none

-- The changes of the source `s` followed from there, none if one does not fit.
unfoldable pub follow : Text → Bool → List Change → Option Bool
follow s running [] = some running
follow s running (c ∷ cs) =
    if c.event.source_id == s
    then elim (advance c.op running) [ none ↦ none | some now ↦ follow s now cs ]
    else follow s running cs

abbrev pub is_live : Text → Passthrough → Bool
is_live s p = is_some (get s p.live)

opens_lifecycle :
    (at : ℕ) (o : Object) (next : Event) (live : Map Text Event) (s : Text) (prev : Option Event)
    → next.source_id ≡ o.id
    → get o.id live ≡ prev
    → follow s (is_some (get s live)) (lifecycle at o next live ChangeType.new prev).1
      ≡ some (is_some (get s (lifecycle at o next live ChangeType.new prev).0))
unfolding lifecycle follow
opens_lifecycle at o next live s none e g = elim (Bool-cases (o.id == s)) [
  | inl t ↦
      let at_source : get s live ≡ _ = ap (λ x. get x live) (sym ((text_eq_iff o.id s).0 t)) ∙ g in
      rw (get-put o.id s next live, e, t, at_source) refl
  | inr f ↦ rw (get-put o.id s next live, e, f) refl
]
opens_lifecycle at o next live s (some prev) e g = refl

updates_lifecycle :
    (at : ℕ) (o : Object) (next : Event) (live : Map Text Event) (s : Text) (prev : Option Event)
    → next.source_id ≡ o.id
    → get o.id live ≡ prev
    → follow s (is_some (get s live)) (lifecycle at o next live ChangeType.update prev).1
      ≡ some (is_some (get s (lifecycle at o next live ChangeType.update prev).0))
unfolding lifecycle follow
updates_lifecycle at o next live s none e g = elim (Bool-cases (o.id == s)) [
  | inl t ↦
      let at_source : get s live ≡ _ = ap (λ x. get x live) (sym ((text_eq_iff o.id s).0 t)) ∙ g in
      rw (get-put o.id s next live, e, t, at_source) refl
  | inr f ↦ rw (get-put o.id s next live, e, f) refl
]
updates_lifecycle at o next live s (some prev) e g = elim (Bool-cases (same prev next)) [
  | inl t ↦ rw t refl
  | inr f ↦ elim (Bool-cases (o.id == s)) [
    | inl t ↦
        let at_source : get s live ≡ _ =
          ap (λ x. get x live) (sym ((text_eq_iff o.id s).0 t)) ∙ g in
        rw (f, get-put o.id s next live, e, t, at_source) refl
    | inr n ↦ rw (f, get-put o.id s next live, e, n) refl
  ]
]

ends_lifecycle :
    (at : ℕ) (o : Object) (next : Event) (live : Map Text Event) (s : Text) (prev : Option Event)
    → next.source_id ≡ o.id
    → get o.id live ≡ prev
    → follow s (is_some (get s live)) (lifecycle at o next live ChangeType.end prev).1
      ≡ some (is_some (get s (lifecycle at o next live ChangeType.end prev).0))
unfolding lifecycle follow
ends_lifecycle at o next live s none e g = elim (Bool-cases (o.id == s)) [
  | inl t ↦
      let at_source : get s live ≡ _ = ap (λ x. get x live) (sym ((text_eq_iff o.id s).0 t)) ∙ g in
      rw (get-del o.id s live, at_source, e, t) refl
  | inr f ↦ rw (get-del o.id s live, e, f) refl
]
ends_lifecycle at o next live s (some prev) e g = elim (Bool-cases (o.id == s)) [
  | inl t ↦
      let at_source : get s live ≡ _ = ap (λ x. get x live) (sym ((text_eq_iff o.id s).0 t)) ∙ g in
      rw (get-del o.id s live, at_source, e, t) refl
  | inr f ↦ rw (get-del o.id s live, e, f) refl
]

next_event_source :
    (d : Digest) (p : Passthrough) (o : Object) (at : ℕ) → (next_event d p o at).source_id ≡ o.id
unfolding next_event from_object
next_event_source d p o at = elim (Bool-cases (contains p.notable o.label)) [
  | inl t ↦ rw t refl
  | inr f ↦ rw f refl
]

follow-lifecycle :
    (at : ℕ) (o : Object) (next : Event) (live : Map Text Event) (s : Text) (t : ChangeType)
    → next.source_id ≡ o.id
    → follow s (is_some (get s live)) (lifecycle at o next live t (get o.id live)).1
      ≡ some (is_some (get s (lifecycle at o next live t (get o.id live)).0))
follow-lifecycle at o next live s ChangeType.new e = opens_lifecycle at o next live s _ e refl
follow-lifecycle at o next live s ChangeType.update e = updates_lifecycle at o next live s _ e refl
follow-lifecycle at o next live s ChangeType.end e = ends_lifecycle at o next live s _ e refl

follow-observe_parsed :
    (d : Digest) (at : ℕ) (msg : Option Frigate.Event) (p : Passthrough) (s : Text)
    → follow s (is_live s p) (observe_parsed d at msg p).1
      ≡ some (is_live s (observe_parsed d at msg p).0)
unfolding observe_parsed follow
follow-observe_parsed d at none p s = refl
follow-observe_parsed d at (some msg) p s = elim (Bool-cases msg.after.false_positive) [
  | inl t ↦ rw t refl
  | inr f ↦ rw f (
      follow-lifecycle at msg.after (next_event d p msg.after at) p.live s msg.type
        (next_event_source d p msg.after at))
]

pub record Message : Type 0 where
  pub at : ℕ
  pub topic : Text
  pub payload : Text

-- Observe with every message in turn.
unfoldable pub run :
    Digest → (Text → Option Decoded) → List Message → Passthrough → Passthrough × List Change
run d decode [] p = (p, [])
run d decode (m ∷ ms) p =
    let (q, changes) = observe d decode m.at m.topic m.payload p in
    let (last, more) = run d decode ms q in (last, changes ++ more)

follow-dispatch :
    (d : Digest) (decode : Text → Option Decoded) (at : ℕ) (payload : Text) (k : Frigate.Kind)
    (p : Passthrough) (s : Text)
    → follow s (is_live s p) (dispatch d decode at payload k p).1
      ≡ some (is_live s (dispatch d decode at payload k p).0)
unfolding dispatch follow
follow-dispatch d decode at payload Frigate.Kind.events p s =
    follow-observe_parsed d at (parse_event decode payload) p s
follow-dispatch d decode at payload _ p s = refl

follow-observe :
    (d : Digest) (decode : Text → Option Decoded) (m : Message) (p : Passthrough) (s : Text)
    → follow s (is_live s p) (observe d decode m.at m.topic m.payload p).1
      ≡ some (is_live s (observe d decode m.at m.topic m.payload p).0)
unfolding observe
follow-observe d decode m p s =
    follow-dispatch d decode m.at m.payload (parse_topic m.topic).kind p s

-- Following what is said later, from where the first changes lead.
after : Text → Option Bool → List Change → Option Bool
after s none ds = none
after s (some q) ds = follow s q ds

follow-append :
    (s : Text) (r : Bool) (cs ds : List Change) → follow s r (cs ++ ds) ≡ after s (follow s r cs) ds
unfolding follow after
follow-append s r [] ds = refl
follow-append s r (c ∷ cs) ds = elim (Bool-cases (c.event.source_id == s)) [
  | inl t ↦ elim (Option-cases (advance c.op r)) [
    | inl n ↦ rw (t, n) refl
    | inr (now, e) ↦ rw (t, e) (follow-append s now cs ds)
  ]
  | inr f ↦ rw f (follow-append s r cs ds)
]

-- Of every tracked object the engine says a start, then any updates, then an end, and so on in that
-- order, whatever messages come, duplicated or missing; and it holds an object as live exactly
-- while a start it said is not followed by its end.
pub run-lifetime :
    (d : Digest) (decode : Text → Option Decoded) (s : Text) (ms : List Message) (p : Passthrough)
    → follow s (is_live s p) (run d decode ms p).1 ≡ some (is_live s (run d decode ms p).0)
unfolding run follow after
run-lifetime d decode s [] p = refl
run-lifetime d decode s (m ∷ ms) p =
    let q : Passthrough = (observe d decode m.at m.topic m.payload p).0 in
    rw
      (
        follow-append s (is_live s p) (observe d decode m.at m.topic m.payload p).1
            (run d decode ms q).1,
        follow-observe d decode m p s,
      )
      (run-lifetime d decode s ms q)
