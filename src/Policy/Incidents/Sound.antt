-- ===== src/Policy/Incidents/Sound.antt =====
-- internal/policy/incidents.go: what holds of every open incident after every message.
use curtilage.Prelude.{
  IfSome, ℕ, ◌+◌, ◌*◌, ◌≡◌, ◌≤◌, ◌<◌, refl, Bool, true, false, List, [], ◌∷◌, ◌++◌, Option, none,
  some, Text, leb, if◌then◌else◌, ◌==◌, eq_text, arith, contains, any, length, length-append, All,
  Bool-cases, inl, inr, is_some, keep_if,
}
use curtilage.Prelude.Map.{Map, get}
use curtilage.Frigate.{Object, Decoded, ChangeType, parse_topic, parse_event}
use curtilage.Frigate
use curtilage.Policy.{Event, Digest, BoxSample, Change}
use curtilage.Policy.Activity.{
  Member, Incident, new_incident, add_box, add_all_once, thin, max_box_samples, build,
  same_activity,
}
use curtilage.Policy.Adjacency.{reachable}
use curtilage.Policy.Incidents.{
  IncidentConfig, Incidents, say, emit, close_due, enter, has_source, change_member, take_message,
  is_named, note_member, update_first, join, assign, fold_message, observe_event, dispatch, observe,
  or_else, open_new, is_end, is_other,
}

-- The incident has a member, so that build has its first; it has at most 2048 boxes; it is sent
-- only when it has a named zone; and at the instant `at` its gap is not over.
pub record IsSound (gap at : ℕ) (inc : Incident) : Type 0 where
  pub peopled : 1 ≤ length inc.members
  pub bounded : length inc.boxes ≤ 2048
  pub zoned : (if inc.sent then 1 else 0) ≤ length inc.path
  pub current : at < inc.last + gap

length-thin : (bs : List BoxSample) → 2 * length (thin bs) ≤ length bs + 1
length-thin [] = omega arith
length-thin (b ∷ []) = omega arith
length-thin (b ∷ c ∷ bs) = omega (arith, length-thin bs)

add_box-bounded :
    (camera : Text) (at : ℕ) (box : List ℕ) (bs : List BoxSample)
    → length bs ≤ 2048
    → length (add_box camera at box bs) ≤ 2048
unfolding add_box
add_box-bounded camera at (x1 ∷ y1 ∷ x2 ∷ y2 ∷ []) bs h =
    elim (Bool-cases (leb max_box_samples (length bs))) [
      | inl t ↦
          rw (t, length-append (thin bs) (record { camera = camera; at = at; box = _ } ∷ []))
            (omega (arith, h, length-thin bs))
      | inr f ↦
          rw (f, length-append bs (record { camera = camera; at = at; box = _ } ∷ []))
            (ground (arith, h, f))
    ]
add_box-bounded camera at [] bs h = h
add_box-bounded camera at (x1 ∷ []) bs h = h
add_box-bounded camera at (x1 ∷ y1 ∷ []) bs h = h
add_box-bounded camera at (x1 ∷ y1 ∷ x2 ∷ []) bs h = h
add_box-bounded camera at (x1 ∷ y1 ∷ x2 ∷ y2 ∷ z ∷ box) bs h = h

length-add_all_once : (xs ys : List Text) → length ys ≤ length (add_all_once xs ys)
length-add_all_once [] ys = omega arith
length-add_all_once (x ∷ xs) ys = elim (Bool-cases (contains ys x)) [
  | inl t ↦ rw t (length-add_all_once xs ys)
  | inr f ↦ rw f (omega (arith, length-add_all_once xs (ys ++ x ∷ []), length-append ys (x ∷ [])))
]

length-change_member :
    (source : Text) (f : Member → Member) (ms : List Member)
    → length (change_member source f ms) ≡ length ms
unfolding change_member
length-change_member source f [] = refl
length-change_member source f (m ∷ ms) = elim (Bool-cases (m.source == source)) [
  | inl t ↦ rw t refl
  | inr n ↦ rw n (omega (arith, length-change_member source f ms))
]

length-any : (p : Member → Bool) (ms : List Member) → any p ms ≡ true → 1 ≤ length ms
length-any p [] e = ground (arith, e)
length-any p (m ∷ ms) e = omega arith

-- What enter leaves as it is, and that the object has a member then.
enter_lem :
    (o : Object) (at : ℕ) (inc : Incident)
    → (1 ≤ length (enter o at inc).members)
      × ((enter o at inc).boxes ≡ inc.boxes)
      × ((enter o at inc).path ≡ inc.path)
      × ((enter o at inc).sent ≡ inc.sent)
      × ((enter o at inc).last ≡ inc.last)
unfolding enter
enter_lem o at inc = elim (Bool-cases (has_source o.id inc)) [
  | inl t ↦ rw t (length-any (λ m. m.source == o.id) inc.members t, refl, refl, refl, refl)
  | inr f ↦ rw f (omega (arith, length-append inc.members (_ ∷ [])), refl, refl, refl, refl)
]

-- say changes nothing but what was sent.
say_lem :
    (inc : Incident) (e : Option Event)
    → ((say inc e).0.members ≡ inc.members)
      × ((say inc e).0.boxes ≡ inc.boxes)
      × ((say inc e).0.path ≡ inc.path)
      × ((say inc e).0.last ≡ inc.last)
unfolding say
say_lem inc none = (refl, refl, refl, refl)
say_lem inc (some next) = elim (Bool-cases inc.sent) [
  | inl t ↦ elim (Bool-cases (same_activity inc.event next)) [
    | inl s ↦ rw (t, s) (refl, refl, refl, refl)
    | inr n ↦ rw (t, n) (refl, refl, refl, refl)
  ]
  | inr f ↦ rw f (refl, refl, refl, refl)
]

flag-le : (b : Bool) (n : ℕ) → 1 ≤ n → (if b then 1 else 0) ≤ n
flag-le true n h = h
flag-le false n h = omega arith

say-IsSound :
    (gap at : ℕ) (inc : Incident) (e : Option Event)
    → 1 ≤ length inc.path
    → IsSound gap at inc
    → IsSound gap at (say inc e).0
say-IsSound gap at inc e p h =
    let (members, boxes, path, last) = say_lem inc e in
    record {
      peopled = rw members h.peopled;
      bounded = rw boxes h.bounded;
      zoned = rw path (flag-le (say inc e).0.sent _ p);
      current = rw last h.current;
    }

emit_path :
    (d : Digest) (gap overlap at : ℕ) (inc : Incident) (path : List Text)
    → inc.path ≡ path
    → IsSound gap at inc
    → IsSound gap at (emit d overlap at inc).0
unfolding emit
emit_path d gap overlap at inc [] e h = rw (emit, e) h
emit_path d gap overlap at inc (z ∷ zs) e h =
    rw (emit, e) (say-IsSound gap at inc (build d overlap inc at false) (rw e (omega arith)) h)

take_message-IsSound :
    (d : Digest) (gap overlap at : ℕ) (type : ChangeType) (o : Object) (inc : Incident)
    → 1 ≤ gap
    → length inc.boxes ≤ 2048
    → (if inc.sent then 1 else 0) ≤ length inc.path
    → IsSound gap at (take_message d overlap at type o inc).0
unfolding take_message
take_message-IsSound d gap overlap at type o inc g b z =
    let known : Incident = enter o at (record inc { last = at }) in
    let (peopled, boxes, path, sent, last) = enter_lem o at (record inc { last = at }) in
    let grown =
      length-add_all_once (keep_if is_named (o.entered_zones ++ o.current_zones)) known.path in
    let kept : (if known.sent then 1 else 0) ≤ length known.path = rw (sent, path) z in
    emit_path d gap overlap at _ _ refl (record {
      peopled = rw (length-change_member o.id (note_member type o at) known.members) peopled;
      bounded = add_box-bounded o.camera at o.box known.boxes (rw boxes b);
      zoned = ground (arith, kept, grown);
      current = rw last (omega (arith, g));
    })

abbrev AllSound : ℕ → ℕ → List Incident × List Change → Type 0
AllSound gap at r = All (IsSound gap at) r.0

or_else-IfSome {ℓ κ} :
    {A : Type ℓ} (P : A → Type κ) (o : Option A) (a : A) → IfSome P o → P a → P (or_else o a)
unfolding or_else
or_else-IfSome P none a h k = k
or_else-IfSome P (some b) a h k = h

later_sound :
    (gap at : ℕ) (inc : Incident) (o : Option (List Incident × List Change))
    → IsSound gap at inc
    → IfSome (AllSound gap at) o
    → IfSome (AllSound gap at) (elim o [ none ↦ none | some r ↦ some (inc ∷ r.0, r.1) ])
later_sound gap at inc none h k = tt
later_sound gap at inc (some r) h k = (h, k)

update_first-AllSound :
    (gap at : ℕ) (p : Incident → Bool) (f : Incident → Incident × List Change)
    (incs : List Incident)
    → ((inc : Incident) → IsSound gap at inc → IsSound gap at (f inc).0)
    → All (IsSound gap at) incs
    → IfSome (AllSound gap at) (update_first p f incs)
unfolding update_first
update_first-AllSound gap at p f [] k h = tt
update_first-AllSound gap at p f (inc ∷ incs) k h = elim (Bool-cases (p inc)) [
  | inl t ↦ rw t (k inc h.0, h.1)
  | inr n ↦ rw n (
      later_sound gap at inc (update_first p f incs) h.0
        (update_first-AllSound gap at p f incs k h.1))
]

All-append :
    (P : Incident → Type 0) (xs ys : List Incident) → All P xs → All P ys → All P (xs ++ ys)
All-append P [] ys h k = k
All-append P (x ∷ xs) ys h k = (h.0, All-append P xs ys h.1 k)

assign-AllSound :
    (d : Digest) (e : Incidents) (at : ℕ) (type : ChangeType) (o : Object) (incs : List Incident)
    → 1 ≤ e.cfg.gap
    → All (IsSound e.cfg.gap at) incs
    → AllSound e.cfg.gap at (assign d e at type o incs)
unfolding assign join open_new
assign-AllSound d e at type o incs g h =
    let gap : ℕ = e.cfg.gap in
    let overlap : ℕ = e.cfg.overlap in
    let step : (inc : Incident)
        → IsSound gap at inc
        → IsSound gap at (take_message d overlap at type o inc).0 =
      λ inc k. take_message-IsSound d gap overlap at type o inc g k.bounded k.zoned in
    let fresh =
      take_message-IsSound d gap overlap at type o new_incident g (omega arith) (omega arith) in
    or_else-IfSome (AllSound gap at) _ _
      (update_first-AllSound gap at (has_source o.id) (take_message d overlap at type o) incs step
        h)
      (elim (Bool-cases (is_end type)) [
        | inl t ↦ rw t h
        | inr n ↦ rw n (
            or_else-IfSome (AllSound gap at) _ _
              (update_first-AllSound gap at (reachable e.adjacent o.camera)
                (take_message d overlap at type o) incs step h)
              (All-append (IsSound gap at) incs (_ ∷ []) h (fresh, tt)))
      ])

close_due-IsSound :
    (d : Digest) (cfg : IncidentConfig) (before at : ℕ) (incs : List Incident) (closed : Map Text ℕ)
    → All (IsSound cfg.gap before) incs
    → All (IsSound cfg.gap at) (close_due d cfg at incs closed).0
unfolding close_due
close_due-IsSound d cfg before at [] closed h = tt
close_due-IsSound d cfg before at (inc ∷ incs) closed h =
    elim (Bool-cases (leb (inc.last + cfg.gap) at)) [
      | inl t ↦ rw t (close_due-IsSound d cfg before at incs _ h.1)
      | inr n ↦ rw n (
        record {
          peopled = h.0.peopled;
          bounded = h.0.bounded;
          zoned = h.0.zoned;
          current = ground (arith, n);
        },
        close_due-IsSound d cfg before at incs closed h.1,
      )
    ]

fold_message-IsSound :
    (d : Digest) (e : Incidents) (at : ℕ) (msg : Option Frigate.Event)
    → 1 ≤ e.cfg.gap
    → All (IsSound e.cfg.gap at) e.opened
    → All (IsSound e.cfg.gap at) (fold_message d e at msg).0.opened
unfolding fold_message
fold_message-IsSound d e at none g h = h
fold_message-IsSound d e at (some msg) g h =
    elim (Bool-cases (is_some (get msg.after.id e.closed))) [
      | inl t ↦ rw t h
      | inr n ↦ rw n (assign-AllSound d e at msg.type msg.after e.opened g h)
    ]

dispatch-IsSound :
    (d : Digest) (decode : Text → Option Decoded) (at : ℕ) (topic payload : Text) (k : Frigate.Kind)
    (e : Incidents)
    → 1 ≤ e.cfg.gap
    → All (IsSound e.cfg.gap at) e.opened
    → All (IsSound e.cfg.gap at) (dispatch d decode at topic payload k e).0.opened
unfolding dispatch observe_event
dispatch-IsSound d decode at topic payload Frigate.Kind.events e g h =
    elim (Bool-cases (is_other e (parse_event decode payload))) [
      | inl t ↦ rw t h
      | inr n ↦ rw n (fold_message-IsSound d e at (parse_event decode payload) g h)
    ]
dispatch-IsSound d decode at topic payload _ e g h = h

-- Whatever message comes, after it every open incident has a member to build its event from, holds
-- at most 2048 boxes, was sent only with a named zone, and is not past its gap, provided the gap is
-- not 0 and all of this held at some instant before.
pub observe-IsSound :
    (d : Digest) (decode : Text → Option Decoded) (before at : ℕ) (topic payload : Text)
    (e : Incidents)
    → 1 ≤ e.cfg.gap
    → All (IsSound e.cfg.gap before) e.opened
    → All (IsSound e.cfg.gap at) (observe d decode at topic payload e).0.opened
unfolding observe
observe-IsSound d decode before at topic payload e g h =
    dispatch-IsSound d decode at topic payload (parse_topic topic).kind _ g
      (close_due-IsSound d e.cfg before at e.opened e.closed h)
