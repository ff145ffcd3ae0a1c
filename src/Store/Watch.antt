-- ===== src/Store/Watch.antt =====
-- internal/store/store.go, Watch, offer and drop: what a watcher's channel holds. The reader of the
-- channel is the environment: it takes the next change whenever it likes.
use mathlib.Core.List.{reverse, reverse-cons}
use curtilage.Prelude.{
  ℕ, ◌<◌, ◌≤◌, ◌≡◌, refl, ap, true, sym, ◌∙◌, inl, inr, false, not, ◌&&◌, List, [], ◌∷◌, ◌++◌,
  Option, Text, arith, nat_eq, ltb, length, length-append, keep_if, map, if◌then◌else◌, Bool-cases,
}
use curtilage.Policy.{Change, Op, running}
use curtilage.Store.{Store, Entry, Subscriber, offer, wants, watch_buffer}
use curtilage.Store.Pages.{camera_set}

-- An event touched since `since`, as the change that Watch replays.
abbrev pub whole_state : Entry → Change
whole_state e = record { op = if running e.ev then Op.started else Op.ended; event = e.ev }

-- The loop of Watch, from the oldest entry to the newest.
unfoldable pub replay : ℕ → List Entry → Subscriber → Subscriber
replay since [] sub = sub
replay since (x ∷ xs) sub =
    let older = replay since xs sub in
    if ltb x.updated_at since then older else offer (whole_state x) older

unfoldable pub subscriber : ℕ → List Text → Subscriber
unfolding camera_set
subscriber id cameras = record { id = id; queue = []; want = camera_set cameras; dead = false }

-- (s *Store) Watch; `since` is zero for none.
unfoldable pub watch : ℕ → ℕ → List Text → Store → Store
unfolding replay subscriber
watch id since cameras s =
    let sub = subscriber id cameras in
    let old = replay since s.ordered sub in
    record s { subs = s.subs ++ (if nat_eq since 0 then sub else old) ∷ [] }

-- (s *Store) drop, when the watcher's context ends.
unfoldable pub drop_subscriber : ℕ → Store → Store
drop_subscriber id s = record s { subs = keep_if (λ sub. not (nat_eq sub.id id)) s.subs }

-- What Watch replays: the touched and wanted entries, oldest first.
abbrev pub backlog : Option (List Text) → ℕ → List Entry → List Change
backlog want since xs =
    reverse
      (map whole_state (keep_if (λ x. not (ltb x.updated_at since) && wants want x.ev.camera) xs))

pub offer_room :
    (c : Change) (sub : Subscriber)
    → sub.dead ≡ false
    → length sub.queue < watch_buffer
    → offer c sub
      ≡ (if wants sub.want c.event.camera then record sub { queue = sub.queue ++ c ∷ [] } else sub)
unfolding offer
offer_room c sub d l = ground arith

replay_step :
    (since : ℕ) (x : Entry) (xs : List Entry) (sub : Subscriber) (q : List Change)
    → sub.dead ≡ false
    → replay since xs sub ≡ record sub { queue = q }
    → ((not (ltb x.updated_at since) && wants sub.want x.ev.camera) ≡ true
        → length q < watch_buffer)
    → replay since (x ∷ xs) sub ≡ record sub {
      queue =
          if not (ltb x.updated_at since) && wants sub.want x.ev.camera
          then q ++ whole_state x ∷ []
          else q;
    }
unfolding replay
replay_step since x xs sub q d e l = rw e (elim (Bool-cases (ltb x.updated_at since)) [
  | inl t ↦ rw t refl
  | inr f ↦ elim (Bool-cases (wants sub.want x.ev.camera)) [
    | inl t ↦
        rw (f, t)
          (offer_room (whole_state x) (record sub { queue = q }) d (l (ground (arith, f, t)))
            ∙ rw t refl)
    | inr u ↦ rw (f, u) (unfold offer in ground (arith, u, d))
  ]
])

backlog_cons :
    (want : Option (List Text)) (since : ℕ) (x : Entry) (xs : List Entry)
    → backlog want since (x ∷ xs) ≡ (
        if not (ltb x.updated_at since) && wants want x.ev.camera
        then backlog want since xs ++ whole_state x ∷ []
        else backlog want since xs)
backlog_cons want since x xs =
    elim (Bool-cases (not (ltb x.updated_at since) && wants want x.ev.camera)) [
      | inl t ↦ rw t (
          reverse-cons (whole_state x) (
            map whole_state
              (keep_if (λ y. not (ltb y.updated_at since) && wants want y.ev.camera) xs)))
      | inr f ↦ rw f
    ]

-- The touched and wanted entries, when they are no more than the buffer holds, are what a new
-- watcher finds in its channel: each event's whole state, oldest first.
pub replay-backlog :
    (since : ℕ) (xs : List Entry) (sub : Subscriber)
    → sub.queue ≡ []
    → sub.dead ≡ false
    → length (backlog sub.want since xs) ≤ watch_buffer
    → replay since xs sub ≡ record sub { queue = backlog sub.want since xs }
unfolding replay
replay-backlog since [] sub e d l = ground arith
replay-backlog since (x ∷ xs) sub e d l =
    let rest : List Change = backlog sub.want since xs in
    let l' : length rest ≤ watch_buffer =
      ground (arith, backlog_cons sub.want since x xs, length-append rest (whole_state x ∷ [])) in
    replay_step since x xs sub rest d (replay-backlog since xs sub e d l') (λ w.
      ground (arith, w, backlog_cons sub.want since x xs, length-append rest (whole_state x ∷ [])))
    ∙ ap (λ q. record sub { queue = q }) (sym (backlog_cons sub.want since x xs))
