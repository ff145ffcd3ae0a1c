-- ===== src/Store.antt =====
-- internal/store/store.go: the events the API serves, in memory. Every operation is the body that
-- runs under the store's lock, as a function from the store to the new store.
pub mod Order
pub mod Slice
pub mod Index
pub mod Pages
pub mod Walk
pub mod Retention
pub mod Watch
pub mod Revisions
pub mod Delivery
pub mod Rebuild
use curtilage.Prelude.{
  ℕ, zero, suc, ◌+◌, ◌-◌, ◌%◌, ◌^◌, ◌≡◌, refl, Bool, true, false, not, ◌&&◌, ◌||◌, List, [], ◌∷◌,
  ◌++◌, Option, none, some, Text, codes, take, drop, length, get_elem?, contains, map, arith,
  nat_eq, ltb, leb, if◌then◌else◌, ◌==◌, Comparable, eq_text, is_some,
}
use curtilage.Prelude.Map.{Map, get, put, del}
use curtilage.Prelude.Search.{search}
use curtilage.Policy
use curtilage.Policy.{Event, Change, Op, running}
use Order.{Cursor, older, newer}

pub record Revision : Type 0 where
  pub at : ℕ
  pub op : Op
  pub event : Event

-- `ref` is the address of the Go struct: `ordered` and `byID` hold pointers, and `remove` compares
-- them.
pub record Entry : Type 0 where
  pub ref : ℕ
  pub ev : Event
  pub updated_at : ℕ
  pub history : List Revision

-- `queue` is the buffered channel, the next change to deliver first; `dead` is when the channel was
-- closed on falling behind. `want` is none for every camera.
pub record Subscriber : Type 0 where
  pub id : ℕ
  pub queue : List Change
  pub want : Option (List Text)
  pub dead : Bool

pub record Store : Type 0 where
  pub retention : ℕ
  pub by_id : Map Text Entry
  pub ordered : List Entry
  pub cameras : List Text  -- the keys of the map, each once
  pub subs : List Subscriber
  pub applied : ℕ
  pub pruned : ℕ
  pub next_ref : ℕ  -- the allocator's next address

abbrev pub max_history : ℕ
max_history = 64

abbrev pub watch_buffer : ℕ
watch_buffer = 256

-- uint64 counters wrap.
abbrev pub u64 : ℕ → ℕ
u64 n = n % 2 ^ 64

unfoldable pub new : ℕ → Store
new retention = record {
  retention = retention;
  by_id = [];
  ordered = [];
  cameras = [];
  subs = [];
  applied = 0;
  pruned = 0;
  next_ref = 0;
}

abbrev pub position : Entry → Cursor
position e = record { started_at = e.ev.started_at; id = e.ev.id }

abbrev pub is_older : Cursor → Entry → Bool
is_older c e = older (position e) c

abbrev pub is_newer : Cursor → Entry → Bool
is_newer c e = newer (position e) c

-- (s *Store) insert: `ordered` with the entry put in at its place.
unfoldable pub insert : Entry → List Entry → List Entry
insert e ordered =
    let i = search (is_older (position e)) ordered in take i ordered ++ e ∷ drop i ordered

delete_at : ℕ → List Entry → List Entry
delete_at i ordered = take i ordered ++ drop (i + 1) ordered

-- `i < len(s.ordered) && s.ordered[i] == e`
same_at : Entry → Option Entry → Bool
same_at e none = false
same_at e (some x) = nat_eq x.ref e.ref

-- (s *Store) remove
unfoldable pub remove : Entry → List Entry → List Entry
unfolding delete_at same_at
remove e ordered =
    let i = search (λ x. not (is_newer (position e) x)) ordered in
    if same_at e (get_elem? ordered i) then delete_at i ordered else ordered

abbrev wants : Option (List Text) → Text → Bool
wants none camera = true
wants (some cs) camera = contains cs camera

-- (sub *subscriber) offer: never blocks; a full buffer ends the subscription.
unfoldable pub offer : Change → Subscriber → Subscriber
offer c sub =
    if sub.dead || not (wants sub.want c.event.camera)
    then sub
    else if ltb (length sub.queue) watch_buffer
    then record sub { queue = sub.queue ++ c ∷ [] }
    else record sub { dead = true }

-- The map of cameras seen: `s.cameras[name] = true`.
unfoldable pub see : Text → List Text → List Text
see name cameras = if contains cameras name then cameras else name ∷ cameras

-- An event's revisions, bounded: the first is kept and the middle dropped.
unfoldable pub record_revision : Revision → List Revision → List Revision
record_revision r old =
    let history = old ++ r ∷ [] in
    if ltb max_history (length history)
    then take 1 history ++ drop (length history - max_history + 1) history
    else history

-- The ordered list without the entry that an id had, and that entry's history.
ordered_without : Option Entry → List Entry → List Entry
unfolding remove
ordered_without none ordered = ordered
ordered_without (some e) ordered = remove e ordered

history_of : Option Entry → List Revision
history_of none = []
history_of (some e) = e.history

-- The entry that Apply makes.
unfoldable pub applied_entry : ℕ → Change → Store → Entry
unfolding history_of record_revision
applied_entry at c s = record {
  ref = s.next_ref;
  ev = c.event;
  updated_at = at;
  history =
      record_revision (record { at = at; op = c.op; event = c.event })
        (history_of (get c.event.id s.by_id));
}

-- (s *Store) Apply
unfoldable pub apply : ℕ → Change → Store → Store
unfolding applied_entry ordered_without insert offer see
apply at c s =
    let e = applied_entry at c s in
    record s {
      applied = u64 (s.applied + 1);
      cameras = if c.event.camera == [] then s.cameras else see c.event.camera s.cameras;
      by_id = put c.event.id e s.by_id;
      ordered = insert e (ordered_without (get c.event.id s.by_id) s.ordered);
      subs = map (offer c) s.subs;
      next_ref = s.next_ref + 1;
    }

-- (s *Store) SawCamera
unfoldable pub saw_camera : Text → Store → Store
unfolding see
saw_camera name s = if name == [] then s else record s { cameras = see name s.cameras }

-- (s *Store) Get
unfoldable pub get_event : Text → Store → Option Event
get_event id s = elim (get id s.by_id) [ none ↦ none | some e ↦ some e.ev ]

-- (s *Store) History
unfoldable pub history : Text → Store → List Revision
unfolding history_of
history id s = history_of (get id s.by_id)
