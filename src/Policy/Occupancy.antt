-- ===== src/Policy/Occupancy.antt =====
-- internal/policy/occupancy.go: the ledger of what is parked where. The order of a Go map is that
-- of its list here; a box is in whole pixels, and an overlap of 0.7 is compared by
-- cross-multiplication.
pub mod Clock
pub mod Patience
pub mod Superseding
use curtilage.Prelude.{
  ℕ, ◌+◌, ◌-◌, ◌*◌, max, Bool, true, false, not, ◌&&◌, ◌||◌, List, [], ◌∷◌, ◌++◌, Option, none,
  some, Text, codes, nat_eq, ltb, leb, if◌then◌else◌, ◌==◌, eq_text, contains, any, map, keep_if,
  is_some, length, last_of, min,
}
use curtilage.Prelude.Map.{Map, get, put, del}
use curtilage.Strings.{unix_nano}
use curtilage.Frigate.{Object, Decoded, ChangeType, parse_topic, parse_event}
use curtilage.Frigate
use curtilage.Policy.{Change, Op, Event, no_event, ClipState, Digest, mint_id, Kind}

pub record Watch : Type 0 where
  pub zone : Text
  pub labels : List Text
  pub arrive_after : ℕ
  pub depart_after : ℕ
  pub quiet : Bool

pub record Track : Type 0 where
  pub source : Text
  pub camera : Text
  pub label : Text
  pub plate : Text
  pub sub_label : Text
  pub snapshot : Bool
  pub entered : Map Text ℕ  -- since when the track holds each watched zone
  pub box : List ℕ

pub record Ledger : Type 0 where
  pub watch : Watch
  pub label : Text
  pub present : ℕ
  pub since : ℕ
  pub last_seen : ℕ
  pub below_since : ℕ  -- zero if the raw count is not under present
  pub seen_camera : Text
  pub seen_source : Text
  pub seen_snapshot : Bool

pub record Occupancy : Type 0 where
  pub watches : Map Text Watch
  pub ledgers : Map Text Ledger
  pub tracks : Map Text Track

abbrev minute : ℕ
minute = 60_000_000_000

labels_or_car : List Text → List Text
labels_or_car [] = codes "car" ∷ []
labels_or_car (l ∷ ls) = l ∷ ls

with_defaults : Watch → Watch
unfolding labels_or_car
with_defaults w = record w {
  labels = labels_or_car w.labels;
  arrive_after = if nat_eq w.arrive_after 0 then minute else w.arrive_after;
  depart_after = if nat_eq w.depart_after 0 then 5 * minute else w.depart_after;
}

new_ledger : Watch → Text → Ledger
new_ledger w label = record {
  watch = w;
  label = label;
  present = 0;
  since = 0;
  last_seen = 0;
  below_since = 0;
  seen_camera = [];
  seen_source = [];
  seen_snapshot = false;
}

add_ledgers : Watch → List Text → Map Text Ledger → Map Text Ledger
unfolding new_ledger
add_ledgers w [] ledgers = ledgers
add_ledgers w (l ∷ ls) ledgers =
    add_ledgers w ls (put (w.zone ++ (codes "|" ++ l)) (new_ledger w l) ledgers)

add_watches : List Watch → Occupancy → Occupancy
unfolding with_defaults add_ledgers
add_watches [] o = o
add_watches (w ∷ ws) o =
    let v = with_defaults w in
    add_watches ws
      (record o { watches = put v.zone v o.watches; ledgers = add_ledgers v v.labels o.ledgers })

-- NewOccupancy; a duration of 0 takes its default.
unfoldable pub new_occupancy : List Watch → Occupancy
unfolding add_watches
new_occupancy ws = add_watches ws (record { watches = []; ledgers = []; tracks = [] })

-- `iou(a, b) >= supersedeIoU`
unfoldable pub supersedes : List ℕ → List ℕ → Bool
supersedes (ax ∷ ay ∷ az ∷ aw ∷ []) (bx ∷ by ∷ bz ∷ bw ∷ []) =
    let ix = min az bz - max ax bx in
    let iy = min aw bw - max ay by in
    let inter = ix * iy in
    let union = (az - ax) * (aw - ay) + (bz - bx) * (bw - by) - inter in
    if nat_eq ix 0 || nat_eq iy 0
    then false
    else if nat_eq union 0
    then false
    else leb (7 * union) (10 * inter)
supersedes a b = false

unfoldable pub is_watched : Map Text Watch → Text → Bool
is_watched watches label = any (λ w. contains w.1.labels label) watches

-- The local function `claim`
claim : ℕ → Text → Map Text ℕ → Map Text ℕ
claim at z entered = if is_some (get z entered) then entered else put z at entered

claim_all : ℕ → List Text → Map Text ℕ → Map Text ℕ
unfolding claim
claim_all at [] entered = entered
claim_all at (z ∷ zs) entered = claim_all at zs (claim at z entered)

-- The zones of `in`: the current ones, and the last entered one of an object that stands still
claimed_zones : Map Text Watch → Object → List Text
claimed_zones watches o =
    let parked : List Text = elim (last_of o.entered_zones) [ none ↦ [] | some z ↦ z ∷ [] ] in
    keep_if (λ z. is_some (get z watches))
      (o.current_zones ++ (if o.stationary then parked else []))

unfoldable pub new_track : Object → Track
new_track o = record {
  source = o.id;
  camera = o.camera;
  label = o.label;
  plate = [];
  sub_label = [];
  snapshot = false;
  entered = [];
  box = [];
}

unfoldable pub has_box : List ℕ → Bool
has_box box = nat_eq (length box) 4

-- What a message makes of its object's track
unfoldable pub note_track : Map Text Watch → ℕ → Object → Track → Track
unfolding claim_all claimed_zones has_box
note_track watches at o tr =
    let zones = claimed_zones watches o in
    record tr {
      snapshot = tr.snapshot || o.has_snapshot;
      plate = if o.plate == [] then tr.plate else o.plate;
      sub_label = if o.sub_label == [] then tr.sub_label else o.sub_label;
      entered = keep_if (λ e. contains zones e.0) (claim_all at zones tr.entered);
      box = if has_box o.box then o.box else tr.box;
    }

-- Another track of that label on that camera, and (nearly) that box
unfoldable pub is_orphan : Text → Track → Text × Track → Bool
is_orphan id tr other =
    not (other.0 == id)
    && ((other.1.camera == tr.camera)
        && ((other.1.label == tr.label) && supersedes tr.box other.1.box))

-- The last block of absorb
unfoldable pub sweep : Object → Track → Map Text Track → Map Text Track
unfolding has_box is_orphan
sweep o tr tracks =
    if o.stationary && has_box tr.box
    then keep_if (λ other. not (is_orphan o.id tr other)) tracks
    else tracks

is_end : ChangeType → Bool
is_end ChangeType.end = true
is_end _ = false

-- absorb, on the tracks
unfoldable pub absorb : Map Text Watch → ℕ → Frigate.Event → Map Text Track → Map Text Track
unfolding is_watched is_end new_track note_track sweep
absorb watches at msg tracks =
    let o = msg.after in
    let old : Track = elim (get o.id tracks) [ none ↦ new_track o | some tr ↦ tr ] in
    let tr = note_track watches at o old in
    if not (is_watched watches o.label)
    then tracks
    else if is_end msg.type
    then del o.id tracks
    else sweep o tr (put o.id tr tracks)

-- A track of the ledger's label that holds its zone, since when
unfoldable pub since_when : Ledger → Track → Option ℕ
since_when l tr = if tr.label == l.label then get l.watch.zone tr.entered else none

-- perCam[camera]++ and the greatest of them
bump : Text → Map Text ℕ → Map Text ℕ
bump camera m = put camera (elim (get camera m) [ none ↦ 1 | some n ↦ n + 1 ]) m

greatest : Map Text ℕ → ℕ
greatest [] = 0
greatest ((c, n) ∷ m) = max n (greatest m)

tally : (ℕ → Bool) → Ledger → Map Text Track → Map Text ℕ → Map Text ℕ
unfolding since_when bump
tally test l [] m = m
tally test l ((id, tr) ∷ tracks) m =
    let counted : Bool = elim (since_when l tr) [ none ↦ false | some ent ↦ test ent ] in
    tally test l tracks (if counted then bump tr.camera m else m)

-- The track that `covering` is left at, the last one visited
covering : Ledger → Map Text Track → Option Track → Option Track
unfolding since_when
covering l [] found = found
covering l ((id, tr) ∷ tracks) found =
    covering l tracks (if is_some (since_when l tr) then some tr else found)

-- counts
pub record Counts : Type 0 where
  pub qualified : ℕ
  pub raw : ℕ
  pub cover : Option Track

unfoldable pub counts : Ledger → ℕ → Map Text Track → Counts
unfolding tally greatest covering
counts l at tracks = record {
  qualified = greatest (tally (λ ent. leb (ent + l.watch.arrive_after) at) l tracks []);
  raw = greatest (tally (λ ent. true) l tracks []);
  cover = covering l tracks none;
}
