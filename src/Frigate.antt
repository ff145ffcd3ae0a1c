-- ===== src/Frigate.antt =====
-- internal/frigate/frigate.go: what a topic carries and what its payload says. The JSON decoder is
-- Go's encoding/json, here an argument: it gives the message's fields, or nothing where it fails.
pub mod Topics
use curtilage.Prelude.{
  ℕ, ◌≡◌, refl, Bool, true, false, not, ◌&&◌, ◌||◌, List, [], ◌∷◌, Option, none, some, Text, codes,
  length, get_elem?, contains, nat_eq, ltb, leb, if◌then◌else◌, ◌==◌, eq_text, all,
}
use curtilage.Strings.{split, trim_space}

pub data Kind : Type 0 where
  other events reviews count available classification : Kind

pub record Topic : Type 0 where
  pub kind : Kind
  pub camera : Text
  pub zone : Text
  pub label : Text
  pub model : Text

abbrev pub no_topic : Topic
no_topic = record { kind = Kind.other; camera = []; zone = []; label = []; model = [] }

-- The keys of notCounts.
abbrev pub not_counts : List Text
not_counts =
    codes "motion"
    ∷ codes "audio"
    ∷ codes "status"
    ∷ codes "snapshot"
    ∷ codes "active"
    ∷ codes "ptz_autotracker"
    ∷ codes "recordings"
    ∷ codes "detect"
    ∷ codes "record"
    ∷ codes "enabled"
    ∷ codes "birdseye"
    ∷ codes "improve_contrast"
    ∷ codes "motion_threshold"
    ∷ codes "motion_contour_area"
    ∷ codes "review_alerts"
    ∷ codes "review_detections"
    ∷ codes "classification"
    ∷ codes "review_status"
    ∷ []

-- The switch of ParseTopic on the parts behind "frigate".
unfoldable pub shape : List Text → Topic
shape (p ∷ []) =
    if p == codes "events"
    then record no_topic { kind = Kind.events }
    else if p == codes "reviews"
    then record no_topic { kind = Kind.reviews }
    else if p == codes "available"
    then record no_topic { kind = Kind.available }
    else no_topic
shape (p ∷ q ∷ []) =
    if contains not_counts q
    then no_topic
    else record no_topic { kind = Kind.count; camera = p; label = q }
shape (p ∷ q ∷ r ∷ []) =
    if q == codes "classification"
    then record no_topic { kind = Kind.classification; camera = p; model = r }
    else if contains not_counts q || contains not_counts r
    then no_topic
    else record no_topic { kind = Kind.count; camera = p; zone = q; label = r }
shape _ = no_topic

unfoldable pub topic_of : List Text → Topic
unfolding shape
topic_of [] = no_topic
topic_of (p ∷ ps) = if p == codes "frigate" then shape ps else no_topic

-- ParseTopic
unfoldable pub parse_topic : Text → Topic
unfolding topic_of split
parse_topic topic = topic_of (split b'/' topic)

pub data ChangeType : Type 0 where
  new update end : ChangeType

-- An Object; the times are instants, 0 for null, and a box is empty or the numbers given.
pub record Object : Type 0 where
  pub id : Text
  pub camera : Text
  pub label : Text
  pub sub_label : Text
  pub false_positive : Bool
  pub start_time : ℕ
  pub end_time : ℕ
  pub stationary : Bool
  pub current_zones : List Text
  pub entered_zones : List Text
  pub box : List ℕ
  pub has_clip : Bool
  pub has_snapshot : Bool
  pub plate : Text

-- What json.Unmarshal makes of a payload: the type as text, and `after` when it is present.
pub record Decoded : Type 0 where
  pub type_text : Text
  pub after : Option Object

pub record Event : Type 0 where
  pub type : ChangeType
  pub after : Object

-- An event's type, or none for any other text.
change_type : Text → Option ChangeType
change_type t =
    if t == codes "new"
    then some ChangeType.new
    else if t == codes "update"
    then some ChangeType.update
    else if t == codes "end"
    then some ChangeType.end
    else none

checked : Option ChangeType → Option Object → Option Event
checked none o = none
checked (some t) none = none
checked (some t) (some o) =
    if (o.id == []) || (o.camera == []) then none else some (record { type = t; after = o })

-- ParseEvent; none is any of its errors.
unfoldable pub parse_event : (Text → Option Decoded) → Text → Option Event
unfolding checked change_type
parse_event decode payload = elim (decode payload) [
  | none ↦ none
  | some d ↦ checked (change_type d.type_text) d.after
]

-- The bytes of a class name.
unfoldable pub is_class_byte : ℕ → Bool
is_class_byte c =
    (leb b'a' c && leb c b'z')
    || (leb b'A' c && leb c b'Z')
    || (leb b'0' c && leb c b'9')
    || nat_eq c b'_'
    || nat_eq c b'-'
    || nat_eq c b' '

-- ParseClass
unfoldable pub parse_class : Text → Option Text
unfolding is_class_byte
parse_class payload =
    let s = trim_space payload in
    if (s == []) || ltb 128 (length s) then none else if all is_class_byte s then some s else none
