-- ===== src/Store/Rebuild.antt =====
-- internal/store/rebuild.go: the recordings replayed into the store. What a recording holds, how
-- far it can be read and whether it can be removed comes with it; the list is in the order of its
-- names.
use curtilage.Prelude.{
  ℕ, ◌+◌, ◌≡◌, refl, sym, ap, ◌∙◌, Bool, List, [], ◌∷◌, ◌++◌, Text, ltb, length, length-append,
  if◌then◌else◌, arith, Bool-cases, inl, inr,
}
use curtilage.Frigate.{parse_topic}
use curtilage.Frigate
use curtilage.Policy.{Change}
use curtilage.Policy.Occupancy.Clock.{Engine}
use curtilage.Store.{Store, apply, saw_camera}

pub record Message : Type 0 where
  pub at : ℕ
  pub topic : Text
  pub payload : Text

apply_all : ℕ → List Change → Store → Store
apply_all at [] s = s
apply_all at (c ∷ cs) s = apply_all at cs (apply at c s)

see_camera : Frigate.Topic → Store → Store
see_camera t s = elim t.kind [ Frigate.Kind.count ↦ saw_camera t.camera s | _ ↦ s ]

-- How a recording was read
pub data Reading : Type 0 where
  whole truncated unreadable : Reading

pub record Recording : Type 0 where
  pub start : ℕ
  pub messages : List Message  -- as far as they can be read
  pub reading : Reading
  pub removes : Bool

pub record Rebuilt : Type 0 where
  pub files : ℕ
  pub records : ℕ
  pub deleted : ℕ
  pub truncated : ℕ
  pub errors : ℕ

-- The counters after a recording was read
unfoldable pub count_reading : Reading → Rebuilt → Rebuilt
count_reading Reading.whole r = record r { files = r.files + 1 }
count_reading Reading.truncated r = record r { truncated = r.truncated + 1; files = r.files + 1 }
count_reading Reading.unreadable r = record r { errors = r.errors + 1 }

-- os.Remove of a recording that is past the cutoff
unfoldable pub remove_file : Recording → Rebuilt → Rebuilt
remove_file f r =
    if f.removes then record r { deleted = r.deleted + 1 } else record r { errors = r.errors + 1 }

unfoldable pub is_past : ℕ → ℕ → Recording → Bool
is_past retention now f = ltb (f.start + retention) now

-- PruneFiles
unfoldable pub prune_files : ℕ → ℕ → List Recording → Rebuilt → Rebuilt
unfolding is_past remove_file
prune_files retention now [] r = r
prune_files retention now (f ∷ fs) r =
    prune_files retention now fs (if is_past retention now f then remove_file f r else r)

module _ {S : Type 0} (observe : Engine S) where
  -- Feed, of an engine and the store
  unfoldable pub feed : Message → S × Store → S × Store
  unfolding apply_all see_camera
  feed m (e, s) =
      let (f, changes) = observe m.at m.topic m.payload e in
      (f, apply_all m.at changes (see_camera (parse_topic m.topic) s))

  unfoldable pub feed_all : List Message → S × Store → S × Store
  feed_all [] st = st
  feed_all (m ∷ ms) st = feed_all ms (feed m st)

  -- The loop of Rebuild
  unfoldable pub rebuild_files :
      ℕ → ℕ → List Recording → (S × Store) × Rebuilt → (S × Store) × Rebuilt
  rebuild_files retention now [] p = p
  rebuild_files retention now (f ∷ fs) (st, r) =
      let read = record r { records = r.records + length f.messages } in
      rebuild_files retention now fs (
        if is_past retention now f
        then (st, remove_file f r)
        else (feed_all f.messages st, count_reading f.reading read))

  -- Rebuild, with the recordings of its directory
  unfoldable pub rebuild : ℕ → List Recording → S × Store → (S × Store) × Rebuilt
  unfolding rebuild_files
  rebuild now fs st =
      rebuild_files st.1.retention now fs
        (st, record { files = 0; records = 0; deleted = 0; truncated = 0; errors = 0 })

  -- The messages of the recordings that are not past their time, in order
  unfoldable pub kept_messages : ℕ → ℕ → List Recording → List Message
  kept_messages retention now [] = []
  kept_messages retention now (f ∷ fs) =
      let rest = kept_messages retention now fs in
      if is_past retention now f then rest else f.messages ++ rest

  feed_all-append :
      (ms ns : List Message) (st : S × Store)
      → feed_all (ms ++ ns) st ≡ feed_all ns (feed_all ms st)
  unfolding feed_all
  feed_all-append [] ns st = refl
  feed_all-append (m ∷ ms) ns st = feed_all-append ms ns (feed m st)

  -- Each recording is in one of the counts.
  Adds : ℕ → Rebuilt → Rebuilt → Type 0
  Adds n r t = t.files + t.deleted + t.errors ≡ r.files + r.deleted + r.errors + n

  count_reading-Adds : (g : Reading) (r : Rebuilt) → Adds 1 r (count_reading g r)
  unfolding Adds count_reading
  count_reading-Adds Reading.whole r = omega arith
  count_reading-Adds Reading.truncated r = omega arith
  count_reading-Adds Reading.unreadable r = omega arith

  remove_file-Adds : (f : Recording) (r : Rebuilt) → Adds 1 r (remove_file f r)
  unfolding Adds remove_file
  remove_file-Adds f r = elim (Bool-cases f.removes) [
    | inl t ↦ rw t (omega arith)
    | inr t ↦ rw t (omega arith)
  ]

  remove_file_records : (f : Recording) (r : Rebuilt) → (remove_file f r).records ≡ r.records
  unfolding remove_file
  remove_file_records f r = elim (Bool-cases f.removes) [ inl t ↦ rw t refl | inr t ↦ rw t refl ]

  count_reading_records : (g : Reading) (r : Rebuilt) → (count_reading g r).records ≡ r.records
  unfolding count_reading
  count_reading_records Reading.whole r = refl
  count_reading_records Reading.truncated r = refl
  count_reading_records Reading.unreadable r = refl

  replayed :
      (retention now : ℕ) (fs : List Recording) (st : S × Store) (r : Rebuilt)
      → let ms = kept_messages retention now fs in
        let out = rebuild_files retention now fs (st, r) in
        (out.0 ≡ feed_all ms st)
        × (out.1.records ≡ r.records + length ms)
        × Adds (length fs) r out.1
  unfolding rebuild_files kept_messages Adds feed_all
  replayed retention now [] st r = (refl, omega arith, omega arith)
  replayed retention now (f ∷ fs) st r =
      let read : Rebuilt = record r { records = r.records + length f.messages } in
      elim (Bool-cases (is_past retention now f)) [
        | inl past ↦
            let (fed, counted, added) = replayed retention now fs st (remove_file f r) in
            rw (rebuild_files, past)
              (
                fed,
                counted
                    ∙ ap (λ n. n + length (kept_messages retention now fs))
                        (remove_file_records f r),
                omega (arith, added, remove_file-Adds f r),
              )
        | inr kept ↦
            let (fed, counted, added) =
              replayed retention now fs (feed_all f.messages st) (count_reading f.reading read) in
            rw (rebuild_files, kept)
              (
                fed ∙ sym (feed_all-append f.messages (kept_messages retention now fs) st),
                omega (
                  arith,
                  counted,
                  count_reading_records f.reading read,
                  length-append f.messages (kept_messages retention now fs),
                ),
                omega (arith, added, count_reading-Adds f.reading read),
              )
      ]

  -- Rebuilding is feeding: the engine and the store are as if the messages of the recordings that
  -- are not past the retention had come in one after another, in the recordings' order; so many
  -- records are counted; and each recording is counted once, as read, as deleted or as an error.
  pub rebuild-feed_all :
      (now : ℕ) (fs : List Recording) (st : S × Store)
      → let ms = kept_messages st.1.retention now fs in
        let (end, r) = rebuild now fs st in
        (end ≡ feed_all ms st)
        × (r.records ≡ length ms)
        × (r.files + r.deleted + r.errors ≡ length fs)
  unfolding rebuild Adds
  rebuild-feed_all now fs st =
      let (fed, counted, added) =
        replayed st.1.retention now fs st
          (record { files = 0; records = 0; deleted = 0; truncated = 0; errors = 0 }) in
      (fed, omega (arith, counted), omega (arith, added))
