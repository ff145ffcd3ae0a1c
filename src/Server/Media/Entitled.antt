-- ===== src/Server/Media/Entitled.antt =====
-- internal/server/media.go: what a request at the capability URL is given, and on what grounds.
use curtilage.Server.Media.Files.{IsFileOf}
use curtilage.MediaCache.{Cache, eq_key}
use curtilage.Prelude.{
  ℕ, ◌≡◌, ◌≢◌, [], contains, true, ◌⊎◌, false, Option, none, some, Text, codes, if◌then◌else◌,
  eq_text,
}
use curtilage.Strings.{trim_prefix}
use curtilage.Captoken.{Crypto, Keyring, Claims, Verdict, verify}
use curtilage.Policy.{Event}
use curtilage.Store.{Store, get_event}
use curtilage.Server.Media.{Result, clip_cut, cut_tag, media_snapshot}
use curtilage.Server.Media.Cuts.{IsFixed}
use curtilage.Server.Media.Door.{Source, Outside, Door, Answer}

module _ (x : Outside) (s : Store) (now : ℕ) (c : Cache) where
  -- The claims lead to the event `e`: the stored one of their id, on the camera that they name, if
  -- any, which is then one of that event's.
  abbrev pub Leads : Claims → Event → Type 0
  Leads claims e =
      (stored : Event) × (get_event claims.event_id s ≡ some stored)
      × (((claims.camera ≡ []) × (e ≡ stored))
          ⊎ (((claims.camera ≡ stored.camera) ⊎ (contains stored.cameras claims.camera ≡ true))
              × (e ≡ record stored { camera = claims.camera })))

  -- The bytes are what Frigate answers for the event's snapshot or, for other media, for the clip
  -- of the event's camera up to the cut at this time, whose tag they carry once it is stable.
  abbrev pub IsOf : ℕ → Event → Text → Text → Option Text → Type 0
  IsOf media e kind bytes etag =
      let cut = clip_cut e now false in
      ((media ≡ media_snapshot) × (x.snapshot e.source_id ≡ Source.got kind bytes) × (etag ≡ none))
      ⊎ ((media ≢ media_snapshot)
          × (x.clip e.camera cut.start cut.end ≡ Source.got kind bytes)
          × (etag ≡ (if cut.stable then some (cut_tag e.camera cut.start cut.end) else none)))

  -- On which claims an answer may be given: a file of the cache is that of a fixed piece of media.
  unfoldable pub IsDue : Claims → Answer → Type 0
  IsDue claims (Answer.refused status) = Unit
  IsDue claims (Answer.file p path age) =
      (e : Event) × Leads claims e × IsFixed x now e p × IsFileOf p.key c path
  IsDue claims (Answer.stream kind bytes etag age) =
      (e : Event) × Leads claims e × IsOf claims.media e kind bytes etag

  module _ (claims : Claims) (age : ℕ) where
    -- What fetch gives is of the event that the claims lead to.
    IsLed : Result (Text × Text × Option Text) → Type 0
    IsLed (Result.failed f) = Unit
    IsLed (Result.ok m) = (e : Event) × Leads claims e × IsOf claims.media e m.0 m.1 m.2

-- Why the answer `a` may be given on this path
abbrev pub IsEntitled : Crypto → Keyring → Outside → Store → ℕ → Cache → Text → Answer → Type 0
IsEntitled c ring x s now cache path a =
    ((status : ℕ) × (a ≡ Answer.refused status))
    ⊎ ((claims : Claims) × (verify c ring (trim_prefix (codes "/media/") path) now
          ≡ Verdict.good claims)
        × IsDue x s now cache claims a)
