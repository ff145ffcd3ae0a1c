-- ===== src/Server/Media/Door.antt =====
-- internal/server/media.go: the capability URL. A request reads the clock once, and no other fetch
-- comes between its steps; MediaCache/Schedule has the interleavings of the cache.
use curtilage.Prelude.{
  ℕ, ◌+◌, ◌-◌, ◌/◌, ◌%◌, ◌^◌, Bool, true, false, not, ◌&&◌, ◌++◌, Option, none, some, Text, codes,
  nat_eq, ltb, length, if◌then◌else◌, ◌==◌, eq_text,
}
use curtilage.Strings.{trim_prefix}
use curtilage.Captoken.{Crypto, Keyring, Claims, Verdict, second, verify, mint}
use curtilage.Policy.{Event}
use curtilage.Store.{Store}
use curtilage.MediaCache.{Key, Cache, Found, filename, get_cut, fill_start, fill_land, fill_end}
use curtilage.Server.Media.{
  clip_cut, cut_tag, clip_key, snap_key, clip_margin, warm_grace, media_snapshot, media_clip,
  Failure, Result, resolve_event,
}

-- What Frigate answers
pub data Source : Type 0 where
  got : Text → Text → Source  -- the content type and the bytes
  missing broken : Source

-- Frigate's two requests, whether a file of the cache can be written and opened, and whether a
-- fetch that another request has begun succeeds; whether the warmer's context is cancelled while it
-- waits
pub record Outside : Type 0 where
  pub snapshot : Text → Source
  pub clip : Text → ℕ → ℕ → Source
  pub written : Bool
  pub opens : Text → Bool
  pub waited : Key → Bool
  pub cancelled : Bool

pub record MediaStats : Type 0 where
  pub links_opened : ℕ
  pub links_invalid : ℕ
  pub links_expired : ℕ
  pub media_fetches : ℕ
  pub media_failures : ℕ
  pub cache_hits : ℕ
  pub cache_misses : ℕ

-- What a request changes: the cache and the counters
pub record Door : Type 0 where
  pub cache : Cache
  pub stats : MediaStats

-- Add(1) of a uint64
abbrev add_one : ℕ → ℕ
add_one n = (n + 1) % 2 ^ 64

unfoldable pub fetched : Source → MediaStats → MediaStats
fetched (got kind bytes) m = record m { media_fetches = add_one m.media_fetches }
fetched _ m = record m { media_failures = add_one m.media_failures }

-- (c *Cache) Fill, with the fetch of clipFetch or snapshotFetch
unfoldable pub fill : Outside → Key → Source → Door → Door × Option Text
unfolding fetched
fill x key source d =
    let (cache, found) = fill_start key d.cache in
    let asked = record d { cache = cache } in
    elim found as (λ _. Door × Option Text) [
      | Found.hit path ↦ (asked, some path)
      | Found.joined ↦ (asked, if x.waited key then some (filename key) else none)
      | Found.fetching ↦
          let counted = record asked { stats = fetched source d.stats } in
          let lost : Door × Option Text = (record counted { cache = fill_end key cache }, none) in
          elim source as (λ _. Door × Option Text) [
            | got kind bytes ↦
                if x.written
                then (
                  record counted { cache = fill_end key (fill_land key (length bytes) cache) },
                  some (filename key),
                )
                else lost
            | _ ↦ lost
          ]
    ]

-- What serveCached is to answer with: the key of the cut, its ETag, its type and where it comes
-- from
pub record Plan : Type 0 where
  pub key : Key
  pub etag : Text
  pub kind : Text
  pub source : Source

quoted : Text → Text
quoted t = codes "\"" ++ (t ++ codes "\"")

-- The switch of serveCached; none where it returns false.
unfoldable pub plan : Outside → ℕ → ℕ → Event → Option Plan
unfolding quoted
plan x media now e =
    let cut = clip_cut e now true in
    if nat_eq media media_snapshot
    then (if nat_eq e.ended_at 0
        then none
        else some (record {
          key = snap_key e;
          etag = quoted (e.source_id ++ codes "-snap");
          kind = codes "image/jpeg";
          source = x.snapshot e.source_id;
        }))
    else if nat_eq media media_clip
    then (if not (nat_eq e.ended_at 0) && ltb now (e.ended_at + (clip_margin + warm_grace))
        then none
        else if not cut.stable
        then none
        else some (record {
          key = clip_key e.camera cut.start cut.end;
          etag = cut_tag e.camera cut.start cut.end;
          kind = codes "video/mp4";
          source = x.clip e.camera cut.start cut.end;
        }))
    else none

pub data Answer : Type 0 where
  refused : ℕ → Answer  -- http.Error with that status
  file : Plan → Text → ℕ → Answer  -- a file of the cache, with its path and max-age
  stream : Text → Text → Option Text → ℕ → Answer  -- type, bytes, ETag of a fixed cut, max-age

-- Cache.Get and, failing that, Cache.Fill
unfoldable pub look_up : Outside → Plan → Door → Door × Option Text
unfolding fill
look_up x p d =
    let (cache, path) = get_cut p.key d.cache in
    let hit = record d {
      cache = cache;
      stats = record d.stats { cache_hits = add_one d.stats.cache_hits };
    } in
    let missed = record d {
      cache = cache;
      stats = record d.stats { cache_misses = add_one d.stats.cache_misses };
    } in
    elim path [ none ↦ fill x p.key p.source missed | some found ↦ (hit, some found) ]

-- serveCached from Cache.Get on; none is false.
unfoldable pub serve_plan : Outside → ℕ → Plan → Door → Door × Option Answer
unfolding look_up
serve_plan x age p d =
    let (looked, path) = look_up x p d in
    elim path [
      | none ↦ (looked, none)
      | some found ↦ (looked, if x.opens found then some (Answer.file p found age) else none)
    ]

-- serveCached
unfoldable pub serve_cached : Outside → Store → ℕ → ℕ → Claims → Door → Door × Option Answer
unfolding plan serve_plan
serve_cached x s now age claims d =
    elim (resolve_event s claims.event_id claims.media claims.camera)
      as (λ _. Door × Option Answer) [
        | Result.failed f ↦ (d, none)
        | Result.ok e ↦ elim (plan x claims.media now e) [
          | none ↦ (d, none)
          | some p ↦ serve_plan x age p d
        ]
      ]

-- What fetch makes of Frigate's answer
unfoldable pub fetch_result :
    Option Text → Source → Door → Door × Result (Text × Text × Option Text)
unfolding fetched
fetch_result etag source d =
    let counted = record d { stats = fetched source d.stats } in
    elim source as (λ _. Door × Result (Text × Text × Option Text)) [
      | got kind bytes ↦ (counted, Result.ok (kind, bytes, etag))
      | missing ↦ (counted, Result.failed Failure.not_found)
      | broken ↦ (counted, Result.failed Failure.unavailable)
    ]

-- fetch
unfoldable pub fetch :
    Outside → Store → ℕ → Text → ℕ → Text → Door → Door × Result (Text × Text × Option Text)
unfolding fetch_result
fetch x s now event_id media camera d =
    elim (resolve_event s event_id media camera)
      as (λ _. Door × Result (Text × Text × Option Text)) [
        | Result.failed f ↦ (d, Result.failed f)
        | Result.ok e ↦
            let cut = clip_cut e now false in
            let etag = if cut.stable then some (cut_tag e.camera cut.start cut.end) else none in
            if nat_eq media media_snapshot
            then fetch_result none (x.snapshot e.source_id) d
            else fetch_result etag (x.clip e.camera cut.start cut.end) d
      ]

-- The direct path of MediaHandler
unfoldable pub serve_direct : Outside → Store → ℕ → ℕ → Claims → Door → Door × Answer
unfolding fetch
serve_direct x s now age claims d =
    let (t, result) = fetch x s now claims.event_id claims.media claims.camera d in
    elim result as (λ _. Door × Answer) [
      | Result.ok (kind, bytes, etag) ↦ (t, Answer.stream kind bytes etag age)
      | Result.failed Failure.unavailable ↦ (t, Answer.refused 502)
      | Result.failed _ ↦ (t, Answer.refused 404)
    ]

-- MediaHandler behind a good token; `cached` is whether there is a cache.
unfoldable pub serve_claims : Outside → Store → Bool → ℕ → Claims → Door → Door × Answer
unfolding serve_cached serve_direct
serve_claims x s cached now claims d =
    let age = (claims.expires - now) / second in
    let (t, answer) = serve_cached x s now age claims d in
    if cached
    then elim answer [ none ↦ serve_direct x s now age claims t | some a ↦ (t, a) ]
    else serve_direct x s now age claims d

-- MediaHandler, with its keys: the method, and the path of the URL
unfoldable pub media_handler :
    Crypto → Keyring → Outside → Store → Bool → ℕ → Text → Text → Door → Door × Answer
unfolding serve_claims
media_handler c ring x s cached now method path d =
    let m = d.stats in
    if not (method == codes "GET") && not (method == codes "HEAD")
    then (d, Answer.refused 405)
    else elim (verify c ring (trim_prefix (codes "/media/") path) now) as (λ _. Door × Answer) [
      | Verdict.good claims ↦
          serve_claims x s cached now claims
            (record d { stats = record m { links_opened = add_one m.links_opened } })
      | Verdict.expired claims ↦ (
        record d { stats = record m { links_expired = add_one m.links_expired } },
        Answer.refused 404,
      )
      | _ ↦ (
        record d { stats = record m { links_invalid = add_one m.links_invalid } },
        Answer.refused 404,
      )
    ]

-- CameraLink, with its keys; Link is that of the camera "".
unfoldable pub camera_link : Crypto → Keyring → ℕ → Event → ℕ → Text → ℕ → Text
camera_link c ring ttl e media camera now =
    codes "/media/"
    ++ mint c ring (record { event_id = e.id; media = media; camera = camera; expires = now + ttl })
