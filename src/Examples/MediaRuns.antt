-- ===== src/Examples/MediaRuns.antt =====
-- Runs of internal/server/media.go and warm.go: the clip of an event that ended on the second of a
-- checkpoint.
use curtilage.Prelude.{
  none, some, ℕ, ◌+◌, ◌-◌, ◌*◌, ◌≡◌, refl, ==_refl, true, false, not, ◌&&◌, [], ◌∷◌, Text, codes,
}
use curtilage.Prelude.Map.{Map}
use curtilage.Captoken.{second}
use curtilage.Policy.{Event, Op, ClipState, no_event}
use curtilage.Store.{get_event, Store, apply}
use curtilage.Store
use curtilage.MediaCache.{
  eq_key, Cache, contains_cut, evict, fill_start, fill_land, fill_end, shed, drop,
}
use curtilage.MediaCache
use curtilage.Examples.TokenRuns.{crypto, old_ring}
use curtilage.Server.Media.{clip_key, clip_margin, clip_cut, unix, event_cameras}
use curtilage.Server.Media.Door.{Source, Outside, Door, camera_link, fill}
use curtilage.Server.Media.Sealing.{seal, warm_final, seal-warm_final, shares_second, is_evicted}

-- It starts 1000 seconds past 1970 and ends ten seconds later.
abbrev start : ℕ
start = 62_135_597_800_000_000_000

abbrev visit : Event
visit = record no_event {
  id = codes "V";
  camera = codes "porch";
  started_at = start;
  ended_at = start + 10 * second;
  clip = ClipState.final;
}

abbrev outside : Outside
outside = record {
  snapshot = λ id. Source.missing;
  clip = λ camera from to. Source.got (codes "video/mp4") (codes "bytes");
  written = true;
  opens = λ path. true;
  waited = λ key. false;
  cancelled = false;
}

abbrev store : Store
store = apply start (record { op = Op.started; event = visit }) (Store.new 100)

abbrev door : Door
door = record {
  cache = MediaCache.new 1000;
  stats = record {
    links_opened = 0;
    links_invalid = 0;
    links_expired = 0;
    media_fetches = 0;
    media_failures = 0;
    cache_hits = 0;
    cache_misses = 0;
  };
}

abbrev link : Text
link = camera_link crypto old_ring (3600 * second) visit 2 [] (start + 60 * second)

-- The first checkpoint's cut ends fifteen seconds after the start, like the final one.
abbrev checkpoints : Map Text ℕ
checkpoints = (codes "porch", start + 15 * second) ∷ []

seal-warm_final_example :
    contains_cut
      (clip_key (codes "porch") (start - clip_margin) (start + 15 * second))
      (seal outside store (codes "V") (start + 60 * second) checkpoints door).cache
    ≡ (elim (get_event (codes "V") store) [
      | none ↦
          contains_cut
            (clip_key (codes "porch") (start - clip_margin) (start + 15 * second))
            door.cache
          && not
              (is_evicted 0 (codes "porch") (start - clip_margin) (start + 15 * second) checkpoints)
      | some e ↦
          contains_cut
            (clip_key (codes "porch") (start - clip_margin) (start + 15 * second))
            (warm_final outside (start + 60 * second) e door).cache
          && not (
              is_evicted
                (e.started_at - clip_margin)
                (codes "porch")
                (start - clip_margin)
                (start + 15 * second)
                checkpoints)
    ])
seal-warm_final_example =
    seal-warm_final outside store (codes "V") (start + 60 * second) (start - clip_margin)
      (start + 15 * second) (codes "porch") checkpoints door

final_cut_lost : shares_second (codes "porch") (start + 15 * second) checkpoints ≡ true
unfolding shares_second unix
final_cut_lost = refl

warmed :
    contains_cut
      (clip_key (codes "porch") (start - clip_margin) (start + 15 * second))
      (warm_final outside (start + 60 * second) visit door).cache
    ≡ true
unfolding contains_cut warm_final clip_key clip_cut fill event_cameras fill_start fill_land fill_end
    shed MediaCache.new
warmed = rw (==_refl (clip_key (codes "porch") (start - clip_margin) (start + 15 * second))) refl
