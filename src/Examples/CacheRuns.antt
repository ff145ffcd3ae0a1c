-- ===== src/Examples/CacheRuns.antt =====
-- Runs of internal/mediacache: one clip fetched into an empty cache.
use curtilage.Prelude.{◌≡◌, refl, true, [], ◌∷◌, codes, contains, arith, ==_refl}
use curtilage.MediaCache.{Key, Cache, eq_key, new, fill_start}
use curtilage.MediaCache.Schedule.{
  Reach, fresh, next, starts, lands, others, fetching_after, apply_event, IsSound,
}
use curtilage.MediaCache.Sound.{Reach-IsSound}

abbrev clip : Key
clip = record { media = codes "clip"; ref = codes "porch"; start = 10; end = 20; variant = [] }

abbrev fetching_clip : Cache
fetching_clip = apply_event (starts clip) (new 100)

is_fetching : contains (clip ∷ []) clip ≡ true
is_fetching = ground (arith, ==_refl clip)

begins : clip ∷ [] ≡ fetching_after (starts clip) (new 100) []
unfolding fetching_after fill_start new
begins = refl

fetching : Reach 100 (clip ∷ []) fetching_clip
fetching = next fresh (starts clip) tt begins refl

abbrev landed_clip : Cache
landed_clip = apply_event (lands clip 7) fetching_clip

landed : Reach 100 (others clip (clip ∷ [])) landed_clip
unfolding fetching_after
landed = next fetching (lands clip 7) is_fetching refl refl

Reach-IsSound_example : IsSound (others clip (clip ∷ [])) landed_clip
Reach-IsSound_example = Reach-IsSound 100 (others clip (clip ∷ [])) landed_clip landed
