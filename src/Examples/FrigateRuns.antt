-- ===== src/Examples/FrigateRuns.antt =====
-- Runs of internal/frigate.
use curtilage.Prelude.{◌≡◌, refl, [], ◌∷◌, some, codes, contains, if◌then◌else◌, arith, eq_text}
use curtilage.Strings.{join, trim_space}
use curtilage.Frigate.{Kind, no_topic, not_counts, parse_topic, parse_class}
use curtilage.Frigate.Topics.{parse_topic-camera}

parse_topic-camera_example :
    (parse_topic (
        join
          (b'/' ∷ [])
          (codes "frigate" ∷ codes "porch" ∷ codes "classification" ∷ codes "bins" ∷ []))
      ≡ record no_topic {
        kind = Kind.classification;
        camera = codes "porch";
        model = codes "bins";
      })
    × (parse_topic (join (b'/' ∷ []) (codes "frigate" ∷ codes "porch" ∷ codes "bins" ∷ [])) ≡ (
        if contains not_counts (codes "bins")
        then no_topic
        else record no_topic { kind = Kind.count; camera = codes "porch"; label = codes "bins" }))
parse_topic-camera_example =
    parse_topic-camera (codes "porch") (codes "bins") (ground arith) (ground arith)

parse_class_runs : parse_class (codes " open\n") ≡ some (codes "open")
unfolding parse_class trim_space
parse_class_runs = refl
