-- ===== src/Frigate/Topics.antt =====
-- internal/frigate/frigate.go, ParseTopic and ParseClass: what they read back and what they accept.
use curtilage.Prelude.{
  ℕ, ◌≡◌, ◌≤◌, ◌<◌, refl, sym, ap, true, false, ◌||◌, List, [], ◌∷◌, ◌++◌, none, some, Text, codes,
  contains, nat_eq, nat_eq_iff, length, ltb, all, inl, inr, Bool-cases, ◌==◌, if◌then◌else◌,
  eq_text, All, arith,
}
use curtilage.Strings.{split, join, trim_space}
use curtilage.Frigate.{
  Kind, no_topic, not_counts, parse_topic, topic_of, shape, parse_class, is_class_byte,
}

-- A part of a topic: it holds no separator.
abbrev pub IsPart : ℕ → Text → Type 0
IsPart sep t = All (λ c. nat_eq c sep ≡ false) t

split-part : (sep : ℕ) (p : Text) → IsPart sep p → split sep p ≡ p ∷ []
unfolding split
split-part sep [] a = refl
split-part sep (c ∷ p) a = rw (a.0, split-part sep p a.1)

split-cons : (sep : ℕ) (p t : Text) → IsPart sep p → split sep (p ++ sep ∷ t) ≡ p ∷ split sep t
unfolding split
split-cons sep [] t a = ground (arith, nat_eq_iff sep sep)
split-cons sep (c ∷ p) t a = rw (a.0, split-cons sep p t a.1)

-- Splitting undoes joining.
pub split-join :
    (sep : ℕ) (p : Text) (ps : List Text)
    → IsPart sep p
    → All (IsPart sep) ps
    → split sep (join (sep ∷ []) (p ∷ ps)) ≡ p ∷ ps
unfolding join
split-join sep p [] a as' = split-part sep p a
split-join sep p (q ∷ ps) a as' =
    rw (split-cons sep p (join (sep ∷ []) (q ∷ ps)) a, split-join sep q ps as'.0 as'.1)

parse_topic-join :
    (ps : List Text)
    → All (IsPart b'/') ps
    → parse_topic (join (b'/' ∷ []) (codes "frigate" ∷ ps)) ≡ shape ps
unfolding parse_topic topic_of
parse_topic-join ps a = rw (split-join b'/' (codes "frigate") ps (ground arith) a)

-- For parts without a slash: frigate/<camera>/classification/<model> is that model's classifier on
-- that camera, and frigate/<camera>/<label> is that label's count on that camera unless the label
-- is one of the sub-topics that are no counts, when it is nothing.
pub parse_topic-camera :
    (camera name : Text)
    → IsPart b'/' camera
    → IsPart b'/' name
    → (parse_topic
          (join (b'/' ∷ []) (codes "frigate" ∷ camera ∷ codes "classification" ∷ name ∷ []))
        ≡ record no_topic { kind = Kind.classification; camera = camera; model = name })
      × (parse_topic (join (b'/' ∷ []) (codes "frigate" ∷ camera ∷ name ∷ [])) ≡ (
          if contains not_counts name
          then no_topic
          else record no_topic { kind = Kind.count; camera = camera; label = name }))
unfolding shape
parse_topic-camera camera name c n = (
  parse_topic-join (camera ∷ codes "classification" ∷ name ∷ []) (c, (ground arith, (n, tt))),
  parse_topic-join (camera ∷ name ∷ []) (c, (n, tt)),
)

-- A class that is accepted is the trimmed payload, has 1 to 128 bytes, and holds only letters,
-- digits, `_`, `-` and spaces.
parse_class-accepted :
    (payload class : Text)
    → parse_class payload ≡ some class
    → (class ≡ trim_space payload)
      × (0 < length class)
      × (length class ≤ 128)
      × (all is_class_byte class ≡ true)
unfolding parse_class
parse_class-accepted payload class h = go (trim_space payload) h
  where
    go :
        (s : Text)
        → (if (s == []) || ltb 128 (length s)
            then none
            else if all is_class_byte s
            then some s
            else none)
          ≡ some class
        → (class ≡ s) × (0 < length class) × (length class ≤ 128) × (all is_class_byte class ≡ true)
    go [] e = absurd (never e)
      where
        never : none ≡ some class → ⊥
        never e = cc
    go (c ∷ s) e = elim (Bool-cases (ltb 128 (length (c ∷ s)))) [
      | inl long ↦ absurd (never (rw long at e))
      | inr short ↦ elim (Bool-cases (all is_class_byte (c ∷ s))) [
        | inl fine ↦
            let same : c ∷ s ≡ class = accepted (rw (short, fine) at e) in
            (
              sym same,
              omega (arith, ap length same),
              ground (arith, ap length same),
              rw (← same) fine,
            )
        | inr bad ↦ absurd (never (rw (short, bad) at e))
      ]
    ]
      where
        never : none ≡ some class → ⊥
        never e = cc

        accepted : some (c ∷ s) ≡ some class → c ∷ s ≡ class
        accepted e = cc
