-- ===== src/Strings.antt =====
-- What the program uses of Go's strings, strconv and fmt packages, over byte strings.
use mathlib.Core.List.{reverse}
use curtilage.Prelude.{
  ℕ, zero, suc, ◌+◌, ◌-◌, ◌/◌, ◌%◌, ◌≡◌, refl, List, [], ◌∷◌, ◌++◌, Option, none, some, Text, codes,
  length, nat_eq, ltb, leb, if◌then◌else◌, map, eq_text,
}

-- strings.Split with a one-byte separator.
glue : ℕ → List Text → List Text
glue c [] = (c ∷ []) ∷ []
glue c (p ∷ ps) = (c ∷ p) ∷ ps

unfoldable pub split : ℕ → Text → List Text
unfolding glue
split sep [] = [] ∷ []
split sep (c ∷ t) = let rest = split sep t in if nat_eq c sep then [] ∷ rest else glue c rest

-- strings.Cut with a one-byte separator: what stands before the first one and after it.
unfoldable pub cut : ℕ → Text → Option (Text × Text)
cut sep [] = none
cut sep (c ∷ t) =
    let later = elim (cut sep t) as (λ _. Option (Text × Text)) [
      | none ↦ none
      | some (a, b) ↦ some (c ∷ a, b)
    ] in
    if nat_eq c sep then some ([], t) else later

-- strings.CutPrefix, and the test strings.HasPrefix.
unfoldable pub cut_prefix : Text → Text → Option Text
cut_prefix [] t = some t
cut_prefix (p ∷ ps) [] = none
cut_prefix (p ∷ ps) (c ∷ t) = if nat_eq p c then cut_prefix ps t else none

-- strings.TrimPrefix
unfoldable pub trim_prefix : Text → Text → Text
unfolding cut_prefix
trim_prefix p t = elim (cut_prefix p t) [ none ↦ t | some r ↦ r ]

-- The UTF-8 text of each rune that unicode.IsSpace has.
abbrev spaces : List Text
spaces =
    (0x09 ∷ [])
    ∷ (0x0a ∷ [])
    ∷ (0x0b ∷ [])
    ∷ (0x0c ∷ [])
    ∷ (0x0d ∷ [])
    ∷ (0x20 ∷ [])
    ∷ (0xc2 ∷ 0x85 ∷ [])
    ∷ (0xc2 ∷ 0xa0 ∷ [])
    ∷ (0xe1 ∷ 0x9a ∷ 0x80 ∷ [])
    ∷ (0xe2 ∷ 0x80 ∷ 0x80 ∷ [])
    ∷ (0xe2 ∷ 0x80 ∷ 0x81 ∷ [])
    ∷ (0xe2 ∷ 0x80 ∷ 0x82 ∷ [])
    ∷ (0xe2 ∷ 0x80 ∷ 0x83 ∷ [])
    ∷ (0xe2 ∷ 0x80 ∷ 0x84 ∷ [])
    ∷ (0xe2 ∷ 0x80 ∷ 0x85 ∷ [])
    ∷ (0xe2 ∷ 0x80 ∷ 0x86 ∷ [])
    ∷ (0xe2 ∷ 0x80 ∷ 0x87 ∷ [])
    ∷ (0xe2 ∷ 0x80 ∷ 0x88 ∷ [])
    ∷ (0xe2 ∷ 0x80 ∷ 0x89 ∷ [])
    ∷ (0xe2 ∷ 0x80 ∷ 0x8a ∷ [])
    ∷ (0xe2 ∷ 0x80 ∷ 0xa8 ∷ [])
    ∷ (0xe2 ∷ 0x80 ∷ 0xa9 ∷ [])
    ∷ (0xe2 ∷ 0x80 ∷ 0xaf ∷ [])
    ∷ (0xe2 ∷ 0x81 ∷ 0x9f ∷ [])
    ∷ (0xe3 ∷ 0x80 ∷ 0x80 ∷ [])
    ∷ []

-- One of the sequences taken off the front.
strip_one : List Text → Text → Option Text
unfolding cut_prefix
strip_one [] t = none
strip_one (p ∷ ps) t = elim (cut_prefix p t) [ none ↦ strip_one ps t | some r ↦ some r ]

-- Each round takes off a byte at least, so the length is fuel enough.
trim_front : ℕ → List Text → Text → Text
unfolding strip_one
trim_front zero ps t = t
trim_front (suc fuel) ps t = elim (strip_one ps t) [ none ↦ t | some r ↦ trim_front fuel ps r ]

-- strings.TrimSpace
unfoldable pub trim_space : Text → Text
unfolding trim_front
trim_space t =
    let front = trim_front (length t) spaces t in
    reverse (trim_front (length front) (map reverse spaces) (reverse front))

-- strings.ReplaceAll of one byte by another.
unfoldable pub replace_byte : ℕ → ℕ → Text → Text
replace_byte old by t = map (λ c. if nat_eq c old then by else c) t

-- strings.Join
unfoldable pub join : Text → List Text → Text
join sep [] = []
join sep (t ∷ []) = t
join sep (t ∷ u ∷ ts) = t ++ (sep ++ join sep (u ∷ ts))

-- The digits of `%d`; `n` has at most `n + 1` of them.
digits : ℕ → ℕ → Text → Text
digits zero n acc = acc
digits (suc fuel) n acc =
    let acc' = (b'0' + n % 10) ∷ acc in
    let more = digits fuel (n / 10) acc' in if ltb n 10 then acc' else more

unfoldable pub decimal : ℕ → Text
unfolding digits
decimal n = digits (suc n) n []

-- The instant 1970-01-01, in nanoseconds since the zero time.
abbrev pub unix_epoch : ℕ
unix_epoch = 62_135_596_800_000_000_000

-- The text of UnixNano.
unfoldable pub unix_nano : ℕ → Text
unfolding decimal
unix_nano at =
    if leb unix_epoch at then decimal (at - unix_epoch) else b'-' ∷ decimal (unix_epoch - at)

split_runs :
    split b'/' (codes "frigate/porch/person")
    ≡ codes "frigate" ∷ codes "porch" ∷ codes "person" ∷ []
unfolding split
split_runs = refl

trim_space_runs : trim_space (codes "  open ") ≡ codes "open"
unfolding trim_space
trim_space_runs = refl

decimal_runs : decimal 120 ≡ codes "120"
unfolding decimal
decimal_runs = refl
