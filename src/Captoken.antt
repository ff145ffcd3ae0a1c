-- ===== src/Captoken.antt =====
-- internal/captoken/captoken.go: tokens that authorise one piece of one event's media for a while.
-- base64, SHA-256 and HMAC are Go's, here an argument; an instant is in nanoseconds since the zero
-- time, and one before it, which mint never writes, reads as the zero time. The media, a uint8, is
-- a natural number that mint writes as one byte.
pub mod Mint
pub mod Authentic
use curtilage.Prelude.{
  ℕ, ◌+◌, ◌-◌, ◌*◌, ◌/◌, ◌%◌, ◌^◌, Bool, true, false, not, ◌&&◌, List, [], ◌∷◌, ◌++◌, Option, none,
  some, Text, codes, length, take, drop, ltb, leb, if◌then◌else◌, ◌==◌, eq_text,
}

pub record Crypto : Type 0 where
  pub encode : Text → Text  -- base64.RawURLEncoding
  pub decode : Text → Option Text
  pub sha256 : Text → Text
  pub hmac_sha256 : Text → Text → Text

pub record Claims : Type 0 where
  pub event_id : Text
  pub media : ℕ
  pub camera : Text
  pub expires : ℕ

pub record Key : Type 0 where
  pub id : Text
  pub secret : Text

pub record Keyring : Type 0 where
  pub current : Key
  pub prior : Option Key

pub data Verdict : Type 0 where
  good : Claims → Verdict
  expired : Claims → Verdict
  malformed unknown_key bad_mac : Verdict

abbrev min_key_len : ℕ
min_key_len = 32

abbrev pub kid_len : ℕ
kid_len = 4

abbrev pub mac_len : ℕ
mac_len = 16

-- mkKey
unfoldable pub mk_key : Crypto → Text → Key
mk_key c secret = record {
  id = take kid_len (c.sha256 (codes "curtilage/captoken/kid/" ++ secret));
  secret = secret;
}

with_prior : Key → Key → Option Keyring
with_prior current prior =
    if prior.id == current.id then none else some (record { current = current; prior = some prior })

-- New; none is an error.
unfoldable pub new : Crypto → Text → Text → Option Keyring
unfolding mk_key with_prior
new c current prior =
    if ltb (length current) min_key_len
    then none
    else if prior == []
    then some (record { current = mk_key c current; prior = none })
    else if ltb (length prior) min_key_len
    then none
    else with_prior (mk_key c current) (mk_key c prior)

-- mac
unfoldable pub mac : Crypto → Text → Text → Text
mac c secret text = take mac_len (c.hmac_sha256 secret text)

-- binary.BigEndian.AppendUint64, and Uint64 on eight bytes
abbrev pub big_endian : ℕ → Text
big_endian u =
    (u / 2 ^ 56) % 256
    ∷ (u / 2 ^ 48) % 256
    ∷ (u / 2 ^ 40) % 256
    ∷ (u / 2 ^ 32) % 256
    ∷ (u / 2 ^ 24) % 256
    ∷ (u / 2 ^ 16) % 256
    ∷ (u / 2 ^ 8) % 256
    ∷ u % 256
    ∷ []

abbrev pub second : ℕ
second = 1_000_000_000

-- The seconds from the zero time to 1970.
abbrev pub epoch : ℕ
epoch = 62_135_596_800

-- uint64(t.Unix()): the seconds since 1970 in two's complement
abbrev pub unix_of : ℕ → ℕ
unix_of t = (t / second + (2 ^ 64 - epoch)) % 2 ^ 64

-- time.Unix(int64(u), 0)
abbrev pub time_of : ℕ → ℕ
time_of u = (if ltb u (2 ^ 63) then u + epoch else u + epoch - 2 ^ 64) * second

-- What Mint signs.
unfoldable pub body_of : Key → Claims → Text
body_of k c =
    let camera = if ltb 255 (length c.camera) then [] else c.camera in
    k.id ++ (big_endian (unix_of c.expires) ++ (c.media ∷ length camera ∷ (camera ++ c.event_id)))

-- Mint
unfoldable pub mint : Crypto → Keyring → Claims → Text
unfolding body_of mac
mint c ring claims =
    let body = body_of ring.current claims in c.encode (body ++ mac c ring.current.secret body)

-- lookup
unfoldable pub lookup : Keyring → Text → Option Key
lookup ring id =
    if id == ring.current.id
    then some ring.current
    else elim ring.prior [ none ↦ none | some k ↦ if id == k.id then some k else none ]

-- The claims of a signed body behind its key id.
unfoldable pub read_claims : Text → ℕ → Verdict
read_claims (b7 ∷ b6 ∷ b5 ∷ b4 ∷ b3 ∷ b2 ∷ b1 ∷ b0 ∷ media ∷ cam_len ∷ rest) now =
    let u =
      ((((((b7 * 256 + b6) * 256 + b5) * 256 + b4) * 256 + b3) * 256 + b2) * 256 + b1) * 256 + b0 in
    let c : Claims = record {
      expires = time_of u;
      media = media;
      camera = take cam_len rest;
      event_id = drop cam_len rest;
    } in
    if ltb (length rest) (cam_len + 1)
    then Verdict.malformed
    else if ltb now c.expires
    then Verdict.good c
    else Verdict.expired c
read_claims _ now = Verdict.malformed

-- Verify from the key that the token names.
unfoldable pub verify_key : Crypto → Option Key → Text → ℕ → Verdict
unfolding mac read_claims
verify_key c none body now = Verdict.unknown_key
verify_key c (some k) body now =
    let signed = take (length body - mac_len) body in
    if drop (length body - mac_len) body == mac c k.secret signed
    then read_claims (drop kid_len signed) now
    else Verdict.bad_mac

-- 4 + 10 + 1 + 16 bytes at least
unfoldable pub verify_body : Crypto → Keyring → Text → ℕ → Verdict
unfolding verify_key lookup
verify_body c ring body now =
    if ltb (length body) 31
    then Verdict.malformed
    else verify_key c (lookup ring (take kid_len body)) body now

-- Verify
unfoldable pub verify : Crypto → Keyring → Text → ℕ → Verdict
unfolding verify_body
verify c ring token now = elim (c.decode token) [
  | none ↦ Verdict.malformed
  | some body ↦ verify_body c ring body now
]
