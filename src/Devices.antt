-- ===== src/Devices.antt =====
-- internal/devices/devices.go: the enrolled devices and the enrollment secrets. What comes from
-- outside is an argument: the random secret, id and token, the hash that names a token, and whether
-- a write of the file succeeds.
pub mod Passkeys
pub mod Pending
pub mod Tokens
pub mod Calls
use curtilage.Prelude.{
  ℕ, zero, suc, ◌+◌, ◌≡◌, refl, Bool, true, false, not, ◌&&◌, ◌||◌, List, [], ◌∷◌, ◌++◌, Option,
  none, some, Text, length, keep_if, any, nat_eq, ltb, leb, if◌then◌else◌, ◌==◌, eq_text, is_some,
}
use curtilage.Prelude.Map.{Map, get, put, del}

pub record Device : Type 0 where
  pub id : Text
  pub name : Text
  pub token_sha256 : Text
  pub enrolled_at : ℕ
  pub last_seen : ℕ
  pub revoked : Bool

-- An admin credential as the file holds it.
pub record Passkey : Type 0 where
  pub id : Text
  pub name : Text
  pub credential_id : Text
  pub public_key : Text
  pub sign_count : ℕ
  pub registered_at : ℕ

-- `pending` is from a secret to its expiry; `persists` is whether a path is set; `disk` is what the
-- file holds.
pub record Registry : Type 0 where
  pub persists : Bool
  pub order : List Device
  pub passkeys : List Passkey
  pub pending : Map Text ℕ
  pub saved : ℕ
  pub disk : List Device × List Passkey

-- Five minutes, ten minutes and eight secrets.
abbrev pub enroll_ttl : ℕ
enroll_ttl = 300_000_000_000

abbrev pub last_seen_flush : ℕ
last_seen_flush = 600_000_000_000

abbrev pub max_pending : ℕ
max_pending = 8

-- (r *Registry) Armed
unfoldable pub armed : Registry → Bool
armed r = any (λ d. not d.revoked) r.order

-- (r *Registry) save; `ok` is whether the write succeeds. The flag is that no error came back.
unfoldable pub save : Bool → ℕ → Registry → Registry × Bool
save ok now r =
    let s = record r { saved = now } in
    if not r.persists
    then (s, true)
    else if ok
    then (record s { disk = (r.order, r.passkeys) }, true)
    else (s, false)

-- (r *Registry) sweepPending
unfoldable pub sweep : ℕ → Map Text ℕ → Map Text ℕ
sweep now = keep_if (λ p. not (ltb p.1 now))

-- The loop that looks for the secret that expires first.
unfoldable pub oldest : Text → ℕ → Map Text ℕ → Text
oldest key at [] = key
oldest key at ((s, expires) ∷ m) =
    let b = nat_eq at 0 || ltb expires at in
    oldest (if b then s else key) (if b then expires else at) m

-- `for len(r.pending) >= maxPending { … }`: a round deletes a secret, so the size is fuel enough.
unfoldable pub evict : ℕ → Map Text ℕ → Map Text ℕ
unfolding oldest
evict zero m = m
evict (suc fuel) m =
    let rest = evict fuel (del (oldest [] 0 m) m) in if leb max_pending (length m) then rest else m

-- (r *Registry) MintEnrollment, with the secret drawn.
unfoldable pub mint_enrollment : Text → ℕ → Registry → Registry
unfolding sweep evict
mint_enrollment secret now r =
    let live = sweep now r.pending in
    record r { pending = put secret (now + enroll_ttl) (evict (length live) live) }

-- The device that Enroll makes.
abbrev pub new_device : (Text → Text) → Text → Text → Text → ℕ → Device
new_device hash id token name now = record {
  id = id;
  name = name;
  token_sha256 = hash token;
  enrolled_at = now;
  last_seen = now;
  revoked = false;
}

unfoldable pub is_valid : ℕ → Option ℕ → Bool
is_valid now none = false
is_valid now (some expires) = not (ltb expires now)

-- (r *Registry) Enroll, with the id and the token drawn; none is the error.
unfoldable pub enroll :
    (Text → Text)
    → Bool
    → Text
    → Text
    → Text
    → Text
    → ℕ
    → Registry
    → Registry × Option (Device × Text)
unfolding sweep is_valid save
enroll hash ok id token secret name now r =
    let live = sweep now r.pending in
    let d = new_device hash id token name now in
    let used = record r { pending = del secret live; order = r.order ++ d ∷ [] } in
    let (s, fine) = save ok now used in
    if not (is_valid now (get secret live))
    then (record r { pending = live }, none)
    else (s, if fine then some (d, token) else none)

-- (r *Registry) lookup: the last device of that hash.
unfoldable pub lookup : Text → List Device → Option Device
lookup hash [] = none
lookup hash (d ∷ ds) = elim (lookup hash ds) [
  | some x ↦ some x
  | none ↦ if d.token_sha256 == hash then some d else none
]

-- A change made through the pointer that lookup returned.
unfoldable pub update_found : Text → (Device → Device) → List Device → List Device
unfolding lookup
update_found hash f [] = []
update_found hash f (d ∷ ds) =
    if is_some (lookup hash ds)
    then d ∷ update_found hash f ds
    else if d.token_sha256 == hash
    then f d ∷ ds
    else d ∷ ds

abbrev pub see_at : ℕ → Device → Device
see_at now d = record d { last_seen = now }

abbrev pub mark_revoked : Device → Device
mark_revoked d = record d { revoked = true }

seen : (Text → Text) → Bool → Text → ℕ → Registry → Registry
unfolding update_found save
seen hash ok token now r =
    let s = record r { order = update_found (hash token) (see_at now) r.order } in
    if ltb (r.saved + last_seen_flush) now then (save ok now s).0 else s

-- (r *Registry) Authenticate; none is refused.
unfoldable pub authenticate : (Text → Text) → Bool → Text → ℕ → Registry → Registry × Option Device
unfolding lookup seen
authenticate hash ok token now r = elim (lookup (hash token) r.order) [
  | none ↦ (r, none)
  | some d ↦ if d.revoked then (r, none) else (seen hash ok token now r, some (see_at now d))
]

-- (r *Registry) Forget
unfoldable pub forget : (Text → Text) → Bool → Text → ℕ → Registry → Registry
unfolding lookup update_found save
forget hash ok token now r = elim (lookup (hash token) r.order) [
  | none ↦ r
  | some d ↦
      if d.revoked
      then r
      else (save ok now (record r { order = update_found (hash token) mark_revoked r.order })).0
]

-- The first device of that id that is not revoked.
unfoldable pub revoke_first : Text → List Device → List Device
revoke_first id [] = []
revoke_first id (d ∷ ds) =
    if (d.id == id) && not d.revoked then mark_revoked d ∷ ds else d ∷ revoke_first id ds

-- (r *Registry) Revoke
unfoldable pub revoke : Bool → Text → ℕ → Registry → Registry × Bool
unfolding revoke_first save
revoke ok id now r =
    if any (λ d. (d.id == id) && not d.revoked) r.order
    then ((save ok now (record r { order = revoke_first id r.order })).0, true)
    else (r, false)
