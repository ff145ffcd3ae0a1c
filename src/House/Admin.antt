-- ===== src/House/Admin.antt =====
-- internal/house/admin.go: the sessions and the challenges of the admin area. JSON, base64,
-- url.Parse and the QR encoder are arguments; `none` is an error's result.
pub mod Requests
pub mod Serve
pub mod Routes
pub mod Locked
pub mod Replay
pub mod Opening
use curtilage.Prelude.{
  ℕ, ◌+◌, Bool, true, false, not, ◌&&◌, ◌||◌, [], Option, none, some, Text, codes, ltb, keep_if,
  if◌then◌else◌, ◌==◌, eq_text,
}
use curtilage.Prelude.Map.{Map, get, put, del}
use curtilage.Webauthn.{RelyingParty}

-- Fifteen minutes and five minutes
abbrev pub session_ttl : ℕ
session_ttl = 900_000_000_000

abbrev pub challenge_ttl : ℕ
challenge_ttl = 300_000_000_000

pub record Challenge : Type 0 where
  pub purpose : Text
  pub expires : ℕ

pub record AdminState : Type 0 where
  pub sessions : Map Text ℕ  -- from a token to its expiry
  pub challenges : Map Text Challenge

-- What url.Parse finds: the scheme and the host's name
pub record Url : Type 0 where
  pub scheme : Text
  pub host : Text

-- rp: the flag is that there is an API with a device registry.
unfoldable pub relying_party : (Text → Option Url) → Text → Bool → Option RelyingParty
relying_party parse origin has_devices =
    if (origin == []) || not has_devices then none else elim (parse origin) [
      | none ↦ none
      | some u ↦
          if (u.scheme == []) || (u.host == [])
          then none
          else some (record { origin = origin; id = u.host })
    ]

-- authed, of the cookie that the request carries
unfoldable pub authed : ℕ → Option Text → AdminState → AdminState × Bool
authed now none s = (s, false)
authed now (some token) s =
    let dropped = record s { sessions = del token s.sessions } in
    elim (get token s.sessions) [
      | none ↦ (dropped, false)
      | some expires ↦
          if ltb expires now
          then (dropped, false)
          else (record s { sessions = put token (now + session_ttl) s.sessions }, true)
    ]

-- The part of adminChallenge under the lock
unfoldable pub mint_challenge : ℕ → Text → Text → AdminState → AdminState
mint_challenge now key purpose s =
    let live = keep_if (λ c. not (ltb c.1.expires now)) s.challenges in
    record s {
      challenges = put key (record { purpose = purpose; expires = now + challenge_ttl }) live;
    }

-- Whether a challenge is good for the purpose
unfoldable pub is_live : ℕ → Text → Option Challenge → Bool
is_live now purpose none = false
is_live now purpose (some c) = (c.purpose == purpose) && not (ltb c.expires now)

-- takeChallenge: `challenge_of` is json.Unmarshal of the client data, `base64` DecodeString.
unfoldable pub take_challenge :
    (Text → Option Text)
    → (Text → Option Text)
    → ℕ
    → Text
    → Text
    → AdminState
    → AdminState × Option Text
unfolding is_live
take_challenge challenge_of base64 now client_data purpose s = elim (challenge_of client_data) [
  | none ↦ (s, none)
  | some name ↦ (
    record s { challenges = del name s.challenges },
    if is_live now purpose (get name s.challenges) then base64 name else none,
  )
]

-- The session that a login opens
unfoldable pub open_session : ℕ → Text → AdminState → AdminState
open_session now token s = record s { sessions = put token (now + session_ttl) s.sessions }

-- The handler of session/logout
unfoldable pub logout : Option Text → AdminState → AdminState
logout none s = s
logout (some token) s = record s { sessions = del token s.sessions }
