-- ===== src/House/Admin/Requests.antt =====
-- internal/house/admin.go: the requests of the admin area. A request is one step here, and it reads
-- the clock once; what it draws at random, and whether a write of the devices' file succeeds, comes
-- with it. The times that the page formats are left as they are.
use curtilage.Prelude.{
  ℕ, Bool, not, ◌&&◌, ◌||◌, List, [], Option, none, some, Text, codes, length, map, ltb,
  if◌then◌else◌, ◌==◌, eq_text, is_some,
}
use curtilage.Strings.{trim_space}
use curtilage.Webauthn.{Crypto, RelyingParty, parse_cose_key, verify_registration, verify_assertion}
use curtilage.Webauthn
use curtilage.Devices.{Device, Passkey, Registry}
use curtilage.Devices.Passkeys.{Credential, has_passkeys, add_passkey, list_passkeys}
use curtilage.House.Admin.{AdminState, authed, mint_challenge, take_challenge}

-- The bodies of passkey/register and of passkey/login
pub record Registration : Type 0 where
  pub name : Text
  pub client_data_json : Text
  pub attestation_object : Text

pub record Login : Type 0 where
  pub credential_id : Text
  pub client_data_json : Text
  pub authenticator_data : Text
  pub signature : Text

-- What the handlers call of other packages: besides those of the ceremonies, base64's encoder, the
-- JSON decoders (decodeJSON for each kind of body) and the QR encoder.
pub record Outside : Type 0 where
  pub crypto : Crypto
  pub challenge_of : Text → Option Text
  pub encode : Text → Text
  pub purpose_body : Text → Option Text
  pub id_body : Text → Option Text
  pub registration_body : Text → Option Registration
  pub login_body : Text → Option Login
  pub qr : Text → Option Text

-- `drawn` is the text that the request draws: a challenge, a session, a secret, or a passkey's id.
pub record Request : Type 0 where
  pub method : Text
  pub rest : Text  -- the path behind /house/admin
  pub cookie : Option Text
  pub body : Text
  pub drawn : Text
  pub now : ℕ
  pub written : Bool

-- What the handler keeps: the admin area's state and the registry
pub record Site : Type 0 where
  pub admin : AdminState
  pub registry : Registry

pub record Page : Type 0 where
  pub configured : Bool
  pub bootstrap : Bool
  pub unlocked : Bool
  pub backup_nag : Bool
  pub devices : List Device
  pub passkeys : List Passkey

pub data Answer : Type 0 where
  refused : ℕ → Answer  -- http.Error with that status
  done : Answer
  challenged : Text → Text → List Text → Answer  -- the challenge, the rp's id, the credentials' ids
  opened : Text → Answer  -- the session's cookie
  closed : Answer  -- no cookie any more
  secret : Text → Text → Text → Answer  -- the secret, its URL and its QR code
  shown : Page → Answer

module _ (x : Outside) where
  unfoldable pub parses : Text → Bool
  parses cose = is_some (parse_cose_key x.crypto cose)

  -- The Credential of a stored passkey, as internal/devices gives it out
  unfoldable pub credential_of : Passkey → Option Webauthn.Credential
  credential_of p = elim (parse_cose_key x.crypto p.public_key) [
    | none ↦ none
    | some (alg, key) ↦ some (record {
      id = p.credential_id;
      alg = alg;
      key = key;
      cose = p.public_key;
      sign_count = p.sign_count;
    })
  ]

  -- takeChallenge, in the site
  unfoldable pub take_of : Request → Text → Text → Site → Site × Option Text
  take_of r client_data purpose s =
      let (admin, ch) =
        take_challenge x.challenge_of x.crypto.base64 r.now client_data purpose s.admin in
      (record s { admin = admin }, ch)

  -- The handlers, with the relying party that rp gives
  module _ (rp : RelyingParty) where
    -- adminChallenge
    unfoldable pub admin_challenge : Request → Site → Site × Answer
    admin_challenge r s = elim (x.purpose_body r.body) [
      | none ↦ (s, refused 400)
      | some purpose ↦
          if not (purpose == codes "register") && not (purpose == codes "login")
          then (s, refused 400)
          else (
            record s { admin = mint_challenge r.now r.drawn purpose s.admin },
            challenged r.drawn rp.id (
                if purpose == codes "login"
                then map (λ p. x.encode p.credential_id) (list_passkeys parses s.registry)
                else []),
          )
    ]

    -- adminRegister, from VerifyRegistration on
    unfoldable pub add_registered : Request → Text → Text → Text → Text → Site → Site × Answer
    add_registered r name cdj att ch s = elim (verify_registration x.crypto rp cdj att ch) [
      | none ↦ (s, refused 403)
      | some cred ↦
          let stored : Credential = record {
            id = cred.id;
            cose = cred.cose;
            sign_count = cred.sign_count;
          } in
          let (registry, added) =
            add_passkey parses r.written r.drawn name stored r.now s.registry in
          (record s { registry = registry }, elim added [ none ↦ refused 400 | some p ↦ done ])
    ]

    -- adminRegister, from takeChallenge on
    unfoldable pub register_taken : Request → Text → Text → Text → Site → Site × Answer
    unfolding add_registered
    register_taken r name cdj att s =
        let (t, taken) = take_of r cdj (codes "register") s in
        elim taken [ none ↦ (t, refused 403) | some ch ↦ add_registered r name cdj att ch t ]

    -- adminRegister, from decodeJSON on
    unfoldable pub register_body : Request → Site → Site × Answer
    unfolding register_taken
    register_body r s = elim (x.registration_body r.body) [
      | none ↦ (s, refused 400)
      | some req ↦
          let name = trim_space req.name in
          if (name == []) || ltb 64 (length name)
          then (s, refused 400)
          else elim (x.crypto.base64 req.client_data_json) [
            | none ↦ (s, refused 400)
            | some cdj ↦ elim (x.crypto.base64 req.attestation_object) [
              | none ↦ (s, refused 400)
              | some att ↦ register_taken r name cdj att s
            ]
          ]
    ]

    -- adminRegister
    unfoldable pub admin_register : Request → Site → Site × Answer
    unfolding register_body
    admin_register r s =
        let (admin, live) = authed r.now r.cookie s.admin in
        let asked = record s { admin = admin } in
        if has_passkeys s.registry
        then (if live then register_body r asked else (asked, refused 403))
        else register_body r s
