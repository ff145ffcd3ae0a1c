-- ===== src/House/Admin/Serve.antt =====
-- internal/house/admin.go: logging in, the requests that need a session, and the routes.
use curtilage.Prelude.{
  ℕ, Bool, true, false, not, ◌&&◌, [], ◌++◌, Option, none, some, Text, codes, length, nat_eq,
  if◌then◌else◌, ◌==◌, eq_text, is_some,
}
use curtilage.Strings.{trim_prefix}
use curtilage.Webauthn.{RelyingParty, verify_assertion}
use curtilage.Webauthn
use curtilage.Devices.{Passkey, Registry, mint_enrollment, revoke}
use curtilage.Devices.Passkeys.{
  has_passkeys, passkey_by_credential_id, set_passkey_sign_count, list_passkeys, remove_passkey,
}
use curtilage.House.Admin.{authed, open_session, logout}
use curtilage.House.Admin.Requests.{
  Login, Outside, Request, Site, Answer, refused, done, opened, closed, secret, shown, parses,
  credential_of, take_of, admin_challenge, admin_register,
}

-- The four fields of a login, decoded
pub record Assertion : Type 0 where
  pub credential_id : Text
  pub client_data_json : Text
  pub authenticator_data : Text
  pub signature : Text

module _ (x : Outside) where
  -- none if one of the fields is not base64url
  unfoldable pub decoded : Login → Option Assertion
  decoded req = elim (x.crypto.base64 req.credential_id) [
    | none ↦ none
    | some id ↦ elim (x.crypto.base64 req.client_data_json) [
      | none ↦ none
      | some cdj ↦ elim (x.crypto.base64 req.authenticator_data) [
        | none ↦ none
        | some ad ↦ elim (x.crypto.base64 req.signature) [
          | none ↦ none
          | some sig ↦ some (record {
            credential_id = id;
            client_data_json = cdj;
            authenticator_data = ad;
            signature = sig;
          })
        ]
      ]
    ]
  ]

  -- adminLogin, once the assertion has verified
  unfoldable pub log_in : Request → Passkey → ℕ → Site → Site × Answer
  log_in r p count s = (
    record s {
      admin = open_session r.now r.drawn s.admin;
      registry = set_passkey_sign_count r.written p.id count r.now s.registry;
    },
    opened r.drawn,
  )

  -- adminLogin, from takeChallenge on, for the passkey p with its credential
  unfoldable pub login_taken :
      RelyingParty → Request → Assertion → Passkey → Webauthn.Credential → Site → Site × Answer
  unfolding log_in
  login_taken rp r a p cred s =
      let (t, taken) = take_of x r a.client_data_json (codes "login") s in
      elim taken [
        | none ↦ (t, refused 403)
        | some ch ↦
            elim (verify_assertion x.crypto rp cred a.client_data_json a.authenticator_data
              a.signature ch) [ none ↦ (t, refused 403) | some count ↦ log_in r p count t ]
      ]

  -- adminLogin, from PasskeyByCredentialID on
  unfoldable pub login_known : RelyingParty → Request → Assertion → Site → Site × Answer
  unfolding login_taken
  login_known rp r a s = elim (passkey_by_credential_id (parses x) a.credential_id s.registry) [
    | none ↦ (s, refused 403)
    | some p ↦ elim (credential_of x p) [
      | none ↦ (s, refused 403)
      | some cred ↦ login_taken rp r a p cred s
    ]
  ]

  -- adminLogin
  unfoldable pub admin_login : RelyingParty → Request → Site → Site × Answer
  unfolding decoded login_known
  admin_login rp r s = elim (x.login_body r.body) [
    | none ↦ (s, refused 400)
    | some req ↦ elim (decoded req) [ none ↦ (s, refused 400) | some a ↦ login_known rp r a s ]
  ]

  -- adminSession, and then what a session may do
  unfoldable pub with_session : (Request → Site → Site × Answer) → Request → Site → Site × Answer
  with_session f r s =
      let (admin, live) = authed r.now r.cookie s.admin in
      let asked = record s { admin = admin } in
      let (t, answer) = f r asked in if live then (t, answer) else (asked, refused 403)

  -- adminSessionOnly's last part, with `do` given
  unfoldable pub on_id : (Text → Registry → Registry × Bool) → Request → Site → Site × Answer
  on_id f r s = elim (x.id_body r.body) [
    | none ↦ (s, refused 400)
    | some id ↦
        let (registry, ok) = f id s.registry in
        (record s { registry = registry }, if ok then done else refused 400)
  ]

  -- The two functions that admin gives to adminSessionOnly
  unfoldable pub remove_key : Request → Site → Site × Answer
  unfolding on_id
  remove_key r = on_id (λ id. remove_passkey r.written id r.now) r

  unfoldable pub revoke_device : Request → Site → Site × Answer
  unfolding on_id
  revoke_device r = on_id (λ id. revoke r.written id r.now) r

  -- The case `enroll` behind its test
  unfoldable pub enroll_link : Text → Request → Site → Site × Answer
  enroll_link origin r s =
      let url = origin ++ (codes "/enroll#" ++ r.drawn) in
      (
        record s { registry = mint_enrollment r.drawn r.now s.registry },
        elim (x.qr url) [ none ↦ refused 500 | some png ↦ secret r.drawn url png ],
      )

  -- adminPage
  unfoldable pub admin_page : Bool → Request → Site → Site × Answer
  admin_page configured r s =
      let (admin, live) = authed r.now r.cookie s.admin in
      let keys = list_passkeys (parses x) s.registry in
      if configured
      then (
        record s { admin = admin },
        shown (record {
          configured = true;
          bootstrap = not (has_passkeys s.registry);
          unlocked = live;
          backup_nag = nat_eq (length keys) 1;
          devices = if live then s.registry.order else [];
          passkeys = if live then keys else [];
        }),
      )
      else (
        s,
        shown (record {
          configured = false;
          bootstrap = false;
          unlocked = false;
          backup_nag = false;
          devices = [];
          passkeys = [];
        }),
      )

  -- A handler that first asks rp: without it, the area is not configured.
  unfoldable pub configured_by :
      Option RelyingParty
      → (RelyingParty → Request → Site → Site × Answer)
      → Request
      → Site
      → Site × Answer
  configured_by none f r s = (s, refused 404)
  configured_by (some rp) f r s = f rp r s

  -- The switch of admin on the rest of the path
  unfoldable pub route : Text → Option RelyingParty → Text → Request → Site → Site × Answer
  unfolding admin_login with_session remove_key revoke_device enroll_link configured_by
  route origin rp path r s =
      if path == codes "challenge"
      then configured_by rp (admin_challenge x) r s
      else if path == codes "passkey/register"
      then configured_by rp (admin_register x) r s
      else if path == codes "passkey/login"
      then configured_by rp admin_login r s
      else if path == codes "passkey/remove"
      then configured_by rp (λ p. with_session remove_key) r s
      else if path == codes "device/revoke"
      then configured_by rp (λ p. with_session revoke_device) r s
      else if path == codes "enroll"
      then configured_by rp (λ p. with_session (enroll_link origin)) r s
      else if path == codes "session/logout"
      then (record s { admin = logout r.cookie s.admin }, closed)
      else (s, refused 404)

  -- admin, for the relying party that rp gives
  unfoldable pub serve : Text → Option RelyingParty → Request → Site → Site × Answer
  unfolding admin_page route
  serve origin rp r s =
      let path = trim_prefix (codes "/") r.rest in
      if (r.method == codes "GET") && (path == [])
      then admin_page (is_some rp) r s
      else if not (r.method == codes "POST")
      then (s, refused 405)
      else route origin rp path r s
