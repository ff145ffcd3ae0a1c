-- ===== src/Examples/HouseRuns.antt =====
-- Runs of internal/house: a caller behind two proxies, and a login with the passkey of
-- WebauthnRuns.
use curtilage.Prelude.{
  ℕ, ◌≡◌, ◌≢◌, refl, true, false, List, [], ◌∷◌, ◌++◌, map, Option, none, some, Text, codes, nat_eq,
  eq_text,
}
use curtilage.Strings.{trim_prefix, split, trim_space}
use curtilage.Webauthn.{
  verify_assertion, check_auth_data, parse_cose_key, parse_cose_prefix, parse_cose_prefix,
}
use curtilage.Cbor.{decode}
use curtilage.Devices.{Passkey}
use curtilage.Devices.Passkeys.{passkey_by_credential_id, has_passkeys}
use curtilage.Examples.WebauthnRuns.{crypto, home, cose, answer}
use curtilage.House.Caller.{Net, in_any, peer_of, allowed}
use curtilage.House.Caller.Chain.{flatten, allowed_seen}
use curtilage.House.Admin.{authed, take_challenge}
use curtilage.House.Admin.Requests.{
  Outside, Login, Request, Site, Answer, parses, credential_of, take_of,
}
use curtilage.House.Admin.Serve.{Assertion, serve, admin_login, decoded}
use curtilage.House.Admin.Locked.{serve-SameAccess, SameAccess}
use curtilage.House.Admin.Replay.{run}
use curtilage.House.Admin.Opening.Once.{serve-IsBacked, IsBacked, Names, login_once}

-- Addresses are numbers here, written with as many letters, and a net is one address.
abbrev letters : Text → Option ℕ
letters [] = none
letters (c ∷ t) = some c

abbrev net : Net ℕ ℕ
net = record { parse_ip = letters; split_host_port = λ t. some t; holds = nat_eq }

-- The proxies are `p` and `q`; the house is `h`.
peer : peer_of net (codes "p") ≡ some 112
unfolding peer_of
peer = refl

trusted : in_any net 112 (112 ∷ 113 ∷ []) ≡ true
unfolding in_any
trusted = refl

-- Each proxy has added a line of its own.
abbrev lines : List Text
lines = codes "h" ∷ codes "h,g" ∷ codes " q" ∷ []

parts : flatten (map (split 44) lines) ≡ (codes "h" ∷ codes "h" ∷ []) ++ codes "g" ∷ codes " q" ∷ []
unfolding split
parts = refl

hop : letters (trim_space (codes " q")) ≡ some 113
unfolding trim_space
hop = refl

client : letters (trim_space (codes "g")) ≡ some 103
unfolding trim_space
client = refl

free : in_any net 103 (112 ∷ 113 ∷ []) ≡ false
unfolding in_any
free = refl

second_proxy : in_any net 113 (112 ∷ 113 ∷ []) ≡ true
unfolding in_any
second_proxy = refl

allowed_seen_example :
    allowed net (104 ∷ []) (112 ∷ 113 ∷ []) (codes "p") lines ≡ in_any net 103 (104 ∷ [])
allowed_seen_example =
    allowed_seen net (112 ∷ 113 ∷ []) (104 ∷ []) (codes "p") 112 103 lines
      (codes "h" ∷ codes "h" ∷ []) (codes " q" ∷ []) (codes "g") peer trusted parts (client, free)
      ((113, hop, second_proxy), tt)

abbrev fields : Login
fields = record {
  credential_id = 9 ∷ 9 ∷ [];
  client_data_json = codes "webauthn.get";
  authenticator_data = answer;
  signature = codes "sig";
}

abbrev assertion : Assertion
assertion = record {
  credential_id = 9 ∷ 9 ∷ [];
  client_data_json = codes "webauthn.get";
  authenticator_data = answer;
  signature = codes "sig";
}

abbrev outside : Outside
outside = record {
  crypto = crypto;
  challenge_of = λ t. some (codes "dare");
  encode = λ t. t;
  purpose_body = λ t. some t;
  id_body = λ t. some t;
  registration_body = λ t. none;
  login_body = λ t. some fields;
  qr = λ t. none;
}

abbrev key : Passkey
key = record {
  id = codes "k1";
  name = codes "phone";
  credential_id = 9 ∷ 9 ∷ [];
  public_key = cose;
  sign_count = 5;
  registered_at = 1;
}

abbrev site : Site
site = record {
  admin = record {
    sessions = [];
    challenges = (codes "dare", record { purpose = codes "login"; expires = 500 }) ∷ [];
  };
  registry = record {
    persists = false;
    order = [];
    passkeys = key ∷ [];
    pending = [];
    saved = 0;
    disk = ([], []);
  };
}

abbrev request : Text → Text → ℕ → Request
request rest drawn now = record {
  method = codes "POST";
  rest = rest;
  cookie = none;
  body = codes "login";
  drawn = drawn;
  now = now;
  written = true;
}

abbrev login : Request
login = request (codes "/passkey/login") (codes "token") 100

opens :
    (serve outside (codes "https://home") (some home) login site).1 ≡ Answer.opened (codes "token")
unfolding serve admin_login verify_assertion check_auth_data parse_cose_key parse_cose_prefix decode
    passkey_by_credential_id parses credential_of take_of take_challenge trim_prefix
opens = refl

serve-IsBacked_example :
    IsBacked outside
      (some home)
      login
      site
      (serve outside (codes "https://home") (some home) login site).0
      (codes "token")
serve-IsBacked_example =
    serve-IsBacked outside (codes "https://home") (some home) login site (codes "token") opens

shut : has_passkeys site.registry ≡ true
unfolding has_passkeys
shut = refl

outside_session : (authed 100 none site.admin).1 ≡ false
unfolding authed
outside_session = refl

abbrev revocation : Request
revocation = request (codes "/device/revoke") (codes "x") 100

serve-SameAccess_example :
    SameAccess site.registry
      (serve outside (codes "https://home") (some home) revocation site).0.registry
serve-SameAccess_example =
    serve-SameAccess outside (codes "https://home") (some home) revocation site shut outside_session

abbrev between : List Request
between = request (codes "/challenge") (codes "other") 110 ∷ []

named : Names outside login (codes "dare")
unfolding decoded
named = (fields, assertion, refl, refl, refl)

login_once_example :
    (serve outside
      (codes "https://home")
      (some home)
      (request (codes "/passkey/login") (codes "token2") 120)
      (run outside
        (codes "https://home")
        (some home)
        between
        (serve outside (codes "https://home") (some home) login site).0)).1
    ≢ Answer.opened (codes "token2")
login_once_example =
    login_once outside (codes "https://home") (some home) login
      (request (codes "/passkey/login") (codes "token2") 120) between site (codes "dare")
      (codes "token") (codes "token2") named named opens ((λ e. cc), tt)
