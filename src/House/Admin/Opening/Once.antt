-- ===== src/House/Admin/Opening/Once.antt =====
-- internal/house/admin.go: what stands behind an open session, and that it stands once only.
use curtilage.Prelude.{
  ℕ, ◌≡◌, ◌≤◌, refl, true, List, Option, none, some, Text, codes, eq_text, arith, IfSome,
  IfSome-any, IfSome-get, by_option, ◌≢◌, All, Bool-cases, inl, inr, text_eq_iff,
}
use curtilage.Prelude.Map.{get}
use curtilage.Webauthn.{RelyingParty}
use curtilage.Webauthn.Ceremonies.{Asserted, verify_assertion-Asserted}
use curtilage.House.Admin.{open_session, Challenge, AdminState, is_live, take_challenge}
use curtilage.House.Admin.Requests.{Login, Outside, Request, Site, Answer, take_of}
use curtilage.House.Admin.Serve.{Assertion, decoded, log_in, serve}
use curtilage.House.Admin.Opening.{
  IfOpened, only_login, LoggedIn, after_login, admin_login-IfOpened,
}
use curtilage.House.Admin.Replay.{run, IsGone, run-IsGone, taken-IsGone, gone_refused}

-- The client data names a challenge that the site minted for a login, and that has not expired.
abbrev pub IsMinted : Outside → Request → Site → Text → Type 0
IsMinted x r s client_data =
    (name : Text) × (c : Challenge) × (x.challenge_of client_data ≡ some name)
    × (get name s.admin.challenges ≡ some c)
    × (c.purpose ≡ codes "login")
    × (r.now ≤ c.expires)

is_live_lem :
    (now : ℕ) (purpose : Text) (o : Option Challenge)
    → is_live now purpose o ≡ true
    → (c : Challenge) × (o ≡ some c) × (c.purpose ≡ purpose) × (now ≤ c.expires)
unfolding is_live
is_live_lem now purpose none e = cc
is_live_lem now purpose (some c) e =
    (c, refl, ground (arith, e, text_eq_iff c.purpose purpose), ground (arith, e))

take_of-IsMinted :
    (x : Outside) (r : Request) (s : Site) (client_data : Text)
    → IfSome (λ ch. IsMinted x r s client_data) (take_of x r client_data (codes "login") s).1
unfolding take_of take_challenge
take_of-IsMinted x r s client_data =
    let Minted : Text → Type 0 = λ ch. IsMinted x r s client_data in
    by_option {B = AdminState × Option Text} (λ a. IfSome Minted a.1) (x.challenge_of client_data)
      (s.admin, none) _ tt
      λ name e. elim (Bool-cases (is_live r.now (codes "login") (get name s.admin.challenges))) [
        | inl t ↦
            let (c, found, purpose, soon) =
              is_live_lem r.now (codes "login") (get name s.admin.challenges) t in
            rw t (IfSome-any Minted (x.crypto.base64 name) λ ch. (name, c, e, found, purpose, soon))
        | inr f ↦ rw f tt
      ]

-- What a session with that token, at the site `t`, rests on
abbrev pub IsBacked : Outside → Option RelyingParty → Request → Site → Site → Text → Type 0
IsBacked x of r s t token =
    (rp : RelyingParty) × (l : LoggedIn x rp r s) × (of ≡ some rp)
    × IsMinted x r s l.assertion.client_data_json
    × Asserted x.crypto rp l.credential l.assertion.client_data_json l.assertion.authenticator_data
        l.assertion.signature l.challenge l.count
    × (token ≡ r.drawn)
    × (t ≡ after_login x rp r s l)

-- An answer that opens a session is that of a login: with a registered passkey, whose stored key
-- verifies the signature of an assertion for this relying party, with the user present and verified
-- and with a counter that goes up if it is in use, over a challenge that was minted for a login and
-- has not expired. The session's token is the one drawn, and the site is as the login leaves it.
pub serve-IsBacked :
    (x : Outside) (origin : Text) (of : Option RelyingParty) (r : Request) (s : Site) (token : Text)
    → (serve x origin of r s).1 ≡ Answer.opened token
    → IsBacked x of r s (serve x origin of r s).0 token
unfolding IfOpened
serve-IsBacked x origin of r s token e =
    only_login (IsBacked x of r s) x origin of r s
      (λ rp f. admin_login-IfOpened (IsBacked x of r s) x rp r s λ l. (
        rp,
        l,
        f,
        IfSome-get (λ ch. IsMinted x r s l.assertion.client_data_json) _ l.challenge
            (take_of-IsMinted x r s l.assertion.client_data_json) l.taken,
        verify_assertion-Asserted x.crypto rp l.credential _ _ _ l.challenge l.count l.accepted,
        refl,
        refl,
      ))
      token e

-- The request's body is a login whose client data names the challenge `n`.
abbrev pub Names : Outside → Request → Text → Type 0
Names x r n =
    (login : Login) × (a : Assertion) × (x.login_body r.body ≡ some login)
    × (decoded x login ≡ some a)
    × (x.challenge_of a.client_data_json ≡ some n)

named :
    (x : Outside) (rp : RelyingParty) (r : Request) (s : Site) (n : Text) (l : LoggedIn x rp r s)
    → Names x r n
    → x.challenge_of l.assertion.client_data_json ≡ some n
named x rp r s n l (login, a, read, clear, name) =
    let same_login : login ≡ l.login = let e = l.read in cc in
    let same : a ≡ l.assertion = let e = l.clear in cc in rw same at name

after_login-IsGone :
    (x : Outside) (rp : RelyingParty) (r : Request) (s : Site) (n : Text) (l : LoggedIn x rp r s)
    → Names x r n
    → IsGone n (after_login x rp r s l).admin
unfolding IsGone log_in open_session
after_login-IsGone x rp r s n l names =
    taken-IsGone n x r l.assertion.client_data_json (codes "login") s (named x rp r s n l names)

login-IsGone :
    (x : Outside) (origin : Text) (of : Option RelyingParty) (r : Request) (s : Site)
    (n token : Text)
    → Names x r n
    → (serve x origin of r s).1 ≡ Answer.opened token
    → IsGone n (serve x origin of r s).0.admin
unfolding IfOpened
login-IsGone x origin of r s n token names e =
    only_login (λ t tok. IsGone n t.admin) x origin of r s
      (λ rp f.
        admin_login-IfOpened (λ t tok. IsGone n t.admin) x rp r s
          λ l. after_login-IsGone x rp r s n l names)
      token e

-- A login cannot be replayed: after one that opened a session, and whatever requests came after it,
-- none of which drew that challenge anew, no request that names the same challenge opens a session.
pub login_once :
    (x : Outside) (origin : Text) (of : Option RelyingParty) (login again : Request)
    (rs : List Request) (s : Site) (n token later : Text)
    → Names x login n
    → Names x again n
    → (serve x origin of login s).1 ≡ Answer.opened token
    → All (λ r. r.drawn ≢ n) rs
    → (serve x origin of again (run x origin of rs (serve x origin of login s).0)).1
      ≢ Answer.opened later
unfolding IfOpened
login_once x origin of login again rs s n token later first second e d f =
    let t : Site = run x origin of rs (serve x origin of login s).0 in
    let gone : IsGone n t.admin =
      run-IsGone n x origin of rs _ d (login-IsGone x origin of login s n token first e) in
    only_login (λ u tok. ⊥) x origin of again t
      (λ rp g.
        admin_login-IfOpened (λ u tok. ⊥) x rp again t
          λ l.
            let none_left =
              gone_refused n x again l.assertion.client_data_json (codes "login") t
                (named x rp again t n l second) gone in
            let taken = l.taken in cc)
      later f
