-- ===== src/House/Admin/Opening.antt =====
-- internal/house/admin.go: how a session comes to be opened.
pub mod Once
use curtilage.Prelude.{
  ℕ, ◌+◌, ◌≡◌, ◌≢◌, refl, sym, ap, ◌∙◌, Bool, true, false, not, ◌&&◌, ◌||◌, List, [], ◌∷◌, ◌++◌,
  Option, none, some, Text, codes, if◌then◌else◌, ◌==◌, eq_text, Option-cases, inl, inr, by_option,
  by_test, length, ltb, ==_refl, map,
}
use curtilage.Prelude.Map.{Map, get, put, get-put}
use curtilage.Strings.{trim_space}
use curtilage.Webauthn.{RelyingParty, verify_assertion, verify_registration}
use curtilage.Webauthn
use curtilage.Webauthn.Ceremonies.{Asserted, verify_assertion-Asserted}
use curtilage.Devices.{Passkey, Registry, revoke, mint_enrollment}
use curtilage.Devices.Passkeys.{
  has_passkeys, passkey_by_credential_id, set_passkey_sign_count, add_passkey, remove_passkey,
}
use curtilage.House.Admin.{session_ttl, open_session, authed}
use curtilage.House.Admin.Requests.{
  Outside, Login, Request, Site, Page, Answer, admin_challenge, add_registered, register_taken,
  register_body, admin_register, take_of, parses, credential_of,
}
use curtilage.House.Admin.Routes.{Handlers, if_served}
use curtilage.House.Admin.Serve.{
  Assertion, decoded, log_in, login_taken, login_known, admin_login, with_session, on_id,
  remove_key, revoke_device, enroll_link, admin_page, serve,
}

-- If the answer opens a session, `Q` holds of the site and of the session's token.
module _ {κ} (Q : Site → Text → Type κ) where
  unfoldable pub IfOpened : Site × Answer → Type κ
  IfOpened a = (token : Text) → a.1 ≡ Answer.opened token → Q a.0 token

  -- The answers that open none
  other_answer :
      (a : Answer) → (s : Site) → ((token : Text) → a ≢ Answer.opened token) → IfOpened (s, a)
  unfolding IfOpened
  other_answer a s h token e = absurd (h token e)

  at_refused : (k : ℕ) (s : Site) → IfOpened (s, Answer.refused k)
  at_refused k s = other_answer (Answer.refused k) s (λ token e. cc)

  at_challenged :
      (key id : Text) (ids : List Text) (s : Site) → IfOpened (s, Answer.challenged key id ids)
  at_challenged key id ids s = other_answer (Answer.challenged key id ids) s (λ token e. cc)

  at_shown : (p : Page) (s : Site) → IfOpened (s, Answer.shown p)
  at_shown p s = other_answer (Answer.shown p) s (λ token e. cc)

  at_done : (s : Site) → IfOpened (s, Answer.done)
  at_done s = other_answer Answer.done s (λ token e. cc)

  at_opened :
      (x : Outside) (r : Request) (p : Passkey) (count : ℕ) (s : Site)
      → Q (log_in x r p count s).0 r.drawn
      → IfOpened (log_in x r p count s)
  unfolding IfOpened log_in
  at_opened x r p count s q token e = let d : r.drawn ≡ token = cc in rw (sym d) q

  module _ (x : Outside) where
    add_registered-IfOpened :
        (rp : RelyingParty) (r : Request) (name cdj att ch : Text) (s : Site)
        → IfOpened (add_registered x rp r name cdj att ch s)
    unfolding add_registered
    add_registered-IfOpened rp r name cdj att ch s =
        by_option IfOpened (verify_registration x.crypto rp cdj att ch) _ _ (at_refused 403 s)
          λ cred f.
            let added : Registry × Option Passkey =
              add_passkey (parses x) r.written r.drawn name
                (record { id = cred.id; cose = cred.cose; sign_count = cred.sign_count }) r.now
                s.registry in
            by_option (λ a. IfOpened (record s { registry = added.0 }, a)) added.1 _ _
              (at_refused 400 _) λ p g. at_done _

    register_body-IfOpened :
        (rp : RelyingParty) (r : Request) (s : Site) → IfOpened (register_body x rp r s)
    unfolding register_body register_taken
    register_body-IfOpened rp r s =
        by_option IfOpened (x.registration_body r.body) _ _ (at_refused 400 s) λ req f.
          by_test IfOpened _ _ _ (at_refused 400 s) (
            by_option IfOpened (x.crypto.base64 req.client_data_json) _ _ (at_refused 400 s)
              λ cdj g.
                by_option IfOpened (x.crypto.base64 req.attestation_object) _ _ (at_refused 400 s)
                  λ att h.
                    by_option IfOpened (take_of x r cdj (codes "register") s).1 _ _
                      (at_refused 403 _)
                      λ ch i. add_registered-IfOpened rp r (trim_space req.name) cdj att ch _)

    admin_register-IfOpened :
        (rp : RelyingParty) (r : Request) (s : Site) → IfOpened (admin_register x rp r s)
    unfolding admin_register
    admin_register-IfOpened rp r s =
        let asked : Site = record s { admin = (authed r.now r.cookie s.admin).0 } in
        by_test IfOpened (has_passkeys s.registry) _ _
          (by_test IfOpened (authed r.now r.cookie s.admin).1 _ _
            (register_body-IfOpened rp r asked) (at_refused 403 asked))
          (register_body-IfOpened rp r s)

    admin_challenge-IfOpened :
        (rp : RelyingParty) (r : Request) (s : Site) → IfOpened (admin_challenge x rp r s)
    unfolding admin_challenge
    admin_challenge-IfOpened rp r s =
        by_option IfOpened (x.purpose_body r.body) _ _ (at_refused 400 s) λ purpose f.
          by_test IfOpened (not (purpose == codes "register") && not (purpose == codes "login")) _ _
            (at_refused 400 s) (at_challenged _ _ _ _)

    on_id-IfOpened :
        (f : Text → Registry → Registry × Bool) (r : Request) (s : Site) → IfOpened (on_id x f r s)
    unfolding on_id
    on_id-IfOpened f r s = by_option IfOpened (x.id_body r.body) _ _ (at_refused 400 s) λ id g.
        by_test (λ a. IfOpened (record s { registry = (f id s.registry).0 }, a)) (f id s.registry).1
          _ _ (at_done _) (at_refused 400 _)

    enroll_link-IfOpened :
        (origin : Text) (r : Request) (s : Site) → IfOpened (enroll_link x origin r s)
    unfolding enroll_link
    enroll_link-IfOpened origin r s =
        let url : Text = origin ++ (codes "/enroll#" ++ r.drawn) in
        let t : Site = record s { registry = mint_enrollment r.drawn r.now s.registry } in
        by_option (λ a. IfOpened (t, a)) (x.qr url) (Answer.refused 500)
          (λ png. Answer.secret r.drawn url png) (at_refused 500 t)
          (λ png g. other_answer (Answer.secret r.drawn url png) t (λ token e. cc))

    with_session-IfOpened :
        (f : Request → Site → Site × Answer) (r : Request) (s : Site)
        → ((t : Site) → IfOpened (f r t))
        → IfOpened (with_session x f r s)
    unfolding with_session
    with_session-IfOpened f r s h =
        let asked : Site = record s { admin = (authed r.now r.cookie s.admin).0 } in
        by_test IfOpened (authed r.now r.cookie s.admin).1 _ _ (h asked) (at_refused 403 asked)

    -- No handler but that of a login opens a session.
    pub only_login :
        (origin : Text) (of : Option RelyingParty) (r : Request) (s : Site)
        → ((rp : RelyingParty) → of ≡ some rp → IfOpened (admin_login x rp r s))
        → IfOpened (serve x origin of r s)
    unfolding remove_key revoke_device admin_page
    only_login origin of r s h = if_served x origin of r s IfOpened (record {
      refusing = λ status. at_refused status s;
      paging = λ b. by_test IfOpened b _ _ (at_shown _ _) (at_shown _ s);
      challenging = λ rp. admin_challenge-IfOpened rp r s;
      registering = λ rp. admin_register-IfOpened rp r s;
      logging_in = h;
      removing =
          with_session-IfOpened (remove_key x) r s
            λ t. on_id-IfOpened (λ id. remove_passkey r.written id r.now) r t;
      revoking =
          with_session-IfOpened (revoke_device x) r s
            λ t. on_id-IfOpened (λ id. revoke r.written id r.now) r t;
      enrolling = with_session-IfOpened (enroll_link x origin) r s (enroll_link-IfOpened origin r);
      locking = other_answer Answer.closed _ (λ token e. cc);
    })

-- What a login rests on, at the site it finds
pub record LoggedIn (x : Outside) (rp : RelyingParty) (r : Request) (s : Site) : Type 0 where
  pub login : Login
  pub assertion : Assertion
  pub passkey : Passkey
  pub credential : Webauthn.Credential
  pub challenge : Text
  pub count : ℕ
  pub read : x.login_body r.body ≡ some login
  pub clear : decoded x login ≡ some assertion
  pub known : passkey_by_credential_id (parses x) assertion.credential_id s.registry ≡ some passkey
  pub restored : credential_of x passkey ≡ some credential
  pub taken : (take_of x r assertion.client_data_json (codes "login") s).1 ≡ some challenge
  pub accepted :
      verify_assertion x.crypto rp credential assertion.client_data_json
        assertion.authenticator_data assertion.signature challenge
      ≡ some count

-- The site after it
abbrev pub after_login :
    (x : Outside) (rp : RelyingParty) (r : Request) (s : Site) → LoggedIn x rp r s → Site
after_login x rp r s l =
    (log_in x r l.passkey l.count (take_of x r l.assertion.client_data_json (codes "login") s).0).0

pub admin_login-IfOpened {κ} :
    (Q : Site → Text → Type κ) (x : Outside) (rp : RelyingParty) (r : Request) (s : Site)
    → ((l : LoggedIn x rp r s) → Q (after_login x rp r s l) r.drawn)
    → IfOpened Q (admin_login x rp r s)
unfolding admin_login login_known login_taken
admin_login-IfOpened Q x rp r s h =
    by_option (IfOpened Q) (x.login_body r.body) _ _ (at_refused Q 400 s) λ login e1.
      by_option (IfOpened Q) (decoded x login) _ _ (at_refused Q 400 s) λ a e2.
        by_option (IfOpened Q) (passkey_by_credential_id (parses x) a.credential_id s.registry) _ _
          (at_refused Q 403 s)
          λ p e3. by_option (IfOpened Q) (credential_of x p) _ _ (at_refused Q 403 s) λ cred e4.
            by_option (IfOpened Q) (take_of x r a.client_data_json (codes "login") s).1 _ _
              (at_refused Q 403 _)
              λ ch e5.
                by_option (IfOpened Q) (verify_assertion x.crypto rp cred _ _ _ ch) _ _
                  (at_refused Q 403 _)
                  λ count e6. at_opened Q x r p count _ (
                    h (record {
                      login = login;
                      assertion = a;
                      passkey = p;
                      credential = cred;
                      challenge = ch;
                      count = count;
                      read = e1;
                      clear = e2;
                      known = e3;
                      restored = e4;
                      taken = e5;
                      accepted = e6;
                    }))
