-- ===== src/House/Admin/Replay.antt =====
-- internal/house/admin.go: a ceremony's challenge over the requests that come after it.
use curtilage.Prelude.{
  ℕ, ◌≡◌, ◌≢◌, refl, ap, ◌∙◌, Bool, List, [], ◌∷◌, Option, none, some, Text, codes, ◌==◌, eq_text,
  Bool-cases, inl, inr, by_option, by_test, All, keep_if, ==_refl, ne→==,
}
use curtilage.Prelude.Map.{Map, get, del, get-put, get-del}
use curtilage.Strings.{trim_space}
use curtilage.Webauthn.{RelyingParty, verify_assertion, verify_registration}
use curtilage.Devices.{Registry, revoke}
use curtilage.Devices.Passkeys.{has_passkeys, passkey_by_credential_id, remove_passkey}
use curtilage.House.Admin.{
  Challenge, AdminState, authed, mint_challenge, take_challenge, open_session, logout, is_live,
}
use curtilage.House.Admin.Requests.{
  Outside, Request, Site, Answer, admin_challenge, add_registered, register_taken, register_body,
  admin_register, take_of, parses, credential_of,
}
use curtilage.House.Admin.Routes.{Handlers, if_served}
use curtilage.House.Admin.Serve.{
  Assertion, decoded, log_in, login_taken, login_known, admin_login, with_session, on_id,
  remove_key, revoke_device, enroll_link, admin_page, serve,
}

-- The requests one after another; the answers are dropped.
unfoldable pub run : Outside → Text → Option RelyingParty → List Request → Site → Site
run x origin rp [] s = s
run x origin rp (r ∷ rs) s = run x origin rp rs (serve x origin rp r s).0

get-keep_if-none :
    (test : Text × Challenge → Bool) (n : Text) (m : Map Text Challenge)
    → get n m ≡ none
    → get n (keep_if test m) ≡ none
get-keep_if-none test n [] e = refl
get-keep_if-none test n ((j, c) ∷ m) e = elim (Bool-cases (j == n)) [
  | inl t ↦ let h : some c ≡ none = rw t at e in cc
  | inr f ↦
      let rest : get n (keep_if test m) ≡ none = get-keep_if-none test n m (rw f at e) in
      elim (Bool-cases (test (j, c))) [ inl t ↦ rw (t, f) rest | inr u ↦ rw u rest ]
]

authed_challenges :
    (now : ℕ) (cookie : Option Text) (s : AdminState)
    → (authed now cookie s).0.challenges ≡ s.challenges
unfolding authed
authed_challenges now none s = refl
authed_challenges now (some token) s =
    let same : AdminState × Bool → Type 0 = λ a. a.0.challenges ≡ s.challenges in
    by_option same (get token s.sessions) _ _ refl λ expires e. by_test same _ _ _ refl refl

logout_challenges :
    (cookie : Option Text) (s : AdminState) → (logout cookie s).challenges ≡ s.challenges
unfolding logout
logout_challenges none s = refl
logout_challenges (some token) s = refl

-- The challenge `n` is not there.
module _ (n : Text) where
  unfoldable pub IsGone : AdminState → Type 0
  IsGone s = get n s.challenges ≡ none

  mint_challenge-IsGone :
      (now : ℕ) (key purpose : Text) (s : AdminState)
      → key ≢ n
      → IsGone s
      → IsGone (mint_challenge now key purpose s)
  unfolding IsGone mint_challenge
  mint_challenge-IsGone now key purpose s d g =
      get-put key n _ _ ∙ rw (ne→== key n d) (get-keep_if-none _ n s.challenges g)

  module _ (x : Outside) where
    Goes : Site × Answer → Type 0
    Goes a = IsGone a.0.admin

    del-IsGone :
        (name : Text) (s : AdminState)
        → IsGone s
        → IsGone (record s { challenges = del name s.challenges })
    unfolding IsGone
    del-IsGone name s g =
        get-del name n s.challenges ∙ by_test (λ o. o ≡ none) (name == n) none _ refl g

    take_of-IsGone :
        (r : Request) (cdj purpose : Text) (s : Site)
        → IsGone s.admin
        → IsGone (take_of x r cdj purpose s).0.admin
    unfolding take_of take_challenge
    take_of-IsGone r cdj purpose s g =
        by_option {B = AdminState × Option Text} (λ a. IsGone a.0) (x.challenge_of cdj)
          (s.admin, none) _ g λ name e. del-IsGone name s.admin g

    add_registered-Goes :
        (rp : RelyingParty) (r : Request) (name cdj att ch : Text) (s : Site)
        → IsGone s.admin
        → Goes (add_registered x rp r name cdj att ch s)
    unfolding Goes add_registered
    add_registered-Goes rp r name cdj att ch s g =
        by_option Goes (verify_registration x.crypto rp cdj att ch) _ _ g λ cred e. g

    register_body-Goes :
        (rp : RelyingParty) (r : Request) (s : Site)
        → IsGone s.admin
        → Goes (register_body x rp r s)
    unfolding Goes register_body register_taken
    register_body-Goes rp r s g = by_option Goes (x.registration_body r.body) _ _ g λ req e.
        by_test Goes _ _ _ g (
          by_option Goes (x.crypto.base64 req.client_data_json) _ _ g λ cdj f.
            by_option Goes (x.crypto.base64 req.attestation_object) _ _ g λ att h.
              let t : Site = (take_of x r cdj (codes "register") s).0 in
              let gone : IsGone t.admin = take_of-IsGone r cdj (codes "register") s g in
              by_option Goes (take_of x r cdj (codes "register") s).1 _ _ gone
                λ ch i. add_registered-Goes rp r (trim_space req.name) cdj att ch t gone)

    login_known-Goes :
        (rp : RelyingParty) (r : Request) (a : Assertion) (s : Site)
        → IsGone s.admin
        → Goes (login_known x rp r a s)
    unfolding Goes IsGone login_known login_taken log_in open_session
    login_known-Goes rp r a s g =
        by_option Goes (passkey_by_credential_id (parses x) a.credential_id s.registry) _ _ g λ p e.
          by_option Goes (credential_of x p) _ _ g λ cred f.
            let t : Site = (take_of x r a.client_data_json (codes "login") s).0 in
            let gone : IsGone t.admin = take_of-IsGone r a.client_data_json (codes "login") s g in
            by_option Goes (take_of x r a.client_data_json (codes "login") s).1 _ _ gone λ ch h.
              by_option Goes (verify_assertion x.crypto rp cred _ _ _ ch) _ _ gone λ count i. gone

    admin_login-Goes :
        (rp : RelyingParty) (r : Request) (s : Site) → IsGone s.admin → Goes (admin_login x rp r s)
    unfolding Goes admin_login
    admin_login-Goes rp r s g =
        by_option Goes (x.login_body r.body) _ _ g
          λ req e. by_option Goes (decoded x req) _ _ g λ a f. login_known-Goes rp r a s g

    authed-IsGone : (r : Request) (s : AdminState) → IsGone s → IsGone (authed r.now r.cookie s).0
    unfolding IsGone
    authed-IsGone r s g = ap (get n) (authed_challenges r.now r.cookie s) ∙ g

    admin_register-Goes :
        (rp : RelyingParty) (r : Request) (s : Site)
        → IsGone s.admin
        → Goes (admin_register x rp r s)
    unfolding Goes admin_register
    admin_register-Goes rp r s g =
        let asked : Site = record s { admin = (authed r.now r.cookie s.admin).0 } in
        let gone : IsGone asked.admin = authed-IsGone r s.admin g in
        by_test Goes (has_passkeys s.registry) _ _
          (by_test Goes _ _ _ (register_body-Goes rp r asked gone) gone)
          (register_body-Goes rp r s g)

    admin_challenge-Goes :
        (rp : RelyingParty) (r : Request) (s : Site)
        → r.drawn ≢ n
        → IsGone s.admin
        → Goes (admin_challenge x rp r s)
    unfolding Goes admin_challenge
    admin_challenge-Goes rp r s d g =
        by_option Goes (x.purpose_body r.body) _ _ g λ purpose e.
          by_test Goes _ _ _ g (mint_challenge-IsGone r.now r.drawn purpose s.admin d g)

    with_session-Goes :
        (f : Request → Site → Site × Answer) (r : Request) (s : Site)
        → ((t : Site) → IsGone t.admin → Goes (f r t))
        → IsGone s.admin
        → Goes (with_session x f r s)
    unfolding Goes with_session
    with_session-Goes f r s h g =
        let asked : Site = record s { admin = (authed r.now r.cookie s.admin).0 } in
        let gone : IsGone asked.admin = authed-IsGone r s.admin g in
        by_test Goes _ _ _ (h asked gone) gone

    on_id-Goes :
        (f : Text → Registry → Registry × Bool) (r : Request) (s : Site)
        → IsGone s.admin
        → Goes (on_id x f r s)
    unfolding Goes on_id
    on_id-Goes f r s g = by_option Goes (x.id_body r.body) _ _ g λ id e. g

    handlers-Goes :
        (origin : Text) (of : Option RelyingParty) (r : Request) (s : Site)
        → r.drawn ≢ n
        → IsGone s.admin
        → Handlers x origin of r s Goes
    unfolding Goes IsGone admin_page remove_key revoke_device enroll_link
    handlers-Goes origin of r s d g = record {
      refusing = λ status. g;
      paging = λ b. by_test Goes b _ _ (authed-IsGone r s.admin g) g;
      challenging = λ rp. admin_challenge-Goes rp r s d g;
      registering = λ rp. admin_register-Goes rp r s g;
      logging_in = λ rp e. admin_login-Goes rp r s g;
      removing =
          with_session-Goes (remove_key x) r s
            (λ t h. on_id-Goes (λ id. remove_passkey r.written id r.now) r t h) g;
      revoking =
          with_session-Goes (revoke_device x) r s
            (λ t h. on_id-Goes (λ id. revoke r.written id r.now) r t h) g;
      enrolling = with_session-Goes (enroll_link x origin) r s (λ t h. h) g;
      locking = ap (get n) (logout_challenges r.cookie s.admin) ∙ g;
    }

    pub run-IsGone :
        (origin : Text) (rp : Option RelyingParty) (rs : List Request) (s : Site)
        → All (λ r. r.drawn ≢ n) rs
        → IsGone s.admin
        → IsGone (run x origin rp rs s).admin
    unfolding run Goes
    run-IsGone origin rp [] s d g = g
    run-IsGone origin rp (r ∷ rs) s d g =
        run-IsGone origin rp rs _ d.1
          (if_served x origin rp r s Goes (handlers-Goes origin rp r s d.0 g))

    pub taken-IsGone :
        (r : Request) (cdj purpose : Text) (s : Site)
        → x.challenge_of cdj ≡ some n
        → IsGone (take_of x r cdj purpose s).0.admin
    unfolding IsGone take_of take_challenge
    taken-IsGone r cdj purpose s e =
        rw (take_challenge, e) (get-del n n s.admin.challenges ∙ rw (==_refl n) refl)

    pub gone_refused :
        (r : Request) (cdj purpose : Text) (s : Site)
        → x.challenge_of cdj ≡ some n
        → IsGone s.admin
        → (take_of x r cdj purpose s).1 ≡ none
    unfolding IsGone take_of take_challenge is_live
    gone_refused r cdj purpose s e g = rw (take_challenge, e, g) refl
