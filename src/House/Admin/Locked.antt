-- ===== src/House/Admin/Locked.antt =====
-- internal/house/admin.go: what a request without a session cannot change.
use curtilage.Prelude.{
  ℕ, ◌≡◌, refl, ap, Bool, true, false, not, List, [], ◌∷◌, Option, Text, codes, map, ◌==◌, eq_text,
  by_option, by_test, IfSome, IfSome-if, IfSome-bind, IfSome-get,
}
use curtilage.Webauthn.{RelyingParty, verify_assertion}
use curtilage.Webauthn
use curtilage.Devices.{Passkey, Registry, save}
use curtilage.Devices.Passkeys.{
  has_passkeys, set_count, set_passkey_sign_count, passkey_by_credential_id,
}
use curtilage.House.Admin.{authed}
use curtilage.House.Admin.Requests.{
  Outside, Request, Site, Answer, admin_challenge, admin_register, take_of, parses, credential_of,
}
use curtilage.House.Admin.Routes.{Handlers, if_served}
use curtilage.House.Admin.Serve.{
  decoded, remove_key, revoke_device, Assertion, log_in, login_taken, login_known, admin_login,
  with_session, admin_page, serve, enroll_link,
}

-- What a passkey is good for: its id, its credential and its key.
abbrev pub Lock : Type 0
Lock = Text × Text × Text

abbrev pub lock_of : Passkey → Lock
lock_of p = (p.id, p.credential_id, p.public_key)

-- The same devices, the same enrollment secrets and the same passkeys, but for their counters.
abbrev pub SameAccess : Registry → Registry → Type 0
SameAccess r t =
    (t.order ≡ r.order)
    × (t.pending ≡ r.pending)
    × (map lock_of t.passkeys ≡ map lock_of r.passkeys)

save_access :
    (ok : Bool) (now : ℕ) (r : Registry) (ps : List Passkey)
    → map lock_of ps ≡ map lock_of r.passkeys
    → SameAccess r (save ok now (record r { passkeys = ps })).0
unfolding save
save_access ok now r ps e =
    let there : (t : Registry × Bool) → Type 0 = λ t. SameAccess r t.0 in
    by_test there (not r.persists) _ _ (refl, refl, e)
      (by_test there ok _ _ (refl, refl, e) (refl, refl, e))

SameLocks : List Passkey → List Passkey → Type 0
SameLocks ps qs = map lock_of qs ≡ map lock_of ps

set_count-SameLocks :
    (id : Text) (count : ℕ) (ps : List Passkey) → IfSome (SameLocks ps) (set_count id count ps)
unfolding set_count SameLocks
set_count-SameLocks id count [] = tt
set_count-SameLocks id count (p ∷ ps) = IfSome-if (SameLocks (p ∷ ps)) (p.id == id) _ _ refl (
    IfSome-bind (SameLocks (p ∷ ps)) (set_count id count ps) _ λ qs e.
      ap (λ ls. lock_of p ∷ ls)
        (IfSome-get (SameLocks ps) _ qs (set_count-SameLocks id count ps) e))

set_passkey_sign_count_access :
    (ok : Bool) (id : Text) (count now : ℕ) (r : Registry)
    → SameAccess r (set_passkey_sign_count ok id count now r)
unfolding set_passkey_sign_count SameLocks
set_passkey_sign_count_access ok id count now r =
    by_option (SameAccess r) (set_count id count r.passkeys) r _ (refl, refl, refl)
      λ ps e.
        save_access ok now r ps
          (IfSome-get (SameLocks r.passkeys) _ ps (set_count-SameLocks id count r.passkeys) e)

-- The answer leaves the registry's access as the site had it.
abbrev Keeps : Site → Site × Answer → Type 0
Keeps s a = SameAccess s.registry a.0.registry

module _ (x : Outside) where
  log_in-Keeps : (r : Request) (p : Passkey) (count : ℕ) (s : Site) → Keeps s (log_in x r p count s)
  unfolding log_in
  log_in-Keeps r p count s = set_passkey_sign_count_access r.written p.id count r.now s.registry

  login_taken-Keeps :
      (rp : RelyingParty) (r : Request) (a : Assertion) (p : Passkey) (cred : Webauthn.Credential)
      (s : Site)
      → Keeps s (login_taken x rp r a p cred s)
  unfolding login_taken take_of
  login_taken-Keeps rp r a p cred s =
      let t : Site = (take_of x r a.client_data_json (codes "login") s).0 in
      by_option (Keeps s) (take_of x r a.client_data_json (codes "login") s).1 _ _
        (refl, refl, refl)
        λ ch e.
          by_option (Keeps s) (verify_assertion x.crypto rp cred _ _ _ ch) _ _ (refl, refl, refl)
            λ count f. log_in-Keeps r p count t

  admin_login-Keeps : (rp : RelyingParty) (r : Request) (s : Site) → Keeps s (admin_login x rp r s)
  unfolding admin_login login_known
  admin_login-Keeps rp r s =
      by_option (Keeps s) (x.login_body r.body) _ _ (refl, refl, refl)
        λ req e.
          by_option (Keeps s) (decoded x req) _ _ (refl, refl, refl)
            λ a f.
              by_option (Keeps s) (passkey_by_credential_id (parses x) a.credential_id s.registry) _
                _ (refl, refl, refl)
                λ p g.
                  by_option (Keeps s) (credential_of x p) _ _ (refl, refl, refl)
                    λ cred h. login_taken-Keeps rp r a p cred s

  admin_challenge-Keeps :
      (rp : RelyingParty) (r : Request) (s : Site) → Keeps s (admin_challenge x rp r s)
  unfolding admin_challenge
  admin_challenge-Keeps rp r s =
      by_option (Keeps s) (x.purpose_body r.body) _ _ (refl, refl, refl)
        λ purpose e. by_test (Keeps s) _ _ _ (refl, refl, refl) (refl, refl, refl)

  admin_page-Keeps : (b : Bool) (r : Request) (s : Site) → Keeps s (admin_page x b r s)
  unfolding admin_page
  admin_page-Keeps b r s = by_test (Keeps s) b _ _ (refl, refl, refl) (refl, refl, refl)

  module _ (r : Request) (s : Site) (live : (authed r.now r.cookie s.admin).1 ≡ false) where
    with_session-Keeps : (f : Request → Site → Site × Answer) → Keeps s (with_session x f r s)
    unfolding with_session
    with_session-Keeps f = rw live (refl, refl, refl)

    admin_register-Keeps :
        (rp : RelyingParty) → has_passkeys s.registry ≡ true → Keeps s (admin_register x rp r s)
    unfolding admin_register
    admin_register-Keeps rp shut = rw (shut, live) (refl, refl, refl)

    handlers-Keep :
        (origin : Text) (of : Option RelyingParty)
        → has_passkeys s.registry ≡ true
        → Handlers x origin of r s (Keeps s)
    handlers-Keep origin of shut = record {
      refusing = λ status. (refl, refl, refl);
      paging = λ b. admin_page-Keeps b r s;
      challenging = λ rp. admin_challenge-Keeps rp r s;
      registering = λ rp. admin_register-Keeps rp shut;
      logging_in = λ rp e. admin_login-Keeps rp r s;
      removing = with_session-Keeps (remove_key x);
      revoking = with_session-Keeps (revoke_device x);
      enrolling = with_session-Keeps (enroll_link x origin);
      locking = (refl, refl, refl);
    }

-- While there is a passkey, a request of the admin area that carries no live session changes
-- nothing of what lets anybody in: whatever its path and its body, the devices, the enrollment
-- secrets and the passkeys' ids, credentials and keys are the same after it.
pub serve-SameAccess :
    (x : Outside) (origin : Text) (rp : Option RelyingParty) (r : Request) (s : Site)
    → has_passkeys s.registry ≡ true
    → (authed r.now r.cookie s.admin).1 ≡ false
    → SameAccess s.registry (serve x origin rp r s).0.registry
serve-SameAccess x origin rp r s shut live =
    if_served x origin rp r s (Keeps s) (handlers-Keep x r s live origin rp shut)
