-- ===== src/House/Admin/Routes.antt =====
-- internal/house/admin.go: what holds of every handler's answer holds of every answer.
use curtilage.Prelude.{
  ℕ, ◌≡◌, refl, Bool, not, ◌&&◌, [], Option, none, some, Text, codes, ◌==◌, eq_text, by_test,
  is_some,
}
use curtilage.Strings.{trim_prefix}
use curtilage.Webauthn.{RelyingParty}
use curtilage.House.Admin.{logout}
use curtilage.House.Admin.Requests.{Outside, Request, Site, Answer, admin_challenge, admin_register}
use curtilage.House.Admin.Serve.{
  admin_login, with_session, remove_key, revoke_device, enroll_link, admin_page, configured_by,
  route, serve,
}

module _ {κ} (x : Outside) (origin : Text) (of : Option RelyingParty) (r : Request) (s : Site)
    (P : Site × Answer → Type κ) where
  -- `P` of each handler's answer, and of the site as it was
  pub record Handlers : Type κ where
    pub refusing : (status : ℕ) → P (s, Answer.refused status)
    pub paging : (b : Bool) → P (admin_page x b r s)
    pub challenging : (rp : RelyingParty) → P (admin_challenge x rp r s)
    pub registering : (rp : RelyingParty) → P (admin_register x rp r s)
    pub logging_in : (rp : RelyingParty) → of ≡ some rp → P (admin_login x rp r s)
    pub removing : P (with_session x (remove_key x) r s)
    pub revoking : P (with_session x (revoke_device x) r s)
    pub enrolling : P (with_session x (enroll_link x origin) r s)
    pub locking : P (record s { admin = logout r.cookie s.admin }, Answer.closed)

  module _ (h : Handlers) where
    if_configured :
        (rp : Option RelyingParty) (f : RelyingParty → Request → Site → Site × Answer)
        → ((p : RelyingParty) → rp ≡ some p → P (f p r s))
        → P (configured_by x rp f r s)
    unfolding configured_by
    if_configured none f k = h.refusing 404
    if_configured (some p) f k = k p refl

    if_routed : (path : Text) → P (route x origin of path r s)
    unfolding route
    if_routed path =
        by_test P (path == codes "challenge") _ _ (if_configured of _ (λ p e. h.challenging p)) (
          by_test P (path == codes "passkey/register") _ _
            (if_configured of _ (λ p e. h.registering p))
            (by_test P (path == codes "passkey/login") _ _ (if_configured of _ h.logging_in) (
              by_test P (path == codes "passkey/remove") _ _
                (if_configured of _ (λ p e. h.removing))
                (by_test P (path == codes "device/revoke") _ _
                  (if_configured of _ (λ p e. h.revoking))
                  (by_test P (path == codes "enroll") _ _ (if_configured of _ (λ p e. h.enrolling))
                    (by_test P _ _ _ h.locking (h.refusing 404)))))))

    pub if_served : P (serve x origin of r s)
    unfolding serve
    if_served =
        let path : Text = trim_prefix (codes "/") r.rest in
        by_test P ((r.method == codes "GET") && (path == [])) _ _ (h.paging (is_some of))
          (by_test P (not (r.method == codes "POST")) _ _ (h.refusing 405) (if_routed path))
