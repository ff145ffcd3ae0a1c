-- ===== src/Devices/Calls.antt =====
-- internal/devices/devices.go over time: what later calls leave of a token and of a secret.
pub mod Later
pub mod Spent
use curtilage.Prelude.{
  ℕ, ◌≡◌, ◌≢◌, refl, ap, sym, ◌∙◌, Bool, true, false, not, ◌&&◌, List, [], ◌∷◌, ◌++◌, Option, none,
  some, Text, if◌then◌else◌, ◌==◌, eq_text, text_eq_iff, ne→==, arith, All, inl, inr, Bool-cases,
  Option-cases, any, is_some,
}
use curtilage.Devices.{
  Registry, Device, enroll, authenticate, forget, revoke, revoke_first, mint_enrollment, lookup,
  update_found, see_at, mark_revoked, save, new_device,
}
use curtilage.Devices.Tokens.{is_live, lookup-update_found, lookup-update_found_other, forget-order}

-- A call of the registry: whether its write succeeds, what it is given and what is drawn, and the
-- time.
pub data Call : Type 0 where
  enrolls : Bool → Text → Text → Text → Text → ℕ → Call
  authenticates : Bool → Text → ℕ → Call
  forgets : Bool → Text → ℕ → Call
  revokes : Bool → Text → ℕ → Call
  mints : Text → ℕ → Call

module _ (hash : Text → Text) where
  unfoldable pub call : Call → Registry → Registry
  call (enrolls ok id token secret name now) r = (enroll hash ok id token secret name now r).0
  call (authenticates ok token now) r = (authenticate hash ok token now r).0
  call (forgets ok token now) r = forget hash ok token now r
  call (revokes ok id now) r = (revoke ok id now r).0
  call (mints secret now) r = mint_enrollment secret now r

  -- One call after the other, the first of the list first
  pub run : List Call → Registry → Registry
  run [] r = r
  run (c ∷ cs) r = run cs (call c r)

  -- A property that each of the calls keeps holds after all of them.
  pub run-keeps :
      (P : Registry → Type 0) (IsFine : Call → Type 0)
      → ((c : Call) (r : Registry) → IsFine c → P r → P (call c r))
      → (cs : List Call) (r : Registry) → All IsFine cs
      → P r
      → P (run cs r)
  unfolding run
  run-keeps P IsFine keep [] r a p = p
  run-keeps P IsFine keep (c ∷ cs) r a p =
      run-keeps P IsFine keep cs (call c r) a.1 (keep c r a.0 p)

  pub authenticate-order :
      (ok : Bool) (token : Text) (now : ℕ) (r : Registry)
      → (authenticate hash ok token now r).0.order ≡ (
          if is_live (lookup (hash token) r.order)
          then update_found (hash token) (see_at now) r.order
          else r.order)
  unfolding authenticate
  authenticate-order ok token now r = ground arith

  -- What Enroll leaves of the devices: all of them, and perhaps a new one after them.
  pub enroll_order_or :
      (P : List Device → Type 0) (ok : Bool) (id token secret name : Text) (now : ℕ) (r : Registry)
      → P r.order
      → P (r.order ++ new_device hash id token name now ∷ [])
      → P (enroll hash ok id token secret name now r).0.order
  unfolding enroll save
  enroll_order_or P ok id token secret name now r old grown = ground (arith, old, grown)

pub revoke-order :
    (ok : Bool) (id : Text) (now : ℕ) (r : Registry)
    → (revoke ok id now r).0.order ≡ (
        if any (λ d. (d.id == id) && not d.revoked) r.order
        then revoke_first id r.order
        else r.order)
unfolding revoke
revoke-order ok id now r = ground arith

pub lookup-append_other :
    (h : Text) (ds : List Device) (d : Device)
    → d.token_sha256 ≢ h
    → lookup h (ds ++ d ∷ []) ≡ lookup h ds
unfolding lookup
lookup-append_other h [] d n = rw (ne→== d.token_sha256 h n) refl
lookup-append_other h (x ∷ ds) d n = rw (lookup-append_other h ds d n) refl

pub lookup-revoke_first-none :
    (h id : Text) (ds : List Device) → lookup h ds ≡ none → lookup h (revoke_first id ds) ≡ none
unfolding lookup revoke_first
lookup-revoke_first-none h id [] e = refl
lookup-revoke_first-none h id (d ∷ ds) e = ground (arith, lookup-revoke_first-none h id ds, e)

-- Revoking another id leaves the device that lookup finds.
pub lookup-revoke_first :
    (h id : Text) (ds : List Device) (e : Device)
    → lookup h ds ≡ some e
    → id ≢ e.id
    → lookup h (revoke_first id ds) ≡ some e
unfolding lookup revoke_first
lookup-revoke_first h id [] e q n = cc
lookup-revoke_first h id (d ∷ ds) e q n = ground (
  arith,
  lookup-revoke_first h id ds e,
  lookup-revoke_first-none h id ds,
  text_eq_iff d.id id,
  q,
  n,
)

is_some-revoke_first :
    (h id : Text) (ds : List Device)
    → is_some (lookup h (revoke_first id ds)) ≡ is_some (lookup h ds)
unfolding lookup revoke_first
is_some-revoke_first h id [] = refl
is_some-revoke_first h id (d ∷ ds) = ground (arith, is_some-revoke_first h id ds)

-- Revoking never makes a token good.
pub is_live-revoke_first :
    (h id : Text) (ds : List Device)
    → is_live (lookup h ds) ≡ false
    → is_live (lookup h (revoke_first id ds)) ≡ false
unfolding lookup revoke_first
is_live-revoke_first h id [] e = refl
is_live-revoke_first h id (d ∷ ds) e =
    ground (arith, is_live-revoke_first h id ds, is_some-revoke_first h id ds, e)
