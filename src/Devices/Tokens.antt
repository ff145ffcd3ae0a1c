-- ===== src/Devices/Tokens.antt =====
-- internal/devices/devices.go, Authenticate, Forget and Revoke: what a bearer token is good for.
use curtilage.Prelude.{
  ℕ, ◌≡◌, ◌≢◌, refl, Bool, false, not, List, [], ◌∷◌, ◌++◌, Option, none, some, Text, if◌then◌else◌,
  eq_text, text_eq_iff, ne→==, arith,
}
use curtilage.Devices.{
  Registry, Device, enroll, authenticate, forget, lookup, update_found, see_at, mark_revoked, save,
  new_device,
}

pub lookup-append :
    (hash : Text) (ds : List Device) (d : Device)
    → d.token_sha256 ≡ hash
    → lookup hash (ds ++ d ∷ []) ≡ some d
unfolding lookup
lookup-append hash [] d e = ground (arith, text_eq_iff d.token_sha256 hash)
lookup-append hash (x ∷ ds) d e = rw (lookup-append hash ds d e)

abbrev pub map_option : (Device → Device) → Option Device → Option Device
map_option f none = none
map_option f (some d) = some (f d)

-- A change that keeps the hashes is what lookup then finds, and nothing else.
module _ (f : Device → Device) (keep : (d : Device) → (f d).token_sha256 ≡ d.token_sha256) where
  pub lookup-update_found :
      (k : Text) (ds : List Device) → lookup k (update_found k f ds) ≡ map_option f (lookup k ds)
  unfolding lookup update_found
  lookup-update_found k [] = refl
  lookup-update_found k (d ∷ ds) =
      ground (arith, lookup-update_found k ds, keep d, text_eq_iff d.token_sha256 k)

  pub lookup-update_found_other :
      (h k : Text) (ds : List Device) → h ≢ k → lookup k (update_found h f ds) ≡ lookup k ds
  unfolding lookup update_found
  lookup-update_found_other h k [] n = refl
  lookup-update_found_other h k (d ∷ ds) n = ground (
    arith,
    lookup-update_found_other h k ds n,
    keep d,
    text_eq_iff d.token_sha256 k,
    text_eq_iff d.token_sha256 h,
    ne→== h k n,
    text_eq_iff h k,
  )

-- What Authenticate answers for what lookup found.
abbrev pub verdict : ℕ → Option Device → Option Device
verdict now none = none
verdict now (some d) = if d.revoked then none else some (see_at now d)

abbrev pub is_live : Option Device → Bool
is_live none = false
is_live (some d) = not d.revoked

save_order : (ok : Bool) (now : ℕ) (r : Registry) → (save ok now r).0.order ≡ r.order
unfolding save
save_order ok now r = ground arith

module _ (hash : Text → Text) where
  pub authenticate-verdict :
      (ok : Bool) (token : Text) (now : ℕ) (r : Registry)
      → (authenticate hash ok token now r).1 ≡ verdict now (lookup (hash token) r.order)
  unfolding authenticate
  authenticate-verdict ok token now r = ground arith

  pub forget-order :
      (ok : Bool) (token : Text) (now : ℕ) (r : Registry)
      → (forget hash ok token now r).order ≡ (
          if is_live (lookup (hash token) r.order)
          then update_found (hash token) mark_revoked r.order
          else r.order)
  unfolding forget
  forget-order ok token now r = ground arith

  pub enroll-order :
      (ok : Bool) (id token secret name : Text) (now : ℕ) (r s : Registry) (d : Device) (t : Text)
      → enroll hash ok id token secret name now r ≡ (s, some (d, t))
      → (d ≡ new_device hash id token name now)
        × (s.order ≡ r.order ++ new_device hash id token name now ∷ [])
  unfolding enroll
  enroll-order ok id token secret name now r s d t h = ground arith
