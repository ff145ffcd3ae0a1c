-- ===== src/Server/Auth.antt =====
-- internal/server/auth.go: which calls need a device's bearer token, and what Enroll and Forget
-- refuse. A context is the values of its `authorization` metadata, or none without metadata.
pub mod Grounds
use curtilage.Prelude.{
  ℕ, ◌≡◌, refl, inl, inr, Bool, true, false, not, ◌||◌, List, [], ◌∷◌, Option, none, some, Text,
  codes, length, contains, ltb, if◌then◌else◌, ◌==◌, eq_text, arith, Bool-cases,
}
use curtilage.Strings.{cut_prefix, trim_space}
use curtilage.Devices.{Registry, armed, authenticate, enroll, forget, lookup}
use curtilage.Devices.Tokens.{authenticate-verdict, is_live}

-- The keys of `unauthenticated`.
abbrev pub open_methods : List Text
open_methods =
    codes "/curtilage.v1.CurtilageService/Hello"
    ∷ codes "/curtilage.v1.CurtilageService/Enroll"
    ∷ []

-- unauthenticated[method]
unfoldable pub is_open : Text → Bool
is_open method = contains open_methods method

pub data Code : Type 0 where
  unavailable invalid_argument permission_denied unauthenticated : Code

pub data Reply {ℓ} (A : Type ℓ) : Type ℓ where
  ok : A → Reply A
  status : Code → Reply A

unfoldable pub first_bearer : List Text → Option Text
first_bearer [] = none
first_bearer (v ∷ vs) = elim (cut_prefix (codes "Bearer ") v) [
  | none ↦ first_bearer vs
  | some t ↦ if t == [] then first_bearer vs else some t
]

-- bearer
unfoldable pub bearer : Option (List Text) → Option Text
unfolding first_bearer
bearer none = none
bearer (some values) = first_bearer values

module _ (hash : Text → Text) (written : Bool) where
  check : Option Text → ℕ → Registry → Registry × Reply (Unit {0})
  check none now r = (r, status unauthenticated)
  check (some token) now r = elim (authenticate hash written token now r).1 [
    | none ↦ ((authenticate hash written token now r).0, status unauthenticated)
    | some d ↦ ((authenticate hash written token now r).0, ok tt)
  ]

  -- (s *Server) authorize, with a registry; without one every call passes.
  unfoldable pub authorize : Option (List Text) → Text → ℕ → Registry → Registry × Reply (Unit {0})
  unfolding check
  authorize ctx method now r =
      if not (armed r) || is_open method then (r, ok tt) else check (bearer ctx) now r

  -- (s *Server) Enroll: the device id and token are drawn, `now` is the clock.
  unfoldable pub enroll_call :
      Text → Text → Text → Text → ℕ → Registry → Registry × Reply (Text × Text)
  enroll_call id token secret device_name now r =
      let name = trim_space device_name in
      let (s, result) = enroll hash written id token secret name now r in
      if (name == []) || ltb 64 (length name)
      then (r, status invalid_argument)
      else (s, elim result [ none ↦ status permission_denied | some (d, t) ↦ ok (t, d.id) ])

  -- (s *Server) Forget
  unfoldable pub forget_call :
      Option (List Text) → Text → ℕ → Registry → Registry × Reply (Unit {0})
  forget_call ctx token_sha256 now r = elim (bearer ctx) [
    | none ↦ (r, ok tt)
    | some token ↦
        if token_sha256 == hash token
        then (forget hash written token now r, ok tt)
        else (r, status invalid_argument)
  ]

abbrev pub is_ok {ℓ} : {A : Type ℓ} → Reply A → Bool
is_ok (ok a) = true
is_ok (status c) = false

-- The device that a context's token names is enrolled and not revoked.
abbrev pub names_live : (Text → Text) → Option (List Text) → Registry → Bool
names_live hash ctx r = elim (bearer ctx) [
  | none ↦ false
  | some token ↦ is_live (lookup (hash token) r.order)
]

module _ (hash : Text → Text) (written : Bool) where
  check-live :
      (t : Option Text) (now : ℕ) (r : Registry)
      → is_ok (check hash written t now r).1
        ≡ (elim t [ none ↦ false | some token ↦ is_live (lookup (hash token) r.order) ])
  unfolding check
  check-live none now r = refl
  check-live (some token) now r = ground (arith, authenticate-verdict hash written token now r)

  authorize-check :
      (ctx : Option (List Text)) (method : Text) (now : ℕ) (r : Registry)
      → authorize hash written ctx method now r ≡ (
          if not (armed r) || is_open method
          then (r, ok tt)
          else check hash written (bearer ctx) now r)
  unfolding authorize
  authorize-check ctx method now r = refl

  live-names :
      (ctx : Option (List Text)) (r : Registry)
      → (elim (bearer ctx) [ none ↦ false | some token ↦ is_live (lookup (hash token) r.order) ])
        ≡ names_live hash ctx r
  live-names ctx r = refl

  pub authorize-tests :
      (ctx : Option (List Text)) (method : Text) (now : ℕ) (r : Registry)
      → is_ok (authorize hash written ctx method now r).1
        ≡ (not (armed r) || (is_open method || names_live hash ctx r))
  authorize-tests ctx method now r =
      rw (authorize-check ctx method now r) (elim (Bool-cases (not (armed r))) [
        | inl t ↦ rw t
        | inr f ↦ elim (Bool-cases (is_open method)) [
          | inl t ↦ rw (f, t)
          | inr f' ↦ rw (f, f') (check-live (bearer ctx) now r)
        ]
      ])
