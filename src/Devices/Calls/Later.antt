-- ===== src/Devices/Calls/Later.antt =====
-- internal/devices/devices.go over time: a token from Enroll on, and after Forget.
use curtilage.Prelude.{
  ℕ, ◌≡◌, ◌≢◌, refl, ap, ◌∙◌, Bool, true, false, List, Option, none, some, Text, if◌then◌else◌,
  ◌==◌, eq_text, text_eq_iff, arith, All, inl, inr, Bool-cases,
}
use curtilage.Devices.{
  Registry, Device, enroll, authenticate, forget, revoke_first, mint_enrollment, lookup,
  update_found, see_at, mark_revoked, new_device,
}
use curtilage.Devices.Tokens.{
  is_live, map_option, verdict, authenticate-verdict, forget-order, enroll-order, lookup-append,
  lookup-update_found, lookup-update_found_other,
}
use curtilage.Devices.Calls.{
  Call, enrolls, authenticates, forgets, revokes, mints, call, run, run-keeps, authenticate-order,
  enroll_order_or, revoke-order, lookup-append_other, lookup-revoke_first, is_live-revoke_first,
}

is_live-see_at :
    (h k : Text) (now : ℕ) (ds : List Device)
    → is_live (lookup h ds) ≡ false
    → is_live (lookup h (update_found k (see_at now) ds)) ≡ false
is_live-see_at h k now ds e = elim (Bool-cases (k == h)) [
  | inl t ↦
      let same : k ≡ h = (text_eq_iff k h).0 t in
      let found : lookup h (update_found k (see_at now) ds)
          ≡ map_option (see_at now) (lookup h ds) =
        rw same (lookup-update_found (see_at now) (λ d. refl) h ds) in
      rw found (ground (arith, e))
  | inr f ↦
      rw
        (lookup-update_found_other (see_at now) (λ d. refl) k h ds
          (λ s. let t = (text_eq_iff k h).1 s in cc))
        e
]

is_live-mark_revoked :
    (h k : Text) (ds : List Device)
    → is_live (lookup h ds) ≡ false
    → is_live (lookup h (update_found k mark_revoked ds)) ≡ false
is_live-mark_revoked h k ds e = elim (Bool-cases (k == h)) [
  | inl t ↦
      let same : k ≡ h = (text_eq_iff k h).0 t in
      let found : lookup h (update_found k mark_revoked ds)
          ≡ map_option mark_revoked (lookup h ds) =
        rw same (lookup-update_found mark_revoked (λ d. refl) h ds) in
      rw found (ground (arith, e))
  | inr f ↦
      rw
        (lookup-update_found_other mark_revoked (λ d. refl) k h ds
          (λ s. let t = (text_eq_iff k h).1 s in cc))
        e
]

module _ (hash : Text → Text) (h : Text) where
  -- The call draws no token of the hash `h`.
  abbrev pub DrawsOther : Call → Type 0
  DrawsOther (enrolls ok id token secret name now) = hash token ≢ h
  DrawsOther c = Unit

  call_refused :
      (c : Call) (r : Registry)
      → DrawsOther c
      → is_live (lookup h r.order) ≡ false
      → is_live (lookup h (call hash c r).order) ≡ false
  unfolding call mint_enrollment
  call_refused (enrolls ok id token secret name now) r f e =
      enroll_order_or hash (λ ds. is_live (lookup h ds) ≡ false) ok id token secret name now r e
        (rw (lookup-append_other h r.order (new_device hash id token name now) f) e)
  call_refused (authenticates ok token now) r f e =
      rw (authenticate-order hash ok token now r)
        (ground (arith, is_live-see_at h (hash token) now r.order e, e))
  call_refused (forgets ok token now) r f e =
      rw (forget-order hash ok token now r)
        (ground (arith, is_live-mark_revoked h (hash token) r.order e, e))
  call_refused (revokes ok id now) r f e =
      rw (revoke-order ok id now r) (ground (arith, is_live-revoke_first h id r.order e, e))
  call_refused (mints secret now) r f e = e

refused : (now : ℕ) (o : Option Device) → is_live o ≡ false → verdict now o ≡ none
refused now none e = refl
refused now (some d) e = ground (arith, e)

forget_refused :
    (hash : Text → Text) (ok : Bool) (token : Text) (now : ℕ) (r : Registry)
    → is_live (lookup (hash token) (forget hash ok token now r).order) ≡ false
forget_refused hash ok token now r =
    rw (forget-order hash ok token now r)
      (elim (Bool-cases (is_live (lookup (hash token) r.order))) [
        | inr f ↦ rw (f, f) refl
        | inl t ↦ rw t (
            gone (lookup (hash token) r.order) t
              (lookup-update_found mark_revoked (λ d. refl) (hash token) r.order))
      ])
  where
    gone :
        (o : Option Device) {p : Option Device}
        → is_live o ≡ true
        → p ≡ map_option mark_revoked o
        → is_live p ≡ false
    gone none t e = cc
    gone (some d) t e = rw e refl

-- A token that was forgotten is refused after any later calls of Enroll, Authenticate, Forget,
-- Revoke and MintEnrollment in which Enroll draws no token of the same hash; and forgetting it
-- leaves the device of every token of another hash as it was.
pub authenticate-forget :
    (hash : Text → Text) (ok ok' : Bool) (token : Text) (now later : ℕ) (calls : List Call)
    (r : Registry)
    → All (DrawsOther hash (hash token)) calls
    → ((authenticate hash ok' token later (run hash calls (forget hash ok token now r))).1 ≡ none)
      × ((other : Text)
          → hash token ≢ hash other
          → lookup (hash other) (forget hash ok token now r).order ≡ lookup (hash other) r.order)
authenticate-forget hash ok ok' token now later calls r a = (
  authenticate-verdict hash ok' token later (run hash calls (forget hash ok token now r))
      ∙ refused later (lookup (hash token) (run hash calls (forget hash ok token now r)).order) (
          run-keeps hash (λ s. is_live (lookup (hash token) s.order) ≡ false)
            (DrawsOther hash (hash token)) (call_refused hash (hash token)) calls
            (forget hash ok token now r) a (forget_refused hash ok token now r)),
  λ other ne. rw (forget-order hash ok token now r) (
      ground (
        arith,
        lookup-update_found_other mark_revoked (λ d. refl) (hash token) (hash other) r.order ne,
      )),
)

-- The token's device is `d`, but for when it was last seen.
abbrev IsKnown : Text → Device → List Device → Type 0
IsKnown h d ds = (e : Device) × (lookup h ds ≡ some e) × (see_at 0 e ≡ see_at 0 d)

module _ (hash : Text → Text) (h : Text) (d : Device) where
  -- The call draws and forgets no token of the hash `h`, and does not revoke the id of `d`.
  abbrev pub Spares : Call → Type 0
  Spares (enrolls ok id token secret name now) = hash token ≢ h
  Spares (authenticates ok token now) = Unit
  Spares (forgets ok token now) = hash token ≢ h
  Spares (revokes ok id now) = id ≢ d.id
  Spares (mints secret now) = Unit

  see-IsKnown :
      (k : Text) (now : ℕ) (ds : List Device)
      → IsKnown h d ds
      → IsKnown h d (update_found k (see_at now) ds)
  see-IsKnown k now ds (e, q, s) = elim (Bool-cases (k == h)) [
    | inl t ↦
        let same : k ≡ h = (text_eq_iff k h).0 t in
        let found : lookup h (update_found k (see_at now) ds) ≡ map_option (see_at now) (some e) =
          rw same
            (lookup-update_found (see_at now) (λ x. refl) h ds ∙ ap (map_option (see_at now)) q) in
        (see_at now e, found, s)
    | inr f ↦ (
      e,
      lookup-update_found_other (see_at now) (λ x. refl) k h ds
            (λ t. let u = (text_eq_iff k h).1 t in cc)
          ∙ q,
      s,
    )
  ]

  forget-IsKnown :
      (k : Text) (ds : List Device)
      → k ≢ h
      → IsKnown h d ds
      → IsKnown h d (update_found k mark_revoked ds)
  forget-IsKnown k ds n (e, q, s) =
      (e, lookup-update_found_other mark_revoked (λ x. refl) k h ds n ∙ q, s)

  revoke-IsKnown :
      (id : Text) (ds : List Device) → id ≢ d.id → IsKnown h d ds → IsKnown h d (revoke_first id ds)
  revoke-IsKnown id ds n (e, q, s) =
      let same : e.id ≡ d.id = ap (λ (x : Device). x.id) s in
      (e, lookup-revoke_first h id ds e q (rw same n), s)

  either :
      (b : Bool) (xs ys : List Device)
      → IsKnown h d xs
      → IsKnown h d ys
      → IsKnown h d (if b then xs else ys)
  either true xs ys a b = a
  either false xs ys a b = b

  call-IsKnown :
      (c : Call) (r : Registry) → Spares c → IsKnown h d r.order → IsKnown h d (call hash c r).order
  unfolding call mint_enrollment
  call-IsKnown (enrolls ok id token secret name now) r f (e, q, s) =
      enroll_order_or hash (IsKnown h d) ok id token secret name now r (e, q, s)
        (e, lookup-append_other h r.order (new_device hash id token name now) f ∙ q, s)
  call-IsKnown (authenticates ok token now) r f k = rw (authenticate-order hash ok token now r) (
      either (is_live (lookup (hash token) r.order)) _ _ (see-IsKnown (hash token) now r.order k) k)
  call-IsKnown (forgets ok token now) r f k = rw (forget-order hash ok token now r) (
      either (is_live (lookup (hash token) r.order)) _ _ (forget-IsKnown (hash token) r.order f k)
        k)
  call-IsKnown (revokes ok id now) r f k =
      rw (revoke-order ok id now r) (either _ _ _ (revoke-IsKnown id r.order f k) k)
  call-IsKnown (mints secret now) r f k = k

seen_verdict :
    (now : ℕ) (e : Device) → e.revoked ≡ false → verdict now (some e) ≡ some (see_at now e)
seen_verdict now e h = ground (arith, h)

-- The token that Enroll hands out authenticates as the device it made, whatever was in the registry
-- and after any later calls of Enroll, Authenticate, Forget, Revoke and MintEnrollment that neither
-- draw nor forget a token of the same hash and do not revoke the device's id.
pub authenticate-enroll :
    (hash : Text → Text) (ok ok' : Bool) (id token secret name : Text) (now later : ℕ)
    (calls : List Call) (r s : Registry) (d : Device)
    → enroll hash ok id token secret name now r ≡ (s, some (d, token))
    → All (Spares hash (hash token) d) calls
    → (authenticate hash ok' token later (run hash calls s)).1 ≡ some (see_at later d)
authenticate-enroll hash ok ok' id token secret name now later calls r s d h a =
    let (made, order) = enroll-order hash ok id token secret name now r s d token h in
    let start : IsKnown (hash token) d s.order = (
      d,
      rw (order, made)
          (lookup-append (hash token) r.order (new_device hash id token name now) refl),
      refl,
    ) in
    let (e, found, same) =
      run-keeps hash (λ t. IsKnown (hash token) d t.order) (Spares hash (hash token) d)
        (call-IsKnown hash (hash token) d) calls s a start in
    let unrevoked : e.revoked ≡ false =
      ap (λ (x : Device). x.revoked) same ∙ ap (λ (x : Device). x.revoked) made in
    authenticate-verdict hash ok' token later (run hash calls s)
    ∙ ap (verdict later) found
    ∙ seen_verdict later e unrevoked
    ∙ ap (λ x. some (see_at later x)) same
