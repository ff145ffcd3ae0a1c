-- ===== src/Devices/Calls/Spent.antt =====
-- internal/devices/devices.go over time: an enrollment secret that was used.
use curtilage.Prelude.{
  ℕ, zero, suc, ◌+◌, length, ◌≡◌, ◌≢◌, ◌∙◌, Bool, List, [], none, Text, eq_text, ne→==, arith, All,
}
use curtilage.Prelude.Map.{Map, get, del, get-del, get-put}
use curtilage.Devices.{
  Registry, oldest, enroll_ttl, save, enroll, authenticate, forget, revoke, mint_enrollment, sweep,
  evict,
}
use curtilage.Devices.Pending.{enroll_uses, enroll_refused, get-sweep-none}
use curtilage.Devices.Calls.{
  Call, enrolls, authenticates, forgets, revokes, mints, call, run, run-keeps,
}

module _ (hash : Text → Text) (secret : Text) where
  -- The call does not mint the secret.
  abbrev pub MintsOther : Call → Type 0
  MintsOther (mints minted now) = minted ≢ secret
  MintsOther c = Unit

  get-del-none : (k : Text) (m : Map Text ℕ) → get secret m ≡ none → get secret (del k m) ≡ none
  get-del-none k m n = ground (arith, get-del k secret m, n)

  get-evict-none :
      (fuel : ℕ) (m : Map Text ℕ) → get secret m ≡ none → get secret (evict fuel m) ≡ none
  unfolding evict
  get-evict-none zero m n = n
  get-evict-none (suc fuel) m n =
      let rest = get-evict-none fuel (del (oldest [] 0 m) m) (get-del-none (oldest [] 0 m) m n) in
      ground (arith, rest, n)

  call_spent :
      (c : Call) (r : Registry)
      → MintsOther c
      → get secret r.pending ≡ none
      → get secret (call hash c r).pending ≡ none
  unfolding call mint_enrollment
  call_spent (enrolls ok id token used name now) r f n =
      unfold enroll save in
      ground (
        arith,
        get-sweep-none now secret r.pending n,
        get-del-none used (sweep now r.pending) (get-sweep-none now secret r.pending n),
      )
  call_spent (authenticates ok token now) r f n = unfold authenticate save in ground (arith, n)
  call_spent (forgets ok token now) r f n = unfold forget save in ground (arith, n)
  call_spent (revokes ok id now) r f n = unfold revoke save in ground (arith, n)
  call_spent (mints minted now) r f n =
      let live = sweep now r.pending in
      let gone = get-evict-none (length live) live (get-sweep-none now secret r.pending n) in
      get-put minted secret (now + enroll_ttl) (evict (length live) live)
      ∙ rw (ne→== minted secret f) gone

-- A secret enrolls once: whatever the first attempt with it came to, and after any later calls of
-- Enroll, Authenticate, Forget, Revoke and MintEnrollment that do not mint it again, an attempt
-- with the same secret is refused.
pub enroll-enroll :
    (hash : Text → Text) (ok ok' : Bool) (id token id' token' secret name name' : Text)
    (now later : ℕ) (calls : List Call) (r : Registry)
    → All (MintsOther hash secret) calls
    → (enroll hash ok' id' token' secret name' later
        (run hash calls (enroll hash ok id token secret name now r).0)).1
      ≡ none
enroll-enroll hash ok ok' id token id' token' secret name name' now later calls r a =
    enroll_refused hash ok' id' token' secret name' later
      (run hash calls (enroll hash ok id token secret name now r).0)
      (run-keeps hash (λ s. get secret s.pending ≡ none) (MintsOther hash secret)
        (call_spent hash secret) calls (enroll hash ok id token secret name now r).0 a
        (enroll_uses hash ok id token secret name now r))
