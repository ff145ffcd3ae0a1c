-- ===== src/Devices/Pending.antt =====
-- internal/devices/devices.go, MintEnrollment and Enroll: the enrollment secrets.
use curtilage.Prelude.{
  ℕ, zero, suc, ◌+◌, ◌≡◌, ◌≤◌, ◌<◌, ◌⊎◌, refl, inl, inr, Bool, true, false, not, ◌&&◌,
  if◌then◌else◌, ◌||◌, List, [], ◌∷◌, ◌++◌, none, some, Text, length, any, nat_eq, ltb, leb, ◌==◌,
  eq_text, text_eq_iff, arith, Bool-cases, Option-cases,
}
use native.Mathlib.Nat.{le_refl}
use curtilage.Prelude.Map.{Map, get, put, del, get-del, get-put}
use curtilage.Devices.{
  Registry, Device, mint_enrollment, enroll, sweep, evict, oldest, max_pending, enroll_ttl,
  is_valid, new_device, armed,
}

length-put : (k : Text) (v : ℕ) (m : Map Text ℕ) → length (put k v m) ≤ length m + 1
length-put k v [] = omega arith
length-put k v ((j, w) ∷ m) = ground (arith, length-put k v m)

length-del : (k : Text) (m : Map Text ℕ) → length (del k m) ≤ length m
length-del k [] = omega arith
length-del k ((j, w) ∷ m) = ground (arith, length-del k m)

-- Whether the map has the key.
abbrev has : Text → Map Text ℕ → Bool
has k m = any (λ p. p.0 == k) m

length-del-has : (k : Text) (m : Map Text ℕ) → has k m ≡ true → length (del k m) < length m
length-del-has k [] h = cc
length-del-has k ((j, w) ∷ m) h = ground (arith, length-del-has k m, length-del k m)

oldest-has :
    (key : Text) (at : ℕ) (m : Map Text ℕ)
    → (oldest key at m ≡ key) ⊎ (has (oldest key at m) m ≡ true)
unfolding oldest
oldest-has key at [] = inl refl
oldest-has key at ((s, expires) ∷ m) = elim (Bool-cases (nat_eq at 0 || ltb expires at)) [
  | inl t ↦ ground (arith, t, oldest-has s expires m, text_eq_iff s (oldest s expires m))
  | inr f ↦ ground (arith, f, oldest-has key at m)
]

oldest-del :
    (p : Text × ℕ) (m : Map Text ℕ) → length (del (oldest [] 0 (p ∷ m)) (p ∷ m)) < length (p ∷ m)
unfolding oldest
oldest-del (s, expires) m =
    length-del-has (oldest s expires m) ((s, expires) ∷ m) (elim (oldest-has s expires m) [
      | inl e ↦ ground (arith, text_eq_iff s (oldest s expires m), e)
      | inr h ↦ ground (arith, h)
    ])

evict-lt : (fuel : ℕ) (m : Map Text ℕ) → length m ≤ fuel → length (evict fuel m) < max_pending
unfolding evict
evict-lt zero m h = omega arith
evict-lt (suc fuel) [] h = omega arith
evict-lt (suc fuel) (p ∷ m) h = elim (Bool-cases (leb max_pending (length (p ∷ m)))) [
  | inl full ↦
      rw full (evict-lt fuel (del (oldest [] 0 (p ∷ m)) (p ∷ m)) (omega (arith, oldest-del p m)))
  | inr room ↦ rw room (ground arith)
]

pub get-sweep-none :
    (now : ℕ) (k : Text) (m : Map Text ℕ) → get k m ≡ none → get k (sweep now m) ≡ none
unfolding sweep
get-sweep-none now k [] h = refl
get-sweep-none now k ((j, e) ∷ m) h = ground (arith, get-sweep-none now k m)

get-sweep_live :
    (now : ℕ) (k : Text) (m : Map Text ℕ) (e : ℕ) → get k (sweep now m) ≡ some e → now ≤ e
unfolding sweep
get-sweep_live now k [] e h = cc
get-sweep_live now k ((j, x) ∷ m) e h = ground (arith, get-sweep_live now k m e)

-- The number of enrollment secrets never passes eight, however many are minted, and the one just
-- minted is among them with its five minutes.
pub mint_enrollment-bounded :
    (secret : Text) (now : ℕ) (r : Registry)
    → (length (mint_enrollment secret now r).pending ≤ max_pending)
      × (get secret (mint_enrollment secret now r).pending ≡ some (now + enroll_ttl))
unfolding mint_enrollment
mint_enrollment-bounded secret now r =
    let live = sweep now r.pending in
    let kept = evict (length live) live in
    (
      omega (
        arith,
        length-put secret (now + enroll_ttl) kept,
        evict-lt (length live) live (le_refl (length live)),
      ),
      ground (arith, get-put secret secret (now + enroll_ttl) kept, text_eq_iff secret secret),
    )

-- After an attempt to enroll its secret is gone.
pub enroll_uses :
    (hash : Text → Text) (ok : Bool) (id token secret name : Text) (now : ℕ) (r : Registry)
    → get secret (enroll hash ok id token secret name now r).0.pending ≡ none
unfolding enroll
enroll_uses hash ok id token secret name now r =
    elim (Option-cases (get secret (sweep now r.pending))) [
      | inl n ↦ rw n n
      | inr (e, h) ↦ ground (
        arith,
        h,
        get-sweep_live now secret r.pending e h,
        get-del secret secret (sweep now r.pending),
        text_eq_iff secret secret,
      )
    ]

pub enroll_refused :
    (hash : Text → Text) (ok : Bool) (id token secret name : Text) (now : ℕ) (r : Registry)
    → get secret r.pending ≡ none
    → (enroll hash ok id token secret name now r).1 ≡ none
unfolding enroll
enroll_refused hash ok id token secret name now r n =
    rw (get-sweep-none now secret r.pending n) refl

-- Enrolling succeeds exactly when the secret is pending and not past its expiry, and the file can
-- be written; then the device is the newest, unrevoked, and known by the hash of its token.
enroll-granted :
    (hash : Text → Text) (ok : Bool) (id token secret name : Text) (now : ℕ) (r : Registry)
    → let granted = is_valid now (get secret (sweep now r.pending)) && (not r.persists || ok) in
      (enroll hash ok id token secret name now r).1
      ≡ (if granted then some (new_device hash id token name now, token) else none)
unfolding enroll
enroll-granted hash ok id token secret name now r = ground arith

-- When the secret is good and the write fails, the caller gets an error and no token, and yet the
-- device is there: right after this, the registry is armed.
pub enroll_failed-armed :
    (hash : Text → Text) (id token secret name : Text) (now : ℕ) (r : Registry)
    → r.persists ≡ true
    → is_valid now (get secret (sweep now r.pending)) ≡ true
    → ((enroll hash false id token secret name now r).1 ≡ none)
      × (armed (enroll hash false id token secret name now r).0 ≡ true)
unfolding enroll armed
enroll_failed-armed hash id token secret name now r p v =
    (ground arith, rw (v, p) (any_append r.order))
  where
    any_append :
        (ds : List Device)
        → any (λ d. not d.revoked) (ds ++ new_device hash id token name now ∷ []) ≡ true
    any_append [] = refl
    any_append (d ∷ ds) = ground (arith, any_append ds)
