-- ===== src/Devices/Passkeys/Door.antt =====
-- internal/devices/passkeys.go over time: the bootstrap door and the credentials.
use curtilage.Prelude.{
  ℕ, ◌+◌, ◌≡◌, ◌≤◌, refl, sym, Bool, true, false, List, [], ◌∷◌, ◌++◌, Option, none, some, Text,
  length, any, nat_eq, if◌then◌else◌, ◌==◌, eq_text, lt→ltb, ltb→lt, arith, Bool-cases, inl, inr,
  text_eq_iff, length-append,
}
use curtilage.Devices.{Passkey, Registry, save}
use curtilage.Devices.Passkeys.{
  Credential, has_passkeys, add_passkey, set_count, set_passkey_sign_count, without, remove_passkey,
}

-- How many of the passkeys hold a credential.
abbrev pub times : Text → List Passkey → ℕ
times c [] = 0
times c (p ∷ ps) = if p.credential_id == c then times c ps + 1 else times c ps

-- One call that changes the passkeys, with what comes from outside.
pub data Call : Type 0 where
  add : Bool → Text → Text → Credential → ℕ → Call
  set : Bool → Text → ℕ → ℕ → Call
  remove : Bool → Text → ℕ → Call

unfoldable pub call : (Text → Bool) → Call → Registry → Registry
call parses (add ok id name cred now) r = (add_passkey parses ok id name cred now r).0
call parses (set ok id count now) r = set_passkey_sign_count ok id count now r
call parses (remove ok id now) r = (remove_passkey ok id now r).0

unfoldable pub run : (Text → Bool) → List Call → Registry → Registry
run parses [] r = r
run parses (c ∷ cs) r = run parses cs (call parses c r)

passkeys-save : (ok : Bool) (now : ℕ) (r : Registry) → (save ok now r).0.passkeys ≡ r.passkeys
unfolding save
passkeys-save ok now r = elim (Bool-cases r.persists) [
  | inl t ↦ elim (Bool-cases ok) [ inl w ↦ rw (t, w) refl | inr w ↦ rw (t, w) refl ]
  | inr f ↦ rw f refl
]

-- The passkeys of the second list stand for those of the first: none of them twice unless it was so
-- before, and some of them if there were some.
Keeps : List Passkey → List Passkey → Type 0
Keeps ps qs = ((c : Text) → times c ps ≤ 1 → times c qs ≤ 1) × (1 ≤ length ps → 1 ≤ length qs)

times-append : (c : Text) (ps qs : List Passkey) → times c (ps ++ qs) ≡ times c ps + times c qs
times-append c [] qs = omega arith
times-append c (p ∷ ps) qs = ground (arith, times-append c ps qs)

times_none :
    (c : Text) (ps : List Passkey) → any (λ p. p.credential_id == c) ps ≡ false → times c ps ≡ 0
times_none c [] e = refl
times_none c (p ∷ ps) e = ground (arith, e, times_none c ps)

-- The list that a change gives, if it finds its passkey: as many of each credential, and as long.
abbrev SameSize : Text → List Passkey → Option (List Passkey) → Type 0
SameSize c ps none = Unit
SameSize c ps (some qs) = (times c qs ≡ times c ps) × (length qs ≡ length ps)

longer_same :
    (c : Text) (p : Passkey) (ps : List Passkey) (o : Option (List Passkey))
    → SameSize c ps o
    → SameSize c (p ∷ ps) (elim o [ none ↦ none | some qs ↦ some (p ∷ qs) ])
longer_same c p ps none h = tt
longer_same c p ps (some qs) h = (rw h.0 refl, omega (arith, h.1))

set_count-SameSize :
    (id : Text) (count : ℕ) (c : Text) (ps : List Passkey) → SameSize c ps (set_count id count ps)
unfolding set_count
set_count-SameSize id count c [] = tt
set_count-SameSize id count c (p ∷ ps) = elim (Bool-cases (p.id == id)) [
  | inl t ↦ rw t (refl, refl)
  | inr f ↦ rw f (longer_same c p ps (set_count id count ps) (set_count-SameSize id count c ps))
]

-- The list that a removal gives, if it finds its passkey: one less.
abbrev OneLess : Text → List Passkey → Option (List Passkey) → Type 0
OneLess c ps none = Unit
OneLess c ps (some qs) = (times c qs ≤ times c ps) × (length ps ≡ length qs + 1)

longer_less :
    (c : Text) (p : Passkey) (ps : List Passkey) (o : Option (List Passkey))
    → OneLess c ps o
    → OneLess c (p ∷ ps) (elim o [ none ↦ none | some qs ↦ some (p ∷ qs) ])
longer_less c p ps none h = tt
longer_less c p ps (some qs) h = (ground (arith, h.0), omega (arith, h.1))

without-OneLess : (id c : Text) (ps : List Passkey) → OneLess c ps (without id ps)
unfolding without
without-OneLess id c [] = tt
without-OneLess id c (p ∷ ps) = elim (Bool-cases (p.id == id)) [
  | inl t ↦ rw t (ground arith, omega arith)
  | inr f ↦ rw f (longer_less c p ps (without id ps) (without-OneLess id c ps))
]

kept_by_set :
    (ok : Bool) (now : ℕ) (r : Registry) (o : Option (List Passkey))
    → ((c : Text) → SameSize c r.passkeys o)
    → Keeps r.passkeys
        (elim o as (λ _. Registry) [
          | none ↦ r
          | some ps ↦ (save ok now (record r { passkeys = ps })).0
        ]).passkeys
unfolding Keeps
kept_by_set ok now r none h = ((λ c k. k), (λ k. k))
kept_by_set ok now r (some ps) h =
    rw (passkeys-save ok now (record r { passkeys = ps }))
      ((λ c k. omega (arith, k, (h c).0)), (λ k. omega (arith, k, (h []).1)))

kept_by_removal :
    (ok : Bool) (now : ℕ) (r : Registry) (o : Option (List Passkey))
    → ((c : Text) → OneLess c r.passkeys o)
    → Keeps r.passkeys
        (elim o as (λ _. Registry × Bool) [
          | none ↦ (r, false)
          | some ps ↦
              if nat_eq (length r.passkeys) 1
              then (r, false)
              else save ok now (record r { passkeys = ps })
        ]).0.passkeys
unfolding Keeps
kept_by_removal ok now r none h = ((λ c k. k), (λ k. k))
kept_by_removal ok now r (some ps) h = elim (Bool-cases (nat_eq (length r.passkeys) 1)) [
  | inl t ↦ rw t ((λ c k. k), (λ k. k))
  | inr f ↦
      rw (f, passkeys-save ok now (record r { passkeys = ps }))
        ((λ c k. omega (arith, k, (h c).0)), (λ k. ground (arith, f, k, (h []).1)))
]

times_add :
    (c : Text) (p : Passkey) (ps : List Passkey)
    → any (λ q. q.credential_id == p.credential_id) ps ≡ false
    → times c ps ≤ 1
    → times c (ps ++ p ∷ []) ≤ 1
times_add c p ps new h = elim (Bool-cases (p.credential_id == c)) [
  | inl t ↦
      let none_yet : times c ps ≡ 0 =
        rw (sym ((text_eq_iff p.credential_id c).0 t)) (times_none p.credential_id ps new) in
      rw (times-append c ps (p ∷ []), t) (omega (arith, none_yet))
  | inr f ↦ rw (times-append c ps (p ∷ []), f) (omega (arith, h))
]

add_passkey-Keeps :
    (parses : Text → Bool) (ok : Bool) (id name : Text) (cred : Credential) (now : ℕ) (r : Registry)
    → Keeps r.passkeys (add_passkey parses ok id name cred now r).0.passkeys
unfolding add_passkey Keeps
add_passkey-Keeps parses ok id name cred now r =
    elim (Bool-cases (any (λ p. p.credential_id == cred.id) r.passkeys)) [
      | inl t ↦ rw t ((λ c k. k), (λ k. k))
      | inr f ↦
          rw (f, passkeys-save ok now _)
            (
              (λ c k. times_add c _ r.passkeys f k),
              (λ k. omega (arith, length-append r.passkeys (_ ∷ []))),
            )
    ]

call-Keeps :
    (parses : Text → Bool) (c : Call) (r : Registry) → Keeps r.passkeys (call parses c r).passkeys
unfolding call set_passkey_sign_count remove_passkey
call-Keeps parses (add ok id name cred now) r = add_passkey-Keeps parses ok id name cred now r
call-Keeps parses (set ok id count now) r =
    kept_by_set ok now r (set_count id count r.passkeys)
      (λ c. set_count-SameSize id count c r.passkeys)
call-Keeps parses (remove ok id now) r =
    kept_by_removal ok now r (without id r.passkeys) (λ c. without-OneLess id c r.passkeys)

-- Once an admin passkey is registered the bootstrap door stays shut, whatever calls add, count or
-- remove passkeys, successful writes or not; and no credential is ever registered twice.
pub run-has_passkeys :
    (parses : Text → Bool) (cs : List Call) (r : Registry)
    → has_passkeys r ≡ true
    → ((c : Text) → times c r.passkeys ≤ 1)
    → (has_passkeys (run parses cs r) ≡ true)
      × ((c : Text) → times c (run parses cs r).passkeys ≤ 1)
unfolding run has_passkeys Keeps
run-has_passkeys parses [] r h k = (h, k)
run-has_passkeys parses (c ∷ cs) r h k =
    let (once, some_left) = call-Keeps parses c r in
    let left : 1 ≤ length (call parses c r).passkeys = some_left (ltb→lt 0 (length r.passkeys) h) in
    run-has_passkeys parses cs (call parses c r) (lt→ltb 0 _ left) (λ a. once a (k a))
