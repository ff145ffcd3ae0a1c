-- ===== src/Webauthn/Ceremonies.antt =====
-- internal/webauthn/webauthn.go: what the two ceremonies guarantee.
use curtilage.Prelude.{
  ℕ, ◌-◌, ◌≡◌, ◌<◌, refl, sym, ap, ◌∙◌, Bool, true, false, not, ◌&&◌, [], ◌++◌, Option, none, some,
  Text, codes, length, take, drop, ltb, leb, if◌then◌else◌, ◌==◌, eq_text, arith, Bool-cases, inl,
  inr, IfSome, IfSome-bind, IfSome-if, IfSome-get, length-append, take-append, text_eq_iff,
}
use mathlib.Core.List.{append-nil}
use curtilage.Cbor.{ℤ, Label, Item, get_field, decode, decode_prefix}
use curtilage.Cbor.Reads.{Reads, Reads-pure, Reads-fail, Reads-bind, Reads-decode_prefix}
use curtilage.Webauthn.{
  PublicKey, ClientData, Crypto, Credential, RelyingParty, is_present, is_verified, is_attested,
  check_client_data, check_auth_data, key_of, lift, parse_cose_prefix, parse_cose_key, attested,
  register_item, verify_registration, verify_assertion, verify_signature, byte_at,
}

-- The stored COSE bytes give the credential's algorithm and key back.
abbrev Restores : Crypto → Credential → Type 0
Restores c cred = parse_cose_key c cred.cose ≡ some (cred.alg, cred.key)

Reads-lift {ℓ} : {A : Type ℓ} (o : Option A) → Reads (lift o)
unfolding lift
Reads-lift none = Reads-fail
Reads-lift (some a) = Reads-pure a

Reads-parse_cose_prefix : (c : Crypto) → Reads (parse_cose_prefix c)
unfolding parse_cose_prefix
Reads-parse_cose_prefix c =
    Reads-bind decode_prefix _ Reads-decode_prefix λ v. Reads-lift (key_of c v)

parse_cose_key_lem :
    (c : Crypto) (b rest : Text) (k : ℤ × PublicKey)
    → parse_cose_prefix c b ≡ some (k, rest)
    → parse_cose_key c b ≡ some k
unfolding parse_cose_key
parse_cose_key_lem c b rest k e = rw (parse_cose_key, e) refl

-- The bytes that a key spanned, on their own, give the same key.
cose_used :
    (c : Crypto) (raw left : Text) (k : ℤ × PublicKey)
    → parse_cose_prefix c raw ≡ some (k, left)
    → parse_cose_key c (take (length raw - length left) raw) ≡ some k
cose_used c raw left k e =
    let (used, p, again) = Reads-parse_cose_prefix c raw k left e in
    let size : length raw - length left ≡ length used =
      omega (arith, ap (length {A = ℕ}) p, length-append used left) in
    let front : take (length raw - length left) raw ≡ used =
      ap (take (length raw - length left)) p ∙ take-append used left _ size in
    let alone : parse_cose_prefix c used ≡ some (k, []) =
      ap (parse_cose_prefix c) (sym (append-nil used)) ∙ again [] in
    ap (parse_cose_key c) front ∙ parse_cose_key_lem c used [] k alone

attested-Restores :
    (c : Crypto) (count : ℕ) (rest : Text) → IfSome (Restores c) (attested c count rest)
unfolding attested
attested-Restores c count rest = IfSome-if (Restores c) (ltb (length rest) 18) none _ tt (
    IfSome-if (Restores c) _ none _ tt
      (IfSome-bind (Restores c) (parse_cose_prefix c _) _ (λ p e. cose_used c _ p.1 p.0 e)))

register_item-Restores :
    (c : Crypto) (rp : RelyingParty) (v : Item) → IfSome (Restores c) (register_item c rp v)
unfolding register_item
register_item-Restores c rp (Item.fields m) =
    register_field (get_field (Label.name (codes "authData")) m)
  where
    register_field :
        (o : Option Item)
        → IfSome (Restores c) (elim o as (λ _. Option Credential) [
          | some (Item.bytes auth) ↦ elim (check_auth_data c rp auth) as (λ _. Option Credential) [
            | none ↦ none
            | some (flags, count) ↦
                if not (is_attested flags) then none else attested c count (drop 37 auth)
          ]
          | _ ↦ none
        ])
    register_field (some (Item.bytes auth)) =
        IfSome-bind (Restores c) (check_auth_data c rp auth) _ λ r e.
          IfSome-if (Restores c) (not (is_attested r.0)) none _ tt
            (attested-Restores c r.1 (drop 37 auth))
    register_field _ = tt
register_item-Restores c rp _ = tt

registered :
    (c : Crypto) (rp : RelyingParty) (json attestation challenge : Text)
    → IfSome (Restores c) (verify_registration c rp json attestation challenge)
unfolding verify_registration
registered c rp json attestation challenge =
    IfSome-if (Restores c) _ none _ tt
      (IfSome-bind (Restores c) (decode attestation) _ λ v e. register_item-Restores c rp v)

-- A credential that registration accepts is restored from disk: parsing its stored COSE bytes,
-- which were cut out of the authenticator's data, gives its algorithm and its key.
pub verify_registration-Restores :
    (c : Crypto) (rp : RelyingParty) (json attestation challenge : Text) (cred : Credential)
    → verify_registration c rp json attestation challenge ≡ some cred
    → parse_cose_key c cred.cose ≡ some (cred.alg, cred.key)
verify_registration-Restores c rp json attestation challenge cred e =
    IfSome-get (Restores c) _ cred (registered c rp json attestation challenge) e

-- The authenticator answers for this relying party, with the user present and verified.
abbrev Answers : Crypto → RelyingParty → Text → ℕ × ℕ → Type 0
Answers c rp auth r =
    (take 32 auth ≡ c.sha256 rp.id) × (is_present r.0 ≡ true) × (is_verified r.0 ≡ true)

check_auth_data-Answers :
    (c : Crypto) (rp : RelyingParty) (auth : Text)
    → IfSome (Answers c rp auth) (check_auth_data c rp auth)
unfolding check_auth_data
check_auth_data-Answers c rp auth =
    IfSome-if (Answers c rp auth) (ltb (length auth) 37) none _ tt
      (elim (Bool-cases (take 32 auth == c.sha256 rp.id)) [
        | inr n ↦ rw n tt
        | inl t ↦ rw t (elim (Bool-cases (is_present (byte_at 32 auth))) [
          | inr n ↦ rw n tt
          | inl u ↦ rw u (elim (Bool-cases (is_verified (byte_at 32 auth))) [
            | inr n ↦ rw n tt
            | inl v ↦ rw v ((text_eq_iff (take 32 auth) (c.sha256 rp.id)).0 t, u, v)
          ])
        ])
      ])

-- The client data parses, and names the ceremony, the challenge and the relying party's origin.
abbrev pub Names : Crypto → RelyingParty → Text → Text → Text → Type 0
Names c rp json ceremony challenge =
    (cd : ClientData) × (c.client_data json ≡ some cd)
    × (cd.type ≡ ceremony)
    × (c.base64 cd.challenge ≡ some challenge)
    × (cd.origin ≡ rp.origin)

carries :
    (got : Option Text) (challenge : Text)
    → (elim got [ none ↦ false | some b ↦ b == challenge ]) ≡ true
    → got ≡ some challenge
carries none challenge h = cc
carries (some b) challenge h = ap some ((text_eq_iff b challenge).0 h)

check_client_data-Names :
    (c : Crypto) (rp : RelyingParty) (json ceremony challenge : Text)
    → check_client_data c rp json ceremony challenge ≡ true
    → Names c rp json ceremony challenge
unfolding check_client_data
check_client_data-Names c rp json ceremony challenge h = named (c.client_data json) refl h
  where
    named :
        (o : Option ClientData)
        → c.client_data json ≡ o
        → (elim o [
          | none ↦ false
          | some cd ↦
              (cd.type == ceremony)
              && ((elim (c.base64 cd.challenge) [ none ↦ false | some b ↦ b == challenge ])
                  && (cd.origin == rp.origin))
        ])
          ≡ true
        → Names c rp json ceremony challenge
    named none e h = cc
    named (some cd) e h =
        let (type, rest) = both h in
        let (sent, origin) = both rest in
        (
          cd,
          e,
          (text_eq_iff cd.type ceremony).0 type,
          carries (c.base64 cd.challenge) challenge sent,
          (text_eq_iff cd.origin rp.origin).0 origin,
        )
      where
        both : {a b : Bool} → (a && b) ≡ true → (a ≡ true) × (b ≡ true)
        both {a = true} {b = b} h = (refl, h)
        both {a = false} {b = b} h = cc

-- What an accepted assertion has, besides its count.
abbrev pub Asserted : Crypto → RelyingParty → Credential → Text → Text → Text → Text → ℕ → Type 0
Asserted c rp cred json auth sig challenge count =
    Names c rp json (codes "webauthn.get") challenge
    × (take 32 auth ≡ c.sha256 rp.id)
    × ((flags : ℕ) × (check_auth_data c rp auth ≡ some (flags, count))
        × (is_present flags ≡ true)
        × (is_verified flags ≡ true))
    × (verify_signature c cred.key (c.sha256 (auth ++ c.sha256 json)) sig ≡ true)
    × (0 < cred.sign_count → cred.sign_count < count)

signed_by :
    (c : Crypto) (rp : RelyingParty) (cred : Credential) (json auth sig challenge : Text)
    (r : ℕ × ℕ)
    → check_client_data c rp json (codes "webauthn.get") challenge ≡ true
    → check_auth_data c rp auth ≡ some r
    → IfSome (Asserted c rp cred json auth sig challenge) (
        if ltb 0 cred.sign_count && leb r.1 cred.sign_count
        then none
        else if not (verify_signature c cred.key (c.sha256 (auth ++ c.sha256 json)) sig)
        then none
        else some r.1)
signed_by c rp cred json auth sig challenge r t e =
    let (hash, present, verified) =
      IfSome-get (Answers c rp auth) _ r (check_auth_data-Answers c rp auth) e in
    elim (Bool-cases (ltb 0 cred.sign_count && leb r.1 cred.sign_count)) [
      | inl stale ↦ rw stale tt
      | inr fresh ↦
          rw fresh
            (elim (Bool-cases
              (verify_signature c cred.key (c.sha256 (auth ++ c.sha256 json)) sig)) [
                | inr n ↦ rw n tt
                | inl v ↦ rw v (
                  check_client_data-Names c rp json (codes "webauthn.get") challenge t,
                  hash,
                  (r.0, e, present, verified),
                  v,
                  λ k. ground (arith, fresh, k),
                )
              ])
    ]

assertion_checked :
    (c : Crypto) (rp : RelyingParty) (cred : Credential) (json auth sig challenge : Text)
    → IfSome
        (Asserted c rp cred json auth sig challenge)
        (verify_assertion c rp cred json auth sig challenge)
unfolding verify_assertion
assertion_checked c rp cred json auth sig challenge =
    elim (Bool-cases (check_client_data c rp json (codes "webauthn.get") challenge)) [
      | inr n ↦ rw n tt
      | inl t ↦ rw t (
          IfSome-bind (Asserted c rp cred json auth sig challenge) (check_auth_data c rp auth) _
            λ r e. signed_by c rp cred json auth sig challenge r t e)
    ]

-- Verification takes an assertion only if its client data parses and has the type webauthn.get,
-- this challenge in base64 and the relying party's origin, the authenticator answered for this
-- relying party with the user present and verified, the stored key signs both, and its counter,
-- once the stored one is above 0, is above the stored one.
pub verify_assertion-Asserted :
    (c : Crypto) (rp : RelyingParty) (cred : Credential) (json auth sig challenge : Text)
    (count : ℕ)
    → verify_assertion c rp cred json auth sig challenge ≡ some count
    → Asserted c rp cred json auth sig challenge count
verify_assertion-Asserted c rp cred json auth sig challenge count e =
    IfSome-get (Asserted c rp cred json auth sig challenge) _ count
      (assertion_checked c rp cred json auth sig challenge) e
