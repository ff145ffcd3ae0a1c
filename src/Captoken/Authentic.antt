-- ===== src/Captoken/Authentic.antt =====
-- internal/captoken/captoken.go: which tokens Verify accepts.
use curtilage.Prelude.{
  ℕ, ◌+◌, ◌-◌, ◌≡◌, ◌<◌, ◌⊎◌, refl, sym, ap, ◌∷◌, Option, none, some, Text, length, take, drop, ltb,
  if◌then◌else◌, ◌==◌, eq_text, inl, inr, text_eq_iff, ltb→lt, chosen,
}
use mathlib.Core.Option.{some-injective}
use curtilage.Captoken.{
  Crypto, Claims, Key, Keyring, Verdict, kid_len, mac_len, mac, lookup, read_claims, verify_key,
  verify_body, verify,
}

-- The key is the current or the prior one.
abbrev pub Holds : Keyring → Key → Type 0
Holds ring k = (k ≡ ring.current) ⊎ (ring.prior ≡ some k)

-- The body ends in its MAC under the key.
abbrev pub IsSigned : Crypto → Key → Text → Type 0
IsSigned c k body =
    drop (length body - mac_len) body ≡ mac c k.secret (take (length body - mac_len) body)

timely :
    (now : ℕ) (read claims : Claims)
    → (if ltb now read.expires then Verdict.good read else Verdict.expired read)
      ≡ Verdict.good claims
    → now < claims.expires
timely now read claims e = elim (chosen (ltb now read.expires) _ _ _ e) [
  | inl (t, same) ↦
      let same_claims : read ≡ claims = ap claims_of same in
      rw (sym same_claims) (ltb→lt now read.expires t)
  | inr (f, other) ↦ cc
]
  where
    claims_of : Verdict → Claims
    claims_of (Verdict.good c) = c
    claims_of _ = read

read_claims-good :
    (text : Text) (now : ℕ) (claims : Claims)
    → read_claims text now ≡ Verdict.good claims
    → now < claims.expires
unfolding read_claims
read_claims-good (b7 ∷ b6 ∷ b5 ∷ b4 ∷ b3 ∷ b2 ∷ b1 ∷ b0 ∷ media ∷ cam_len ∷ rest) now claims e =
    elim (chosen (ltb (length rest) (cam_len + 1)) _ _ _ e) [
      | inl (t, bad) ↦ cc
      | inr (f, ok) ↦ timely now _ claims ok
    ]
read_claims-good _ now claims e = cc

held_prior :
    (id : Text) (k : Key) (prior : Option Key)
    → (elim prior [ none ↦ none | some j ↦ if id == j.id then some j else none ]) ≡ some k
    → prior ≡ some k
held_prior id k none e = cc
held_prior id k (some j) e = elim (chosen (id == j.id) (some j) none (some k) e) [
  | inl (t, same) ↦ same
  | inr (f, other) ↦ cc
]

lookup-Holds : (ring : Keyring) (id : Text) (k : Key) → lookup ring id ≡ some k → Holds ring k
unfolding lookup
lookup-Holds ring id k e = elim (chosen (id == ring.current.id) _ _ _ e) [
  | inl (t, same) ↦ inl (sym (some-injective _ _ same))
  | inr (f, prior) ↦ inr (held_prior id k ring.prior prior)
]

verify_key-good :
    (c : Crypto) (k : Key) (body : Text) (now : ℕ) (claims : Claims)
    → verify_key c (some k) body now ≡ Verdict.good claims
    → IsSigned c k body × (now < claims.expires)
unfolding verify_key
verify_key-good c k body now claims e =
    let signed : Text = take (length body - mac_len) body in
    elim (chosen (drop (length body - mac_len) body == mac c k.secret signed) _ _ _ e) [
      | inl (t, ok) ↦ (
        (text_eq_iff (drop (length body - mac_len) body) (mac c k.secret signed)).0 t,
        read_claims-good (drop kid_len signed) now claims ok,
      )
      | inr (f, bad) ↦ cc
    ]

-- A held key, the one the body names, signed it, and the claims have not expired.
abbrev pub Accepted : Crypto → Keyring → Text → ℕ → Claims → Type 0
Accepted c ring body now claims =
    (k : Key) × Holds ring k
    × (lookup ring (take kid_len body) ≡ some k)
    × IsSigned c k body
    × (now < claims.expires)

lookup-Accepted :
    (c : Crypto) (ring : Keyring) (body : Text) (now : ℕ) (claims : Claims) (found : Option Key)
    → lookup ring (take kid_len body) ≡ found
    → verify_key c found body now ≡ Verdict.good claims
    → Accepted c ring body now claims
unfolding verify_key
lookup-Accepted c ring body now claims none l e = cc
lookup-Accepted c ring body now claims (some k) l e =
    let (signed, timely) = verify_key-good c k body now claims e in
    (k, lookup-Holds ring _ k l, l, signed, timely)

decode-Accepted :
    (c : Crypto) (ring : Keyring) (now : ℕ) (claims : Claims) (decoded : Option Text)
    → (elim decoded [ none ↦ Verdict.malformed | some body ↦ verify_body c ring body now ])
      ≡ Verdict.good claims
    → (body : Text) × (decoded ≡ some body) × Accepted c ring body now claims
unfolding verify_body
decode-Accepted c ring now claims none e = cc
decode-Accepted c ring now claims (some body) e = elim (chosen (ltb (length body) 31) _ _ _ e) [
  | inl (t, bad) ↦ cc
  | inr (f, ok) ↦ (body, refl, lookup-Accepted c ring body now claims _ refl ok)
]

-- Verify accepts a token only if its bytes end in their MAC under a key that the ring holds, its
-- current or its prior one, the key that the bytes begin with the id of, and only before the expiry
-- it gives back.
pub verify-good :
    (c : Crypto) (ring : Keyring) (token : Text) (now : ℕ) (claims : Claims)
    → verify c ring token now ≡ Verdict.good claims
    → (body : Text) × (c.decode token ≡ some body) × Accepted c ring body now claims
unfolding verify
verify-good c ring token now claims e = decode-Accepted c ring now claims (c.decode token) e
