-- ===== src/Examples/WebauthnRuns.antt =====
-- Runs of internal/webauthn: one passkey registered and used, with a hash of zeros and a curve that
-- has every point.
use curtilage.Prelude.{◌≡◌, refl, true, [], ◌∷◌, ◌++◌, some, Text, codes}
use curtilage.Cbor.{decode}
use curtilage.Webauthn.{
  Crypto, Credential, RelyingParty, PublicKey, verify_registration, verify_assertion,
  parse_cose_key, alg_es256, parse_cose_prefix, check_auth_data, register_item,
}
use curtilage.Webauthn.Ceremonies.{
  verify_registration-Restores, verify_assertion-Asserted, Asserted,
}

abbrev pub eight : Text
eight = 1 ∷ 2 ∷ 3 ∷ 4 ∷ 5 ∷ 6 ∷ 7 ∷ 8 ∷ []

abbrev pub point : Text
point = eight ++ (eight ++ (eight ++ eight))

-- The client data's type is its text up to the blank: here all of it.
abbrev pub crypto : Crypto
crypto = record {
  client_data =
      λ t. some (record { type = t; challenge = codes "dare"; origin = codes "https://home" });
  base64 = λ t. some t;
  sha256 = λ t. point;
  on_curve = λ x y. true;
  verify_ecdsa = λ x y signed sig. true;
  verify_rsa = λ n e signed sig. true;
}

abbrev pub home : RelyingParty
home = record { origin = codes "https://home"; id = codes "home" }

-- {1: 2, 3: -7, -1: 1, -2: point, -3: point}
abbrev pub cose : Text
cose = 0xa5 ∷ 1 ∷ 2 ∷ 3 ∷ 0x26 ∷ 0x20 ∷ 1 ∷ 0x21 ∷ 0x58 ∷ 32 ∷ (point ++ (0x22 ∷ 0x58 ∷ 32 ∷ point))

-- The hash, the flags, the count 5, then no aaguid, an id of two bytes, the key and an extension.
abbrev auth_data : Text
auth_data =
    point ++ (0x45 ∷ 0 ∷ 0 ∷ 0 ∷ 5 ∷ (eight ++ (eight ++ (0 ∷ 2 ∷ 9 ∷ 9 ∷ (cose ++ 0xa0 ∷ [])))))

-- {"authData": auth_data}
abbrev attestation : Text
attestation = 0xa1 ∷ 0x68 ∷ (codes "authData" ++ (0x58 ∷ 135 ∷ auth_data))

abbrev pub cred : Credential
cred = record {
  id = 9 ∷ 9 ∷ [];
  alg = alg_es256;
  key =
      PublicKey.ecdsa 0x0102030405060708010203040506070801020304050607080102030405060708
        0x0102030405060708010203040506070801020304050607080102030405060708;
  cose = cose;
  sign_count = 5;
}

registers :
    verify_registration crypto home (codes "webauthn.create") attestation (codes "dare") ≡ some cred
unfolding verify_registration decode check_auth_data register_item parse_cose_prefix
registers = refl

verify_registration-Restores_example : parse_cose_key crypto cred.cose ≡ some (cred.alg, cred.key)
verify_registration-Restores_example =
    verify_registration-Restores crypto home (codes "webauthn.create") attestation (codes "dare")
      cred registers

-- The same data with the count 6
abbrev pub answer : Text
answer = point ++ 5 ∷ 0 ∷ 0 ∷ 0 ∷ 6 ∷ []

asserts :
    verify_assertion crypto home cred (codes "webauthn.get") answer (codes "sig") (codes "dare")
    ≡ some 6
unfolding verify_assertion check_auth_data
asserts = refl

verify_assertion-Asserted_example :
    Asserted crypto home cred (codes "webauthn.get") answer (codes "sig") (codes "dare") 6
verify_assertion-Asserted_example =
    verify_assertion-Asserted crypto home cred (codes "webauthn.get") answer (codes "sig")
      (codes "dare") 6 asserts
