-- ===== src/Webauthn.antt =====
-- internal/webauthn/webauthn.go: registering a passkey and verifying an assertion. JSON, base64,
-- SHA-256, the P-256 curve and the two signature schemes are Go's, here an argument; `none` is any
-- error.
pub mod Ceremonies
use curtilage.Prelude.{
  ℕ, ◌+◌, ◌-◌, ◌*◌, ◌/◌, ◌%◌, Bool, true, false, not, ◌&&◌, ◌||◌, List, [], ◌∷◌, ◌++◌, Option, none,
  some, Text, codes, length, take, drop, get_elem?, nat_eq, ltb, leb, if◌then◌else◌, ◌==◌, eq_text,
}
use curtilage.Cbor.{
  ℤ, Label, Item, Fields, get_field, decode, decode_prefix, Reader, pure, fail, ◌>>=◌,
}

pub data PublicKey : Type 0 where
  ecdsa : ℕ → ℕ → PublicKey  -- a point of P-256
  rsa : ℕ → ℕ → PublicKey  -- modulus and exponent

-- clientData
pub record ClientData : Type 0 where
  pub type : Text
  pub challenge : Text
  pub origin : Text

pub record Crypto : Type 0 where
  pub client_data : Text → Option ClientData  -- json.Unmarshal
  pub base64 : Text → Option Text  -- base64.RawURLEncoding.DecodeString
  pub sha256 : Text → Text
  pub on_curve : ℕ → ℕ → Bool
  pub verify_ecdsa : ℕ → ℕ → Text → Text → Bool
  pub verify_rsa : ℕ → ℕ → Text → Text → Bool

pub record Credential : Type 0 where
  pub id : Text
  pub alg : ℤ
  pub key : PublicKey
  pub cose : Text
  pub sign_count : ℕ

pub record RelyingParty : Type 0 where
  pub origin : Text
  pub id : Text

-- RelyingParty.checkClientData; the flag is that it gives no error.
unfoldable pub check_client_data : Crypto → RelyingParty → Text → Text → Text → Bool
check_client_data c rp raw want challenge = elim (c.client_data raw) [
  | none ↦ false
  | some cd ↦
      (cd.type == want)
      && ((elim (c.base64 cd.challenge) [ none ↦ false | some got ↦ got == challenge ])
          && (cd.origin == rp.origin))
]

byte_at : ℕ → Text → ℕ
byte_at i b = elim (get_elem? b i) [ none ↦ 0 | some c ↦ c ]

-- `flags&flagUP`, `flags&flagUV` and `flags&flagAT`
abbrev pub is_present : ℕ → Bool
is_present flags = nat_eq (flags % 2) 1

abbrev pub is_verified : ℕ → Bool
is_verified flags = nat_eq ((flags / 4) % 2) 1

abbrev pub is_attested : ℕ → Bool
is_attested flags = nat_eq ((flags / 64) % 2) 1

-- RelyingParty.checkAuthData: the flags and the count
unfoldable pub check_auth_data : Crypto → RelyingParty → Text → Option (ℕ × ℕ)
unfolding byte_at
check_auth_data c rp auth =
    let flags = byte_at 32 auth in
    let count =
      ((byte_at 33 auth * 256 + byte_at 34 auth) * 256 + byte_at 35 auth) * 256 + byte_at 36 auth in
    if ltb (length auth) 37
    then none
    else if not (take 32 auth == c.sha256 rp.id)
    then none
    else if not (is_present flags)
    then none
    else if not (is_verified flags)
    then none
    else some (flags, count)

-- A map's field of type []byte, and one of type int64; the zero value where it is none.
bytes_at : Label → Fields → Text
unfolding get_field
bytes_at k fs = elim (get_field k fs) [ some (Item.bytes b) ↦ b | _ ↦ [] ]

int_at : Label → Fields → ℤ
int_at k fs = elim (get_field k fs) [ some (Item.int i) ↦ i | _ ↦ ℤ.pos 0 ]

-- big.Int.SetBytes, and the loop that makes the exponent
be_number : ℕ → Text → ℕ
be_number n [] = n
be_number n (c ∷ b) = be_number (n * 256 + c) b

is_int : ℤ → ℤ → Bool
is_int (ℤ.pos a) (ℤ.pos b) = nat_eq a b
is_int (ℤ.negsuc a) (ℤ.negsuc b) = nat_eq a b
is_int _ _ = false

abbrev pub alg_es256 : ℤ
alg_es256 = ℤ.negsuc 6

abbrev pub alg_rs256 : ℤ
alg_rs256 = ℤ.negsuc 256

-- The integer keys of a COSE key; `negsuc n` is -(n + 1).
abbrev pos_key : ℕ → Label
pos_key n = Label.number (ℤ.pos n)

abbrev neg_key : ℕ → Label
neg_key n = Label.number (ℤ.negsuc (n - 1))

-- The case of an elliptic curve's key
ec_key : Crypto → Fields → Option PublicKey
unfolding bytes_at int_at be_number is_int
ec_key c m =
    let x = bytes_at (neg_key 2) m in
    let y = bytes_at (neg_key 3) m in
    let px = be_number 0 x in
    let py = be_number 0 y in
    if not (is_int (int_at (neg_key 1) m) (ℤ.pos 1))
      || (not (nat_eq (length x) 32) || not (nat_eq (length y) 32))
    then none
    else if not (c.on_curve px py)
    then none
    else some (PublicKey.ecdsa px py)

-- The case of an RSA key
rsa_key : Fields → Option PublicKey
unfolding bytes_at be_number
rsa_key m =
    let modulus = bytes_at (neg_key 1) m in
    let e = bytes_at (neg_key 2) m in
    let exp = be_number 0 e in
    if ltb (length modulus) 256 || (nat_eq (length e) 0 || ltb 4 (length e))
    then none
    else if ltb exp 3
    then none
    else some (PublicKey.rsa (be_number 0 modulus) exp)

-- The switch on kty and alg
unfoldable pub key_of : Crypto → Item → Option (ℤ × PublicKey)
unfolding ec_key rsa_key int_at is_int
key_of c (Item.fields m) =
    let kty = int_at (pos_key 1) m in
    let alg = int_at (pos_key 3) m in
    if is_int kty (ℤ.pos 2) && is_int alg alg_es256
    then elim (ec_key c m) [ none ↦ none | some k ↦ some (alg, k) ]
    else if is_int kty (ℤ.pos 3) && is_int alg alg_rs256
    then elim (rsa_key m) [ none ↦ none | some k ↦ some (alg, k) ]
    else none
key_of c _ = none

lift {ℓ} : {A : Type ℓ} → Option A → Reader A
lift none = fail
lift (some a) = pure a

-- parseCOSEKey, with the bytes left in place of the number of those spanned
unfoldable pub parse_cose_prefix : Crypto → Reader (ℤ × PublicKey)
unfolding key_of lift
parse_cose_prefix c = do v ← decode_prefix; lift (key_of c v)

-- ParseCOSEKey
unfoldable pub parse_cose_key : Crypto → Text → Option (ℤ × PublicKey)
unfolding parse_cose_prefix
parse_cose_key c b = elim (parse_cose_prefix c b) [ none ↦ none | some (k, rest) ↦ some k ]

-- The credential of attested credential data: `aaguid(16) credIdLen(2) credId coseKey`
unfoldable pub attested : Crypto → ℕ → Text → Option Credential
unfolding byte_at
attested c count rest =
    let id_len = byte_at 16 rest * 256 + byte_at 17 rest in
    let raw = drop (18 + id_len) rest in
    if ltb (length rest) 18
    then none
    else if nat_eq id_len 0 || (ltb 1023 id_len || ltb (length rest) (18 + id_len))
    then none
    else elim (parse_cose_prefix c raw) [
      | none ↦ none
      | some (k, left) ↦ some (record {
        id = take id_len (drop 18 rest);
        alg = k.0;
        key = k.1;
        cose = take (length raw - length left) raw;
        sign_count = count;
      })
    ]

-- VerifyRegistration once the attestation object is decoded
unfoldable pub register_item : Crypto → RelyingParty → Item → Option Credential
unfolding get_field attested
register_item c rp (Item.fields m) = elim (get_field (Label.name (codes "authData")) m) [
  | some (Item.bytes auth) ↦ elim (check_auth_data c rp auth) [
    | none ↦ none
    | some (flags, count) ↦
        if not (is_attested flags) then none else attested c count (drop 37 auth)
  ]
  | _ ↦ none
]
register_item c rp _ = none

-- VerifyRegistration
unfoldable pub verify_registration : Crypto → RelyingParty → Text → Text → Text → Option Credential
unfolding check_client_data register_item
verify_registration c rp client_data_json attestation challenge =
    if not (check_client_data c rp client_data_json (codes "webauthn.create") challenge)
    then none
    else elim (decode attestation) [ none ↦ none | some v ↦ register_item c rp v ]

-- Whether the signature verifies under the key
unfoldable pub verify_signature : Crypto → PublicKey → Text → Text → Bool
verify_signature c (PublicKey.ecdsa x y) signed sig = c.verify_ecdsa x y signed sig
verify_signature c (PublicKey.rsa n e) signed sig = c.verify_rsa n e signed sig

-- VerifyAssertion: the new count
unfoldable pub verify_assertion :
    Crypto → RelyingParty → Credential → Text → Text → Text → Text → Option ℕ
unfolding check_client_data verify_signature
verify_assertion c rp cred client_data_json auth sig challenge =
    let signed = c.sha256 (auth ++ c.sha256 client_data_json) in
    if not (check_client_data c rp client_data_json (codes "webauthn.get") challenge)
    then none
    else elim (check_auth_data c rp auth) [
      | none ↦ none
      | some (flags, count) ↦
          if ltb 0 cred.sign_count && leb count cred.sign_count
          then none
          else if not (verify_signature c cred.key signed sig)
          then none
          else some count
    ]
