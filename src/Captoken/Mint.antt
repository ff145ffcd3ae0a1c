-- ===== src/Captoken/Mint.antt =====
-- internal/captoken/captoken.go: Verify reads what Mint wrote.
use curtilage.Prelude.{
  ℕ, ◌+◌, ◌-◌, ◌*◌, ◌/◌, ◌%◌, ◌^◌, ◌≡◌, ◌≤◌, ◌<◌, refl, sym, ap, ◌∙◌, false, List, [], ◌∷◌, ◌++◌,
  some, Text, length, take, drop, ltb, if◌then◌else◌, eq_text, arith, length-append, length-take,
  take-append, drop-append, ==_refl,
}
use curtilage.Captoken.{
  Crypto, Claims, Key, Keyring, Verdict, kid_len, mac_len, mac, big_endian, second, unix_of,
  time_of, body_of, mint, lookup, read_claims, verify_key, verify_body, verify,
}

module _ {ℓ} {A : Type ℓ} where
  take-front : (xs ys zs : List A) (n : ℕ) → n ≡ length xs → take n ((xs ++ ys) ++ zs) ≡ xs
  take-front [] ys zs n e = rw e refl
  take-front (x ∷ xs) ys zs n e = rw e (ap (λ ws. x ∷ ws) (take-front xs ys zs (length xs) refl))

big_endian_lem :
    (u : ℕ)
    → u < 2 ^ 64
    → (((((((u / 2 ^ 56) % 256 * 256 + (u / 2 ^ 48) % 256) * 256 + (u / 2 ^ 40) % 256) * 256
                        + (u / 2 ^ 32) % 256)
                      * 256
                    + (u / 2 ^ 24) % 256)
                  * 256
                + (u / 2 ^ 16) % 256)
              * 256
            + (u / 2 ^ 8) % 256)
          * 256
        + u % 256
      ≡ u
big_endian_lem u h = omega (arith, h)

time_of-unix_of : (t : ℕ) → t / second < 2 ^ 63 → time_of (unix_of t) ≡ t / second * second
time_of-unix_of t h = ground (arith, h)

-- The claims as Verify gives them back: the expiry in whole seconds.
abbrev pub floored : Claims → Claims
floored claims = record claims { expires = claims.expires / second * second }

-- What Verify says of these claims at `now`.
abbrev pub verdict : Claims → ℕ → Verdict
verdict claims now =
    if ltb now (floored claims).expires
    then Verdict.good (floored claims)
    else Verdict.expired (floored claims)

read_claims-body :
    (claims : Claims) (now : ℕ)
    → length claims.camera ≤ 255
    → 0 < length claims.event_id
    → claims.expires / second < 2 ^ 63
    → read_claims
        (big_endian (unix_of claims.expires)
          ++ (claims.media ∷ length claims.camera ∷ (claims.camera ++ claims.event_id)))
        now
      ≡ verdict claims now
unfolding read_claims
read_claims-body claims now h k t =
    let enough : ltb (length (claims.camera ++ claims.event_id)) (length claims.camera + 1)
        ≡ false =
      ground (arith, length-append claims.camera claims.event_id, k) in
    let u : ℕ = unix_of claims.expires in
    let small : u < 2 ^ 64 = omega arith in
    rw
      (
        big_endian_lem u small,
        time_of-unix_of claims.expires t,
        enough,
        take-append claims.camera claims.event_id (length claims.camera) refl,
        drop-append claims.camera claims.event_id (length claims.camera) refl,
      )
      refl

verify_key-append :
    (c : Crypto) (k : Key) (signed sig : Text) (now : ℕ)
    → length sig ≡ 16
    → sig ≡ mac c k.secret signed
    → verify_key c (some k) (signed ++ sig) now ≡ read_claims (drop kid_len signed) now
unfolding verify_key
verify_key-append c k signed sig now l e =
    let n : length (signed ++ sig) - mac_len ≡ length signed =
      omega (arith, length-append signed sig, l) in
    rw
      (
        take-append signed sig (length (signed ++ sig) - mac_len) n,
        drop-append signed sig (length (signed ++ sig) - mac_len) n,
        e,
        ==_refl (mac c k.secret signed),
      )
      refl

-- Go's base64 reads what it wrote, and a SHA-256 sum has 32 bytes.
pub record IsCrypto (c : Crypto) : Type 0 where
  pub decode-encode : (b : Text) → c.decode (c.encode b) ≡ some b
  pub hmac_length : (k b : Text) → length (c.hmac_sha256 k b) ≡ 32

length-mac : (c : Crypto) → IsCrypto c → (secret text : Text) → length (mac c secret text) ≡ 16
unfolding mac
length-mac c h secret text =
    omega (arith, length-take 16 (c.hmac_sha256 secret text), h.hmac_length secret text)

body_of_lem :
    (k : Key) (claims : Claims)
    → length claims.camera ≤ 255
    → body_of k claims
      ≡ k.id
        ++ (big_endian (unix_of claims.expires)
            ++ (claims.media ∷ length claims.camera ∷ (claims.camera ++ claims.event_id)))
unfolding body_of
body_of_lem k claims h =
    let fits : ltb 255 (length claims.camera) ≡ false = ground (arith, h) in rw fits refl

verify-encode :
    (c : Crypto) (ring : Keyring) (body : Text) (now : ℕ)
    → IsCrypto c
    → ltb (length body) 31 ≡ false
    → verify c ring (c.encode body) now ≡ verify_key c (lookup ring (take kid_len body)) body now
unfolding verify verify_body
verify-encode c ring body now h long = rw (verify, h.decode-encode body, long) refl

-- Every ring that has the minting key, as its current or its prior one, reads a minted token as the
-- claims that were signed, with the expiry in whole seconds: good before that expiry, expired from
-- it on. The camera's name has at most 255 bytes, the event's id one at least.
pub verify-mint :
    (c : Crypto) (minting verifying : Keyring) (claims : Claims) (now : ℕ)
    → IsCrypto c
    → length minting.current.id ≡ 4
    → lookup verifying minting.current.id ≡ some minting.current
    → length claims.camera ≤ 255
    → 0 < length claims.event_id
    → claims.expires / second < 2 ^ 63
    → verify c verifying (mint c minting claims) now ≡ verdict claims now
unfolding mint
verify-mint c minting verifying claims now h l found camera event t =
    let k : Key = minting.current in
    let body : Text = body_of k claims in
    let sig : Text = mac c k.secret body in
    let sig_length = length-mac c h k.secret body in
    let rest : Text =
      big_endian (unix_of claims.expires)
      ++ (claims.media ∷ length claims.camera ∷ (claims.camera ++ claims.event_id)) in
    let split_body : body ≡ k.id ++ rest = body_of_lem k claims camera in
    let long : ltb (length (body ++ sig)) 31 ≡ false = rw split_body (
      ground (
        arith,
        length-append (k.id ++ rest) (mac c k.secret (k.id ++ rest)),
        length-append k.id rest,
        length-append claims.camera claims.event_id,
        l,
        event,
        length-mac c h k.secret (k.id ++ rest),
      )) in
    let named : take kid_len (body ++ sig) ≡ k.id =
      ap (λ b. take kid_len (b ++ sig)) split_body ∙ take-front k.id rest sig kid_len (sym l) in
    let signed : drop kid_len body ≡ rest =
      ap (drop kid_len) split_body ∙ drop-append k.id rest kid_len (sym l) in
    verify-encode c verifying (body ++ sig) now h long
    ∙ ap (λ o. verify_key c o (body ++ sig) now) (ap (lookup verifying) named ∙ found)
    ∙ verify_key-append c k body sig now sig_length refl
    ∙ ap (λ b. read_claims b now) signed
    ∙ read_claims-body claims now camera event t
