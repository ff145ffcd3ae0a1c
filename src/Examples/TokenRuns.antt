-- ===== src/Examples/TokenRuns.antt =====
-- Runs of internal/captoken: a rotation, with an encoding that changes nothing and a MAC of zeros.
use curtilage.Prelude.{ℕ, ◌≡◌, refl, [], ◌∷◌, some, none, Text, codes, ◌++◌, arith}
use curtilage.Captoken.{Crypto, Claims, Key, Keyring, Verdict, lookup, mint, verify}
use curtilage.Captoken.Authentic.{verify-good, Accepted}
use curtilage.Captoken.Mint.{IsCrypto, floored, verdict, verify-mint}

abbrev pub zeros : Text
zeros = 0 ∷ 0 ∷ 0 ∷ 0 ∷ 0 ∷ 0 ∷ 0 ∷ 0 ∷ []

abbrev pub crypto : Crypto
crypto = record {
  encode = λ t. t;
  decode = λ t. some t;
  sha256 = λ t. t;
  hmac_sha256 = λ k t. zeros ++ (zeros ++ (zeros ++ zeros));
}

crypto-IsCrypto : IsCrypto crypto
crypto-IsCrypto = record { decode-encode = λ b. refl; hmac_length = λ k b. refl }

abbrev pub old_key : Key
old_key = record { id = codes "old1"; secret = codes "an old secret" }

abbrev pub old_ring : Keyring
old_ring = record { current = old_key; prior = none }

abbrev pub new_ring : Keyring
new_ring = record {
  current = record { id = codes "new1"; secret = codes "a new secret" };
  prior = some old_key;
}

abbrev claims : Claims
claims = record {
  event_id = codes "EVENT";
  media = 2;
  camera = codes "porch";
  expires = 63_900_000_000_500_000_000;
}

abbrev now : ℕ
now = 63_899_999_999_000_000_000

old_key_found : lookup new_ring old_key.id ≡ some old_key
unfolding lookup
old_key_found = refl

verify-mint_example : verify crypto new_ring (mint crypto old_ring claims) now ≡ verdict claims now
verify-mint_example =
    verify-mint crypto old_ring new_ring claims now crypto-IsCrypto refl old_key_found (omega arith)
      (omega arith) (omega arith)

token_good :
    verify crypto new_ring (mint crypto old_ring claims) now ≡ Verdict.good (floored claims)
token_good = verify-mint_example

verify-good_example :
    (body : Text) × (crypto.decode (mint crypto old_ring claims) ≡ some body)
    × Accepted crypto new_ring body now (floored claims)
verify-good_example =
    verify-good crypto new_ring (mint crypto old_ring claims) now (floored claims) token_good
