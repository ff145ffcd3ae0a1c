-- ===== src/Examples/DoorRuns.antt =====
-- Runs of internal/devices/passkeys.go: the one passkey of a registry is not to be removed.
use curtilage.Prelude.{◌≡◌, ◌≤◌, refl, true, List, [], ◌∷◌, Text, codes, arith}
use curtilage.Devices.{Registry}
use curtilage.Devices.Passkeys.{has_passkeys}
use curtilage.Devices.Passkeys.Door.{Call, add, set, remove, run, times, run-has_passkeys}

abbrev registry : Registry
registry = record {
  persists = true;
  order = [];
  passkeys =
      record {
        id = codes "a";
        name = codes "phone";
        credential_id = codes "c1";
        public_key = codes "k1";
        sign_count = 1;
        registered_at = 10;
      }
      ∷ [];
  pending = [];
  saved = 0;
  disk = ([], []);
}

abbrev calls : List Call
calls =
    remove true (codes "a") 20
    ∷ add true (codes "b") (codes "laptop")
        (record { id = codes "c1"; cose = codes "k1"; sign_count = 0 }) 30
    ∷ set true (codes "a") 5 40
    ∷ []

registry_shut : has_passkeys registry ≡ true
unfolding has_passkeys
registry_shut = refl

run-has_passkeys_example :
    (has_passkeys (run (λ k. true) calls registry) ≡ true)
    × ((c : Text) → times c (run (λ k. true) calls registry).passkeys ≤ 1)
run-has_passkeys_example =
    run-has_passkeys (λ k. true) calls registry registry_shut (λ c. ground arith)
