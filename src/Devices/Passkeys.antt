-- ===== src/Devices/Passkeys.antt =====
-- internal/devices/passkeys.go: the admin credentials in the registry. The random id, the success
-- of a write and the COSE parser of internal/webauthn are arguments; `none` is an error's result.
pub mod Door
use curtilage.Prelude.{
  ℕ, Bool, true, false, not, List, [], ◌∷◌, ◌++◌, Option, none, some, Text, length, any, keep_if,
  nat_eq, if◌then◌else◌, ◌==◌, eq_text, ltb,
}
use curtilage.Devices.{Passkey, Registry, save}

-- The part of a webauthn.Credential that is stored.
pub record Credential : Type 0 where
  pub id : Text
  pub cose : Text
  pub sign_count : ℕ

-- HasPasskeys
unfoldable pub has_passkeys : Registry → Bool
has_passkeys r = ltb 0 (length r.passkeys)

-- passkey: the stored credential when its key parses
unfoldable pub passkey : (Text → Bool) → Passkey → Option Passkey
passkey parses p = if parses p.public_key then some p else none

abbrev has_credential : Text → Passkey → Bool
has_credential c p = p.credential_id == c

-- AddPasskey
unfoldable pub add_passkey :
    (Text → Bool) → Bool → Text → Text → Credential → ℕ → Registry → Registry × Option Passkey
unfolding passkey
add_passkey parses ok id name cred now r =
    let p : Passkey = record {
      id = id;
      name = name;
      credential_id = cred.id;
      public_key = cred.cose;
      sign_count = cred.sign_count;
      registered_at = now;
    } in
    if any (has_credential cred.id) r.passkeys
    then (r, none)
    else (let (s, saved) = save ok now (record r { passkeys = r.passkeys ++ p ∷ [] }) in
        (s, if saved then passkey parses p else none))

first_passkey : (Passkey → Bool) → List Passkey → Option Passkey
first_passkey test [] = none
first_passkey test (p ∷ ps) = if test p then some p else first_passkey test ps

-- PasskeyByCredentialID
unfoldable pub passkey_by_credential_id : (Text → Bool) → Text → Registry → Option Passkey
unfolding first_passkey passkey
passkey_by_credential_id parses c r = elim (first_passkey (has_credential c) r.passkeys) [
  | none ↦ none
  | some p ↦ passkey parses p
]

-- The counter of the first passkey of that id; none if there is no such passkey.
unfoldable pub set_count : Text → ℕ → List Passkey → Option (List Passkey)
set_count id count [] = none
set_count id count (p ∷ ps) =
    let rest = set_count id count ps in
    if p.id == id
    then some (record p { sign_count = count } ∷ ps)
    else elim rest [ none ↦ none | some qs ↦ some (p ∷ qs) ]

-- SetPasskeySignCount; it drops the error of its write.
unfoldable pub set_passkey_sign_count : Bool → Text → ℕ → ℕ → Registry → Registry
unfolding set_count
set_passkey_sign_count ok id count now r = elim (set_count id count r.passkeys) [
  | none ↦ r
  | some ps ↦ (save ok now (record r { passkeys = ps })).0
]

all_parsed : (Text → Bool) → List Passkey → List Passkey
all_parsed parses ps = keep_if (λ p. parses p.public_key) ps

-- Passkeys
unfoldable pub list_passkeys : (Text → Bool) → Registry → List Passkey
unfolding all_parsed
list_passkeys parses r = all_parsed parses r.passkeys

-- The list without the first passkey of that id; none if there is no such passkey.
unfoldable pub without : Text → List Passkey → Option (List Passkey)
without id [] = none
without id (p ∷ ps) =
    let rest = without id ps in
    if p.id == id then some ps else elim rest [ none ↦ none | some qs ↦ some (p ∷ qs) ]

-- RemovePasskey; the flag is that no error came back.
unfoldable pub remove_passkey : Bool → Text → ℕ → Registry → Registry × Bool
unfolding without
remove_passkey ok id now r = elim (without id r.passkeys) [
  | none ↦ (r, false)
  | some ps ↦
      if nat_eq (length r.passkeys) 1 then (r, false) else save ok now (record r { passkeys = ps })
]
