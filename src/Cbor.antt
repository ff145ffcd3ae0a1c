-- ===== src/Cbor.antt =====
-- internal/webauthn/cbor.go: the reader of the CBOR that attestation objects and COSE keys use. The
-- reader's state is the bytes from its position on. An int64 is `pos n`, or `negsuc n` for -1 - n.
pub mod Reads
use curtilage.Prelude.{
  ℕ, zero, suc, ◌+◌, ◌-◌, ◌*◌, ◌/◌, ◌%◌, ◌^◌, ◌≡◌, ◌↔◌, refl, Bool, true, false, ◌&&◌, List, [],
  ◌∷◌, Option, none, some, Text, length, take, drop, nat_eq, ltb, leb, if◌then◌else◌, ◌==◌, eq_text,
}

pub data ℤ : Type 0 where
  pos : ℕ → ℤ
  negsuc : ℕ → ℤ

-- The keys of a map that the reader accepts.
pub data Label : Type 0 where
  number : ℤ → Label
  name : Text → Label

mutual
  pub data Item : Type 0 where
    int : ℤ → Item
    bytes : Text → Item
    text : Text → Item
    array : Items → Item
    fields : Fields → Item

  pub data Items : Type 0 where
    nil : Items
    cons : Item → Items → Items

  pub data Fields : Type 0 where
    empty : Fields
    field : Label → Item → Fields → Fields

-- A reader gives what it read and the bytes left; none is any error.
abbrev pub Reader {ℓ} : Type ℓ → Type ℓ
Reader A = Text → Option (A × Text)

abbrev pub pure {ℓ} : {A : Type ℓ} → A → Reader A
pure a b = some (a, b)

abbrev pub fail {ℓ} : {A : Type ℓ} → Reader A
fail b = none

infixl 5 ◌>>=◌
abbrev pub ◌>>=◌ {ℓ κ} : {A : Type ℓ} {B : Type κ} → Reader A → (A → Reader B) → Reader B
◌>>=◌ m f b = elim (m b) [ none ↦ none | some (a, rest) ↦ f a rest ]

pub byte : Reader ℕ
byte [] = none
byte (c ∷ b) = some (c, b)

-- The bytes of an argument, `arg<<8 | next`; eight of them make no more than a uint64.
pub argument : ℕ → ℕ → Reader ℕ
unfolding byte
argument zero arg = pure arg
argument (suc n) arg = do c ← byte; argument n (arg * 256 + c)

-- The argument that the low five bits of a head announce.
pub argument_of : ℕ → Reader ℕ
unfolding argument
argument_of info =
    if ltb info 24 then pure info else if leb info 27 then argument (2 ^ (info - 24)) 0 else fail

-- head: the major type and its argument
unfoldable pub head : Reader (ℕ × ℕ)
unfolding byte argument_of
head = do first ← byte; arg ← argument_of (first % 32); pure (first / 32, arg)

-- take
unfoldable pub take_bytes : ℕ → Reader Text
take_bytes n b = if ltb (length b) n then none else some (take n b, drop n b)

-- The loop of an array
pub read_items : Reader Item → ℕ → Reader Items
read_items read zero = pure nil
read_items read (suc n) = do v ← read; vs ← read_items read n; pure (cons v vs)

-- The type switch on a map's key
pub label_of : Item → Reader Label
label_of (int i) = pure (number i)
label_of (text t) = pure (name t)
label_of _ = fail

int_eq : ℤ → ℤ → Bool
int_eq (pos a) (pos b) = nat_eq a b
int_eq (negsuc a) (negsuc b) = nat_eq a b
int_eq _ _ = false

label_eq : Label → Label → Bool
unfolding int_eq
label_eq (number a) (number b) = int_eq a b
label_eq (name a) (name b) = a == b
label_eq _ _ = false

-- out[k] = v
pub put_field : Label → Item → Fields → Fields
unfolding label_eq
put_field k v empty = field k v empty
put_field k v (field j w fs) = if label_eq j k then field j v fs else field j w (put_field k v fs)

-- m[k]
unfoldable pub get_field : Label → Fields → Option Item
unfolding label_eq
get_field k empty = none
get_field k (field j w fs) = if label_eq j k then some w else get_field k fs

-- The loop of a map, with what it has stored
pub read_fields : Reader Item → ℕ → Fields → Reader Fields
unfolding label_of put_field
read_fields read zero out = pure out
read_fields read (suc n) out = do
  item ← read
  k ← label_of item
  v ← read
  read_fields read n (put_field k v out)

abbrev max_int64 : ℕ
max_int64 = 9_223_372_036_854_775_807

-- The switch of value on the major type, `read` being value one level deeper
unfoldable pub item_of : Reader Item → ℕ → ℕ → Reader Item
unfolding take_bytes read_items read_fields
item_of read major arg =
    if nat_eq major 0
    then if ltb max_int64 arg then fail else pure (int (pos arg))
    else if nat_eq major 1
    then if ltb (max_int64 - 1) arg then fail else pure (int (negsuc arg))
    else if nat_eq major 2
    then (do b ← take_bytes arg; pure (bytes b))
    else if nat_eq major 3
    then (do b ← take_bytes arg; pure (text b))
    else if nat_eq major 4
    then if ltb 64 arg then fail else (do vs ← read_items read arg; pure (array vs))
    else if nat_eq major 5
    then if ltb 64 arg then fail else (do fs ← read_fields read arg empty; pure (fields fs))
    else fail

-- value; the first argument is `9 - depth`, so that it is zero where the nesting is too deep.
unfoldable pub value : ℕ → Reader Item
unfolding head item_of
value zero = fail
value (suc levels) = head >>= λ h. item_of (value levels) h.0 h.1

-- decodeCBORPrefix, with the bytes left in place of the number of those read
unfoldable pub decode_prefix : Reader Item
unfolding value
decode_prefix = value 9

-- decodeCBOR
unfoldable pub decode : Text → Option Item
unfolding decode_prefix
decode b = elim (decode_prefix b) [
  | none ↦ none
  | some (v, []) ↦ some v
  | some (v, c ∷ rest) ↦ none
]
