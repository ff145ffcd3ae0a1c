-- ===== src/Cbor/Reads.antt =====
-- internal/webauthn/cbor.go: what a reader reads stands at the front, and nothing behind it
-- matters.
use curtilage.Prelude.{
  ℕ, zero, suc, ◌+◌, ◌*◌, ◌-◌, ◌^◌, ◌≡◌, refl, sym, ap, ◌∙◌, Bool, true, false, [], ◌∷◌, ◌++◌,
  Option, none, some, Text, length, take, drop, ltb, leb, nat_eq, ◌/◌, ◌%◌, if◌then◌else◌, arith,
  inl, inr, take-append-drop, take-append, drop-append, length-append, chosen, length-take,
}
use mathlib.Core.List.{append_assoc}
use curtilage.Cbor.{
  Item, Items, Fields, Reader, pure, fail, ◌>>=◌, byte, argument, argument_of, head, take_bytes,
  read_items, label_of, put_field, read_fields, item_of, value, decode_prefix, max_int64, ℤ, Label,
}

-- Where the reader succeeds, the bytes are those that it read and those that it leaves; and it
-- reads the same whatever follows the former.
abbrev pub Reads {ℓ} : {A : Type ℓ} → Reader A → Type ℓ
Reads {A} m =
    (b : Text) (a : A) (rest : Text)
    → m b ≡ some (a, rest)
    → (used : Text) × (b ≡ used ++ rest) × ((more : Text) → m (used ++ more) ≡ some (a, more))

pub Reads-pure {ℓ} : {A : Type ℓ} (a : A) → Reads (pure a)
Reads-pure a b a' rest e = ([], cc, λ more. cc)

pub Reads-fail {ℓ} : {A : Type ℓ} → Reads (fail {A = A})
Reads-fail b a rest e = cc

module _ {ℓ κ} {A : Type ℓ} {B : Type κ} (m : Reader A) (f : A → Reader B) where
  bind-append :
      (u v : Text) (a : A) (b : B) (more : Text)
      → m (u ++ (v ++ more)) ≡ some (a, v ++ more)
      → f a (v ++ more) ≡ some (b, more)
      → (m >>= f) ((u ++ v) ++ more) ≡ some (b, more)
  bind-append u v a b more e k = rw (append_assoc u v more, ◌>>=◌, e) k

  bind_found :
      (b : Text) (o : Option (A × Text)) (c : B) (rest : Text)
      → Reads m
      → ((a : A) → Reads (f a))
      → m b ≡ o
      → (elim o as (λ _. Option (B × Text)) [ none ↦ none | some (a, left) ↦ f a left ])
        ≡ some (c, rest)
      → (used : Text) × (b ≡ used ++ rest)
        × ((more : Text) → (m >>= f) (used ++ more) ≡ some (c, more))
  bind_found b none c rest h k e r = cc
  bind_found b (some (a, left)) c rest h k e r =
      let (u, p, again) = h b a left e in
      let (v, q, after) = k a left c rest r in
      (
        u ++ v,
        p ∙ ap (λ w. u ++ w) q ∙ sym (append_assoc u v rest),
        λ more. bind-append u v a c more (again (v ++ more)) (after more),
      )

  pub Reads-bind : Reads m → ((a : A) → Reads (f a)) → Reads (m >>= f)
  Reads-bind h k b c rest r = bind_found b (m b) c rest h k refl r

Reads-if {ℓ} :
    {A : Type ℓ} (t : Bool) (m n : Reader A) → Reads m → Reads n → Reads (if t then m else n)
Reads-if true m n h k = h
Reads-if false m n h k = k

Reads-byte : Reads byte
unfolding byte
Reads-byte [] a rest e = cc
Reads-byte (c ∷ b) a rest e = (c ∷ [], cc, λ more. cc)

Reads-argument : (n arg : ℕ) → Reads (argument n arg)
unfolding argument
Reads-argument zero arg = Reads-pure arg
Reads-argument (suc n) arg = Reads-bind byte _ Reads-byte (λ c. Reads-argument n (arg * 256 + c))

Reads-argument_of : (info : ℕ) → Reads (argument_of info)
unfolding argument_of
Reads-argument_of info = Reads-if (ltb info 24) (pure info) _ (Reads-pure info) (
    Reads-if (leb info 27) (argument (2 ^ (info - 24)) 0) fail (Reads-argument (2 ^ (info - 24)) 0)
      Reads-fail)

Reads-head : Reads head
unfolding head
Reads-head = Reads-bind byte _ Reads-byte λ first.
    Reads-bind (argument_of (first % 32)) _ (Reads-argument_of (first % 32))
      λ arg. Reads-pure (first / 32, arg)

take_front :
    (n : ℕ) (used more : Text) → n ≡ length used → take_bytes n (used ++ more) ≡ some (used, more)
unfolding take_bytes
take_front n used more e =
    let enough : ltb (length (used ++ more)) n ≡ false =
      ground (arith, length-append used more, e) in
    rw (enough, take-append used more n e, drop-append used more n e) refl

Reads-take_bytes : (n : ℕ) → Reads (take_bytes n)
unfolding take_bytes
Reads-take_bytes n b a rest e = elim (chosen (ltb (length b) n) none _ _ e) [
  | inl (t, none_left) ↦ cc
  | inr (f, same) ↦
      let enough : n ≡ length (take n b) = ground (arith, length-take n b, f) in
      let taken : take n b ≡ a = cc in
      let left : drop n b ≡ rest = cc in
      (
        take n b,
        sym (take-append-drop n b) ∙ ap (λ r. take n b ++ r) left,
        λ more. take_front n (take n b) more enough ∙ ap (λ r. some (r, more)) taken,
      )
]

Reads-read_items : (read : Reader Item) (n : ℕ) → Reads read → Reads (read_items read n)
unfolding read_items
Reads-read_items read zero h = Reads-pure Items.nil
Reads-read_items read (suc n) h = Reads-bind read _ h λ v.
    Reads-bind (read_items read n) _ (Reads-read_items read n h) λ vs. Reads-pure (Items.cons v vs)

Reads-label_of : (v : Item) → Reads (label_of v)
unfolding label_of
Reads-label_of (Item.int i) = Reads-pure (Label.number i)
Reads-label_of (Item.text t) = Reads-pure (Label.name t)
Reads-label_of _ = Reads-fail

Reads-read_fields :
    (read : Reader Item) (n : ℕ) (out : Fields) → Reads read → Reads (read_fields read n out)
unfolding read_fields
Reads-read_fields read zero out h = Reads-pure out
Reads-read_fields read (suc n) out h = Reads-bind read _ h λ item.
    Reads-bind (label_of item) _ (Reads-label_of item)
      λ k. Reads-bind read _ h λ v. Reads-read_fields read n (put_field k v out) h

Reads-item_of : (read : Reader Item) (major arg : ℕ) → Reads read → Reads (item_of read major arg)
unfolding item_of
Reads-item_of read major arg h =
    Reads-if (nat_eq major 0) _ _
      (Reads-if (ltb max_int64 arg) fail _ Reads-fail (Reads-pure (Item.int (ℤ.pos arg))))
      (Reads-if (nat_eq major 1) _ _
        (Reads-if (ltb (max_int64 - 1) arg) fail _ Reads-fail
          (Reads-pure (Item.int (ℤ.negsuc arg))))
        (Reads-if (nat_eq major 2) _ _
          (Reads-bind (take_bytes arg) _ (Reads-take_bytes arg) λ b. Reads-pure (Item.bytes b))
          (Reads-if (nat_eq major 3) _ _
            (Reads-bind (take_bytes arg) _ (Reads-take_bytes arg) λ b. Reads-pure (Item.text b))
            (Reads-if (nat_eq major 4) _ _
              (Reads-if (ltb 64 arg) fail _ Reads-fail (
                Reads-bind (read_items read arg) _ (Reads-read_items read arg h)
                  λ vs. Reads-pure (Item.array vs)))
              (Reads-if (nat_eq major 5) _ _
                (Reads-if (ltb 64 arg) fail _ Reads-fail (
                  Reads-bind (read_fields read arg Fields.empty) _
                    (Reads-read_fields read arg Fields.empty h) λ fs. Reads-pure (Item.fields fs)))
                Reads-fail)))))

pub Reads-value : (levels : ℕ) → Reads (value levels)
unfolding value
Reads-value zero = Reads-fail
Reads-value (suc levels) =
    Reads-bind head _ Reads-head λ h. Reads-item_of (value levels) h.0 h.1 (Reads-value levels)

-- decodeCBORPrefix reads an item off the front of the bytes: they are those that it read and those
-- that it leaves, and with anything else behind the former it reads the same item and leaves that.
pub Reads-decode_prefix : Reads decode_prefix
unfolding decode_prefix
Reads-decode_prefix = Reads-value 9
