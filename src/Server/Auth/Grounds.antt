-- ===== src/Server/Auth/Grounds.antt =====
-- internal/server/auth.go, authorize: on what grounds a call passes.
use curtilage.Prelude.{
  ℕ, ◌≡◌, ◌↔◌, ◌≢◌, ◌⊎◌, refl, sym, ap, ◌∙◌, inl, inr, Bool, true, false, not, ◌||◌, List, [], ◌∷◌,
  ◌++◌, Option, none, some, Text, codes, any, All, if◌then◌else◌, ◌==◌, eq_text, text_eq_iff, arith,
  Bool-cases, nat_eq, nat_eq_iff, ne→==,
}
use curtilage.Strings.{cut_prefix}
use curtilage.Devices.{Registry, Device, armed, lookup}
use curtilage.Devices.Tokens.{is_live}
use curtilage.Server.Auth.{
  authorize, authorize-tests, bearer, first_bearer, is_ok, is_open, names_live,
}

cut_prefix-append : (p v t : Text) → cut_prefix p v ≡ some t → v ≡ p ++ t
unfolding cut_prefix
cut_prefix-append [] v t h = ground (arith, h)
cut_prefix-append (p ∷ ps) [] t h = cc
cut_prefix-append (p ∷ ps) (c ∷ v) t h = elim (Bool-cases (nat_eq p c)) [
  | inl e ↦
      let same : p ≡ c = (nat_eq_iff p c).0 e in
      rw same (ap (λ x. c ∷ x) (cut_prefix-append ps v t (rw e at h)))
  | inr n ↦ let off : none ≡ some t = rw n at h in cc
]

append-cut_prefix : (p t : Text) → cut_prefix p (p ++ t) ≡ some t
unfolding cut_prefix
append-cut_prefix [] t = refl
append-cut_prefix (p ∷ ps) t = rw ((nat_eq_iff p p).1 refl) (append-cut_prefix ps t)

-- A value of the metadata that bears no token
abbrev pub BearsNone : Text → Type 0
BearsNone v = (t : Text) → v ≡ codes "Bearer " ++ t → t ≡ []

-- The first value that bears a token bears this one.
abbrev pub Bears : List Text → Text → Type 0
Bears values token =
    (before : List Text) × (after : List Text) × (values
      ≡ before ++ (codes "Bearer " ++ token) ∷ after)
    × All BearsNone before
    × (token ≢ [])

Bears-cons : (v : Text) (vs : List Text) (t : Text) → BearsNone v → Bears vs t → Bears (v ∷ vs) t
Bears-cons v vs t n (before, after, e, a, s) = (v ∷ before, after, ap (λ x. v ∷ x) e, (n, a), s)

first_bearer-Bears : (vs : List Text) (t : Text) → first_bearer vs ≡ some t → Bears vs t
unfolding first_bearer
first_bearer-Bears [] t h = cc
first_bearer-Bears (v ∷ vs) t h =
    cut (first_bearer-Bears vs t) (cut_prefix (codes "Bearer ") v) refl h
  where
    cut :
        (first_bearer vs ≡ some t → Bears vs t)
        → (o : Option Text) → cut_prefix (codes "Bearer ") v ≡ o
        → (elim o [ none ↦ first_bearer vs | some u ↦ if u == [] then first_bearer vs else some u ])
          ≡ some t
        → Bears (v ∷ vs) t
    cut ih none e h =
        Bears-cons v vs t
          (λ u q.
            let c : cut_prefix (codes "Bearer ") v ≡ some u =
              rw q (append-cut_prefix (codes "Bearer ") u) in
            cc)
          (ih h)
    cut ih (some u) e h = elim (Bool-cases (u == [])) [
      | inl z ↦
          Bears-cons v vs t
            (λ w q.
              let c : cut_prefix (codes "Bearer ") v ≡ some w =
                rw q (append-cut_prefix (codes "Bearer ") w) in
              let empty : u ≡ [] = (text_eq_iff u []).0 z in cc)
            (ih (rw z at h))
      | inr f ↦
          let same : u ≡ t = (let k : some u ≡ some t = rw f at h in cc) in
          (
            [],
            vs,
            ap (λ x. x ∷ vs) (cut_prefix-append (codes "Bearer ") v t (rw same at e)),
            tt,
            λ z. let w : (u == []) ≡ true = (text_eq_iff u []).1 (same ∙ z) in cc,
          )
    ]

Bears-first_bearer :
    (before after : List Text) (t : Text)
    → All BearsNone before
    → t ≢ []
    → first_bearer (before ++ (codes "Bearer " ++ t) ∷ after) ≡ some t
unfolding first_bearer cut_prefix
Bears-first_bearer [] after t a n = rw (append-cut_prefix (codes "Bearer ") t, ne→== t [] n) refl
Bears-first_bearer (v ∷ before) after t a n =
    cut (Bears-first_bearer before after t a.1 n) (cut_prefix (codes "Bearer ") v) refl
  where
    rest : List Text
    rest = before ++ (codes "Bearer " ++ t) ∷ after

    cut :
        first_bearer rest ≡ some t
        → (o : Option Text) → cut_prefix (codes "Bearer ") v ≡ o
        → (elim o [
          | none ↦ first_bearer rest
          | some u ↦ if u == [] then first_bearer rest else some u
        ])
          ≡ some t
    cut ih none e = ih
    cut ih (some u) e =
        rw ((text_eq_iff u []).1 (a.0 u (cut_prefix-append (codes "Bearer ") v u e))) ih

-- Every device is revoked.
abbrev pub IsUnarmed : Registry → Type 0
IsUnarmed r = All (λ d. d.revoked ≡ true) r.order

none_live :
    (ds : List Device) → any (λ d. not d.revoked) ds ≡ false → All (λ d. d.revoked ≡ true) ds
none_live [] h = tt
none_live (d ∷ ds) h = elim (Bool-cases d.revoked) [
  | inl t ↦ (t, none_live ds (rw t at h))
  | inr f ↦ let off : true ≡ false = rw f at h in cc
]

any-All : (ds : List Device) → All (λ d. d.revoked ≡ true) ds → any (λ d. not d.revoked) ds ≡ false
any-All [] a = refl
any-All (d ∷ ds) a = rw a.0 (any-All ds a.1)

-- One of the metadata's values bears the token of a device that is enrolled and not revoked.
abbrev pub BearsLive : (Text → Text) → Option (List Text) → Registry → Type 0
BearsLive hash ctx r =
    (values : List Text) × (token : Text) × (d : Device) × (ctx ≡ some values)
    × Bears values token
    × (lookup (hash token) r.order ≡ some d)
    × (d.revoked ≡ false)

-- On what grounds a call may pass
abbrev pub IsGranted : (Text → Text) → Option (List Text) → Text → Registry → Type 0
IsGranted hash ctx method r =
    IsUnarmed r
    ⊎ ((method ≡ codes "/curtilage.v1.CurtilageService/Hello")
        ⊎ ((method ≡ codes "/curtilage.v1.CurtilageService/Enroll") ⊎ BearsLive hash ctx r))

open_method :
    (method : Text)
    → is_open method ≡ true
    → (method ≡ codes "/curtilage.v1.CurtilageService/Hello")
      ⊎ (method ≡ codes "/curtilage.v1.CurtilageService/Enroll")
unfolding is_open
open_method method h = elim (Bool-cases (codes "/curtilage.v1.CurtilageService/Hello" == method)) [
  | inl t ↦ inl (sym ((text_eq_iff (codes "/curtilage.v1.CurtilageService/Hello") method).0 t))
  | inr f ↦ elim (Bool-cases (codes "/curtilage.v1.CurtilageService/Enroll" == method)) [
    | inl t ↦ inr (sym ((text_eq_iff (codes "/curtilage.v1.CurtilageService/Enroll") method).0 t))
    | inr g ↦ let off : false ≡ true = rw (f, g) at h in cc
  ]
]

hello_opens : is_open (codes "/curtilage.v1.CurtilageService/Hello") ≡ true
unfolding is_open
hello_opens = refl

enroll_opens : is_open (codes "/curtilage.v1.CurtilageService/Enroll") ≡ true
unfolding is_open
enroll_opens = refl

module _ (hash : Text → Text) (r : Registry) where
  live_device :
      (o : Option Device) → is_live o ≡ true → (d : Device) × (o ≡ some d) × (d.revoked ≡ false)
  live_device none h = cc
  live_device (some d) h = (d, refl, ground (arith, h))

  names_live-BearsLive :
      (ctx : Option (List Text)) → names_live hash ctx r ≡ true → BearsLive hash ctx r
  unfolding bearer
  names_live-BearsLive none h = cc
  names_live-BearsLive (some values) h = named (first_bearer values) refl h
    where
      named :
          (o : Option Text)
          → first_bearer values ≡ o
          → (elim o [ none ↦ false | some token ↦ is_live (lookup (hash token) r.order) ]) ≡ true
          → BearsLive hash (some values) r
      named none e h = cc
      named (some token) e h =
          let (d, found, live) = live_device (lookup (hash token) r.order) h in
          (values, token, d, refl, first_bearer-Bears values token e, found, live)

  BearsLive-names_live :
      (ctx : Option (List Text)) → BearsLive hash ctx r → names_live hash ctx r ≡ true
  unfolding bearer
  BearsLive-names_live ctx (values, token, d, e, b, found, live) =
      let (before, after, split, none_there, full) = b in
      let first : first_bearer values ≡ some token =
        rw split (Bears-first_bearer before after token none_there full) in
      rw e (
        ap (λ o. elim o [ none ↦ false | some u ↦ is_live (lookup (hash u) r.order) ]) first
        ∙ rw (found, live) refl)

  tests :
      (ctx : Option (List Text)) (method : Text)
      → (not (armed r) || (is_open method || names_live hash ctx r)) ≡ true
      → IsGranted hash ctx method r
  unfolding armed
  tests ctx method h = elim (Bool-cases (armed r)) [
    | inr f ↦ inl (none_live r.order f)
    | inl t ↦ elim (Bool-cases (is_open method)) [
      | inl o ↦ elim (open_method method o) [ inl e ↦ inr (inl e) | inr e ↦ inr (inr (inl e)) ]
      | inr c ↦ inr (inr (inr (names_live-BearsLive ctx (rw (armed, t, c) at h))))
    ]
  ]

  granted :
      (ctx : Option (List Text)) (method : Text)
      → IsGranted hash ctx method r
      → (not (armed r) || (is_open method || names_live hash ctx r)) ≡ true
  unfolding armed
  granted ctx method (inl a) = rw (any-All r.order a) refl
  granted ctx method (inr (inl e)) = rw (e, hello_opens) (ground arith)
  granted ctx method (inr (inr (inl e))) = rw (e, enroll_opens) (ground arith)
  granted ctx method (inr (inr (inr b))) = rw (BearsLive-names_live ctx b) (ground arith)

-- A call passes exactly when every enrolled device is revoked (so also when there is none), or it
-- is Hello or Enroll, or the first value of its metadata that bears a token bears that of a device
-- that is enrolled and not revoked.
pub authorize-passes :
    (hash : Text → Text) (written : Bool) (ctx : Option (List Text)) (method : Text) (now : ℕ)
    (r : Registry)
    → (is_ok (authorize hash written ctx method now r).1 ≡ true) ↔ IsGranted hash ctx method r
authorize-passes hash written ctx method now r = (
  λ h. tests hash r ctx method (sym (authorize-tests hash written ctx method now r) ∙ h),
  λ g. authorize-tests hash written ctx method now r ∙ granted hash r ctx method g,
)
