-- ===== src/Store/Pages.antt =====
-- internal/store/store.go, List: one page, newest first, and the cursor that continues it. The
-- cursor is the decoded continuation token; none is the empty token.
use curtilage.Prelude.{
  ℕ, zero, suc, ◌≡◌, refl, inl, inr, Bool, true, false, not, List, [], ◌∷◌, Option, none, some,
  Text, All, arith, take, drop, keep_if, map, last_of, if◌then◌else◌, Bool-cases,
}
use curtilage.Prelude.Search.{search, first_index}
use curtilage.Policy.{Event}
use curtilage.Store.{Store, Entry, position, is_older, wants}
use curtilage.Store.Order.{Cursor, older, older_irrefl, older_asym}
use curtilage.Store.Slice.{Desc}

-- cameraSet: no camera named is every camera.
unfoldable pub camera_set : List Text → Option (List Text)
camera_set [] = none
camera_set (c ∷ cs) = some (c ∷ cs)

-- The loop of List: events that the caller wants, until the page is full.
fill_page : Option (List Text) → ℕ → List Entry → List Event
fill_page want zero xs = []
fill_page want (suc n) [] = []
fill_page want (suc n) (x ∷ xs) =
    let skipped = fill_page want (suc n) xs in
    let kept = x.ev ∷ fill_page want n xs in if not (wants want x.ev.camera) then skipped else kept

-- The first entry strictly older than the cursor, or the first of all.
unfoldable pub start_at : Option Cursor → List Entry → ℕ
start_at none ordered = 0
start_at (some c) ordered = search (is_older c) ordered

unfoldable pub cursor_of : Option Event → Option Cursor
cursor_of none = none
cursor_of (some e) = some (record { started_at = e.started_at; id = e.id })

-- (s *Store) List, over a decoded token.
unfoldable pub list : List Text → ℕ → Option Cursor → Store → List Event × Option Cursor
unfolding camera_set fill_page start_at cursor_of
list cameras page_size after s =
    let page =
      fill_page (camera_set cameras) page_size (drop (start_at after s.ordered) s.ordered) in
    (page, cursor_of (last_of page))

abbrev pub wanted : List Text → List Entry → List Entry
wanted cameras = keep_if (λ x. wants (camera_set cameras) x.ev.camera)

-- What is left to list after a cursor: every wanted entry past it.
abbrev pub left : List Text → Option Cursor → Store → List Entry
left cameras after s = wanted cameras (drop (start_at after s.ordered) s.ordered)

abbrev pub events : List Entry → List Event
events = map (λ x. x.ev)

fill_page-take :
    (want : Option (List Text)) (n : ℕ) (xs : List Entry)
    → fill_page want n xs ≡ events (take n (keep_if (λ x. wants want x.ev.camera) xs))
unfolding fill_page
fill_page-take want zero xs = refl
fill_page-take want (suc n) [] = refl
fill_page-take want (suc n) (x ∷ xs) = elim (Bool-cases (wants want x.ev.camera)) [
  | inl t ↦ rw t (rw (fill_page-take want n xs))
  | inr f ↦ rw f (fill_page-take want (suc n) xs)
]

pub page-left :
    (cameras : List Text) (n : ℕ) (after : Option Cursor) (s : Store)
    → (list cameras n after s).0 ≡ events (take n (left cameras after s))
unfolding list
page-left cameras n after s = fill_page-take (camera_set cameras) n _

take_nil {ℓ} : {A : Type ℓ} (n : ℕ) (l : List A) → take n l ≡ [] → drop n l ≡ l
take_nil zero l h = refl
take_nil (suc n) [] h = refl
take_nil (suc n) (x ∷ l) h = cc

module _ (w : Entry → Bool) where
  pub last_All :
      (P : Entry → Type 0) (n : ℕ) (xs : List Entry) (e : Entry)
      → All P xs
      → last_of (take n (keep_if w xs)) ≡ some e
      → P e
  last_All P zero xs e a h = cc
  last_All P (suc n) [] e a h = cc
  last_All P (suc n) (x ∷ xs) e a h = elim (Bool-cases (w x)) [
    | inl t ↦ head (last_All P n xs e a.1) (take n (keep_if w xs)) refl (rw t at h)
    | inr f ↦ last_All P (suc n) xs e a.1 (rw f at h)
  ]
    where
      head :
          (last_of (take n (keep_if w xs)) ≡ some e → P e)
          → (l : List Entry) → take n (keep_if w xs) ≡ l
          → last_of (x ∷ l) ≡ some e
          → P e
      head ih [] q k = let same : x ≡ e = cc in rw (← same) a.0
      head ih (y ∷ l) q k = ih (rw q k)

  -- All entries past the cursor of their predecessor.
  All-older :
      (c : Cursor) (xs : List Entry)
      → All (λ y. older (position y) c ≡ true) xs
      → drop (first_index (is_older c) xs) xs ≡ xs
  All-older c [] a = refl
  All-older c (x ∷ xs) a = rw a.0

  pub resume :
      (n : ℕ) (xs : List Entry) (e : Entry)
      → Desc xs
      → last_of (take n (keep_if w xs)) ≡ some e
      → keep_if w (drop (first_index (is_older (position e)) xs) xs) ≡ drop n (keep_if w xs)
  resume zero xs e d h = cc
  resume (suc n) [] e d h = cc
  resume (suc n) (x ∷ xs) e d h = elim (Bool-cases (w x)) [
    | inl t ↦ rw t (head (resume n xs e d.1) (take n (keep_if w xs)) refl (rw t at h))
    | inr f ↦
        let h' : last_of (take (suc n) (keep_if w xs)) ≡ some e = rw f at h in
        let k : older (position e) (position x) ≡ true = last_All _ (suc n) xs e d.0 h' in
        rw (older_asym (position e) (position x) k, f) (resume (suc n) xs e d.1 h')
  ]
    where
      head :
          (last_of (take n (keep_if w xs)) ≡ some e
            → keep_if w (drop (first_index (is_older (position e)) xs) xs) ≡ drop n (keep_if w xs))
          → (l : List Entry) → take n (keep_if w xs) ≡ l
          → last_of (x ∷ l) ≡ some e
          → keep_if w (drop (first_index (is_older (position e)) (x ∷ xs)) (x ∷ xs))
            ≡ drop n (keep_if w xs)
      head ih [] q k =
          let same : x ≡ e = cc in
          let self : older (position e) (position x) ≡ false =
            rw same (older_irrefl (position e)) in
          let under : All (λ y. older (position y) (position e) ≡ true) xs = rw same at d.0 in
          ground (
            arith,
            self,
            All-older (position e) xs under,
            older_irrefl (position e),
            take_nil n (keep_if w xs) q,
          )
      head ih (y ∷ l) q k =
          let h' : last_of (take n (keep_if w xs)) ≡ some e = rw q k in
          let p : older (position e) (position x) ≡ true = last_All _ n xs e d.0 h' in
          rw (older_asym (position e) (position x) p) (ih h')
