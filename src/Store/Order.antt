-- ===== src/Store/Order.antt =====
-- internal/store/store.go, cursor and the two comparisons: a position in list order, newest first,
-- ties by id downwards.
use curtilage.Prelude.{
  ℕ, ◌≡◌, ◌⊎◌, inl, inr, Bool, true, false, not, Text, text_lt, text_lt_irrefl, text_lt_trans,
  text_lt_total, arith, nat_eq, ltb, if◌then◌else◌, Bool-cases,
}

pub record Cursor : Type 0 where
  pub started_at : ℕ
  pub id : Text

-- (e *entry) older(c cursor), over the entry's own position.
unfoldable pub older : Cursor → Cursor → Bool
older e c =
    if not (nat_eq e.started_at c.started_at)
    then ltb e.started_at c.started_at
    else text_lt e.id c.id

-- (e *entry) newer(c cursor)
unfoldable pub newer : Cursor → Cursor → Bool
newer e c =
    if not (nat_eq e.started_at c.started_at)
    then ltb c.started_at e.started_at
    else text_lt c.id e.id

pub newer-eq-older : (e c : Cursor) → newer e c ≡ older c e
unfolding newer older
newer-eq-older e c = ground arith

pub older_irrefl : (c : Cursor) → older c c ≡ false
unfolding older
older_irrefl c = ground (arith, text_lt_irrefl c.id)

pub older_trans : (a b c : Cursor) → older a b ≡ true → older b c ≡ true → older a c ≡ true
unfolding older
older_trans a b c h k = ground (arith, text_lt_trans a.id b.id c.id)

pub older_total : (a b : Cursor) → (older a b ≡ true) ⊎ (a ≡ b) ⊎ (older b a ≡ true)
unfolding older
older_total a b = ground (arith, text_lt_total a.id b.id)

pub older_asym : (a b : Cursor) → older a b ≡ true → older b a ≡ false
older_asym a b h = elim (Bool-cases (older b a)) [
  | inl t ↦
      let t' : older a a ≡ true = older_trans a b a h t in
      let f : older a a ≡ false = older_irrefl a in cc
  | inr f ↦ f
]
