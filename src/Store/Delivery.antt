-- ===== src/Store/Delivery.antt =====
-- internal/store/store.go, offer against a reader: what a watcher receives, over any interleaving
-- of changes applied and changes read.
use mathlib.Core.List.{append_assoc}
use native.Mathlib.Nat.{le_refl, le_trans}
use curtilage.Prelude.{
  ◌≤◌, ◌≡◌, refl, ap, ◌∙◌, inl, inr, Bool, true, false, List, [], ◌∷◌, ◌++◌, Option, Text, arith,
  ltb, length, length-append, if◌then◌else◌, Bool-cases,
}
use curtilage.Policy.{Change}
use curtilage.Store.{Subscriber, offer, wants, watch_buffer}
use curtilage.Store.Watch.{offer_room}

-- What happens to a subscription: a change is applied to the store, or the reader takes one.
pub data Move : Type 0 where
  said : Change → Move
  took : Move

take_next : List Change → List Change → Subscriber → Subscriber × List Change
take_next [] got sub = (sub, got)
take_next (c ∷ q) got sub = (record sub { queue = q }, got ++ c ∷ [])

-- The subscription and all that its reader got.
pub deliver : List Move → Subscriber → List Change → Subscriber × List Change
unfolding take_next offer
deliver [] sub got = (sub, got)
deliver (said c ∷ ms) sub got = deliver ms (offer c sub) got
deliver (took ∷ ms) sub got = let (sub', got') = take_next sub.queue got sub in deliver ms sub' got'

-- The changes said that the watcher wants.
abbrev pub wanted_of : Option (List Text) → List Move → List Change
wanted_of want [] = []
wanted_of want (said c ∷ ms) =
    if wants want c.event.camera then c ∷ wanted_of want ms else wanted_of want ms
wanted_of want (took ∷ ms) = wanted_of want ms

took_cases :
    (P : Subscriber × List Change → Type 0) (ms : List Move) (sub : Subscriber) (got : List Change)
    → (sub.queue ≡ [] → P (deliver ms sub got))
    → ((c : Change) (q : List Change)
        → sub.queue ≡ c ∷ q
        → P (deliver ms (record sub { queue = q }) (got ++ c ∷ [])))
    → P (deliver (took ∷ ms) sub got)
unfolding deliver
took_cases P ms sub got empty full = go sub.queue refl
  where
    go :
        (q : List Change)
        → sub.queue ≡ q
        → P (deliver ms (take_next q got sub).0 (take_next q got sub).1)
    go [] e = empty e
    go (c ∷ q) e = full c q e

deliver_said :
    (c : Change) (ms : List Move) (sub : Subscriber) (got : List Change)
    → deliver (said c ∷ ms) sub got ≡ deliver ms (offer c sub) got
unfolding deliver
deliver_said c ms sub got = refl

offer_dead : (c : Change) (sub : Subscriber) → sub.dead ≡ true → offer c sub ≡ sub
unfolding offer
offer_dead c sub d = ground arith

-- A wanted change that finds the buffer full ends the subscription.
offer_full :
    (c : Change) (sub : Subscriber)
    → sub.dead ≡ false
    → wants sub.want c.event.camera ≡ true
    → ltb (length sub.queue) watch_buffer ≡ false
    → offer c sub ≡ record sub { dead = true }
unfolding offer
offer_full c sub d w f = ground arith

offer_unwanted :
    (c : Change) (sub : Subscriber) → wants sub.want c.event.camera ≡ false → offer c sub ≡ sub
unfolding offer
offer_unwanted c sub w = ground arith

deliver_dead :
    (ms : List Move) (sub : Subscriber) (got : List Change)
    → sub.dead ≡ true
    → ((deliver ms sub got).0.dead ≡ true)
      × ((deliver ms sub got).1 ++ (deliver ms sub got).0.queue ≡ got ++ sub.queue)
      × (length (deliver ms sub got).0.queue ≤ length sub.queue)
deliver_dead [] sub got d = unfold deliver in (d, refl, le_refl (length sub.queue))
deliver_dead (said c ∷ ms) sub got d =
    rw (deliver_said c ms sub got, offer_dead c sub d) (deliver_dead ms sub got d)
deliver_dead (took ∷ ms) sub got d =
    took_cases
      (λ r.
        (r.0.dead ≡ true)
        × (r.1 ++ r.0.queue ≡ got ++ sub.queue)
        × (length r.0.queue ≤ length sub.queue))
      ms sub got (λ e. deliver_dead ms sub got d)
      (λ c q e.
        let ih = deliver_dead ms (record sub { queue = q }) (got ++ c ∷ []) d in
        (ih.0, ih.1 ∙ rw e (append_assoc got (c ∷ []) q), rw e (omega (arith, ih.2))))

-- A channel within its bound, and a beginning of the target read or waiting: all of it, unless the
-- watcher was cut off.
abbrev pub Delivered : List Change → Subscriber × List Change → Type 0
Delivered target (sub, got) =
    (length sub.queue ≤ watch_buffer)
    × (rest : List Change) × (got ++ sub.queue ++ rest ≡ target)
    × (sub.dead ≡ false → rest ≡ [])

-- After any sequence of changes and reads the channel holds at most its 256 changes; what was read
-- and what waits is exactly the wanted changes in order while the watcher is not cut off, and the
-- beginning of them once it is.
pub deliver-Delivered :
    (ms : List Move) (sub : Subscriber) (got : List Change)
    → length sub.queue ≤ watch_buffer
    → sub.dead ≡ false
    → Delivered (got ++ sub.queue ++ wanted_of sub.want ms) (deliver ms sub got)
deliver-Delivered [] sub got l d = unfold deliver in (l, [], refl, λ h. refl)
deliver-Delivered (said c ∷ ms) sub got l d =
    rw (deliver_said c ms sub got) (elim (Bool-cases (wants sub.want c.event.camera)) [
      | inl w ↦ elim (Bool-cases (ltb (length sub.queue) watch_buffer)) [
        | inl t ↦
            let l' : length (sub.queue ++ c ∷ []) ≤ watch_buffer =
              ground (arith, length-append sub.queue (c ∷ [])) in
            let ih = deliver-Delivered ms (record sub { queue = sub.queue ++ c ∷ [] }) got l' d in
            let e : offer c sub ≡ record sub { queue = sub.queue ++ c ∷ [] } =
              ground (arith, offer_room c sub d) in
            rw (w, e) (ih.0, ih.1, ih.2 ∙ simp append_assoc, ih.3)
        | inr f ↦
            let dd = deliver_dead ms (record sub { dead = true }) got refl in
            rw (w, offer_full c sub d w f)
              (
                le_trans dd.2 l,
                c ∷ wanted_of sub.want ms,
                ap (λ q. q ++ c ∷ wanted_of sub.want ms) dd.1,
                λ h. absurd (not_both dd.0 h),
              )
      ]
      | inr u ↦ rw (u, offer_unwanted c sub u) (deliver-Delivered ms sub got l d)
    ])
  where
    not_both : {b : Bool} → b ≡ true → b ≡ false → ⊥
    not_both t f = cc
deliver-Delivered (took ∷ ms) sub got l d =
    took_cases (Delivered (got ++ sub.queue ++ wanted_of sub.want ms)) ms sub got
      (λ e. deliver-Delivered ms sub got l d)
      (λ c q e.
        let l' : length q ≤ watch_buffer = omega (arith, ap length e) in
        let ih = deliver-Delivered ms (record sub { queue = q }) (got ++ c ∷ []) l' d in
        (ih.0, ih.1, ih.2 ∙ rw e (simp append_assoc), ih.3))
