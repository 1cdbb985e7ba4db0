-- ===== src/Store/Announced.antt =====
-- Events that an outbox has had: the rows of `outbox_events` in
-- services/*/internal/repository/outbox_repository.go, which no statement takes away.
use msa_saga_go_practical.Prelude.{ℕ, ◌≡◌, ◌⊎◌, Bool, List, [], ◌∷◌, Bool-cases, inl, inr}
use mathlib.Core.Path.{subst}
use mathlib.Core.List.{Memᴰ}
use msa_saga_go_practical.Prelude.Int.{ℤ}
use msa_saga_go_practical.Common.Events.{EventType}
use msa_saga_go_practical.Common.Wire.{Payload}
use msa_saga_go_practical.Common.Result.{Result, ok}
use msa_saga_go_practical.Store.Table.{insert, update}
use msa_saga_go_practical.Store.Session.{OutboxEvent}
use msa_saga_go_practical.Store.Pending.{has_id, set_sent, mark_sent}

-- Some row has this property.
abbrev pub Any : {R : Type 0} → (R → Type 0) → List R → Type 0
Any P [] = ⊥
Any P (r ∷ t) = P r ⊎ Any P t

pub Any-insert : {R : Type 0} (P : R → Type 0) (r : R) (t : List R) → Any P t → Any P (insert r t)
Any-insert P r [] h = elim h [ ]
Any-insert P r (x ∷ t) (inl p) = inl p
Any-insert P r (x ∷ t) (inr h) = inr (Any-insert P r t h)

Any-update :
    {R : Type 0} (P : R → Type 0) (q : R → Bool) (g : R → R) (t : List R)
    → ((r : R) → P r → P (g r))
    → Any P t
    → Any P (update q g t)
unfolding update
Any-update P q g [] keep h = elim h [ ]
Any-update P q g (x ∷ t) keep (inl p) = elim (Bool-cases (q x)) [
  | inl hit ↦ rw hit (inl (keep x p))
  | inr miss ↦ rw miss (inl p)
]
Any-update P q g (x ∷ t) keep (inr h) = elim (Bool-cases (q x)) [
  | inl hit ↦ rw hit (inr (Any-update P q g t keep h))
  | inr miss ↦ rw miss (inr (Any-update P q g t keep h))
]

pub Any-mem : {R : Type 0} (P : R → Type 0) (r : R) (t : List R) → Memᴰ r t → P r → Any P t
Any-mem P r [] m p = elim m [ ]
Any-mem P r (x ∷ t) (Memᴰ.head same) p = inl (subst P same p)
Any-mem P r (x ∷ t) (Memᴰ.tail m) p = inr (Any-mem P r t m p)

-- A row of this topic, of which the receiver reads that it is about the order.
abbrev pub Announces :
    {E : Type 0} → EventType → (Payload → Result E) → (E → ℤ) → ℤ → OutboxEvent → Type 0
Announces {E} topic decode order_of order x =
    (x.event_type ≡ topic) × ((e : E) × (decode x.payload ≡ ok e) × (order_of e ≡ order))

module _ {E : Type 0} (topic : EventType) (decode : Payload → Result E) (order_of : E → ℤ)
    (order : ℤ) where
  -- What has been announced stays so when the row is marked as sent.
  pub Announces-mark_sent :
      (now : ℕ) (id : ℤ) (outbox : List OutboxEvent)
      → Any (Announces topic decode order_of order) outbox
      → Any (Announces topic decode order_of order) (mark_sent now id outbox)
  Announces-mark_sent now id outbox h =
      Any-update (Announces topic decode order_of order) (has_id id) (set_sent now) outbox
        (λ r p. p) h
