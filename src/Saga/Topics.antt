-- ===== src/Saga/Topics.antt =====
-- The topics that connect the services: what services/*/cmd/main.go subscribe to, and what the
-- outboxes send.
use msa_saga_go_practical.Prelude.{
  ◌≡◌, ◌⊎◌, refl, Bool, true, false, List, [], ◌∷◌, if◌then◌else◌, inl, inr, ◌||◌,
}
use msa_saga_go_practical.Prelude.Int.{ℤ}
use msa_saga_go_practical.Prelude.Text.{Text, text, text_eq}
use msa_saga_go_practical.Common.Events.{EventType, event_text}
use msa_saga_go_practical.Common.Wire.{Payload}
use msa_saga_go_practical.Common.Idempotency.{Redis}
use msa_saga_go_practical.Store.Table.{All, All-map}
use msa_saga_go_practical.Store.Session.{OutboxEvent}
use msa_saga_go_practical.Order
use msa_saga_go_practical.Payment
use msa_saga_go_practical.Inventory
use msa_saga_go_practical.Delivery
use msa_saga_go_practical.Payment.Provenance.{IsPaid, SaysPaid}
use msa_saga_go_practical.Inventory.Provenance.{IsReserved, SaysReserved}
use msa_saga_go_practical.Saga.System.{System, Reach}
use msa_saga_go_practical.Saga.Causes.{Reach-IsCausal}
use msa_saga_go_practical.Saga.Completion.{IsFresh, fresh-IsCausal}

-- The topic is one of these.
unfoldable pub subscribes : List Text → EventType → Bool
subscribes [] t = false
subscribes (x ∷ xs) t =
    let rest = subscribes xs t in if text_eq (event_text t) x then true else rest

-- Some service subscribes to the topic.
abbrev pub IsRead : EventType → Type 0
IsRead t =
    (subscribes Order.Main.topics t
      || (subscribes Payment.Main.topics t
          || (subscribes Inventory.Main.topics t || subscribes Delivery.Main.topics t)))
    ≡ true

paid_read : (P : ℤ → Type 0) (t : EventType) (p : Payload) → SaysPaid P t p → IsRead t
unfolding subscribes text_eq event_text text Order.Main.topics Payment.Main.topics
    Inventory.Main.topics Delivery.Main.topics
paid_read P EventType.payment_completed p h = refl
paid_read P EventType.payment_failed p h = refl
paid_read P EventType.payment_refunded p h = refl
paid_read P _ p h = elim h [ ]

reserved_read :
    (P : ℤ → Type 0) (t : EventType) (p : Payload)
    → SaysReserved P t p
    → IsRead t ⊎ (t ≡ EventType.stock_restored)
unfolding subscribes text_eq event_text text Order.Main.topics Payment.Main.topics
    Inventory.Main.topics Delivery.Main.topics
reserved_read P EventType.stock_reserved p h = inl refl
reserved_read P EventType.stock_reservation_failed p h = inl refl
reserved_read P EventType.stock_restored p h = inr refl
reserved_read P _ p h = elim h [ ]

-- In every state that a system reaches from one before its first order, some service subscribes to the
-- topic of each event in the outbox of the payment service, and of each in the outbox of the inventory
-- service that is no `stock.restored.v1`.
pub events_find_readers :
    {redis : Redis} {labels : List Text} {s t : System}
    → IsFresh s
    → Reach redis labels s t
    → All (λ (x : OutboxEvent). IsRead x.event_type) t.payments.committed.outbox
      × All
          (λ (x : OutboxEvent). IsRead x.event_type ⊎ (x.event_type ≡ EventType.stock_restored))
          t.stock.committed.outbox
events_find_readers {redis} {labels} {s} {t} f r =
    let c = Reach-IsCausal redis labels r (fresh-IsCausal s f) in
    let P = IsPaid t.payments.committed.tables in
    let Q = IsReserved t.stock.committed.tables in
    (
      All-map (λ (x : OutboxEvent). SaysPaid P x.event_type x.payload) (λ x. IsRead x.event_type)
          t.payments.committed.outbox (λ x. paid_read P x.event_type x.payload) c.paid_told,
      All-map (λ (x : OutboxEvent). SaysReserved Q x.event_type x.payload)
          (λ x. IsRead x.event_type ⊎ (x.event_type ≡ EventType.stock_restored))
          t.stock.committed.outbox (λ x. reserved_read Q x.event_type x.payload) c.reserved_told,
    )
