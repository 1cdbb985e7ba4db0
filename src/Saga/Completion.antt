-- ===== src/Saga/Completion.antt =====
-- What a completed order has behind it, in services/order, services/payment, services/inventory and
-- services/delivery together.
use msa_saga_go_practical.Prelude.{◌≡◌, ◌≢◌, none, some, List, []}
use mathlib.Core.Path.{subst}
use msa_saga_go_practical.Prelude.Int.{ℤ, eq_ℤ, eq_ℤ_iff}
use msa_saga_go_practical.Prelude.Text.{Text}
use msa_saga_go_practical.Common.Idempotency.{Redis}
use msa_saga_go_practical.Store.Table.{find, find_holds, All, All-find}
use msa_saga_go_practical.Store.Provenance.{All-some}
use msa_saga_go_practical.Order.Domain.{Order, completed}
use msa_saga_go_practical.Order.Repository.{has_id}
use msa_saga_go_practical.Order.Provenance.{Done}
use msa_saga_go_practical.Payment.Provenance.{IsPaid}
use msa_saga_go_practical.Inventory.Provenance.{IsReserved}
use msa_saga_go_practical.Inventory.Domain.{StockReservation}
use msa_saga_go_practical.Delivery.Domain.{Delivery}
use msa_saga_go_practical.Delivery.Provenance.{IsDelivered}
use msa_saga_go_practical.Saga.System.{System, Reach}
use msa_saga_go_practical.Saga.Causality.{IsCausal}
use msa_saga_go_practical.Saga.Causes.{Reach-IsCausal}

-- A system before its first order. Products may have stock.
pub record IsFresh (s : System) : Type 0 where
  pub orders : s.orders.committed.tables ≡ []
  pub payment_events : s.payments.committed.outbox ≡ []
  pub reservations : s.stock.committed.tables.reservations ≡ []
  pub stock_events : s.stock.committed.outbox ≡ []
  pub deliveries : s.deliveries.committed.tables ≡ []
  pub delivery_events : s.deliveries.committed.outbox ≡ []

pub All-none : {R : Type 0} (P : R → Type 0) (t : List R) → t ≡ [] → All P t
All-none P t h = rw h tt

pub fresh-IsCausal : (s : System) → IsFresh s → IsCausal s
fresh-IsCausal s f = record {
  paid_told = All-none _ s.payments.committed.outbox f.payment_events;
  reserved_for = All-none _ s.stock.committed.tables.reservations f.reservations;
  reserved_told = All-none _ s.stock.committed.outbox f.stock_events;
  delivered_for = All-none _ s.deliveries.committed.tables f.deliveries;
  delivered_told = All-none _ s.deliveries.committed.outbox f.delivery_events;
  done = All-none _ s.orders.committed.tables f.orders;
}

-- An order that some row of a table is about has what every row's order has.
about :
    {R : Type 0} (P : ℤ → Type 0) (order_of : R → ℤ) (order : ℤ) (t : List R)
    → All (λ r. P (order_of r)) t
    → find (λ r. eq_ℤ (order_of r) order) t ≢ none
    → P order
about P order_of order t h k =
    let (x, found, p) = All-some (λ r. P (order_of r)) (λ r. eq_ℤ (order_of r) order) t h k in
    subst P ((eq_ℤ_iff (order_of x) order).0 (find_holds (λ r. eq_ℤ (order_of r) order) t found)) p

-- Whatever messages are delivered, in whatever order and however often, and whatever calls fail: from
-- a state without orders, reservations and deliveries and without events of the payment, the inventory
-- and the delivery service, an order that is COMPLETED has a delivery in the delivery service, a
-- reservation in the inventory service and a payment in the payment service.
pub completed_has_causes :
    {redis : Redis} {labels : List Text} {s t : System} (id : ℤ) (o : Order)
    → IsFresh s
    → Reach redis labels s t
    → find (has_id id) t.orders.committed.tables ≡ some o
    → o.status ≡ completed
    → IsDelivered t.deliveries.committed.tables o.id
      × IsReserved t.stock.committed.tables o.id
      × IsPaid t.payments.committed.tables o.id
completed_has_causes {redis} {labels} {s} {t} id o f r found done =
    let c = Reach-IsCausal redis labels r (fresh-IsCausal s f) in
    let P = IsDelivered t.deliveries.committed.tables in
    let caused : Done P o.status o.id =
      All-find (λ (x : Order). Done P x.status x.id) (has_id id) t.orders.committed.tables c.done
        found in
    let delivered : P o.id = rw done at caused in
    let reserved =
      about (IsReserved t.stock.committed.tables) (λ (d : Delivery). d.order_id) o.id
        t.deliveries.committed.tables c.delivered_for delivered in
    (
      delivered,
      reserved,
      about (IsPaid t.payments.committed.tables) (λ (x : StockReservation). x.order_id) o.id
          t.stock.committed.tables.reservations c.reserved_for reserved,
    )
