-- ===== src/Order/Provenance.antt =====
-- What the status COMPLETED of an order stands for: a `delivery.started.v1` about it
-- (services/order/internal/service/order_service.go and handler/event_handler.go).
use msa_saga_go_practical.Prelude.{
  ℕ, ◌≡◌, ◌≢◌, refl, sym, Option, none, some, List, arith, inl, inr, Option-cases,
}
use mathlib.Core.Path.{subst}
use msa_saga_go_practical.Prelude.Int.{ℤ, eq_ℤ_iff}
use msa_saga_go_practical.Common.Events.{EventType, DeliveryStartedEvent}
use msa_saga_go_practical.Common.Wire.{Payload}
use msa_saga_go_practical.Common.Result.{ok}
use msa_saga_go_practical.Common.Decode.{
  unmarshal_payment_completed, unmarshal_payment_failed, unmarshal_stock_reserved,
  unmarshal_stock_reservation_failed, unmarshal_delivery_started, unmarshal_delivery_failed,
}
use msa_saga_go_practical.Store.Table.{find, find_holds, All, All-map, All-insert}
use msa_saga_go_practical.Store.Session.{Session, Env}
use msa_saga_go_practical.Store.Provenance.{All-update_where}
use msa_saga_go_practical.Delivery.Provenance.{SaysStarted}
use msa_saga_go_practical.Order.Domain.{Order, OrderStatus, pending, completed}
use msa_saga_go_practical.Order.Repository.{has_id, has_version, set_status}
use msa_saga_go_practical.Order.Incoming.{Incoming, order_of, handle, next}
use msa_saga_go_practical.Order.Service.{CreateOrderCommand, create_order}
use msa_saga_go_practical.Order.Creation.{created_order}
use msa_saga_go_practical.Order.Transitions.{write_if, handle_missing, has_id_self}
use msa_saga_go_practical.Order.Consistency.{create_order-Outcome, no_others, handle-Outcome}

-- A COMPLETED order has this property.
abbrev pub Done : (ℤ → Type 0) → OrderStatus → ℤ → Type 0
Done P OrderStatus.completed id = P id
Done P _ id = Unit

abbrev pub AllDone : (ℤ → Type 0) → List Order → Type 0
AllDone P t = All (λ (o : Order). Done P o.status o.id) t

Done-always : (P : ℤ → Type 0) (status : OrderStatus) (id : ℤ) → P id → Done P status id
Done-always P OrderStatus.completed id p = p
Done-always P _ id p = tt

Done-other :
    (P : ℤ → Type 0) (status : OrderStatus) (id : ℤ) → status ≢ completed → Done P status id
Done-other P OrderStatus.completed id ne = absurd (ne refl)
Done-other P _ id ne = tt

Done-map :
    (P Q : ℤ → Type 0) (status : OrderStatus) (id : ℤ)
    → ((order : ℤ) → P order → Q order)
    → Done P status id
    → Done Q status id
Done-map P Q OrderStatus.completed id f h = f id h
Done-map P Q _ id f h = tt

pub AllDone-map :
    (P Q : ℤ → Type 0) (t : List Order)
    → ((order : ℤ) → P order → Q order)
    → AllDone P t
    → AllDone Q t
AllDone-map P Q t f h =
    All-map (λ (o : Order). Done P o.status o.id) (λ o. Done Q o.status o.id) t
      (λ o. Done-map P Q o.status o.id f) h

-- An event has come from this topic and payload.
abbrev pub IsCarried : Incoming → EventType → Payload → Type 0
IsCarried (Incoming.payment_completed e) t p =
    (t ≡ EventType.payment_completed) × (unmarshal_payment_completed p ≡ ok e)
IsCarried (Incoming.payment_failed e) t p =
    (t ≡ EventType.payment_failed) × (unmarshal_payment_failed p ≡ ok e)
IsCarried (Incoming.stock_reserved e) t p =
    (t ≡ EventType.stock_reserved) × (unmarshal_stock_reserved p ≡ ok e)
IsCarried (Incoming.stock_reservation_failed e) t p =
    (t ≡ EventType.stock_reservation_failed) × (unmarshal_stock_reservation_failed p ≡ ok e)
IsCarried (Incoming.delivery_started e) t p =
    (t ≡ EventType.delivery_started) × (unmarshal_delivery_started p ≡ ok e)
IsCarried (Incoming.delivery_failed e) t p =
    (t ≡ EventType.delivery_failed) × (unmarshal_delivery_failed p ≡ ok e)

said_started :
    (P : ℤ → Type 0) (t : EventType) (p : Payload) (e : DeliveryStartedEvent)
    → t ≡ EventType.delivery_started
    → unmarshal_delivery_started p ≡ ok e
    → SaysStarted P t p
    → P e.order_id
said_started P t p e topic decoded h =
    let here : SaysStarted P EventType.delivery_started p = rw topic at h in rw decoded at here

-- The status that an event leads to is COMPLETED only if it started a delivery.
reaches :
    (P : ℤ → Type 0) (m : Incoming) (t : EventType) (p : Payload) (from : OrderStatus)
    {to : OrderStatus}
    → next m from ≡ some to
    → IsCarried m t p
    → SaysStarted P t p
    → Done P to (order_of m)
reaches P (Incoming.delivery_started e) t p from {to} h (topic, decoded) says =
    Done-always P to e.order_id (said_started P t p e topic decoded says)
reaches P (Incoming.payment_completed e) t p from {to} h c says =
    Done-other P to e.order_id (ground arith)
reaches P (Incoming.stock_reserved e) t p from {to} h c says =
    Done-other P to e.order_id (ground arith)
reaches P (Incoming.payment_failed e) t p from {to} h c says =
    Done-other P to e.order_id (ground arith)
reaches P (Incoming.stock_reservation_failed e) t p from {to} h c says =
    Done-other P to e.order_id (ground arith)
reaches P (Incoming.delivery_failed e) t p from {to} h c says =
    Done-other P to e.order_id (ground arith)

-- What a command and an event keep, if the status that it leads to has it for the order that it names.
module _ (F : OrderStatus → ℤ → Type 0) where
  abbrev pub AllIn : List Order → Type 0
  AllIn t = All (λ (o : Order). F o.status o.id) t

  write_if-AllIn :
      (target : Option OrderStatus) (now : ℕ) (o : Order) (t : List Order)
      → ((to : OrderStatus) → target ≡ some to → F to o.id)
      → AllIn t
      → AllIn (write_if target now o t)
  write_if-AllIn none now o t safe h = h
  write_if-AllIn (some to) now o t safe h =
      All-update_where (λ (r : Order). F r.status r.id) (has_version o.id o.version)
        (set_status to now) t
        (λ r hit _.
          let same : r.id ≡ o.id = ground (arith, eq_ℤ_iff r.id o.id) in
          subst (F to) (sym same) (safe to refl))
        h

  pub create_order-AllIn :
      (cmd : CreateOrderCommand) (env : Env) (s : Session (List Order))
      → ((id : ℤ) → F pending id)
      → AllIn s.committed.tables
      → AllIn (create_order cmd env s).1.committed.tables
  create_order-AllIn cmd env s starts h = elim (create_order-Outcome cmd env s) [
    | inl (same, _) ↦ rw same h
    | inr (_, tables, _, _) ↦ rw tables (
        All-insert (λ (o : Order). F o.status o.id) (created_order cmd env s) s.committed.tables h
          (starts (created_order cmd env s).id))
  ]

  pub handle-AllIn :
      (env : Env) (m : Incoming) (s : Session (List Order))
      → ((from to : OrderStatus) → next m from ≡ some to → F to (order_of m))
      → AllIn s.committed.tables
      → AllIn (handle no_others env m s).1.committed.tables
  handle-AllIn env m s safe h =
      elim (Option-cases (find (has_id (order_of m)) s.committed.tables)) [
        | inl missing ↦ rw (handle_missing no_others env m s missing).0 h
        | inr (o, found) ↦ elim (handle-Outcome env m s o found).2 [
          | inl same ↦ rw same h
          | inr wrote ↦ rw wrote (
              write_if-AllIn (next m o.status) env.now o s.committed.tables
                (λ to e.
                  subst (F to)
                    (sym (
                      has_id_self (order_of m) o
                        (find_holds (has_id (order_of m)) s.committed.tables found)))
                    (safe o.status to e))
                h)
        ]
      ]

-- A command leaves no new COMPLETED order.
pub create_order-AllDone :
    (cmd : CreateOrderCommand) (env : Env) (s : Session (List Order)) (P : ℤ → Type 0)
    → AllDone P s.committed.tables
    → AllDone P (create_order cmd env s).1.committed.tables
create_order-AllDone cmd env s P h = create_order-AllIn (Done P) cmd env s (λ id. tt) h

pub handle-AllDone :
    (P : ℤ → Type 0) (env : Env) (m : Incoming) (t : EventType) (p : Payload)
    (s : Session (List Order))
    → IsCarried m t p
    → SaysStarted P t p
    → AllDone P s.committed.tables
    → AllDone P (handle no_others env m s).1.committed.tables
handle-AllDone P env m t p s carried says h =
    handle-AllIn (Done P) env m s (λ from to e. reaches P m t p from {to = to} e carried says) h
