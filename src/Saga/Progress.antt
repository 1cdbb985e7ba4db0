-- ===== src/Saga/Progress.antt =====
-- The order's row on the course through services/order, services/payment, services/inventory and
-- services/delivery when nothing fails.
use msa_saga_go_practical.Prelude.{◌∙◌}
use msa_saga_go_practical.Inventory
use msa_saga_go_practical.Delivery
use msa_saga_go_practical.Inventory.Service.{handle_payment_completed}
use msa_saga_go_practical.Delivery.Service.{handle_stock_reserved}
use msa_saga_go_practical.Prelude.{suc, ◌≡◌, ap, refl, some, List}
use msa_saga_go_practical.Prelude.Int.{ℤ, pos, eq_ℤ_iff}
use msa_saga_go_practical.Prelude.Text.{Text}
use msa_saga_go_practical.Common.Result.{ok}
use msa_saga_go_practical.Common.Wire.{Event}
use msa_saga_go_practical.Common.RoundTrip.{unmarshal-marshal}
use msa_saga_go_practical.Common.Idempotency.{Redis, RedisFrame}
use msa_saga_go_practical.Store.Table.{find, find-insert_new}
use msa_saga_go_practical.Store.Session.{Session}
use msa_saga_go_practical.Order
use msa_saga_go_practical.Order.Domain.{Order}
use msa_saga_go_practical.Order.Repository.{has_id}
use msa_saga_go_practical.Order.Service.{CreateOrderCommand}
use msa_saga_go_practical.Order.Creation.{created_order}
use msa_saga_go_practical.Order.Incoming.{Incoming, order_of, advance}
use msa_saga_go_practical.Order.Consistency.{no_others, unused_id}
use msa_saga_go_practical.Payment.Service.{Gateway}
use msa_saga_go_practical.Saga.System.{System}
use msa_saga_go_practical.Saga.HappyPath.{
  Calls, completed, reserved, delivered, completed_message, reserved_message, delivered_message,
  IsReady, placed, charge, first_news, reserving, take, second_news, prepared, ship, finished,
}
use msa_saga_go_practical.Saga.Marks.{
  mark_1, mark_2, mark_3, mark_4, mark_5, new_1, new_2, new_3, new_4, new_5,
}
use msa_saga_go_practical.Common.Once.{IsUnmarked, after_mark}
use msa_saga_go_practical.Common.Messaging.{Message}
use msa_saga_go_practical.Order.Provenance.{IsCarried}
use msa_saga_go_practical.Order.Received.{event_id_of, handle_message_moves}
use msa_saga_go_practical.Saga.Serving.{places, payment_serves, stock_serves, delivery_serves}

module _ (redis : Redis) (frame : RedisFrame redis) (labels : List Text) (gateway : Gateway)
    (calls : Calls) (cmd : CreateOrderCommand) (st : redis.State) (s : System)
    (ready : IsReady gateway calls cmd s redis labels st) where
  -- The order, from one status to the next.
  abbrev pub order_id : ℤ
  order_id = pos (suc s.orders.serial)

  abbrev pub moved_by : Incoming → Order → Order
  moved_by m o = advance m calls.updating.now o

  abbrev pub first : Order
  first = created_order cmd calls.ordering s.orders

  abbrev pub second : Order
  second = moved_by (Incoming.payment_completed (completed gateway calls cmd s)) first

  abbrev pub third : Order
  third = moved_by (Incoming.stock_reserved (reserved gateway calls cmd s)) second

  abbrev pub fourth : Order
  fourth = moved_by (Incoming.delivery_started (delivered gateway calls cmd s)) third

  found_first :
      find (has_id order_id) (placed gateway calls cmd s redis labels st).orders.committed.tables
      ≡ some first
  found_first =
      let free = unused_id s.orders.serial s.orders.committed.tables ready.orders.rows in
      rw ((places redis labels gateway calls cmd st s ready).0) (
        find-insert_new (has_id order_id) first s.orders.committed.tables free
          ((eq_ℤ_iff order_id order_id).1 refl))

  -- The order service takes an event of the order in: the row moves, and the event is marked.
  takes :
      (e : Incoming) (msg : Message) (o : Order) (t : Session (List Order)) (m : redis.State)
      → IsCarried e msg.topic msg.value
      → IsUnmarked redis Order.Handler.store_prefix (event_id_of e) m
      → find (has_id (order_of e)) t.committed.tables ≡ some o
      → let (_, t', m') = Order.Handler.handle_message redis no_others calls.updating msg t m in
        (find (has_id (order_of e)) t'.committed.tables ≡ some (moved_by e o))
        × (m' ≡ after_mark redis Order.Handler.store_prefix (event_id_of e) m)
  takes e msg o t m carried new found =
      let (_, row, _, mark) =
        handle_message_moves redis calls.updating t m e msg o carried new
          (ap (λ f. f.find) ready.updating_quiet) (ap (λ f. f.update) ready.updating_quiet) found in
      (row, mark)

  -- The store and the row after each message.
  after_charge :
      (charge gateway calls cmd s redis labels st).2
      ≡ mark_1 redis frame labels gateway calls cmd st s ready
  after_charge =
      ap (λ a. a.2)
        (payment_serves redis labels gateway calls cmd st s ready st ready.created_unmarked)

  after_first_news :
      (find
          (has_id order_id)
          (reserving gateway calls cmd s redis labels st).orders.committed.tables
        ≡ some second)
      × ((first_news gateway calls cmd s redis labels st).2
          ≡ mark_2 redis frame labels gateway calls cmd st s ready)
  after_first_news =
      let evt = completed gateway calls cmd s in
      let (row, mark) =
        takes (Incoming.payment_completed evt) (completed_message gateway calls cmd s) first
          (placed gateway calls cmd s redis labels st).orders
          (charge gateway calls cmd s redis labels st).2
          (refl, unmarshal-marshal (Event.payment_completed evt) tt)
          (rw after_charge (new_1 redis frame labels gateway calls cmd st s ready)) found_first in
      (row, mark ∙ ap (after_mark redis Order.Handler.store_prefix evt.base.event_id) after_charge)

  pub take_eq : take gateway calls cmd s redis labels st ≡ (
    ok tt,
    (handle_payment_completed calls.reserving (completed gateway calls cmd s) s.stock).1,
    after_mark redis Inventory.Handler.store_prefix
        (completed gateway calls cmd s).base.event_id
        (first_news gateway calls cmd s redis labels st).2,
  )
  take_eq =
      stock_serves redis labels gateway calls cmd st s ready
        (first_news gateway calls cmd s redis labels st).2
        (rw after_first_news.1 (new_2 redis frame labels gateway calls cmd st s ready))

  after_take :
      (take gateway calls cmd s redis labels st).2
      ≡ mark_3 redis frame labels gateway calls cmd st s ready
  after_take =
      let id = (completed gateway calls cmd s).base.event_id in
      ap (λ a. a.2) take_eq
      ∙ ap (after_mark redis Inventory.Handler.store_prefix id) after_first_news.1

  after_second_news :
      (find (has_id order_id) (prepared gateway calls cmd s redis labels st).orders.committed.tables
        ≡ some third)
      × ((second_news gateway calls cmd s redis labels st).2
          ≡ mark_4 redis frame labels gateway calls cmd st s ready)
  after_second_news =
      let evt = reserved gateway calls cmd s in
      let (row, mark) =
        takes (Incoming.stock_reserved evt) (reserved_message gateway calls cmd s) second
          (reserving gateway calls cmd s redis labels st).orders
          (take gateway calls cmd s redis labels st).2
          (refl, unmarshal-marshal (Event.stock_reserved evt) tt)
          (rw after_take (new_3 redis frame labels gateway calls cmd st s ready))
          after_first_news.0 in
      (row, mark ∙ ap (after_mark redis Order.Handler.store_prefix evt.base.event_id) after_take)

  pub ship_eq : ship gateway calls cmd s redis labels st ≡ (
    ok tt,
    (handle_stock_reserved labels calls.starting (reserved gateway calls cmd s) s.deliveries).1,
    after_mark redis Delivery.Handler.store_prefix
        (reserved gateway calls cmd s).base.event_id
        (second_news gateway calls cmd s redis labels st).2,
  )
  ship_eq =
      delivery_serves redis labels gateway calls cmd st s ready
        (second_news gateway calls cmd s redis labels st).2
        (rw after_second_news.1 (new_4 redis frame labels gateway calls cmd st s ready))

  after_ship :
      (ship gateway calls cmd s redis labels st).2
      ≡ mark_5 redis frame labels gateway calls cmd st s ready
  after_ship =
      let id = (reserved gateway calls cmd s).base.event_id in
      ap (λ a. a.2) ship_eq
      ∙ ap (after_mark redis Delivery.Handler.store_prefix id) after_second_news.1

  pub found_last :
      find (has_id order_id) (finished gateway calls cmd s redis labels st).orders.committed.tables
      ≡ some fourth
  found_last =
      let evt = delivered gateway calls cmd s in
      (takes (Incoming.delivery_started evt) (delivered_message gateway calls cmd s) third
        (prepared gateway calls cmd s redis labels st).orders
        (ship gateway calls cmd s redis labels st).2
        (refl, unmarshal-marshal (Event.delivery_started evt) tt)
        (rw after_ship (new_5 redis frame labels gateway calls cmd st s ready))
        after_second_news.0).0
