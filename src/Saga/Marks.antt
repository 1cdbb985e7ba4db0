-- ===== src/Saga/Marks.antt =====
-- The store of processed events on the course of an order: a mark of one service, or of one event,
-- leaves the others' events unmarked.
use msa_saga_go_practical.Prelude.{◌≢◌, List, arith}
use msa_saga_go_practical.Prelude.Text.{Text, text}
use msa_saga_go_practical.Common.Idempotency.{Redis, RedisFrame, full_key}
use msa_saga_go_practical.Common.Once.{
  IsUnmarked, after_mark, IsUnmarked-after_mark, full_key-apart,
}
use msa_saga_go_practical.Order
use msa_saga_go_practical.Payment
use msa_saga_go_practical.Inventory
use msa_saga_go_practical.Delivery
use msa_saga_go_practical.Order.Service.{CreateOrderCommand}
use msa_saga_go_practical.Payment.Service.{Gateway}
use msa_saga_go_practical.Saga.System.{System}
use msa_saga_go_practical.Saga.HappyPath.{Calls, created, completed, reserved, delivered, IsReady}

-- The prefixes of the services keep their keys apart.
module _ (a b : Text) where
  order_payment : full_key Order.Handler.store_prefix a ≢ full_key Payment.Handler.store_prefix b
  unfolding full_key text
  order_payment h = ground arith

  order_inventory :
      full_key Order.Handler.store_prefix a ≢ full_key Inventory.Handler.store_prefix b
  unfolding full_key text
  order_inventory h = ground arith

  order_delivery : full_key Order.Handler.store_prefix a ≢ full_key Delivery.Handler.store_prefix b
  unfolding full_key text
  order_delivery h = ground arith

  inventory_payment :
      full_key Inventory.Handler.store_prefix a ≢ full_key Payment.Handler.store_prefix b
  unfolding full_key text
  inventory_payment h = ground arith

  inventory_order :
      full_key Inventory.Handler.store_prefix a ≢ full_key Order.Handler.store_prefix b
  unfolding full_key text
  inventory_order h = ground arith

  delivery_payment :
      full_key Delivery.Handler.store_prefix a ≢ full_key Payment.Handler.store_prefix b
  unfolding full_key text
  delivery_payment h = ground arith

  delivery_order : full_key Delivery.Handler.store_prefix a ≢ full_key Order.Handler.store_prefix b
  unfolding full_key text
  delivery_order h = ground arith

  delivery_inventory :
      full_key Delivery.Handler.store_prefix a ≢ full_key Inventory.Handler.store_prefix b
  unfolding full_key text
  delivery_inventory h = ground arith

module _ (redis : Redis) (frame : RedisFrame redis) (labels : List Text) (gateway : Gateway)
    (calls : Calls) (cmd : CreateOrderCommand) (st : redis.State) (s : System)
    (ready : IsReady gateway calls cmd s redis labels st) where
  abbrev first_id : Text
  first_id = (created gateway calls cmd s).base.event_id

  abbrev second_id : Text
  second_id = (completed gateway calls cmd s).base.event_id

  abbrev third_id : Text
  third_id = (reserved gateway calls cmd s).base.event_id

  abbrev fourth_id : Text
  fourth_id = (delivered gateway calls cmd s).base.event_id

  -- The store after each message of the course.
  abbrev pub mark_1 : redis.State
  mark_1 = after_mark redis Payment.Handler.store_prefix first_id st

  abbrev pub mark_2 : redis.State
  mark_2 = after_mark redis Order.Handler.store_prefix second_id mark_1

  abbrev pub mark_3 : redis.State
  mark_3 = after_mark redis Inventory.Handler.store_prefix second_id mark_2

  abbrev pub mark_4 : redis.State
  mark_4 = after_mark redis Order.Handler.store_prefix third_id mark_3

  abbrev pub mark_5 : redis.State
  mark_5 = after_mark redis Delivery.Handler.store_prefix third_id mark_4

  keeps :
      (prefix id q other : Text) (m : redis.State)
      → full_key prefix id ≢ full_key q other
      → IsUnmarked redis prefix id m
      → IsUnmarked redis prefix id (after_mark redis q other m)
  keeps prefix id q other m apart h = IsUnmarked-after_mark redis prefix id q other m frame apart h

  pub new_1 : IsUnmarked redis Order.Handler.store_prefix second_id mark_1
  new_1 =
      keeps Order.Handler.store_prefix second_id Payment.Handler.store_prefix first_id st
        (order_payment second_id first_id) ready.completed_unheard

  pub new_2 : IsUnmarked redis Inventory.Handler.store_prefix second_id mark_2
  new_2 =
      let p = Inventory.Handler.store_prefix in
      keeps p second_id Order.Handler.store_prefix second_id mark_1
        (inventory_order second_id second_id)
        (keeps p second_id Payment.Handler.store_prefix first_id st
          (inventory_payment second_id first_id) ready.completed_unmarked)

  pub new_3 : IsUnmarked redis Order.Handler.store_prefix third_id mark_3
  new_3 =
      let p = Order.Handler.store_prefix in
      keeps p third_id Inventory.Handler.store_prefix second_id mark_2
        (order_inventory third_id second_id)
        (keeps p third_id p second_id mark_1
          (full_key-apart p third_id second_id ready.reserved_fresh)
          (keeps p third_id Payment.Handler.store_prefix first_id st
            (order_payment third_id first_id) ready.reserved_unheard))

  pub new_4 : IsUnmarked redis Delivery.Handler.store_prefix third_id mark_4
  new_4 =
      let p = Delivery.Handler.store_prefix in
      keeps p third_id Order.Handler.store_prefix third_id mark_3 (delivery_order third_id third_id)
        (keeps p third_id Inventory.Handler.store_prefix second_id mark_2
          (delivery_inventory third_id second_id)
          (keeps p third_id Order.Handler.store_prefix second_id mark_1
            (delivery_order third_id second_id)
            (keeps p third_id Payment.Handler.store_prefix first_id st
              (delivery_payment third_id first_id) ready.reserved_unmarked)))

  pub new_5 : IsUnmarked redis Order.Handler.store_prefix fourth_id mark_5
  new_5 =
      let p = Order.Handler.store_prefix in
      keeps p fourth_id Delivery.Handler.store_prefix third_id mark_4
        (order_delivery fourth_id third_id)
        (keeps p fourth_id p third_id mark_3
          (full_key-apart p fourth_id third_id ready.delivered_later)
          (keeps p fourth_id Inventory.Handler.store_prefix second_id mark_2
            (order_inventory fourth_id second_id)
            (keeps p fourth_id p second_id mark_1
              (full_key-apart p fourth_id second_id ready.delivered_fresh)
              (keeps p fourth_id Payment.Handler.store_prefix first_id st
                (order_payment fourth_id first_id) ready.delivered_unheard))))
