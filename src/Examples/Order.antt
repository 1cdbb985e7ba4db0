-- ===== src/Examples/Order.antt =====
-- Runs of services/order/.
use msa_saga_go_practical.Prelude.{
  ℕ, ◌≡◌, ◌≢◌, ◌⊎◌, refl, true, none, some, [], ◌∷◌, arith, inl, inr, length, ◌≤◌,
}
use msa_saga_go_practical.Prelude.Int.{pos, eq_ℤ}
use msa_saga_go_practical.Prelude.Text.{text, text_eq}
use msa_saga_go_practical.Common.Events.{EventType}
use msa_saga_go_practical.Common.Result.{ok}
use msa_saga_go_practical.Store.Table.{find, affected}
use msa_saga_go_practical.Order.Domain.{
  Order, OrderStatus, payment_processing, stock_reserving, canceled, transition_to,
  can_transition_to,
}
use msa_saga_go_practical.Order.Repository.{has_key, has_id, set_status}
use msa_saga_go_practical.Order.Service.{result_of, create_order}
use msa_saga_go_practical.Order.Incoming.{Incoming, handle}
use msa_saga_go_practical.Order.Transitions.{handle-refines-next, handle_stale_lost}
use msa_saga_go_practical.Order.Creation.{
  IsFailure, created_order, created_event, create_order_creates, create_order_empty_key,
  create_order_repeat, create_order_retry_silent,
}
use msa_saga_go_practical.Order.Consistency.{
  HoldsIn, no_others, create_order-IsConsistent, handle-IsConsistent,
}
use msa_saga_go_practical.Order.Locking.{Flight, IsLinear, resumed}
use msa_saga_go_practical.Order.Interleaving.{World, Step, Reach, write-IsLinear}
use msa_saga_go_practical.Order.Diagram.{
  IsTerminal, Transitions, Transitions-bounded, KeepsTo, handle-off_diagram,
}
use msa_saga_go_practical.Order.Reordering.{alone}
use msa_saga_go_practical.Common.Wire.{Payload, Event, marshal, object, num}
use msa_saga_go_practical.Order.Http.{
  CreateOrderRequest, key_or, Method, decode_request, post_order, post_order_invalid,
}
use msa_saga_go_practical.Order.Handler.{store_prefix, handle_message}
use msa_saga_go_practical.Order.Received.{handle_message_moves}
use msa_saga_go_practical.Common.Once.{after_mark}
use msa_saga_go_practical.Common.Idempotency.{is_processed}
use msa_saga_go_practical.Common.Messaging.{Message}
use msa_saga_go_practical.Common.RoundTrip.{unmarshal-marshal}
use msa_saga_go_practical.Examples.Common.{server}
use msa_saga_go_practical.Examples.Shop.{
  first, second, shop, keyless_shop, laptop, paid, declined, cancel_first,
}
use msa_saga_go_practical.Examples.{calm, calm_later, lossy}

new_key : find (λ (o : Order). text_eq o.idempotency_key (text "b")) shop.committed.tables ≡ none
unfolding find text_eq text
new_key = refl

short_key : length laptop.idempotency_key ≤ 64
unfolding text
short_key = omega arith

key_given : laptop.idempotency_key ≢ []
unfolding text
key_given = λ h. cc

handle-refines-next_example :
    let (r, s') = handle alone calm (Incoming.payment_completed paid) shop in
    (r ≡ ok tt)
    × (find (has_id (pos 1)) s'.committed.tables ≡ some (set_status stock_reserving 1000 first))
    × (s'.committed.outbox ≡ [])
unfolding find eq_ℤ
handle-refines-next_example =
    handle-refines-next alone calm (Incoming.payment_completed paid) shop first refl refl refl refl

handle_stale_lost_example :
    let (r, s') = handle cancel_first calm (Incoming.payment_completed paid) shop in
    (r ≡ ok tt) × (s'.committed.tables ≡ set_status canceled 800 first ∷ [])
unfolding find affected eq_ℤ
handle_stale_lost_example =
    handle_stale_lost cancel_first calm (Incoming.payment_completed paid) shop first refl refl refl
      refl

create_order_creates_example :
    let (r, s') = create_order laptop calm shop in
    (r ≡ ok (result_of (created_order laptop calm shop)))
    × (s'.committed.tables ≡ first ∷ created_order laptop calm shop ∷ [])
    × (s'.committed.outbox ≡ created_event laptop calm shop ∷ [])
create_order_creates_example =
    create_order_creates laptop calm shop new_key (omega arith, omega arith, short_key) refl refl
      refl refl refl

create_order_empty_key_example :
    let (r, s') = create_order (record laptop { idempotency_key = [] }) calm keyless_shop in
    IsFailure r × (s'.committed ≡ keyless_shop.committed)
unfolding find text_eq
create_order_empty_key_example =
    create_order_empty_key (record laptop { idempotency_key = [] }) calm keyless_shop second refl
      refl

create_order_repeat_example :
    let (r, s') = create_order laptop calm shop in create_order laptop calm_later s' ≡ (r, s')
create_order_repeat_example =
    create_order_repeat laptop calm calm_later shop new_key (omega arith, omega arith, short_key)
      key_given refl refl refl refl refl refl

create_order_retry_silent_example :
    let (r, s') = create_order laptop calm_later (create_order laptop lossy shop).1 in
    (r ≡ ok (result_of (created_order laptop lossy shop))) × (s'.committed.outbox ≡ [])
create_order_retry_silent_example =
    create_order_retry_silent laptop lossy calm_later shop new_key
      (omega arith, omega arith, short_key) key_given refl refl (inr (inr refl)) refl

shop-HoldsIn : HoldsIn shop
unfolding find
shop-HoldsIn = record {
  rows = ((omega arith, λ h. cc), tt);
  ids = (refl, tt);
  keys = (refl, tt);
  events = tt;
}

create_order-IsConsistent_example : HoldsIn (create_order laptop lossy shop).1
create_order-IsConsistent_example = create_order-IsConsistent laptop lossy shop shop-HoldsIn

handle-IsConsistent_example :
    HoldsIn (handle no_others calm (Incoming.payment_failed declined) shop).1
handle-IsConsistent_example =
    handle-IsConsistent calm (Incoming.payment_failed declined) shop shop-HoldsIn

-- Two handlers have read the first order; the refusal has been written, the payment is under way.
first_read : find (has_id (pos 1)) (first ∷ []) ≡ some first
unfolding find eq_ℤ
first_read = refl

abbrev refusing : Flight
refusing = record {
  event = Incoming.payment_failed declined;
  seen = first ∷ [];
  order = first;
  found = first_read;
}

abbrev paying : Flight
paying = record {
  event = Incoming.payment_completed paid;
  seen = first ∷ [];
  order = first;
  found = first_read;
}

abbrev idle : World
idle = record { table = first ∷ []; flights = [] }

abbrev after_refusal : World
after_refusal = record { table = resumed calm refusing (first ∷ []); flights = paying ∷ [] }

two_handlers : Reach idle after_refusal
two_handlers =
    Reach.then
      (Reach.then
        (Reach.then Reach.here (Step.read (Incoming.payment_completed paid) first first_read refl))
        (Step.read (Incoming.payment_failed declined) first first_read refl))
      (Step.write [] (paying ∷ []) refusing calm refl refl refl)

write-IsLinear_example : IsLinear calm_later paying after_refusal.table
unfolding find
write-IsLinear_example =
    write-IsLinear idle after_refusal [] [] paying calm_later refl (refl, tt) refl two_handlers refl

processing_first :
    transition_to 20 payment_processing first
    ≡ (record first { status = payment_processing; updated_at = 20 }, true)
unfolding transition_to can_transition_to
processing_first = refl

Transitions-bounded_example :
    (length {A = ℕ × OrderStatus} ((20, payment_processing) ∷ []) ≤ 3)
    ⊎ ((length {A = ℕ × OrderStatus} ((20, payment_processing) ∷ []) ≡ 4)
        × IsTerminal payment_processing)
Transitions-bounded_example =
    Transitions-bounded first (record first { status = payment_processing; updated_at = 20 })
      ((20, payment_processing) ∷ [])
      (Transitions.then 20 payment_processing
        (record first { status = payment_processing; updated_at = 20 }) Transitions.here
        processing_first)

-- The payment's message reaches a server that knows no event.
abbrev paid_message : Message
paid_message = record {
  topic = EventType.payment_completed;
  partition = 0;
  offset = 4;
  key = [];
  value = marshal (Event.payment_completed paid);
}

handle_message_moves_example :
    let (r, s', st') = handle_message server no_others calm paid_message shop [] in
    (r ≡ ok tt)
    × (find (has_id (pos 1)) s'.committed.tables ≡ some (set_status stock_reserving 1000 first))
    × (s'.committed.outbox ≡ shop.committed.outbox)
    × (st' ≡ after_mark server store_prefix paid.base.event_id [])
unfolding is_processed find eq_ℤ
handle_message_moves_example =
    handle_message_moves server calm shop [] (Incoming.payment_completed paid) paid_message first
      (refl, unmarshal-marshal (Event.payment_completed paid) tt) refl refl refl refl

handle-off_diagram_example :
    let m = Incoming.payment_completed paid in
    (p : Order) × (find (has_id (pos 1)) (handle no_others calm m shop).1.committed.tables ≡ some p)
    × KeepsTo first p
unfolding find eq_ℤ
handle-off_diagram_example =
    handle-off_diagram calm (Incoming.payment_completed paid) shop first refl refl refl

-- A request for nothing, without a key.
abbrev gift : CreateOrderRequest
gift = record { user_id = pos 9; amount = pos 0; quantity = pos 1; idempotency_key = [] }

abbrev gift_body : Payload
gift_body = object (("userId", num (pos 9)) ∷ ("quantity", num (pos 1)) ∷ [])

gift_decoded : decode_request gift_body ≡ ok gift
unfolding decode_request
gift_decoded = refl

fresh_key : find (has_key (key_or (text "b") [])) shop.committed.tables ≡ none
unfolding find text_eq text
fresh_key = refl

post_order_invalid_example :
    let (answered, s') = post_order (text "b") calm Method.post gift_body shop in
    (answered.status ≡ 500) × (s' ≡ shop)
post_order_invalid_example =
    post_order_invalid (text "b") calm gift_body gift shop gift_decoded fresh_key
      (inl (omega arith))
