-- ===== src/Order/Creation.antt =====
-- `CreateOrder` of services/order/internal/service/order_service.go: validation, idempotency, and
-- the order and its event in the database.
use msa_saga_go_practical.Prelude.{
  suc, ◌≤◌, ◌≡◌, ◌≢◌, ◌∙◌, ap, refl, true, false, none, some, List, [], arith, ◌⊎◌, length,
}
use msa_saga_go_practical.Prelude.Int.{pos, ◌≤ℤ◌}
use msa_saga_go_practical.Prelude.Text.{text, text_eq_iff}
use msa_saga_go_practical.Common.Errors.{ErrorCode, is_code}
use msa_saga_go_practical.Common.Events.{EventType}
use msa_saga_go_practical.Common.Wire.{Event}
use msa_saga_go_practical.Common.Result.{Result, ok, err}
use msa_saga_go_practical.Store.Table.{find, insert, find-insert_new}
use msa_saga_go_practical.Store.Session.{OutboxEvent, Session, Env}
use msa_saga_go_practical.Store.Outbox.{new_outbox_event}
use msa_saga_go_practical.Order.Domain.{Order}
use msa_saga_go_practical.Order.Repository.{has_key}
use msa_saga_go_practical.Order.Service.{
  CreateOrderCommand, result_of, new_order, order_created_event, existing_order, create_order,
}

abbrev pub IsWellFormed : CreateOrderCommand → Type 0
IsWellFormed cmd =
    (pos 1 ≤ℤ cmd.amount) × (pos 1 ≤ℤ cmd.quantity) × (length cmd.idempotency_key ≤ 64)

-- The call failed with an error of this code.
abbrev pub HasCode : {A : Type 0} → ErrorCode → Result A → Type 0
HasCode code (ok a) = ⊥
HasCode code (err e) = is_code e code ≡ true

abbrev pub IsFailure : {A : Type 0} → Result A → Type 0
IsFailure (ok a) = ⊥
IsFailure (err e) = Unit

-- The row that `CreateOrder` inserts.
abbrev pub created_order : CreateOrderCommand → Env → Session (List Order) → Order
created_order cmd env s = record (new_order cmd env.now) { id = pos (suc s.serial) }

-- The outbox row that announces it.
abbrev pub created_event : CreateOrderCommand → Env → Session (List Order) → OutboxEvent
created_event cmd env s =
    record (new_outbox_event (text "order") (pos (suc s.serial)) EventType.order_created
      (Event.order_created (order_created_event env (created_order cmd env s))) env.now) {
        id = pos (suc s.outbox_serial);
      }

module _ (cmd : CreateOrderCommand) (env : Env) (s : Session (List Order)) where
  -- Whatever a command asks for, a known key is answered with the order that has it, and nothing
  -- changes.
  create_order_known_key :
      (o : Order)
      → cmd.idempotency_key ≢ []
      → env.faults.find_key ≡ false
      → find (has_key cmd.idempotency_key) s.committed.tables ≡ some o
      → create_order cmd env s ≡ (ok (result_of o), s)
  unfolding create_order
  create_order_known_key o ne f h = ground arith

  fresh_key :
      find (has_key cmd.idempotency_key) s.committed.tables ≡ none → existing_order cmd env s ≡ none
  unfolding existing_order
  fresh_key h = ground arith

  -- A command with a new key and an amount or a quantity that is not positive is refused with
  -- INVALID_ORDER, and nothing changes.
  pub create_order_invalid :
      find (has_key cmd.idempotency_key) s.committed.tables ≡ none
      → (cmd.amount ≤ℤ pos 0) ⊎ (cmd.quantity ≤ℤ pos 0)
      → HasCode ErrorCode.invalid_order (create_order cmd env s).0
        × ((create_order cmd env s).1 ≡ s)
  unfolding create_order is_code
  create_order_invalid h p = ground (arith, fresh_key h)

  -- A command with a new key, a positive amount and quantity and a key of at most 64 code points, with
  -- no call failing, adds one PENDING order with the sequence's next id and one PENDING event
  -- `order.created.v1` about it; the answer is that order's id and status.
  pub create_order_creates :
      find (has_key cmd.idempotency_key) s.committed.tables ≡ none
      → IsWellFormed cmd
      → env.faults.begin ≡ false
      → env.faults.create ≡ false
      → env.faults.marshal ≡ false
      → env.faults.insert_event ≡ false
      → env.faults.commit ≡ false
      → let (r, s') = create_order cmd env s in
        (r ≡ ok (result_of (created_order cmd env s)))
        × (s'.committed.tables ≡ insert (created_order cmd env s) s.committed.tables)
        × (s'.committed.outbox ≡ insert (created_event cmd env s) s.committed.outbox)
  unfolding create_order
  create_order_creates h w f1 f2 f3 f4 f5 = ground (arith, fresh_key h)

  -- When the order's row is committed and then the marshalling, the INSERT of the event or the commit
  -- fails, the caller gets an error, the order stays in the table, and no event announces it.
  create_order_unannounced :
      find (has_key cmd.idempotency_key) s.committed.tables ≡ none
      → IsWellFormed cmd
      → env.faults.begin ≡ false
      → env.faults.create ≡ false
      → (env.faults.marshal ≡ true) ⊎ (env.faults.insert_event ≡ true) ⊎ (env.faults.commit ≡ true)
      → let (r, s') = create_order cmd env s in
        IsFailure r
        × (s'.committed.tables ≡ insert (created_order cmd env s) s.committed.tables)
        × (s'.committed.outbox ≡ s.committed.outbox)
  unfolding create_order
  create_order_unannounced h w f1 f2 f = ground (arith, fresh_key h)

  -- An order with an empty key bars every later command with an empty key: it fails, and no order
  -- and no event is written.
  pub create_order_empty_key :
      (o : Order)
      → cmd.idempotency_key ≡ []
      → find (has_key []) s.committed.tables ≡ some o
      → let (r, s') = create_order cmd env s in IsFailure r × (s'.committed ≡ s.committed)
  unfolding create_order
  create_order_empty_key o e h =
      let taken : find (has_key cmd.idempotency_key) s.committed.tables ≡ some o = rw e h in
      ground arith

  found_created :
      find (has_key cmd.idempotency_key) s.committed.tables ≡ none
      → find (has_key cmd.idempotency_key) (insert (created_order cmd env s) s.committed.tables)
        ≡ some (created_order cmd env s)
  found_created h =
      find-insert_new (has_key cmd.idempotency_key) (created_order cmd env s) s.committed.tables h
        ((text_eq_iff cmd.idempotency_key cmd.idempotency_key).1 refl)

module _ (cmd : CreateOrderCommand) (env later : Env) (s : Session (List Order)) where
  -- Sending a well-formed command with a new key that is not empty again, directly after a first time
  -- in which no call failed, gives the same answer and changes nothing, if the look-up by the key is
  -- answered.
  pub create_order_repeat :
      find (has_key cmd.idempotency_key) s.committed.tables ≡ none
      → IsWellFormed cmd
      → cmd.idempotency_key ≢ []
      → env.faults.begin ≡ false
      → env.faults.create ≡ false
      → env.faults.marshal ≡ false
      → env.faults.insert_event ≡ false
      → env.faults.commit ≡ false
      → later.faults.find_key ≡ false
      → let (r, s') = create_order cmd env s in create_order cmd later s' ≡ (r, s')
  create_order_repeat h w ne f1 f2 f3 f4 f5 g =
      let (result, tables, outbox) = create_order_creates cmd env s h w f1 f2 f3 f4 f5 in
      rw result (
        create_order_known_key cmd later (create_order cmd env s).1 (created_order cmd env s) ne g
          (rw tables (found_created cmd env s h)))

  -- When the row of a well-formed command with a new key that is not empty is committed, and then the
  -- marshalling, the INSERT of the event or the commit fails, sending the command again, with its
  -- look-up answered, reports success, with the id and status of the order that is in the table, and
  -- the outbox has no event that the two calls have added.
  pub create_order_retry_silent :
      find (has_key cmd.idempotency_key) s.committed.tables ≡ none
      → IsWellFormed cmd
      → cmd.idempotency_key ≢ []
      → env.faults.begin ≡ false
      → env.faults.create ≡ false
      → (env.faults.marshal ≡ true) ⊎ (env.faults.insert_event ≡ true) ⊎ (env.faults.commit ≡ true)
      → later.faults.find_key ≡ false
      → let (r, s') = create_order cmd later (create_order cmd env s).1 in
        (r ≡ ok (result_of (created_order cmd env s))) × (s'.committed.outbox ≡ s.committed.outbox)
  create_order_retry_silent h w ne f1 f2 f g =
      let (failed, tables, outbox) = create_order_unannounced cmd env s h w f1 f2 f in
      let again =
        create_order_known_key cmd later (create_order cmd env s).1 (created_order cmd env s) ne g
          (rw tables (found_created cmd env s h)) in
      (ap (λ p. p.0) again, ap (λ p. p.1.committed.outbox) again ∙ outbox)
