-- ===== src/Store/Outbox.antt =====
-- services/order/internal/repository/outbox_repository.go and its copies in the other services: the
-- statements on `outbox_events`.
use msa_saga_go_practical.Prelude.{ℕ, suc, Bool, none, if◌then◌else◌}
use msa_saga_go_practical.Prelude.Int.{ℤ, pos}
use msa_saga_go_practical.Prelude.Text.{Text, text}
use msa_saga_go_practical.Common.Errors.{Error, ErrorCode}
use msa_saga_go_practical.Common.Events.{EventType}
use msa_saga_go_practical.Common.Wire.{Event, base_of, marshal}
use msa_saga_go_practical.Common.Result.{ok, err}
use msa_saga_go_practical.Store.Table.{insert}
use msa_saga_go_practical.Store.Session.{pending, OutboxEvent, Db, M}

-- The event that the services of orders and payments build: every field but the id, which the
-- INSERT fills in.
abbrev pub new_outbox_event : Text → ℤ → EventType → Event → ℕ → OutboxEvent
new_outbox_event aggregate_type aggregate_id event_type event now = record {
  id = pos 0;
  aggregate_type = aggregate_type;
  aggregate_id = aggregate_id;
  event_type = event_type;
  payload = marshal event;
  status = pending;
  created_at = now;
  sent_at = none;
}

module _ {T : Type 0} where
  abbrev pub add_event : OutboxEvent → Db T → Db T
  add_event e d = record d { outbox = insert e d.outbox }

  -- `InsertTx`: INSERT … RETURNING id, on the transaction.
  unfoldable pub insert_tx : Bool → OutboxEvent → M T (Unit {0})
  insert_tx fails e s =
      if fails
      then (err (Error.errorf_w (text "failed to insert outbox event") Error.driver), s)
      else (
        ok tt,
        record s {
          working = add_event (record e { id = pos (suc s.outbox_serial) }) s.working;
          outbox_serial = suc s.outbox_serial;
        },
      )

  -- `InsertEvent` of the inventory and delivery services: marshals, and takes the type from the
  -- event and the time from the server's `NOW()`.
  unfoldable pub insert_event : Bool → Bool → Text → ℤ → Event → ℕ → M T (Unit {0})
  insert_event marshal_fails fails aggregate_type aggregate_id event now s =
      if marshal_fails
      then (
        err (Error.wrap ErrorCode.internal_error (text "failed to marshal event") Error.driver),
        s,
      )
      else if fails
      then (
        err (
            Error.wrap ErrorCode.database_error (text "failed to insert outbox event")
              Error.driver),
        s,
      )
      else (
        ok tt,
        record s {
          working =
              add_event
                (record (new_outbox_event aggregate_type aggregate_id (base_of event).event_type
                  event now) { id = pos (suc s.outbox_serial) })
                s.working;
          outbox_serial = suc s.outbox_serial;
        },
      )
