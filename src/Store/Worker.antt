-- ===== src/Store/Worker.antt =====
-- The outbox workers: one pass over the pending rows, and the loop around it. services/order/internal/worker/outbox_worker.go
-- computes the Kafka key from the payload; those of services/inventory/internal/worker/ and
-- services/delivery/internal/worker/ and the one of services/payment/cmd/main.go send an empty key.
use msa_saga_go_practical.Prelude.{
  ℕ, ◌-◌, ◌%◌, none, some, List, [], ◌∷◌, ltb, leb, ◌&&◌, ◌||◌, if◌then◌else◌,
}
use msa_saga_go_practical.Prelude.Int.{ℤ, pos, negsuc}
use msa_saga_go_practical.Prelude.Text.{Text}
use msa_saga_go_practical.Common.Errors.{Error}
use msa_saga_go_practical.Common.Result.{Result, ok, err}
use msa_saga_go_practical.Common.Wire.{Payload, object, malformed, num, member}
use msa_saga_go_practical.Common.Messaging.{Producer, publish}
use msa_saga_go_practical.Store.Session.{OutboxEvent}
use msa_saga_go_practical.Store.Rows.{OutboxRepository}
use msa_saga_go_practical.Store.Table.{insert}

-- `string(r)` of a rune given by its 32 bits: U+FFFD if they are no code point.
abbrev pub rune_text : ℕ → Text
rune_text r = if ltb r 55296 || (leb 57344 r && leb r 1114111) then r ∷ [] else 65533 ∷ []

-- `rune(int64(oid))` keeps the low 32 bits. The rounding of `float64` above 2^53 is left out.
abbrev pub low_bits : ℤ → ℕ
low_bits (pos n) = n % 4294967296
low_bits (negsuc n) = 4294967295 - n % 4294967296

-- The key of the order service's `publishEvent`.
unfoldable pub order_key : Payload → Result Text
unfolding member
order_key (object m) = elim (member "orderId" m) [
  | some v ↦ elim v [ num id ↦ ok (rune_text (low_bits id)) | _ ↦ ok [] ]
  | none ↦ ok []
]
order_key malformed = err Error.bad_json

-- The key of the other services.
abbrev pub no_key : Payload → Result Text
no_key payload = ok []

module _ (producer : Producer) (key_of : Payload → Result Text) where
  -- `publishEvent`
  unfoldable pub publish_event : OutboxEvent → producer.State → Result (Unit {0}) × producer.State
  publish_event e st = elim (key_of e.payload) [
    | ok key ↦ publish producer e.event_type key e.payload st
    | err x ↦ (err x, st)
  ]

  module _ (repository : OutboxRepository) where
    -- After `publishEvent` of one row: an error, and one of `MarkSent`, is only logged.
    abbrev pub after_publish : OutboxEvent → List OutboxEvent → Result (Unit {0}) → List OutboxEvent
    after_publish e rows (ok done) = (repository.mark_sent e.id rows).1
    after_publish e rows (err x) = rows

    -- The loop of `process`.
    unfoldable pub publish_all :
        List OutboxEvent → List OutboxEvent → producer.State → List OutboxEvent × producer.State
    publish_all [] rows st = (rows, st)
    publish_all (e ∷ es) rows st =
        let (r, st') = publish_event e st in publish_all es (after_publish e rows r) st'

    -- What `process` does with the answer of `FindPending`.
    abbrev pub after_find :
        Result (List OutboxEvent)
        → List OutboxEvent
        → producer.State
        → Result (Unit {0}) × List OutboxEvent × producer.State
    after_find (err e) rows st = (err e, rows, st)
    after_find (ok es) rows st = let (rows', st') = publish_all es rows st in (ok tt, rows', st')

    -- One tick of the worker.
    unfoldable pub process :
        List OutboxEvent → producer.State → Result (Unit {0}) × List OutboxEvent × producer.State
    process rows st = after_find (repository.find_pending 100 rows) rows st

-- What happens around a worker, as its `select` and the database order it: a tick of its clock, with
-- the repository as the driver then answers, a row that a transaction of the service commits between
-- two ticks, and the end of the context.
pub data Signal (Tick : Type 0) : Type 0 where
  tick : Tick → Signal Tick
  stored : OutboxEvent → Signal Tick
  canceled : Signal Tick

-- The loop of `Start`, over what `pass` does at a tick.
unfoldable pub start :
    {Tick State : Type 0}
    → (Tick → List OutboxEvent → State → List OutboxEvent × State)
    → List (Signal Tick)
    → List OutboxEvent
    → State
    → List OutboxEvent × State
start pass [] rows st = (rows, st)
start pass (canceled ∷ signals) rows st = (rows, st)
start pass (stored e ∷ signals) rows st = start pass signals (insert e rows) st
start pass (tick t ∷ signals) rows st =
    let (rows', st') = pass t rows st in start pass signals rows' st'
