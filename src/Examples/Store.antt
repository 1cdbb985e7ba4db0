-- ===== src/Examples/Store.antt =====
-- Runs of the outbox workers.
use msa_saga_go_practical.Prelude.{◌*◌, ◌≤◌, ◌≡◌, refl, Bool, false, none, List, [], ◌∷◌, arith}
use mathlib.Core.List.Memᴰ
use msa_saga_go_practical.Prelude.Int.{ℤ, pos, eq_ℤ, int_eq}
use msa_saga_go_practical.Prelude.Text.{text}
use msa_saga_go_practical.Common.Events.{EventType}
use msa_saga_go_practical.Common.Result.{ok}
use msa_saga_go_practical.Common.Wire.{Members, object, num}
use msa_saga_go_practical.Common.Messaging.{Producer, ProducerMessage}
use msa_saga_go_practical.Store.Table.{find, All, Distinct}
use msa_saga_go_practical.Store.Session.{OutboxEvent, pending, sent}
use msa_saga_go_practical.Store.Pending.{pending_rows}
use msa_saga_go_practical.Store.Worker.{no_key, Signal, tick, stored, canceled, start}
use msa_saga_go_practical.Store.Publishing.{ProducerLaws}
use msa_saga_go_practical.Store.Rows.{Answers}
use msa_saga_go_practical.Store.Batch.{all_answered}
use msa_saga_go_practical.Store.Running.{pass_of}
use msa_saga_go_practical.Store.Backlog.{backlog}
use msa_saga_go_practical.Store.Emptying.{ticking, start_empties}
use msa_saga_go_practical.Inventory.Outbox

-- A broker that takes every message.
abbrev broker : Producer
broker = record { State = List ProducerMessage; send = λ m l. (ok tt, m ∷ l) }

abbrev all_of : List ProducerMessage → List ProducerMessage
all_of l = l

broker_laws : ProducerLaws broker all_of
broker_laws = record { kept = λ m x st h. Memᴰ.tail h; sent = λ m st h. Memᴰ.head refl }

abbrev body : Members
body = ("orderId", num (pos 7)) ∷ []

abbrev waiting : OutboxEvent
waiting = record {
  id = pos 1;
  aggregate_type = text "order";
  aggregate_id = pos 7;
  event_type = EventType.order_created;
  payload = object body;
  status = pending;
  created_at = 20;
  sent_at = none;
}

abbrev older : OutboxEvent
older = record waiting { id = pos 2; created_at = 10 }

abbrev box : List OutboxEvent
box = waiting ∷ older ∷ []

-- The marking of the row 1 fails.
abbrev fails_once : ℤ → Bool
fails_once id = eq_ℤ id (pos 1)

abbrev never : ℤ → Bool
never id = false

abbrev nothing : List ProducerMessage
nothing = []

box-Distinct : Distinct (λ (x : OutboxEvent). x.id) box
unfolding find eq_ℤ
box-Distinct = (refl, (refl, tt))

-- A run in which a row is stored, the marking fails once, and then everything is answered.
abbrev newer : OutboxEvent
newer = record waiting { id = pos 3; created_at = 30 }

abbrev shaky : Answers
shaky = record (all_answered 50) { mark_fails = fails_once; scan_fails = λ id. eq_ℤ id (pos 9) }

abbrev run : List (Signal Answers)
run = tick shaky ∷ stored newer ∷ tick (all_answered 60) ∷ canceled ∷ []

few_rows : backlog box ≤ 100 * 1
unfolding pending_rows
few_rows = omega arith

start_empties_example :
    All
      (λ (x : OutboxEvent). x.status ≡ sent)
      (start
        (pass_of broker no_key (λ now. Outbox.repository (all_answered now)))
        (ticking (60 ∷ []))
        box
        nothing).0
start_empties_example =
    start_empties broker no_key (λ m st. refl) (λ ms. ([], refl))
      (λ now. Outbox.repository (all_answered now)) (λ now. now) Outbox.repository-IsFaultless
      (60 ∷ []) box nothing box-Distinct (tt, (tt, tt)) few_rows
