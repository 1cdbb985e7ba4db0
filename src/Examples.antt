-- ===== src/Examples.antt =====
-- Concrete runs: the theorems of the development applied to small inputs. This file has the
-- environments that the runs share.
use msa_saga_go_practical.Prelude.{Bool, true, List, []}
use msa_saga_go_practical.Prelude.Int.{pos}
use msa_saga_go_practical.Prelude.Text.{Text, text}
use msa_saga_go_practical.Common.Events.{EventType, BaseEvent, new_base}
use msa_saga_go_practical.Store.Session.{Db, Session, Faults, no_faults, Env}
mod Shop
mod Order
mod Payment
mod Inventory
mod Common
mod Delivery
mod Store
mod Course
mod Refusal
mod Saga

-- Nothing fails.
abbrev pub calm : Env
calm = record {
  faults = no_faults;
  now = 1000;
  event_id = text "event-1";
  correlation_id = text "flow-1";
  driver_text = λ _. text "driver";
}

abbrev pub calm_later : Env
calm_later = record calm { now = 2000; event_id = text "event-2" }

-- The last commit fails.
abbrev pub lossy : Env
lossy = record calm { faults = record no_faults { commit = true } }

abbrev pub base : EventType → BaseEvent
base t = new_base t (text "event-0") 900 (text "flow-1")

-- A session with no transaction, over a table and an empty outbox.
abbrev pub over : {T : Type 0} → T → Session T
over t = record {
  committed = record { tables = t; outbox = [] };
  working = record { tables = t; outbox = [] };
  serial = 1;
  outbox_serial = 0;
}
