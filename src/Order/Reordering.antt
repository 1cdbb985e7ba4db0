-- ===== src/Order/Reordering.antt =====
-- Events that reach services/order/internal/service/order_service.go in another order than the saga
-- sends them: they come on different topics, which Kafka does not order against one another.
use msa_saga_go_practical.Prelude.{List}
use msa_saga_go_practical.Store.Session.{Session, Env}
use msa_saga_go_practical.Order.Domain.{Order}
use msa_saga_go_practical.Order.Incoming.{Incoming, handle}

abbrev pub alone : List Order → List Order
alone t = t

-- Two events in a row, with nothing between and no failing query.
abbrev pub then_handle :
    Incoming → Incoming → Env → Env → Session (List Order) → Session (List Order)
then_handle m k env later s = (handle alone later k (handle alone env m s).1).1
