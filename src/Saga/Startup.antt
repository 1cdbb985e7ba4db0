-- ===== src/Saga/Startup.antt =====
-- How the four processes of services/*/cmd/main.go start and stop.
use msa_saga_go_practical.Prelude.{arith}
use msa_saga_go_practical.Wiring.Config.{Environment}
use msa_saga_go_practical.Wiring.Process.{Boot, run}
use msa_saga_go_practical.Wiring.Orderly.{IsOrderly, held, has_worked, checks_first}
use msa_saga_go_practical.Order
use msa_saga_go_practical.Payment
use msa_saga_go_practical.Inventory
use msa_saga_go_practical.Delivery

module _ (boot : Boot) (env : Environment) where
  order-IsOrderly : IsOrderly (run (Order.Main.main boot env))
  unfolding Order.Main.main held has_worked checks_first
  order-IsOrderly = ground arith

  payment-IsOrderly : IsOrderly (run (Payment.Main.main boot env))
  unfolding Payment.Main.main held has_worked checks_first
  payment-IsOrderly = ground arith

  inventory-IsOrderly : IsOrderly (run (Inventory.Main.main boot env))
  unfolding Inventory.Main.main held has_worked checks_first
  inventory-IsOrderly = ground arith

  delivery-IsOrderly : IsOrderly (run (Delivery.Main.main boot env))
  unfolding Delivery.Main.main held has_worked checks_first
  delivery-IsOrderly = ground arith

  -- Whatever calls fail while a process starts, the making of its logger included, whatever its
  -- environment is, and whether a signal or its HTTP server ends it: each of the four processes
  -- subscribes to its topics, starts its worker and listens only after its database has answered a
  -- ping; if it returns or panics, it has given back all that it took, in the opposite order; and if it
  -- ends by `log.Fatal`, either its HTTP server has failed, or it has done none of the three.
  pub main-IsOrderly :
      IsOrderly (run (Order.Main.main boot env))
      × IsOrderly (run (Payment.Main.main boot env))
      × IsOrderly (run (Inventory.Main.main boot env))
      × IsOrderly (run (Delivery.Main.main boot env))
  main-IsOrderly = (order-IsOrderly, payment-IsOrderly, inventory-IsOrderly, delivery-IsOrderly)
