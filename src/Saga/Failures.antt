-- ===== src/Saga/Failures.antt =====
-- The invariant by which every failure in the saga has its cause, and what each of services/order,
-- services/payment, services/inventory and services/delivery must do to keep it.
use msa_saga_go_practical.Prelude.{List}
use msa_saga_go_practical.Prelude.Int.{ℤ}
use msa_saga_go_practical.Store.Session.{Session}
use msa_saga_go_practical.Order.Domain.{Order}
use msa_saga_go_practical.Order.Provenance.{AllIn}
use msa_saga_go_practical.Order.Ended.{Ended, OnlyCreated, AllIn-map}
use msa_saga_go_practical.Payment.Domain.{Payment}
use msa_saga_go_practical.Payment.Consistency.{HoldsIn}
use msa_saga_go_practical.Payment.Refunded.{AllRefunded, AllRefunded-map}
use msa_saga_go_practical.Inventory.Repository.{Tables}
use msa_saga_go_practical.Delivery.Domain.{Delivery}
use msa_saga_go_practical.Delivery.Provenance.{OnlyStarted}
use msa_saga_go_practical.Saga.System.{System}
use msa_saga_go_practical.Saga.Causality.{IsCausal}
use msa_saga_go_practical.Saga.Announcements.{IsRefused, IsDeclined}

-- Every payment that is given back and every order that has failed has a reason.
pub record IsExplained (s : System) : Type 0 where
  pub causal : IsCausal s
  pub created : OnlyCreated s.orders
  pub started : OnlyStarted s.deliveries
  pub payments : HoldsIn s.payments
  pub refunds : AllRefunded (IsRefused s.stock.committed.outbox) s.payments.committed.tables
  pub ended :
      AllIn
        (Ended (IsRefused s.stock.committed.outbox) (IsDeclined s.payments.committed.outbox))
        s.orders.committed.tables

pub orders_move :
    (s : System) (orders : Session (List Order))
    → IsCausal (record s { orders = orders })
    → OnlyCreated orders
    → AllIn
        (Ended (IsRefused s.stock.committed.outbox) (IsDeclined s.payments.committed.outbox))
        orders.committed.tables
    → IsExplained s
    → IsExplained (record s { orders = orders })
orders_move s orders causal created ended x = record {
  causal = causal;
  created = created;
  started = x.started;
  payments = x.payments;
  refunds = x.refunds;
  ended = ended;
}

pub payments_move :
    (s : System) (payments : Session (List Payment))
    → IsCausal (record s { payments = payments })
    → HoldsIn payments
    → AllRefunded (IsRefused s.stock.committed.outbox) payments.committed.tables
    → ((order : ℤ)
        → IsDeclined s.payments.committed.outbox order
        → IsDeclined payments.committed.outbox order)
    → IsExplained s
    → IsExplained (record s { payments = payments })
payments_move s payments causal holds refunds stay x =
    let R = IsRefused s.stock.committed.outbox in
    record {
      causal = causal;
      created = x.created;
      started = x.started;
      payments = holds;
      refunds = refunds;
      ended =
          AllIn-map R (IsDeclined s.payments.committed.outbox) R
            (IsDeclined payments.committed.outbox) s.orders.committed.tables (λ order r. r) stay
            x.ended;
    }

pub stock_moves :
    (s : System) (stock : Session Tables)
    → IsCausal (record s { stock = stock })
    → ((order : ℤ)
        → IsRefused s.stock.committed.outbox order
        → IsRefused stock.committed.outbox order)
    → IsExplained s
    → IsExplained (record s { stock = stock })
stock_moves s stock causal stay x =
    let C = IsDeclined s.payments.committed.outbox in
    record {
      causal = causal;
      created = x.created;
      started = x.started;
      payments = x.payments;
      refunds =
          AllRefunded-map (IsRefused s.stock.committed.outbox) (IsRefused stock.committed.outbox)
            s.payments.committed.tables stay x.refunds;
      ended =
          AllIn-map (IsRefused s.stock.committed.outbox) C (IsRefused stock.committed.outbox) C
            s.orders.committed.tables stay (λ order c. c) x.ended;
    }

pub deliveries_move :
    (s : System) (deliveries : Session (List Delivery))
    → IsCausal (record s { deliveries = deliveries })
    → OnlyStarted deliveries
    → IsExplained s
    → IsExplained (record s { deliveries = deliveries })
deliveries_move s deliveries causal started x = record {
  causal = causal;
  created = x.created;
  started = started;
  payments = x.payments;
  refunds = x.refunds;
  ended = x.ended;
}
