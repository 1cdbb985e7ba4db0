-- ===== src/Order/Diagram.antt =====
-- The diagram of services/order/internal/domain/order.go, and how the event handlers of
-- services/order/internal/service/order_service.go keep to it.
use msa_saga_go_practical.Prelude.{
  ℕ, refl, Option, none, ◌+◌, ◌≤◌, ◌<◌, ◌≡◌, ◌↔◌, ◌⊎◌, true, false, some, List, [], ◌∷◌, arith,
  length, leb, inl, inr, Bool-cases,
}
use msa_saga_go_practical.Order.Domain.{
  Order, OrderStatus, pending, payment_processing, stock_reserving, delivery_preparing, completed,
  canceled, failed, can_transition_to, transition_to,
}
use msa_saga_go_practical.Order.Incoming.{Incoming, order_of, next, moved, advance, handle}
use msa_saga_go_practical.Order.Repository.{has_id}
use msa_saga_go_practical.Order.Consistency.{no_others}
use msa_saga_go_practical.Order.Transitions.{handle-refines-next}
use msa_saga_go_practical.Store.Table.{find}
use msa_saga_go_practical.Store.Session.{Session, Env}

abbrev pub IsTerminal : OrderStatus → Type 0
IsTerminal st = (st ≡ completed) ⊎ (st ≡ canceled) ⊎ (st ≡ failed)

-- How many forward steps a status has behind it.
abbrev stage : OrderStatus → ℕ
stage pending = 0
stage payment_processing = 1
stage stock_reserving = 2
stage delivery_preparing = 3
stage _ = 4

-- The successful calls of `TransitionTo` in a row: the times and the statuses asked for.
pub data Transitions (o : Order) : List (ℕ × OrderStatus) → Order → Type 0 where
  here : Transitions o [] o
  then :
      {as' : List (ℕ × OrderStatus)} {p : Order} (now : ℕ) (to : OrderStatus) (q : Order)
      → Transitions o as' p
      → transition_to now to p ≡ (q, true)
      → Transitions o ((now, to) ∷ as') q

transition_to-stage :
    (now : ℕ) (to : OrderStatus) (p q : Order)
    → transition_to now to p ≡ (q, true)
    → stage p.status < stage q.status
unfolding transition_to
transition_to-stage now to p q h = ground arith

stage-le : (st : OrderStatus) → stage st ≤ 4
stage-le st = ground arith

last_stage : (st : OrderStatus) → stage st ≡ 4 → IsTerminal st
last_stage st h = ground arith

Transitions-stage :
    {o q : Order} {as' : List (ℕ × OrderStatus)}
    → Transitions o as' q
    → stage o.status + length as' ≤ stage q.status
Transitions-stage here = omega arith
Transitions-stage (then {p = p} now to q r h) =
    omega (arith, Transitions-stage r, transition_to-stage now to p q h)

at_least : (as' : List (ℕ × OrderStatus)) → leb (length as') 3 ≡ false → 4 ≤ length as'
at_least as' h = ground arith

-- An order takes at most four successful transitions in a row, whatever is asked for, and after
-- four it is in a terminal status.
pub Transitions-bounded :
    (o q : Order) (as' : List (ℕ × OrderStatus))
    → Transitions o as' q
    → (length as' ≤ 3) ⊎ ((length as' ≡ 4) × IsTerminal q.status)
Transitions-bounded o q as' r = elim (Bool-cases (leb (length as') 3)) [
  | inl few ↦ inl (ground arith)
  | inr many ↦
      let most : length as' ≡ 4 =
        omega (arith, at_least as' many, Transitions-stage r, stage-le q.status) in
      inr (most, last_stage q.status (omega (arith, most, Transitions-stage r, stage-le q.status)))
]

-- `TransitionTo` does what the diagram allows: a refused call leaves the order as it is, and an
-- accepted one changes the status and the time of the update alone; a terminal status accepts none.
transition_to_effect :
    (now : ℕ) (to : OrderStatus) (o : Order)
    → let (q, accepted) = transition_to now to o in
      (accepted ≡ can_transition_to o to)
      × (accepted ≡ false → q ≡ o)
      × (accepted ≡ true → q ≡ record o { status = to; updated_at = now })
      × (IsTerminal o.status → accepted ≡ false)
unfolding transition_to
transition_to_effect now to o =
    (ground arith, λ refused. ground arith, λ accepted. ground arith, λ terminal. ground arith)

-- A step of `next` is off the diagram from a terminal status, and from PENDING to STOCK_RESERVING.
next-off_diagram :
    (m : Incoming) (o : Order) (to : OrderStatus)
    → next m o.status ≡ some to
    → (can_transition_to o to ≡ false)
      ↔ (IsTerminal o.status ⊎ ((o.status ≡ pending) × (to ≡ stock_reserving)))
unfolding can_transition_to
next-off_diagram (Incoming.payment_completed e) o to h = ground arith
next-off_diagram m o to h = ground arith

-- The row that a handler leaves is the one that it has read, or was moved: off the diagram exactly in
-- these cases.
abbrev pub KeepsTo : Order → Order → Type 0
KeepsTo o p =
    (p ≡ o)
    ⊎ ((p.version ≡ o.version + 1)
        × ((can_transition_to o p.status ≡ false)
            ↔ (IsTerminal o.status ⊎ ((o.status ≡ pending) × (p.status ≡ stock_reserving)))))

moved-KeepsTo :
    (m : Incoming) (now : ℕ) (o : Order) (target : Option OrderStatus)
    → next m o.status ≡ target
    → KeepsTo o (moved target now o)
moved-KeepsTo m now o none h = inl refl
moved-KeepsTo m now o (some to) h = inr (refl, next-off_diagram m o to h)

-- When neither query of an event handler fails and no other connection changes the order in between,
-- the order's row is afterwards as it was, or one version up. In the second case its new status is
-- off the diagram of `CanTransitionTo` exactly when the old one was terminal, or when it goes from
-- PENDING to STOCK_RESERVING.
pub handle-off_diagram :
    (env : Env) (m : Incoming) (s : Session (List Order)) (o : Order)
    → env.faults.find ≡ false
    → env.faults.update ≡ false
    → find (has_id (order_of m)) s.committed.tables ≡ some o
    → (p : Order) × (find (has_id (order_of m)) (handle no_others env m s).1.committed.tables
        ≡ some p)
      × KeepsTo o p
handle-off_diagram env m s o f u found =
    let (_, row, _) = handle-refines-next no_others env m s o f u found found in
    (advance m env.now o, row, moved-KeepsTo m env.now o (next m o.status) refl)
