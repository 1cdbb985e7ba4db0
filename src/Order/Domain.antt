-- ===== src/Order/Domain.antt =====
-- services/order/internal/domain/order.go: the order and the diagram of its statuses.
use msa_saga_go_practical.Prelude.{
  ℕ, Bool, true, false, Option, none, some, List, [], ◌∷◌, ◌==◌, ◌||◌, if◌then◌else◌,
}
use msa_saga_go_practical.Prelude.Int.{ℤ}
use msa_saga_go_practical.Prelude.Text.{Text}

pub data OrderStatus : Type 0 where
  pending payment_processing stock_reserving delivery_preparing : OrderStatus
  completed canceled failed : OrderStatus

abbrev status_index : OrderStatus → ℕ
status_index pending = 0
status_index payment_processing = 1
status_index stock_reserving = 2
status_index delivery_preparing = 3
status_index completed = 4
status_index canceled = 5
status_index failed = 6

-- `==` of two statuses.
abbrev pub status_eq : OrderStatus → OrderStatus → Bool
status_eq a b = status_index a == status_index b

pub record Order : Type 0 where
  pub id : ℤ
  pub user_id : ℤ
  pub amount : ℤ
  pub quantity : ℤ
  pub status : OrderStatus
  pub version : ℕ
  pub idempotency_key : Text
  pub created_at : ℕ
  pub updated_at : ℕ

-- The map literal of `CanTransitionTo`; a status that is no key has no entry.
transitions : OrderStatus → Option (List OrderStatus)
transitions pending = some (payment_processing ∷ canceled ∷ failed ∷ [])
transitions payment_processing = some (stock_reserving ∷ canceled ∷ failed ∷ [])
transitions stock_reserving = some (delivery_preparing ∷ canceled ∷ failed ∷ [])
transitions delivery_preparing = some (completed ∷ canceled ∷ failed ∷ [])
transitions _ = none

-- The loop over the allowed statuses.
is_allowed : List OrderStatus → OrderStatus → Bool
is_allowed [] s = false
is_allowed (a ∷ as') s = status_eq a s || is_allowed as' s

can_move : OrderStatus → OrderStatus → Bool
unfolding transitions is_allowed
can_move from to = elim (transitions from) [ some l ↦ is_allowed l to | none ↦ false ]

unfoldable pub can_transition_to : Order → OrderStatus → Bool
unfolding can_move
can_transition_to o to = can_move o.status to

-- `TransitionTo` with the time of `time.Now`: the order after the call, and the result.
unfoldable pub transition_to : ℕ → OrderStatus → Order → Order × Bool
unfolding can_transition_to
transition_to now to o =
    if can_transition_to o to
    then (record o { status = to; updated_at = now }, true)
    else (o, false)
