-- ===== src/Wiring/Orderly.antt =====
-- What is asked of a process that starts and stops: the calls of services/*/cmd/main.go in order.
use msa_saga_go_practical.Prelude.{
  ℕ, ◌≡◌, ◌⊎◌, Bool, true, false, Option, none, some, List, [], ◌∷◌, ◌==◌, if◌then◌else◌,
}
use msa_saga_go_practical.Prelude.Text.{text}
use msa_saga_go_practical.Wiring.Process.{
  Resource, logs, database, redis_client, publisher, consumer, Action, acquire, release, ping,
  subscribe, start_worker, listen, Exit, returned, fatal, panicked,
}

abbrev resource_index : Resource → ℕ
resource_index logs = 0
resource_index database = 1
resource_index redis_client = 2
resource_index publisher = 3
resource_index consumer = 4

abbrev give_back : Resource → List Resource → Option (List Resource)
give_back r [] = none
give_back r (x ∷ rs) = if resource_index x == resource_index r then some rs else none

-- What is held after the calls, if each resource is given back before those that were taken earlier.
unfoldable pub held : List Action → List Resource → Option (List Resource)
held [] rs = some rs
held (acquire r names ∷ actions) rs = held actions (r ∷ rs)
held (release r ∷ actions) rs = elim (give_back r rs) [
  | none ↦ none
  | some left ↦ held actions left
]
held (_ ∷ actions) rs = held actions rs

abbrev is_ping : Action → Bool
is_ping (ping database) = true
is_ping _ = false

-- The calls that make the service work: messages, ticks and requests.
abbrev is_work : Action → Bool
is_work (subscribe topics) = true
is_work (start_worker seconds) = true
is_work (listen address routes) = true
is_work _ = false

unfoldable pub has_worked : List Action → Bool
has_worked [] = false
has_worked (a ∷ actions) = let rest = has_worked actions in if is_work a then true else rest

-- No work before the database has answered.
unfoldable pub checks_first : List Action → Bool
checks_first [] = true
checks_first (a ∷ actions) =
    let rest = checks_first actions in if is_ping a then true else if is_work a then false else rest

-- A process that returns or panics has given back all that it took, in the opposite order; one that
-- ends by `log.Fatal` has not begun to work, unless it is its HTTP server that has failed. None works
-- before its database has answered.
abbrev pub EndsWell : Exit → List Action → Type 0
EndsWell returned actions = held actions [] ≡ some []
EndsWell (fatal m) actions = (has_worked actions ≡ false) ⊎ (m ≡ text "http server failed")
EndsWell (panicked m) actions = held actions [] ≡ some []

abbrev pub IsOrderly : Exit × List Action → Type 0
IsOrderly (e, actions) = EndsWell e actions × (checks_first actions ≡ true)
