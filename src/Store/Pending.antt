-- ===== src/Store/Pending.antt =====
-- What the workers do to the outbox: `FindPending` and `MarkSent` of
-- services/order/internal/repository/outbox_repository.go, which the other services have under other
-- names. Both go to the pool. Of rows of one age, whose order the statement leaves open, the one that
-- was inserted first comes first.
use msa_saga_go_practical.Prelude.{
  ℕ, zero, suc, Bool, true, false, some, List, [], ◌∷◌, leb, if◌then◌else◌,
}
use msa_saga_go_practical.Prelude.Int.{ℤ, eq_ℤ}
use msa_saga_go_practical.Store.Table.{update}
use msa_saga_go_practical.Store.Session.{OutboxEvent, pending, sent}

abbrev pub is_pending : OutboxEvent → Bool
is_pending e = elim e.status [ pending ↦ true | sent ↦ false ]

-- `WHERE status = 'PENDING'`
unfoldable pub pending_rows : List OutboxEvent → List OutboxEvent
pending_rows [] = []
pending_rows (e ∷ t) = let rest = pending_rows t in if is_pending e then e ∷ rest else rest

-- `ORDER BY created_at ASC`
unfoldable pub place : OutboxEvent → List OutboxEvent → List OutboxEvent
place e [] = e ∷ []
place e (x ∷ t) =
    let rest = place e t in if leb e.created_at x.created_at then e ∷ x ∷ t else x ∷ rest

unfoldable pub by_age : List OutboxEvent → List OutboxEvent
unfolding place
by_age [] = []
by_age (e ∷ t) = place e (by_age t)

-- `LIMIT $1`
unfoldable pub take : ℕ → List OutboxEvent → List OutboxEvent
take zero t = []
take (suc n) [] = []
take (suc n) (e ∷ t) = e ∷ take n t

unfoldable pub select_pending : ℕ → List OutboxEvent → List OutboxEvent
unfolding take by_age pending_rows
select_pending limit rows = take limit (by_age (pending_rows rows))

-- `WHERE id = $1`
abbrev pub has_id : ℤ → OutboxEvent → Bool
has_id id e = eq_ℤ e.id id

-- `SET status = 'SENT', sent_at = NOW()`
abbrev pub set_sent : ℕ → OutboxEvent → OutboxEvent
set_sent now e = record e { status = sent; sent_at = some now }

abbrev pub mark_sent : ℕ → ℤ → List OutboxEvent → List OutboxEvent
mark_sent now id rows = update (has_id id) (set_sent now) rows
