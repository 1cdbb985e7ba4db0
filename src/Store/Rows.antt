-- ===== src/Store/Rows.antt =====
-- Reading the rows of an answered query, `for rows.Next() { rows.Scan(…) }`, as the outbox
-- repositories and the worker of services/payment/cmd/main.go do it, and what a worker asks of the
-- outbox. Which call of the driver fails is an argument.
use msa_saga_go_practical.Prelude.{
  ℕ, zero, suc, ◌≡◌, ◌⊎◌, Bool, Option, none, some, List, [], ◌∷◌, inl, inr, Bool-cases,
  if◌then◌else◌,
}
use msa_saga_go_practical.Prelude.Int.{ℤ}
use msa_saga_go_practical.Common.Errors.{Error}
use msa_saga_go_practical.Common.Result.{Result, ok, err, ◌>>=◌}
use msa_saga_go_practical.Store.Table.{All}
use msa_saga_go_practical.Store.Session.{OutboxEvent}
use msa_saga_go_practical.Store.Pending
use msa_saga_go_practical.Store.Pending.{take}

-- What the driver does in one tick of a worker: whether the query fails, which rows `Scan` refuses,
-- after how many rows the iteration breaks off, which UPDATE fails, and the server's `NOW()`.
pub record Answers : Type 0 where
  pub query_fails : Bool
  pub scan_fails : ℤ → Bool
  pub cut : Option ℕ
  pub mark_fails : ℤ → Bool
  pub now : ℕ

-- The rows that `rows.Next()` comes to.
unfoldable pub delivered : Option ℕ → List OutboxEvent → List OutboxEvent
delivered none es = es
delivered (some n) es = take n es

-- The loop that returns at the first row that cannot be scanned.
unfoldable pub scan_all : (ℤ → Bool) → Error → List OutboxEvent → Result (List OutboxEvent)
scan_all scan_fails failure [] = ok []
scan_all scan_fails failure (e ∷ es) =
    let rest = scan_all scan_fails failure es in
    if scan_fails e.id then err failure else rest >>= λ t. ok (e ∷ t)

-- `db.ExecContext` of the UPDATE, with the error that the repository makes of a failure.
abbrev pub execute_mark :
    Answers → Error → ℤ → List OutboxEvent → Result (Unit {0}) × List OutboxEvent
execute_mark answers failure id rows =
    if answers.mark_fails id
    then (err failure, rows)
    else (ok tt, Pending.mark_sent answers.now id rows)

-- What a worker uses of an `OutboxRepository`, over the rows of the table.
pub record OutboxRepository : Type 0 where
  pub find_pending : ℕ → List OutboxEvent → Result (List OutboxEvent)
  pub mark_sent : ℤ → List OutboxEvent → Result (Unit {0}) × List OutboxEvent

-- What the worker relies on: a batch is made of rows of the table, and marking sets the row SENT or
-- changes nothing.
pub record RepositoryLaws (repository : OutboxRepository) (now : ℕ) : Type 1 where
  pub found :
      (P : OutboxEvent → Type 0) (limit : ℕ) (rows : List OutboxEvent) {es : List OutboxEvent}
      → repository.find_pending limit rows ≡ ok es
      → All P rows
      → All P es
  pub marked :
      (id : ℤ) (rows : List OutboxEvent)
      → ((repository.mark_sent id rows).1 ≡ rows)
        ⊎ ((repository.mark_sent id rows).1 ≡ Pending.mark_sent now id rows)

-- What it relies on when nothing fails.
pub record IsFaultless (repository : OutboxRepository) (now : ℕ) : Type 0 where
  pub finds :
      (limit : ℕ) (rows : List OutboxEvent)
      → repository.find_pending limit rows ≡ ok (Pending.select_pending limit rows)
  pub marks :
      (id : ℤ) (rows : List OutboxEvent)
      → repository.mark_sent id rows ≡ (ok tt, Pending.mark_sent now id rows)

pub execute_mark_lem :
    (answers : Answers) (failure : Error) (id : ℤ) (rows : List OutboxEvent)
    → ((execute_mark answers failure id rows).1 ≡ rows)
      ⊎ ((execute_mark answers failure id rows).1 ≡ Pending.mark_sent answers.now id rows)
execute_mark_lem answers failure id rows = elim (Bool-cases (answers.mark_fails id)) [
  | inl fails ↦ inl (rw fails)
  | inr fine ↦ inr (rw fine)
]

module _ (P : OutboxEvent → Type 0) where
  pub All-take : (n : ℕ) (t : List OutboxEvent) → All P t → All P (take n t)
  unfolding take
  All-take zero t h = tt
  All-take (suc n) [] h = tt
  All-take (suc n) (e ∷ t) h = (h.0, All-take n t h.1)

  pub All-delivered : (cut : Option ℕ) (es : List OutboxEvent) → All P es → All P (delivered cut es)
  unfolding delivered
  All-delivered none es h = h
  All-delivered (some n) es h = All-take n es h

  -- The scanned rows of a loop that reached its end.
  abbrev AllOk : Result (List OutboxEvent) → Type 0
  AllOk (ok es) = All P es
  AllOk (err e) = Unit

  scan_all-AllOk :
      (scan_fails : ℤ → Bool) (failure : Error) (t : List OutboxEvent)
      → All P t
      → AllOk (scan_all scan_fails failure t)
  unfolding scan_all
  scan_all-AllOk scan_fails failure [] h = tt
  scan_all-AllOk scan_fails failure (e ∷ t) h = elim (Bool-cases (scan_fails e.id)) [
    | inl bad ↦ rw bad tt
    | inr fine ↦
        rw fine (
          cons-AllOk e h.0 (scan_all scan_fails failure t)
            (scan_all-AllOk scan_fails failure t h.1))
  ]
    where
      cons-AllOk :
          (e : OutboxEvent)
          → P e
          → (r : Result (List OutboxEvent)) → AllOk r
          → AllOk (r >>= λ t. ok (e ∷ t))
      cons-AllOk e p (ok t) h = (p, h)
      cons-AllOk e p (err x) h = tt

  pub All-scan_all :
      (scan_fails : ℤ → Bool) (failure : Error) (t : List OutboxEvent) {es : List OutboxEvent}
      → scan_all scan_fails failure t ≡ ok es
      → All P t
      → All P es
  All-scan_all scan_fails failure t {es} h a =
      let r = scan_all-AllOk scan_fails failure t a in rw h at r
