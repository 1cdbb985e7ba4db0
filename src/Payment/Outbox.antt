-- ===== src/Payment/Outbox.antt =====
-- services/payment/internal/repository/outbox_repository.go: the statements on the table
-- `outbox_events` of the payment service, and what its worker relies on.
use msa_saga_go_practical.Prelude.{ℕ, suc, refl, Bool, List, if◌then◌else◌, Bool-cases, inl, inr}
use msa_saga_go_practical.Prelude.Int.{ℤ, pos}
use msa_saga_go_practical.Prelude.Text.{text}
use msa_saga_go_practical.Common.Errors.{Error}
use msa_saga_go_practical.Common.Result.{Result, ok, err}
use msa_saga_go_practical.Store.Session.{OutboxEvent, M}
use msa_saga_go_practical.Store.Outbox
use msa_saga_go_practical.Store.Outbox.{add_event}
use msa_saga_go_practical.Store.Pending.{select_pending}
use msa_saga_go_practical.Store.Rows.{
  Answers, delivered, scan_all, execute_mark, execute_mark_lem, OutboxRepository, RepositoryLaws,
  IsFaultless,
}
use msa_saga_go_practical.Store.Batch.{All-scanned, all_answered, scan_all_fine}

module _ {T : Type 0} where
  -- `Insert`: INSERT … RETURNING id, on the pool.
  pub insert : Bool → OutboxEvent → M T (Unit {0})
  insert fails e s =
      if fails
      then (err (Error.errorf_w (text "failed to insert outbox event") Error.driver), s)
      else (
        ok tt,
        record s {
          committed = add_event (record e { id = pos (suc s.outbox_serial) }) s.committed;
          working = add_event (record e { id = pos (suc s.outbox_serial) }) s.working;
          outbox_serial = suc s.outbox_serial;
        },
      )

  -- `InsertTx`, the same statement on the transaction.
  abbrev pub insert_tx : Bool → OutboxEvent → M T (Unit {0})
  insert_tx fails e = Outbox.insert_tx fails e

abbrev scan_error : Error
scan_error = Error.errorf_w (text "failed to scan outbox event") Error.driver

-- `FindPending`, which does not ask `rows.Err()`: an iteration that breaks off gives fewer rows.
unfoldable pub find_pending : Answers → ℕ → List OutboxEvent → Result (List OutboxEvent)
find_pending answers limit rows =
    if answers.query_fails
    then err (Error.errorf_w (text "failed to find pending events") Error.driver)
    else scan_all answers.scan_fails scan_error (delivered answers.cut (select_pending limit rows))

-- `MarkSent`
unfoldable pub mark_sent : Answers → ℤ → List OutboxEvent → Result (Unit {0}) × List OutboxEvent
mark_sent answers =
    execute_mark answers (Error.errorf_w (text "failed to mark event as sent") Error.driver)

-- `outboxRepository`, as the driver answers it.
abbrev pub repository : Answers → OutboxRepository
repository answers = record { find_pending = find_pending answers; mark_sent = mark_sent answers }

pub repository-RepositoryLaws :
    (answers : Answers) → RepositoryLaws (repository answers) answers.now
unfolding find_pending mark_sent
repository-RepositoryLaws answers = record {
  found = λ P limit rows h a. elim (Bool-cases answers.query_fails) [
    | inl refused ↦ absurd (let g = rw refused at h in cc)
    | inr answered ↦ All-scanned P answers scan_error limit rows (rw answered at h) a
  ];
  marked =
      execute_mark_lem answers (Error.errorf_w (text "failed to mark event as sent") Error.driver);
}

pub repository-IsFaultless : (now : ℕ) → IsFaultless (repository (all_answered now)) now
unfolding find_pending mark_sent delivered
repository-IsFaultless now = record {
  finds = λ limit rows. scan_all_fine scan_error (select_pending limit rows);
  marks = λ id rows. refl;
}
