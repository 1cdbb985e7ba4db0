-- ===== src/Delivery/Outbox.antt =====
-- services/delivery/internal/repository/outbox_repository.go: the statements on the table
-- `outbox_events` of the delivery service, and what its worker relies on.
use msa_saga_go_practical.Prelude.{
  ℕ, ◌≡◌, refl, Bool, none, some, List, if◌then◌else◌, Bool-cases, inl, inr, arith,
}
use msa_saga_go_practical.Prelude.Int.{ℤ}
use msa_saga_go_practical.Prelude.Text.{Text, text}
use msa_saga_go_practical.Common.Errors.{Error, ErrorCode}
use msa_saga_go_practical.Common.Wire.{Event}
use msa_saga_go_practical.Common.Result.{Result, ok, err, ◌>>=◌}
use msa_saga_go_practical.Store.Session.{OutboxEvent, M}
use msa_saga_go_practical.Store.Outbox
use msa_saga_go_practical.Store.Outbox.{add_event}
use msa_saga_go_practical.Store.Pending.{select_pending}
use msa_saga_go_practical.Store.Rows.{
  Answers, delivered, scan_all, execute_mark, execute_mark_lem, OutboxRepository, RepositoryLaws,
  IsFaultless,
}
use msa_saga_go_practical.Store.Batch.{All-scanned, all_answered, scan_all_fine}

module _ {T : Type 0} where
  -- `InsertEvent`
  abbrev pub insert_event : Bool → Bool → Text → ℤ → Event → ℕ → M T (Unit {0})
  insert_event marshal_fails fails = Outbox.insert_event marshal_fails fails

abbrev scan_error : Error
scan_error = Error.wrap ErrorCode.database_error (text "failed to scan event") Error.driver

-- `rows.Err()` after the loop.
abbrev rows_err : Answers → Result (List OutboxEvent) → Result (List OutboxEvent)
rows_err answers r = r >>= λ es. elim answers.cut [
  | none ↦ ok es
  | some n ↦ err (Error.wrap ErrorCode.database_error (text "rows iteration error") Error.driver)
]

-- `GetPendingEvents`
unfoldable pub get_pending_events : Answers → ℕ → List OutboxEvent → Result (List OutboxEvent)
get_pending_events answers limit rows =
    if answers.query_fails
    then err
        (Error.wrap ErrorCode.database_error (text "failed to query pending events") Error.driver)
    else rows_err answers
        (scan_all answers.scan_fails scan_error (delivered answers.cut (select_pending limit rows)))

abbrev mark_error : Error
mark_error = Error.wrap ErrorCode.database_error (text "failed to mark event as sent") Error.driver

-- `MarkAsSent`
unfoldable pub mark_as_sent : Answers → ℤ → List OutboxEvent → Result (Unit {0}) × List OutboxEvent
mark_as_sent answers = execute_mark answers mark_error

-- `outboxRepository`, as the driver answers it.
abbrev pub repository : Answers → OutboxRepository
repository answers = record {
  find_pending = get_pending_events answers;
  mark_sent = mark_as_sent answers;
}

-- What passes the test of the iteration has been scanned.
rows_err_ok :
    (answers : Answers) (r : Result (List OutboxEvent)) {es : List OutboxEvent}
    → rows_err answers r ≡ ok es
    → r ≡ ok es
rows_err_ok answers r h = ground arith

pub repository-RepositoryLaws :
    (answers : Answers) → RepositoryLaws (repository answers) answers.now
unfolding get_pending_events mark_as_sent
repository-RepositoryLaws answers = record {
  found = λ P limit rows h a. elim (Bool-cases answers.query_fails) [
    | inl refused ↦ absurd (let g = rw refused at h in cc)
    | inr answered ↦
        All-scanned P answers scan_error limit rows
          (rows_err_ok answers
            (scan_all answers.scan_fails scan_error
              (delivered answers.cut (select_pending limit rows)))
            (rw answered at h))
          a
  ];
  marked = execute_mark_lem answers mark_error;
}

pub repository-IsFaultless : (now : ℕ) → IsFaultless (repository (all_answered now)) now
unfolding get_pending_events mark_as_sent delivered
repository-IsFaultless now = record {
  finds = λ limit rows. rw (scan_all_fine scan_error (select_pending limit rows));
  marks = λ id rows. refl;
}
