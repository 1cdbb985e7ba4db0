-- ===== src/Payment/Worker.antt =====
-- `startOutboxWorker` of services/payment/cmd/main.go, which reads the table itself while it sends, and
-- that it does what the other workers do.
use msa_saga_go_practical.Prelude.{
  ◌≡◌, ◌++◌, ◌∙◌, ap, refl, Bool, List, [], ◌∷◌, if◌then◌else◌, Bool-cases, inl, inr,
}
use mathlib.Core.Path.{subst, fun_ext}
use msa_saga_go_practical.Prelude.Int.{ℤ}
use msa_saga_go_practical.Common.Errors.{Error}
use msa_saga_go_practical.Common.Result.{Result, ok, err}
use msa_saga_go_practical.Common.Messaging.{Producer, ProducerMessage, publish}
use msa_saga_go_practical.Store.Table.{All}
use msa_saga_go_practical.Store.Session.{OutboxEvent, pending}
use msa_saga_go_practical.Store.Pending.{select_pending}
use msa_saga_go_practical.Store.Rows.{
  Answers, delivered, All-delivered, execute_mark, execute_mark_lem, OutboxRepository,
  RepositoryLaws,
}
use msa_saga_go_practical.Store.Batch.{All-select_pending}
use msa_saga_go_practical.Store.Worker
use msa_saga_go_practical.Store.Worker.{
  Signal, tick, stored, canceled, no_key, process, publish_all, publish_event, after_publish,
}
use msa_saga_go_practical.Store.Publishing.{ProducerLaws}
use msa_saga_go_practical.Store.Running
use msa_saga_go_practical.Store.Running.{
  HasDistinctIds, IsSettled, stored_rows, PassLaws, pass_of, pass_of-PassLaws,
}

module _ (producer : Producer) where
  -- After `publisher.Publish`: an error is logged, and what the UPDATE answers is dropped.
  abbrev after_send :
      Answers → OutboxEvent → List OutboxEvent → Result (Unit {0}) → List OutboxEvent
  after_send answers e rows (ok done) = (execute_mark answers Error.driver e.id rows).1
  after_send answers e rows (err x) = rows

  -- One round of the loop over the rows: a row that cannot be scanned is passed over.
  send_row :
      Answers → OutboxEvent → List OutboxEvent → producer.State → List OutboxEvent × producer.State
  send_row answers e rows st =
      if answers.scan_fails e.id
      then (rows, st)
      else let (r, st') = publish producer e.event_type [] e.payload st in
        (after_send answers e rows r, st')

  send_rows :
      Answers
      → List OutboxEvent
      → List OutboxEvent
      → producer.State
      → List OutboxEvent × producer.State
  send_rows answers [] rows st = (rows, st)
  send_rows answers (e ∷ es) rows st =
      let (rows', st') = send_row answers e rows st in send_rows answers es rows' st'

  -- What `startOutboxWorker` does at a tick.
  pub send_pending : Answers → List OutboxEvent → producer.State → List OutboxEvent × producer.State
  send_pending answers rows st =
      if answers.query_fails
      then (rows, st)
      else send_rows answers (delivered answers.cut (select_pending 100 rows)) rows st

  pub start_outbox_worker :
      List (Signal Answers) → List OutboxEvent → producer.State → List OutboxEvent × producer.State
  start_outbox_worker signals rows st = Worker.start send_pending signals rows st

-- The rows that can be scanned.
pub scannable : (ℤ → Bool) → List OutboxEvent → List OutboxEvent
scannable scan_fails [] = []
scannable scan_fails (e ∷ es) =
    let rest = scannable scan_fails es in if scan_fails e.id then rest else e ∷ rest

-- The repository through which the other workers would do the same: it skips what cannot be scanned.
abbrev pub lenient : Answers → OutboxRepository
lenient answers = record {
  find_pending = λ limit rows.
      if answers.query_fails
      then err Error.driver
      else ok (scannable answers.scan_fails (delivered answers.cut (select_pending limit rows)));
  mark_sent = execute_mark answers Error.driver;
}

All-scannable :
    (P : OutboxEvent → Type 0) (scan_fails : ℤ → Bool) (es : List OutboxEvent)
    → All P es
    → All P (scannable scan_fails es)
unfolding scannable
All-scannable P scan_fails [] h = tt
All-scannable P scan_fails (e ∷ es) h = elim (Bool-cases (scan_fails e.id)) [
  | inl bad ↦ rw bad (All-scannable P scan_fails es h.1)
  | inr fine ↦ rw fine (h.0, All-scannable P scan_fails es h.1)
]

module _ (producer : Producer) where
  send_rows-publish_all :
      (answers : Answers) (es rows : List OutboxEvent) (st : producer.State)
      → send_rows producer answers es rows st
        ≡ publish_all producer no_key (lenient answers) (scannable answers.scan_fails es) rows st
  unfolding send_rows send_row publish_all scannable publish_event
  send_rows-publish_all answers [] rows st = refl
  send_rows-publish_all answers (e ∷ es) rows st = elim (Bool-cases (answers.scan_fails e.id)) [
    | inl bad ↦ rw bad (send_rows-publish_all answers es rows st)
    | inr fine ↦ rw fine (
        ap
          (λ rows'.
            send_rows producer answers es rows' (publish producer e.event_type [] e.payload st).1)
          (after_sent answers e rows (publish producer e.event_type [] e.payload st).0)
        ∙ send_rows-publish_all answers es
            (after_publish producer no_key (lenient answers) e rows
              (publish producer e.event_type [] e.payload st).0)
            (publish producer e.event_type [] e.payload st).1)
  ]
    where
      after_sent :
          (answers : Answers) (e : OutboxEvent) (rows : List OutboxEvent) (r : Result (Unit {0}))
          → after_send producer answers e rows r
            ≡ after_publish producer no_key (lenient answers) e rows r
      after_sent answers e rows (ok tt) = refl
      after_sent answers e rows (err x) = refl

  -- At each tick, whatever fails in it, the loop that reads the table while it sends does what a pass
  -- of the other workers does, with an empty key and a repository that passes over the rows that
  -- cannot be scanned.
  send_pending-process :
      (answers : Answers) (rows : List OutboxEvent) (st : producer.State)
      → send_pending producer answers rows st ≡ pass_of producer no_key lenient answers rows st
  unfolding send_pending process send_rows publish_all send_row scannable
  send_pending-process answers rows st = elim (Bool-cases answers.query_fails) [
    | inl refused ↦ rw refused refl
    | inr answered ↦
        rw answered
          (send_rows-publish_all answers (delivered answers.cut (select_pending 100 rows)) rows st)
  ]

  -- Over a whole run, whatever fails in its ticks and whatever rows are stored in between, the worker
  -- of the payment service, which reads the table while it sends, leaves the outbox and the broker as
  -- the loop of the other workers does with an empty key and a repository that passes over the rows
  -- that cannot be scanned.
  pub start_outbox_worker-start :
      (signals : List (Signal Answers)) (rows : List OutboxEvent) (st : producer.State)
      → start_outbox_worker producer signals rows st
        ≡ Worker.start (pass_of producer no_key lenient) signals rows st
  unfolding start_outbox_worker
  start_outbox_worker-start signals rows st =
      ap (λ pass. Worker.start pass signals rows st)
        (fun_ext λ answers. fun_ext λ rows. fun_ext λ st. send_pending-process answers rows st)

lenient-RepositoryLaws : (answers : Answers) → RepositoryLaws (lenient answers) answers.now
lenient-RepositoryLaws answers = record {
  found = λ P limit rows {es} h a. elim (Bool-cases answers.query_fails) [
    | inl refused ↦ absurd (let g = rw refused at h in cc)
    | inr answered ↦
        let batch =
          scannable answers.scan_fails (delivered answers.cut (select_pending limit rows)) in
        let same : batch ≡ es = let g : ok batch ≡ ok es = rw answered at h in cc in
        subst (All P) same (
          All-scannable P answers.scan_fails (delivered answers.cut (select_pending limit rows)) (
            All-delivered P answers.cut (select_pending limit rows)
              (All-select_pending P limit rows a)))
  ];
  marked = execute_mark_lem answers Error.driver;
}

module _ (producer : Producer) (log : producer.State → List ProducerMessage)
    (laws : ProducerLaws producer log) where
  -- Over a whole run of the worker of the payment service, no row becomes SENT whose message is not
  -- with the broker, although the loop drops the errors of `Scan`, of the iteration and of the UPDATE.
  pub start_outbox_worker-IsSettled :
      (signals : List (Signal Answers)) (rows : List OutboxEvent) (st : producer.State)
      → HasDistinctIds (rows ++ stored_rows signals)
      → All (λ (e : OutboxEvent). e.status ≡ pending) (stored_rows signals)
      → All (IsSettled (log st)) rows
      → let (rows', st') = start_outbox_worker producer signals rows st in
        All (IsSettled (log st')) rows'
  start_outbox_worker-IsSettled signals rows st d new h =
      rw (start_outbox_worker-start producer signals rows st) (
        Running.loop-IsSettled log (pass_of producer no_key lenient)
          (pass_of-PassLaws producer no_key log laws lenient (λ answers. answers.now)
            lenient-RepositoryLaws)
          signals rows st d new h)
