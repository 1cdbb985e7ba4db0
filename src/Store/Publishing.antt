-- ===== src/Store/Publishing.antt =====
-- What the outbox workers promise: services/order/internal/worker/outbox_worker.go and its kin.
use msa_saga_go_practical.Prelude.{
  ℕ, ◌≡◌, ◌⊎◌, sym, true, List, [], ◌∷◌, arith, inl, inr, Bool-cases,
}
use mathlib.Core.Path.{subst}
use mathlib.Core.List.{Memᴰ}
use msa_saga_go_practical.Prelude.Int.{eq_ℤ_iff, int_eq}
use msa_saga_go_practical.Prelude.Text.{Text}
use msa_saga_go_practical.Common.Errors.{Error}
use msa_saga_go_practical.Common.Events.{EventType}
use msa_saga_go_practical.Common.Result.{Result, ok, err, Result-cases}
use msa_saga_go_practical.Common.Wire.{Payload, object, malformed}
use msa_saga_go_practical.Common.Messaging.{Producer, ProducerMessage, publish}
use msa_saga_go_practical.Store.Table.{update, All, All-map, Distinct}
use msa_saga_go_practical.Store.Session.{OutboxEvent, pending}
use msa_saga_go_practical.Store.Rows.{OutboxRepository, RepositoryLaws}
use msa_saga_go_practical.Store.Pending.{has_id, set_sent, mark_sent}
use msa_saga_go_practical.Store.Worker.{publish_event, after_publish, publish_all, process}
use msa_saga_go_practical.Store.Batch.{Same, All-both, All-self, Distinct-Same}

-- What the workers rely on: the broker keeps what it has, and a message that the producer reports as
-- sent is there.
pub record ProducerLaws (producer : Producer) (log : producer.State → List ProducerMessage)
    : Type 0 where
  pub kept :
      (m x : ProducerMessage) (st : producer.State)
      → Memᴰ x (log st)
      → Memᴰ x (log (producer.send m st).1)
  pub sent :
      (m : ProducerMessage) (st : producer.State)
      → (producer.send m st).0 ≡ ok tt
      → Memᴰ m (log (producer.send m st).1)

abbrev pub message : EventType → Text → Payload → ProducerMessage
message topic key payload = record { topic = topic; key = key; value = payload }

-- The broker has a message with the row's topic and payload.
abbrev pub IsPublished : List ProducerMessage → OutboxEvent → Type 0
IsPublished l x = (key : Text) × Memᴰ (message x.event_type key x.payload) l

-- A row is PENDING, or stood so in the table before, or its message is with the broker.
abbrev pub IsAccounted : List OutboxEvent → List ProducerMessage → OutboxEvent → Type 0
IsAccounted before l x = (x.status ≡ pending) ⊎ Memᴰ x before ⊎ IsPublished l x

-- `publishEvent` with the key that the payload gives, and without one.
module _ (producer : Producer) (key_of : Payload → Result Text) where
  pub with_key :
      (e : OutboxEvent) (st : producer.State) (key : Text)
      → key_of e.payload ≡ ok key
      → publish_event producer key_of e st ≡ publish producer e.event_type key e.payload st
  unfolding publish_event
  with_key e st key given = rw (given, publish_event)

  without_key :
      (e : OutboxEvent) (st : producer.State) (x : Error)
      → key_of e.payload ≡ err x
      → publish_event producer key_of e st ≡ (err x, st)
  unfolding publish_event
  without_key e st x bad = rw (bad, publish_event)

module _ (producer : Producer) (log : producer.State → List ProducerMessage)
    (laws : ProducerLaws producer log) where
  publish_lem :
      (topic : EventType) (key : Text) (payload : Payload) (st : producer.State)
      → ((publish producer topic key payload st).0 ≡ ok tt
          → Memᴰ (message topic key payload) (log (publish producer topic key payload st).1))
        × ((x : ProducerMessage)
            → Memᴰ x (log st)
            → Memᴰ x (log (publish producer topic key payload st).1))
  unfolding publish
  publish_lem topic key malformed st = ((λ h. cc), λ x m. m)
  publish_lem topic key (object ms) st = (
    λ h. laws.sent (message topic key (object ms)) st (ground arith),
    λ x m. laws.kept (message topic key (object ms)) x st m,
  )

  module _ (key_of : Payload → Result Text) where
    pub publish_event_lem :
        (e : OutboxEvent) (st : producer.State)
        → ((publish_event producer key_of e st).0 ≡ ok tt
            → IsPublished (log (publish_event producer key_of e st).1) e)
          × ((x : ProducerMessage)
              → Memᴰ x (log st)
              → Memᴰ x (log (publish_event producer key_of e st).1))
    publish_event_lem e st = elim (Result-cases (key_of e.payload)) [
      | inl (key, given) ↦
          let (sends, keeps) = publish_lem e.event_type key e.payload st in
          rw (with_key producer key_of e st key given) ((λ h. (key, sends h)), keeps)
      | inr (x, bad) ↦ rw (without_key producer key_of e st x bad) ((λ h. cc), λ y m. m)
    ]

    module _ (repository : OutboxRepository) (now : ℕ) (keeps : RepositoryLaws repository now)
        (before : List OutboxEvent) where
      -- The rows between two steps of the loop: they carry the events of the rows still to send, and
      -- are accounted for.
      abbrev Between : List OutboxEvent → List ProducerMessage → OutboxEvent → Type 0
      Between es l x = All (λ e. Same e x) es × IsAccounted before l x

      kept-Between :
          (e : OutboxEvent) (es : List OutboxEvent) (st : producer.State) (x : OutboxEvent)
          → Between (e ∷ es) (log st) x
          → Between es (log (publish_event producer key_of e st).1) x
      kept-Between e es st x h = (
        h.0.1,
        elim h.1 [
          | inl waiting ↦ inl waiting
          | inr (inl old) ↦ inr (inl old)
          | inr (inr (key, m)) ↦
              inr (inr (key, (publish_event_lem e st).1 (message x.event_type key x.payload) m))
        ],
      )

      sent-Between :
          (e : OutboxEvent) (es : List OutboxEvent) (st : producer.State) (x : OutboxEvent)
          → (publish_event producer key_of e st).0 ≡ ok tt
          → has_id e.id x ≡ true
          → Between (e ∷ es) (log st) x
          → Between es (log (publish_event producer key_of e st).1) (set_sent now x)
      sent-Between e es st x published hit h =
          let (topic, payload) = h.0.0 (sym ((eq_ℤ_iff x.id e.id).0 hit)) in
          let (key, m) = (publish_event_lem e st).0 published in
          (
            h.0.1,
            inr (
                inr (
                  key,
                  subst
                      (λ t.
                        Memᴰ (message t key x.payload) (log (publish_event producer key_of e st).1))
                      topic
                      (subst
                        (λ v.
                          Memᴰ (message e.event_type key v)
                            (log (publish_event producer key_of e st).1))
                        payload m),
                )),
          )

      mark-Between :
          (e : OutboxEvent) (es : List OutboxEvent) (st : producer.State) (rows : List OutboxEvent)
          → (publish_event producer key_of e st).0 ≡ ok tt
          → All (Between (e ∷ es) (log st)) rows
          → All (Between es (log (publish_event producer key_of e st).1)) (mark_sent now e.id rows)
      unfolding update
      mark-Between e es st [] published h = tt
      mark-Between e es st (x ∷ rows) published h = elim (Bool-cases (has_id e.id x)) [
        | inl hit ↦
            rw hit
              (sent-Between e es st x published hit h.0, mark-Between e es st rows published h.1)
        | inr miss ↦ rw miss (kept-Between e es st x h.0, mark-Between e es st rows published h.1)
      ]

      after_publish-Between :
          (e : OutboxEvent) (es : List OutboxEvent) (st : producer.State) (rows : List OutboxEvent)
          → All (Between (e ∷ es) (log st)) rows
          → let (r, st') = publish_event producer key_of e st in
            All (Between es (log st')) (after_publish producer key_of repository e rows r)
      after_publish-Between e es st rows h =
          let unmarked =
            All-map (Between (e ∷ es) (log st))
              (Between es (log (publish_event producer key_of e st).1)) rows (kept-Between e es st)
              h in
          elim (Result-cases (publish_event producer key_of e st).0) [
            | inr (x, bad) ↦ rw bad unmarked
            | inl (tt, good) ↦ elim (keeps.marked e.id rows) [
              | inl lost ↦ rw (good, lost) unmarked
              | inr marked ↦ rw (good, marked) (mark-Between e es st rows good h)
            ]
          ]

      publish_all-Between :
          (es rows : List OutboxEvent) (st : producer.State)
          → All (Between es (log st)) rows
          → let (rows', st') = publish_all producer key_of repository es rows st in
            All (Between [] (log st')) rows'
      unfolding publish_all
      publish_all-Between [] rows st h = h
      publish_all-Between (e ∷ es) rows st h =
          publish_all-Between es
            (after_publish producer key_of repository e rows (publish_event producer key_of e st).0)
            (publish_event producer key_of e st).1 (after_publish-Between e es st rows h)

    -- At least once: after one pass of a worker over an outbox with distinct ids, whatever queries,
    -- scans, publications and markings fail, every row is PENDING, or stood in the outbox just as it
    -- is before the pass, or the broker has a message with its topic and payload.
    pub process-IsAccounted :
        (repository : OutboxRepository) (now : ℕ) (rows : List OutboxEvent) (st : producer.State)
        → RepositoryLaws repository now
        → Distinct (λ (x : OutboxEvent). x.id) rows
        → let (r, rows', st') = process producer key_of repository rows st in
          All (IsAccounted rows (log st')) rows'
    unfolding process
    process-IsAccounted repository now rows st keeps d =
        let start =
          All-map (λ x. Memᴰ x rows) (IsAccounted rows (log st)) rows (λ x m. inr (inl m))
            (All-self rows) in
        elim (Result-cases (repository.find_pending 100 rows)) [
          | inr (x, broken) ↦ rw broken start
          | inl (batch, found) ↦
              let (rows', st') = publish_all producer key_of repository batch rows st in
              let same : All (λ x. All (λ e. Same e x) batch) rows =
                All-map (λ x. All (λ e. Same e x) rows) (λ x. All (λ e. Same e x) batch) rows
                  (λ x. keeps.found (λ e. Same e x) 100 rows found) (Distinct-Same rows d) in
              rw found (
                All-map (Between repository now keeps rows [] (log st'))
                  (IsAccounted rows (log st')) rows' (λ x h. h.1)
                  (publish_all-Between repository now keeps rows batch rows st (
                    All-both (λ x. All (λ e. Same e x) batch) (IsAccounted rows (log st)) rows same
                      start)))
        ]
