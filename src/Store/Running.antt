-- ===== src/Store/Running.antt =====
-- What a running outbox worker promises over all its ticks: the loop of `Start` in
-- services/order/internal/worker/outbox_worker.go and its kin, with the rows that transactions of the
-- service commit in between.
use msa_saga_go_practical.Prelude.{ℕ, ◌≡◌, ◌⊎◌, refl, sym, List, [], ◌∷◌, ◌++◌, inl, inr}
use mathlib.Core.Path.{subst}
use mathlib.Core.List.{Memᴰ, append_assoc}
use msa_saga_go_practical.Prelude.Int.{int_eq}
use msa_saga_go_practical.Prelude.Text.{Text}
use msa_saga_go_practical.Common.Result.{Result, Result-cases}
use msa_saga_go_practical.Common.Wire.{Payload}
use msa_saga_go_practical.Common.Messaging.{Producer, ProducerMessage}
use msa_saga_go_practical.Store.Table.{insert, All, All-map, All-insert, Distinct}
use msa_saga_go_practical.Store.Provenance.{All-mem}
use msa_saga_go_practical.Store.Columns.{Distinct-front, Distinct-update_append}
use msa_saga_go_practical.Store.Session.{OutboxEvent, pending}
use msa_saga_go_practical.Store.Pending.{has_id, set_sent}
use msa_saga_go_practical.Store.Rows.{OutboxRepository, RepositoryLaws}
use msa_saga_go_practical.Store.Worker.{
  publish_event, after_publish, publish_all, process, Signal, tick, stored, canceled, start,
}
use msa_saga_go_practical.Store.Publishing.{
  ProducerLaws, message, IsPublished, IsAccounted, publish_event_lem, process-IsAccounted,
}

-- A row waits, or its message is with the broker: no row is SENT without a message.
abbrev pub IsSettled : List ProducerMessage → OutboxEvent → Type 0
IsSettled l x = (x.status ≡ pending) ⊎ IsPublished l x

-- The rows that are stored while the worker runs, in order.
abbrev pub stored_rows : {Tick : Type 0} → List (Signal Tick) → List OutboxEvent
stored_rows [] = []
stored_rows (tick t ∷ signals) = stored_rows signals
stored_rows (stored e ∷ signals) = e ∷ stored_rows signals
stored_rows (canceled ∷ signals) = stored_rows signals

-- No two rows of the outbox have the same id.
abbrev pub HasDistinctIds : List OutboxEvent → Type 0
HasDistinctIds rows = Distinct (λ (x : OutboxEvent). x.id) rows

-- What the pass of a worker keeps, whatever fails in it.
pub record PassLaws {State Tick : Type 0} (log : State → List ProducerMessage)
    (pass : Tick → List OutboxEvent → State → List OutboxEvent × State) : Type 0 where
  pub settles :
      (t : Tick) (rows : List OutboxEvent) (st : State)
      → HasDistinctIds rows
      → All (IsSettled (log st)) rows
      → let (rows', st') = pass t rows st in All (IsSettled (log st')) rows'
  pub same_ids :
      (t : Tick) (rows more : List OutboxEvent) (st : State)
      → HasDistinctIds (rows ++ more)
      → HasDistinctIds ((pass t rows st).0 ++ more)

module _ {State Tick : Type 0} (log : State → List ProducerMessage)
    (pass : Tick → List OutboxEvent → State → List OutboxEvent × State)
    (laws : PassLaws log pass) where
  -- Over a whole run of a worker, with any ticks, in which anything fails, and with PENDING rows of
  -- fresh ids stored in between, no row ever becomes SENT whose message is not with the broker: if
  -- every row waits or is published before the run, so it is after the run.
  pub loop-IsSettled :
      (signals : List (Signal Tick)) (rows : List OutboxEvent) (st : State)
      → HasDistinctIds (rows ++ stored_rows signals)
      → All (λ e. e.status ≡ pending) (stored_rows signals)
      → All (IsSettled (log st)) rows
      → let (rows', st') = start pass signals rows st in All (IsSettled (log st')) rows'
  unfolding start
  loop-IsSettled [] rows st d new h = h
  loop-IsSettled (canceled ∷ signals) rows st d new h = h
  loop-IsSettled (stored e ∷ signals) rows st d new h =
      loop-IsSettled signals (insert e rows) st
        (subst HasDistinctIds (sym (append_assoc rows (e ∷ []) (stored_rows signals))) d) new.1
        (All-insert (IsSettled (log st)) e rows h (inl new.0))
  loop-IsSettled (tick t ∷ signals) rows st d new h =
      loop-IsSettled signals (pass t rows st).0 (pass t rows st).1
        (laws.same_ids t rows (stored_rows signals) st d) new
        (laws.settles t rows st
          (Distinct-front (λ (x : OutboxEvent). x.id) rows (stored_rows signals) d) h)

-- The pass of a worker that goes through an `OutboxRepository`.
module _ (producer : Producer) (key_of : Payload → Result Text) where
  abbrev pub pass_of :
      {Tick : Type 0}
      → (Tick → OutboxRepository)
      → Tick
      → List OutboxEvent
      → producer.State
      → List OutboxEvent × producer.State
  pass_of repository t rows st =
      let (_, rows', st') = process producer key_of (repository t) rows st in (rows', st')

  module _ (repository : OutboxRepository) (now : ℕ) (keeps : RepositoryLaws repository now) where
    publish_all-same_ids :
        (es rows more : List OutboxEvent) (st : producer.State)
        → HasDistinctIds (rows ++ more)
        → HasDistinctIds ((publish_all producer key_of repository es rows st).0 ++ more)
    unfolding publish_all
    publish_all-same_ids [] rows more st d = d
    publish_all-same_ids (e ∷ es) rows more st d =
        publish_all-same_ids es
          (after_publish producer key_of repository e rows (publish_event producer key_of e st).0)
          more (publish_event producer key_of e st).1
          (elim (Result-cases (publish_event producer key_of e st).0) [
            | inr (x, bad) ↦ rw bad d
            | inl (tt, good) ↦ elim (keeps.marked e.id rows) [
              | inl lost ↦ rw (good, lost) d
              | inr marked ↦
                  rw (good, marked)
                    (Distinct-update_append (λ (x : OutboxEvent). x.id) (has_id e.id) (set_sent now)
                      rows more (λ r. refl) d)
            ]
          ])

    process-same_ids :
        (rows more : List OutboxEvent) (st : producer.State)
        → HasDistinctIds (rows ++ more)
        → HasDistinctIds ((process producer key_of repository rows st).1 ++ more)
    unfolding process
    process-same_ids rows more st d = elim (Result-cases (repository.find_pending 100 rows)) [
      | inr (x, broken) ↦ rw broken d
      | inl (batch, found) ↦ rw found (publish_all-same_ids batch rows more st d)
    ]

  module _ (log : producer.State → List ProducerMessage) (laws : ProducerLaws producer log) where
    module _ (repository : OutboxRepository) where
      publish_all-kept :
          (es rows : List OutboxEvent) (st : producer.State) (x : ProducerMessage)
          → Memᴰ x (log st)
          → Memᴰ x (log (publish_all producer key_of repository es rows st).1)
      unfolding publish_all
      publish_all-kept [] rows st x m = m
      publish_all-kept (e ∷ es) rows st x m =
          publish_all-kept es
            (after_publish producer key_of repository e rows (publish_event producer key_of e st).0)
            (publish_event producer key_of e st).1 x
            ((publish_event_lem producer log laws key_of e st).1 x m)

      -- A pass takes nothing from the broker.
      process-kept :
          (rows : List OutboxEvent) (st : producer.State) (x : ProducerMessage)
          → Memᴰ x (log st)
          → Memᴰ x (log (process producer key_of repository rows st).2)
      unfolding process
      process-kept rows st x m = elim (Result-cases (repository.find_pending 100 rows)) [
        | inr (y, broken) ↦ rw broken m
        | inl (batch, found) ↦ rw found (publish_all-kept batch rows st x m)
      ]

    process-IsSettled :
        (repository : OutboxRepository) (now : ℕ) (rows : List OutboxEvent) (st : producer.State)
        → RepositoryLaws repository now
        → HasDistinctIds rows
        → All (IsSettled (log st)) rows
        → let (_, rows', st') = process producer key_of repository rows st in
          All (IsSettled (log st')) rows'
    process-IsSettled repository now rows st keeps d h =
        let (_, rows', st') = process producer key_of repository rows st in
        All-map (IsAccounted rows (log st')) (IsSettled (log st')) rows'
          (λ x a. elim a [
            | inl waiting ↦ inl waiting
            | inr (inl old) ↦ elim (All-mem (IsSettled (log st)) x rows h old) [
              | inl waiting ↦ inl waiting
              | inr (key, m) ↦
                  inr (key, process-kept repository rows st (message x.event_type key x.payload) m)
            ]
            | inr (inr sent) ↦ inr sent
          ])
          (process-IsAccounted producer log laws key_of repository now rows st keeps d)

    -- The pass over repositories that keep their laws keeps those of a pass.
    pub pass_of-PassLaws :
        {Tick : Type 0} (repository : Tick → OutboxRepository) (now : Tick → ℕ)
        → ((t : Tick) → RepositoryLaws (repository t) (now t))
        → PassLaws log (pass_of repository)
    pass_of-PassLaws repository now keeps = record {
      settles = λ t rows st d h. process-IsSettled (repository t) (now t) rows st (keeps t) d h;
      same_ids =
          λ t rows more st d. process-same_ids (repository t) (now t) (keeps t) rows more st d;
    }
