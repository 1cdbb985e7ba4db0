-- ===== src/Store/Emptying.antt =====
-- Ticks without a failure empty an outbox of any size: the loop of `Start` in
-- services/order/internal/worker/outbox_worker.go and its kin.
use msa_saga_go_practical.Prelude.{
  ℕ, zero, suc, ◌+◌, ◌*◌, ◌≤◌, ◌≡◌, ◌⊎◌, ◌∙◌, refl, ap, List, [], ◌∷◌, arith, inl, inr, Bool-cases,
  length,
}
use mathlib.Core.List.{Memᴰ}
use msa_saga_go_practical.Prelude.Int.{int_eq}
use msa_saga_go_practical.Prelude.Text.{Text}
use msa_saga_go_practical.Common.Result.{Result, ok}
use msa_saga_go_practical.Common.Wire.{Payload, object, Members}
use msa_saga_go_practical.Common.Messaging.{Producer, ProducerMessage}
use msa_saga_go_practical.Store.Table.{All, All-update, Distinct-update}
use msa_saga_go_practical.Store.Session.{OutboxEvent, sent}
use msa_saga_go_practical.Store.Pending.{
  is_pending, pending_rows, by_age, take, select_pending, has_id, set_sent, mark_sent,
}
use msa_saga_go_practical.Store.Rows.{OutboxRepository, IsFaultless, All-take}
use msa_saga_go_practical.Store.Worker.{publish_event, publish_all, process, Signal, tick, start}
use msa_saga_go_practical.Store.Batch.{All-select_pending, All-by_age, All-self}
use msa_saga_go_practical.Store.Draining.{
  IsObject, length-by_age, is_sent_or, publish_event_fine, after_publish_fine,
}
use msa_saga_go_practical.Store.Running.{HasDistinctIds, pass_of}
use msa_saga_go_practical.Store.Backlog.{
  backlog, IsWaiting, select_pending-HasDistinctIds, mark_sent-backlog, mark_sent-IsWaiting,
}

pending_rows-IsWaiting :
    (rows t : List OutboxEvent) → All (λ x. Memᴰ x rows) t → All (IsWaiting rows) (pending_rows t)
unfolding pending_rows
pending_rows-IsWaiting rows [] h = tt
pending_rows-IsWaiting rows (e ∷ t) h = elim (Bool-cases (is_pending e)) [
  | inl hit ↦ rw hit ((h.0, hit), pending_rows-IsWaiting rows t h.1)
  | inr miss ↦ rw miss (pending_rows-IsWaiting rows t h.1)
]

select_pending-IsWaiting :
    (n : ℕ) (rows : List OutboxEvent) → All (IsWaiting rows) (select_pending n rows)
unfolding select_pending
select_pending-IsWaiting n rows = All-take (IsWaiting rows) n (by_age (pending_rows rows)) (
    All-by_age (IsWaiting rows) (pending_rows rows)
      (pending_rows-IsWaiting rows rows (All-self rows)))

length-take :
    (n : ℕ) (t : List OutboxEvent) → (n ≤ length (take n t)) ⊎ (length (take n t) ≡ length t)
unfolding take
length-take zero t = inl (omega arith)
length-take (suc n) [] = inr refl
length-take (suc n) (e ∷ t) = elim (length-take n t) [
  | inl full ↦ inl (omega arith)
  | inr all ↦ inr (ap suc all)
]

length-select_pending :
    (n : ℕ) (rows : List OutboxEvent)
    → (n ≤ length (select_pending n rows)) ⊎ (length (select_pending n rows) ≡ backlog rows)
unfolding select_pending
length-select_pending n rows = elim (length-take n (by_age (pending_rows rows))) [
  | inl full ↦ inl full
  | inr all ↦ inr (all ∙ length-by_age (pending_rows rows))
]

-- An empty backlog.
backlog_none : (rows : List OutboxEvent) → backlog rows ≡ 0 → All (λ x. x.status ≡ sent) rows
unfolding pending_rows
backlog_none [] h = tt
backlog_none (x ∷ rows) h = elim (is_sent_or x) [
  | inl waiting ↦ absurd (ground arith)
  | inr done ↦ (done, backlog_none rows (ground arith))
]

-- Each row of a batch is marked.
mark_all : ℕ → List OutboxEvent → List OutboxEvent → List OutboxEvent
mark_all now [] rows = rows
mark_all now (e ∷ es) rows = mark_all now es (mark_sent now e.id rows)

mark_all-backlog :
    (now : ℕ) (es rows : List OutboxEvent)
    → HasDistinctIds es
    → All (IsWaiting rows) es
    → backlog (mark_all now es rows) + length es ≤ backlog rows
unfolding mark_all
mark_all-backlog now [] rows d w = omega arith
mark_all-backlog now (e ∷ es) rows d w = omega (
  arith,
  mark_sent-backlog now e rows w.0.0 w.0.1,
  mark_all-backlog now es (mark_sent now e.id rows) d.1
      (mark_sent-IsWaiting now e.id rows es d.0 w.1),
)

-- What marking leaves alone.
abbrev IsSendable : List OutboxEvent → Type 0
IsSendable rows = HasDistinctIds rows × All (λ (x : OutboxEvent). IsObject x.payload) rows

mark_all-IsSendable :
    (now : ℕ) (es rows : List OutboxEvent) → IsSendable rows → IsSendable (mark_all now es rows)
unfolding mark_all
mark_all-IsSendable now [] rows s = s
mark_all-IsSendable now (e ∷ es) rows s = mark_all-IsSendable now es (mark_sent now e.id rows) (
  Distinct-update (λ (x : OutboxEvent). x.id) (has_id e.id) (set_sent now) rows (λ r. refl) s.0,
  All-update (λ (x : OutboxEvent). IsObject x.payload) (has_id e.id) (set_sent now) rows (λ r o. o)
      s.1,
)

-- Only ticks.
abbrev pub ticking : {Tick : Type 0} → List Tick → List (Signal Tick)
ticking [] = []
ticking (t ∷ ticks) = tick t ∷ ticking ticks

module _ (producer : Producer) (key_of : Payload → Result Text)
    (accepts : (m : ProducerMessage) (st : producer.State) → (producer.send m st).0 ≡ ok tt)
    (keyed : (ms : Members) → (key : Text) × (key_of (object ms) ≡ ok key)) where
  module _ (repository : OutboxRepository) (now : ℕ) (calm : IsFaultless repository now) where
    publish_all_marks :
        (es rows : List OutboxEvent) (st : producer.State)
        → All (λ e. IsObject e.payload) es
        → (publish_all producer key_of repository es rows st).0 ≡ mark_all now es rows
    unfolding publish_all mark_all
    publish_all_marks [] rows st objects = refl
    publish_all_marks (e ∷ es) rows st objects =
        let st' = (publish_event producer key_of e st).1 in
        ap (λ t. (publish_all producer key_of repository es t st').0)
          (after_publish_fine producer key_of accepts keyed repository now calm e rows
            (publish_event producer key_of e st).0
            (publish_event_fine producer key_of accepts keyed e st objects.0))
        ∙ publish_all_marks es (mark_sent now e.id rows) st' objects.1

    process_marks :
        (rows : List OutboxEvent) (st : producer.State)
        → IsSendable rows
        → (process producer key_of repository rows st).1
          ≡ mark_all now (select_pending 100 rows) rows
    unfolding process
    process_marks rows st s = rw (calm.finds 100 rows) (
        publish_all_marks (select_pending 100 rows) rows st
          (All-select_pending (λ e. IsObject e.payload) 100 rows s.1))

    -- A tick in which nothing fails takes a hundred rows from the backlog, or all that it has.
    process-backlog :
        (rows : List OutboxEvent) (st : producer.State) (k : ℕ)
        → IsSendable rows
        → backlog rows ≤ 100 * suc k
        → let (_, rows', _) = process producer key_of repository rows st in
          IsSendable rows' × (backlog rows' ≤ 100 * k)
    process-backlog rows st k s few =
        let batch = select_pending 100 rows in
        let falls =
          mark_all-backlog now batch rows (select_pending-HasDistinctIds 100 rows s.0)
            (select_pending-IsWaiting 100 rows) in
        rw (process_marks rows st s) (
          mark_all-IsSendable now batch rows s,
          elim (length-select_pending 100 rows) [ inl full ↦ omega arith | inr all ↦ omega arith ],
        )

  module _ {Tick : Type 0} (repository : Tick → OutboxRepository) (now : Tick → ℕ)
      (calm : (t : Tick) → IsFaultless (repository t) (now t)) where
    -- A backlog of any size is worked off: when nothing fails in any tick, the producer accepts every
    -- message, every payload is a JSON object, every object has a key and ids are distinct, a worker
    -- has sent every row after n ticks if at most 100 * n rows were PENDING.
    pub start_empties :
        (ticks : List Tick) (rows : List OutboxEvent) (st : producer.State)
        → HasDistinctIds rows
        → All (λ x. IsObject x.payload) rows
        → backlog rows ≤ 100 * length ticks
        → All
            (λ x. x.status ≡ sent)
            (start (pass_of producer key_of repository) (ticking ticks) rows st).0
    unfolding start
    start_empties [] rows st d o few = backlog_none rows (omega arith)
    start_empties (t ∷ ticks) rows st d o few =
        let (_, rows', st') = process producer key_of (repository t) rows st in
        let (s, fewer) =
          process-backlog (repository t) (now t) (calm t) rows st (length ticks) (d, o) few in
        start_empties ticks rows' st' s.0 s.1 fewer
