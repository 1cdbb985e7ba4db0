-- ===== src/Store/Draining.antt =====
-- That a pass of an outbox worker empties the outbox when nothing fails:
-- services/order/internal/worker/outbox_worker.go and its kin.
use msa_saga_go_practical.Prelude.{
  ℕ, zero, suc, ◌≤◌, ◌≡◌, ◌⊎◌, refl, ap, sym, ◌∙◌, true, List, [], ◌∷◌, arith, inl, inr, Bool-cases,
  leb, length,
}
use mathlib.Core.Path.{subst}
use mathlib.Core.List.{Memᴰ}
use msa_saga_go_practical.Prelude.Int.{eq_ℤ_iff}
use msa_saga_go_practical.Prelude.Text.{Text}
use msa_saga_go_practical.Common.Result.{Result, ok}
use msa_saga_go_practical.Common.Wire.{Payload, object, malformed, Members}
use msa_saga_go_practical.Common.Messaging.{Producer, ProducerMessage, publish}
use msa_saga_go_practical.Store.Table.{update, All, All-map}
use msa_saga_go_practical.Store.Session.{OutboxEvent, OutboxStatus, pending, sent}
use msa_saga_go_practical.Store.Rows.{OutboxRepository, IsFaultless}
use msa_saga_go_practical.Store.Pending.{
  is_pending, pending_rows, place, by_age, take, select_pending, has_id, mark_sent,
}
use msa_saga_go_practical.Store.Worker.{publish_event, after_publish, publish_all, process}
use msa_saga_go_practical.Store.Batch.{All-select_pending, All-self}
use msa_saga_go_practical.Store.Publishing.{with_key}

-- What a marshalled event is.
abbrev pub IsObject : Payload → Type 0
IsObject (object ms) = Unit
IsObject malformed = ⊥

pub is_sent_or : (x : OutboxEvent) → (is_pending x ≡ true) ⊎ (x.status ≡ sent)
is_sent_or x = elim (status_cases x.status) [ inl e ↦ inl (rw e refl) | inr e ↦ inr e ]
  where
    status_cases : (st : OutboxStatus) → (st ≡ pending) ⊎ (st ≡ sent)
    status_cases pending = inl refl
    status_cases sent = inr refl

mem-pending_rows :
    (x : OutboxEvent) (t : List OutboxEvent)
    → is_pending x ≡ true
    → Memᴰ x t
    → Memᴰ x (pending_rows t)
unfolding pending_rows
mem-pending_rows x [] p m = elim m [ ]
mem-pending_rows x (e ∷ t) p (Memᴰ.head same) =
    let q : is_pending e ≡ true = subst (λ y. is_pending y ≡ true) same p in rw q (Memᴰ.head same)
mem-pending_rows x (e ∷ t) p (Memᴰ.tail m) = elim (Bool-cases (is_pending e)) [
  | inl hit ↦ rw hit (Memᴰ.tail (mem-pending_rows x t p m))
  | inr miss ↦ rw miss (mem-pending_rows x t p m)
]

mem-place : (x e : OutboxEvent) (t : List OutboxEvent) → (x ≡ e) ⊎ Memᴰ x t → Memᴰ x (place e t)
unfolding place
mem-place x e [] (inl same) = Memᴰ.head same
mem-place x e [] (inr m) = elim m [ ]
mem-place x e (y ∷ t) h = elim (Bool-cases (leb e.created_at y.created_at)) [
  | inl before ↦ rw before (elim h [ inl same ↦ Memᴰ.head same | inr m ↦ Memᴰ.tail m ])
  | inr after ↦ rw after (elim h [
    | inl same ↦ Memᴰ.tail (mem-place x e t (inl same))
    | inr m ↦ elim m [
      | Memᴰ.head same ↦ Memᴰ.head same
      | Memᴰ.tail m ↦ Memᴰ.tail (mem-place x e t (inr m))
    ]
  ])
]

mem-by_age : (x : OutboxEvent) (t : List OutboxEvent) → Memᴰ x t → Memᴰ x (by_age t)
unfolding by_age
mem-by_age x [] m = elim m [ ]
mem-by_age x (e ∷ t) (Memᴰ.head same) = mem-place x e (by_age t) (inl same)
mem-by_age x (e ∷ t) (Memᴰ.tail m) = mem-place x e (by_age t) (inr (mem-by_age x t m))

length-place : (e : OutboxEvent) (t : List OutboxEvent) → length (place e t) ≡ suc (length t)
unfolding place
length-place e [] = refl
length-place e (x ∷ t) = ground (arith, length-place e t)

pub length-by_age : (t : List OutboxEvent) → length (by_age t) ≡ length t
unfolding by_age
length-by_age [] = refl
length-by_age (e ∷ t) = length-place e (by_age t) ∙ ap suc (length-by_age t)

take_all : (n : ℕ) (t : List OutboxEvent) → length t ≤ n → take n t ≡ t
unfolding take
take_all zero [] h = refl
take_all zero (e ∷ t) h = absurd (omega arith)
take_all (suc n) [] h = refl
take_all (suc n) (e ∷ t) h = ap (λ r. e ∷ r) (take_all n t (omega arith))

mem-select_pending :
    (x : OutboxEvent) (t : List OutboxEvent) (n : ℕ)
    → length (pending_rows t) ≤ n
    → is_pending x ≡ true
    → Memᴰ x t
    → Memᴰ x (select_pending n t)
unfolding select_pending
mem-select_pending x t n few p m =
    rw (take_all n (by_age (pending_rows t)) (rw (length-by_age (pending_rows t)) few))
      (mem-by_age x (pending_rows t) (mem-pending_rows x t p m))

-- A row that is SENT, or waits in the batch.
abbrev IsDue : List OutboxEvent → OutboxEvent → Type 0
IsDue es x = (x.status ≡ sent) ⊎ Memᴰ x es

mark-IsDue :
    (now : ℕ) (e : OutboxEvent) (es rows : List OutboxEvent)
    → All (IsDue (e ∷ es)) rows
    → All (IsDue es) (mark_sent now e.id rows)
unfolding update
mark-IsDue now e es [] h = tt
mark-IsDue now e es (x ∷ rows) h = elim (Bool-cases (has_id e.id x)) [
  | inl hit ↦ rw hit (inl refl, mark-IsDue now e es rows h.1)
  | inr miss ↦ rw miss (
    elim h.0 [
      | inl done ↦ inl done
      | inr m ↦ elim m [
        | Memᴰ.head same ↦
            absurd (ground (arith, eq_ℤ_iff x.id e.id, ap (λ (r : OutboxEvent). r.id) same))
        | Memᴰ.tail m ↦ inr m
      ]
    ],
    mark-IsDue now e es rows h.1,
  )
]

module _ (producer : Producer) (key_of : Payload → Result Text)
    (accepts : (m : ProducerMessage) (st : producer.State) → (producer.send m st).0 ≡ ok tt)
    (keyed : (ms : Members) → (key : Text) × (key_of (object ms) ≡ ok key)) where
  publish_fine :
      (e : OutboxEvent) (st : producer.State) (key : Text) (p : Payload)
      → IsObject p
      → (publish producer e.event_type key p st).0 ≡ ok tt
  unfolding publish
  publish_fine e st key (object ms) h =
      rw (accepts (record { topic = e.event_type; key = key; value = object ms }) st)
  publish_fine e st key malformed h = elim h [ ]

  key_fine : (p : Payload) → IsObject p → (key : Text) × (key_of p ≡ ok key)
  key_fine (object ms) h = keyed ms
  key_fine malformed h = elim h [ ]

  pub publish_event_fine :
      (e : OutboxEvent) (st : producer.State)
      → IsObject e.payload
      → (publish_event producer key_of e st).0 ≡ ok tt
  publish_event_fine e st h =
      let (key, given) = key_fine e.payload h in
      ap (λ r. r.0) (with_key producer key_of e st key given) ∙ publish_fine e st key e.payload h

  module _ (repository : OutboxRepository) (now : ℕ) (calm : IsFaultless repository now) where
    pub after_publish_fine :
        (e : OutboxEvent) (rows : List OutboxEvent) (r : Result (Unit {0}))
        → r ≡ ok tt
        → after_publish producer key_of repository e rows r ≡ mark_sent now e.id rows
    after_publish_fine e rows r done = rw done (ap (λ p. p.1) (calm.marks e.id rows))

    publish_all-IsDue :
        (es rows : List OutboxEvent) (st : producer.State)
        → All (λ e. IsObject e.payload) es
        → All (IsDue es) rows
        → All (IsDue []) (publish_all producer key_of repository es rows st).0
    unfolding publish_all
    publish_all-IsDue [] rows st objects h = h
    publish_all-IsDue (e ∷ es) rows st objects h =
        let st' = (publish_event producer key_of e st).1 in
        subst (λ t. All (IsDue []) (publish_all producer key_of repository es t st').0)
          (sym (
            after_publish_fine e rows (publish_event producer key_of e st).0
              (publish_event_fine e st objects.0)))
          (publish_all-IsDue es (mark_sent now e.id rows) st' objects.1
            (mark-IsDue now e es rows h))

    -- A pass in which nothing fails drains the outbox: when the query is answered, the producer
    -- accepts every message, no marking fails, every payload is a JSON object, every object has a key
    -- and at most 100 rows are PENDING, then the pass succeeds and every row is SENT after it.
    process_drains :
        (rows : List OutboxEvent) (st : producer.State)
        → All (λ e. IsObject e.payload) rows
        → length (pending_rows rows) ≤ 100
        → let (r, rows', _) = process producer key_of repository rows st in
          (r ≡ ok tt) × All (λ x. x.status ≡ sent) rows'
    unfolding process
    process_drains rows st objects few =
        let batch = select_pending 100 rows in
        let waits : All (IsDue batch) rows =
          All-map (λ x. Memᴰ x rows) (IsDue batch) rows
            (λ x m. elim (is_sent_or x) [
              | inl waiting ↦ inr (mem-select_pending x rows 100 few waiting m)
              | inr done ↦ inl done
            ])
            (All-self rows) in
        rw (calm.finds 100 rows) (
          refl,
          All-map (IsDue []) (λ x. x.status ≡ sent)
              (publish_all producer key_of repository batch rows st).0
              (λ x h. elim h [ inl done ↦ done | inr m ↦ elim m [ ] ])
              (publish_all-IsDue batch rows st
                (All-select_pending (λ e. IsObject e.payload) 100 rows objects) waits),
        )
