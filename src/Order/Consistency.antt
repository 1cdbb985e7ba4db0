-- ===== src/Order/Consistency.antt =====
-- What holds of the order service's database between two calls, whichever calls fail
-- (services/order/internal/service/order_service.go over scripts/init-order-db.sql).
use msa_saga_go_practical.Prelude.{
  ℕ, suc, ◌≤◌, ◌≡◌, ◌≢◌, refl, Bool, Option, none, some, List, [], ◌∷◌, arith, ◌⊎◌, inl, inr,
  Option-cases,
}
use msa_saga_go_practical.Prelude.Int.{pos, ◌≤ℤ◌, int_eq, eq_ℤ_iff}
use msa_saga_go_practical.Prelude.Text.{text_Eq}
use msa_saga_go_practical.Store.Table.{
  find, update, insert, All, All-map, All-insert, All-update, find-insert, Distinct,
  Distinct-insert, Distinct-update, find-update_some,
}
use msa_saga_go_practical.Store.Session.{OutboxEvent, Session, Env}
use msa_saga_go_practical.Order.Domain.{Order, OrderStatus, payment_processing}
use msa_saga_go_practical.Order.Repository.{has_id, has_key, has_version, set_status}
use msa_saga_go_practical.Order.Service.{CreateOrderCommand, create_order}
use msa_saga_go_practical.Order.Incoming.{Incoming, handle, next, order_of}
use msa_saga_go_practical.Order.Transitions.{write_if, handle_missing}
use msa_saga_go_practical.Order.Creation.{created_order, created_event}

-- The row's id was given by the sequence, and no handler has set the status PAYMENT_PROCESSING.
abbrev pub IsRow : ℕ → Order → Type 0
IsRow n o = (o.id ≤ℤ pos n) × (o.status ≢ payment_processing)

-- The event names an order of the table.
abbrev pub Names : List Order → OutboxEvent → Type 0
Names t e = find (has_id e.aggregate_id) t ≢ none

pub record IsConsistent (n : ℕ) (t : List Order) (outbox : List OutboxEvent) : Type 0 where
  pub rows : All (IsRow n) t
  pub ids : Distinct (λ (o : Order). o.id) t
  pub keys : Distinct (λ (o : Order). o.idempotency_key) t
  pub events : All (Names t) outbox

abbrev pub HoldsIn : Session (List Order) → Type 0
HoldsIn s = IsConsistent s.serial s.committed.tables s.committed.outbox

-- An id that the sequence has yet to give is no row's.
pub unused_id : (n : ℕ) (t : List Order) → All (IsRow n) t → find (has_id (pos (suc n))) t ≡ none
unfolding find
unused_id n [] h = refl
unused_id n (o ∷ t) h = ground (arith, eq_ℤ_iff o.id (pos (suc n)), unused_id n t h.1)

-- The ways in which `CreateOrder` leaves the database: as it was, with the order alone, or with the
-- order and its event.
abbrev pub Outcome : CreateOrderCommand → Env → Session (List Order) → Session (List Order) → Type 0
Outcome cmd env s s' =
    ((s'.committed ≡ s.committed) × (s.serial ≤ s'.serial))
    ⊎ ((find (has_key cmd.idempotency_key) s.committed.tables ≡ none)
        × (s'.committed.tables ≡ insert (created_order cmd env s) s.committed.tables)
        × ((s'.committed.outbox ≡ s.committed.outbox)
            ⊎ (s'.committed.outbox ≡ insert (created_event cmd env s) s.committed.outbox))
        × (s'.serial ≡ suc s.serial))

pub create_order-Outcome :
    (cmd : CreateOrderCommand) (env : Env) (s : Session (List Order))
    → Outcome cmd env s (create_order cmd env s).1
unfolding create_order
create_order-Outcome cmd env s = ground arith

weaken :
    {n k : ℕ} {t : List Order} {outbox : List OutboxEvent}
    → n ≤ k
    → IsConsistent n t outbox
    → IsConsistent k t outbox
weaken {n} {k} {t} le h = record {
  rows = All-map (IsRow n) (IsRow k) t (λ o r. (omega arith, r.1)) h.rows;
  ids = h.ids;
  keys = h.keys;
  events = h.events;
}

add_event-IsConsistent :
    (n : ℕ) (t : List Order) (outbox : List OutboxEvent) (e : OutboxEvent)
    → Names t e
    → IsConsistent n t outbox
    → IsConsistent n t (insert e outbox)
add_event-IsConsistent n t outbox e named h = record {
  rows = h.rows;
  ids = h.ids;
  keys = h.keys;
  events = All-insert (Names t) e outbox h.events named;
}

Names-insert : (o : Order) (t : List Order) (e : OutboxEvent) → Names t e → Names (insert o t) e
Names-insert o t e h = ground (arith, find-insert (has_id e.aggregate_id) o t)

insert-IsConsistent :
    (n : ℕ) (o : Order) (t : List Order) (outbox : List OutboxEvent)
    → o.id ≡ pos (suc n)
    → o.status ≢ payment_processing
    → find (has_key o.idempotency_key) t ≡ none
    → IsConsistent n t outbox
    → IsConsistent (suc n) (insert o t) outbox
insert-IsConsistent n o t outbox id status key h = record {
  rows =
      All-insert (IsRow (suc n)) o t (weaken {k = suc n} (omega arith) h).rows
        (rw id (omega arith), status);
  ids = Distinct-insert (λ (r : Order). r.id) o t h.ids (rw id (unused_id n t h.rows));
  keys = Distinct-insert (λ (r : Order). r.idempotency_key) o t h.keys key;
  events = All-map (Names t) (Names (insert o t)) outbox (Names-insert o t) h.events;
}

announced :
    (cmd : CreateOrderCommand) (env : Env) (s : Session (List Order))
    → (t : List Order) → Names (insert (created_order cmd env s) t) (created_event cmd env s)
announced cmd env s t = ground (
  arith,
  find-insert (has_id (pos (suc s.serial))) (created_order cmd env s) t,
  eq_ℤ_iff (pos (suc s.serial)) (pos (suc s.serial)),
)

Outcome-IsConsistent :
    (cmd : CreateOrderCommand) (env : Env) (s s' : Session (List Order))
    → Outcome cmd env s s'
    → HoldsIn s
    → HoldsIn s'
Outcome-IsConsistent cmd env s s' (inl (same, le)) h = rw same (weaken le h)
Outcome-IsConsistent cmd env s s' (inr (key, tables, outbox, serial)) h =
    let o = created_order cmd env s in
    let base =
      insert-IsConsistent s.serial o s.committed.tables s.committed.outbox refl (λ e. cc) key h in
    elim outbox [
      | inl same ↦ rw (tables, same, serial) base
      | inr added ↦
          rw (tables, added, serial)
            (add_event-IsConsistent (suc s.serial) (insert o s.committed.tables) s.committed.outbox
              (created_event cmd env s) (announced cmd env s s.committed.tables) base)
    ]

-- Whatever call fails, `CreateOrder` keeps the database consistent: every id was given by the
-- sequence, no two orders share an id or a key, none is PAYMENT_PROCESSING, and every event of the
-- outbox names an order of the table.
pub create_order-IsConsistent :
    (cmd : CreateOrderCommand) (env : Env) (s : Session (List Order))
    → HoldsIn s
    → HoldsIn (create_order cmd env s).1
create_order-IsConsistent cmd env s h =
    Outcome-IsConsistent cmd env s (create_order cmd env s).1 (create_order-Outcome cmd env s) h

abbrev pub no_others : List Order → List Order
no_others t = t

-- A handler leaves the sequence and the outbox, and the table or its UPDATE.
pub handle-Outcome :
    (env : Env) (m : Incoming) (s : Session (List Order)) (o : Order)
    → find (has_id (order_of m)) s.committed.tables ≡ some o
    → let s' = (handle no_others env m s).1 in
      (s'.serial ≡ s.serial)
      × (s'.committed.outbox ≡ s.committed.outbox)
      × ((s'.committed.tables ≡ s.committed.tables)
          ⊎ (s'.committed.tables ≡ write_if (next m o.status) env.now o s.committed.tables))
unfolding handle
handle-Outcome env (Incoming.payment_completed e) s o h = ground arith
handle-Outcome env m s o h = ground arith

not_processing :
    (m : Incoming) (from : OrderStatus) {to : OrderStatus}
    → next m from ≡ some to
    → to ≢ payment_processing
not_processing (Incoming.payment_completed e) from h = ground arith
not_processing m from h = ground arith

write_if-IsConsistent :
    (target : Option OrderStatus) (now n : ℕ) (o : Order) (t : List Order)
    (outbox : List OutboxEvent)
    → ((to : OrderStatus) → target ≡ some to → to ≢ payment_processing)
    → IsConsistent n t outbox
    → IsConsistent n (write_if target now o t) outbox
write_if-IsConsistent none now n o t outbox safe h = h
write_if-IsConsistent (some to) now n o t outbox safe h =
    let q : Order → Bool = has_version o.id o.version in
    let g : Order → Order = set_status to now in
    record {
      rows = All-update (IsRow n) q g t (λ r p. (p.0, safe to refl)) h.rows;
      ids = Distinct-update (λ (r : Order). r.id) q g t (λ r. refl) h.ids;
      keys = Distinct-update (λ (r : Order). r.idempotency_key) q g t (λ r. refl) h.keys;
      events =
          All-map (Names t) (Names (update q g t)) outbox
            (λ e. find-update_some (has_id e.aggregate_id) q g t (λ r _. refl)) h.events;
    }

-- Whatever call fails, an event handler keeps the database consistent, in the sense of
-- `create_order-IsConsistent`.
pub handle-IsConsistent :
    (env : Env) (m : Incoming) (s : Session (List Order))
    → HoldsIn s
    → HoldsIn (handle no_others env m s).1
handle-IsConsistent env m s h =
    elim (Option-cases (find (has_id (order_of m)) s.committed.tables)) [
      | inl missing ↦ rw (handle_missing no_others env m s missing).0 h
      | inr (o, found) ↦
          let (serial, outbox, tables) = handle-Outcome env m s o found in
          elim tables [
            | inl same ↦ rw (serial, outbox, same) h
            | inr wrote ↦
                rw (serial, outbox, wrote)
                  (write_if-IsConsistent (next m o.status) env.now s.serial o s.committed.tables
                    s.committed.outbox (λ to. not_processing m o.status {to = to}) h)
          ]
    ]
