-- ===== src/Order/Transitions.antt =====
-- What the event handlers of services/order/internal/service/order_service.go do to the orders.
use msa_saga_go_practical.Prelude.{
  ℕ, ◌≡◌, ◌≢◌, ◌∙◌, refl, true, false, Option, none, some, List, arith,
}
use msa_saga_go_practical.Prelude.Int.{ℤ, eq_ℤ_iff}
use msa_saga_go_practical.Common.Result.{ok}
use msa_saga_go_practical.Store.Table.{
  find, update, affected, find_holds, find-update_hit, find-update_other, update_none_affected,
}
use msa_saga_go_practical.Store.Session.{Session, Env}
use msa_saga_go_practical.Order.Domain.{Order, OrderStatus}
use msa_saga_go_practical.Order.Repository.{has_id, has_version, set_status, find_by_id}
use msa_saga_go_practical.Order.Incoming.{Incoming, order_of, handle, next, moved, advance}

-- The table after the handler's UPDATE, which the version test may keep from writing.
abbrev pub write_if : Option OrderStatus → ℕ → Order → List Order → List Order
write_if none now o t = t
write_if (some status) now o t = update (has_version o.id o.version) (set_status status now) t

abbrev pub written : Incoming → ℕ → Order → List Order → List Order
written m now o t = write_if (next m o.status) now o t

-- What a handler does, by whether the order is found and whether the UPDATE fails.
pub handle_found :
    (others : List Order → List Order) (env : Env) (m : Incoming) (s : Session (List Order))
    (o : Order)
    → env.faults.find ≡ false
    → find (has_id (order_of m)) s.committed.tables ≡ some o
    → env.faults.update ≡ false
    → ((handle others env m s).0 ≡ ok tt)
      × ((handle others env m s).1.committed.tables
          ≡ written m env.now o (others s.committed.tables))
      × ((handle others env m s).1.committed.outbox ≡ s.committed.outbox)
unfolding handle
handle_found others env (Incoming.payment_completed e) s o f h u = ground arith
handle_found others env m s o f h u = ground arith

-- When the UPDATE fails, or is not sent, the table is as the other connections left it.
pub handle_stuck :
    (others : List Order → List Order) (env : Env) (m : Incoming) (s : Session (List Order))
    (o : Order)
    → env.faults.find ≡ false
    → find (has_id (order_of m)) s.committed.tables ≡ some o
    → env.faults.update ≡ true
    → (handle others env m s).1.committed.tables ≡ others s.committed.tables
unfolding handle
handle_stuck others env (Incoming.payment_completed e) s o f h u = ground arith
handle_stuck others env m s o f h u = ground arith

has_version_self : (o : Order) → has_version o.id o.version o ≡ true
has_version_self o = ground (arith, eq_ℤ_iff o.id o.id)

pub has_id_self : (id : ℤ) (o : Order) → has_id id o ≡ true → o.id ≡ id
has_id_self id o h = (eq_ℤ_iff o.id id).0 h

pub find-write_if :
    (target : Option OrderStatus) (now : ℕ) (id : ℤ) (o : Order) (t : List Order)
    → find (has_id id) t ≡ some o
    → find (has_id id) (write_if target now o t) ≡ some (moved target now o)
find-write_if none now id o t h = h
find-write_if (some status) now id o t h =
    find-update_hit (has_id id) (has_version o.id o.version) (set_status status now) t (λ r q. refl)
      h (has_version_self o)

pub write_if_stale :
    (target : Option OrderStatus) (now : ℕ) (o : Order) (t : List Order)
    → affected (has_version o.id o.version) t ≡ 0
    → write_if target now o t ≡ t
write_if_stale none now o t h = refl
write_if_stale (some status) now o t h =
    update_none_affected (has_version o.id o.version) (set_status status now) t h

-- A row with an id is not one with another id.
apart_ids :
    (id j : ℤ) (version : ℕ) (r : Order)
    → j ≢ id
    → has_version id version r ≡ true
    → has_id j r ≡ false
apart_ids id j version r ne h = ground (arith, eq_ℤ_iff r.id id, eq_ℤ_iff r.id j)

pub find-write_if_other :
    (target : Option OrderStatus) (now : ℕ) (j : ℤ) (o : Order) (t : List Order)
    → j ≢ o.id
    → find (has_id j) (write_if target now o t) ≡ find (has_id j) t
find-write_if_other none now j o t ne = refl
find-write_if_other (some status) now j o t ne =
    find-update_other (has_id j) (has_version o.id o.version) (set_status status now) t
      (λ r q. (apart_ids o.id j o.version r ne q, apart_ids o.id j o.version r ne q))

-- When neither query fails, the order of the event is found, and no other connection has changed
-- its row between the handler's read and its UPDATE, the handler succeeds, the row becomes what the
-- specification `next` says of its status (one version up if it moves, untouched otherwise), and
-- the outbox stays as it was.
pub handle-refines-next :
    (others : List Order → List Order) (env : Env) (m : Incoming) (s : Session (List Order))
    (o : Order)
    → env.faults.find ≡ false
    → env.faults.update ≡ false
    → find (has_id (order_of m)) s.committed.tables ≡ some o
    → find (has_id (order_of m)) (others s.committed.tables) ≡ some o
    → let (r, s') = handle others env m s in
      (r ≡ ok tt)
      × (find (has_id (order_of m)) s'.committed.tables ≡ some (advance m env.now o))
      × (s'.committed.outbox ≡ s.committed.outbox)
handle-refines-next others env m s o f u h k =
    let (done, tables, outbox) = handle_found others env m s o f h u in
    (
      done,
      rw tables
          (find-write_if (next m o.status) env.now (order_of m) o (others s.committed.tables) k),
      outbox,
    )

-- When another connection has moved the row to another version between the handler's read and its
-- UPDATE, so that the version test selects no row, the handler still succeeds, and leaves the
-- tables as that connection left them: the event has no effect and nobody is told.
pub handle_stale_lost :
    (others : List Order → List Order) (env : Env) (m : Incoming) (s : Session (List Order))
    (o : Order)
    → env.faults.find ≡ false
    → env.faults.update ≡ false
    → find (has_id (order_of m)) s.committed.tables ≡ some o
    → affected (has_version o.id o.version) (others s.committed.tables) ≡ 0
    → let (r, s') = handle others env m s in
      (r ≡ ok tt) × (s'.committed.tables ≡ others s.committed.tables)
handle_stale_lost others env m s o f u h stale =
    let (done, tables, outbox) = handle_found others env m s o f h u in
    (done, rw tables (write_if_stale (next m o.status) env.now o (others s.committed.tables) stale))

-- An event whose order is not in the table is answered by an error, and changes nothing: neither
-- the tables nor the outbox, nor the sequences.
pub handle_missing :
    (others : List Order → List Order) (env : Env) (m : Incoming) (s : Session (List Order))
    → find (has_id (order_of m)) s.committed.tables ≡ none
    → ((handle others env m s).1 ≡ s) × ((handle others env m s).0 ≢ ok tt)
unfolding handle find_by_id
handle_missing others env (Incoming.payment_completed e) s h = ground arith
handle_missing others env m s h = ground arith

-- When neither query fails and the event's order is found, every other order is found afterwards as
-- the other connections left it.
handle_other_orders :
    (others : List Order → List Order) (env : Env) (m : Incoming) (s : Session (List Order))
    (o : Order) (j : ℤ)
    → env.faults.find ≡ false
    → env.faults.update ≡ false
    → find (has_id (order_of m)) s.committed.tables ≡ some o
    → j ≢ order_of m
    → find (has_id j) (handle others env m s).1.committed.tables
      ≡ find (has_id j) (others s.committed.tables)
handle_other_orders others env m s o j f u h ne =
    let same : o.id ≡ order_of m = has_id_self (order_of m) o (find_holds _ s.committed.tables h) in
    rw (handle_found others env m s o f h u).1 (
      find-write_if_other (next m o.status) env.now j o (others s.committed.tables)
        (λ e. ne (e ∙ same)))
