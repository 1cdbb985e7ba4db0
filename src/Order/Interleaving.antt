-- ===== src/Order/Interleaving.antt =====
-- Handlers of services/order/internal/service/order_service.go that run at the same time: each reads
-- an order (`FindByID`), and later goes on and may send the UPDATE of `UpdateStatusWithVersion` with
-- the version that it has read. Between the two, other handlers and `CreateOrder` may commit.
use msa_saga_go_practical.Prelude.{
  ℕ, false, inl, inr, ◌≡◌, sym, refl, Option, none, some, List, [], ◌∷◌, ◌++◌, arith,
}
use msa_saga_go_practical.Prelude.Int.{int_eq}
use mathlib.Core.Path.{subst}
use msa_saga_go_practical.Store.Table.{
  find, insert, All, All-map, All-remove, find_holds, find-insert_old, Distinct, Distinct-insert,
  Distinct-update,
}
use msa_saga_go_practical.Order.Domain.{Order, OrderStatus}
use msa_saga_go_practical.Order.Repository.{has_id, has_version, set_status}
use msa_saga_go_practical.Order.Incoming.{Incoming, order_of, next}
use msa_saga_go_practical.Order.Transitions.{write_if, written, has_id_self}
use msa_saga_go_practical.Order.Locking.{
  Flight, Agrees, IsLinear, Agrees-IsLinear, Agrees-IsLinearUpdate, Agrees-written, resumed,
  resumed_lem,
}
use msa_saga_go_practical.Store.Session.{Env}

pub record World : Type 0 where
  pub table : List Order
  pub flights : List Flight

-- One statement of one connection.
pub data Step (w w' : World) : Type 0 where
  read :
      (m : Incoming) (o : Order) (found : find (has_id (order_of m)) w.table ≡ some o)
      → w' ≡ record w {
        flights = record { event = m; seen = w.table; order = o; found = found } ∷ w.flights;
      }
      → Step w w'
  write :
      (before after : List Flight) (f : Flight) (env : Env)
      → env.faults.find ≡ false
      → w.flights ≡ before ++ (f ∷ after)
      → w' ≡ record { table = resumed env f w.table; flights = before ++ after }
      → Step w w'
  create :
      (o : Order)
      → find (has_id o.id) w.table ≡ none
      → w' ≡ record w { table = insert o w.table }
      → Step w w'

pub data Reach (w : World) : World → Type 0 where
  here : Reach w w
  then : {u v : World} → Reach w u → Step u v → Reach w v

record IsSound (w : World) : Type 0 where
  ids : Distinct (λ (o : Order). o.id) w.table
  flights : All (Agrees w.table) w.flights

write_if-Distinct :
    (target : Option OrderStatus) (now : ℕ) (o : Order) (t : List Order)
    → Distinct (λ (r : Order). r.id) t
    → Distinct (λ (r : Order). r.id) (write_if target now o t)
write_if-Distinct none now o t h = h
write_if-Distinct (some to) now o t h =
    Distinct-update (λ (r : Order). r.id) (has_version o.id o.version) (set_status to now) t
      (λ r. refl) h

Step-IsSound : {w w' : World} → Step w w' → IsSound w → IsSound w'
Step-IsSound {w} (read m o found e) h = rw e (record {
  ids = h.ids;
  flights = (
    (
      o,
      subst (λ k. find (has_id k) w.table ≡ some o)
          (sym (has_id_self (order_of m) o (find_holds _ w.table found))) found,
      omega arith,
      λ _. refl,
    ),
    h.flights,
  );
})
Step-IsSound {w} (write before after f env fine fs e) h =
    let (mine, others) =
      All-remove (Agrees w.table) before f after (subst (All (Agrees w.table)) fs h.flights) in
    let linear = Agrees-IsLinearUpdate env.now f w.table h.ids mine in
    elim (resumed_lem env f w.table fine) [
      | inl same ↦ rw (e, same) (record { ids = h.ids; flights = others })
      | inr wrote ↦
          rw (e, wrote)
            (record {
              ids = write_if-Distinct (next f.event f.order.status) env.now f.order w.table h.ids;
              flights =
                  All-map (Agrees w.table) (Agrees (written f.event env.now f.order w.table))
                    (before ++ after) (λ g. Agrees-written env.now f g w.table linear) others;
            })
    ]
Step-IsSound {w} (create o fresh e) h = rw e (record {
  ids = Distinct-insert (λ (r : Order). r.id) o w.table h.ids fresh;
  flights =
      All-map (Agrees w.table) (Agrees (insert o w.table)) w.flights
        (λ g (r, found, le, same).
          (r, find-insert_old (has_id g.order.id) o w.table found, le, same))
        h.flights;
})

Reach-IsSound : {w w' : World} → IsSound w → Reach w w' → IsSound w'
Reach-IsSound h here = h
Reach-IsSound h (then r st) = Step-IsSound st (Reach-IsSound h r)

-- Optimistic locking makes concurrent handlers linear. From a table with distinct ids and no handler
-- under way, whatever reads, writes and insertions have been interleaved, and whether the UPDATE
-- fails or not, the rest of any handler that is under way either changes nothing, or finds the row
-- just as the handler has read it and makes of it what the specification says of that row.
pub write-IsLinear :
    (start w : World) (before after : List Flight) (f : Flight) (env : Env)
    → env.faults.find ≡ false
    → Distinct (λ (o : Order). o.id) start.table
    → start.flights ≡ []
    → Reach start w
    → w.flights ≡ before ++ (f ∷ after)
    → IsLinear env f w.table
write-IsLinear start w before after f env fine d idle r fs =
    let init : IsSound start = record {
      ids = d;
      flights = subst (All (Agrees start.table)) (sym idle) tt;
    } in
    let h = Reach-IsSound init r in
    Agrees-IsLinear env f w.table fine h.ids
      (All-remove (Agrees w.table) before f after (subst (All (Agrees w.table)) fs h.flights)).0
