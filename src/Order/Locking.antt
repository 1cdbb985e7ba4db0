-- ===== src/Order/Locking.antt =====
-- The optimistic lock of `UpdateStatusWithVersion` in
-- services/order/internal/repository/order_repository.go, for a handler that has read an order before.
use msa_saga_go_practical.Prelude.{
  ℕ, false, ◌≤◌, ◌≡◌, ◌≢◌, sym, ap, ◌∙◌, refl, Option, none, some, List, [], ◌∷◌, arith, ◌⊎◌, inl,
  inr, Bool-cases, ◌==◌, ==_iff,
}
use msa_saga_go_practical.Prelude.Int.{ℤ, int_eq, eq_ℤ, eq_ℤ_iff}
use mathlib.Core.Path.{subst}
use msa_saga_go_practical.Store.Table.{find, affected, Distinct}
use msa_saga_go_practical.Order.Domain.{Order, OrderStatus}
use msa_saga_go_practical.Order.Repository.{has_id, has_version}
use msa_saga_go_practical.Order.Incoming.{Incoming, order_of, next, moved, advance, handle}
use msa_saga_go_practical.Store.Session.{Session, Env}
use msa_saga_go_practical.Order.Transitions.{
  handle_found, handle_stuck, written, find-write_if, find-write_if_other, has_id_self,
  write_if_stale,
}

-- A handler between its two statements: its event, the table that it has read, and the order that it
-- has found there.
pub record Flight : Type 0 where
  pub event : Incoming
  pub seen : List Order
  pub order : Order
  pub found : find (has_id (order_of event)) seen ≡ some order

-- A session on a table.
abbrev over : List Order → Session (List Order)
over t = record {
  committed = record { tables = t; outbox = [] };
  working = record { tables = t; outbox = [] };
  serial = 0;
  outbox_serial = 0;
}

-- The table after the rest of the handler, which goes on when other connections have left this table.
abbrev pub resumed : Env → Flight → List Order → List Order
resumed env f t = (handle (λ _. t) env f.event (over f.seen)).1.committed.tables

-- The rest of the handler is the UPDATE that the specification asks for, or nothing when that fails.
pub resumed_lem :
    (env : Env) (f : Flight) (t : List Order)
    → env.faults.find ≡ false
    → (resumed env f t ≡ t) ⊎ (resumed env f t ≡ written f.event env.now f.order t)
resumed_lem env f t fine = elim (Bool-cases env.faults.update) [
  | inl bad ↦ inl (handle_stuck (λ _. t) env f.event (over f.seen) f.order fine f.found bad)
  | inr sent ↦ inr (handle_found (λ _. t) env f.event (over f.seen) f.order fine f.found sent).1
]

-- The row of a handler's order is the one that it has read, or has a greater version.
abbrev pub Agrees : List Order → Flight → Type 0
Agrees t f =
    (r : Order) × (find (has_id f.order.id) t ≡ some r)
    × (f.order.version ≤ r.version)
    × (f.order.version ≡ r.version → r ≡ f.order)

none-affected :
    (id : ℤ) (version : ℕ) (t : List Order)
    → find (has_id id) t ≡ none
    → affected (has_version id version) t ≡ 0
unfolding find affected
none-affected id version [] h = refl
none-affected id version (o ∷ t) h = ground (arith, none-affected id version t)

-- With distinct ids, only the row that is found can match the UPDATE.
affected_zero :
    (id : ℤ) (version : ℕ) (r : Order) (t : List Order)
    → Distinct (λ (o : Order). o.id) t
    → find (has_id id) t ≡ some r
    → r.version ≢ version
    → affected (has_version id version) t ≡ 0
unfolding find affected
affected_zero id version r [] d h ne = refl
affected_zero id version r (o ∷ t) d h ne = elim (Bool-cases (has_id id o)) [
  | inl e ↦
      let gone : find (has_id id) t ≡ none =
        subst (λ k. find (has_id k) t ≡ none) (has_id_self id o e) d.0 in
      ground (arith, none-affected id version t gone)
  | inr e ↦ ground (arith, affected_zero id version r t d.1)
]

-- What an UPDATE does under the invariant: nothing, or the step of the specification from the row
-- that stands there now.
abbrev pub IsLinearUpdate : ℕ → Flight → List Order → Type 0
IsLinearUpdate now f t =
    (written f.event now f.order t ≡ t)
    ⊎ ((find (has_id f.order.id) t ≡ some f.order)
        × (find (has_id f.order.id) (written f.event now f.order t)
            ≡ some (advance f.event now f.order)))

pub Agrees-IsLinearUpdate :
    (now : ℕ) (f : Flight) (t : List Order)
    → Distinct (λ (o : Order). o.id) t
    → Agrees t f
    → IsLinearUpdate now f t
Agrees-IsLinearUpdate now f t d (r, found, le, same) =
    elim (Bool-cases (r.version == f.order.version)) [
      | inl e ↦
          let still : find (has_id f.order.id) t ≡ some f.order =
            found ∙ ap some (same (sym ((==_iff r.version f.order.version).0 e))) in
          inr (still, find-write_if (next f.event f.order.status) now f.order.id f.order t still)
      | inr e ↦ inl (
          write_if_stale (next f.event f.order.status) now f.order t
            (affected_zero f.order.id f.order.version r t d found (λ q. ground arith)))
    ]

-- What the rest of a handler does under the invariant: nothing, or the step of the specification from
-- the row that stands there now.
abbrev pub IsLinear : Env → Flight → List Order → Type 0
IsLinear env f t =
    (resumed env f t ≡ t)
    ⊎ ((find (has_id f.order.id) t ≡ some f.order)
        × (find (has_id f.order.id) (resumed env f t) ≡ some (advance f.event env.now f.order)))

pub Agrees-IsLinear :
    (env : Env) (f : Flight) (t : List Order)
    → env.faults.find ≡ false
    → Distinct (λ (o : Order). o.id) t
    → Agrees t f
    → IsLinear env f t
Agrees-IsLinear env f t fine d a = elim (resumed_lem env f t fine) [
  | inl same ↦ inl same
  | inr wrote ↦ elim (Agrees-IsLinearUpdate env.now f t d a) [
    | inl same ↦ inl (wrote ∙ same)
    | inr (still, after) ↦ inr (still, rw wrote after)
  ]
]

some_same : {A : Type 0} {a b : A} → some a ≡ some b → a ≡ b
some_same h = ground arith

-- A row that an event has moved is newer than any earlier reading of it.
moved_newer :
    (target : Option OrderStatus) (now : ℕ) (r o : Order)
    → o.version ≤ r.version
    → (o.version ≡ r.version → r ≡ o)
    → (o.version ≤ (moved target now r).version)
      × (o.version ≡ (moved target now r).version → moved target now r ≡ o)
moved_newer none now r o le same = (le, same)
moved_newer (some status) now r o le same = (omega arith, λ e. absurd (omega arith))

-- What one handler's UPDATE leaves of another that is under way.
pub Agrees-written :
    (now : ℕ) (f g : Flight) (t : List Order)
    → IsLinearUpdate now f t
    → Agrees t g
    → Agrees (written f.event now f.order t) g
Agrees-written now f g t (inl unchanged) a = subst (λ u. Agrees u g) (sym unchanged) a
Agrees-written now f g t (inr (still, after)) (r, found, le, same) =
    let target : Option OrderStatus = next f.event f.order.status in
    elim (Bool-cases (eq_ℤ f.order.id g.order.id)) [
      | inl e ↦
          let q : f.order.id ≡ g.order.id = (eq_ℤ_iff f.order.id g.order.id).0 e in
          let row : r ≡ f.order =
            some_same (sym found ∙ subst (λ k. find (has_id k) t ≡ some f.order) q still) in
          let (newer, differs) = moved_newer target now r g.order le same in
          let after' : find (has_id g.order.id) (written f.event now f.order t)
              ≡ some (moved target now f.order) =
            subst
              (λ k.
                find (has_id k) (written f.event now f.order t) ≡ some (moved target now f.order))
              q after in
          (
            moved target now r,
            after' ∙ ap (λ x. some (moved target now x)) (sym row),
            newer,
            differs,
          )
      | inr e ↦ (
        r,
        find-write_if_other target now g.order.id f.order t
              (λ q. ground (arith, eq_ℤ_iff f.order.id g.order.id))
            ∙ found,
        le,
        same,
      )
    ]
