-- ===== src/Inventory/Restoring.antt =====
-- A compensation of services/inventory/internal/service/inventory_service.go against the books.
use msa_saga_go_practical.Prelude.{
  ◌≡◌, refl, sym, ap, ◌∙◌, false, some, arith, inl, inr, Bool-cases,
}
use mathlib.Core.Path.{subst}
use msa_saga_go_practical.Prelude.Int.{
  ℤ, pos, ◌+ℤ◌, ◌-ℤ◌, ◌≤ℤ◌, eq_ℤ, eq_ℤ_iff, int_eq, +ℤ_parts, add_sub,
}
use msa_saga_go_practical.Common.Events.{PaymentRefundedEvent}
use msa_saga_go_practical.Store.Table.{find, All-update, All-find, Distinct-update, find_holds}
use msa_saga_go_practical.Store.Session.{Session, Env}
use msa_saga_go_practical.Inventory.Domain.{Inventory, StockReservation, reserved, restore, cancel}
use msa_saga_go_practical.Inventory.Repository.{
  Tables, has_product, has_order, has_id, has_version, set_quantities, set_status,
}
use msa_saga_go_practical.Inventory.Restoration.{given_back, canceled, with_restoration}
use msa_saga_go_practical.Inventory.Rows.{given_row}
use msa_saga_go_practical.Inventory.Held.{quantity_held, held_quantity, held-cancel, add_nothing}
use msa_saga_go_practical.Inventory.Invariant.{IsBalanced, other_product, some_same}

module _ (env : Env) (evt : PaymentRefundedEvent) (s : Session Tables) (r : StockReservation)
    (i : Inventory) (order : ℤ)
    (holds : find (has_order order reserved) s.committed.tables.reservations ≡ some r)
    (found : find (has_product r.product_id) s.committed.tables.inventory ≡ some i) where
  holds_all : quantity_held r.product_id r ≡ r.quantity
  unfolding quantity_held
  holds_all = ground (
    arith,
    eq_ℤ_iff r.product_id r.product_id,
    find_holds (has_order order reserved) s.committed.tables.reservations holds,
  )

  holds_no_other : (p : ℤ) → eq_ℤ r.product_id p ≡ false → quantity_held p r ≡ pos 0
  unfolding quantity_held
  holds_no_other p ne = rw ne

  frees :
      (set_quantities (restore env.now r.quantity i) i).reserved_quantity
      ≡ i.reserved_quantity -ℤ r.quantity
  unfolding restore
  frees = refl

  given_balanced :
      (p : ℤ) (j : Inventory)
      → IsBalanced s.serial s.committed.tables
      → find (has_product p) (given_back env r i s.committed.tables.inventory) ≡ some j
      → j.reserved_quantity ≡ held_quantity p (canceled env r s.committed.tables.reservations)
  given_balanced p j h row =
      let t = s.committed.tables.reservations in
      let t' = canceled env r t in
      let back = held-cancel p order env.now r t h.ids holds in
      elim (Bool-cases (eq_ℤ r.product_id p)) [
        | inl hit ↦
            let e : r.product_id ≡ p = (eq_ℤ_iff r.product_id p).0 hit in
            let there : find (has_product p) s.committed.tables.inventory ≡ some i =
              subst (λ k. find (has_product k) s.committed.tables.inventory ≡ some i) e found in
            let same : j ≡ set_quantities (restore env.now r.quantity i) i =
              some_same (sym row ∙ given_row env r p i s.committed.tables.inventory there) in
            let all : quantity_held p r ≡ r.quantity =
              subst (λ k. quantity_held k r ≡ r.quantity) e holds_all in
            ap (λ (x : Inventory). x.reserved_quantity) same
            ∙ frees
            ∙ ap (λ n. n -ℤ r.quantity)
                (h.balanced p i there ∙ sym back ∙ ap (λ n. held_quantity p t' +ℤ n) all)
            ∙ add_sub (held_quantity p t') r.quantity
        | inr miss ↦
            let ours : i.product_id ≡ r.product_id =
              (eq_ℤ_iff i.product_id r.product_id).0
                (find_holds (has_product r.product_id) s.committed.tables.inventory found) in
            let apart : eq_ℤ i.product_id p ≡ false = rw ours miss in
            h.balanced p j (
              sym (
                other_product p i (restore env.now r.quantity i) s.committed.tables.inventory apart)
              ∙ row)
            ∙ sym back
            ∙ ap (λ n. held_quantity p t' +ℤ n) (holds_no_other p miss)
            ∙ add_nothing (held_quantity p t')
      ]

  more_stock :
      IsBalanced s.serial s.committed.tables
      → pos 0 ≤ℤ (set_quantities (restore env.now r.quantity i) i).available_quantity
  unfolding restore
  more_stock h =
      let some_left =
        All-find (λ (x : Inventory). pos 0 ≤ℤ x.available_quantity) (has_product r.product_id)
          s.committed.tables.inventory h.stocked found in
      let some_held =
        All-find (λ (x : StockReservation). pos 1 ≤ℤ x.quantity) (has_order order reserved)
          s.committed.tables.reservations h.positive holds in
      omega (arith, +ℤ_parts i.available_quantity r.quantity)

  pub with_restoration-IsBalanced :
      IsBalanced s.serial s.committed.tables
      → IsBalanced s.serial (with_restoration r i env evt s).tables
  with_restoration-IsBalanced h =
      let t = s.committed.tables.reservations in
      let g = set_status (cancel env.now r) in
      record {
        given =
            All-update (λ (x : StockReservation). x.id ≤ℤ pos s.serial) (has_id r.id) g t (λ x q. q)
              h.given;
        ids = Distinct-update (λ (x : StockReservation). x.id) (has_id r.id) g t (λ x. refl) h.ids;
        positive =
            All-update (λ (x : StockReservation). pos 1 ≤ℤ x.quantity) (has_id r.id) g t (λ x q. q)
              h.positive;
        stocked =
            All-update (λ (x : Inventory). pos 0 ≤ℤ x.available_quantity)
              (has_version i.product_id i.version) (set_quantities (restore env.now r.quantity i))
              s.committed.tables.inventory (λ x q. more_stock h) h.stocked;
        balanced = λ p j. given_balanced p j h;
      }
