-- ===== src/Inventory/Invariant.antt =====
-- The invariant of the inventory service's tables: what scripts/init-inventory-db.sql keeps in
-- `reserved_quantity`, against the reservations.
use msa_saga_go_practical.Prelude.{
  ℕ, suc, ◌≤◌, ◌≡◌, refl, true, false, none, some, List, [], ◌∷◌, arith,
}
use msa_saga_go_practical.Prelude.Int.{ℤ, pos, ◌≤ℤ◌, eq_ℤ, eq_ℤ_iff, int_eq}
use msa_saga_go_practical.Store.Table.{find, update, All, All-map, Distinct, find-update_other}
use msa_saga_go_practical.Store.Session.{Session}
use msa_saga_go_practical.Inventory.Domain.{Inventory, StockReservation}
use msa_saga_go_practical.Inventory.Repository.{
  Tables, has_product, has_id, has_version, set_quantities,
}
use msa_saga_go_practical.Inventory.Held.{held_quantity}

-- Every id was given by the sequence, and no two reservations share one; every reservation is of a
-- positive quantity; no row has a negative stock; and the reserved quantity of each product's row is
-- what its RESERVED reservations hold.
pub record IsBalanced (n : ℕ) (t : Tables) : Type 0 where
  pub given : All (λ (r : StockReservation). r.id ≤ℤ pos n) t.reservations
  pub ids : Distinct (λ (r : StockReservation). r.id) t.reservations
  pub positive : All (λ (r : StockReservation). pos 1 ≤ℤ r.quantity) t.reservations
  pub stocked : All (λ (i : Inventory). pos 0 ≤ℤ i.available_quantity) t.inventory
  pub balanced :
      (p : ℤ) (i : Inventory)
      → find (has_product p) t.inventory ≡ some i
      → i.reserved_quantity ≡ held_quantity p t.reservations

abbrev pub HoldsIn : Session Tables → Type 0
HoldsIn s = IsBalanced s.serial s.committed.tables

pub weaken : {n k : ℕ} {t : Tables} → n ≤ k → IsBalanced n t → IsBalanced k t
weaken {n} {k} {t} le h = record {
  given =
      All-map (λ (r : StockReservation). r.id ≤ℤ pos n) (λ r. r.id ≤ℤ pos k) t.reservations
        (λ r q. omega arith) h.given;
  ids = h.ids;
  positive = h.positive;
  stocked = h.stocked;
  balanced = h.balanced;
}

pub unused_id :
    (n : ℕ) (t : List StockReservation)
    → All (λ (r : StockReservation). r.id ≤ℤ pos n) t
    → find (has_id (pos (suc n))) t ≡ none
unfolding find
unused_id n [] h = refl
unused_id n (r ∷ t) h = ground (arith, eq_ℤ_iff r.id (pos (suc n)), unused_id n t h.1)

-- The row of another product stays.
pub other_product :
    (p : ℤ) (i j : Inventory) (t : List Inventory)
    → eq_ℤ i.product_id p ≡ false
    → find (has_product p) (update (has_version i.product_id i.version) (set_quantities j) t)
      ≡ find (has_product p) t
other_product p i j t ne =
    find-update_other (has_product p) (has_version i.product_id i.version) (set_quantities j) t
      (λ r q. (apart r q, apart r q))
  where
    apart :
        (r : Inventory) → has_version i.product_id i.version r ≡ true → eq_ℤ r.product_id p ≡ false
    apart r q = ground (
      arith,
      eq_ℤ_iff r.product_id i.product_id,
      eq_ℤ_iff r.product_id p,
      eq_ℤ_iff i.product_id p,
    )

pub some_same : {A : Type 0} {a b : A} → some a ≡ some b → a ≡ b
some_same h = ground arith
