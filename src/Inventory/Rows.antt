-- ===== src/Inventory/Rows.antt =====
-- The row of a product after the updates of a reservation and of its compensation
-- (services/inventory/internal/service/inventory_service.go).
use msa_saga_go_practical.Prelude.{◌≡◌, refl, true, some, List, arith}
use msa_saga_go_practical.Prelude.Int.{ℤ, eq_ℤ_iff}
use msa_saga_go_practical.Store.Table.{find, find-update_hit}
use msa_saga_go_practical.Store.Session.{Env}
use msa_saga_go_practical.Inventory.Domain.{Inventory, StockReservation, reserve, restore}
use msa_saga_go_practical.Inventory.Repository.{has_product, has_version, set_quantities}
use msa_saga_go_practical.Inventory.Service.{product_id, quantity}
use msa_saga_go_practical.Inventory.Outcome.{taken}
use msa_saga_go_practical.Inventory.Restoration.{given_back}

version_holds : (i : Inventory) → has_version i.product_id i.version i ≡ true
version_holds i = ground (arith, eq_ℤ_iff i.product_id i.product_id)

-- The product's row after each of the two updates.
pub taken_row :
    (env : Env) (i : Inventory) (t : List Inventory)
    → find (has_product product_id) t ≡ some i
    → find (has_product product_id) (taken env i t)
      ≡ some (set_quantities (reserve env.now quantity i) i)
taken_row env i t found =
    find-update_hit (has_product product_id) (has_version i.product_id i.version)
      (set_quantities (reserve env.now quantity i)) t (λ r h. refl) found (version_holds i)

pub given_row :
    (env : Env) (r : StockReservation) (product : ℤ) (i : Inventory) (t : List Inventory)
    → find (has_product product) t ≡ some i
    → find (has_product product) (given_back env r i t)
      ≡ some (set_quantities (restore env.now r.quantity i) i)
given_row env r product i t found =
    find-update_hit (has_product product) (has_version i.product_id i.version)
      (set_quantities (restore env.now r.quantity i)) t (λ x h. refl) found (version_holds i)
