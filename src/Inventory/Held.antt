-- ===== src/Inventory/Held.antt =====
-- How many pieces of a product the reservations hold: the sum that `reserved_quantity` of
-- scripts/init-inventory-db.sql stands for.
use msa_saga_go_practical.Prelude.{
  ℕ, ◌≡◌, ◌≢◌, refl, sym, ap, ◌∙◌, true, false, none, some, List, [], ◌∷◌, ◌&&◌, arith, inl, inr,
  Bool-cases, if◌then◌else◌,
}
use mathlib.Core.Path.{subst}
use msa_saga_go_practical.Prelude.Int.{ℤ, pos, ◌+ℤ◌, eq_ℤ, eq_ℤ_iff, int_eq, +ℤ_parts, eq_of_parts}
use msa_saga_go_practical.Store.Table.{find, update, insert, Distinct}
use msa_saga_go_practical.Inventory.Domain.{StockReservation, reserved, status_eq, cancel}
use msa_saga_go_practical.Inventory.Repository.{has_order, has_id, set_status}

-- What one reservation holds of a product.
unfoldable pub quantity_held : ℤ → StockReservation → ℤ
quantity_held p r = if eq_ℤ r.product_id p && status_eq r.status reserved then r.quantity else pos 0

unfoldable pub held_quantity : ℤ → List StockReservation → ℤ
held_quantity p [] = pos 0
held_quantity p (r ∷ t) = quantity_held p r +ℤ held_quantity p t

-- Sums of integers.
add_zero : (a : ℤ) → a +ℤ pos 0 ≡ pos 0 +ℤ a
add_zero a =
    let u = +ℤ_parts a (pos 0) in
    let v = +ℤ_parts (pos 0) a in eq_of_parts (a +ℤ pos 0) (pos 0 +ℤ a) (omega arith)

zero_add : (a : ℤ) → pos 0 +ℤ a ≡ a
zero_add a = let v = +ℤ_parts (pos 0) a in eq_of_parts (pos 0 +ℤ a) a (omega arith)

pub add_nothing : (a : ℤ) → a +ℤ pos 0 ≡ a
add_nothing a = add_zero a ∙ zero_add a

add_assoc : (a b c : ℤ) → a +ℤ (b +ℤ c) ≡ (a +ℤ b) +ℤ c
add_assoc a b c =
    let u = +ℤ_parts b c in
    let v = +ℤ_parts a (b +ℤ c) in
    let w = +ℤ_parts a b in
    let x = +ℤ_parts (a +ℤ b) c in eq_of_parts (a +ℤ (b +ℤ c)) ((a +ℤ b) +ℤ c) (omega arith)

-- A part that is gone from the head of a sum, added again.
add_back : (a b : ℤ) → (pos 0 +ℤ b) +ℤ a ≡ a +ℤ b
add_back a b =
    let u = +ℤ_parts (pos 0) b in
    let v = +ℤ_parts (pos 0 +ℤ b) a in
    let w = +ℤ_parts a b in eq_of_parts ((pos 0 +ℤ b) +ℤ a) (a +ℤ b) (omega arith)

pub held-insert :
    (p : ℤ) (r : StockReservation) (t : List StockReservation)
    → held_quantity p (insert r t) ≡ held_quantity p t +ℤ quantity_held p r
unfolding held_quantity
held-insert p r [] = add_zero (quantity_held p r)
held-insert p r (x ∷ t) =
    ap (λ n. quantity_held p x +ℤ n) (held-insert p r t)
    ∙ add_assoc (quantity_held p x) (held_quantity p t) (quantity_held p r)

-- An UPDATE of an id that no row has changes nothing.
update_absent :
    (id : ℤ) (g : StockReservation → StockReservation) (t : List StockReservation)
    → find (has_id id) t ≡ none
    → update (has_id id) g t ≡ t
unfolding find update
update_absent id g [] h = refl
update_absent id g (x ∷ t) h = ground (arith, update_absent id g t)

id_found :
    (order : ℤ) (r : StockReservation) (t : List StockReservation)
    → find (has_order order reserved) t ≡ some r
    → find (has_id r.id) t ≢ none
unfolding find
id_found order r [] h = cc
id_found order r (x ∷ t) h = ground (arith, eq_ℤ_iff r.id r.id, id_found order r t)

id_apart :
    (order : ℤ) (r x : StockReservation) (t : List StockReservation)
    → find (has_id x.id) t ≡ none
    → find (has_order order reserved) t ≡ some r
    → has_id r.id x ≡ false
id_apart order r x t free found = elim (Bool-cases (has_id r.id x)) [
  | inr miss ↦ miss
  | inl hit ↦
      let same : x.id ≡ r.id = (eq_ℤ_iff x.id r.id).0 hit in
      absurd (id_found order r t found (subst (λ k. find (has_id k) t ≡ none) same free))
]

cancelled_holds_nothing :
    (p : ℤ) (now : ℕ) (r x : StockReservation)
    → quantity_held p (set_status (cancel now r) x) ≡ pos 0
unfolding quantity_held cancel
cancelled_holds_nothing p now r x = ground arith

-- Cancelling a held reservation, with distinct ids, gives back just what it holds.
pub held-cancel :
    (p order : ℤ) (now : ℕ) (r : StockReservation) (t : List StockReservation)
    → Distinct (λ (x : StockReservation). x.id) t
    → find (has_order order reserved) t ≡ some r
    → held_quantity p (update (has_id r.id) (set_status (cancel now r)) t) +ℤ quantity_held p r
      ≡ held_quantity p t
unfolding find update held_quantity
held-cancel p order now r [] d h = cc
held-cancel p order now r (x ∷ t) d h = elim (Bool-cases (has_order order reserved x)) [
  | inl hit ↦
      let same : x ≡ r = ground arith in
      let alone : find (has_id r.id) t ≡ none =
        subst (λ (y : StockReservation). find (has_id y.id) t ≡ none) same d.0 in
      let self : has_id r.id x ≡ true =
        subst (λ (y : StockReservation). has_id r.id y ≡ true) (sym same)
          ((eq_ℤ_iff r.id r.id).1 refl) in
      rw
        (
          self,
          update_absent r.id (set_status (cancel now r)) t alone,
          cancelled_holds_nothing p now r x,
        )
        (add_back (quantity_held p r) (held_quantity p t)
          ∙ ap (λ y. quantity_held p y +ℤ held_quantity p t) (sym same))
  | inr miss ↦
      let later : find (has_order order reserved) t ≡ some r = rw miss at h in
      let apart : has_id r.id x ≡ false = id_apart order r x t d.0 later in
      rw apart (
        sym (
          add_assoc (quantity_held p x)
            (held_quantity p (update (has_id r.id) (set_status (cancel now r)) t))
            (quantity_held p r))
        ∙ ap (λ n. quantity_held p x +ℤ n) (held-cancel p order now r t d.1 later))
]
