-- ===== src/Prelude/Int.antt =====
-- Signed integers over the native numbers: the `int64` and `int` of the program. Sums and orders
-- go through the two parts of an integer. The wrap-around of 64 bits, and the range of an INT column,
-- are not modelled.
use msa_saga_go_practical.Prelude.Tests.{leb, ◌==◌, if◌then◌else◌, Eq}
use Prim.Native.Nat.{ℕ, suc, ◌+◌, ◌-◌, ◌≤◌}
use mathlib.Core.Path.{◌≡◌}
use mathlib.Core.Logic.{◌↔◌}
use mathlib.Core.Bool.{Bool, true, ◌&&◌}
use native.Mathlib.Omega.{arith}

-- `negsuc n` is -(n + 1).
pub data ℤ : Type 0 where
  pos : ℕ → ℤ
  negsuc : ℕ → ℤ

abbrev pub pos_part : ℤ → ℕ
pos_part (pos n) = n
pos_part (negsuc n) = 0

abbrev pub neg_part : ℤ → ℕ
neg_part (pos n) = 0
neg_part (negsuc n) = suc n

-- a - b, as an integer.
abbrev pub sub_ℕ : ℕ → ℕ → ℤ
sub_ℕ a b = if leb b a then pos (a - b) else negsuc (b - a - 1)

infixl 65 ◌+ℤ◌ ◌-ℤ◌
infix 50 ◌≤ℤ◌
unfoldable pub ◌+ℤ◌ : ℤ → ℤ → ℤ
a +ℤ b = sub_ℕ (pos_part a + pos_part b) (neg_part a + neg_part b)

unfoldable pub ◌-ℤ◌ : ℤ → ℤ → ℤ
a -ℤ b = sub_ℕ (pos_part a + neg_part b) (neg_part a + pos_part b)

abbrev pub ◌≤ℤ◌ : ℤ → ℤ → Type 0
a ≤ℤ b = pos_part a + neg_part b ≤ pos_part b + neg_part a

abbrev pub leb_ℤ : ℤ → ℤ → Bool
leb_ℤ a b = leb (pos_part a + neg_part b) (pos_part b + neg_part a)

unfoldable pub eq_ℤ : ℤ → ℤ → Bool
eq_ℤ a b = pos_part a == pos_part b && neg_part a == neg_part b

pub eq_ℤ_iff : (a b : ℤ) → (eq_ℤ a b ≡ true) ↔ (a ≡ b)
unfolding eq_ℤ
eq_ℤ_iff a b = ground arith

instance abbrev pub int_eq : Eq ℤ
int_eq = record { beq = eq_ℤ; beq_iff = eq_ℤ_iff }

-- One lemma for each operation lets `omega` work with the operations shut.
pub +ℤ_parts :
    (a b : ℤ)
    → pos_part (a +ℤ b) + neg_part a + neg_part b ≡ neg_part (a +ℤ b) + pos_part a + pos_part b
unfolding ◌+ℤ◌
+ℤ_parts a b = ground arith

pub -ℤ_parts :
    (a b : ℤ)
    → pos_part (a -ℤ b) + neg_part a + pos_part b ≡ neg_part (a -ℤ b) + pos_part a + neg_part b
unfolding ◌-ℤ◌
-ℤ_parts a b = ground arith

pub eq_of_parts : (a b : ℤ) → pos_part a + neg_part b ≡ pos_part b + neg_part a → a ≡ b
eq_of_parts a b h = ground arith

pub ruleset int_laws = (arith, +ℤ_parts, -ℤ_parts, eq_of_parts)

pub sub_add : (a b : ℤ) → (a -ℤ b) +ℤ b ≡ a
sub_add a b =
    let p = +ℤ_parts (a -ℤ b) b in
    let q = -ℤ_parts a b in eq_of_parts ((a -ℤ b) +ℤ b) a (omega arith)

pub add_sub : (a b : ℤ) → (a +ℤ b) -ℤ b ≡ a
add_sub a b =
    let p = +ℤ_parts a b in
    let q = -ℤ_parts (a +ℤ b) b in eq_of_parts ((a +ℤ b) -ℤ b) a (omega arith)

-- What one summand loses the other gains.
pub move_right : (a b q : ℤ) → (a -ℤ q) +ℤ (b +ℤ q) ≡ a +ℤ b
move_right a b q =
    let u = -ℤ_parts a q in
    let v = +ℤ_parts b q in
    let w = +ℤ_parts (a -ℤ q) (b +ℤ q) in
    let x = +ℤ_parts a b in eq_of_parts ((a -ℤ q) +ℤ (b +ℤ q)) (a +ℤ b) (omega arith)

pub move_left : (a b q : ℤ) → (a +ℤ q) +ℤ (b -ℤ q) ≡ a +ℤ b
move_left a b q =
    let u = +ℤ_parts a q in
    let v = -ℤ_parts b q in
    let w = +ℤ_parts (a +ℤ q) (b -ℤ q) in
    let x = +ℤ_parts a b in eq_of_parts ((a +ℤ q) +ℤ (b -ℤ q)) (a +ℤ b) (omega arith)
