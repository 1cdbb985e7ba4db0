-- ===== src/Prelude/Decimal.antt =====
-- The decimal text of a number, as `fmt.Sprintf("%d", n)` writes it, and the idempotency keys
-- `<prefix>-<order>-<event>` that the services format with it.
use msa_saga_go_practical.Prelude.Tests.{ltb, if◌then◌else◌}
use msa_saga_go_practical.Prelude.Int.{ℤ, pos, negsuc}
use msa_saga_go_practical.Prelude.Text.{Text}
use Prim.Native.Nat.{ℕ, zero, suc, ◌+◌, ◌-◌, ◌*◌, ◌/◌, ◌%◌, ◌≤◌, ◌<◌}
use mathlib.Core.Path.{◌≡◌, refl, sym, ap, ◌∙◌}
use mathlib.Core.Logic.{◌≢◌}
use mathlib.Core.List.{[], ◌∷◌, ◌++◌}
use native.Mathlib.Omega.{arith}

digits_from : ℕ → ℕ → Text
digits_from zero n = []
digits_from (suc f) n =
    let rest = digits_from f (n / 10) in
    if ltb n 10 then (48 + n) ∷ [] else rest ++ ((48 + n % 10) ∷ [])

unfoldable pub decimal : ℕ → Text
unfolding digits_from
decimal n = digits_from (suc n) n

unfoldable pub decimal_ℤ : ℤ → Text
unfolding decimal
decimal_ℤ (pos n) = decimal n
decimal_ℤ (negsuc n) = b'-' ∷ decimal (suc n)

-- Reading a decimal text back.
value : ℕ → Text → ℕ
value acc [] = acc
value acc (d ∷ ds) = value (acc * 10 + (d - 48)) ds

value-append : (acc : ℕ) (xs ys : Text) → value acc (xs ++ ys) ≡ value (value acc xs) ys
unfolding value
value-append acc [] ys = refl
value-append acc (d ∷ ds) ys = value-append (acc * 10 + (d - 48)) ds ys

value-digits_from : (f n : ℕ) → n < f → value 0 (digits_from f n) ≡ n
unfolding digits_from value
value-digits_from zero n h = elim h [ ]
value-digits_from (suc f) n h = ground (
  arith,
  value-digits_from f (n / 10),
  value-append 0 (digits_from f (n / 10)) ((48 + n % 10) ∷ []),
)

value-decimal : (n : ℕ) → value 0 (decimal n) ≡ n
unfolding decimal
value-decimal n = value-digits_from (suc n) n (omega arith)

pub decimal-injective : (m n : ℕ) → decimal m ≡ decimal n → m ≡ n
decimal-injective m n h = sym (value-decimal m) ∙ ap (value 0) h ∙ value-decimal n

-- Digits only.
abbrev IsDigits : Text → Type 0
IsDigits [] = Unit
IsDigits (d ∷ ds) = (48 ≤ d) × IsDigits ds

IsDigits-append : (xs ys : Text) → IsDigits xs → IsDigits ys → IsDigits (xs ++ ys)
IsDigits-append [] ys h k = k
IsDigits-append (x ∷ xs) ys h k = (h.0, IsDigits-append xs ys h.1 k)

digits_from-IsDigits : (f n : ℕ) → IsDigits (digits_from f n)
unfolding digits_from
digits_from-IsDigits zero n = tt
digits_from-IsDigits (suc f) n = ground (
  arith,
  IsDigits-append (digits_from f (n / 10)) ((48 + n % 10) ∷ []) (digits_from-IsDigits f (n / 10))
      (omega arith, tt),
)

decimal-IsDigits : (n : ℕ) → IsDigits (decimal n)
unfolding decimal
decimal-IsDigits n = digits_from-IsDigits (suc n) n

-- The first dash after the digits splits a text in one way.
split_at_dash :
    (xs ys s t : Text)
    → IsDigits xs
    → IsDigits ys
    → xs ++ b'-' ∷ s ≡ ys ++ b'-' ∷ t
    → (xs ≡ ys) × (s ≡ t)
split_at_dash [] [] s t hx hy e = ground arith
split_at_dash [] (y ∷ ys) s t hx hy e = ground arith
split_at_dash (x ∷ xs) [] s t hx hy e = ground arith
split_at_dash (x ∷ xs) (y ∷ ys) s t hx hy e = ground (arith, split_at_dash xs ys s t hx.1 hy.1)

-- `fmt.Sprintf("%d-%s", order, event)`
unfoldable pub dashed : ℤ → Text → Text
unfolding decimal_ℤ
dashed order event = decimal_ℤ order ++ b'-' ∷ event

dashed_nat :
    (m n : ℕ) (s t : Text) → decimal m ++ b'-' ∷ s ≡ decimal n ++ b'-' ∷ t → (m ≡ n) × (s ≡ t)
dashed_nat m n s t e =
    let (p, q) =
      split_at_dash (decimal m) (decimal n) s t (decimal-IsDigits m) (decimal-IsDigits n) e in
    (decimal-injective m n p, q)

not_dash : (xs s t : Text) → IsDigits xs → xs ≢ [] → xs ++ s ≢ b'-' ∷ t
not_dash [] s t h ne e = absurd (ne refl)
not_dash (x ∷ xs) s t h ne e = ground arith

cons-cases : (xs : Text) (d : ℕ) → (e : ℕ) × (ys : Text) × (xs ++ d ∷ [] ≡ e ∷ ys)
cons-cases [] d = (d, [], refl)
cons-cases (x ∷ xs) d = (x, xs ++ d ∷ [], refl)

decimal-ne-nil : (n : ℕ) → decimal n ≢ []
unfolding decimal digits_from
decimal-ne-nil n e = ground (arith, (cons-cases (digits_from n (n / 10)) (48 + n % 10)).2)

not_dashed : (m n : ℕ) (s t : Text) → decimal m ++ b'-' ∷ s ≢ b'-' ∷ (decimal n ++ b'-' ∷ t)
not_dashed m n s t =
    not_dash (decimal m) (b'-' ∷ s) (decimal n ++ b'-' ∷ t) (decimal-IsDigits m) (decimal-ne-nil m)

-- The pair can be read back from the text.
pub dashed-injective : (m n : ℤ) (s t : Text) → dashed m s ≡ dashed n t → (m ≡ n) × (s ≡ t)
unfolding dashed decimal_ℤ
dashed-injective (pos m) (pos n) s t e = ground (arith, dashed_nat m n s t e)
dashed-injective (negsuc m) (negsuc n) s t e = ground (arith, dashed_nat (suc m) (suc n) s t)
dashed-injective (pos m) (negsuc n) s t e = absurd (not_dashed m (suc n) s t e)
dashed-injective (negsuc m) (pos n) s t e = absurd (not_dashed n (suc m) t s (sym e))
