-- ===== src/Prelude/Bits.antt =====
-- The bitwise operations on numbers, from their digits: exclusive or is commutative and
-- associative, and a mask that is even leaves an even number.
use Prim.Native.Nat.{
  ℕ, zero, suc, ◌+◌, ◌-◌, ◌*◌, ◌/◌, ◌%◌, ◌≤◌, bit_and, bit_xor, digits, differ, bit_and-bitwise,
  bit_xor-bitwise,
}
use mathlib.Core.Path.{◌≡◌, refl, ◌∙◌}
use mathlib.Core.Logic.{◌≢◌}
use native.Mathlib.Omega.{arith}

-- A round more than the number needs, or any number of them, changes no digit.
one_more :
    (last : ℕ → ℕ) (digit : ℕ → ℕ → ℕ) (rounds x y : ℕ)
    → x ≤ rounds
    → digits last digit (suc rounds) x y ≡ digits last digit rounds x y
one_more last digit zero zero y enough = refl
one_more last digit (suc rounds) zero y enough = refl
one_more last digit (suc rounds) (suc x) y enough =
    let halved = one_more last digit rounds (suc x / 2) (y / 2) (omega arith) in
    omega (arith, halved)
one_more last digit zero (suc x) y enough = absurd (omega arith)

spare_rounds :
    (last : ℕ → ℕ) (digit : ℕ → ℕ → ℕ) (spare rounds total x y : ℕ)
    → rounds + spare ≡ total
    → x ≤ rounds
    → digits last digit total x y ≡ digits last digit rounds x y
spare_rounds last digit zero rounds total x y sum enough =
    let same : total ≡ rounds = omega arith in rw same refl
spare_rounds last digit (suc spare) rounds total x y sum enough =
    spare_rounds last digit spare (suc rounds) total x y (omega arith) (omega arith)
    ∙ one_more last digit rounds x y enough

differ_mod : (a b : ℕ) → differ (a % 2) (b % 2) ≡ (a + b) % 2
differ_mod a b = omega (arith, low (a % 2) (b % 2) (omega arith) (omega arith))
  where
    low : (x y : ℕ) → x ≤ 1 → y ≤ 1 → differ x y ≡ (x + y) % 2
    low zero y h k = omega arith
    low (suc zero) zero h k = refl
    low (suc zero) (suc zero) h k = refl
    low (suc zero) (suc (suc y)) h k = absurd (omega arith)
    low (suc (suc x)) y h k = absurd (omega arith)

zero-bit_xor : (b : ℕ) → bit_xor 0 b ≡ b
zero-bit_xor b = bit_xor-bitwise 0 b

bit_xor_step : (a b : ℕ) → bit_xor a b ≡ bit_xor (a / 2) (b / 2) * 2 + (a + b) % 2
bit_xor_step zero b = omega (arith, zero-bit_xor b, zero-bit_xor (b / 2))
bit_xor_step (suc a) b = omega (
  arith,
  bit_xor-bitwise (suc a) b,
  bit_xor-bitwise (suc a / 2) (b / 2),
  differ_mod (suc a) b,
  spare_rounds (λ b. b) differ (a - suc a / 2) (suc a / 2) a (suc a / 2) (b / 2) (omega arith)
      (omega arith),
)

bit_xor_comm_fuel : (n a b : ℕ) → a + b ≤ n → bit_xor a b ≡ bit_xor b a
bit_xor_comm_fuel n zero zero h = refl
bit_xor_comm_fuel zero a b h = omega (arith, bit_xor_step a b, bit_xor_step b a)
bit_xor_comm_fuel (suc n) a b h =
    omega
      (arith, bit_xor_step a b, bit_xor_step b a, bit_xor_comm_fuel n (a / 2) (b / 2) (omega arith))

pub bit_xor_comm : (a b : ℕ) → bit_xor a b ≡ bit_xor b a
bit_xor_comm a b = bit_xor_comm_fuel (a + b) a b (omega arith)

pub bit_xor-zero : (a : ℕ) → bit_xor a 0 ≡ a
bit_xor-zero a = omega (arith, bit_xor_comm a 0, zero-bit_xor a)

bit_xor_half : (a b : ℕ) → bit_xor a b / 2 ≡ bit_xor (a / 2) (b / 2)
bit_xor_half a b = omega (arith, bit_xor_step a b)

bit_xor_assoc_fuel :
    (n a b c : ℕ) → a + b + c ≤ n → bit_xor (bit_xor a b) c ≡ bit_xor a (bit_xor b c)
bit_xor_assoc_fuel n zero zero zero h = refl
bit_xor_assoc_fuel (suc n) a b c h =
    let halves : bit_xor (bit_xor a b / 2) (c / 2) ≡ bit_xor (a / 2) (bit_xor b c / 2) =
      rw (bit_xor_half a b, bit_xor_half b c)
        (bit_xor_assoc_fuel n (a / 2) (b / 2) (c / 2) (omega arith)) in
    omega (
      arith,
      bit_xor_step (bit_xor a b) c,
      bit_xor_step a (bit_xor b c),
      bit_xor_step a b,
      bit_xor_step b c,
      halves,
    )
bit_xor_assoc_fuel zero a b c h = absurd (omega arith)

pub bit_xor_assoc : (a b c : ℕ) → bit_xor (bit_xor a b) c ≡ bit_xor a (bit_xor b c)
bit_xor_assoc a b c = bit_xor_assoc_fuel (a + b + c) a b c (omega arith)

bit_and-even : (a b : ℕ) → bit_and a (2 * b) % 2 ≡ 0
bit_and-even zero b = omega (arith, bit_and-bitwise 0 (2 * b))
bit_and-even (suc a) b = omega (arith, bit_and-bitwise (suc a) (2 * b))

-- A bit above the lowest is never 1.
pub bit_and-mask_64 : (a : ℕ) → bit_and a 64 ≢ 1
bit_and-mask_64 a h = omega (arith, bit_and-even a 32)
