-- ===== src/Prelude/Double.antt =====
-- Python's `float` on the non-negative integers: a double has 53 significant bits, and a
-- conversion rounds to the nearest one, ties to even. Integers are kept as they are up to 2 ^ 53.
use Prim.Native.Nat.{ℕ, zero, suc, ◌+◌, ◌-◌, ◌*◌, ◌/◌, ◌%◌, ◌^◌, ◌<◌}
use mathlib.Core.Path.{◌≡◌, refl}
use cloudlink.Prelude.Tests.{if◌then◌else◌, ◌==◌, nat_eq, ltb, lt→ltb}

-- The number of bits of `n` beyond 53; 971 rounds cover every finite double.
excess_bits : ℕ → ℕ → ℕ
excess_bits zero n = 0
excess_bits (suc fuel) n =
    let rest = suc (excess_bits fuel (n / 2)) in if ltb n (2 ^ 53) then 0 else rest

-- `n` rounded to a multiple of `unit`, to an even one when it is half way.
round_to : ℕ → ℕ → ℕ
round_to unit n =
    let q = n / unit in
    let r = n % unit in
    if ltb (2 * r) unit
    then q * unit
    else if ltb unit (2 * r)
    then (q + 1) * unit
    else if q % 2 == 0
    then q * unit
    else (q + 1) * unit

unfoldable pub float : ℕ → ℕ
unfolding excess_bits round_to
float n = elim (excess_bits 971 n) [ zero ↦ n | suc k ↦ round_to (2 ^ suc k) n ]

-- `math.ceil(a / b)` of exact quotients.
abbrev pub ceil_div : ℕ → ℕ → ℕ
ceil_div a b = (a + b - 1) / b

-- `math.ceil(n * 0.2)`: the double nearest to 0.2 is 3602879701896397 / 2 ^ 54, and the product
-- is rounded to 53 bits.
unfoldable pub ceil_fifth : ℕ → ℕ
unfolding float
ceil_fifth n = ceil_div (float (float n * 3602879701896397)) (2 ^ 54)

-- `math.ceil(n * f / 2 ^ 30) * 2 ^ 30` for `f` the doubles 0.2 and 0.1: the division is exact.
unfoldable pub gib_fifth : ℕ → ℕ
unfolding float
gib_fifth n = ceil_div (float (float n * 3602879701896397)) (2 ^ 84) * 2 ^ 30

unfoldable pub gib_tenth : ℕ → ℕ
unfolding float
gib_tenth n = ceil_div (float (float n * 3602879701896397)) (2 ^ 85) * 2 ^ 30

excess_bits_small : (fuel n : ℕ) → n < 2 ^ 53 → excess_bits fuel n ≡ 0
unfolding excess_bits
excess_bits_small zero n h = refl
excess_bits_small (suc fuel) n h = rw (lt→ltb n (2 ^ 53) h)

-- A number of at most 53 bits is its own double.
pub float_exact : (n : ℕ) → n < 2 ^ 53 → float n ≡ n
float_exact n h = let e = excess_bits_small 971 n h in unfold float in rw (e, float)
