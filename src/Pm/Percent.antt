-- ===== src/Pm/Percent.antt =====
-- `Math.floor((used / limit) * 100)` of pm/budget.ts in double precision: a result that is not
-- exact is the nearest number of 53 bits, ties to even.
pub mod Rounding
use Prim.Native.Nat.{◌^◌}
use urateam.Prelude.{ℕ, zero, suc, ◌+◌, ◌*◌, ◌/◌, ◌%◌, ltb, ◌==◌, if◌then◌else◌}

-- The whole number nearest to `a / b`.
unfoldable pub round_div : ℕ → ℕ → ℕ
round_div a b =
    let q = a / b in
    let twice = 2 * (a % b) in
    if ltb twice b then q else if ltb b twice then q + 1 else if q % 2 == 0 then q else q + 1

-- The shift that brings `used / limit` to 53 bits.
unfoldable pub shift_from : (fuel used limit e : ℕ) → ℕ
shift_from zero used limit e = e
shift_from (suc fuel) used limit e =
    let more = shift_from fuel used limit (suc e) in
    if ltb (used * 2 ^ e) (limit * 2 ^ 52) then more else e

-- Two numbers below `2 ^ 53` are at most 105 bits apart.
unfoldable pub shift : (used limit : ℕ) → ℕ
unfolding shift_from
shift used limit = shift_from 106 used limit 0

-- The bits of `used / limit`, to be divided by `2 ^ e`.
unfoldable pub quotient_bits : (used limit e : ℕ) → ℕ
unfolding round_div
quotient_bits used limit e = round_div (used * 2 ^ e) limit

-- A product by 100 has six or seven bits more.
unfoldable pub times_100 : ℕ → ℕ
unfolding round_div
times_100 m =
    if ltb (m * 100) (2 ^ 59) then round_div (m * 100) 64 * 64 else round_div (m * 100) 128 * 128

-- Counts of tokens are whole numbers below `2 ^ 53`, which doubles hold exactly.
unfoldable pub percent : (used limit : ℕ) → ℕ
percent zero limit = 0
percent used zero = 0
percent (suc used) (suc limit) =
    let e = shift (suc used) (suc limit) in
    times_100 (quotient_bits (suc used) (suc limit) e) / 2 ^ e
