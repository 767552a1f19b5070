-- ===== src/Pm/Percent/Rounding.antt =====
-- How far the rounding of a percentage goes.
use Prim.Native.Nat.{◌^◌}
use native.Mathlib.Nat.{
  pow-le-pow_right, mul-le-mul_left, le-div_iff_mul-le, div-lt_iff_lt-mul, one-le-pow, pow-succ',
}
use urateam.Prelude.{
  ℕ, zero, suc, ◌+◌, ◌-◌, ◌*◌, ◌/◌, ◌%◌, ◌≤◌, ◌<◌, ◌≡◌, refl, ◌↔◌, ◌⊎◌, inl, inr, ltb, arith,
  Bool-cases, lt→ltb,
}
use urateam.Pm.Percent.{round_div, shift_from, shift, quotient_bits, times_100, percent}

round_div-cases :
    (a b : ℕ)
    → ((round_div a b ≡ a / b) × (2 * (a % b) ≤ b))
      ⊎ ((round_div a b ≡ a / b + 1) × (b ≤ 2 * (a % b)))
unfolding round_div
round_div-cases a b = ground arith

-- The nearest whole number is at most half a unit away.
round_div_near :
    (a b : ℕ)
    → 0 < b
    → (2 * (b * round_div a b) ≤ 2 * a + b) × (2 * a ≤ 2 * (b * round_div a b) + b)
round_div_near a b h = elim (round_div-cases a b) [
  | inl (e, r) ↦ rw e (omega arith)
  | inr (e, r) ↦ rw e (omega arith)
]

times_100_near : (m : ℕ) → (times_100 m ≤ m * 100 + 64) × (m * 100 ≤ times_100 m + 64)
unfolding times_100
times_100_near m =
    let (a, b) = round_div_near (m * 100) 64 (omega arith) in
    let (c, d) = round_div_near (m * 100) 128 (omega arith) in ground arith

-- Rounding keeps the order with a whole number.
round_div_ge : (a b c : ℕ) → 0 < b → b * c ≤ a → c ≤ round_div a b
round_div_ge a b c h le = elim (round_div-cases a b) [
  | inl (e, r) ↦ rw e (omega (arith, h, le, (le-div_iff_mul-le {k = b} {x = c} {y = a} h).1))
  | inr (e, r) ↦ rw e (omega (arith, h, le, (le-div_iff_mul-le {k = b} {x = c} {y = a} h).1))
]

round_div_le : (a b c : ℕ) → 0 < b → a ≤ b * c → round_div a b ≤ c
round_div_le a b c h le =
    let (near, _) = round_div_near a b h in
    let more : c < round_div a b → b * suc c ≤ b * round_div a b = mul-le-mul_left b in
    grind (arith, near, more, le, h)

times_100_ge : (m : ℕ) → 2 ^ 52 ≤ m → 100 * 2 ^ 52 ≤ times_100 m
unfolding times_100
times_100_ge m h =
    let six = round_div_ge (m * 100) 64 (100 * 2 ^ 46) (omega arith) (omega (arith, h)) in
    let seven = round_div_ge (m * 100) 128 (100 * 2 ^ 45) (omega arith) (omega (arith, h)) in
    ground arith

-- The shift ends with the bits that are wanted, or with the fuel.
shift-stop :
    (fuel used limit k : ℕ)
    → let e = shift_from fuel used limit k in (limit * 2 ^ 52 ≤ used * 2 ^ e) ⊎ (e ≡ k + fuel)
unfolding shift_from
shift-stop zero used limit k = inr (omega arith)
shift-stop (suc fuel) used limit k = ground (arith, shift-stop fuel used limit (suc k))

-- One step before the end there were fewer bits.
shift-before :
    (fuel used limit k : ℕ)
    → let e = shift_from fuel used limit k in (e ≡ k) ⊎ (used * 2 ^ e < 2 * (limit * 2 ^ 52))
unfolding shift_from
shift-before zero used limit k = inl refl
shift-before (suc fuel) used limit k = elim (Bool-cases (ltb (used * 2 ^ k) (limit * 2 ^ 52))) [
  | inr f ↦ rw f (inl refl)
  | inl t ↦ rw t (elim (shift-before fuel used limit (suc k)) [
    | inl e ↦ inr (rw e (rw (pow-succ' 2 k) (ground arith)))
    | inr h ↦ inr h
  ])
]

eq_or_lt : (k n : ℕ) → k ≤ n → (k ≡ n) ⊎ (suc k ≤ n)
eq_or_lt k n h = ground arith

shift-le : (fuel used limit k : ℕ) → limit ≤ used → k ≤ 52 → shift_from fuel used limit k ≤ 52
unfolding shift_from
shift-le zero used limit k h b = b
shift-le (suc fuel) used limit k h b = elim (Bool-cases (ltb (used * 2 ^ k) (limit * 2 ^ 52))) [
  | inr f ↦ rw f b
  | inl t ↦ rw t (elim (eq_or_lt k 52 b) [
    | inl e ↦ absurd (let t' = rw e at t in ground arith)
    | inr r ↦ shift-le fuel used limit (suc k) h r
  ])
]

shift-above : (fuel used limit k : ℕ) → k ≤ shift_from fuel used limit k
unfolding shift_from
shift-above zero used limit k = omega arith
shift-above (suc fuel) used limit k = ground (arith, shift-above fuel used limit (suc k))

shift-ge :
    (fuel used limit k : ℕ)
    → used < limit
    → k ≤ 53
    → 53 ≤ k + fuel
    → 53 ≤ shift_from fuel used limit k
unfolding shift_from
shift-ge zero used limit k h b f = omega (arith, b, f)
shift-ge (suc fuel) used limit k h b f = elim (eq_or_lt k 53 b) [
  | inl e ↦ rw e (shift-above (suc fuel) used limit 53)
  | inr r ↦
      let smaller : used * 2 ^ k ≤ used * 2 ^ 52 =
        mul-le-mul_left used
          (pow-le-pow_right {n = 2} (omega arith) {i = k} {j = 52} (omega (arith, r))) in
      rw (lt→ltb (used * 2 ^ k) (limit * 2 ^ 52) (omega (arith, smaller, h)))
        (shift-ge fuel used limit (suc k) h r (omega (arith, f)))
]

-- The shift ends in one of two ways.
record Ends (used limit e : ℕ) : Type 0 where
  stops : (limit * 2 ^ 52 ≤ used * 2 ^ e) ⊎ (e ≡ 106)
  before : (e ≡ 0) ⊎ (used * 2 ^ e < 2 * (limit * 2 ^ 52))
  at_most : limit ≤ used → e ≤ 52
  at_least : used < limit → 53 ≤ e

shift-Ends : (used limit : ℕ) → Ends used limit (shift used limit)
unfolding shift
shift-Ends used limit = record {
  stops = shift-stop 106 used limit 0;
  before = shift-before 106 used limit 0;
  at_most = λ h. shift-le 106 used limit 0 h (omega arith);
  at_least = λ h. shift-ge 106 used limit 0 h (omega arith) (omega arith);
}

-- At most 52 places, the bits of a quotient that is one at least stand for 100 percent.
bits-ge :
    (used limit e : ℕ)
    → 0 < limit
    → limit ≤ used
    → Ends used limit e
    → 100 * 2 ^ e ≤ times_100 (quotient_bits used limit e)
unfolding quotient_bits
bits-ge used limit e p h ends = elim (eq_or_lt e 52 (ends.at_most h)) [
  | inl at_52 ↦ rw at_52 (
      times_100_ge (round_div (used * 2 ^ 52) limit)
        (round_div_ge (used * 2 ^ 52) limit (2 ^ 52) p (omega (arith, h))))
  | inr below ↦
      let enough : limit * 2 ^ 52 ≤ used * 2 ^ e = ground (arith, ends.stops) in
      let m = times_100_ge _ (round_div_ge (used * 2 ^ e) limit (2 ^ 52) p enough) in
      let small : 2 ^ e ≤ 2 ^ 51 =
        pow-le-pow_right {n = 2} (omega arith) {i = e} {j = 51} (omega (arith, below)) in
      omega (arith, m, small)
]

bits-lt :
    (used limit e : ℕ)
    → used < limit
    → limit ≤ 2 ^ 53
    → Ends used limit e
    → times_100 (quotient_bits used limit e) < 100 * 2 ^ e
unfolding quotient_bits
bits-lt used limit e h b ends = elim (eq_or_lt 53 e (ends.at_least h)) [
  | inl at_53 ↦ rw (← at_53) (
      let m =
        round_div_le (used * 2 ^ 53) limit (2 ^ 53 - 1) (omega (arith, h)) (omega (arith, h, b)) in
      let (near, _) = times_100_near (round_div (used * 2 ^ 53) limit) in omega (arith, m, near))
  | inr above ↦
      let m =
        round_div_le (used * 2 ^ e) limit (2 ^ 53) (omega (arith, h))
          (ground (arith, ends.before, above)) in
      let (near, _) = times_100_near (round_div (used * 2 ^ e) limit) in
      let large : 2 ^ 54 ≤ 2 ^ e = pow-le-pow_right (omega arith) above in
      omega (arith, m, near, large)
]

-- As many tokens as the limit are 100 percent.
percent-ge : (used limit : ℕ) → 0 < limit → limit ≤ used → 100 ≤ percent used limit
unfolding percent
percent-ge zero limit p h = absurd (omega (arith, p, h))
percent-ge (suc used) zero p h = absurd (omega (arith, p))
percent-ge (suc used) (suc limit) p h =
    (le-div_iff_mul-le (one-le-pow (shift (suc used) (suc limit)) 2 (omega arith))).1
      (bits-ge (suc used) (suc limit) _ p h (shift-Ends _ _))

-- Fewer are less.
percent-lt : (used limit : ℕ) → used < limit → limit ≤ 2 ^ 53 → percent used limit < 100
unfolding percent
percent-lt zero limit h b = omega arith
percent-lt (suc used) zero h b = absurd (omega (arith, h))
percent-lt (suc used) (suc limit) h b =
    (div-lt_iff_lt-mul (one-le-pow (shift (suc used) (suc limit)) 2 (omega arith))).1
      (bits-lt (suc used) (suc limit) _ h b (shift-Ends _ _))

-- A scope is at 100 percent or more exactly when its limit is used up, in spite of the rounding.
pub percent_full_iff :
    (used limit : ℕ) → 0 < limit → limit ≤ 2 ^ 53 → (100 ≤ percent used limit) ↔ (limit ≤ used)
percent_full_iff used limit p b =
    (λ full. ground (arith, percent-lt used limit), λ spent. percent-ge used limit p spent)
