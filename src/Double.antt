-- ===== src/Double.antt =====
-- JavaScript numbers with a whole value of any size: IEEE 754 doubles with 53 bits, which
-- `Number(bigint)` and every sum of numbers are rounded to.
use vinyl.Common.{
  ℕ, zero, suc, ◌*◌, ◌/◌, ◌%◌, ◌^◌, ◌≤◌, ◌≡◌, arith, ltb, leb, ◌==◌, ◌&&◌, ◌||◌, if◌then◌else◌,
}

-- The number of low bits of a number that a double has no room for. The fuel bounds it.
lost_bits : ℕ → ℕ → ℕ
lost_bits zero n = 0
lost_bits (suc fuel) n = let rest = lost_bits fuel (n / 2) in if ltb n (2 ^ 53) then 0 else suc rest

-- The nearest multiple of `unit`; halfway between two of them, the even one.
abbrev round_to : ℕ → ℕ → ℕ
round_to unit n =
    let down = n / unit in
    let left = n % unit in
    if ltb (2 * left) unit || ((2 * left == unit) && (down % 2 == 0))
    then down * unit
    else suc down * unit

-- The double nearest to a whole number below 2 ^ 1023, the numbers that 970 lost bits suffice for.
unfoldable pub to_double : ℕ → ℕ
unfolding lost_bits
to_double n = if leb n (2 ^ 53) then n else round_to (2 ^ lost_bits 970 n) n

-- Up to 2 ^ 53 every whole number is a double.
pub to_double-exact : (n : ℕ) → n ≤ 2 ^ 53 → to_double n ≡ n
unfolding to_double
to_double-exact n h = ground arith
