-- ===== src/Common/Double.antt =====
-- Python's floats between zero and one, as multiples of 2^-59: a literal of whole hundredths and a
-- difference are rounded to 53 bits, half to even, as IEEE 754 has it.
use sih.Common.{
  ℕ, ◌+◌, ◌-◌, ◌*◌, ◌/◌, ◌%◌, ◌^◌, ◌≡◌, refl, ◌&&◌, false, true, ltb, leb, ◌==◌, if◌then◌else◌,
}

-- `n / d` rounded to a whole number, half to even.
unfoldable pub nearest : ℕ → ℕ → ℕ
nearest n d =
    let q = n / d in
    let r = n % d in if ltb (2 * r) d then q else if (2 * r == d) && (q % 2 == 0) then q else q + 1

-- The bits of a number up to 2^59 that are beyond the first 53.
unfoldable pub spare_bits : ℕ → ℕ
spare_bits q =
    if ltb q (2 ^ 53)
    then 0
    else if ltb q (2 ^ 54)
    then 1
    else if ltb q (2 ^ 55)
    then 2
    else if ltb q (2 ^ 56)
    then 3
    else if ltb q (2 ^ 57)
    then 4
    else if ltb q (2 ^ 58)
    then 5
    else if ltb q (2 ^ 59)
    then 6
    else 7

-- `n / d` rounded to 53 bits.
unfoldable pub round_ratio : ℕ → ℕ → ℕ
round_ratio n d = let unit = 2 ^ spare_bits (n / d) in nearest n (d * unit) * unit

-- The float of `h` hundredths, for `h` up to 100.
unfoldable pub double : ℕ → ℕ
double h = round_ratio (h * 2 ^ 59) 100

-- `a - b`, where `b` is not the greater
unfoldable pub double_sub : ℕ → ℕ → ℕ
double_sub a b = round_ratio (a - b) 1

-- 0.1 is 0x1.999999999999ap-4.
double_tenth : double 10 ≡ 0x1999999999999a * 8
unfolding double round_ratio spare_bits nearest
double_tenth = refl

double_one : double 100 ≡ 2 ^ 59
unfolding double round_ratio spare_bits nearest
double_one = refl

-- 0.55 - 0.5 is greater than 0.05, and 0.95 - 0.9 is not.
double_sub_wide : leb (double_sub (double 55) (double 50)) (double 5) ≡ false
unfolding double double_sub round_ratio spare_bits nearest
double_sub_wide = refl

double_sub_narrow : leb (double_sub (double 95) (double 90)) (double 5) ≡ true
unfolding double double_sub round_ratio spare_bits nearest
double_sub_narrow = refl
