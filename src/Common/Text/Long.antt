-- ===== src/Common/Text/Long.antt =====
-- strtol in base 10, as `parse_int` of core/devices/ZejfMeteo/src/zejf_meteo.c uses it. A long of 64 bits
-- is its pattern, a number below 2 ^ 64.
use zejf_meteo.Common.{
  ℕ, ◌-◌, ◌%◌, ◌^◌, ◌<◌, ◌≡◌, refl, arith, Bool, false, Option, none, some, List, ltb, leb,
  if◌then◌else◌,
}
use zejf_meteo.Common.Text.{
  ulong_mod, starts_with_digit, skip_space, take_sign, read_digits, decimal, decimal-Scanned,
}

abbrev pub long_limit : ℕ
long_limit = 9223372036854775808

-- What strtol makes of the digits, none where it sets errno.
unfoldable to_long : Bool → ℕ → Option ℕ
to_long negative v =
    if negative
    then if ltb long_limit v then none else some ((ulong_mod - v) % ulong_mod)
    else if leb long_limit v
    then none
    else some v

-- Without a digit nothing is taken, which is an error too. What follows the digits is left.
unfoldable pub scan_long : List ℕ → Option ℕ
unfolding skip_space take_sign read_digits to_long
scan_long text =
    let (negative, rest) = take_sign (skip_space text) in
    if starts_with_digit rest then to_long negative (read_digits 0 rest).0 else none

abbrev pub is_negative : ℕ → Bool
is_negative v = leb long_limit v

pub scan_long-decimal : (v : ℕ) → v < 10 ^ 10 → scan_long (decimal v) ≡ some v
unfolding scan_long to_long
scan_long-decimal v h =
    let s = decimal-Scanned v h in
    let big : leb long_limit v ≡ false = ground arith in
    rw (s.no_space, s.no_sign, s.starts, s.read, big) refl
