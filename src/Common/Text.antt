-- ===== src/Common/Text.antt =====
-- Unsigned decimal numbers as printf("%u") writes them and scanf("%u") reads them, on strings of
-- bytes without their terminator. A number of at most 32 bits has at most ten digits. scanf skips
-- white space, takes a sign, holds the value in an unsigned long of 64 bits, and stores it cut to
-- the width asked for.
pub mod Long
use Prim.Native.Nat.{ℕ, zero, suc, ◌+◌, ◌-◌, ◌*◌, ◌/◌, ◌%◌, ◌^◌, ◌<◌, ◌≤◌}
use mathlib.Core.Path.{◌≡◌, refl, sym, ap, ◌∙◌}
use mathlib.Core.Logic.{inl, inr}
use mathlib.Core.Bool.{Bool, true, false, ◌&&◌, ◌||◌}
use mathlib.Core.Option.{Option, none, some}
use mathlib.Core.List.{List, [], ◌∷◌, ◌++◌, append_assoc, append-nil}
use native.Mathlib.Omega.{arith}
use native.Mathlib.Nat.{pow-suc, mod-eq_of_lt, mod-lt}
use zejf_meteo.Common.Lists.{length}
use zejf_meteo.Common.Optional.{some_pair}
use zejf_meteo.Common.Tests.{ltb, leb, ◌==◌, if◌then◌else◌, Bool-cases, ltb→lt}

unfoldable pub digits : ℕ → ℕ → List ℕ
digits zero v = []
digits (suc k) v = if ltb v 10 then (48 + v) ∷ [] else digits k (v / 10) ++ ((48 + v % 10) ∷ [])

unfoldable pub decimal : ℕ → List ℕ
decimal v = digits 10 v

abbrev is_digit : ℕ → Bool
is_digit b = leb 48 b && ltb b 58

abbrev is_space : ℕ → Bool
is_space b = (b == 32) || (leb 9 b && ltb b 14)

abbrev starts_with_digit : List ℕ → Bool
starts_with_digit [] = false
starts_with_digit (b ∷ bs) = is_digit b

unfoldable skip_space : List ℕ → List ℕ
skip_space [] = []
skip_space (b ∷ bs) = if is_space b then skip_space bs else b ∷ bs

-- Whether a minus sign was there, and what follows the sign.
unfoldable take_sign : List ℕ → Bool × List ℕ
take_sign [] = (false, [])
take_sign (b ∷ bs) =
    if b == 45 then (true, bs) else if b == 43 then (false, bs) else (false, b ∷ bs)

unfoldable read_digits : ℕ → List ℕ → ℕ × List ℕ
read_digits v [] = (v, [])
read_digits v (b ∷ bs) = if is_digit b then read_digits (10 * v + (b - 48)) bs else (v, b ∷ bs)

abbrev pub ulong_mod : ℕ
ulong_mod = 18446744073709551616

-- strtoul: out of range gives ULONG_MAX, a minus sign negates.
unfoldable to_ulong : Bool → ℕ → ℕ
to_ulong negative v =
    if leb ulong_mod v then ulong_mod - 1 else if negative then (ulong_mod - v) % ulong_mod else v

unfoldable pub scan_unsigned : (modulus : ℕ) → List ℕ → Option (ℕ × List ℕ)
unfolding skip_space take_sign read_digits to_ulong
scan_unsigned modulus input =
    let (negative, rest) = take_sign (skip_space input) in
    if starts_with_digit rest
    then (let (v, left) = read_digits 0 rest in some (to_ulong negative v % modulus, left))
    else none

-- A character of the format other than white space.
unfoldable pub scan_char : ℕ → List ℕ → Option (List ℕ)
scan_char c [] = none
scan_char c (b ∷ bs) = if b == c then some bs else none

is_digit_lem : (d : ℕ) → d < 10 → is_digit (48 + d) ≡ true
is_digit_lem d h = ground arith

read_digits-digits :
    (k v : ℕ) (rest : List ℕ) → v < 10 ^ k → read_digits 0 (digits k v ++ rest) ≡ read_digits v rest
unfolding digits read_digits
read_digits-digits zero v rest h = ap (λ n. read_digits n rest) (omega arith)
read_digits-digits (suc k) v rest h = elim (Bool-cases (ltb v 10)) [
  | inl e ↦
      let d = is_digit_lem v (ltb→lt v 10 e) in
      rw (e, d) (ap (λ n. read_digits n rest) (omega arith))
  | inr e ↦
      let below : v < 10 ^ k * 10 = rw (← pow-suc 10 k) h in
      let d = is_digit_lem (v % 10) (omega arith) in
      rw
        (
          e,
          append_assoc (digits k (v / 10)) ((48 + v % 10) ∷ []) rest,
          read_digits-digits k (v / 10) ((48 + v % 10) ∷ rest) (omega arith),
          d,
        )
        (ap (λ n. read_digits n rest) (omega arith))
]

digits-starts_with_digit :
    (k v : ℕ) (rest : List ℕ) → starts_with_digit (digits (suc k) v ++ rest) ≡ true
unfolding digits
digits-starts_with_digit zero v rest = elim (Bool-cases (ltb v 10)) [
  | inl e ↦ rw e (is_digit_lem v (ltb→lt v 10 e))
  | inr e ↦ rw e (is_digit_lem (v % 10) (omega arith))
]
digits-starts_with_digit (suc k) v rest = elim (Bool-cases (ltb v 10)) [
  | inl e ↦ rw e (is_digit_lem v (ltb→lt v 10 e))
  | inr e ↦
      rw (e, append_assoc (digits (suc k) (v / 10)) ((48 + v % 10) ∷ []) rest)
        (digits-starts_with_digit k (v / 10) ((48 + v % 10) ∷ rest))
]

skip_space_lem : (s : List ℕ) → starts_with_digit s ≡ true → skip_space s ≡ s
unfolding skip_space
skip_space_lem [] h = refl
skip_space_lem (b ∷ bs) h = let e : is_space b ≡ false = ground arith in rw e refl

take_sign_lem : (s : List ℕ) → starts_with_digit s ≡ true → take_sign s ≡ (false, s)
unfolding take_sign
take_sign_lem [] h = refl
take_sign_lem (b ∷ bs) h =
    let e : (b == 45) ≡ false = ground arith in
    let e' : (b == 43) ≡ false = ground arith in rw (e, e') refl

-- A decimal number before a character that is no digit reads back.
pub scan_unsigned-decimal :
    (modulus v b : ℕ) (rest : List ℕ)
    → v < modulus
    → modulus < 10 ^ 10
    → is_digit b ≡ false
    → scan_unsigned modulus (decimal v ++ (b ∷ rest)) ≡ some (v, b ∷ rest)
unfolding scan_unsigned decimal to_ulong read_digits
scan_unsigned-decimal modulus v b rest h m n =
    let s = digits-starts_with_digit 9 v (b ∷ rest) in
    let cut : v % modulus ≡ v = mod-eq_of_lt h in
    let big : leb ulong_mod v ≡ false = ground arith in
    let text : List ℕ = digits 10 v ++ (b ∷ rest) in
    rw
      (
        skip_space_lem text s,
        take_sign_lem text s,
        s,
        read_digits-digits 10 v (b ∷ rest) (omega arith),
        n,
        big,
        cut,
      )
      refl

-- Scanning goes forward, and what it stores fits.
length-skip_space : (s : List ℕ) → length (skip_space s) ≤ length s
unfolding skip_space
length-skip_space [] = omega arith
length-skip_space (b ∷ bs) = ground (arith, length-skip_space bs)

length-take_sign : (s : List ℕ) → length (take_sign s).1 ≤ length s
unfolding take_sign
length-take_sign [] = omega arith
length-take_sign (b ∷ bs) = ground arith

length-read_digits : (v : ℕ) (s : List ℕ) → length (read_digits v s).1 ≤ length s
unfolding read_digits
length-read_digits v [] = omega arith
length-read_digits v (b ∷ bs) = ground (arith, length-read_digits (10 * v + (b - 48)) bs)

pub scan_unsigned-some :
    (modulus v : ℕ) (s left : List ℕ)
    → 0 < modulus
    → scan_unsigned modulus s ≡ some (v, left)
    → (v < modulus) × (length left ≤ length s)
unfolding scan_unsigned
scan_unsigned-some modulus v s left h e =
    let r : Bool × List ℕ = take_sign (skip_space s) in
    elim (Bool-cases (starts_with_digit r.1)) [
      | inl d ↦
          let both = some_pair (rw d at e) in
          (
            rw (sym both.0) (mod-lt (to_ulong r.0 (read_digits 0 r.1).0) h),
            omega (
              arith,
              ap length both.1,
              length-read_digits 0 r.1,
              length-take_sign (skip_space s),
              length-skip_space s,
            ),
          )
      | inr d ↦ let no = rw d at e in cc
    ]

pub scan_char-some : (c : ℕ) (s left : List ℕ) → scan_char c s ≡ some left → length left < length s
unfolding scan_char
scan_char-some c [] left e = cc
scan_char-some c (b ∷ bs) left e = ground (arith, e)

-- How a decimal number at the end of the string is taken apart.
record Scanned (v : ℕ) (text : List ℕ) : Type 0 where
  no_space : skip_space text ≡ text
  no_sign : take_sign text ≡ (false, text)
  starts : starts_with_digit text ≡ true
  read : read_digits 0 text ≡ (v, [])

decimal-Scanned : (v : ℕ) → v < 10 ^ 10 → Scanned v (decimal v)
unfolding decimal read_digits
decimal-Scanned v h =
    let text : List ℕ = digits 10 v in
    let s : starts_with_digit text ≡ true =
      ap starts_with_digit (sym (append-nil text)) ∙ digits-starts_with_digit 9 v [] in
    record {
      no_space = skip_space_lem text s;
      no_sign = take_sign_lem text s;
      starts = s;
      read = ap (read_digits 0) (sym (append-nil text)) ∙ read_digits-digits 10 v [] h;
    }

-- So does one at the end of the string.
pub scan_unsigned-decimal_end :
    (modulus v : ℕ)
    → v < modulus
    → modulus < 10 ^ 10
    → scan_unsigned modulus (decimal v) ≡ some (v, [])
unfolding scan_unsigned to_ulong
scan_unsigned-decimal_end modulus v h m =
    let text : List ℕ = decimal v in
    let s = decimal-Scanned v (omega arith) in
    let cut = mod-eq_of_lt h in
    let big : leb ulong_mod v ≡ false = ground arith in
    rw (s.no_space, s.no_sign, s.starts, s.read, big, cut) refl
