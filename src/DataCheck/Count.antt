-- ===== src/DataCheck/Count.antt =====
-- What the loop of `calculate_data_check` of core/api/zejf_api/src/data_check.c counts and leaves behind.
use zejf_meteo.Common.{
  ℕ, zero, suc, ◌+◌, ◌-◌, ◌==◌, ◌≤◌, ◌<◌, ◌≡◌, refl, ap, Bool, true, false, ◌&&◌, some, List, [],
  ◌∷◌, ◌++◌, map, ltb, leb, if◌then◌else◌, length, take, drop, arith, inl, inr, Bool-cases,
}
use native.Mathlib.Nat.{mod-eq_of_lt}
use zejf_meteo.Common.Bytes.{u32_mod}
use zejf_meteo.Defs.{ok, VariableInfo, value_empty, value_not_measured}
use zejf_meteo.Hour.{Variable, DataHour, get_variable}
use zejf_meteo.DataCheck.{check_sample, check_samples, set_samples, check_hour}

-- A sample with a provided variable's gap filled in.
unfoldable pub mark : (is_prov : Bool) → ℕ → ℕ
mark is_prov val = if is_prov && (val == value_empty) then value_not_measured else val

-- How many samples are there.
unfoldable pub count_known : List ℕ → ℕ
count_known [] = 0
count_known (val ∷ vals) = (if val == value_empty then 0 else 1) + count_known vals

pub count_known-le : (xs : List ℕ) → count_known xs ≤ length xs
unfolding count_known
count_known-le [] = omega arith
count_known-le (x ∷ xs) = ground (arith, count_known-le xs)

check_sample_lem :
    (is_prov : Bool) (val values : ℕ)
    → values + 1 < u32_mod
    → check_sample is_prov val values
      ≡ (values + count_known (mark is_prov val ∷ []), mark is_prov val)
unfolding check_sample count_known mark
check_sample_lem true val values h = ground (arith, mod-eq_of_lt h)
check_sample_lem false val values h = ground (arith, mod-eq_of_lt h)

-- The count and the samples of the reference: the first `n` of them marked, the rest as they are.
unfoldable pub marked_count : (is_prov : Bool) → (n : ℕ) → List ℕ → ℕ × List ℕ
marked_count is_prov n xs =
    let front = map (mark is_prov) (take n xs) in (count_known front, front ++ drop n xs)

marked_count-zero : (is_prov : Bool) (xs : List ℕ) → marked_count is_prov 0 xs ≡ (0, xs)
unfolding marked_count count_known
marked_count-zero is_prov xs = refl

marked_count-suc :
    (is_prov : Bool) (n x : ℕ) (xs : List ℕ)
    → marked_count is_prov (suc n) (x ∷ xs) ≡ (
      count_known (mark is_prov x ∷ []) + (marked_count is_prov n xs).0,
      mark is_prov x ∷ (marked_count is_prov n xs).1,
    )
unfolding marked_count count_known
marked_count-suc is_prov n x xs =
    ap (λ k. (k, mark is_prov x ∷ (map (mark is_prov) (take n xs) ++ drop n xs))) (omega arith)

marked_count-nil : (is_prov : Bool) (n : ℕ) → marked_count is_prov n [] ≡ (0, [])
unfolding marked_count count_known
marked_count-nil is_prov zero = refl
marked_count-nil is_prov (suc n) = refl

-- Nothing is missing from a provided variable.
count_known-mark : (xs : List ℕ) → count_known (map (mark true) xs) ≡ length xs
unfolding count_known mark
count_known-mark [] = refl
count_known-mark (x ∷ xs) = ground (arith, count_known-mark xs)

length-take_if :
    (n : ℕ) (xs : List ℕ) → length (take n xs) ≡ (if ltb n (length xs) then n else length xs)
length-take_if zero [] = refl
length-take_if (suc n) [] = ground arith
length-take_if zero (x ∷ xs) = ground arith
length-take_if (suc n) (x ∷ xs) = ground (arith, length-take_if n xs)

loop-counts :
    (is_prov : Bool) (log_num rate log values : ℕ) (xs : List ℕ)
    → log + length xs ≡ rate
    → values + length xs < u32_mod
    → check_samples is_prov log_num rate log values xs ≡ (
      values + (marked_count is_prov (suc log_num - log) xs).0,
      (marked_count is_prov (suc log_num - log) xs).1,
    )
unfolding check_samples
loop-counts is_prov log_num rate log values [] e h =
    rw (marked_count-nil is_prov (suc log_num - log)) (ap (λ k. (k, [])) (omega arith))
loop-counts is_prov log_num rate log values (x ∷ xs) e h = elim (Bool-cases (ltb log_num log)) [
  | inl t ↦
      let none_left : suc log_num - log ≡ 0 = ground arith in
      rw (t, none_left, marked_count-zero is_prov (x ∷ xs)) (ap (λ k. (k, x ∷ xs)) (omega arith))
  | inr t ↦
      let more : suc log_num - log ≡ suc (suc log_num - (log + 1)) = ground arith in
      let in_rate : leb rate log ≡ false = ground arith in
      rw
        (
          t,
          in_rate,
          more,
          marked_count-suc is_prov (suc log_num - (log + 1)) x xs,
          check_sample_lem is_prov x values (omega arith),
        )
        (rw
          (loop-counts is_prov log_num rate (log + 1) (values + count_known (mark is_prov x ∷ []))
            xs (omega arith) (omega (arith, count_known-le (mark is_prov x ∷ []))))
          (ap (λ k. (k, mark is_prov x ∷ (marked_count is_prov (suc log_num - (log + 1)) xs).1))
            (omega arith)))
]

module _ (info : VariableInfo) (log_num : ℕ) (hour : DataHour) (v : Variable)
    (found : get_variable hour.variables info.id ≡ some v)
    (same : v.variable_info.samples_per_hour ≡ info.samples_per_hour)
    (full : length v.samples ≡ info.samples_per_hour) (fits : info.samples_per_hour < u32_mod) where
  -- For a variable of the hour at the rate asked for, with as many samples as its rate says, the loop of calculate_data_check is the reference: it counts, of the samples up to the number given, those that are not VALUE_EMPTY once the gaps of a provided variable are VALUE_NOT_MEASURED, and leaves the samples that way and the later ones as they were.
  pub check_hour-marked_count :
      (is_prov : Bool)
      → let (count, samples) = marked_count is_prov (suc log_num) v.samples in
        check_hour is_prov info log_num hour
        ≡ ((ok, count), record hour { variables = set_samples hour.variables info.id samples })
  unfolding check_hour
  check_hour-marked_count is_prov =
      let at_rate : (info.samples_per_hour == v.variable_info.samples_per_hour) ≡ true =
        ground arith in
      let whole : suc log_num - 0 ≡ suc log_num = omega arith in
      rw (found, check_hour)
        (rw
          (
            at_rate,
            loop-counts is_prov log_num info.samples_per_hour 0 0 v.samples (omega (arith, full))
                (omega (arith, full)),
            whole,
          )
          (ap
            (λ k. (
              (ok, k),
              record hour {
                variables =
                    set_samples hour.variables info.id
                      (marked_count is_prov (suc log_num) v.samples).1;
              },
            ))
            (omega arith)))

  -- For a provided variable the count is the number of samples up to the number given, or all samples of the hour where it has fewer, whatever was measured.
  pub check_hour-provided :
      (check_hour true info log_num hour).0
      ≡ (ok, (if ltb log_num info.samples_per_hour then log_num + 1 else info.samples_per_hour))
  unfolding marked_count
  check_hour-provided =
      rw
        (
          check_hour-marked_count true,
          count_known-mark (take (suc log_num) v.samples),
          length-take_if (suc log_num) v.samples,
          full,
        )
        (ap (λ k. (ok, k)) (ground arith))
