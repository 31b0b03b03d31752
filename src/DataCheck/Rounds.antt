-- ===== src/DataCheck/Rounds.antt =====
-- How far the loop of `run_data_check` of core/api/zejf_api/src/data_check.c goes.
use zejf_meteo.Common.{
  ℕ, zero, suc, ◌+◌, ◌-◌, ◌≤◌, ◌<◌, ◌≡◌, refl, sym, ap, false, Option, ltb, if◌then◌else◌, arith,
  inl, inr, Bool-cases,
}
use zejf_meteo.Common.Bytes.{u32_mod, sub32}
use zejf_meteo.Defs.{Settings, VariableInfo}
use zejf_meteo.Network.{Platform}
use zejf_meteo.Device.{Device}
use zejf_meteo.DataCheck.{entries_loop, hours_loop, check_up_to, run_data_check}

module _ {E : Type 0} (platform : Platform E) (c : Settings) where
  -- The loop ends at `stop`, so rounds beyond the distance change nothing.
  hours_loop-enough :
      (up_to : ℕ → VariableInfo → Option ℕ) (rounds k stop hour_num time : ℕ) (d : Device E)
      → hour_num < u32_mod
      → hour_num ≤ stop + rounds
      → hours_loop platform c up_to (rounds + k) stop hour_num time d
        ≡ hours_loop platform c up_to rounds stop hour_num time d
  unfolding hours_loop
  hours_loop-enough up_to zero zero stop hour_num time d small h = refl
  hours_loop-enough up_to zero (suc k) stop hour_num time d small h =
      let over : ltb stop hour_num ≡ false = ground arith in
      let left : 0 + suc k ≡ suc k = omega arith in rw (left, over) refl
  hours_loop-enough up_to (suc rounds) k stop hour_num time d small h =
      let left : suc rounds + k ≡ suc (rounds + k) = omega arith in
      elim (Bool-cases (ltb stop hour_num)) [
        | inl t ↦
            let next : sub32 hour_num 1 ≡ hour_num - 1 = ground arith in
            let (go_on, d') =
              entries_loop platform c (up_to hour_num) hour_num time d.network.routing.table d in
            rw (left, t, next)
              (ap (λ (r : Device E). if go_on then r else d')
                (hours_loop-enough up_to rounds k stop (hour_num - 1) time d' (omega arith)
                  (omega arith)))
        | inr t ↦ rw (left, t) refl
      ]

  -- The rounds that run_data_check is given, one for each hour it looks at and at most 120, are enough: any number of further rounds changes nothing, so its loop ends by its own condition.
  pub run_data_check-hours_loop :
      (log_at : ℕ → ℕ → ℕ) (k current_hour_num current_millis_in_hour hours time : ℕ) (d : Device E)
      → current_hour_num < u32_mod
      → let hours' = if ltb 120 hours then 120 else hours in
        run_data_check platform c log_at current_hour_num current_millis_in_hour hours time d
        ≡ hours_loop platform c
            (check_up_to log_at
              (platform.get_demanded_variables d.network.outside)
              current_hour_num
              current_millis_in_hour)
            (hours' + k)
            (sub32 current_hour_num hours')
            current_hour_num
            time
            d
  unfolding run_data_check
  run_data_check-hours_loop log_at k current_hour_num current_millis_in_hour hours time d small =
      let hours' = if ltb 120 hours then 120 else hours in
      sym (
        hours_loop-enough _ hours' k (sub32 current_hour_num hours') current_hour_num time d small
          (ground arith))
