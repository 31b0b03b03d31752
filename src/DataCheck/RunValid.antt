-- ===== src/DataCheck/RunValid.antt =====
-- What holds of a whole device through `run_data_check` of core/api/zejf_api/src/data_check.c.
use zejf_meteo.Common.{
  ℕ, zero, suc, ◌<◌, not, Option, List, [], ◌∷◌, ltb, arith, inl, inr, Bool-cases, Option-cases,
}
use zejf_meteo.Common.Bytes.{u32_mod, sub32}
use zejf_meteo.Defs.{is_ok, Settings, VariableInfo}
use zejf_meteo.Routing.{RoutingEntry}
use zejf_meteo.Network.{Platform}
use zejf_meteo.Store.Bounds.{LoadsBytes}
use zejf_meteo.Device.{Device}
use zejf_meteo.Device.Valid.{DeviceValid}
use zejf_meteo.DataCheck.{data_check_send, variables_loop, entries_loop, hours_loop, run_data_check}
use zejf_meteo.DataCheck.Valid.{data_check_send-DeviceValid}

module _ {E : Type 0} (platform : Platform E) (c : Settings) (bytes : LoadsBytes platform) where
  variables_loop-DeviceValid :
      (up_to : VariableInfo → Option ℕ) (device_id hour_num time : ℕ) (infos : List VariableInfo)
      (d : Device E)
      → hour_num < u32_mod
      → DeviceValid c d
      → DeviceValid c (variables_loop platform c up_to device_id hour_num time infos d).1
  unfolding variables_loop
  variables_loop-DeviceValid up_to device_id hour_num time [] d small v = v
  variables_loop-DeviceValid up_to device_id hour_num time (info ∷ infos) d small v =
      elim (Option-cases (up_to info)) [
        | inl e ↦
            rw (e, variables_loop)
              (variables_loop-DeviceValid up_to device_id hour_num time infos d small v)
        | inr (log_num, e) ↦
            let (rv, d') = data_check_send platform c device_id info hour_num log_num time d in
            let v' =
              data_check_send-DeviceValid platform c bytes device_id info hour_num log_num time d
                small v in
            elim (Bool-cases (not (is_ok rv))) [
              | inl f ↦ rw (e, variables_loop, f) v'
              | inr f ↦
                  rw (e, variables_loop, f)
                    (variables_loop-DeviceValid up_to device_id hour_num time infos d' small v')
            ]
      ]

  entries_loop-DeviceValid :
      (up_to : VariableInfo → Option ℕ) (hour_num time : ℕ) (es : List RoutingEntry) (d : Device E)
      → hour_num < u32_mod
      → DeviceValid c d
      → DeviceValid c (entries_loop platform c up_to hour_num time es d).1
  unfolding entries_loop
  entries_loop-DeviceValid up_to hour_num time [] d small v = v
  entries_loop-DeviceValid up_to hour_num time (e ∷ es) d small v =
      let (go_on, d') =
        variables_loop platform c up_to e.device_id hour_num time e.provided_variables d in
      let v' =
        variables_loop-DeviceValid up_to e.device_id hour_num time e.provided_variables d small v in
      elim (Bool-cases go_on) [
        | inl f ↦ rw f (entries_loop-DeviceValid up_to hour_num time es d' small v')
        | inr f ↦ rw f v'
      ]

  hours_loop-DeviceValid :
      (up_to : ℕ → VariableInfo → Option ℕ) (rounds stop hour_num time : ℕ) (d : Device E)
      → hour_num < u32_mod
      → DeviceValid c d
      → DeviceValid c (hours_loop platform c up_to rounds stop hour_num time d)
  unfolding hours_loop
  hours_loop-DeviceValid up_to zero stop hour_num time d small v = v
  hours_loop-DeviceValid up_to (suc rounds) stop hour_num time d small v =
      let (go_on, d') =
        entries_loop platform c (up_to hour_num) hour_num time d.network.routing.table d in
      let v' =
        entries_loop-DeviceValid (up_to hour_num) hour_num time d.network.routing.table d small v in
      elim (Bool-cases (ltb stop hour_num)) [
        | inr t ↦ rw t v
        | inl t ↦ elim (Bool-cases go_on) [
          | inl f ↦
              rw (t, f)
                (hours_loop-DeviceValid up_to rounds stop (sub32 hour_num 1) time d' (omega arith)
                  v')
          | inr f ↦ rw (t, f) v'
        ]
      ]

  pub run_data_check-DeviceValid :
      (log_at : ℕ → ℕ → ℕ) (current_hour_num current_millis_in_hour hours time : ℕ) (d : Device E)
      → current_hour_num < u32_mod
      → DeviceValid c d
      → DeviceValid c
          (run_data_check platform c log_at current_hour_num current_millis_in_hour hours time d)
  unfolding run_data_check
  run_data_check-DeviceValid log_at current_hour_num current_millis_in_hour hours time d small v =
      hours_loop-DeviceValid _ _ _ current_hour_num time d small v
