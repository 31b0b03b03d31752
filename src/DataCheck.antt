-- ===== src/DataCheck.antt =====
-- The comparison of two devices' counts of samples: core/api/zejf_api/src/data_check.c. The place in
-- the hour that double arithmetic gives is a parameter.
pub mod Count
pub mod Receive
pub mod Rounds
pub mod Valid
pub mod RunValid
mod Examples
use zejf_meteo.Common.{
  ℕ, zero, suc, ◌+◌, ◌-◌, ◌%◌, ◌==◌, Bool, true, false, not, ◌&&◌, ◌||◌, Option, none, some, List,
  [], ◌∷◌, ltb, leb, if◌then◌else◌, set,
}
use zejf_meteo.Common.Bytes.{u32_mod, sub32}
use zejf_meteo.Defs.{
  ZejfErr, ok, err_generic, err_null, err_invalid_sample_rate, is_ok, Settings, VariableInfo,
  value_empty, value_not_measured,
}
use zejf_meteo.Hour.{Variable, DataHour, get_variable}
use zejf_meteo.Protocol.{Packet, message_bytes}
use zejf_meteo.Routing.{RoutingEntry}
use zejf_meteo.Network.{Platform, network_prepare_packet, network_send_packet}
use zejf_meteo.Store.{datahour_get, hour_at}
use zejf_meteo.Info.{print_message, demands}
use zejf_meteo.Device.{Device, store_of, with_store, data_request_add}
use zejf_meteo.Device.RequestText.{request_text, scan_request}

abbrev pub data_check_command : ℕ
data_check_command = 8

-- Samples that may still be under way when the current hour is checked.
abbrev pub data_check_delay : ℕ
data_check_delay = 2

unfoldable pub is_provided : List VariableInfo → (id : ℕ) → Bool
is_provided [] id = false
is_provided (v ∷ vs) id = (v.id == id) || is_provided vs id

-- One sample: the count, and the sample as it is then.
unfoldable pub check_sample : (is_prov : Bool) → (val values : ℕ) → ℕ × ℕ
check_sample is_prov val values =
    if not (val == value_empty)
    then ((values + 1) % u32_mod, val)
    else if is_prov
    then ((values + 1) % u32_mod, value_not_measured)
    else (values, val)

-- The loop from sample `log` on, with the count so far; the samples as it leaves them.
unfoldable pub check_samples :
    (is_prov : Bool) → (log_num samples_per_hour : ℕ) → (log values : ℕ) → List ℕ → ℕ × List ℕ
unfolding check_sample
check_samples is_prov log_num samples_per_hour log values [] = (values, [])
check_samples is_prov log_num samples_per_hour log values (val ∷ later) =
    let (values', val') = check_sample is_prov val values in
    let (total, later') = check_samples is_prov log_num samples_per_hour (log + 1) values' later in
    if ltb log_num log || leb samples_per_hour log
    then (values, val ∷ later)
    else (total, val' ∷ later')

-- The samples of the first variable with the id, replaced.
unfoldable pub set_samples : List Variable → (id : ℕ) → List ℕ → List Variable
set_samples [] id samples = []
set_samples (v ∷ vs) id samples =
    if v.variable_info.id == id
    then record v { samples = samples } ∷ vs
    else v ∷ set_samples vs id samples

-- `calculate_data_check` once the hour is there. The result is 0, as the callers set it, where the code
-- does not store one.
unfoldable pub check_hour :
    (is_prov : Bool) → VariableInfo → (log_num : ℕ) → DataHour → (ZejfErr × ℕ) × DataHour
unfolding check_samples set_samples
check_hour is_prov info log_num hour = elim (get_variable hour.variables info.id) [
  | none ↦ ((err_null, 0), hour)
  | some v ↦
      if not (info.samples_per_hour == v.variable_info.samples_per_hour)
      then ((err_invalid_sample_rate, 0), hour)
      else (let (values, samples) =
            check_samples is_prov log_num info.samples_per_hour 0 0 v.samples in
          ((ok, values), record hour { variables = set_samples hour.variables info.id samples }))
]

-- What a check received makes of this device's count.
unfoldable pub compare_counts :
    {E : Type 0}
    → Settings
    → (from : ℕ) → VariableInfo
    → (hour_num log_num our_check_number check_number : ℕ) → Device E
    → ZejfErr × Device E
compare_counts c from info hour_num log_num our_check_number check_number d =
    if ltb check_number our_check_number
    then data_request_add c from info hour_num 0 log_num d
    else (ok, d)

-- A variable of an entry, with the last sample to check, where it is to be checked.
unfoldable pub check_up_to :
    (log_at : (millis samples_per_hour : ℕ) → ℕ)
    → (demanded : List ℕ) → (current_hour_num current_millis_in_hour : ℕ) → (hour_num : ℕ)
    → VariableInfo
    → Option ℕ
check_up_to log_at demanded current_hour_num current_millis_in_hour hour_num info =
    let current_log_num = log_at current_millis_in_hour info.samples_per_hour in
    if (hour_num == current_hour_num) && ltb current_log_num data_check_delay
    then none
    else if not (demands demanded info.id)
    then none
    else if hour_num == current_hour_num
    then some (current_log_num - data_check_delay)
    else some (sub32 info.samples_per_hour 1)

module _ {E : Type 0} (platform : Platform E) (c : Settings) where
  unfoldable pub calculate_data_check :
      VariableInfo → (hour_num log_num : ℕ) → Device E → (ZejfErr × ℕ) × Device E
  unfolding is_provided check_hour
  calculate_data_check info hour_num log_num d =
      let (place, s) =
        datahour_get platform c hour_num true false
          (record { hours = d.hours; outside = d.network.outside }) in
      let d' : Device E = record d {
        hours = s.hours;
        network = record d.network { outside = s.outside };
      } in
      let is_prov = is_provided (platform.get_provided_variables s.outside) info.id in
      elim place [
        | none ↦ ((err_null, 0), d')
        | some i ↦ elim (hour_at (some i) s.hours) [
          | none ↦ ((err_null, 0), d')
          | some hour ↦
              let (result, hour') = check_hour is_prov info log_num hour in
              (result, record d' { hours = set s.hours i hour' })
        ]
      ]

  unfoldable pub data_check_send :
      (to : ℕ) → VariableInfo → (hour_num log_num : ℕ) → ℕ → Device E → ZejfErr × Device E
  unfolding calculate_data_check
  data_check_send to info hour_num log_num time d =
      let ((rv, check_number), d') = calculate_data_check info hour_num log_num d in
      if check_number == info.samples_per_hour
      then (ok, d')
      else if not (is_ok rv)
      then (rv, d')
      else (let (rv', n) =
            network_send_packet platform c
              (network_prepare_packet c to data_check_command
                (some (print_message c (request_text info hour_num log_num check_number))))
              time d'.network in
          (rv', record d' { network = n }))

  -- The text is that of a request, with the count in the place of its last sample.
  unfoldable pub data_check_receive : Packet → Device E → ZejfErr × Device E
  unfolding calculate_data_check compare_counts
  data_check_receive p d = elim (scan_request (message_bytes p.message)) [
    | none ↦ (err_generic, d)
    | some (info, hour_num, log_num, check_number) ↦
        let ((rv, our_check_number), d') = calculate_data_check info hour_num log_num d in
        if not (is_ok rv)
        then (rv, d')
        else compare_counts c p.from info hour_num log_num our_check_number check_number d'
  ]

  -- The loops of `run_data_check`. The flag says that it goes on. Checks are no RIP packets, so the
  -- table stays as it is.
  unfoldable pub variables_loop :
      (up_to : VariableInfo → Option ℕ)
      → (device_id hour_num : ℕ) → ℕ
      → List VariableInfo
      → Device E
      → Bool × Device E
  unfolding data_check_send
  variables_loop up_to device_id hour_num time [] d = (true, d)
  variables_loop up_to device_id hour_num time (info ∷ infos) d = elim (up_to info) [
    | none ↦ variables_loop up_to device_id hour_num time infos d
    | some log_num ↦
        let (rv, d') = data_check_send device_id info hour_num log_num time d in
        let rest = variables_loop up_to device_id hour_num time infos d' in
        if not (is_ok rv) then (false, d') else rest
  ]

  unfoldable pub entries_loop :
      (up_to : VariableInfo → Option ℕ)
      → (hour_num : ℕ) → ℕ
      → List RoutingEntry
      → Device E
      → Bool × Device E
  unfolding variables_loop
  entries_loop up_to hour_num time [] d = (true, d)
  entries_loop up_to hour_num time (e ∷ es) d =
      let (go_on, d') = variables_loop up_to e.device_id hour_num time e.provided_variables d in
      let rest = entries_loop up_to hour_num time es d' in if go_on then rest else (false, d')

  unfoldable pub hours_loop :
      (up_to : ℕ → VariableInfo → Option ℕ)
      → (rounds : ℕ) → (stop hour_num : ℕ) → ℕ
      → Device E
      → Device E
  unfolding entries_loop
  hours_loop up_to zero stop hour_num time d = d
  hours_loop up_to (suc rounds) stop hour_num time d =
      let (go_on, d') = entries_loop (up_to hour_num) hour_num time d.network.routing.table d in
      let rest = hours_loop up_to rounds stop (sub32 hour_num 1) time d' in
      if not (ltb stop hour_num) then d else if go_on then rest else d'

  -- A round for each of the hours, at most five days of them.
  unfoldable pub run_data_check :
      (log_at : (millis samples_per_hour : ℕ) → ℕ)
      → (current_hour_num current_millis_in_hour hours : ℕ) → ℕ
      → Device E
      → Device E
  unfolding hours_loop check_up_to
  run_data_check log_at current_hour_num current_millis_in_hour hours time d =
      let hours' = if ltb 120 hours then 120 else hours in
      let demanded = platform.get_demanded_variables d.network.outside in
      hours_loop (check_up_to log_at demanded current_hour_num current_millis_in_hour) hours'
        (sub32 current_hour_num hours') current_hour_num time d
