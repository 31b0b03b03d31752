-- ===== src/Device.antt =====
-- The state of a device, and what needs the hours and the network: `data_log` of
-- core/api/zejf_api/src/zejf_data.c, and the requests of data_request.c.
pub mod Sample
pub mod Requests
pub mod RequestText
pub mod HourKept
pub mod ReadBack
pub mod Valid
mod Examples
use zejf_meteo.Common.{
  ℕ, zero, suc, ◌+◌, ◌-◌, ◌%◌, ◌==◌, Bool, true, false, not, ◌&&◌, ◌||◌, Option, none, some, List,
  [], ◌∷◌, ◌++◌, leb, ltb, if◌then◌else◌, length, get_elem?, set, is_some,
}
use zejf_meteo.Common.Bytes.{u16_mod, u32_mod}
use zejf_meteo.Defs.{
  ZejfErr, ok, err_generic, err_null, err_invalid_sample_rate, err_log_number, err_value,
  err_request_already_exists, is_ok, Settings, VariableInfo, value_empty, value_not_measured,
}
use zejf_meteo.Hour.{Variable, DataHour, hour_add_variable, get_variable}
use zejf_meteo.Network.{Platform, Network}
use zejf_meteo.Network.Tx.{allocate_packet_queue}
use zejf_meteo.Store.{Store, datahour_get, data_get_val, hour_at, flag_modified}
use zejf_meteo.Info.{Floats, network_announce_log, network_broadcast_log, data_send_log}

pub record DataRequest : Type 0 where
  pub variable : VariableInfo
  pub target_device : ℕ
  pub hour_number : ℕ
  pub start_log : ℕ
  pub end_log : ℕ
  pub current_log : ℕ
  pub errors : ℕ

-- `requests` from the tail, the oldest, to the head.
pub record Device (E : Type 0) : Type 0 where
  pub network : Network E
  pub hours : List DataHour
  pub requests : List DataRequest

abbrev pub priority_high : ℕ
priority_high = 2

abbrev is_no_value : ℕ → Bool
is_no_value x = (x == value_empty) || (x == value_not_measured)

-- The sample `k` of the first variable with the id, overwritten.
unfoldable pub set_sample : List Variable → (id k value : ℕ) → List Variable
set_sample [] id k value = []
set_sample (v ∷ vs) id k value =
    if v.variable_info.id == id
    then record v { samples = set v.samples k value } ∷ vs
    else v ∷ set_sample vs id k value

-- The sample of a variable that is there. 0 stands for what is read out of bounds.
unfoldable pub sample_of : Variable → ℕ → ℕ
sample_of v k = elim (get_elem? v.samples k) [ none ↦ 0 | some x ↦ x ]

-- Once the variable is there.
unfoldable pub write_sample :
    Option Variable → DataHour → VariableInfo → (k value : ℕ) → ZejfErr × DataHour
unfolding set_sample sample_of
write_sample none hour info k value = (err_null, hour)
write_sample (some v) hour info k value =
    if not (v.variable_info.samples_per_hour == info.samples_per_hour)
    then (err_invalid_sample_rate, hour)
    else if leb v.variable_info.samples_per_hour k
    then (err_log_number, hour)
    else if not (is_no_value (sample_of v k)) && is_no_value value
    then (err_value, hour)
    else (ok, record hour { variables = set_sample hour.variables info.id k value })

-- The variable is added where the hour does not have it.
unfoldable pub log_into : Settings → DataHour → VariableInfo → (k value : ℕ) → ZejfErr × DataHour
unfolding write_sample
log_into c hour info k value = elim (get_variable hour.variables info.id) [
  | some v ↦ write_sample (some v) hour info k value
  | none ↦
      let (rv, hour') = hour_add_variable c hour info in
      if not (is_ok rv)
      then (rv, hour')
      else write_sample (get_variable hour'.variables info.id) hour' info k value
]

unfoldable pub same_request : (to : ℕ) → VariableInfo → (hour_number : ℕ) → DataRequest → Bool
same_request to info hour_number r =
    (r.target_device == to) && ((r.hour_number == hour_number) && (r.variable.id == info.id))

unfoldable pub request_already_exists :
    (to : ℕ) → VariableInfo → (hour_number : ℕ) → List DataRequest → Bool
unfolding same_request
request_already_exists to info hour_number [] = false
request_already_exists to info hour_number (r ∷ rs) =
    same_request to info hour_number r || request_already_exists to info hour_number rs

unfoldable pub data_request_add :
    {E : Type 0}
    → Settings
    → (to : ℕ) → VariableInfo
    → (hour_number start_log end_log : ℕ) → Device E
    → ZejfErr × Device E
data_request_add c to info hour_number start_log end_log d =
    if request_already_exists to info hour_number d.requests
    then (err_request_already_exists, d)
    else if length d.requests == c.data_request_queue_size
    then (err_generic, d)
    else (
      ok,
      record d {
        requests =
            d.requests
            ++ (record {
              variable = info;
              target_device = to;
              hour_number = hour_number;
              start_log = start_log;
              end_log = end_log;
              current_log = start_log;
              errors = 0;
            }
                ∷ []);
      },
    )

unfoldable pub request_finished : DataRequest → Bool
request_finished r = ltb r.end_log r.current_log

module _ {E : Type 0} (platform : Platform E) (c : Settings) (floats : Floats) where
  -- The hours of a device with the world outside, and back.
  abbrev pub store_of : Device E → Store E
  store_of d = record { hours = d.hours; outside = d.network.outside }

  abbrev pub with_store : Device E → Store E → Device E
  with_store d s = record d { hours = s.hours; network = record d.network { outside = s.outside } }

  -- What follows the write: the sample is sent to who wants it, and the hour is marked.
  unfoldable pub data_logged :
      (place : ℕ)
      → DataHour
      → VariableInfo
      → (hour_number k value : ℕ) → ℕ
      → (announce : Bool) → Device E
      → Device E
  data_logged place hour info hour_number k value time announce d =
      let n =
        if announce
        then (network_announce_log platform c floats info hour_number k value time d.network).1
        else d.network in
      let n' = (network_broadcast_log platform c floats info hour_number k value time n).1 in
      record d { network = n'; hours = set d.hours place (record hour { flags = flag_modified }) }

  unfoldable pub data_log :
      VariableInfo
      → (hour_number k value : ℕ) → ℕ
      → (announce : Bool) → Device E
      → ZejfErr × Device E
  unfolding log_into data_logged
  data_log info hour_number k value time announce d =
      let (place, s) = datahour_get platform c hour_number true true (store_of d) in
      let d' = with_store d s in
      elim place [
        | none ↦ (err_null, d')
        | some i ↦ elim (get_elem? s.hours i) [
          | none ↦ (err_null, d')
          | some hour ↦
              let (rv, hour') = log_into c hour info k value in
              if not (is_ok rv)
              then (rv, record d' { hours = set d'.hours i hour' })
              else (ok, data_logged i hour' info hour_number k value time announce d')
        ]
      ]

  -- One sample of the request at the tail: read, and sent if it was read.
  unfoldable pub answer : DataRequest → ℕ → Device E → Bool × Device E
  answer r time d =
      let ((rv, val), s) =
        data_get_val platform c r.variable r.hour_number r.current_log true false (store_of d) in
      let d' = with_store d s in
      if not (is_ok rv)
      then (false, d')
      else (let (rv', n) =
            data_send_log platform c floats r.target_device r.variable r.hour_number r.current_log
              val time d'.network in
          (is_ok rv', record d' { network = n }))

  -- A round for each slot. `request_count` stops the loop after the second request that is done.
  unfoldable pub requests_loop :
      (remaining_slots : ℕ) → (request_count : ℕ) → ℕ → Device E → Device E
  unfolding request_finished answer
  requests_loop zero request_count time d = d
  requests_loop (suc remaining_slots) request_count time d = elim d.requests [
    | [] ↦ d
    | r ∷ rs ↦
        if request_finished r || ltb 50 r.errors
        then (let d' : Device E = record d { requests = rs } in
            if (request_count + 1) == 3
            then d'
            else requests_loop remaining_slots (request_count + 1) time d')
        else (let (success, d') = answer r time d in
            if not success
            then record d' { requests = record r { errors = (r.errors + 1) % u16_mod } ∷ rs }
            else requests_loop remaining_slots request_count time (record d' {
              requests = record r { current_log = (r.current_log + 1) % u32_mod } ∷ rs;
            }))
  ]

  unfoldable pub data_requests_process : ℕ → Device E → Device E
  unfolding requests_loop
  data_requests_process time d =
      requests_loop (allocate_packet_queue c priority_high d.network) 1 time d
