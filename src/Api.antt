-- ===== src/Api.antt =====
-- The entry points of a device that involve all parts: the packets addressed to it
-- (core/api/zejf_api/src/zejf_network.c), the samples and lists of variables that they carry
-- (data_info.c, zejf_data.c), start and stop (zejf_api.c), and removed interfaces (zejf_routing.c). What
-- the target platform does with other packets, `network_process_packet`, is a parameter.
pub mod Valid
pub mod Received
pub mod Removed
pub mod LogText
pub mod Travel
pub mod Steps
mod Examples
use zejf_meteo.Common.{
  ℕ, ◌+◌, ◌%◌, ◌==◌, Bool, true, false, not, ◌||◌, Option, none, some, List, [], ◌∷◌, ◌++◌, ltb,
  if◌then◌else◌, length,
}
use zejf_meteo.Common.Bytes.{u16_mod, u32_mod}
use zejf_meteo.Common.Optional.{◌>>=◌}
use zejf_meteo.Common.Text.{decimal, scan_unsigned, scan_char}
use zejf_meteo.Defs.{ZejfErr, ok, err_generic, err_null, err_queue_full, Settings, VariableInfo}
use zejf_meteo.Hour.{Variable}
use zejf_meteo.Protocol.{Packet, message_bytes}
use zejf_meteo.Routing.{Interface, Routing, routing_init, drop_interface}
use zejf_meteo.Network.{
  Platform, Network, network_init, network_prepare_packet, network_send_packet,
}
use zejf_meteo.Network.Tx.{allocate_packet_queue, network_send_tx}
use zejf_meteo.Network.Removed.{Sweep, network_interface_removed}
use zejf_meteo.Store.{Store, datahour_get, hour_at, data_save}
use zejf_meteo.Info.{
  Floats, comma, print_message, priority_medium, data_provide, data_demand, data_log_command,
  process_data_demand, process_data_provide, process_data_subscribe,
}
use zejf_meteo.Device.{Device, data_log}
use zejf_meteo.Device.RequestText.{data_request_command, data_request_receive}
use zejf_meteo.DataCheck.{data_check_command, data_check_receive}

abbrev pub variables_request : ℕ
variables_request = 13

abbrev pub variable_info : ℕ
variable_info = 14

abbrev pub data_subscribe : ℕ
data_subscribe = 17

-- Variable, rate, hour, sample and value with commas between them.
unfoldable pub scan_log : Floats → List ℕ → Option (VariableInfo × ℕ × ℕ × ℕ)
scan_log floats text = do
  (id, rest) ← scan_unsigned u16_mod text
  rest ← scan_char comma rest
  (rate, rest) ← scan_unsigned u32_mod rest
  rest ← scan_char comma rest
  (hour_number, rest) ← scan_unsigned u32_mod rest
  rest ← scan_char comma rest
  (sample_num, rest) ← scan_unsigned u32_mod rest
  rest ← scan_char comma rest
  (val, rest) ← floats.scan_float rest
  some (record { samples_per_hour = rate; id = id }, hour_number, sample_num, val)

unfoldable pub variable_text : VariableInfo → (hour_number : ℕ) → List ℕ
variable_text info hour_number =
    decimal info.id ++ (comma ∷ (decimal info.samples_per_hour ++ (comma ∷ decimal hour_number)))

unfoldable pub network_has_packets : {E : Type 0} → Network E → Bool
network_has_packets n = not (length n.rx_queue == 0) || not (length n.tx_queue == 0)

unfoldable pub data_requests_ready : {E : Type 0} → Device E → Bool
data_requests_ready d = not (length d.requests == 0)

-- Allocations succeed, so all four parts do.
unfoldable pub zejf_init : {E : Type 0} → (ℕ → Interface) → E → ZejfErr × Device E
unfolding network_init routing_init
zejf_init interfaces outside = (
  ok,
  record { network = network_init (routing_init interfaces) outside; hours = []; requests = [] },
)

-- The table, and then the queue.
unfoldable pub interface_removed : {E : Type 0} → (interface : ℕ) → Network E → Sweep E
unfolding drop_interface network_interface_removed
interface_removed interface n =
    network_interface_removed interface (record n { routing = drop_interface interface n.routing })

-- What only concerns the network.
unfoldable pub on_network : {E : Type 0} → (Network E → ZejfErr × Network E) → Device E → Device E
on_network change d = record d { network = (change d.network).1 }

module _ {E : Type 0} (platform : Platform E) (c : Settings) where
  -- The loop of `variables_request_process`, which ignores what sending returns.
  unfoldable pub send_variables :
      (device_id hour_number : ℕ) → ℕ → List Variable → Network E → Network E
  unfolding variable_text
  send_variables device_id hour_number time [] n = n
  send_variables device_id hour_number time (v ∷ vs) n =
      let (_, n') =
        network_send_packet platform c
          (network_prepare_packet c device_id variable_info
            (some (print_message c (variable_text v.variable_info hour_number))))
          time n in
      send_variables device_id hour_number time vs n'

  unfoldable pub variables_request_process :
      (device_id hour_number : ℕ) → ℕ → Device E → ZejfErr × Device E
  unfolding send_variables
  variables_request_process device_id hour_number time d =
      let (place, s) =
        datahour_get platform c hour_number true false
          (record { hours = d.hours; outside = d.network.outside }) in
      let d' : Device E = record d {
        hours = s.hours;
        network = record d.network { outside = s.outside };
      } in
      elim (hour_at place s.hours) [
        | none ↦ (err_null, d')
        | some hour ↦
            if ltb (allocate_packet_queue c priority_medium d'.network) (length hour.variables)
            then (err_queue_full, d')
            else (
              ok,
              record d' {
                network = send_variables device_id hour_number time hour.variables d'.network;
              },
            )
      ]

  unfoldable pub variables_request_receive : Packet → ℕ → Device E → ZejfErr × Device E
  unfolding variables_request_process
  variables_request_receive p time d = elim (scan_unsigned u32_mod (message_bytes p.message)) [
    | none ↦ (err_generic, d)
    | some (hour_number, rest) ↦ variables_request_process p.from hour_number time d
  ]

  -- The writing of all hours that have changed.
  unfoldable pub save_all : Device E → Device E
  save_all d =
      let s = data_save platform c (record { hours = d.hours; outside = d.network.outside }) in
      record d { hours = s.hours; network = record d.network { outside = s.outside } }

  -- What is left is the world outside.
  unfoldable pub zejf_destroy : Device E → E
  unfolding save_all
  zejf_destroy d = (save_all d).network.outside

module _ {E : Type 0} (platform : Platform E) (c : Settings) (floats : Floats) where
  unfoldable pub process_data_log : Packet → ℕ → Device E → ZejfErr × Device E
  unfolding scan_log
  process_data_log p time d = elim p.message [
    | none ↦ (err_null, d)
    | some m ↦ elim (scan_log floats m) [
      | none ↦ (err_generic, d)
      | some (info, hour_number, sample_num, val) ↦
          data_log platform c floats info hour_number sample_num val time false d
    ]
  ]

  -- Whether the library handles the packet.
  unfoldable pub network_catch_packet : Packet → ℕ → Device E → Bool × Device E
  unfolding on_network process_data_log variables_request_receive
  network_catch_packet p time d =
      if p.command == data_demand
      then (true, on_network (process_data_demand p) d)
      else if p.command == data_provide
      then (true, on_network (process_data_provide p) d)
      else if p.command == data_log_command
      then (true, (process_data_log p time d).1)
      else if p.command == data_request_command
      then (true, (data_request_receive c p d).1)
      else if p.command == data_check_command
      then (true, (data_check_receive platform c p d).1)
      else if p.command == variables_request
      then (true, (variables_request_receive platform c p time d).1)
      else if p.command == data_subscribe
      then (true, on_network (process_data_subscribe p) d)
      else (false, d)

  module _ (network_process_packet : Packet → Device E → Device E) where
    unfoldable pub network_process_rx : ℕ → Device E → Device E
    unfolding network_catch_packet
    network_process_rx time d = elim d.network.rx_queue [
      | [] ↦ d
      | p ∷ ps ↦
          let d' : Device E = record d { network = record d.network { rx_queue = ps } } in
          let (caught, d'') = network_catch_packet p time d' in
          if caught then d'' else network_process_packet p d''
    ]

    unfoldable pub network_process_packets : ℕ → Device E → Device E
    unfolding network_process_rx
    network_process_packets time d =
        let d' = network_process_rx time d in
        record d' { network = network_send_tx platform c time d'.network }
