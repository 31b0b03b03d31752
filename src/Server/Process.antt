-- ===== src/Server/Process.antt =====
-- What the server defines for the library, and its threads: core/devices/ZejfMeteo/src/serial.c. The
-- system calls are parameters: writing to a handle, and the clock, whose hour is that of the same
-- moment. The threads hold zejf_lock, so their turns do not overlap.
pub mod Turns
use zejf_meteo.Common.{
  ℕ, zero, suc, ◌+◌, ◌-◌, ◌/◌, ◌%◌, ◌==◌, Bool, true, false, not, ◌&&◌, ◌||◌, Option, none, some,
  List, [], ◌∷◌, ◌++◌, leb, if◌then◌else◌, take,
}
use zejf_meteo.Common.Bytes.{u32_mod}
use zejf_meteo.Common.Text.{decimal}
use zejf_meteo.Defs.{
  ZejfErr, ok, err_io, err_null, err_send_unable, Settings, VariableInfo, all_variables,
}
use zejf_meteo.Protocol.{Packet}
use zejf_meteo.Routing.{Interface, routing_table_check}
use zejf_meteo.Network.{
  Platform, network_prepare_packet, network_send_packet, network_send_routing_info,
}
use zejf_meteo.Info.{Floats, network_send_demand_info}
use zejf_meteo.Device.{Device, data_requests_process}
use zejf_meteo.DataCheck.{run_data_check}
use zejf_meteo.Api.{
  on_network, network_has_packets, data_requests_ready, network_process_packets, save_all,
}
use zejf_meteo.Server.{newline_char}

abbrev pub usb : ℕ
usb = 1

abbrev pub tcp : ℕ
tcp = 2

abbrev pub time_check : ℕ
time_check = 9

abbrev pub time_request_command : ℕ
time_request_command = 11

-- The calls of the system, over its state: write, the clock in milliseconds, and the hour files.
pub record System (W : Type 0) : Type 0 where
  pub write : (handle : ℕ) → List ℕ → W → Bool × W
  pub current_millis : W → ℕ
  pub hour_load : ℕ → W → (ZejfErr × List ℕ) × W
  pub hour_save : ℕ → List ℕ → W → ZejfErr × W

-- The world of the server: the system, the array of interfaces, and what they are.
pub record World (W : Type 0) : Type 0 where
  pub system : W
  pub all_interfaces : List ℕ
  pub interfaces : ℕ → Interface

-- The line that snprintf makes of a message in 128 characters.
unfoldable pub wire : Settings → List ℕ → List ℕ
wire c msg = take (c.packet_max_length - 1) (msg ++ (newline_char ∷ []))

module _ {W : Type 0} (system : System W) (c : Settings) where
  unfoldable pub write_line : (handle : ℕ) → List ℕ → World W → ZejfErr × World W
  unfolding wire
  write_line handle msg w =
      let (written, s) = system.write handle (wire c msg) w.system in
      (if written then ok else err_io, record w { system = s })

  -- Of a USB interface without a port the handle is that of the standard input. The code does not look
  -- for NULL; here a message without an interface is refused.
  unfoldable pub network_send_via :
      List ℕ → (interface : Option ℕ) → ℕ → World W → ZejfErr × World W
  unfolding write_line
  network_send_via msg none time w = (err_null, w)
  network_send_via msg (some i) time w =
      let interface = w.interfaces i in
      if (interface.kind == usb) && (interface.handle == 0)
      then (ok, w)
      else if (interface.kind == usb) || (interface.kind == tcp)
      then write_line interface.handle msg w
      else (err_send_unable, w)

  -- The server provides nothing and wants everything.
  unfoldable pub get_provided_variables : World W → List VariableInfo
  get_provided_variables w = []

  unfoldable pub get_demanded_variables : World W → List ℕ
  get_demanded_variables w = all_variables ∷ []

  unfoldable pub platform : Platform (World W)
  unfolding network_send_via get_provided_variables get_demanded_variables
  platform = record {
    network_send_via = network_send_via;
    get_all_interfaces = λ w. w.all_interfaces;
    get_provided_variables = get_provided_variables;
    get_demanded_variables = get_demanded_variables;
    hour_load = λ hour w.
        let (result, s) = system.hour_load hour w.system in (result, record w { system = s });
    hour_save = λ hour buffer w.
        let (rv, s) = system.hour_save hour buffer w.system in (rv, record w { system = s });
  }

  -- The time as the library takes it, cut to 32 bits.
  unfoldable pub now : Device (World W) → ℕ
  now d = system.current_millis d.network.outside.system % u32_mod

  -- The clock in seconds, in 31 characters at most.
  unfoldable pub time_request : (to : ℕ) → Device (World W) → Bool × Device (World W)
  unfolding now
  time_request to d =
      let seconds = system.current_millis d.network.outside.system / 1000 in
      let p = network_prepare_packet c to time_check (some (take 31 (decimal seconds))) in
      let (rv, n) = network_send_packet platform c p (now d) d.network in
      ((elim rv [ ok ↦ true | _ ↦ false ]), record d { network = n })

  -- Other packets are only printed.
  unfoldable pub network_process_packet : Packet → Device (World W) → Device (World W)
  unfolding time_request
  network_process_packet p d =
      if p.command == time_request_command then (time_request p.from d).1 else d

  module _ (floats : Floats) (log_at : ℕ → ℕ → ℕ) where
    unfoldable pub check_hours : (hours millis : ℕ) → Device (World W) → Device (World W)
    check_hours hours millis d =
        run_data_check platform c log_at ((millis / 3600000) % u32_mod) (millis % 3600000) hours
          (millis % u32_mod) d

    -- The first of the four parts of a round of `run_timer`.
    unfoldable pub every_ten : (millis : ℕ) → Device (World W) → Device (World W)
    every_ten millis d =
        let time = millis % u32_mod in
        let d' = on_network (network_send_routing_info platform c time) d in
        let d'' : Device (World W) = record d' {
          network = record d'.network { routing = routing_table_check c time d'.network.routing };
        } in
        on_network (network_send_demand_info platform c time) d''

    -- A round of `run_timer`, at the time of its start.
    unfoldable pub run_timer : (count : ℕ) → Device (World W) → Device (World W)
    unfolding every_ten check_hours
    run_timer count d =
        let millis = system.current_millis d.network.outside.system in
        let d1 = if (count % 10) == 0 then every_ten millis d else d in
        let d2 = if leb 5 count && (((count - 5) % 30) == 0) then save_all platform c d1 else d1 in
        let d3 = if (count % 1800) == 0 then check_hours 1 millis d2 else d2 in
        if ((count % 21600) == 0) || ((count == 30) || (count == 120))
        then check_hours 36 millis d3
        else d3

    -- The inner loop of `packet_sender_start`, in which `counter` counts the rounds up to 10000.
    unfoldable pub sender_loop : (rounds : ℕ) → (millis : ℕ) → Device (World W) → Device (World W)
    sender_loop zero millis d = d
    sender_loop (suc rounds) millis d =
        let time = millis % u32_mod in
        let d' = network_process_packets platform c floats network_process_packet time d in
        let d'' =
          if network_has_packets d'.network
          then d'
          else data_requests_process platform c floats time d' in
        let rest = sender_loop rounds millis d'' in
        if network_has_packets d.network || data_requests_ready d then rest else d

    unfoldable pub packet_sender_start : Device (World W) → Device (World W)
    packet_sender_start d = sender_loop 10000 (system.current_millis d.network.outside.system) d
