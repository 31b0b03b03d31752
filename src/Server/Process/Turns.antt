-- ===== src/Server/Process/Turns.antt =====
-- The turns of the server's threads (core/devices/ZejfMeteo/src/serial.c and server.c) as steps of the
-- library.
use zejf_meteo.Common.{
  ℕ, zero, suc, ◌-◌, ◌/◌, ◌%◌, ◌==◌, ◌≡◌, Bool, true, false, ◌&&◌, ◌||◌, List, All, leb,
  if◌then◌else◌, arith, inl, inr, Bool-cases,
}
use zejf_meteo.Common.Bytes.{u32_mod, IsByte}
use zejf_meteo.Defs.{Settings}
use zejf_meteo.Routing.{Interface}
use zejf_meteo.Network.{Network, network_accept}
use zejf_meteo.Network.Removed.{done}
use zejf_meteo.Info.{Floats}
use zejf_meteo.Info.Valid.{network_send_packet-Kept}
use zejf_meteo.Device.{Device}
use zejf_meteo.Device.Valid.{DeviceValid}
use zejf_meteo.Api.{
  zejf_init, on_network, interface_removed, network_has_packets, data_requests_ready,
  network_process_packets,
}
use zejf_meteo.Api.Valid.{ScansWords, KeepsDevice, on_network-DeviceValid}
use zejf_meteo.Api.Steps.{
  Step, Reach, start, later, world_changes, interfaces_change, interface_goes, accept,
  send_routing_info, check_table, send_demand_info, process_packets, process_requests, check_data,
  save, Reach-DeviceValid,
}
use zejf_meteo.Server.Commands.{process_command}
use zejf_meteo.Server.Commands.Kept.{process_command-Answers}
use zejf_meteo.Server.Process.{
  System, World, platform, time_request, network_process_packet, time_request_command, every_ten,
  check_hours, run_timer, sender_loop, packet_sender_start,
}

module _ {W : Type 0} (system : System W) (c : Settings) (floats : Floats)
    (log_at : ℕ → ℕ → ℕ) where
  -- A turn of a thread, or something that happens to the world between two.
  pub data Turn (d : Device (World W)) : Device (World W) → Type 0 where
    timer : (count : ℕ) → Turn d (run_timer system c floats log_at count d)
    sender : Turn d (packet_sender_start system c floats log_at d)
    command :
        (cmd : List ℕ) (arguments : List (List ℕ))
        → Turn d (process_command system c floats cmd arguments d).2
    line_read :
        (msg : List ℕ) (len interface time : ℕ)
        → Turn d (on_network (network_accept (platform system c) c msg len interface time) d)
    interface_lost :
        (interface : ℕ) {n : Network (World W)}
        → interface_removed interface d.network ≡ done n
        → Turn d (record d { network = n })
    interfaces_set :
        (interfaces : ℕ → Interface)
        → Turn d (record d {
          network = record d.network {
            routing = record d.network.routing { interfaces = interfaces };
          };
        })
    world_set :
        (world : World W) → Turn d (record d { network = record d.network { outside = world } })

  pub data Served : Device (World W) → Type 0 where
    begin : (interfaces : ℕ → Interface) (world : World W) → Served (zejf_init interfaces world).1
    next : {d d' : Device (World W)} → Served d → Turn d d' → Served d'

  abbrev Reached : Device (World W) → Type 0
  Reached = Reach (platform system c) c floats (network_process_packet system c) log_at

  -- A state that is reached.
  record At (d : Device (World W)) : Type 0 where
    reached : Reached d

  either : (b : Bool) {x y : Device (World W)} → At x → At y → At (if b then x else y)
  either true hx hy = hx
  either false hx hy = hy

  step :
      {d d' : Device (World W)}
      → At d
      → Step (platform system c) c floats (network_process_packet system c) log_at d d'
      → At d'
  step a s = record { reached = later a.reached s }

  every_ten-At :
      (millis : ℕ) (d : Device (World W)) → At d → At (every_ten system c floats log_at millis d)
  unfolding every_ten
  every_ten-At millis d a =
      let time = millis % u32_mod in
      step (step (step a (send_routing_info time)) (check_table time)) (send_demand_info time)

  check_hours-At :
      (hours millis : ℕ) (d : Device (World W))
      → At d
      → At (check_hours system c floats log_at hours millis d)
  unfolding check_hours
  check_hours-At hours millis d a = step a (
      check_data ((millis / 3600000) % u32_mod) (millis % 3600000) hours (millis % u32_mod)
        (omega arith))

  run_timer-At :
      (count : ℕ) (d : Device (World W)) → At d → At (run_timer system c floats log_at count d)
  unfolding run_timer
  run_timer-At count d a =
      let millis = system.current_millis d.network.outside.system in
      let a1 = either ((count % 10) == 0) (every_ten-At millis d a) a in
      let a2 = either (leb 5 count && (((count - 5) % 30) == 0)) (step a1 save) a1 in
      let a3 = either ((count % 1800) == 0) (check_hours-At 1 millis _ a2) a2 in
      either (((count % 21600) == 0) || ((count == 30) || (count == 120)))
        (check_hours-At 36 millis _ a3) a3

  sender_loop-At :
      (rounds millis : ℕ) (d : Device (World W))
      → At d
      → At (sender_loop system c floats log_at rounds millis d)
  unfolding sender_loop
  sender_loop-At zero millis d a = a
  sender_loop-At (suc rounds) millis d a =
      let time = millis % u32_mod in
      let d' =
        network_process_packets (platform system c) c floats (network_process_packet system c) time
          d in
      let a1 = step a (process_packets time) in
      either (network_has_packets d.network || data_requests_ready d)
        (sender_loop-At rounds millis _
          (either (network_has_packets d'.network) a1 (step a1 (process_requests time))))
        a

  sender-At : (d : Device (World W)) → At d → At (packet_sender_start system c floats log_at d)
  unfolding packet_sender_start
  sender-At d a = sender_loop-At 10000 _ d a

  turning : (d d' : Device (World W)) → At d → Turn d d' → At d'
  turning d _ a (timer count) = run_timer-At count d a
  turning d _ a sender = sender-At d a
  turning d _ a (command cmd arguments) = record {
    reached = (process_command-Answers system c floats log_at cmd arguments d a.reached).reached;
  }
  turning d _ a (line_read msg len interface time) = step a (accept msg len interface time)
  turning d _ a (interface_lost interface e) = step a (interface_goes interface e)
  turning d _ a (interfaces_set interfaces) = step a (interfaces_change interfaces)
  turning d _ a (world_set world) = step a (world_changes world)

  reached_by : (d : Device (World W)) → Served d → At d
  reached_by _ (begin interfaces world) = record { reached = start interfaces world }
  reached_by d' (next {d} r t) = turning d d' (reached_by d r) t

  handler-KeepsDevice : KeepsDevice c (network_process_packet system c)
  unfolding network_process_packet time_request
  handler-KeepsDevice p d v = elim (Bool-cases (p.command == time_request_command)) [
    | inl e ↦ rw e (
        on_network-DeviceValid c d _
          (network_send_packet-Kept (platform system c) c _ _ d.network v.network).valid v)
    | inr e ↦ rw e v
  ]

  -- While the hour files hold bytes and scanned floats have 32 bits, the server keeps its device valid at every turn: the rounds of its timer, whatever their count and the clock, the bursts of its packet sender, the commands typed, the lines that its readers hand on, and the loss of interfaces, in any order.
  pub Served-DeviceValid :
      ((hour : ℕ) (w : W) → All IsByte (system.hour_load hour w).0.1)
      → ScansWords floats
      → (d : Device (World W)) → Served d
      → DeviceValid c d
  unfolding platform
  Served-DeviceValid bytes words d r =
      Reach-DeviceValid (platform system c) c floats (network_process_packet system c) log_at
        (λ hour w. bytes hour w.system) words handler-KeepsDevice d (reached_by d r).reached
