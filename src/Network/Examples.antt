-- ===== src/Network/Examples.antt =====
-- A device with two peers on a platform that records what it is given: tests of the queues, and the
-- theorems at it.
use zejf_meteo.Common.{
  ℕ, ◌≤◌, ◌<◌, ◌≡◌, refl, Option, none, some, List, [], ◌∷◌, length, arith, if◌then◌else◌,
}
use zejf_meteo.Defs.{ok, err_partial, err_file_doesnt_exist, meteo_settings, broadcast}
use zejf_meteo.Protocol.{Packet, packet_create}
use zejf_meteo.Routing.{Interface, RoutingEntry, Routing, routing_entry_create}
use zejf_meteo.Routing.Valid.{RoutingValid}
use zejf_meteo.Network.{Platform, Network, network_send_everywhere, came_from}
use zejf_meteo.Network.Tx.{process_broadcast_packet}
use zejf_meteo.Network.Valid.{NetworkValid}
use zejf_meteo.Network.Drain.{send_all, send_all-empties}
use zejf_meteo.Network.Broadcast.{copy_for, process_broadcast_packet-copies}
use zejf_meteo.Network.Send.{Writable, text_of, network_send_everywhere-tell, tell, others}
use zejf_meteo.Network.Removed.{
  queue_after, without, uses, network_interface_removed, network_interface_removed-without,
  network_interface_removed-misses,
}

abbrev recorder : Platform (List (Option ℕ))
recorder = record {
  network_send_via = λ msg interface time world. (ok, interface ∷ world);
  get_all_interfaces = λ world. 1 ∷ 2 ∷ [];
  get_provided_variables = λ world. [];
  get_demanded_variables = λ world. [];
  hour_load = λ hour world. ((err_file_doesnt_exist, []), world);
  hour_save = λ hour buffer world. (ok, world);
}

abbrev interfaces : ℕ → Interface
interfaces i = record { uid = i; kind = 0; handle = 0; rx_count = 0; tx_count = 0 }

unfoldable peer : ℕ → ℕ → RoutingEntry
unfolding routing_entry_create
peer id interface = record routing_entry_create {
  device_id = id;
  interface = interface;
  distance = 1;
}

abbrev routing : Routing
routing = record {
  table = peer 1000 1 ∷ peer 1001 2 ∷ [];
  next_free_id = 1002;
  interfaces = interfaces;
}

unfoldable message : (to : ℕ) → Packet
unfolding packet_create
message to = record packet_create {
  from = 1000;
  to = to;
  command = 10;
  ttl = 3;
  source_interface = some 1;
  message = some (104 ∷ 105 ∷ []);
}

abbrev state : List Packet → Network (List (Option ℕ))
state tx = record {
  routing = routing;
  rx_queue = [];
  tx_queue = tx;
  next_packet = none;
  provide_ptr = 0;
  demand_ptr = 0;
  outside = [];
}

routing-RoutingValid : RoutingValid meteo_settings routing
unfolding peer routing_entry_create
routing-RoutingValid = record {
  distinct = (refl, (refl, tt));
  not_self = refl;
  bounded = omega arith;
}

state-NetworkValid : (tx : List Packet) → length tx ≤ 16384 → NetworkValid meteo_settings (state tx)
state-NetworkValid tx h = (omega arith, h, tt, routing-RoutingValid)

worn-Writable : (hops : ℕ) → hops < 256 → Writable (record (message 1) { ttl = hops }) 128
unfolding message packet_create
worn-Writable hops h = record {
  fields = (omega arith, omega arith, h, omega arith, omega arith);
  plain = ((omega arith, omega arith), ((omega arith, omega arith), tt));
  short = omega arith;
  fits = omega arith;
}

send_all-empties_example :
    (send_all recorder meteo_settings
      (5 ∷ 6 ∷ [])
      (state (message 1001 ∷ message 1000 ∷ []))).tx_queue
    ≡ []
unfolding message packet_create
send_all-empties_example =
    send_all-empties recorder meteo_settings (5 ∷ 6 ∷ []) (state (message 1001 ∷ message 1000 ∷ []))
      (state-NetworkValid (message 1001 ∷ message 1000 ∷ []) (omega arith))
      (λ msg interface time world. refl) (omega arith, (omega arith, tt)) (omega arith)

network_send_everywhere-tell_example :
    let (all_ok, world) =
      tell recorder
        (text_of (message 1) 128)
        7
        (others (λ i. i) (some 1) (1 ∷ 2 ∷ []))
        [] in
    network_send_everywhere recorder meteo_settings (message 1) 7 (state [])
    ≡ (if all_ok then ok else err_partial, record (state []) { outside = world })
unfolding message
network_send_everywhere-tell_example =
    network_send_everywhere-tell recorder meteo_settings (message 1) 7 (state [])

process_broadcast_packet-copies_example :
    process_broadcast_packet recorder meteo_settings (message broadcast) (state []) ≡ (
      ok,
      record (state []) {
        tx_queue =
            copy_for meteo_settings (message broadcast) (peer 1000 1)
            ∷ copy_for meteo_settings (message broadcast) (peer 1001 2)
            ∷ [];
      },
    )
unfolding message packet_create
process_broadcast_packet-copies_example =
    process_broadcast_packet-copies recorder meteo_settings (message broadcast) (state [])
      routing-RoutingValid (omega arith) (omega arith) (omega arith)

-- The packets came over interface 1.
abbrev elsewhere : Packet
elsewhere = record packet_create { to = 1001; source_interface = some 2 }

network_interface_removed-without_example :
    queue_after (network_interface_removed 1 (state (elsewhere ∷ message 7 ∷ elsewhere ∷ [])))
    ≡ some (without 1 (elsewhere ∷ message 7 ∷ elsewhere ∷ []))
unfolding uses packet_create
network_interface_removed-without_example =
    network_interface_removed-without 1 elsewhere (message 7 ∷ elsewhere ∷ [])
      (state (elsewhere ∷ message 7 ∷ elsewhere ∷ [])) refl refl

network_interface_removed-misses_example :
    queue_after (network_interface_removed 1 (state (message 7 ∷ message 8 ∷ [])))
    ≡ some (message 8 ∷ [])
unfolding uses message
network_interface_removed-misses_example =
    network_interface_removed-misses 1 (message 7) (message 8 ∷ [])
      (state (message 7 ∷ message 8 ∷ [])) refl (omega arith) refl
