-- ===== src/Info/Examples.antt =====
-- A device with three peers: the theorems on announcing and learning at it.
use zejf_meteo.Common.{ℕ, ◌≡◌, refl, Bool, true, false, none, some, List, [], ◌∷◌, arith, map}
use zejf_meteo.Common.Text.{decimal}
use zejf_meteo.Defs.{ok, err_file_doesnt_exist, meteo_settings, VariableInfo, all_variables}
use zejf_meteo.Protocol.{Packet, packet_create}
use zejf_meteo.Routing.{
  RoutingEntry, routing_entry_create, routing_entry_find, set_entry,
  routing_entry_add_provided_variable,
}
use zejf_meteo.Routing.Valid.{RoutingValid}
use zejf_meteo.Network.{Platform, Network}
use zejf_meteo.Info.{Floats, demands, provide_text, process_data_provide, network_announce_log}
use zejf_meteo.Info.Announce.{log_packet, chosen, asks_for, network_announce_log-chosen}
use zejf_meteo.Info.Learn.{process_data_provide-provide_text}

abbrev quiet : Platform (Unit {0})
quiet = record {
  network_send_via = λ msg interface time world. (ok, world);
  get_all_interfaces = λ world. [];
  get_provided_variables = λ world. [];
  get_demanded_variables = λ world. [];
  hour_load = λ hour world. ((err_file_doesnt_exist, []), world);
  hour_save = λ hour buffer world. (ok, world);
}

-- Floats that are written as their bit patterns.
abbrev patterns : Floats
patterns = record { print_float = decimal; scan_float = λ text. none }

unfoldable peer : ℕ → List ℕ → Bool → RoutingEntry
unfolding routing_entry_create
peer id wanted subscribed = record routing_entry_create {
  device_id = id;
  demanded_variables = wanted;
  subscribed = subscribed;
}

abbrev network : Network (Unit {0})
network = record {
  routing = record {
    table =
        peer 1000 (7 ∷ []) false ∷ peer 1001 [] true ∷ peer 1002 (all_variables ∷ []) false ∷ [];
    next_free_id = 1003;
    interfaces = λ i. record { uid = i; kind = 0; handle = 0; rx_count = 0; tx_count = 0 };
  };
  rx_queue = [];
  tx_queue = [];
  next_packet = none;
  provide_ptr = 0;
  demand_ptr = 0;
  outside = tt;
}

abbrev temperature : VariableInfo
temperature = record { samples_per_hour = 12; id = 7 }

valid : RoutingValid meteo_settings network.routing
unfolding peer routing_entry_create
valid = record { distinct = (refl, (refl, (refl, tt))); not_self = refl; bounded = omega arith }

-- The devices 1000 and 1002 demand the variable, 1001 has subscribed.
announced :
    map (λ e. e.device_id) (chosen (asks_for 7) network.routing.table)
    ≡ 1000 ∷ 1002 ∷ []
unfolding chosen asks_for peer routing_entry_create
announced = refl

network_announce_log-chosen_example :
    network_announce_log quiet meteo_settings patterns temperature 480000 3 21 9 network ≡ (
      ok,
      record network {
        tx_queue =
            map
              (log_packet meteo_settings patterns temperature 480000 3 21 9)
              (chosen (asks_for 7) network.routing.table);
      },
    )
network_announce_log-chosen_example =
    network_announce_log-chosen quiet meteo_settings patterns temperature 480000 3 21 9 network
      valid (omega arith)

unfoldable word : List ℕ → Packet
unfolding packet_create
word text = record packet_create { from = 1000; to = 1; message = some text }

process_data_provide-provide_text_example :
    process_data_provide (word (provide_text temperature)) network ≡ (
      ok,
      record network {
        routing = record network.routing {
          table =
              record (peer 1000 (7 ∷ []) false) { provided_variables = temperature ∷ [] }
              ∷ peer 1001 [] true
              ∷ peer 1002 (all_variables ∷ []) false
              ∷ [];
        };
      },
    )
unfolding word packet_create peer routing_entry_create
process_data_provide-provide_text_example =
    process_data_provide-provide_text (word (provide_text temperature)) network []
      (peer 1000 (7 ∷ []) false) (peer 1001 [] true ∷ peer 1002 (all_variables ∷ []) false ∷ [])
      temperature (omega arith) (omega arith) refl refl refl refl
