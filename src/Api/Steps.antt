-- ===== src/Api/Steps.antt =====
-- The life of a device as a sequence of steps: each entry point of core/api/zejf_api, in any order and at
-- any time, and changes of the world outside between them.
use zejf_meteo.Common.{ℕ, ◌<◌, ◌≡◌, refl, Bool, List, arith}
use zejf_meteo.Common.Bytes.{u16_mod, u32_mod}
use zejf_meteo.Defs.{Settings, VariableInfo}
use zejf_meteo.Protocol.{Packet}
use zejf_meteo.Routing.{Interface, routing_table_check}
use zejf_meteo.Routing.Valid.{routing_init-RoutingValid, routing_table_check-RoutingValid}
use zejf_meteo.Network.{
  Platform, Network, network_accept, network_send_packet, network_send_routing_info, network_init,
}
use zejf_meteo.Network.Valid.{network_accept-NetworkValid, network_send_everywhere-Steady}
use zejf_meteo.Network.Removed.{done}
use zejf_meteo.Store.{datahour_get}
use zejf_meteo.Store.Bounds.{LoadsBytes, datahour_get-StoreValid}
use zejf_meteo.Info.{Floats, network_send_provide_info, network_send_demand_info}
use zejf_meteo.Info.Valid.{
  network_send_packet-Kept, network_send_provide_info-Kept, network_send_demand_info-Kept,
}
use zejf_meteo.Device.{
  Device, store_of, with_store, data_log, data_request_add, data_requests_process,
}
use zejf_meteo.Device.Valid.{
  DeviceValid, data_log-DeviceValid, data_request_add-DeviceValid,
  data_requests_process-DeviceValid,
}
use zejf_meteo.DataCheck.{run_data_check}
use zejf_meteo.DataCheck.RunValid.{run_data_check-DeviceValid}
use zejf_meteo.Api.{zejf_init, on_network, network_process_packets, interface_removed, save_all}
use zejf_meteo.Api.Valid.{ScansWords, KeepsDevice, on_network-DeviceValid, save_all-DeviceValid}
use zejf_meteo.Api.Removed.{interface_removed-Swept}
use zejf_meteo.Api.Received.{network_process_packets-DeviceValid}

module _ {E : Type 0} (platform : Platform E) (c : Settings) (floats : Floats)
    (handler : Packet → Device E → Device E) (log_at : ℕ → ℕ → ℕ) where
  -- Numbers that come from the program's own calls fit their types.
  pub data Step (d : Device E) : Device E → Type 0 where
    world_changes :
        (world : E) → Step d (record d { network = record d.network { outside = world } })
    interfaces_change :
        (interfaces : ℕ → Interface)
        → Step d (record d {
          network = record d.network {
            routing = record d.network.routing { interfaces = interfaces };
          };
        })
    interface_goes :
        (interface : ℕ) {n : Network E}
        → interface_removed interface d.network ≡ done n
        → Step d (record d { network = n })
    accept :
        (msg : List ℕ) (len interface time : ℕ)
        → Step d (on_network (network_accept platform c msg len interface time) d)
    send_routing_info :
        (time : ℕ) → Step d (on_network (network_send_routing_info platform c time) d)
    check_table :
        (time : ℕ)
        → Step d (record d {
          network = record d.network { routing = routing_table_check c time d.network.routing };
        })
    send_provide_info :
        (time : ℕ) → Step d (on_network (network_send_provide_info platform c time) d)
    send_demand_info : (time : ℕ) → Step d (on_network (network_send_demand_info platform c time) d)
    process_packets : (time : ℕ) → Step d (network_process_packets platform c floats handler time d)
    process_requests : (time : ℕ) → Step d (data_requests_process platform c floats time d)
    add_request :
        (to : ℕ) (info : VariableInfo) (hour_number start_log end_log : ℕ)
        → hour_number < u32_mod
        → Step d (data_request_add c to info hour_number start_log end_log d).1
    log_sample :
        (info : VariableInfo) (hour_number k value time : ℕ) (announce : Bool)
        → info.id < u16_mod
        → hour_number < u32_mod
        → value < u32_mod
        → Step d (data_log platform c floats info hour_number k value time announce d).1
    check_data :
        (current_hour_num current_millis_in_hour hours time : ℕ)
        → current_hour_num < u32_mod
        → Step d
            (run_data_check platform c log_at current_hour_num current_millis_in_hour hours time d)
    save : Step d (save_all platform c d)
    send_packet :
        (p : Packet) (time : ℕ)
        → Step d (record d { network = (network_send_packet platform c p time d.network).1 })
    get_hour :
        (hour_number : ℕ) (load create : Bool)
        → hour_number < u32_mod
        → Step d (
            with_store platform c floats d
              (datahour_get platform c hour_number load create (store_of platform c floats d)).1)

  pub data Reach : Device E → Type 0 where
    start : (interfaces : ℕ → Interface) (world : E) → Reach (zejf_init interfaces world).1
    later : {d d' : Device E} → Reach d → Step d d' → Reach d'

zejf_init-DeviceValid :
    {E : Type 0} (c : Settings) (interfaces : ℕ → Interface) (world : E)
    → DeviceValid c (zejf_init interfaces world).1
unfolding zejf_init network_init
zejf_init-DeviceValid c interfaces world = record {
  network = (omega arith, omega arith, tt, routing_init-RoutingValid c interfaces);
  hours = (omega arith, tt);
  requests = (omega arith, tt);
  typed = tt;
}

module _ {E : Type 0} (platform : Platform E) (c : Settings) (floats : Floats)
    (handler : Packet → Device E → Device E) (log_at : ℕ → ℕ → ℕ) (bytes : LoadsBytes platform)
    (words : ScansWords floats) (keeps : KeepsDevice c handler) where
  Step-DeviceValid :
      (d d' : Device E)
      → DeviceValid c d
      → Step platform c floats handler log_at d d'
      → DeviceValid c d'
  unfolding on_network network_send_routing_info
  Step-DeviceValid d _ v (world_changes world) = on_network-DeviceValid c d _ v.network v
  Step-DeviceValid d _ v (interfaces_change interfaces) =
      let (rx, tx, place, r) = v.network in
      on_network-DeviceValid c d _
        (
          rx,
          tx,
          place,
          record { distinct = r.distinct; not_self = r.not_self; bounded = r.bounded },
        )
        v
  Step-DeviceValid d _ v (interface_goes interface {n} e) =
      on_network-DeviceValid c d n
        ((interface_removed-Swept c interface d.network v.network).valid n e) v
  Step-DeviceValid d _ v (accept msg len interface time) =
      on_network-DeviceValid c d _
        (network_accept-NetworkValid platform c msg len interface time d.network v.network) v
  Step-DeviceValid d _ v (send_routing_info time) =
      on_network-DeviceValid c d _
        (network_send_everywhere-Steady platform c d.network.next_packet _ time d.network
          (v.network, refl)).steady.0
        v
  Step-DeviceValid d _ v (check_table time) =
      let (rx, tx, place, r) = v.network in
      on_network-DeviceValid c d _
        (rx, tx, place, routing_table_check-RoutingValid c time d.network.routing r) v
  Step-DeviceValid d _ v (send_provide_info time) =
      on_network-DeviceValid c d _
        (network_send_provide_info-Kept platform c time d.network v.network).valid v
  Step-DeviceValid d _ v (send_demand_info time) =
      on_network-DeviceValid c d _
        (network_send_demand_info-Kept platform c time d.network v.network).valid v
  Step-DeviceValid d _ v (process_packets time) =
      network_process_packets-DeviceValid platform c floats bytes words handler keeps time d v
  Step-DeviceValid d _ v (process_requests time) =
      data_requests_process-DeviceValid platform c floats bytes time d v
  Step-DeviceValid d _ v (add_request to info hour_number start_log end_log small) =
      data_request_add-DeviceValid c to info hour_number start_log end_log d small v
  Step-DeviceValid d _ v (log_sample info hour_number k value time announce id small word) =
      data_log-DeviceValid platform c floats bytes info hour_number k value time announce d id small
        word v
  Step-DeviceValid d _ v (check_data current_hour_num current_millis_in_hour hours time small) =
      run_data_check-DeviceValid platform c bytes log_at current_hour_num current_millis_in_hour
        hours time d small v
  Step-DeviceValid d _ v save = save_all-DeviceValid platform c d v
  Step-DeviceValid d _ v (send_packet p time) =
      on_network-DeviceValid c d _
        (network_send_packet-Kept platform c p time d.network v.network).valid v
  Step-DeviceValid d _ v (get_hour hour_number load create small) = record {
    network = v.network;
    hours =
        (datahour_get-StoreValid platform c hour_number load create (store_of platform c floats d)
          bytes small v.hours).0;
    requests = v.requests;
    typed = v.typed;
  }

  -- On a platform that reads bytes, scans floats of 32 bits, and keeps a device valid with the packets left to it, every device that the entry points of the library lead to from zejf_init, in any order, with any input and with any changes of the world outside between them, has its queues, its table, its hours and its requests within their capacities, no two routes to one device and none to itself, only valid hours, and no two requests alike.
  pub Reach-DeviceValid :
      (d : Device E) → Reach platform c floats handler log_at d → DeviceValid c d
  Reach-DeviceValid _ (start interfaces world) = zejf_init-DeviceValid c interfaces world
  Reach-DeviceValid d' (later {d} r s) = Step-DeviceValid d d' (Reach-DeviceValid d r) s
