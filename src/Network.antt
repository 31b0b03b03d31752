-- ===== src/Network.antt =====
-- The packet queues of core/api/zejf_api/src/zejf_network.c and the sending of routing information of
-- zejf_routing.c. A queue is the list of its items from the tail, the oldest, to the head; what the
-- functions of linked_list.c do to it is shown in LinkedList. `next_packet` is a place in the tx queue.
-- What the target platform defines is a parameter. Allocations succeed.
pub mod Tx
pub mod Valid
pub mod Send
pub mod Transmit
pub mod Drain
pub mod Broadcast
pub mod Removed
mod Examples
use zejf_meteo.Common.{
  ℕ, zero, suc, ◌+◌, ◌-◌, ◌/◌, ◌%◌, ◌==◌, Bool, true, false, not, ◌&&◌, ◌||◌, Option, none, some,
  List, [], ◌∷◌, ◌++◌, ltb, leb, is_some, if◌then◌else◌, length, get_elem?, set, erase_idx,
}
use zejf_meteo.Common.Bytes.{u8_mod, u16_mod, sub32}
use zejf_meteo.Defs.{
  ZejfErr, ok, err_generic, err_itself, err_no_free_slots, err_no_such_device, err_out_of_memory,
  err_partial, err_queue_full, err_send_unable, err_ttl, is_ok, Settings, VariableInfo, broadcast,
  reserved_device_ids,
}
use zejf_meteo.Protocol.{Packet, packet_create, message_bytes, packet_to_string, packet_from_string}
use zejf_meteo.Routing.{
  Interface, RoutingEntry, Routing, routing_entry_find, routing_table_update, routing_find_free_id,
  drop_interface,
}

-- What the platform defines, over a state of the world outside the library.
pub record Platform (E : Type 0) : Type 0 where
  pub network_send_via : List ℕ → Option ℕ → ℕ → E → ZejfErr × E
  pub get_all_interfaces : E → List ℕ
  pub get_provided_variables : E → List VariableInfo
  pub get_demanded_variables : E → List ℕ
  pub hour_load : ℕ → E → (ZejfErr × List ℕ) × E
  pub hour_save : ℕ → List ℕ → E → ZejfErr × E

pub record Network (E : Type 0) : Type 0 where
  pub routing : Routing
  pub rx_queue : List Packet
  pub tx_queue : List Packet
  pub next_packet : Option ℕ
  pub provide_ptr : ℕ
  pub demand_ptr : ℕ
  pub outside : E

-- The commands that the network itself handles.
abbrev pub rip : ℕ
rip = 1

abbrev pub id_request : ℕ
id_request = 15

abbrev pub id_info : ℕ
id_info = 16

unfoldable pub network_init : {E : Type 0} → Routing → E → Network E
network_init routing outside = record {
  routing = routing;
  rx_queue = [];
  tx_queue = [];
  next_packet = none;
  provide_ptr = 0;
  demand_ptr = 0;
  outside = outside;
}

unfoldable pub network_prepare_packet :
    Settings → (to command : ℕ) → (msg : Option (List ℕ)) → Packet
unfolding packet_create
network_prepare_packet c to command msg = record packet_create {
  command = command;
  from = c.device_id;
  to = to;
  message_size = length (message_bytes msg) % u16_mod;
  message = msg;
}

-- An interface as a pointer; NULL is 0.
abbrev pub address : Option ℕ → ℕ
address none = 0
address (some interface) = interface

-- Whether an interface is the one over which the packet came.
unfoldable pub came_from : Routing → Packet → ℕ → Bool
came_from routing p interface = elim p.source_interface [
  | none ↦ false
  | some source ↦ (routing.interfaces interface).uid == (routing.interfaces source).uid
]

module _ {E : Type 0} (platform : Platform E) (c : Settings) where
  -- A message given to the platform.
  unfoldable pub send_via : List ℕ → Option ℕ → ℕ → Network E → ZejfErr × Network E
  send_via msg interface time n =
      let (rv, outside) = platform.network_send_via msg interface time n.outside in
      (rv, record n { outside = outside })

  unfoldable pub target_is_full : Packet → Network E → Bool
  target_is_full p n =
      if p.to == c.device_id
      then length n.rx_queue == c.rx_queue_size
      else length n.tx_queue == c.tx_queue_size

  -- `list_push` puts a packet at the head and fails on a full list.
  unfoldable pub network_push_packet : Packet → Network E → ZejfErr × Network E
  unfolding target_is_full
  network_push_packet p n =
      if target_is_full p n
      then (err_generic, n)
      else if p.to == c.device_id
      then (ok, record n { rx_queue = n.rx_queue ++ (p ∷ []) })
      else (ok, record n { tx_queue = n.tx_queue ++ (p ∷ []) })

  -- The search for an id is given a round for each id that there is.
  unfoldable pub process_id_request : Packet → ℕ → Network E → ZejfErr × Network E
  unfolding network_prepare_packet send_via
  process_id_request p time n =
      let (id, routing) = routing_find_free_id (u16_mod - reserved_device_ids) n.routing in
      let n' : Network E = record n { routing = routing } in
      if id == 0
      then (err_no_free_slots, n')
      else (let (rv, _, buff) =
            packet_to_string (network_prepare_packet c id id_info none) c.packet_max_length in
          if not (is_ok rv) then (rv, n') else send_via buff p.source_interface time n')

  -- The loop of `network_send_everywhere`, with its result so far.
  unfoldable pub send_loop :
      List ℕ → Packet → ℕ → ZejfErr → List ℕ → Network E → ZejfErr × Network E
  unfolding send_via came_from
  send_loop buff p time result [] n = (result, n)
  send_loop buff p time result (interface ∷ interfaces) n =
      if came_from n.routing p interface
      then send_loop buff p time result interfaces n
      else (let (res, n') = send_via buff (some interface) time n in
          send_loop buff p time (if is_ok res then result else err_partial) interfaces n')

  -- Everywhere but back. The text is written once, with the packet as it is then.
  unfoldable pub network_send_everywhere : Packet → ℕ → Network E → ZejfErr × Network E
  unfolding send_loop
  network_send_everywhere p time n =
      let (rv, p', buff) = packet_to_string p c.packet_max_length in
      if not (is_ok rv)
      then (err_generic, n)
      else send_loop buff p' time ok (platform.get_all_interfaces n.outside) n

  unfoldable pub process_rip_packet : Packet → ℕ → Network E → ZejfErr × Network E
  unfolding network_send_everywhere
  process_rip_packet p now n =
      let (rv, routing) =
        routing_table_update c p.from (address p.source_interface) p.ttl now n.routing in
      let n' : Network E = record n { routing = routing } in
      if is_ok rv && not (p.flags == 0) then network_send_everywhere p now n' else (rv, n')

  unfoldable pub network_send_packet : Packet → ℕ → Network E → ZejfErr × Network E
  unfolding process_id_request process_rip_packet target_is_full network_push_packet
  network_send_packet p time n =
      if (p.from == c.device_id) && (p.to == c.device_id)
      then (err_itself, n)
      else if (p.from == c.device_id)
          && (not (p.to == broadcast) && not (is_some (routing_entry_find n.routing.table p.to)))
      then (err_no_such_device, n)
      else if p.command == id_request
      then (let (rv, n') = process_id_request p time n in
          (if is_ok rv then ok else err_generic, n'))
      else if p.command == rip
      then process_rip_packet p time n
      else if target_is_full p n
      then (err_queue_full, n)
      else if not (p.from == c.device_id) && not (is_some p.source_interface)
      then (ok, n)
      else (let (rv, n') =
            network_push_packet (record p { time_received = time; time_sent = 0 }) n in
          (if is_ok rv then ok else err_out_of_memory, n'))

  -- All packets from outside pass here.
  unfoldable pub network_accept :
      List ℕ → (length : ℕ) → (interface : ℕ) → ℕ → Network E → ZejfErr × Network E
  unfolding network_send_packet
  network_accept msg len interface time n =
      let (rv, p) = packet_from_string packet_create msg len in
      if not (is_ok rv)
      then (rv, n)
      else (let p' : Packet = record p {
        source_interface = some interface;
        ttl = (p.ttl + 1) % u8_mod;
      } in
          if leb c.packet_max_ttl p'.ttl then (err_ttl, n) else network_send_packet p' time n)

  unfoldable pub network_send_routing_info : ℕ → Network E → ZejfErr × Network E
  unfolding network_prepare_packet network_send_everywhere
  network_send_routing_info time n =
      network_send_everywhere (record (network_prepare_packet c 0 rip none) { flags = 1 }) time n
