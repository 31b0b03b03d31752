-- ===== src/Network/Valid.antt =====
-- What holds of the queues and the table through every function of
-- core/api/zejf_api/src/zejf_network.c.
use zejf_meteo.Common.{
  ℕ, ◌+◌, ◌-◌, ◌%◌, ◌==◌, ◌≤◌, ◌<◌, ◌≡◌, refl, Bool, true, false, not, ◌&&◌, Option, none, some,
  List, [], ◌∷◌, leb, is_some, if◌then◌else◌, length, length-append, arith, inl, inr, Bool-cases,
  ==→ne,
}
use zejf_meteo.Common.Bytes.{u8_mod, u16_mod}
use zejf_meteo.Defs.{ZejfErr, ok, is_ok, broadcast, Settings, reserved_device_ids}
use zejf_meteo.Protocol.{Packet, packet_to_string, packet_from_string, packet_create}
use zejf_meteo.Routing.{
  RoutingEntry, Routing, routing_table_update, routing_entry_find, routing_find_free_id, assign_id,
  Probe, full, out_of_rounds, found, probe,
}
use zejf_meteo.Routing.Valid.{RoutingValid, routing_table_update-RoutingValid}
use zejf_meteo.Network.{
  Platform, Network, address, came_from, send_via, send_loop, network_send_everywhere,
  target_is_full, network_push_packet, process_id_request, process_rip_packet, network_send_packet,
  network_accept, network_prepare_packet, id_request, id_info, rip,
}
use zejf_meteo.Network.Tx.{broadcast_loop, process_broadcast_packet}

abbrev pub IsPlace : ℕ → Option ℕ → Type 0
IsPlace count none = Unit
IsPlace count (some i) = i < count

-- The queues are within their capacities, `next_packet` is in its queue, and the table is valid.
abbrev pub NetworkValid : {E : Type 0} → Settings → Network E → Type 0
NetworkValid c n =
    (length n.rx_queue ≤ c.rx_queue_size)
    × (length n.tx_queue ≤ c.tx_queue_size)
    × IsPlace (length n.tx_queue) n.next_packet
    × RoutingValid c n.routing

-- A valid state in which `next_packet` is as it was.
abbrev pub Steady : {E : Type 0} → Settings → Option ℕ → Network E → Type 0
Steady c o n = NetworkValid c n × (n.next_packet ≡ o)

IsPlace-more : (a b : ℕ) (o : Option ℕ) → a ≤ b → IsPlace a o → IsPlace b o
IsPlace-more a b none h p = tt
IsPlace-more a b (some i) h p = omega arith

assign_id-RoutingValid :
    (c : Settings) (result : Probe) (r : Routing)
    → RoutingValid c r
    → RoutingValid c (assign_id result r).1
unfolding assign_id
assign_id-RoutingValid c full r v = v
assign_id-RoutingValid c out_of_rounds r v = v
assign_id-RoutingValid c (found id) r v = record {
  distinct = v.distinct;
  not_self = v.not_self;
  bounded = v.bounded;
}

routing_find_free_id-RoutingValid :
    (c : Settings) (rounds : ℕ) (r : Routing)
    → RoutingValid c r
    → RoutingValid c (routing_find_free_id rounds r).1
unfolding routing_find_free_id
routing_find_free_id-RoutingValid c rounds r v =
    assign_id-RoutingValid c (probe rounds r.next_free_id r.table r.next_free_id) r v

module _ {E : Type 0} (platform : Platform E) (c : Settings) (o : Option ℕ) where
  pub record After (r : ZejfErr × Network E) : Type 0 where
    pub steady : Steady c o r.1

  either : (b : Bool) {x y : ZejfErr × Network E} → After x → After y → After (if b then x else y)
  either true hx hy = hx
  either false hx hy = hy

  done : {r : ZejfErr × Network E} → Steady c o r.1 → After r
  done s = record { steady = s }

  send_loop-Steady :
      (buff : List ℕ) (p : Packet) (time : ℕ) (interfaces : List ℕ) (result : ZejfErr)
      (n : Network E)
      → Steady c o n
      → After (send_loop platform c buff p time result interfaces n)
  unfolding send_loop send_via
  send_loop-Steady buff p time [] result n s = done s
  send_loop-Steady buff p time (x ∷ xs) result n s =
      either (came_from n.routing p x) (send_loop-Steady buff p time xs result n s)
        (send_loop-Steady buff p time xs _ _ s)

  pub network_send_everywhere-Steady :
      (p : Packet) (time : ℕ) (n : Network E)
      → Steady c o n
      → After (network_send_everywhere platform c p time n)
  unfolding network_send_everywhere
  network_send_everywhere-Steady p time n s =
      let (rv, p', buff) = packet_to_string p c.packet_max_length in
      either (not (is_ok rv)) (done s)
        (send_loop-Steady buff p' time (platform.get_all_interfaces n.outside) ok n s)

  process_rip_packet-Steady :
      (p : Packet) (now : ℕ) (n : Network E)
      → Steady c o n
      → After (process_rip_packet platform c p now n)
  unfolding process_rip_packet
  process_rip_packet-Steady p now n ((rx, tx, place, v), e) =
      let v' =
        routing_table_update-RoutingValid c p.from (address p.source_interface) p.ttl now n.routing
          v in
      let rv = (routing_table_update c p.from (address p.source_interface) p.ttl now n.routing).0 in
      either (is_ok rv && not (p.flags == 0))
        (network_send_everywhere-Steady p now _ ((rx, tx, place, v'), e))
        (done ((rx, tx, place, v'), e))

  process_id_request-Steady :
      (p : Packet) (time : ℕ) (n : Network E)
      → Steady c o n
      → After (process_id_request platform c p time n)
  unfolding process_id_request send_via
  process_id_request-Steady p time n ((rx, tx, place, v), e) =
      let v' = routing_find_free_id-RoutingValid c (u16_mod - reserved_device_ids) n.routing v in
      let id = (routing_find_free_id (u16_mod - reserved_device_ids) n.routing).0 in
      let rv =
        (packet_to_string (network_prepare_packet c id id_info none) c.packet_max_length).0 in
      either (id == 0) (done ((rx, tx, place, v'), e))
        (either (not (is_ok rv)) (done ((rx, tx, place, v'), e)) (done ((rx, tx, place, v'), e)))

  network_push_packet-Steady :
      (p : Packet) (n : Network E) → Steady c o n → After (network_push_packet platform c p n)
  unfolding network_push_packet target_is_full
  network_push_packet-Steady p n ((rx, tx, place, v), e) = elim (Bool-cases (p.to == c.device_id)) [
    | inl here ↦ rw here (elim (Bool-cases (length n.rx_queue == c.rx_queue_size)) [
      | inl l ↦ rw l (done ((rx, tx, place, v), e))
      | inr l ↦
          rw l (
            done ((omega (arith, length-append n.rx_queue (p ∷ []), ==→ne _ _ l), tx, place, v), e))
    ])
    | inr here ↦ rw here (elim (Bool-cases (length n.tx_queue == c.tx_queue_size)) [
      | inl l ↦ rw l (done ((rx, tx, place, v), e))
      | inr l ↦
          let longer = length-append n.tx_queue (p ∷ []) in
          rw l (
            done (
              (
                rx,
                omega (arith, longer, ==→ne _ _ l),
                IsPlace-more _ _ n.next_packet (omega (arith, longer)) place,
                v,
              ),
              e,
            ))
    ])
  ]

  pub network_send_packet-Steady :
      (p : Packet) (time : ℕ) (n : Network E)
      → Steady c o n
      → After (network_send_packet platform c p time n)
  unfolding network_send_packet
  network_send_packet-Steady p time n s =
      either ((p.from == c.device_id) && (p.to == c.device_id)) (done s) (
        either
          ((p.from == c.device_id)
            && (not (p.to == broadcast) && not (is_some (routing_entry_find n.routing.table p.to))))
          (done s)
          (either (p.command == id_request) (done (process_id_request-Steady p time n s).steady) (
            either (p.command == rip) (process_rip_packet-Steady p time n s) (
              either (target_is_full platform c p n) (done s) (
                either (not (p.from == c.device_id) && not (is_some p.source_interface)) (done s) (
                  done
                    (network_push_packet-Steady (record p { time_received = time; time_sent = 0 }) n
                      s).steady))))))

  network_accept-Steady :
      (msg : List ℕ) (len interface time : ℕ) (n : Network E)
      → Steady c o n
      → After (network_accept platform c msg len interface time n)
  unfolding network_accept
  network_accept-Steady msg len interface time n s =
      let (rv, p) = packet_from_string packet_create msg len in
      let p' : Packet = record p {
        source_interface = some interface;
        ttl = (p.ttl + 1) % u8_mod;
      } in
      either (not (is_ok rv)) (done s)
        (either (leb c.packet_max_ttl p'.ttl) (done s) (network_send_packet-Steady p' time n s))

  broadcast_loop-Steady :
      (p : Packet) (es : List RoutingEntry) (result : ZejfErr) (n : Network E)
      → Steady c o n
      → After (broadcast_loop platform c p result es n)
  unfolding broadcast_loop
  broadcast_loop-Steady p [] result n s = done s
  broadcast_loop-Steady p (e ∷ es) result n s =
      broadcast_loop-Steady p es _ _ (network_send_packet-Steady _ p.time_received n s).steady

  pub process_broadcast_packet-Steady :
      (p : Packet) (n : Network E) → Steady c o n → After (process_broadcast_packet platform c p n)
  unfolding process_broadcast_packet
  process_broadcast_packet-Steady p n s =
      either (leb (length n.routing.table) (c.tx_queue_size - length n.tx_queue))
        (broadcast_loop-Steady p n.routing.table ok n s) (done s)

-- Whatever comes from outside, network_accept keeps the queues within their capacities, next_packet in its queue, and the table valid.
pub network_accept-NetworkValid :
    {E : Type 0} (platform : Platform E) (c : Settings) (msg : List ℕ) (len interface time : ℕ)
    (n : Network E)
    → NetworkValid c n
    → NetworkValid c (network_accept platform c msg len interface time n).1
network_accept-NetworkValid platform c msg len interface time n v =
    (network_accept-Steady platform c n.next_packet msg len interface time n (v, refl)).steady.0
