-- ===== src/Network/Tx.antt =====
-- The tx queue of core/api/zejf_api/src/zejf_network.c: sending, the expansion of broadcasts, and the
-- removal of packets.
use zejf_meteo.Common.{
  ℕ, ◌+◌, ◌-◌, ◌/◌, ◌==◌, Bool, true, false, not, ◌||◌, Option, none, some, List, [], ◌∷◌, ltb, leb,
  if◌then◌else◌, length, get_elem?, set, erase_idx,
}
use zejf_meteo.Common.Bytes.{sub32}
use zejf_meteo.Defs.{
  ZejfErr, ok, err_partial, err_queue_full, err_send_unable, is_ok, Settings, broadcast,
}
use zejf_meteo.Protocol.{Packet, packet_to_string}
use zejf_meteo.Routing.{RoutingEntry, routing_entry_find}
use zejf_meteo.Network.{Platform, Network, network_prepare_packet, send_via, network_send_packet}

abbrev pub is_send_unable : ZejfErr → Bool
is_send_unable err_send_unable = true
is_send_unable _ = false

abbrev pub is_partial : ZejfErr → Bool
is_partial err_partial = true
is_partial _ = false

-- The place after another one, around the ring.
unfoldable pub next_place : ℕ → ℕ → ℕ
next_place count i = if i + 1 == count then 0 else i + 1

-- Where the packet at place `j` is once that at `i` is gone.
unfoldable pub place_without : ℕ → ℕ → ℕ
place_without i j = if ltb i j then j - 1 else j

-- `next_packet` moves on when its packet goes, and is NULL when that was the last one.
unfoldable pub next_without : (count i : ℕ) → Option ℕ → Option ℕ
unfolding next_place place_without
next_without count i none = none
next_without count i (some j) =
    if j == i
    then (if next_place count j == j then none else some (place_without i (next_place count j)))
    else some (place_without i j)

module _ {E : Type 0} where
  unfoldable pub packet_remove : ℕ → Network E → Network E
  unfolding next_without
  packet_remove i n = record n {
    tx_queue = erase_idx n.tx_queue i;
    next_packet = next_without (length n.tx_queue) i n.next_packet;
  }

  -- `next_packet`, or the tail.
  abbrev pub turn : Network E → ℕ
  turn n = elim n.next_packet [ none ↦ 0 | some i ↦ i ]

  unfoldable pub allocate_packet_queue : Settings → (priority : ℕ) → Network E → ℕ
  allocate_packet_queue c priority n = (c.tx_queue_size - length n.tx_queue) / priority

  -- `goto next_one`, from place `i`.
  unfoldable pub next_one : ℕ → Network E → Network E
  unfolding next_place
  next_one i n = record n { next_packet = some (next_place (length n.tx_queue) i) }

module _ {E : Type 0} (platform : Platform E) (c : Settings) where
  -- A copy for each entry of the table. What is queued is neither RIP nor ID_REQUEST, so sending it
  -- leaves the table as it is.
  unfoldable pub broadcast_loop :
      Packet → ZejfErr → List RoutingEntry → Network E → ZejfErr × Network E
  broadcast_loop p result [] n = (result, n)
  broadcast_loop p result (e ∷ es) n =
      let (rv, n') =
        network_send_packet platform c (network_prepare_packet c e.device_id p.command p.message)
          p.time_received n in
      broadcast_loop p (if is_ok rv then result else err_partial) es n'

  unfoldable pub process_broadcast_packet : Packet → Network E → ZejfErr × Network E
  unfolding broadcast_loop
  process_broadcast_packet p n =
      if leb (length n.routing.table) (c.tx_queue_size - length n.tx_queue)
      then broadcast_loop p ok n.routing.table n
      else (err_queue_full, n)

  -- The packet as it is afterwards comes back too.
  unfoldable pub prepare_and_send :
      Packet → (interface : ℕ) → ℕ → Network E → ZejfErr × Packet × Network E
  prepare_and_send p interface time n =
      let (rv, p', buff) = packet_to_string p c.packet_max_length in
      if not (is_ok rv)
      then (err_send_unable, p', n)
      else (let (rv', n') = send_via platform c buff (some interface) time n in
          (rv', record p' { destination_interface = some interface }, n'))

  -- Over the interface that the table names. A packet is put back where the platform could not send it.
  unfoldable pub send_routed : (i : ℕ) → Packet → ℕ → Network E → Network E
  unfolding packet_remove next_one prepare_and_send
  send_routed i p time n = elim (routing_entry_find n.routing.table p.to) [
    | none ↦ packet_remove i n
    | some e ↦
        let (rv, p', n') = prepare_and_send (record p { time_sent = time }) e.interface time n in
        let n'' : Network E = record n' { tx_queue = set n'.tx_queue i p' } in
        if is_send_unable rv then next_one i n'' else packet_remove i n''
  ]

  -- What happens to the packet at place `i`.
  unfoldable pub send_at : (i : ℕ) → Packet → ℕ → Network E → Network E
  unfolding packet_remove next_one process_broadcast_packet send_routed
  send_at i p time n =
      if leb c.packet_delete_timeout (sub32 time p.time_received)
      then packet_remove i n
      else if p.to == broadcast
      then (let (rv, n') = process_broadcast_packet p n in
          if is_ok rv || is_partial rv then packet_remove i n' else next_one i n')
      else send_routed i p time n

  unfoldable pub network_send_tx : ℕ → Network E → Network E
  unfolding send_at
  network_send_tx time n = elim (get_elem? n.tx_queue (turn n)) [
    | none ↦ n
    | some p ↦ send_at (turn n) p time (record n { next_packet = some (turn n) })
  ]
