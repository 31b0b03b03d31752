-- ===== src/Network/Broadcast.antt =====
-- What `process_broadcast_packet` of core/api/zejf_api/src/zejf_network.c puts into the tx queue.
use mathlib.Core.List.{append_assoc, append-nil}
use mathlib.Core.Bool.{and-false}
use zejf_meteo.Common.{
  Option, none, ℕ, ◌+◌, ◌-◌, ◌%◌, ◌==◌, ◌≤◌, ◌<◌, ◌≡◌, ◌≢◌, refl, ap, ◌∙◌, Bool, true, false, not, ◌||◌, List,
  [], ◌∷◌, ◌++◌, map, leb, is_some, length, length-append, has, All, All-imp, arith, inl, inr,
  Option-cases, ==_ne, ==_self,
}
use zejf_meteo.Defs.{ok, Settings, broadcast}
use zejf_meteo.Common.Bytes.{u16_mod}
use zejf_meteo.Protocol.{Packet, packet_create, message_bytes}
use zejf_meteo.Routing.{RoutingEntry, routing_entry_find, device_ids}
use zejf_meteo.Routing.Valid.{RoutingValid, routing_entry_find-has}
use zejf_meteo.Network.{
  Platform, Network, network_prepare_packet, network_send_packet, network_push_packet,
  target_is_full, id_request, rip,
}
use zejf_meteo.Network.Tx.{broadcast_loop, process_broadcast_packet}

-- A packet of this device as it lies in the queue, each field written out.
unfoldable pub queued : Settings → (to command : ℕ) → Option (List ℕ) → (time : ℕ) → Packet
queued c to command msg time = record {
  source_interface = none;
  destination_interface = none;
  time_received = time;
  time_sent = 0;
  flags = 0;
  checksum = 0;
  from = c.device_id;
  to = to;
  message_size = length (message_bytes msg) % u16_mod;
  ttl = 0;
  command = command;
  message = msg;
}

-- The copy for a device.
unfoldable pub copy_for : Settings → Packet → RoutingEntry → Packet
unfolding queued
copy_for c p e = queued c e.device_id p.command p.message p.time_received

-- A device that the table knows, other than this one.
abbrev pub IsPeer : Settings → List RoutingEntry → RoutingEntry → Type 0
IsPeer c table e = (has e.device_id (device_ids table) ≡ true) × (e.device_id ≢ c.device_id)

or-true : (b : Bool) {d : Bool} → d ≡ true → (b || d) ≡ true
or-true true h = refl
or-true false h = h

entries_are_known : (es : List RoutingEntry) → All (λ e. has e.device_id (device_ids es) ≡ true) es
entries_are_known [] = tt
entries_are_known (e ∷ es) = (
  rw (==_self e.device_id) refl,
  All-imp _ _ (λ a. or-true (a.device_id == e.device_id)) es (entries_are_known es),
)

-- In a valid table every entry is that of a peer.
pub entries_are_peers :
    (c : Settings) (table : List RoutingEntry)
    → has c.device_id (device_ids table) ≡ false
    → All (IsPeer c table) table
entries_are_peers c table none_self =
    All-imp _ _
      (λ e h. (h, λ same. let no : has c.device_id (device_ids table) ≡ true = rw (← same) h in cc))
      table (entries_are_known table)

find-known :
    (table : List RoutingEntry) (id : ℕ)
    → has id (device_ids table) ≡ true
    → is_some (routing_entry_find table id) ≡ true
find-known table id h = elim (Option-cases (routing_entry_find table id)) [
  | inl e ↦ let no = routing_entry_find-has table id e in cc
  | inr (x, e) ↦ rw e refl
]

module _ {E : Type 0} (platform : Platform E) (c : Settings) where
  -- A packet for a peer is queued.
  pub network_send_packet-peer :
      (e : RoutingEntry) (command : ℕ) (msg : Option (List ℕ)) (time : ℕ) (n : Network E)
      → command ≢ id_request
      → command ≢ rip
      → IsPeer c n.routing.table e
      → length n.tx_queue < c.tx_queue_size
      → network_send_packet platform c (network_prepare_packet c e.device_id command msg) time n
        ≡ (ok, record n { tx_queue = n.tx_queue ++ (queued c e.device_id command msg time ∷ []) })
  unfolding network_send_packet network_prepare_packet packet_create queued target_is_full network_push_packet
  network_send_packet-peer e command msg time n i r (h, ne) room =
      rw
        (
          ==_self c.device_id,
          ==_ne e.device_id c.device_id ne,
          find-known n.routing.table e.device_id h,
          ==_ne command id_request i,
          ==_ne command rip r,
          ==_ne (length n.tx_queue) c.tx_queue_size (omega arith),
          and-false (not (e.device_id == broadcast)),
        )
        refl

module _ {E : Type 0} (platform : Platform E) (c : Settings) (p : Packet) where
  broadcast_loop-copies :
      (es : List RoutingEntry) (n : Network E)
      → p.command ≢ id_request
      → p.command ≢ rip
      → All (IsPeer c n.routing.table) es
      → length n.tx_queue + length es ≤ c.tx_queue_size
      → broadcast_loop platform c p ok es n
        ≡ (ok, record n { tx_queue = n.tx_queue ++ map (copy_for c p) es })
  unfolding broadcast_loop copy_for
  broadcast_loop-copies [] n i r peers room = rw append-nil refl
  broadcast_loop-copies (e ∷ es) n i r (peer, peers) room =
      let longer = length-append n.tx_queue (copy_for c p e ∷ []) in
      let n' : Network E = record n { tx_queue = n.tx_queue ++ (copy_for c p e ∷ []) } in
      rw
        (network_send_packet-peer platform c e p.command p.message p.time_received n i r peer
          (omega arith))
        (broadcast_loop-copies es n' i r peers (omega arith)
          ∙ ap (λ t. (ok, record n { tx_queue = t }))
              (append_assoc n.tx_queue (copy_for c p e ∷ []) _))

  -- When the tx queue has room for a copy for each entry of a valid table, process_broadcast_packet puts these copies behind the others, in the order of the table, each from this device to the device of the entry, with the command and the message of the packet and the time at which it was received, changes nothing else and returns ZEJF_OK; the packet's command is not one that network_send_packet handles itself.
  pub process_broadcast_packet-copies :
      (n : Network E)
      → RoutingValid c n.routing
      → p.command ≢ id_request
      → p.command ≢ rip
      → length n.tx_queue + length n.routing.table ≤ c.tx_queue_size
      → process_broadcast_packet platform c p n
        ≡ (ok, record n { tx_queue = n.tx_queue ++ map (copy_for c p) n.routing.table })
  unfolding process_broadcast_packet
  process_broadcast_packet-copies n v i r room =
      let enough : leb (length n.routing.table) (c.tx_queue_size - length n.tx_queue) ≡ true =
        ground arith in
      rw enough (
        broadcast_loop-copies n.routing.table n i r (entries_are_peers c n.routing.table v.not_self)
          room)
