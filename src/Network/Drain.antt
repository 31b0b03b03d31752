-- ===== src/Network/Drain.antt =====
-- Repeated calls of `network_send_tx` of core/api/zejf_api/src/zejf_network.c empty the tx queue.
use zejf_meteo.Common.{
  ℕ, zero, suc, ◌≤◌, ◌<◌, ◌≡◌, ◌≢◌, refl, ap, sym, false, Option, none, some, List, [], ◌∷◌, leb,
  length, All, length-erase_idx, erase_idx-set, All-erase_idx, All-get_elem?, get_elem?, erase_idx,
  arith, inl, inr, Bool-cases, Option-cases, ==_ne,
}
use zejf_meteo.Common.Bytes.{sub32}
use zejf_meteo.Defs.{Settings, broadcast}
use zejf_meteo.Protocol.{Packet, packet_to_string}
use zejf_meteo.Routing.{routing_entry_find}
use zejf_meteo.Network.{Platform, Network, send_via}
use zejf_meteo.Network.Tx.{
  packet_remove, prepare_and_send, send_routed, send_at, turn, network_send_tx, is_send_unable,
}
use zejf_meteo.Network.Valid.{IsPlace, NetworkValid}
use zejf_meteo.Network.Transmit.{network_send_tx-NetworkValid}

-- A platform that does not refuse a message for want of room.
abbrev pub Able : {E : Type 0} → Platform E → Type 0
Able {E = E} platform =
    (msg : List ℕ) (interface : Option ℕ) (time : ℕ) (world : E)
    → is_send_unable (platform.network_send_via msg interface time world).0 ≡ false

abbrev pub IsUnicast : Packet → Type 0
IsUnicast p = p.to ≢ broadcast

erase_idx-none : (xs : List Packet) (i : ℕ) → get_elem? xs i ≡ none → erase_idx xs i ≡ xs
erase_idx-none [] i e = refl
erase_idx-none (x ∷ xs) zero e = cc
erase_idx-none (x ∷ xs) (suc i) e = ap (◌∷◌ x) (erase_idx-none xs i e)

place-lt :
    (o : Option ℕ) (count : ℕ)
    → IsPlace count o
    → 0 < count
    → elim o [ none ↦ 0 | some i ↦ i ] < count
place-lt none count p h = h
place-lt (some i) count p h = p

shorter :
    (xs : List Packet) (i k : ℕ)
    → (0 < length xs → i < length xs)
    → length xs ≤ suc k
    → length (erase_idx xs i) ≤ k
shorter [] i k f h = omega arith
shorter (x ∷ xs) i k f h = let at = f (omega arith) in omega (arith, length-erase_idx (x ∷ xs) i at)

nil-of-length : (xs : List Packet) → length xs ≤ 0 → xs ≡ []
nil-of-length [] h = refl
nil-of-length (x ∷ xs) h = absurd (omega arith)

module _ {E : Type 0} (platform : Platform E) (c : Settings) where
  -- A call for each time.
  unfoldable pub send_all : List ℕ → Network E → Network E
  send_all [] n = n
  send_all (time ∷ times) n = send_all times (network_send_tx platform c time n)

  routed-removes :
      (i : ℕ) (p : Packet) (time : ℕ) (n : Network E)
      → Able platform
      → (send_routed platform c i p time n).tx_queue ≡ erase_idx n.tx_queue i
  unfolding send_routed packet_remove prepare_and_send send_via packet_to_string
  routed-removes i p time n able = elim (Option-cases (routing_entry_find n.routing.table p.to)) [
    | inl e ↦ rw (e, send_routed) refl
    | inr (entry, e) ↦
        rw (e, send_routed)
          (rw (able _ (some entry.interface) time n.outside) (erase_idx-set n.tx_queue i _))
  ]

  send_at-removes :
      (i : ℕ) (p : Packet) (time : ℕ) (n : Network E)
      → Able platform
      → IsUnicast p
      → (send_at platform c i p time n).tx_queue ≡ erase_idx n.tx_queue i
  unfolding send_at packet_remove
  send_at-removes i p time n able u =
      elim (Bool-cases (leb c.packet_delete_timeout (sub32 time p.time_received))) [
        | inl e ↦ rw e refl
        | inr e ↦ rw (e, ==_ne p.to broadcast u) (routed-removes i p time n able)
      ]

  -- A call takes the packet whose turn it is out of the queue.
  network_send_tx-removes :
      (time : ℕ) (n : Network E)
      → Able platform
      → All IsUnicast n.tx_queue
      → (network_send_tx platform c time n).tx_queue ≡ erase_idx n.tx_queue (turn n)
  unfolding network_send_tx
  network_send_tx-removes time n able u = elim (Option-cases (get_elem? n.tx_queue (turn n))) [
    | inl e ↦ rw (e, network_send_tx) (sym (erase_idx-none n.tx_queue (turn n) e))
    | inr (p, e) ↦
        rw (e, network_send_tx)
          (send_at-removes (turn n) p time (record n { next_packet = some (turn n) }) able
            (All-get_elem? IsUnicast n.tx_queue (turn n) p u e))
  ]

  -- When the platform takes every message and no packet in a valid state's tx queue is a broadcast, as many calls of network_send_tx as there are packets, at whatever times, leave the tx queue empty.
  pub send_all-empties :
      (times : List ℕ) (n : Network E)
      → NetworkValid c n
      → Able platform
      → All IsUnicast n.tx_queue
      → length n.tx_queue ≤ length times
      → (send_all times n).tx_queue ≡ []
  unfolding send_all
  send_all-empties [] n v able u h = nil-of-length n.tx_queue h
  send_all-empties (time ∷ times) n v able u h =
      let gone = network_send_tx-removes time n able u in
      let u' : All IsUnicast (network_send_tx platform c time n).tx_queue =
        rw gone (All-erase_idx IsUnicast n.tx_queue (turn n) u) in
      send_all-empties times (network_send_tx platform c time n)
        (network_send_tx-NetworkValid platform c time n v) able u'
        (rw gone (
          shorter n.tx_queue (turn n) (length times)
            (place-lt n.next_packet (length n.tx_queue) v.2) h))
