-- ===== src/Network/Transmit.antt =====
-- What `network_send_tx` of core/api/zejf_api/src/zejf_network.c does to the tx queue.
use zejf_meteo.Common.{
  ℕ, ◌-◌, ◌==◌, ◌<◌, ◌≡◌, ◌≢◌, refl, sym, ◌∙◌, Bool, true, false, not, ◌||◌, Option, none, some,
  leb, if◌then◌else◌, length, length-set, length-erase_idx, get_elem?-lt, get_elem?, set, erase_idx,
  arith, inl, inr, Bool-cases, Option-cases, ==→eq, ==→ne,
}
use zejf_meteo.Common.Bytes.{sub32}
use zejf_meteo.Defs.{is_ok, Settings, broadcast}
use zejf_meteo.Protocol.{Packet, packet_to_string}
use zejf_meteo.Routing.{routing_entry_find}
use zejf_meteo.Network.{Platform, Network, send_via}
use zejf_meteo.Network.Tx.{
  next_place, place_without, next_without, packet_remove, next_one, process_broadcast_packet,
  prepare_and_send, send_routed, send_at, turn, network_send_tx, is_send_unable, is_partial,
}
use zejf_meteo.Network.Valid.{IsPlace, NetworkValid, Steady, process_broadcast_packet-Steady}

next_place-lt : (count i : ℕ) → i < count → next_place count i < count
unfolding next_place
next_place-lt count i h = ground arith

place_without-lt : (count i j : ℕ) → i < count → j < count → j ≢ i → place_without i j < count - 1
unfolding place_without
place_without-lt count i j hi hj ne = ground arith

pub next_without-IsPlace :
    (count i : ℕ) (o : Option ℕ)
    → i < count
    → IsPlace count o
    → IsPlace (count - 1) (next_without count i o)
unfolding next_without
next_without-IsPlace count i none h p = tt
next_without-IsPlace count i (some j) h p = elim (Bool-cases (j == i)) [
  | inl e ↦ rw e (elim (Bool-cases (next_place count j == j)) [
    | inl l ↦ rw l tt
    | inr l ↦ rw l (
        place_without-lt count i (next_place count j) h (next_place-lt count j p)
          (λ x. ==→ne _ _ l (x ∙ sym (==→eq j i e))))
  ])
  | inr e ↦ rw e (place_without-lt count i j h p (==→ne j i e))
]

place_of : (o : Option ℕ) (i count : ℕ) → IsPlace count o → o ≡ some i → i < count
place_of none i count p e = cc
place_of (some j) i count p e = let same : j ≡ i = cc in omega arith

module _ {E : Type 0} (c : Settings) where
  pub record Sound (n : Network E) : Type 0 where
    pub valid : NetworkValid c n

  either : (b : Bool) {x y : Network E} → Sound x → Sound y → Sound (if b then x else y)
  either true hx hy = hx
  either false hx hy = hy

  packet_remove-Sound : (i : ℕ) (n : Network E) → Steady c (some i) n → Sound (packet_remove i n)
  unfolding packet_remove
  packet_remove-Sound i n ((rx, tx, place, v), e) =
      let at : i < length n.tx_queue = place_of n.next_packet i (length n.tx_queue) place e in
      let shorter = length-erase_idx n.tx_queue i at in
      let count : length (erase_idx n.tx_queue i) ≡ length n.tx_queue - 1 = omega arith in
      record {
        valid = (
          rx,
          omega arith,
          rw count (next_without-IsPlace (length n.tx_queue) i n.next_packet at place),
          v,
        );
      }

  next_one-Sound : (i : ℕ) (n : Network E) → Steady c (some i) n → Sound (next_one i n)
  unfolding next_one
  next_one-Sound i n ((rx, tx, place, v), e) =
      let at : i < length n.tx_queue = place_of n.next_packet i (length n.tx_queue) place e in
      record { valid = (rx, tx, next_place-lt (length n.tx_queue) i at, v) }

  set-Steady :
      (i : ℕ) (p : Packet) (n : Network E)
      → Steady c (some i) n
      → Steady c (some i) (record n { tx_queue = set n.tx_queue i p })
  set-Steady i p n ((rx, tx, place, v), e) = rw (length-set n.tx_queue i p) ((rx, tx, place, v), e)

module _ {E : Type 0} (platform : Platform E) (c : Settings) where
  prepare_and_send-Steady :
      {o : Option ℕ} (p : Packet) (interface time : ℕ) (n : Network E)
      → Steady c o n
      → Steady c o (prepare_and_send platform c p interface time n).2
  unfolding prepare_and_send send_via
  prepare_and_send-Steady p interface time n s =
      elim (Bool-cases (not (is_ok (packet_to_string p c.packet_max_length).0))) [
        | inl e ↦ rw e s
        | inr e ↦ rw e s
      ]

  send_routed-Sound :
      (i : ℕ) (p : Packet) (time : ℕ) (n : Network E)
      → Steady c (some i) n
      → Sound c (send_routed platform c i p time n)
  unfolding send_routed
  send_routed-Sound i p time n s = elim (Option-cases (routing_entry_find n.routing.table p.to)) [
    | inl e ↦ rw (e, send_routed) (packet_remove-Sound c i n s)
    | inr (entry, e) ↦
        rw (e, send_routed)
          (let sent =
              prepare_and_send platform c (record p { time_sent = time }) entry.interface time n in
            let s' =
              set-Steady c i sent.1 sent.2 (
                prepare_and_send-Steady (record p { time_sent = time }) entry.interface time n s) in
            either c (is_send_unable sent.0) (next_one-Sound c i _ s')
              (packet_remove-Sound c i _ s'))
  ]

  send_at-Sound :
      (i : ℕ) (p : Packet) (time : ℕ) (n : Network E)
      → Steady c (some i) n
      → Sound c (send_at platform c i p time n)
  unfolding send_at
  send_at-Sound i p time n s =
      let drop = packet_remove-Sound c i n s in
      let (rv, n') = process_broadcast_packet platform c p n in
      let s' = (process_broadcast_packet-Steady platform c (some i) p n s).steady in
      either c (leb c.packet_delete_timeout (sub32 time p.time_received)) drop (
        either c (p.to == broadcast)
          (either c (is_ok rv || is_partial rv) (packet_remove-Sound c i n' s')
            (next_one-Sound c i n' s'))
          (send_routed-Sound i p time n s))

  -- network_send_tx keeps the queues within their capacities, next_packet in its queue, and the table valid.
  pub network_send_tx-NetworkValid :
      (time : ℕ) (n : Network E)
      → NetworkValid c n
      → NetworkValid c (network_send_tx platform c time n)
  unfolding network_send_tx
  network_send_tx-NetworkValid time n (rx, tx, place, v) =
      elim (Option-cases (get_elem? n.tx_queue (turn n))) [
        | inl e ↦ rw (e, network_send_tx) (rx, tx, place, v)
        | inr (p, e) ↦
            let at = get_elem?-lt n.tx_queue (turn n) e in
            rw (e, network_send_tx)
              (send_at-Sound (turn n) p time (record n { next_packet = some (turn n) })
                ((rx, tx, at, v), refl)).valid
      ]
