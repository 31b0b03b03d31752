-- ===== src/Api/Removed.antt =====
-- `interface_removed` of core/api/zejf_api/src/zejf_routing.c: the table and the queue.
use mathlib.Core.Path.{subst}
use zejf_meteo.Common.{
  ℕ, zero, suc, ◌-◌, ◌==◌, ◌<◌, ◌≡◌, Bool, true, false, ◌||◌, if◌then◌else◌, length, get_elem?,
  get_elem?-lt, erase_idx, length-erase_idx, arith, inl, inr, Option-cases,
}
use zejf_meteo.Defs.{Settings}
use zejf_meteo.Routing.{drop_interface}
use zejf_meteo.Routing.Valid.{drop_interface-RoutingValid}
use zejf_meteo.Network.{Network}
use zejf_meteo.Network.Tx.{next_place, packet_remove}
use zejf_meteo.Network.Valid.{NetworkValid}
use zejf_meteo.Network.Transmit.{next_without-IsPlace}
use zejf_meteo.Network.Removed.{
  Sweep, done, use_after_free, concerns, removed_loop, network_interface_removed,
}
use zejf_meteo.Api.{interface_removed}

module _ {E : Type 0} (c : Settings) where
  -- The loop, where it ends, ends in a valid network.
  pub record Swept (s : Sweep E) : Type 0 where
    pub valid : (n : Network E) → s ≡ done n → NetworkValid c n

  either : (b : Bool) {x y : Sweep E} → Swept x → Swept y → Swept (if b then x else y)
  either true hx hy = hx
  either false hx hy = hy

  freed : Swept use_after_free
  freed = record { valid = λ n e. cc }

  ended : (n : Network E) → NetworkValid c n → Swept (done n)
  ended n v = record { valid = λ m e. let same : n ≡ m = cc in subst (NetworkValid c) same v }

  packet_remove-NetworkValid :
      (i : ℕ) (n : Network E)
      → i < length n.tx_queue
      → NetworkValid c n
      → NetworkValid c (packet_remove i n)
  unfolding packet_remove
  packet_remove-NetworkValid i n at (rx, tx, place, v) =
      let shorter = length-erase_idx n.tx_queue i at in
      let count : length (erase_idx n.tx_queue i) ≡ length n.tx_queue - 1 = omega arith in
      (
        rx,
        omega arith,
        rw count (next_without-IsPlace (length n.tx_queue) i n.next_packet at place),
        v,
      )

  removed_loop-Swept :
      (rounds interface i : ℕ) (n : Network E)
      → NetworkValid c n
      → Swept (removed_loop rounds interface i n)
  unfolding removed_loop
  removed_loop-Swept zero interface i n v = record { valid = λ m e. cc }
  removed_loop-Swept (suc rounds) interface i n v = elim (Option-cases (get_elem? n.tx_queue i)) [
    | inl e ↦ rw (e, removed_loop) freed
    | inr (p, e) ↦
        let n' = packet_remove i n in
        let v' = packet_remove-NetworkValid i n (get_elem?-lt n.tx_queue i e) v in
        rw (e, removed_loop)
          (either (concerns interface p)
            (either (length n.tx_queue == 1) freed (
              either ((i == 0) || (i == length n'.tx_queue)) (ended n' v')
                (removed_loop-Swept rounds interface i n' v')))
            (either (next_place (length n.tx_queue) i == 0) (ended n v)
              (removed_loop-Swept rounds interface (next_place (length n.tx_queue) i) n v)))
  ]

  pub interface_removed-Swept :
      (interface : ℕ) (n : Network E) → NetworkValid c n → Swept (interface_removed interface n)
  unfolding interface_removed network_interface_removed
  interface_removed-Swept interface n (rx, tx, place, v) =
      let n' : Network E = record n { routing = drop_interface interface n.routing } in
      let v' : NetworkValid c n' =
        (rx, tx, place, drop_interface-RoutingValid c interface n.routing v) in
      either (length n.tx_queue == 0) (ended n' v')
        (removed_loop-Swept (length n.tx_queue) interface 0 n' v')
