-- ===== src/Network/Removed.antt =====
-- What `network_interface_removed` of core/api/zejf_api/src/zejf_network.c leaves in the tx queue.
use zejf_meteo.Common.{
  get_elem?-middle, erase_idx-middle, ℕ, zero, suc, ◌+◌, ◌==◌, ◌≡◌, refl, ap, ◌∙◌, Bool, true,
  false, ◌||◌, Option, none, some, List, [], ◌∷◌, ◌++◌, if◌then◌else◌, length, length-append, ◌<◌,
  get_elem?, erase_idx, arith, ==_ne, ==-of-eq, sym, Bool-cases, Option-cases, inl, inr,
}
use mathlib.Core.List.{append_assoc}
use mathlib.Core.Bool.{or-false}
use zejf_meteo.Protocol.{Packet}
use zejf_meteo.Network.{Network}
use zejf_meteo.Network.Tx.{next_place, packet_remove}

-- How the loop ends: with the queue as it is then, on a node that was freed, or not within the rounds.
pub data Sweep (E : Type 0) : Type 0 where
  done : Network E → Sweep E
  use_after_free out_of_rounds : Sweep E

abbrev points_at : ℕ → Option ℕ → Bool
points_at interface none = false
points_at interface (some i) = i == interface

unfoldable pub concerns : ℕ → Packet → Bool
concerns interface p =
    points_at interface p.destination_interface || points_at interface p.source_interface

module _ {E : Type 0} where
  -- One round at place `i`. The next node is that after the removed one, which for the last packet is
  -- itself; `tail` is place 0, also after a removal at place 0.
  unfoldable pub removed_loop : (rounds : ℕ) → (interface i : ℕ) → Network E → Sweep E
  unfolding concerns
  removed_loop zero interface i n = out_of_rounds
  removed_loop (suc rounds) interface i n = elim (get_elem? n.tx_queue i) [
    | none ↦ use_after_free
    | some p ↦
        if concerns interface p
        then (let n' = packet_remove i n in
            if length n.tx_queue == 1
            then use_after_free
            else if (i == 0) || (i == length n'.tx_queue)
            then done n'
            else removed_loop rounds interface i n')
        else if next_place (length n.tx_queue) i == 0
        then done n
        else removed_loop rounds interface (next_place (length n.tx_queue) i) n
  ]

  unfoldable pub network_interface_removed : (interface : ℕ) → Network E → Sweep E
  unfolding removed_loop
  network_interface_removed interface n =
      if length n.tx_queue == 0 then done n else removed_loop (length n.tx_queue) interface 0 n

-- The specification: what a packet of these two interfaces has to do with an interface.
unfoldable pub uses : (interface : ℕ) → (destination source : Option ℕ) → Bool
uses interface none none = false
uses interface none (some b) = b == interface
uses interface (some a) none = a == interface
uses interface (some a) (some b) = (a == interface) || (b == interface)

abbrev pub is_of : (interface : ℕ) → Packet → Bool
is_of interface p = uses interface p.destination_interface p.source_interface

concerns-is_of : (interface : ℕ) (p : Packet) → concerns interface p ≡ is_of interface p
unfolding concerns uses
concerns-is_of interface p = elim (Option-cases p.destination_interface) [
  | inl e ↦ elim (Option-cases p.source_interface) [
    | inl f ↦ rw (e, f) refl
    | inr (b, f) ↦ rw (e, f) refl
  ]
  | inr (a, e) ↦ elim (Option-cases p.source_interface) [
    | inl f ↦ rw (e, f, or-false) refl
    | inr (b, f) ↦ rw (e, f) refl
  ]
]

-- The packets that neither come over an interface nor go out over it.
unfoldable pub without : ℕ → List Packet → List Packet
unfolding uses
without interface [] = []
without interface (p ∷ ps) =
    if is_of interface p then without interface ps else p ∷ without interface ps

abbrev pub queue_after : {E : Type 0} → Sweep E → Option (List Packet)
queue_after (done n) = some n.tx_queue
queue_after use_after_free = none
queue_after out_of_rounds = none

module _ {E : Type 0} where
  -- A round at a packet that goes, and at one that stays.
  round-removed :
      (rounds interface i : ℕ) (p : Packet) (n : Network E)
      → get_elem? n.tx_queue i ≡ some p
      → is_of interface p ≡ true
      → removed_loop (suc rounds) interface i n ≡ (
          if length n.tx_queue == 1
          then use_after_free
          else if (i == 0) || (i == length (erase_idx n.tx_queue i))
          then done (packet_remove i n)
          else removed_loop rounds interface i (packet_remove i n))
  unfolding removed_loop packet_remove
  round-removed rounds interface i p n g e =
      rw (g, removed_loop) (rw (concerns-is_of interface p, e) refl)

  round-kept :
      (rounds interface i : ℕ) (p : Packet) (n : Network E)
      → get_elem? n.tx_queue i ≡ some p
      → is_of interface p ≡ false
      → removed_loop (suc rounds) interface i n
        ≡ (if i + 1 == length n.tx_queue then done n else removed_loop rounds interface (i + 1) n)
  unfolding removed_loop next_place
  round-kept rounds interface i p n g e = elim (Bool-cases ((i + 1) == length n.tx_queue)) [
    | inl l ↦ rw (g, removed_loop) (rw (concerns-is_of interface p, e, l) refl)
    | inr l ↦ rw (g, removed_loop) (rw (concerns-is_of interface p, e, l, ==_ne (i + 1) 0 (omega arith)) refl)
  ]

  -- The place of a packet, and what is there without it.
  record Cut (kept : List Packet) (p : Packet) (rest : List Packet) (n : Network E) : Type 0 where
    here : get_elem? n.tx_queue (length kept) ≡ some p
    gone : erase_idx n.tx_queue (length kept) ≡ kept ++ rest
    count : length n.tx_queue ≡ length kept + 1 + length rest
    left : length (erase_idx n.tx_queue (length kept)) ≡ length kept + length rest

  cut :
      (kept : List Packet) (p : Packet) (rest : List Packet) (n : Network E)
      → n.tx_queue ≡ kept ++ (p ∷ rest)
      → Cut kept p rest n
  cut kept p rest n q = record {
    here = ap (λ t. get_elem? t (length kept)) q ∙ get_elem?-middle kept p rest;
    gone = ap (λ t. erase_idx t (length kept)) q ∙ erase_idx-middle kept p rest;
    count = ap length q ∙ omega (arith, length-append kept (p ∷ rest));
    left =
        ap (λ t. length (erase_idx t (length kept))) q
        ∙ (ap length (erase_idx-middle kept p rest) ∙ length-append kept rest);
  }

  loop-without :
      (rounds interface : ℕ) (kept : List Packet) (p : Packet) (rest : List Packet) (n : Network E)
      → n.tx_queue ≡ kept ++ (p ∷ rest)
      → 0 < length kept
      → length rest < rounds
      → queue_after (removed_loop rounds interface (length kept) n)
        ≡ some (kept ++ without interface (p ∷ rest))
  unfolding without packet_remove
  loop-without zero interface kept p rest n q h r = absurd (omega arith)
  loop-without (suc rounds) interface kept p [] n q h r =
      let i = length kept in
      let w = cut kept p [] n q in
      elim (Bool-cases (is_of interface p)) [
        | inl e ↦
            rw
              (
                round-removed rounds interface i p n w.here e,
                ==_ne (length n.tx_queue) 1 (omega (arith, w.count)),
                ==_ne i 0 (omega arith),
                ==-of-eq i (length (erase_idx n.tx_queue i)) (omega (arith, w.left)),
                e,
              )
              (ap some w.gone)
        | inr e ↦
            rw
              (
                round-kept rounds interface i p n w.here e,
                ==-of-eq (i + 1) (length n.tx_queue) (omega (arith, w.count)),
                e,
              )
              (ap some q)
      ]
  loop-without (suc rounds) interface kept p (p' ∷ rest) n q h r =
      let i = length kept in
      let w = cut kept p (p' ∷ rest) n q in
      elim (Bool-cases (is_of interface p)) [
        | inl e ↦
            rw
              (
                round-removed rounds interface i p n w.here e,
                ==_ne (length n.tx_queue) 1 (omega (arith, w.count)),
                ==_ne i 0 (omega arith),
                ==_ne i (length (erase_idx n.tx_queue i)) (omega (arith, w.left)),
                e,
              )
              (loop-without rounds interface kept p' rest (packet_remove i n) w.gone h
                (omega arith))
        | inr e ↦
            let on : length (kept ++ (p ∷ [])) ≡ i + 1 = length-append kept (p ∷ []) in
            let q' : n.tx_queue ≡ (kept ++ (p ∷ [])) ++ (p' ∷ rest) =
              q ∙ sym (append_assoc kept (p ∷ []) (p' ∷ rest)) in
            let ih =
              loop-without rounds interface (kept ++ (p ∷ [])) p' rest n q' (omega arith)
                (omega arith) in
            rw
              (
                round-kept rounds interface i p n w.here e,
                ==_ne (i + 1) (length n.tx_queue) (omega (arith, w.count)),
                e,
                ← on,
                ← append_assoc kept (p ∷ []) (without interface (p' ∷ rest)),
              )
              ih
      ]

-- The loop after its first round, at a tail that stays.
first_round :
    {E : Type 0} (interface : ℕ) (p : Packet) (ps : List Packet) (n : Network E)
    → n.tx_queue ≡ p ∷ ps
    → is_of interface p ≡ false
    → queue_after (removed_loop (suc (length ps)) interface 0 n) ≡ some (p ∷ without interface ps)
unfolding without
first_round interface p [] n q e =
    let here : get_elem? n.tx_queue 0 ≡ some p = ap (λ t. get_elem? t 0) q in
    let count : 1 ≡ length n.tx_queue = sym (ap length q) in
    rw (round-kept 0 interface 0 p n here e, ==-of-eq 1 (length n.tx_queue) count) (ap some q)
first_round interface p (p' ∷ ps) n q e =
    let here : get_elem? n.tx_queue 0 ≡ some p = ap (λ t. get_elem? t 0) q in
    let count : length n.tx_queue ≡ suc (suc (length ps)) = ap length q in
    rw
      (
        round-kept (suc (length ps)) interface 0 p n here e,
        ==_ne 1 (length n.tx_queue) (omega (arith, count)),
      )
      (loop-without (suc (length ps)) interface (p ∷ []) p' ps n q (omega arith) (omega arith))

module _ {E : Type 0} (interface : ℕ) (p : Packet) (ps : List Packet) (n : Network E) where
  -- While the packet at the tail neither came over the removed interface nor was last sent over it, network_interface_removed leaves exactly the packets of which neither holds, in their order.
  pub network_interface_removed-without :
      n.tx_queue ≡ p ∷ ps
      → is_of interface p ≡ false
      → queue_after (network_interface_removed interface n) ≡ some (without interface n.tx_queue)
  unfolding network_interface_removed without
  network_interface_removed-without q e =
      let count : length n.tx_queue ≡ suc (length ps) = ap length q in
      let first : without interface n.tx_queue ≡ p ∷ without interface ps =
        ap (without interface) q ∙ rw e refl in
      rw (==_ne (length n.tx_queue) 0 (omega (arith, count)), count, first)
        (first_round interface p ps n q e)

  -- When the packet at the tail came over the removed interface or was last sent over it, and others are behind it, network_interface_removed removes that one and leaves all the others, whatever interfaces they have.
  pub network_interface_removed-misses :
      n.tx_queue ≡ p ∷ ps
      → 0 < length ps
      → is_of interface p ≡ true
      → queue_after (network_interface_removed interface n) ≡ some ps
  unfolding network_interface_removed packet_remove
  network_interface_removed-misses q h e =
      let here : get_elem? n.tx_queue 0 ≡ some p = ap (λ t. get_elem? t 0) q in
      let count : length n.tx_queue ≡ suc (length ps) = ap length q in
      rw
        (
          ==_ne (length n.tx_queue) 0 (omega (arith, count)),
          count,
          round-removed (length ps) interface 0 p n here e,
          ==_ne (length n.tx_queue) 1 (omega (arith, count)),
        )
        (ap (λ t. some (erase_idx t 0)) q)

module _ {E : Type 0} (interface : ℕ) (p : Packet) (n : Network E) where
  -- When the only packet of the queue concerns the removed interface, network_interface_removed goes on to a node that it has freed.
  pub network_interface_removed-alone :
      n.tx_queue ≡ p ∷ []
      → is_of interface p ≡ true
      → network_interface_removed interface n ≡ use_after_free
  unfolding network_interface_removed
  network_interface_removed-alone q e =
      let here : get_elem? n.tx_queue 0 ≡ some p = ap (λ t. get_elem? t 0) q in
      let count : length n.tx_queue ≡ 1 = ap length q in
      rw
        (
          ==_ne (length n.tx_queue) 0 (omega (arith, count)),
          count,
          round-removed 0 interface 0 p n here e,
          ==-of-eq (length n.tx_queue) 1 count,
        )
        refl
