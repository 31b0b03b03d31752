-- ===== src/Info/Announce.antt =====
-- Who gets a sample that `data_log` announces or broadcasts: the loops of
-- core/api/zejf_api/src/data_info.c.
use mathlib.Core.List.{append_assoc, append-nil}
use zejf_meteo.Common.{ ==_comm,
  ℕ, ◌+◌, ◌==◌, ◌≤◌, ◌≡◌, refl, ap, ◌∙◌, Bool, true, false, ◌||◌, has, some, List, [], ◌∷◌, ◌++◌, map, if◌then◌else◌, length,
  length-append, All, arith, inl, inr, Bool-cases,
}
use zejf_meteo.Defs.{ok, Settings, VariableInfo, all_variables}
use zejf_meteo.Protocol.{Packet}
use zejf_meteo.Routing.{RoutingEntry}
use zejf_meteo.Routing.Valid.{RoutingValid}
use zejf_meteo.Network.{Platform, Network}
use zejf_meteo.Network.Broadcast.{queued, IsPeer, entries_are_peers, network_send_packet-peer}
use zejf_meteo.Info.{
  Floats, demands, data_log_command, print_message, log_text, data_send_log, log_loop,
  network_announce_log, network_broadcast_log,
}

-- The packet with a sample for the device of an entry.
unfoldable pub log_packet :
    Settings → Floats → VariableInfo → (hour_number sample_num val : ℕ) → ℕ → RoutingEntry → Packet
log_packet c floats info hour_number sample_num val time e =
    queued c e.device_id data_log_command
      (some (print_message c (log_text floats info hour_number sample_num val))) time

-- The entries that pass a test.
unfoldable pub chosen : (RoutingEntry → Bool) → List RoutingEntry → List RoutingEntry
chosen wanted [] = []
chosen wanted (e ∷ es) = if wanted e then e ∷ chosen wanted es else chosen wanted es

shuffle : (a b x y : Bool) → ((a || b) || (x || y)) ≡ ((b || x) || (a || y))
shuffle true true x y = refl
shuffle true false true y = refl
shuffle true false false y = refl
shuffle false true x y = refl
shuffle false false x y = refl

-- A device that has demanded the variable, or all of them.
unfoldable pub asks_for : (id : ℕ) → RoutingEntry → Bool
asks_for id e = has id e.demanded_variables || has all_variables e.demanded_variables

demands-has : (vs : List ℕ) (id : ℕ) → demands vs id ≡ (has id vs || has all_variables vs)
unfolding demands
demands-has [] id = refl
demands-has (v ∷ vs) id =
    rw (demands-has vs id, ==_comm id v, ==_comm all_variables v)
      (shuffle (v == all_variables) (v == id) (has id vs) (has all_variables vs))

chosen-asks_for :
    (id : ℕ) (es : List RoutingEntry)
    → chosen (λ e. demands e.demanded_variables id) es ≡ chosen (asks_for id) es
unfolding chosen asks_for
chosen-asks_for id [] = refl
chosen-asks_for id (e ∷ es) =
    rw (demands-has e.demanded_variables id, chosen-asks_for id es) refl

module _ {E : Type 0} (platform : Platform E) (c : Settings) (floats : Floats) (info : VariableInfo)
    (hour_number sample_num val time : ℕ) where
  log_loop-chosen :
      (wanted : RoutingEntry → Bool) (es : List RoutingEntry) (n : Network E)
      → All (IsPeer c n.routing.table) es
      → length n.tx_queue + length es ≤ c.tx_queue_size
      → log_loop platform c wanted
          (λ e. data_send_log platform c floats e.device_id info hour_number sample_num val time)
          ok
          es
          n
        ≡ (
          ok,
          record n {
            tx_queue =
                n.tx_queue
                ++ map
                    (log_packet c floats info hour_number sample_num val time)
                    (chosen wanted es);
          },
        )
  unfolding log_loop chosen data_send_log log_packet
  log_loop-chosen wanted [] n peers room = rw append-nil refl
  log_loop-chosen wanted (e ∷ es) n (peer, peers) room =
      let p = log_packet c floats info hour_number sample_num val time e in
      let longer = length-append n.tx_queue (p ∷ []) in
      let n' : Network E = record n { tx_queue = n.tx_queue ++ (p ∷ []) } in
      let msg = some (print_message c (log_text floats info hour_number sample_num val)) in
      elim (Bool-cases (wanted e)) [
        | inl w ↦
            rw
              (
                w,
                network_send_packet-peer platform c e data_log_command msg time n (omega arith)
                    (omega arith) peer (omega arith),
              )
              (log_loop-chosen wanted es n' peers (omega arith)
                ∙ ap (λ t. (ok, record n { tx_queue = t })) (append_assoc n.tx_queue (p ∷ []) _))
        | inr w ↦ rw w (log_loop-chosen wanted es n peers (omega arith))
      ]

  -- While the tx queue has room for an entry of a valid table each, network_announce_log queues one packet with the sample for each device that has the variable or ALL_VARIABLES among those it demands, in the order of the table, changes nothing else and returns ZEJF_OK.
  pub network_announce_log-chosen :
      (n : Network E)
      → RoutingValid c n.routing
      → length n.tx_queue + length n.routing.table ≤ c.tx_queue_size
      → network_announce_log platform c floats info hour_number sample_num val time n ≡ (
        ok,
        record n {
          tx_queue =
              n.tx_queue
              ++ map
                  (log_packet c floats info hour_number sample_num val time)
                  (chosen (asks_for info.id) n.routing.table);
        },
      )
  unfolding network_announce_log
  network_announce_log-chosen n v room =
      rw (← chosen-asks_for info.id n.routing.table)
        (log_loop-chosen (λ e. demands e.demanded_variables info.id) n.routing.table n
          (entries_are_peers c n.routing.table v.not_self) room)

  -- While the tx queue has room for an entry of a valid table each, network_broadcast_log queues one packet with the sample for each device that has subscribed, in the order of the table, and nothing else changes.
  pub network_broadcast_log-chosen :
      (n : Network E)
      → RoutingValid c n.routing
      → length n.tx_queue + length n.routing.table ≤ c.tx_queue_size
      → network_broadcast_log platform c floats info hour_number sample_num val time n ≡ (
        ok,
        record n {
          tx_queue =
              n.tx_queue
              ++ map
                  (log_packet c floats info hour_number sample_num val time)
                  (chosen (λ e. e.subscribed) n.routing.table);
        },
      )
  unfolding network_broadcast_log
  network_broadcast_log-chosen n v room =
      log_loop-chosen (λ e. e.subscribed) n.routing.table n
        (entries_are_peers c n.routing.table v.not_self) room
