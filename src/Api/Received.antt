-- ===== src/Api/Received.antt =====
-- The packets that a device takes from its rx queue: `network_process_rx` and what it calls, of
-- core/api/zejf_api/src/zejf_network.c, zejf_data.c and data_info.c.
use zejf_meteo.Common.{
  ℕ, ◌==◌, Bool, true, false, List, [], ◌∷◌, ltb, if◌then◌else◌, length, arith, inl, inr,
  Bool-cases, Option-cases,
}
use zejf_meteo.Common.Bytes.{u32_mod}
use zejf_meteo.Common.Text.{scan_unsigned, scan_unsigned-some}
use zejf_meteo.Defs.{Settings}
use zejf_meteo.Hour.{Variable}
use zejf_meteo.Protocol.{Packet, message_bytes}
use zejf_meteo.Network.{Platform, Network}
use zejf_meteo.Network.Tx.{allocate_packet_queue}
use zejf_meteo.Network.Valid.{NetworkValid}
use zejf_meteo.Network.Transmit.{network_send_tx-NetworkValid}
use zejf_meteo.Store.{Store, datahour_get, hour_at}
use zejf_meteo.Store.Bounds.{LoadsBytes, datahour_get-StoreValid}
use zejf_meteo.Info.{Floats, priority_medium, data_provide, data_demand, data_log_command}
use zejf_meteo.Info.Valid.{
  network_send_packet-Kept, process_data_demand-NetworkValid, process_data_provide-NetworkValid,
  process_data_subscribe-NetworkValid,
}
use zejf_meteo.Device.{Device}
use zejf_meteo.Device.RequestText.{
  data_request_command, scan_request, scan_request-typed, data_request_receive,
}
use zejf_meteo.Device.Valid.{DeviceValid, data_log-DeviceValid, data_request_add-DeviceValid}
use zejf_meteo.DataCheck.{data_check_command}
use zejf_meteo.DataCheck.Valid.{data_check_receive-DeviceValid}
use zejf_meteo.Api.{
  scan_log, process_data_log, send_variables, variables_request_process, variables_request_receive,
  variables_request, data_subscribe, on_network, network_catch_packet, network_process_rx,
  network_process_packets,
}
use zejf_meteo.Api.Valid.{ScansWords, scan_log-typed, on_network-DeviceValid, KeepsDevice}

data_request_receive-DeviceValid :
    {E : Type 0} (c : Settings) (p : Packet) (d : Device E)
    → DeviceValid c d
    → DeviceValid c (data_request_receive c p d).1
unfolding data_request_receive
data_request_receive-DeviceValid c p d v =
    elim (Option-cases (scan_request (message_bytes p.message))) [
      | inl e ↦ rw (e, data_request_receive) v
      | inr ((info, hour_number, start_log, end_log), e) ↦
          rw (e, data_request_receive)
            (data_request_add-DeviceValid c p.from info hour_number start_log end_log d
              (scan_request-typed (message_bytes p.message) info hour_number start_log end_log e) v)
    ]

module _ {E : Type 0} (platform : Platform E) (c : Settings) where
  send_variables-NetworkValid :
      (device_id hour_number time : ℕ) (vs : List Variable) (n : Network E)
      → NetworkValid c n
      → NetworkValid c (send_variables platform c device_id hour_number time vs n)
  unfolding send_variables
  send_variables-NetworkValid device_id hour_number time [] n v = v
  send_variables-NetworkValid device_id hour_number time (x ∷ vs) n v =
      send_variables-NetworkValid device_id hour_number time vs _
        (network_send_packet-Kept platform c _ time n v).valid

  module _ (bytes : LoadsBytes platform) where
    variables_request_receive-DeviceValid :
        (p : Packet) (time : ℕ) (d : Device E)
        → DeviceValid c d
        → DeviceValid c (variables_request_receive platform c p time d).1
    unfolding variables_request_receive variables_request_process
    variables_request_receive-DeviceValid p time d v =
        elim (Option-cases (scan_unsigned u32_mod (message_bytes p.message))) [
          | inl e ↦ rw (e, variables_request_receive) v
          | inr ((hour_number, rest), e) ↦
              let small =
                (scan_unsigned-some u32_mod hour_number (message_bytes p.message) rest (omega arith)
                  e).0 in
              let s : Store E = record { hours = d.hours; outside = d.network.outside } in
              let (place, s') = datahour_get platform c hour_number true false s in
              let got =
                (datahour_get-StoreValid platform c hour_number true false s bytes small
                  v.hours).0 in
              let n : Network E = record d.network { outside = s'.outside } in
              let d' : Device E = record d { hours = s'.hours; network = n } in
              let v' : DeviceValid c d' = record {
                network = v.network;
                hours = got;
                requests = v.requests;
                typed = v.typed;
              } in
              elim (Option-cases (hour_at place s'.hours)) [
                | inl f ↦ rw (e, variables_request_receive) (rw (f, variables_request_process) v')
                | inr (hour, f) ↦
                    elim (Bool-cases
                      (ltb (allocate_packet_queue c priority_medium n) (length hour.variables))) [
                        | inl g ↦
                            rw (e, variables_request_receive)
                              (rw (f, variables_request_process) (rw g v'))
                        | inr g ↦
                            rw (e, variables_request_receive)
                              (rw (f, variables_request_process)
                                (rw g (
                                  on_network-DeviceValid c d' _
                                    (send_variables-NetworkValid p.from hour_number time
                                      hour.variables n v.network)
                                    v')))
                      ]
              ]
        ]

module _ {E : Type 0} (platform : Platform E) (c : Settings) (floats : Floats)
    (bytes : LoadsBytes platform) (words : ScansWords floats) where
  process_data_log-DeviceValid :
      (p : Packet) (time : ℕ) (d : Device E)
      → DeviceValid c d
      → DeviceValid c (process_data_log platform c floats p time d).1
  unfolding process_data_log
  process_data_log-DeviceValid p time d v = elim (Option-cases p.message) [
    | inl e ↦ rw (e, process_data_log) v
    | inr (m, e) ↦ elim (Option-cases (scan_log floats m)) [
      | inl f ↦ rw (e, process_data_log, f) v
      | inr ((info, hour_number, sample_num, val), f) ↦
          let t = scan_log-typed floats m info hour_number sample_num val words f in
          rw (e, process_data_log, f)
            (data_log-DeviceValid platform c floats bytes info hour_number sample_num val time false
              d t.id t.hour t.word v)
    ]
  ]

  -- The state after a packet.
  record Caught (r : Bool × Device E) : Type 0 where
    valid : DeviceValid c r.1

  either : (b : Bool) {x y : Bool × Device E} → Caught x → Caught y → Caught (if b then x else y)
  either true hx hy = hx
  either false hx hy = hy

  network_catch_packet-Caught :
      (p : Packet) (time : ℕ) (d : Device E)
      → DeviceValid c d
      → Caught (network_catch_packet platform c floats p time d)
  unfolding network_catch_packet on_network
  network_catch_packet-Caught p time d v =
      let on : (n : Network E) → NetworkValid c n → Caught (true, record d { network = n }) =
        λ n vn. record { valid = on_network-DeviceValid c d n vn v } in
      either (p.command == data_demand)
        (on _ (process_data_demand-NetworkValid c p d.network v.network))
        (either (p.command == data_provide)
          (on _ (process_data_provide-NetworkValid c p d.network v.network))
          (either (p.command == data_log_command)
            (record { valid = process_data_log-DeviceValid p time d v })
            (either (p.command == data_request_command)
              (record { valid = data_request_receive-DeviceValid c p d v })
              (either (p.command == data_check_command)
                (record { valid = data_check_receive-DeviceValid platform c bytes p d v })
                (either (p.command == variables_request)
                  (record {
                    valid = variables_request_receive-DeviceValid platform c bytes p time d v;
                  })
                  (either (p.command == data_subscribe)
                    (on _ (process_data_subscribe-NetworkValid c p d.network v.network))
                    (record { valid = v })))))))

  module _ (handler : Packet → Device E → Device E) (keeps : KeepsDevice c handler) where
    rx-DeviceValid :
        (time : ℕ) (ps : List Packet) (d : Device E)
        → DeviceValid c (record d { network = record d.network { rx_queue = ps } })
        → DeviceValid c (
            network_process_rx platform c floats handler time
              (record d { network = record d.network { rx_queue = ps } }))
    unfolding network_process_rx
    rx-DeviceValid time [] d v = v
    rx-DeviceValid time (p ∷ ps) d v =
        let (rx, tx, place, r) = v.network in
        let d' : Device E = record d { network = record d.network { rx_queue = ps } } in
        let v' : DeviceValid c d' =
          on_network-DeviceValid c _ d'.network (omega (arith, rx), tx, place, r) v in
        let (caught, d'') = network_catch_packet platform c floats p time d' in
        let v'' = (network_catch_packet-Caught p time d' v').valid in
        elim (Bool-cases caught) [ inl e ↦ rw e v'' | inr e ↦ rw e (keeps p d'' v'') ]

    network_process_rx-DeviceValid :
        (time : ℕ) (d : Device E)
        → DeviceValid c d
        → DeviceValid c (network_process_rx platform c floats handler time d)
    network_process_rx-DeviceValid time d v = rx-DeviceValid time d.network.rx_queue d v

    pub network_process_packets-DeviceValid :
        (time : ℕ) (d : Device E)
        → DeviceValid c d
        → DeviceValid c (network_process_packets platform c floats handler time d)
    unfolding network_process_packets
    network_process_packets-DeviceValid time d v =
        let v' = network_process_rx-DeviceValid time d v in
        on_network-DeviceValid c _ _ (network_send_tx-NetworkValid platform c time _ v'.network) v'
