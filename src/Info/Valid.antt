-- ===== src/Info/Valid.antt =====
-- What holds of the queues and the table through the functions of core/api/zejf_api/src/data_info.c.
use zejf_meteo.Common.{
  ℕ, zero, suc, ◌+◌, ◌%◌, ◌==◌, ◌≡◌, refl, ◌∙◌, Bool, true, false, not, Option, none, some, List,
  [], ◌∷◌, if◌then◌else◌, length, get_elem?, inl, inr, Bool-cases, Option-cases, has,
}
use zejf_meteo.Common.Bytes.{u16_mod}
use zejf_meteo.Defs.{ZejfErr, ok, is_ok, Settings, VariableInfo}
use zejf_meteo.Protocol.{Packet}
use zejf_meteo.Routing.{
  RoutingEntry, provides, routing_entry_find, routing_entry_add_demanded_variable,
  routing_entry_add_provided_variable,
}
use zejf_meteo.Routing.Valid.{device_ids-set_entry, length-set_entry, routing_entry_find-device_id}
use zejf_meteo.Network.{Platform, Network, network_send_packet}
use zejf_meteo.Network.Valid.{NetworkValid, network_send_packet-Steady}
use zejf_meteo.Info.{
  Floats, p_send_provide, p_send_demand, provide_loop, network_send_provide_info, demand_loop,
  network_send_demand_info, data_send_log, log_loop, network_announce_log, network_broadcast_log,
  change_entry, with_scanned, process_data_demand, process_data_provide, process_data_subscribe,
  scan_demand, scan_provide, demands,
}

module _ {E : Type 0} (platform : Platform E) (c : Settings) where
  -- The result of a step, with a valid network.
  pub record Kept (r : ZejfErr × Network E) : Type 0 where
    pub valid : NetworkValid c r.1

  pub keep : {r : ZejfErr × Network E} → NetworkValid c r.1 → Kept r
  keep v = record { valid = v }

  pub either : (b : Bool) {x y : ZejfErr × Network E} → Kept x → Kept y → Kept (if b then x else y)
  either true hx hy = hx
  either false hx hy = hy

  -- Sending any packet keeps a network valid.
  pub network_send_packet-Kept :
      (p : Packet) (time : ℕ) (n : Network E)
      → NetworkValid c n
      → Kept (network_send_packet platform c p time n)
  network_send_packet-Kept p time n v =
      keep (network_send_packet-Steady platform c n.next_packet p time n (v, refl)).steady.0

  log_loop-Kept :
      (wanted : RoutingEntry → Bool) (send : RoutingEntry → Network E → ZejfErr × Network E)
      (es : List RoutingEntry) (result : ZejfErr) (n : Network E)
      → ((e : RoutingEntry) (n : Network E) → NetworkValid c n → Kept (send e n))
      → NetworkValid c n
      → Kept (log_loop platform c wanted send result es n)
  unfolding log_loop
  log_loop-Kept wanted send [] result n s v = keep v
  log_loop-Kept wanted send (e ∷ es) result n s v =
      either (not (wanted e)) (log_loop-Kept wanted send es result n s v)
        (log_loop-Kept wanted send es _ _ s (s e n v).valid)

  module _ (floats : Floats) (info : VariableInfo) (hour_number sample_num val time : ℕ) where
    pub data_send_log-Kept :
        (to : ℕ) (n : Network E)
        → NetworkValid c n
        → Kept (data_send_log platform c floats to info hour_number sample_num val time n)
    unfolding data_send_log
    data_send_log-Kept to n v = network_send_packet-Kept _ time n v

    pub network_announce_log-Kept :
        (n : Network E)
        → NetworkValid c n
        → Kept (network_announce_log platform c floats info hour_number sample_num val time n)
    unfolding network_announce_log
    network_announce_log-Kept n v =
        log_loop-Kept (λ e. demands e.demanded_variables info.id)
          (λ e. data_send_log platform c floats e.device_id info hour_number sample_num val time)
          n.routing.table ok n (λ e. data_send_log-Kept e.device_id) v

    pub network_broadcast_log-Kept :
        (n : Network E)
        → NetworkValid c n
        → Kept (network_broadcast_log platform c floats info hour_number sample_num val time n)
    unfolding network_broadcast_log
    network_broadcast_log-Kept n v =
        log_loop-Kept (λ e. e.subscribed)
          (λ e. data_send_log platform c floats e.device_id info hour_number sample_num val time)
          n.routing.table ok n (λ e. data_send_log-Kept e.device_id) v

  provide_loop-Kept :
      (max_count : ℕ) (variables : List VariableInfo) (time : ℕ) (n : Network E)
      → NetworkValid c n
      → Kept (provide_loop platform c max_count variables time n)
  unfolding provide_loop p_send_provide
  provide_loop-Kept zero variables time n v = keep v
  provide_loop-Kept (suc max_count) variables time n v =
      elim (Option-cases (get_elem? variables n.provide_ptr)) [
        | inl e ↦ rw (e, provide_loop) (keep v)
        | inr (info, e) ↦
            let (rv, n') = p_send_provide platform c info time n in
            let sent = network_send_packet-Kept _ time n v in
            let ptr = ((n'.provide_ptr + 1) % u16_mod) % length variables in
            let n'' : Network E = record n' { provide_ptr = ptr } in
            rw (e, provide_loop)
              (either (not (is_ok rv)) sent (
                either (ptr == 0) (keep sent.valid)
                  (provide_loop-Kept max_count variables time n'' sent.valid)))
      ]

  pub network_send_provide_info-Kept :
      (time : ℕ) (n : Network E)
      → NetworkValid c n
      → Kept (network_send_provide_info platform c time n)
  unfolding network_send_provide_info
  network_send_provide_info-Kept time n v =
      let variables = platform.get_provided_variables n.outside in
      either (length variables == 0) (keep v) (provide_loop-Kept _ variables time _ v)

  demand_loop-Kept :
      (max_count : ℕ) (variables : List ℕ) (time : ℕ) (n : Network E)
      → NetworkValid c n
      → Kept (demand_loop platform c max_count variables time n)
  unfolding demand_loop p_send_demand
  demand_loop-Kept zero variables time n v = keep v
  demand_loop-Kept (suc max_count) variables time n v =
      elim (Option-cases (get_elem? variables n.demand_ptr)) [
        | inl e ↦ rw (e, demand_loop) (keep v)
        | inr (variable, e) ↦
            let (rv, n') = p_send_demand platform c variable time n in
            let sent = network_send_packet-Kept _ time n v in
            let ptr = ((n'.demand_ptr + 1) % u16_mod) % length variables in
            let n'' : Network E = record n' { demand_ptr = ptr } in
            rw (e, demand_loop)
              (either (not (is_ok rv)) sent (
                either (ptr == 0) (keep sent.valid)
                  (demand_loop-Kept max_count variables time n'' sent.valid)))
      ]

  pub network_send_demand_info-Kept :
      (time : ℕ) (n : Network E)
      → NetworkValid c n
      → Kept (network_send_demand_info platform c time n)
  unfolding network_send_demand_info
  network_send_demand_info-Kept time n v =
      let variables = platform.get_demanded_variables n.outside in
      either (length variables == 0) (keep v) (demand_loop-Kept _ variables time _ v)

-- A change that leaves the device of an entry.
abbrev KeepsId : (RoutingEntry → ZejfErr × RoutingEntry) → Type 0
KeepsId change = (e : RoutingEntry) → (change e).1.device_id ≡ e.device_id

with_scanned-KeepsId :
    {A : Type 0} (o : Option A) (change : RoutingEntry → A → ZejfErr × RoutingEntry)
    → ((e : RoutingEntry) (a : A) → (change e a).1.device_id ≡ e.device_id)
    → KeepsId (with_scanned o change)
unfolding with_scanned
with_scanned-KeepsId none change h e = refl
with_scanned-KeepsId (some a) change h e = h e a

demanded-device :
    (e : RoutingEntry) (v : ℕ) → (routing_entry_add_demanded_variable e v).1.device_id ≡ e.device_id
unfolding routing_entry_add_demanded_variable
demanded-device e v = elim (Bool-cases (has v e.demanded_variables)) [
  | inl t ↦ rw t refl
  | inr t ↦ rw t refl
]

provided-device :
    (e : RoutingEntry) (v : VariableInfo)
    → (routing_entry_add_provided_variable e v).1.device_id ≡ e.device_id
unfolding routing_entry_add_provided_variable
provided-device e v = elim (Bool-cases (provides v.id e.provided_variables)) [
  | inl t ↦ rw t refl
  | inr t ↦ rw t refl
]

module _ {E : Type 0} (c : Settings) where
  change_entry-NetworkValid :
      (id : ℕ) (change : RoutingEntry → ZejfErr × RoutingEntry) (n : Network E)
      → KeepsId change
      → NetworkValid c n
      → NetworkValid c (change_entry id change n).1
  unfolding change_entry
  change_entry-NetworkValid id change n same (rx, tx, place, v) =
      elim (Option-cases (routing_entry_find n.routing.table id)) [
        | inl f ↦ rw (f, change_entry) (rx, tx, place, v)
        | inr (e, f) ↦
            let here = same e ∙ routing_entry_find-device_id n.routing.table id f in
            let ids = device_ids-set_entry n.routing.table id (change e).1 here in
            rw (f, change_entry)
              (
                rx,
                tx,
                place,
                record {
                  distinct = rw ids v.distinct;
                  not_self = rw ids v.not_self;
                  bounded = rw (length-set_entry n.routing.table id (change e).1) v.bounded;
                },
              )
      ]

  pub process_data_demand-NetworkValid :
      (p : Packet) (n : Network E) → NetworkValid c n → NetworkValid c (process_data_demand p n).1
  unfolding process_data_demand
  process_data_demand-NetworkValid p n v = elim (Option-cases p.message) [
    | inl e ↦ rw e v
    | inr (m, e) ↦ rw e (
        change_entry-NetworkValid p.from _ n
          (with_scanned-KeepsId (scan_demand m) _ demanded-device) v)
  ]

  pub process_data_provide-NetworkValid :
      (p : Packet) (n : Network E) → NetworkValid c n → NetworkValid c (process_data_provide p n).1
  unfolding process_data_provide
  process_data_provide-NetworkValid p n v = elim (Option-cases p.message) [
    | inl e ↦ rw e v
    | inr (m, e) ↦ rw e (
        change_entry-NetworkValid p.from _ n
          (with_scanned-KeepsId (scan_provide m) _ provided-device) v)
  ]

  pub process_data_subscribe-NetworkValid :
      (p : Packet) (n : Network E)
      → NetworkValid c n
      → NetworkValid c (process_data_subscribe p n).1
  unfolding process_data_subscribe
  process_data_subscribe-NetworkValid p n v = change_entry-NetworkValid p.from _ n (λ e. refl) v
