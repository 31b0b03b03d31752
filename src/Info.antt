-- ===== src/Info.antt =====
-- Announcing, demanding and sending samples: core/api/zejf_api/src/data_info.c but for
-- `process_data_log`. How printf writes a float with four decimals, and how scanf reads one, are
-- parameters; a float is its bit pattern.
pub mod Announce
pub mod Learn
pub mod Valid
mod Examples
use zejf_meteo.Common.{
  ℕ, zero, suc, ◌+◌, ◌-◌, ◌%◌, ◌==◌, Bool, true, false, not, ◌&&◌, ◌||◌, Option, none, some, List,
  [], ◌∷◌, ◌++◌, leb, if◌then◌else◌, length, get_elem?, has, take,
}
use zejf_meteo.Common.Bytes.{u16_mod, u32_mod}
use zejf_meteo.Common.Optional.{◌>>=◌}
use zejf_meteo.Common.Text.{decimal, scan_unsigned, scan_char}
use zejf_meteo.Defs.{
  ZejfErr, ok, err_generic, err_null, err_partial, is_ok, Settings, VariableInfo, all_variables,
  broadcast,
}
use zejf_meteo.Protocol.{Packet}
use zejf_meteo.Routing.{
  RoutingEntry, Routing, routing_entry_find, set_entry, routing_entry_add_demanded_variable,
  routing_entry_add_provided_variable,
}
use zejf_meteo.Network.{Platform, Network, network_prepare_packet, network_send_packet}
use zejf_meteo.Network.Tx.{allocate_packet_queue}

-- printf's `%.4f` and scanf's `%f`.
pub record Floats : Type 0 where
  pub print_float : ℕ → List ℕ
  pub scan_float : List ℕ → Option (ℕ × List ℕ)

abbrev pub comma : ℕ
comma = 44

abbrev pub at_sign : ℕ
at_sign = 64

abbrev pub priority_medium : ℕ
priority_medium = 4

abbrev pub data_provide : ℕ
data_provide = 4

abbrev pub data_demand : ℕ
data_demand = 5

abbrev pub data_log_command : ℕ
data_log_command = 6

-- snprintf into a buffer of PACKET_MAX_LENGTH characters.
unfoldable pub print_message : Settings → List ℕ → List ℕ
print_message c text = take (c.packet_max_length - 1) text

unfoldable pub provide_text : VariableInfo → List ℕ
provide_text info = decimal info.id ++ (at_sign ∷ decimal info.samples_per_hour)

unfoldable pub scan_provide : List ℕ → Option VariableInfo
scan_provide text = do
  (id, rest) ← scan_unsigned u16_mod text
  rest ← scan_char at_sign rest
  (rate, rest) ← scan_unsigned u32_mod rest
  some (record { samples_per_hour = rate; id = id })

unfoldable pub log_text : Floats → VariableInfo → (hour_number sample_num val : ℕ) → List ℕ
log_text floats info hour_number sample_num val =
    decimal info.id
    ++ (comma ∷ decimal info.samples_per_hour
        ++ (comma ∷ decimal hour_number
            ++ (comma ∷ decimal sample_num ++ (comma ∷ floats.print_float val))))

-- Whether one of the numbers is the variable's id, or stands for all variables.
unfoldable pub demands : List ℕ → ℕ → Bool
demands [] id = false
demands (v ∷ vs) id = ((v == all_variables) || (v == id)) || demands vs id

module _ {E : Type 0} (platform : Platform E) (c : Settings) where
  unfoldable pub p_send_provide : VariableInfo → ℕ → Network E → ZejfErr × Network E
  p_send_provide info time n =
      network_send_packet platform c
        (network_prepare_packet c broadcast data_provide
          (some (print_message c (provide_text info))))
        time n

  -- The loop of `network_send_provide_info`, a round for each slot of the tx queue.
  unfoldable pub provide_loop :
      (max_count : ℕ) → List VariableInfo → ℕ → Network E → ZejfErr × Network E
  unfolding p_send_provide
  provide_loop zero variables time n = (ok, n)
  provide_loop (suc max_count) variables time n = elim (get_elem? variables n.provide_ptr) [
    | none ↦ (ok, n)
    | some info ↦
        let (rv, n') = p_send_provide info time n in
        let n'' : Network E = record n' {
          provide_ptr = ((n'.provide_ptr + 1) % u16_mod) % length variables;
        } in
        if not (is_ok rv)
        then (rv, n')
        else if n''.provide_ptr == 0
        then (ok, n'')
        else provide_loop max_count variables time n''
  ]

  unfoldable pub network_send_provide_info : ℕ → Network E → ZejfErr × Network E
  unfolding provide_loop
  network_send_provide_info time n =
      let variables = platform.get_provided_variables n.outside in
      if length variables == 0
      then (err_generic, n)
      else (let n' : Network E = record n {
        provide_ptr = if leb (length variables) n.provide_ptr then 0 else n.provide_ptr;
      } in
          provide_loop (allocate_packet_queue c priority_medium n') variables time n')

  unfoldable pub p_send_demand : ℕ → ℕ → Network E → ZejfErr × Network E
  p_send_demand variable time n =
      network_send_packet platform c
        (network_prepare_packet c broadcast data_demand (some (print_message c (decimal variable))))
        time n

  -- The loop of `network_send_demand_info`.
  unfoldable pub demand_loop : (max_count : ℕ) → List ℕ → ℕ → Network E → ZejfErr × Network E
  unfolding p_send_demand
  demand_loop zero variables time n = (ok, n)
  demand_loop (suc max_count) variables time n = elim (get_elem? variables n.demand_ptr) [
    | none ↦ (ok, n)
    | some variable ↦
        let (rv, n') = p_send_demand variable time n in
        let n'' : Network E = record n' {
          demand_ptr = ((n'.demand_ptr + 1) % u16_mod) % length variables;
        } in
        if not (is_ok rv)
        then (rv, n')
        else if n''.demand_ptr == 0
        then (ok, n'')
        else demand_loop max_count variables time n''
  ]

  unfoldable pub network_send_demand_info : ℕ → Network E → ZejfErr × Network E
  unfolding demand_loop
  network_send_demand_info time n =
      let variables = platform.get_demanded_variables n.outside in
      if length variables == 0
      then (err_generic, n)
      else (let n' : Network E = record n {
        demand_ptr = if leb (length variables) n.demand_ptr then 0 else n.demand_ptr;
      } in
          demand_loop (allocate_packet_queue c priority_medium n') variables time n')

  unfoldable pub data_send_log :
      Floats
      → (to : ℕ) → VariableInfo
      → (hour_number sample_num val : ℕ) → ℕ
      → Network E
      → ZejfErr × Network E
  data_send_log floats to info hour_number sample_num val time n =
      network_send_packet platform c
        (network_prepare_packet c to data_log_command
          (some (print_message c (log_text floats info hour_number sample_num val))))
        time n

  -- The loops of `network_announce_log` and `network_broadcast_log` differ in which entries they pass
  -- over. What they send is not RIP, so the table stays as it is.
  unfoldable pub log_loop :
      (RoutingEntry → Bool)
      → (RoutingEntry → Network E → ZejfErr × Network E)
      → ZejfErr
      → List RoutingEntry
      → Network E
      → ZejfErr × Network E
  log_loop wanted send result [] n = (result, n)
  log_loop wanted send result (e ∷ es) n =
      if not (wanted e)
      then log_loop wanted send result es n
      else (let (rv, n') = send e n in
          log_loop wanted send (if is_ok rv then result else err_partial) es n')

  unfoldable pub network_announce_log :
      Floats → VariableInfo → (hour_number sample_num val : ℕ) → ℕ → Network E → ZejfErr × Network E
  unfolding log_loop
  network_announce_log floats info hour_number sample_num val time n =
      log_loop (λ e. demands e.demanded_variables info.id)
        (λ e. data_send_log floats e.device_id info hour_number sample_num val time) ok
        n.routing.table n

  unfoldable pub network_broadcast_log :
      Floats → VariableInfo → (hour_number sample_num val : ℕ) → ℕ → Network E → ZejfErr × Network E
  unfolding log_loop
  network_broadcast_log floats info hour_number sample_num val time n =
      log_loop (λ e. e.subscribed)
        (λ e. data_send_log floats e.device_id info hour_number sample_num val time) ok
        n.routing.table n

-- A change of the entry of a device, or ZEJF_ERR_NULL.
unfoldable pub change_entry :
    {E : Type 0}
    → (device_id : ℕ) → (RoutingEntry → ZejfErr × RoutingEntry)
    → Network E
    → ZejfErr × Network E
change_entry device_id change n = elim (routing_entry_find n.routing.table device_id) [
  | none ↦ (err_null, n)
  | some e ↦
      let (rv, e') = change e in
      (
        rv,
        record n { routing = record n.routing { table = set_entry n.routing.table device_id e' } },
      )
]

-- An entry with a scanned value, or ZEJF_ERR_GENERIC.
unfoldable pub with_scanned :
    {A : Type 0}
    → Option A
    → (RoutingEntry → A → ZejfErr × RoutingEntry)
    → RoutingEntry
    → ZejfErr × RoutingEntry
with_scanned none change e = (err_generic, e)
with_scanned (some a) change e = change e a

unfoldable pub scan_demand : List ℕ → Option ℕ
scan_demand text = do (variable, rest) ← scan_unsigned u16_mod text; some variable

unfoldable pub process_data_demand : {E : Type 0} → Packet → Network E → ZejfErr × Network E
unfolding change_entry with_scanned scan_demand
process_data_demand p n = elim p.message [
  | none ↦ (err_null, n)
  | some m ↦
      change_entry p.from (with_scanned (scan_demand m) routing_entry_add_demanded_variable) n
]

unfoldable pub process_data_provide : {E : Type 0} → Packet → Network E → ZejfErr × Network E
unfolding change_entry with_scanned scan_provide
process_data_provide p n = elim p.message [
  | none ↦ (err_null, n)
  | some m ↦
      change_entry p.from (with_scanned (scan_provide m) routing_entry_add_provided_variable) n
]

unfoldable pub process_data_subscribe : {E : Type 0} → Packet → Network E → ZejfErr × Network E
unfolding change_entry
process_data_subscribe p n = change_entry p.from (λ e. (ok, record e { subscribed = true })) n
