-- ===== src/Routing.antt =====
-- The routing table of core/api/zejf_api/src/zejf_routing.c. The table is the list of its first
-- `routing_table_top` entries, and the counts of an entry are the lengths of its lists. An entry
-- points at an `Interface`, which lives in a store. Allocations succeed.
pub mod Sweep
pub mod Check
pub mod Valid
pub mod Update
pub mod FreeId
mod Examples
use zejf_meteo.Common.{
  ℕ, zero, suc, ◌+◌, ◌%◌, ◌==◌, Bool, true, false, ◌||◌, Option, none, some, List, [], ◌∷◌, ◌++◌,
  map, ltb, leb, if◌then◌else◌, length, get_elem?, erase_idx, has,
}
use zejf_meteo.Common.Bytes.{u16_mod, sub32}
use zejf_meteo.Defs.{
  ZejfErr, ok, err_generic, err_no_change, Settings, VariableInfo, reserved_device_ids,
}

pub record Interface : Type 0 where
  pub uid : ℕ
  pub kind : ℕ
  pub handle : ℕ
  pub rx_count : ℕ
  pub tx_count : ℕ

pub record RoutingEntry : Type 0 where
  pub last_seen : ℕ
  pub device_id : ℕ
  pub demanded_variables : List ℕ
  pub interface : ℕ
  pub paused : ℕ
  pub distance : ℕ
  pub provided_variables : List VariableInfo
  pub subscribed : Bool

-- `interfaces` is what each `Interface` pointer points at.
pub record Routing : Type 0 where
  pub table : List RoutingEntry
  pub next_free_id : ℕ
  pub interfaces : ℕ → Interface

unfoldable pub routing_init : (ℕ → Interface) → Routing
routing_init interfaces = record {
  table = [];
  next_free_id = reserved_device_ids;
  interfaces = interfaces;
}

unfoldable pub routing_entry_create : RoutingEntry
routing_entry_create = record {
  last_seen = 0;
  device_id = 0;
  demanded_variables = [];
  interface = 0;
  paused = 0;
  distance = 0;
  provided_variables = [];
  subscribed = false;
}

unfoldable pub provides : ℕ → List VariableInfo → Bool
provides id [] = false
provides id (v ∷ vs) = (v.id == id) || provides id vs

unfoldable pub routing_entry_add_provided_variable :
    RoutingEntry → VariableInfo → ZejfErr × RoutingEntry
unfolding provides
routing_entry_add_provided_variable entry v =
    if provides v.id entry.provided_variables
    then (err_generic, entry)
    else (ok, record entry { provided_variables = entry.provided_variables ++ (v ∷ []) })

unfoldable pub routing_entry_add_demanded_variable : RoutingEntry → ℕ → ZejfErr × RoutingEntry
routing_entry_add_demanded_variable entry v =
    if has v entry.demanded_variables
    then (err_generic, entry)
    else (ok, record entry { demanded_variables = entry.demanded_variables ++ (v ∷ []) })

unfoldable pub routing_entry_find : List RoutingEntry → ℕ → Option RoutingEntry
routing_entry_find [] device_id = none
routing_entry_find (e ∷ es) device_id =
    if e.device_id == device_id then some e else routing_entry_find es device_id

unfoldable pub routing_entry_find_by_interface :
    (ℕ → Interface) → List RoutingEntry → ℕ → Option RoutingEntry
routing_entry_find_by_interface interfaces [] uid = none
routing_entry_find_by_interface interfaces (e ∷ es) uid =
    if (interfaces e.interface).uid == uid
    then some e
    else routing_entry_find_by_interface interfaces es uid

-- A write through the pointer that `routing_entry_find` returns.
unfoldable pub set_entry : List RoutingEntry → ℕ → RoutingEntry → List RoutingEntry
set_entry [] device_id entry = []
set_entry (e ∷ es) device_id entry =
    if e.device_id == device_id then entry ∷ es else e ∷ set_entry es device_id entry

-- `interface->tx_count = 0; interface->rx_count = 0;`
unfoldable pub reset_counts : (ℕ → Interface) → ℕ → ℕ → Interface
reset_counts interfaces interface p =
    if p == interface then record (interfaces p) { tx_count = 0; rx_count = 0 } else interfaces p

unfoldable pub routing_table_insert : Settings → ℕ → ℕ → ℕ → ℕ → Routing → ZejfErr × Routing
unfolding routing_entry_create reset_counts
routing_table_insert c device_id interface distance time r =
    if leb c.routing_table_size (length r.table) then (err_generic, r) else (
      ok,
      record r {
        table =
            r.table
            ++ (record routing_entry_create {
              device_id = device_id;
              distance = distance;
              interface = interface;
              last_seen = time;
            }
                ∷ []);
        interfaces = reset_counts r.interfaces interface;
      },
    )

-- A shorter way replaces the old one.
unfoldable pub shorten : RoutingEntry → ℕ → ℕ → ZejfErr × RoutingEntry
shorten e interface distance =
    if ltb distance e.distance
    then (ok, record e { distance = distance; interface = interface })
    else (err_no_change, e)

-- Word of the device over as short a way keeps the entry alive.
unfoldable pub refresh : ZejfErr × RoutingEntry → ℕ → ℕ → ZejfErr × RoutingEntry
refresh (result, e) distance time =
    if e.distance == distance then (ok, record e { last_seen = time }) else (result, e)

unfoldable pub routing_table_update : Settings → ℕ → ℕ → ℕ → ℕ → Routing → ZejfErr × Routing
unfolding shorten refresh
routing_table_update c device_id interface distance time r =
    if device_id == c.device_id
    then (err_generic, r)
    else elim (routing_entry_find r.table device_id) [
      | none ↦ routing_table_insert c device_id interface distance time r
      | some e ↦
          let (result, e') = refresh (shorten e interface distance) distance time in
          (result, record r { table = set_entry r.table device_id e' })
    ]

unfoldable pub routing_entry_remove : List RoutingEntry → ℕ → List RoutingEntry
routing_entry_remove table index = erase_idx table index

-- The loop of `routing_table_check` and of `interface_removed`: after a removal `i` moves on too.
unfoldable pub removal_loop :
    (RoutingEntry → Bool) → (rounds : ℕ) → (i : ℕ) → List RoutingEntry → List RoutingEntry
unfolding routing_entry_remove
removal_loop test zero i table = table
removal_loop test (suc rounds) i table = elim (get_elem? table i) [
  | none ↦ table
  | some e ↦
      removal_loop test rounds (i + 1) (if test e then routing_entry_remove table i else table)
]

unfoldable pub is_expired : Settings → ℕ → RoutingEntry → Bool
is_expired c time e = ltb c.routing_entry_timeout (sub32 time e.last_seen)

unfoldable pub routing_table_check : Settings → ℕ → Routing → Routing
unfolding is_expired
routing_table_check c time r = record r {
  table = removal_loop (is_expired c time) (length r.table) 0 r.table;
}

unfoldable pub uses_interface : Routing → ℕ → RoutingEntry → Bool
uses_interface r interface e = (r.interfaces e.interface).uid == (r.interfaces interface).uid

-- The part of `interface_removed` that is about the table.
unfoldable pub drop_interface : ℕ → Routing → Routing
unfolding uses_interface
drop_interface interface r = record r {
  table = removal_loop (uses_interface r interface) (length r.table) 0 r.table;
}

abbrev pub device_ids : List RoutingEntry → List ℕ
device_ids = map λ e. e.device_id

-- The next id to try.
unfoldable pub next_id : ℕ → ℕ
next_id id = let id' = (id + 1) % u16_mod in if id' == 0 then reserved_device_ids else id'

-- How the search for a free id ends.
pub data Probe : Type 0 where
  full out_of_rounds : Probe
  found : ℕ → Probe

unfoldable pub probe : (rounds : ℕ) → (start : ℕ) → List RoutingEntry → (id : ℕ) → Probe
unfolding next_id
probe zero start table id = out_of_rounds
probe (suc rounds) start table id =
    let onwards = probe rounds start table (next_id id) in
    if has id (device_ids table) then (if next_id id == start then full else onwards) else found id

-- The end of `routing_find_free_id`; 0 says that there is no free id.
unfoldable pub assign_id : Probe → Routing → ℕ × Routing
assign_id full r = (0, r)
assign_id out_of_rounds r = (0, r)
assign_id (found id) r =
    let after = (id + 1) % u16_mod in
    (if after == 0 then reserved_device_ids else id, record r { next_free_id = after })

unfoldable pub routing_find_free_id : (rounds : ℕ) → Routing → ℕ × Routing
unfolding probe assign_id
routing_find_free_id rounds r = assign_id (probe rounds r.next_free_id r.table r.next_free_id) r
