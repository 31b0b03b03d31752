-- ===== src/Routing/Examples.antt =====
-- A table of three devices: tests, and the theorems at it.
use zejf_meteo.Common.{ℕ, ◌≡◌, ◌≢◌, refl, ◌↔◌, false, some, [], ◌∷◌, arith, get_elem?}
use zejf_meteo.Defs.{ok, meteo_settings}
use zejf_meteo.Routing.{
  Interface, RoutingEntry, Routing, routing_entry_find, routing_table_update, routing_table_check,
  is_expired, device_ids, routing_find_free_id, removal_loop, probe, out_of_rounds,
}
use zejf_meteo.Routing.Check.{routing_table_check-misses}
use zejf_meteo.Routing.Valid.{RoutingValid}
use zejf_meteo.Routing.Update.{routing_table_update-known}
use zejf_meteo.Routing.FreeId.{AllTaken, routing_find_free_id-none, routing_find_free_id-wraps}

abbrev interfaces : ℕ → Interface
interfaces p = record { uid = p; kind = 1; handle = 0; rx_count = 5; tx_count = 5 }

abbrev entry : ℕ → ℕ → ℕ → RoutingEntry
entry device_id interface last_seen = record {
  last_seen = last_seen;
  device_id = device_id;
  demanded_variables = [];
  interface = interface;
  paused = 0;
  distance = 3;
  provided_variables = [];
  subscribed = false;
}

-- At time 100000 the first two entries are expired.
abbrev routing : Routing
routing = record {
  table = entry 2 1 1000 ∷ entry 3 1 2000 ∷ entry 1001 2 99000 ∷ [];
  next_free_id = 1000;
  interfaces = interfaces;
}

abbrev sparse : Routing
sparse = record routing { table = entry 2 1 1000 ∷ entry 1001 2 99000 ∷ [] }

survivors : device_ids (routing_table_check meteo_settings 100_000 routing).table ≡ 3 ∷ 1001 ∷ []
unfolding routing_table_check removal_loop
survivors = refl

routing-RoutingValid : RoutingValid meteo_settings routing
routing-RoutingValid = record {
  distinct = (refl, (refl, (refl, tt)));
  not_self = refl;
  bounded = omega arith;
}

routing_table_check-misses_example :
    get_elem? (routing_table_check meteo_settings 100_000 routing).table 0 ≡ some (entry 3 1 2000)
unfolding is_expired
routing_table_check-misses_example =
    routing_table_check-misses meteo_settings 100_000 routing [] (entry 2 1 1000) (entry 3 1 2000)
      (entry 1001 2 99000 ∷ []) refl tt refl refl

-- Word of device 3 over interface 2 at distance 1.
routing_table_update-known_example :
    ((routing_table_update meteo_settings 3 2 1 100_000 routing).0 ≡ ok)
    × (routing_entry_find (routing_table_update meteo_settings 3 2 1 100_000 routing).1.table 3
        ≡ some (record (entry 3 2 100_000) { distance = 1 }))
unfolding routing_entry_find
routing_table_update-known_example =
    routing_table_update-known meteo_settings 3 2 1 100_000 routing (entry 3 1 2000) 3 (omega arith)
      refl

routing_find_free_id-none_example :
    (probe 64536 routing.next_free_id routing.table routing.next_free_id ≢ out_of_rounds)
    × (((routing_find_free_id 64536 routing).0 ≡ 0) ↔ AllTaken routing)
routing_find_free_id-none_example =
    routing_find_free_id-none routing 64536 (omega arith) (omega arith)

routing_find_free_id-wraps_example :
    let last : Routing = record routing { next_free_id = 65535 } in
    (routing_find_free_id 1 last ≡ (1000, record last { next_free_id = 0 }))
    × (routing_find_free_id 1 (record last { next_free_id = 0 })
        ≡ (0, record last { next_free_id = 1 }))
    × (routing_find_free_id 1 (record last { next_free_id = 1 })
        ≡ (1, record last { next_free_id = 2 }))
routing_find_free_id-wraps_example =
    routing_find_free_id-wraps (record routing { next_free_id = 65535 }) 0 refl refl refl refl
