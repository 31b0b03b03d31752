-- ===== src/Store/Examples.antt =====
-- Three hours in memory: tests, and the theorems at them.
use zejf_meteo.Common.{◌≡◌, refl, true, false, [], ◌∷◌, ◌++◌, arith, map}
use zejf_meteo.Defs.{ok, err_file_doesnt_exist, Settings, meteo_settings}
use zejf_meteo.Hour.{hour_create}
use zejf_meteo.Network.{Platform}
use zejf_meteo.Store.{
  Store, datahour_get, find_from_head, hour_find, prioritise, datahour_fetch, datahour_load,
  add_new, hour_add, make_room, push_hour,
}
use zejf_meteo.Store.Evict.{datahour_get-drops_last_used}

-- A platform without files.
abbrev no_files : Platform (Unit {0})
no_files = record {
  network_send_via = λ msg interface time world. (ok, world);
  get_all_interfaces = λ world. [];
  get_provided_variables = λ world. [];
  get_demanded_variables = λ world. [];
  hour_load = λ hour world. ((err_file_doesnt_exist, []), world);
  hour_save = λ hour buffer world. (ok, world);
}

abbrev small : Settings
small = record meteo_settings { hour_buffer_size = 3 }

abbrev store : Store (Unit {0})
store = record { hours = hour_create 10 ∷ hour_create 11 ∷ hour_create 12 ∷ []; outside = tt }

-- Hour 11 is asked for, then a new hour 13: 11 is gone, and 10, the oldest, stays.
drops_11 :
    map
      (λ h. h.hour_id)
      (datahour_get no_files small 13 true true
        (datahour_get no_files small 11 true true store).1).1.hours
    ≡ 12 ∷ 10 ∷ 13 ∷ []
unfolding datahour_get hour_create hour_find find_from_head prioritise datahour_fetch datahour_load
    add_new hour_add make_room push_hour
drops_11 = refl

datahour_get-drops_last_used_example :
    let s' = (datahour_get no_files small 11 true true store).1 in
    (datahour_get no_files small 13 true true s').1.hours
    ≡ ((hour_create 12 ∷ []) ++ (hour_create 10 ∷ [])) ++ (hour_create 13 ∷ [])
unfolding hour_create
datahour_get-drops_last_used_example =
    datahour_get-drops_last_used no_files small 11 13 true true (hour_create 10 ∷ [])
      (hour_create 11) (hour_create 12 ∷ []) tt refl (omega arith, tt)
      (omega arith, (omega arith, (omega arith, tt))) refl refl
