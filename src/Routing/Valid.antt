-- ===== src/Routing/Valid.antt =====
-- What holds of every routing table that the code builds.
use mathlib.Core.List.{map-append}
use zejf_meteo.Common.{
  ℕ, ◌≤◌, ◌==◌, ◌≡◌, refl, ◌∙◌, false, inl, inr, none, some, List, [], ◌∷◌, arith, leb, Bool-cases,
  Option-cases, leb→lt, length, length-append, has, has-append, Distinct, Distinct-snoc,
}
use zejf_meteo.Defs.{Settings}
use zejf_meteo.Routing.{
  Interface, RoutingEntry, Routing, routing_init, routing_entry_create, routing_entry_find,
  set_entry, routing_table_insert, shorten, refresh, routing_table_update, routing_table_check,
  drop_interface, device_ids, is_expired, uses_interface,
}
use zejf_meteo.Routing.Check.{
  Distinct-sweep, has-sweep, length-sweep, routing_table_check-sweep, drop_interface-sweep,
}

-- One entry for a device, none for this device, and no more than the array holds.
pub record RoutingValid (c : Settings) (r : Routing) : Type 0 where
  pub distinct : Distinct (device_ids r.table)
  pub not_self : has c.device_id (device_ids r.table) ≡ false
  pub bounded : length r.table ≤ c.routing_table_size

pub routing_init-RoutingValid :
    (c : Settings) (interfaces : ℕ → Interface) → RoutingValid c (routing_init interfaces)
unfolding routing_init
routing_init-RoutingValid c interfaces = record {
  distinct = tt;
  not_self = refl;
  bounded = omega arith;
}

-- A device is found exactly when its id is in the table.
pub routing_entry_find-has :
    (es : List RoutingEntry) (id : ℕ)
    → routing_entry_find es id ≡ none
    → has id (device_ids es) ≡ false
unfolding routing_entry_find
routing_entry_find-has [] id e = refl
routing_entry_find-has (x ∷ es) id e = ground (arith, routing_entry_find-has es id)

-- Overwriting an entry by one of the same device leaves the ids.
pub device_ids-set_entry :
    (es : List RoutingEntry) (id : ℕ) (e : RoutingEntry)
    → e.device_id ≡ id
    → device_ids (set_entry es id e) ≡ device_ids es
unfolding set_entry
device_ids-set_entry [] id e same = refl
device_ids-set_entry (x ∷ es) id e same = ground (arith, device_ids-set_entry es id e same)

pub length-set_entry :
    (es : List RoutingEntry) (id : ℕ) (e : RoutingEntry) → length (set_entry es id e) ≡ length es
unfolding set_entry
length-set_entry [] id e = refl
length-set_entry (x ∷ es) id e = ground (arith, length-set_entry es id e)

pub routing_entry_find-device_id :
    (es : List RoutingEntry) (id : ℕ) {e : RoutingEntry}
    → routing_entry_find es id ≡ some e
    → e.device_id ≡ id
unfolding routing_entry_find
routing_entry_find-device_id [] id h = cc
routing_entry_find-device_id (x ∷ es) id {e} h =
    ground (arith, routing_entry_find-device_id es id {e = e})

pub refresh-device_id :
    (e : RoutingEntry) (interface distance time : ℕ)
    → (refresh (shorten e interface distance) distance time).1.device_id ≡ e.device_id
unfolding refresh shorten
refresh-device_id e interface distance time = ground arith

-- Overwriting the entry of a device by one of the same device.
set_entry-RoutingValid :
    (c : Settings) (r : Routing) (id : ℕ) (e : RoutingEntry)
    → RoutingValid c r
    → e.device_id ≡ id
    → RoutingValid c (record r { table = set_entry r.table id e })
set_entry-RoutingValid c r id e v same = record {
  distinct = rw (device_ids-set_entry r.table id e same) v.distinct;
  not_self = rw (device_ids-set_entry r.table id e same) v.not_self;
  bounded = omega (arith, length-set_entry r.table id e, v.bounded);
}

module _ (c : Settings) (device_id interface distance time : ℕ) (r : Routing)
    (v : RoutingValid c r) where
  insert-RoutingValid :
      (device_id == c.device_id) ≡ false
      → routing_entry_find r.table device_id ≡ none
      → RoutingValid c (routing_table_insert c device_id interface distance time r).1
  unfolding routing_table_insert routing_entry_create
  insert-RoutingValid other new = elim (Bool-cases (leb c.routing_table_size (length r.table))) [
    | inl no_room ↦ rw no_room v
    | inr room ↦ rw room (record {
      distinct = rw map-append (
          Distinct-snoc (device_ids r.table) device_id v.distinct
            (routing_entry_find-has r.table device_id new));
      not_self = rw map-append (
          ground (arith, has-append c.device_id (device_ids r.table) (device_id ∷ []), v.not_self));
      bounded =
          omega (arith, length-append r.table _, leb→lt c.routing_table_size (length r.table) room);
    })
  ]

  -- An update keeps the table valid, whatever it returns.
  pub routing_table_update-RoutingValid :
      RoutingValid c (routing_table_update c device_id interface distance time r).1
  unfolding routing_table_update
  routing_table_update-RoutingValid = elim (Bool-cases (device_id == c.device_id)) [
    | inl self ↦ rw self v
    | inr other ↦ rw other (elim (Option-cases (routing_entry_find r.table device_id)) [
      | inl new ↦ rw (new, routing_table_update) (insert-RoutingValid other new)
      | inr (e, known) ↦
          rw (known, routing_table_update)
            (set_entry-RoutingValid c r device_id _ v (
              refresh-device_id e interface distance time
              ∙ routing_entry_find-device_id r.table device_id known))
    ])
  ]

-- So do the check for devices that are gone and the removal of an interface.
pub routing_table_check-RoutingValid :
    (c : Settings) (time : ℕ) (r : Routing)
    → RoutingValid c r
    → RoutingValid c (routing_table_check c time r)
routing_table_check-RoutingValid c time r v =
    let swept = routing_table_check-sweep c time r in
    record {
      distinct = rw swept (Distinct-sweep _ r.table v.distinct);
      not_self = rw swept (has-sweep _ c.device_id r.table v.not_self);
      bounded = rw swept (omega (arith, length-sweep (is_expired c time) r.table, v.bounded));
    }

pub drop_interface-RoutingValid :
    (c : Settings) (interface : ℕ) (r : Routing)
    → RoutingValid c r
    → RoutingValid c (drop_interface interface r)
drop_interface-RoutingValid c interface r v =
    let swept = drop_interface-sweep interface r in
    record {
      distinct = rw swept (Distinct-sweep _ r.table v.distinct);
      not_self = rw swept (has-sweep _ c.device_id r.table v.not_self);
      bounded =
          rw swept (omega (arith, length-sweep (uses_interface r interface) r.table, v.bounded));
    }
