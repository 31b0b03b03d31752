-- ===== src/Routing/Update.antt =====
-- What `routing_table_update` does to the entries: the distance-vector step.
use zejf_meteo.Common.{
  ℕ, ◌≤◌, ◌<◌, ◌==◌, ◌≡◌, refl, ◌∙◌, ◌≢◌, ◌⊎◌, true, false, inl, inr, none, some, List, [], ◌∷◌,
  ◌++◌, arith, leb, ltb, Bool-cases, length, ==_self, ==_ne, if◌then◌else◌,
}
use zejf_meteo.Defs.{ok, err_generic, err_no_change, Settings, ZejfErr}
use zejf_meteo.Routing.{
  RoutingEntry, Routing, routing_entry_create, routing_entry_find, set_entry, routing_table_insert,
  shorten, refresh, routing_table_update,
}
use zejf_meteo.Routing.Valid.{routing_entry_find-device_id}

-- A lookup after the entry of a device is overwritten.
routing_entry_find-set_entry :
    (es : List RoutingEntry) (id j : ℕ) (e : RoutingEntry)
    → e.device_id ≡ id
    → (old : RoutingEntry) → routing_entry_find es id ≡ some old
    → routing_entry_find (set_entry es id e) j
      ≡ (if id == j then some e else routing_entry_find es j)
unfolding routing_entry_find set_entry
routing_entry_find-set_entry [] id j e same old h = cc
routing_entry_find-set_entry (x ∷ es) id j e same old h =
    ground (arith, routing_entry_find-set_entry es id j e same old)

-- A lookup after an entry is appended.
routing_entry_find-snoc :
    (es : List RoutingEntry) (id j : ℕ) (e : RoutingEntry)
    → e.device_id ≡ id
    → routing_entry_find es id ≡ none
    → routing_entry_find (es ++ (e ∷ [])) j ≡ (if id == j then some e else routing_entry_find es j)
unfolding routing_entry_find
routing_entry_find-snoc [] id j e same new = ground arith
routing_entry_find-snoc (x ∷ es) id j e same new =
    ground (arith, routing_entry_find-snoc es id j e same)

-- The entry that word of a device over `interface` at `distance` leaves, and what is returned: a
-- longer way changes nothing, a shorter one replaces the way, and as short a one or a shorter one
-- counts as a sign of life.
abbrev pub heard : RoutingEntry → ℕ → ℕ → ℕ → ZejfErr × RoutingEntry
heard e interface distance time = if ltb e.distance distance then (err_no_change, e) else (
  ok,
  record e {
    distance = distance;
    interface = if ltb distance e.distance then interface else e.interface;
    last_seen = time;
  },
)

refresh-shorten :
    (e : RoutingEntry) (interface distance time : ℕ)
    → refresh (shorten e interface distance) distance time ≡ heard e interface distance time
unfolding refresh shorten
refresh-shorten e interface distance time = ground arith

heard-device_id :
    (e : RoutingEntry) (interface distance time : ℕ)
    → (heard e interface distance time).1.device_id ≡ e.device_id
heard-device_id e interface distance time = ground arith

module _ (c : Settings) (device_id interface distance time : ℕ) (r : Routing) where
  -- Word of a known device: its entry is that of `heard`, and no lookup of another device changes.
  pub routing_table_update-known :
      (e : RoutingEntry) (j : ℕ)
      → device_id ≢ c.device_id
      → routing_entry_find r.table device_id ≡ some e
      → ((routing_table_update c device_id interface distance time r).0
          ≡ (heard e interface distance time).0)
        × (routing_entry_find (routing_table_update c device_id interface distance time r).1.table j
            ≡ (if device_id == j
                then some (heard e interface distance time).1
                else routing_entry_find r.table j))
  unfolding routing_table_update
  routing_table_update-known e j other known =
      rw (==_ne _ _ other, known, routing_table_update, refresh-shorten e interface distance time)
        (
          refl,
          routing_entry_find-set_entry r.table device_id j _
              (heard-device_id e interface distance time
                ∙ routing_entry_find-device_id r.table device_id known)
              e known,
        )

  -- Word of a new device: an entry is added while there is room, and `err_generic` is returned where
  -- there is none; no lookup of another device changes.
  pub routing_table_update-new :
      (j : ℕ)
      → device_id ≢ c.device_id
      → routing_entry_find r.table device_id ≡ none
      → length r.table < c.routing_table_size
      → ((routing_table_update c device_id interface distance time r).0 ≡ ok)
        × (routing_entry_find (routing_table_update c device_id interface distance time r).1.table j
            ≡ (if device_id == j
                then some (record routing_entry_create {
                  device_id = device_id;
                  distance = distance;
                  interface = interface;
                  last_seen = time;
                })
                else routing_entry_find r.table j))
  unfolding routing_table_update routing_table_insert
  routing_table_update-new j other new room =
      let space : leb c.routing_table_size (length r.table) ≡ false = ground arith in
      rw (==_ne _ _ other, new, routing_table_update, space)
        (refl, routing_entry_find-snoc r.table device_id j _ refl new)

  -- Word of the device itself, or of a new one when the table is full, is refused and changes nothing.
  pub routing_table_update-refused :
      (device_id ≡ c.device_id)
        ⊎ ((routing_entry_find r.table device_id ≡ none) × (c.routing_table_size ≤ length r.table))
      → routing_table_update c device_id interface distance time r ≡ (err_generic, r)
  unfolding routing_table_update routing_table_insert
  routing_table_update-refused (inl self) = rw self (rw (==_self c.device_id))
  routing_table_update-refused (inr (new, full)) =
      let no_room : leb c.routing_table_size (length r.table) ≡ true = ground arith in
      elim (Bool-cases (device_id == c.device_id)) [
        | inl self ↦ rw self
        | inr other ↦ rw (other, new, routing_table_update, no_room)
      ]
