-- ===== src/Store.antt =====
-- The hours in memory: the queue `data_queue` of core/api/zejf_api/src/zejf_data.c, as the list of its
-- hours from the tail to the head. A pointer to an hour is its place in that list. Allocations succeed.
pub mod Evict
pub mod Bounds
pub mod Places
pub mod Lookup
mod Examples
use zejf_meteo.Common.{
  ℕ, zero, suc, ◌+◌, ◌-◌, ◌%◌, ◌==◌, Bool, true, false, not, Option, none, some, List, [], ◌∷◌,
  ◌++◌, leb, if◌then◌else◌, length, get_elem?, take, drop,
}
use zejf_meteo.Defs.{
  ZejfErr, ok, err_generic, err_null, err_log_number, err_file_doesnt_exist, is_ok, Settings,
  VariableInfo,
}
use zejf_meteo.Hour.{DataHour, hour_create, get_variable}
use zejf_meteo.Hour.Serial.{hour_serialize, hour_deserialize}
use zejf_meteo.Network.{Platform}

-- The hours, and the world outside.
pub record Store (E : Type 0) : Type 0 where
  pub hours : List DataHour
  pub outside : E

-- The place of the hour that a walk from the head meets first.
unfoldable pub find_from_head : ℕ → List DataHour → Option ℕ
find_from_head hour_number [] = none
find_from_head hour_number (h ∷ hs) = elim (find_from_head hour_number hs) [
  | some i ↦ some (i + 1)
  | none ↦ if h.hour_id == hour_number then some 0 else none
]

-- `list_prioritise`: the ring is turned so that the hour is the tail.
unfoldable pub prioritise : ℕ → List DataHour → List DataHour
prioritise i hours = drop i hours ++ take i hours

-- The hours after the walk; the hour that was found is the first of them.
unfoldable pub hour_find : ℕ → List DataHour → Option (List DataHour)
unfolding prioritise
hour_find hour_number hours = elim (find_from_head hour_number hours) [
  | none ↦ none
  | some i ↦ some (prioritise i hours)
]

abbrev pub is_missing_file : ZejfErr → Bool
is_missing_file err_file_doesnt_exist = true
is_missing_file _ = false

abbrev pub flag_modified : ℕ
flag_modified = 1

-- A sample of a variable, and what stands in the way.
unfoldable pub read_sample : Option DataHour → VariableInfo → ℕ → ZejfErr × ℕ
read_sample none info log_number = (err_null, 0)
read_sample (some hour) info log_number = elim (get_variable hour.variables info.id) [
  | none ↦ (err_null, 0)
  | some v ↦
      if leb v.variable_info.samples_per_hour log_number
      then (err_log_number, 0)
      else elim (get_elem? v.samples log_number) [ none ↦ (err_null, 0) | some x ↦ (ok, x) ]
]

-- The hour that a place stands for.
abbrev pub hour_at : Option ℕ → List DataHour → Option DataHour
hour_at none hours = none
hour_at (some i) hours = get_elem? hours i

module _ {E : Type 0} (platform : Platform E) (c : Settings) where
  unfoldable pub datahour_load : ℕ → E → ZejfErr × Option DataHour × E
  datahour_load hour_number world =
      let ((rv, buffer), world) = platform.hour_load hour_number world in
      if not (is_ok rv) then (rv, none, world) else elim (hour_deserialize c buffer) [
        | none ↦ (err_null, none, world)
        | some hour ↦ (ok, some hour, world)
      ]

  unfoldable pub datahour_save : DataHour → E → ZejfErr × DataHour × E
  datahour_save hour world =
      let (hour', buffer) = hour_serialize hour in
      let (rv, world) = platform.hour_save hour'.hour_id buffer world in (rv, hour', world)

  unfoldable pub push_hour : DataHour → Store E → ZejfErr × Store E
  push_hour hour s =
      if length s.hours == c.hour_buffer_size
      then (err_generic, s)
      else (ok, record s { hours = s.hours ++ (hour ∷ []) })

  -- A full queue makes room by writing out and dropping its tail.
  unfoldable pub make_room : List DataHour → E → ZejfErr × Store E
  make_room [] world = (err_null, record { hours = []; outside = world })
  make_room (old ∷ hours) world =
      let (_, _, world) = datahour_save old world in (ok, record { hours = hours; outside = world })

  unfoldable pub hour_add : DataHour → Store E → ZejfErr × Store E
  hour_add hour s =
      if length s.hours == c.hour_buffer_size
      then (let (rv, s') = make_room s.hours s.outside in
          if not (is_ok rv) then (rv, s') else push_hour hour s')
      else push_hour hour s

  -- The new hour is at the head, the last of the list.
  unfoldable pub add_new : DataHour → Store E → Option ℕ × Store E
  add_new hour s =
      let (rv, s') = hour_add hour s in (if is_ok rv then some (length s'.hours - 1) else none, s')

  -- Where the queue does not have the hour: a file, or a new hour.
  unfoldable pub datahour_fetch : ℕ → (load create : Bool) → Store E → Option ℕ × Store E
  datahour_fetch hour_number load create s =
      let fresh =
        λ (s : Store E). if create then add_new (hour_create hour_number) s else (none, s) in
      if load
      then (let (rv, loaded, world) = datahour_load hour_number s.outside in
          let s' : Store E = record s { outside = world } in
          elim loaded [
            | some hour ↦ add_new (record hour { flags = 0 }) s'
            | none ↦ if is_missing_file rv then fresh s' else (none, s')
          ])
      else fresh s

  unfoldable pub datahour_get : ℕ → (load create : Bool) → Store E → Option ℕ × Store E
  datahour_get hour_number load create s = elim (hour_find hour_number s.hours) [
    | some hours ↦ (some 0, record s { hours = hours })
    | none ↦ datahour_fetch hour_number load create s
  ]

  unfoldable pub data_get_val :
      VariableInfo
      → (hour_number log_number : ℕ) → (load create_new : Bool) → Store E
      → (ZejfErr × ℕ) × Store E
  data_get_val info hour_number log_number load create_new s =
      let (place, s') = datahour_get hour_number load create_new s in
      (read_sample (hour_at place s'.hours) info log_number, s')

  -- One hour of `data_save`.
  unfoldable pub save_hour : DataHour → E → DataHour × E
  unfolding datahour_save
  save_hour hour world =
      if hour.flags % 2 == 0
      then (hour, world)
      else (let (rv, hour', world') = datahour_save hour world in
          (if is_ok rv then record hour' { flags = 0 } else hour', world'))

  -- From the head to the tail.
  unfoldable pub save_hours : List DataHour → E → List DataHour × E
  unfolding save_hour
  save_hours [] world = ([], world)
  save_hours (h ∷ hs) world =
      let (hs', world') = save_hours hs world in
      let (h', world'') = save_hour h world' in (h' ∷ hs', world'')

  unfoldable pub data_save : Store E → Store E
  unfolding save_hours
  data_save s =
      let (hours, world) = save_hours s.hours s.outside in record { hours = hours; outside = world }
