-- ===== src/Hour/Serial.antt =====
-- The file format of an hour: `hour_serialize` and `hour_deserialize`. A write position is the bytes
-- written so far, a read position the bytes that are left.
use zejf_meteo.Common.{
  ℕ, zero, suc, ◌+◌, ◌*◌, ◌==◌, ◌&&◌, Option, none, some, List, [], ◌∷◌, ◌++◌, ltb, if◌then◌else◌,
  length, take, drop,
}
use zejf_meteo.Common.Bytes.{le_bytes, from_le}
use zejf_meteo.Common.Optional.{◌>>=◌}
use zejf_meteo.Defs.{ZejfErr, is_ok, Settings, VariableInfo}
use zejf_meteo.Hour.{
  Variable, DataHour, variable_count, hour_create, hour_add_variable, float_bytes,
  hour_calculate_checksum,
}

abbrev pub datahour_bytes : ℕ
datahour_bytes = 11

abbrev pub variable_info_bytes : ℕ
variable_info_bytes = 6

-- What `hour_serialize` allocates.
unfoldable pub total_size_loop : ℕ → List Variable → ℕ
total_size_loop total [] = total
total_size_loop total (v ∷ vs) =
    total_size_loop (total + variable_info_bytes + v.variable_info.samples_per_hour * 4) vs

unfoldable pub total_size : DataHour → ℕ
unfolding total_size_loop
total_size hour = total_size_loop datahour_bytes hour.variables

-- Append `value`, the bytes of the object that is copied.
unfoldable pub serialize : List ℕ → List ℕ → List ℕ
serialize written value = written ++ value

unfoldable pub serialize_variables : List ℕ → List Variable → List ℕ
unfolding serialize
serialize_variables written [] = written
serialize_variables written (v ∷ vs) =
    let a = serialize written (le_bytes 4 v.variable_info.samples_per_hour) in
    let b = serialize a (le_bytes 2 v.variable_info.id) in
    let d = serialize b (float_bytes v.samples) in serialize_variables d vs

-- The hour with its checksum brought up to date, and the bytes.
unfoldable pub hour_serialize : DataHour → DataHour × List ℕ
unfolding serialize serialize_variables
hour_serialize hour =
    let hour' = record hour { checksum = hour_calculate_checksum hour } in
    let a = serialize [] (le_bytes 4 hour'.checksum) in
    let b = serialize a (le_bytes 4 hour'.hour_id) in
    let d = serialize b (le_bytes 2 (variable_count hour')) in
    let e = serialize d (le_bytes 1 hour'.flags) in (hour', serialize_variables e hour'.variables)

-- Copy `size` bytes out, or fail at the end of the buffer.
unfoldable pub deserialize : ℕ → List ℕ → Option (List ℕ × List ℕ)
deserialize size left =
    if ltb (length left) size then none else some (take size left, drop size left)

-- Four bytes at a time, an array of floats.
unfoldable pub floats_of_bytes : ℕ → List ℕ → List ℕ
floats_of_bytes zero bytes = []
floats_of_bytes (suc n) bytes = from_le (take 4 bytes) ∷ floats_of_bytes n (drop 4 bytes)

-- `hour->variables[hour->variable_count - 1].data`, overwritten.
unfoldable pub fill_last : List Variable → List ℕ → List Variable
fill_last [] samples = []
fill_last (v ∷ []) samples = record v { samples = samples } ∷ []
fill_last (v ∷ w ∷ vs) samples = v ∷ fill_last (w ∷ vs) samples

unfoldable pub added : ZejfErr × DataHour → Option DataHour
added (e, hour) = if is_ok e then some hour else none

-- One round of the loop of `hour_deserialize`.
unfoldable pub deserialize_variable : Settings → DataHour → List ℕ → Option (DataHour × List ℕ)
unfolding added
deserialize_variable c hour left = do
  (a, left) ← deserialize 4 left
  (b, left) ← deserialize 2 left
  let info : VariableInfo = record { samples_per_hour = from_le a; id = from_le b }
  hour ← added (hour_add_variable c hour info)
  (d, left) ← deserialize (4 * info.samples_per_hour) left
  some (
    record hour { variables = fill_last hour.variables (floats_of_bytes info.samples_per_hour d) },
    left,
  )

unfoldable pub deserialize_variables : Settings → ℕ → DataHour → List ℕ → Option (DataHour × List ℕ)
deserialize_variables c zero hour left = some (hour, left)
deserialize_variables c (suc n) hour left =
    deserialize_variable c hour left >>= λ r. deserialize_variables c n r.0 r.1

-- All bytes are used, and the checksum is right.
unfoldable pub accept : DataHour × List ℕ → Option DataHour
accept (hour, left) =
    if (length left == 0) && (hour_calculate_checksum hour == hour.checksum)
    then some hour
    else none

unfoldable pub hour_deserialize : Settings → List ℕ → Option DataHour
unfolding hour_create accept
hour_deserialize c bytes = do
  (a, left) ← deserialize 4 bytes
  (b, left) ← deserialize 4 left
  (n, left) ← deserialize 2 left
  (f, left) ← deserialize 1 left
  let hour : DataHour = record (hour_create 0) {
    checksum = from_le a;
    hour_id = from_le b;
    flags = from_le f;
  }
  r ← deserialize_variables c (from_le n) hour left
  accept r
