-- ===== src/Hour/RoundTrip.antt =====
-- `hour_deserialize` after `hour_serialize`, and the size of what is written.
use mathlib.Core.List.{append_assoc, append-nil, map-append}
use zejf_meteo.Common.{
  ℕ, zero, suc, ◌+◌, ◌*◌, ◌≤◌, ◌<◌, ◌≡◌, refl, sym, ap, ◌∙◌, false, some, List, [], ◌∷◌, ◌++◌,
  arith, ltb, length, All, has, Distinct, length-append, take-append, drop-append,
  not-has-of-Distinct, le→ltb, ==_self,
}
use zejf_meteo.Common.Bytes.{le_bytes, length-le_bytes, from_le-le_bytes}
use zejf_meteo.Defs.{Settings}
use zejf_meteo.Hour.{
  Variable, DataHour, variable_count, new_variable, float_bytes, hour_calculate_checksum,
}
use zejf_meteo.Hour.Valid.{
  IsWord, ids, VariableValid, HourValid, SettingsValid, hour_add_variable-ok, checksum-lt,
}
use zejf_meteo.Hour.Serial.{
  total_size, total_size_loop, serialize, serialize_variables, hour_serialize, deserialize,
  floats_of_bytes, fill_last, deserialize_variable, deserialize_variables, hour_deserialize,
}

-- Reading back what stands in front.
pub deserialize-append :
    (size : ℕ) (value rest : List ℕ)
    → length value ≡ size
    → deserialize size (value ++ rest) ≡ some (value, rest)
unfolding deserialize
deserialize-append size value rest e =
    let enough : ltb (length (value ++ rest)) size ≡ false =
      le→ltb _ _ (omega (arith, length-append value rest)) in
    rw (enough, take-append value rest size e, drop-append value rest size e)

pub length-float_bytes : (xs : List ℕ) → length (float_bytes xs) ≡ 4 * length xs
unfolding float_bytes
length-float_bytes [] = refl
length-float_bytes (x ∷ xs) = omega (
  arith,
  length-append (le_bytes 4 x) (float_bytes xs),
  length-le_bytes 4 x,
  length-float_bytes xs,
)

pub floats_of_bytes-float_bytes :
    (n : ℕ) (xs : List ℕ) → length xs ≡ n → All IsWord xs → floats_of_bytes n (float_bytes xs) ≡ xs
unfolding floats_of_bytes float_bytes
floats_of_bytes-float_bytes zero [] e w = refl
floats_of_bytes-float_bytes zero (x ∷ xs) e w = absurd (omega arith)
floats_of_bytes-float_bytes (suc n) [] e w = absurd (omega arith)
floats_of_bytes-float_bytes (suc n) (x ∷ xs) e w =
    let four = length-le_bytes 4 x in
    rw (
      take-append (le_bytes 4 x) (float_bytes xs) 4 four,
      drop-append (le_bytes 4 x) (float_bytes xs) 4 four,
      from_le-le_bytes 4 x w.0,
      floats_of_bytes-float_bytes n xs (omega arith) w.1,
    )

pub fill_last-snoc :
    (vs : List Variable) (v : Variable) (samples : List ℕ)
    → fill_last (vs ++ (v ∷ [])) samples ≡ vs ++ (record v { samples = samples } ∷ [])
unfolding fill_last
fill_last-snoc [] v samples = refl
fill_last-snoc (w ∷ []) v samples = refl
fill_last-snoc (w ∷ x ∷ vs) v samples = ap (◌∷◌ w) (fill_last-snoc (x ∷ vs) v samples)

-- The bytes of the variables, written as one concatenation.
unfoldable pub variable_bytes : List Variable → List ℕ
variable_bytes [] = []
variable_bytes (v ∷ vs) =
    le_bytes 4 v.variable_info.samples_per_hour
    ++ (le_bytes 2 v.variable_info.id ++ (float_bytes v.samples ++ variable_bytes vs))

pub serialize_variables-append :
    (written : List ℕ) (vs : List Variable)
    → serialize_variables written vs ≡ written ++ variable_bytes vs
unfolding serialize_variables serialize variable_bytes
serialize_variables-append written [] = sym (append-nil written)
serialize_variables-append written (v ∷ vs) =
    serialize_variables-append
      (((written ++ le_bytes 4 v.variable_info.samples_per_hour) ++ le_bytes 2 v.variable_info.id)
        ++ float_bytes v.samples)
      vs
    ∙ simp append_assoc

-- The bytes of an hour, written as one concatenation.
unfoldable pub hour_bytes : DataHour → List ℕ
hour_bytes hour =
    le_bytes 4 (hour_calculate_checksum hour)
    ++ (le_bytes 4 hour.hour_id
        ++ (le_bytes 2 (variable_count hour)
            ++ (le_bytes 1 hour.flags ++ variable_bytes hour.variables)))

pub hour_serialize-hour_bytes : (hour : DataHour) → (hour_serialize hour).1 ≡ hour_bytes hour
unfolding hour_serialize serialize hour_bytes
hour_serialize-hour_bytes hour = rw serialize_variables-append (simp append_assoc)

module _ (c : Settings) (sv : SettingsValid c) where
  -- One round of the loop reads back one variable.
  deserialize_variable-append :
      (hour : DataHour) (v : Variable) (rest : List ℕ)
      → VariableValid c v
      → variable_count hour < c.variables_max
      → has v.variable_info.id (ids hour.variables) ≡ false
      → deserialize_variable c hour (
          le_bytes 4 v.variable_info.samples_per_hour
          ++ (le_bytes 2 v.variable_info.id ++ (float_bytes v.samples ++ rest)))
        ≡ some (record hour { variables = hour.variables ++ (v ∷ []) }, rest)
  unfolding deserialize_variable new_variable
  deserialize_variable-append hour v rest good room new = rw (
    deserialize-append 4 (le_bytes 4 v.variable_info.samples_per_hour) _ (length-le_bytes 4 _),
    deserialize-append 2 (le_bytes 2 v.variable_info.id) _ (length-le_bytes 2 _),
    from_le-le_bytes 4 v.variable_info.samples_per_hour (omega arith),
    from_le-le_bytes 2 v.variable_info.id good.id_lt,
    hour_add_variable-ok c hour v.variable_info good.rate_pos good.rate_le room new,
    deserialize-append (4 * v.variable_info.samples_per_hour) (float_bytes v.samples) rest
        (omega (arith, length-float_bytes v.samples)),
    fill_last-snoc hour.variables (new_variable v.variable_info),
    floats_of_bytes-float_bytes v.variable_info.samples_per_hour v.samples good.full good.words,
  )

  -- The whole loop reads back all of them.
  deserialize_variables-append :
      (hour : DataHour) (vs : List Variable) (rest : List ℕ)
      → All (VariableValid c) vs
      → variable_count hour + length vs ≤ c.variables_max
      → Distinct (ids (hour.variables ++ vs))
      → deserialize_variables c (length vs) hour (variable_bytes vs ++ rest)
        ≡ some (record hour { variables = hour.variables ++ vs }, rest)
  unfolding deserialize_variables variable_bytes
  deserialize_variables-append hour [] rest good room d = rw append-nil
  deserialize_variables-append hour (v ∷ vs) rest good room d =
      let new : has v.variable_info.id (ids hour.variables) ≡ false =
        not-has-of-Distinct (ids hour.variables) (ids vs) v.variable_info.id (rw map-append at d) in
      let hour' : DataHour = record hour { variables = hour.variables ++ (v ∷ []) } in
      let grown = append_assoc hour.variables (v ∷ []) vs in
      rw
        (
          append_assoc,
          append_assoc,
          append_assoc,
          deserialize_variable-append hour v (variable_bytes vs ++ rest) good.0 (omega arith) new,
        )
        (deserialize_variables-append hour' vs rest good.1
            (omega (arith, length-append hour.variables (v ∷ []))) (rw grown d)
          ∙ ap (λ (ws : List Variable). some (record hour { variables = ws }, rest)) grown)

  -- A valid hour is read back from what is written of it, with the checksum that was written.
  pub hour_deserialize-hour_serialize :
      (hour : DataHour)
      → HourValid c hour
      → hour_deserialize c (hour_serialize hour).1 ≡ some (hour_serialize hour).0
  unfolding hour_deserialize hour_bytes hour_serialize hour_calculate_checksum
  hour_deserialize-hour_serialize hour good =
      let hour' : DataHour = record hour { checksum = hour_calculate_checksum hour } in
      let bare : DataHour = record hour' { variables = [] } in
      let all : deserialize_variables c (variable_count hour) bare (variable_bytes hour.variables)
          ≡ some (hour', []) =
        rw append-nil at (
          deserialize_variables-append bare hour.variables [] good.each
            (omega (arith, good.count_le)) good.distinct) in
      rw
        (
          hour_serialize-hour_bytes hour,
          deserialize-append 4 (le_bytes 4 (hour_calculate_checksum hour)) _ (length-le_bytes 4 _),
          deserialize-append 4 (le_bytes 4 hour.hour_id) _ (length-le_bytes 4 _),
          deserialize-append 2 (le_bytes 2 (variable_count hour)) _ (length-le_bytes 2 _),
          deserialize-append 1 (le_bytes 1 hour.flags) _ (length-le_bytes 1 _),
          from_le-le_bytes 4 (hour_calculate_checksum hour) (checksum-lt hour),
          from_le-le_bytes 4 hour.hour_id good.hour_id_lt,
          from_le-le_bytes 2 (variable_count hour) (omega arith),
          from_le-le_bytes 1 hour.flags good.flags_lt,
          all,
        )
        (rw (==_self (hour_calculate_checksum hour)))

-- `hour_serialize` writes exactly the bytes that it allocates.
total_size_loop-eq :
    (c : Settings) (total : ℕ) (vs : List Variable)
    → All (VariableValid c) vs
    → total_size_loop total vs ≡ total + length (variable_bytes vs)
unfolding total_size_loop variable_bytes
total_size_loop-eq c total [] h = omega arith
total_size_loop-eq c total (v ∷ vs) h =
    let here = h.0.full in
    omega (
      arith,
      total_size_loop-eq c (total + 6 + v.variable_info.samples_per_hour * 4) vs h.1,
      length-append (le_bytes 4 v.variable_info.samples_per_hour)
          (le_bytes 2 v.variable_info.id ++ (float_bytes v.samples ++ variable_bytes vs)),
      length-append (le_bytes 2 v.variable_info.id) (float_bytes v.samples ++ variable_bytes vs),
      length-append (float_bytes v.samples) (variable_bytes vs),
      length-le_bytes 4 v.variable_info.samples_per_hour,
      length-le_bytes 2 v.variable_info.id,
      length-float_bytes v.samples,
    )

pub length-hour_serialize :
    (c : Settings) (hour : DataHour)
    → HourValid c hour
    → length (hour_serialize hour).1 ≡ total_size hour
unfolding total_size hour_bytes
length-hour_serialize c hour good = rw (hour_serialize-hour_bytes hour) (
    simp (length-append, length-le_bytes)
      (omega (arith, total_size_loop-eq c 11 hour.variables good.each)))
