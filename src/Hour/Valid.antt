-- ===== src/Hour/Valid.antt =====
-- What the code keeps true of an hour: within the limits of the settings, every array as long as its
-- `samples_per_hour`, and one variable for an id.
use mathlib.Core.List.{map-append}
use zejf_meteo.Common.{
  ℕ, ◌≤◌, ◌<◌, ◌==◌, ◌≡◌, refl, sym, ◌∙◌, false, List, [], ◌∷◌, ◌++◌, map, arith, ltb, ==→ne,
  length, All, All-append, All-replicate, has, Distinct, Distinct-snoc, length-append,
  length-replicate,
}
use zejf_meteo.Common.Bytes.{u8_mod, u16_mod, u32_mod, add32}
use zejf_meteo.Defs.{ok, Settings, VariableInfo}
use zejf_meteo.Hour.{
  Variable, DataHour, variable_count, variable_exists, new_variable, hour_create, hour_add_variable,
  add_bytes, checksum_variables, hour_calculate_checksum, float_bytes,
}

abbrev pub IsWord : ℕ → Type 0
IsWord x = x < u32_mod

abbrev pub ids : List Variable → List ℕ
ids = map λ v. v.variable_info.id

-- The limits that the fields of the file format can hold.
pub record SettingsValid (c : Settings) : Type 0 where
  pub rate_fits : c.sample_rate_max < u32_mod
  pub count_fits : c.variables_max < u16_mod

pub record VariableValid (c : Settings) (v : Variable) : Type 0 where
  pub rate_pos : 0 < v.variable_info.samples_per_hour
  pub rate_le : v.variable_info.samples_per_hour ≤ c.sample_rate_max
  pub id_lt : v.variable_info.id < u16_mod
  pub full : length v.samples ≡ v.variable_info.samples_per_hour
  pub words : All IsWord v.samples

pub record HourValid (c : Settings) (h : DataHour) : Type 0 where
  pub hour_id_lt : h.hour_id < u32_mod
  pub flags_lt : h.flags < u8_mod
  pub count_le : variable_count h ≤ c.variables_max
  pub each : All (VariableValid c) h.variables
  pub distinct : Distinct (ids h.variables)

pub variable_exists-has : (id : ℕ) (vs : List Variable) → variable_exists id vs ≡ has id (ids vs)
unfolding variable_exists
variable_exists-has id [] = refl
variable_exists-has id (v ∷ vs) = ground (arith, variable_exists-has id vs)

pub hour_create-HourValid : (c : Settings) (n : ℕ) → n < u32_mod → HourValid c (hour_create n)
unfolding hour_create
hour_create-HourValid c n h = record {
  hour_id_lt = h;
  flags_lt = omega arith;
  count_le = omega arith;
  each = tt;
  distinct = tt;
}

pub new_variable-VariableValid :
    (c : Settings) (info : VariableInfo)
    → (info.samples_per_hour == 0) ≡ false
    → ltb c.sample_rate_max info.samples_per_hour ≡ false
    → info.id < u16_mod
    → VariableValid c (new_variable info)
unfolding new_variable
new_variable-VariableValid c info pos le id = record {
  rate_pos = ground arith;
  rate_le = ground arith;
  id_lt = id;
  full = length-replicate _ _;
  words = All-replicate IsWord _ _ (omega arith);
}

module _ (c : Settings) (h : DataHour) (info : VariableInfo) where
  append-HourValid :
      HourValid c h
      → info.id < u16_mod
      → (info.samples_per_hour == 0) ≡ false
      → ltb c.sample_rate_max info.samples_per_hour ≡ false
      → (variable_count h == c.variables_max) ≡ false
      → variable_exists info.id h.variables ≡ false
      → HourValid c (record h { variables = h.variables ++ (new_variable info ∷ []) })
  unfolding new_variable
  append-HourValid v id pos le room new = record {
    hour_id_lt = v.hour_id_lt;
    flags_lt = v.flags_lt;
    count_le = omega (arith, ==→ne _ _ room, length-append h.variables (new_variable info ∷ []));
    each =
        All-append (VariableValid c) h.variables _ v.each
          (new_variable-VariableValid c info pos le id, tt);
    distinct = rw (map-append (λ (w : Variable). w.variable_info.id) h.variables _) (
        Distinct-snoc (ids h.variables) info.id v.distinct
          (sym (variable_exists-has info.id h.variables) ∙ new));
  }

  -- Adding a variable keeps an hour valid, whether it succeeds or fails.
  pub hour_add_variable-HourValid :
      HourValid c h → info.id < u16_mod → HourValid c (hour_add_variable c h info).1
  unfolding hour_add_variable
  hour_add_variable-HourValid v id = ground (arith, append-HourValid v id)

-- The conditions under which a variable is added.
pub hour_add_variable-ok :
    (c : Settings) (h : DataHour) (info : VariableInfo)
    → 0 < info.samples_per_hour
    → info.samples_per_hour ≤ c.sample_rate_max
    → variable_count h < c.variables_max
    → has info.id (ids h.variables) ≡ false
    → hour_add_variable c h info
      ≡ (ok, record h { variables = h.variables ++ (new_variable info ∷ []) })
unfolding hour_add_variable
hour_add_variable-ok c h info pos le room new =
    ground (arith, variable_exists-has info.id h.variables)

add_bytes-lt : (result : ℕ) (bs : List ℕ) → result < u32_mod → add_bytes result bs < u32_mod
unfolding add_bytes
add_bytes-lt result [] h = h
add_bytes-lt result (b ∷ bs) h = add_bytes-lt (add32 result b) bs (omega arith)

checksum_variables-lt :
    (result : ℕ) (vs : List Variable) → result < u32_mod → checksum_variables result vs < u32_mod
unfolding checksum_variables
checksum_variables-lt result [] h = h
checksum_variables-lt result (v ∷ vs) h =
    let start = add32 (add32 result v.variable_info.id) v.variable_info.samples_per_hour in
    checksum_variables-lt (add_bytes start (float_bytes v.samples)) vs
      (add_bytes-lt start (float_bytes v.samples) (omega arith))

pub checksum-lt : (h : DataHour) → hour_calculate_checksum h < u32_mod
unfolding hour_calculate_checksum
checksum-lt h = checksum_variables-lt _ h.variables (omega arith)
