-- ===== src/Hour.antt =====
-- One hour of samples: the functions on `DataHour` of core/api/zejf_api/src/zejf_data.c. The array
-- `variables` is a list, and `variable_count` is its length; so is the array `data` of a variable,
-- with `samples_per_hour` floats as bit patterns. Allocations succeed.
pub mod Serial
pub mod Valid
pub mod RoundTrip
pub mod Read
pub mod Canonical
mod Examples
use zejf_meteo.Common.{
  ℕ, ◌+◌, ◌==◌, Bool, false, ◌||◌, Option, none, some, List, [], ◌∷◌, ◌++◌, ltb, if◌then◌else◌,
  length, replicate,
}
use zejf_meteo.Common.Bytes.{add32, le_bytes}
use zejf_meteo.Defs.{
  ZejfErr, ok, err_invalid_sample_rate, err_variables_max, err_variable_already_exists, Settings,
  VariableInfo, value_empty,
}

pub record Variable : Type 0 where
  pub variable_info : VariableInfo
  pub samples : List ℕ

pub record DataHour : Type 0 where
  pub hour_id : ℕ
  pub checksum : ℕ
  pub flags : ℕ
  pub variables : List Variable

abbrev pub variable_count : DataHour → ℕ
variable_count hour = length hour.variables

unfoldable pub hour_create : ℕ → DataHour
hour_create hour_id = record { hour_id = hour_id; checksum = 0; flags = 0; variables = [] }

-- The loop that compares the id with those of the variables present.
unfoldable pub variable_exists : ℕ → List Variable → Bool
variable_exists id [] = false
variable_exists id (v ∷ vs) = (v.variable_info.id == id) || variable_exists id vs

-- A variable all of whose samples are VALUE_EMPTY.
unfoldable pub new_variable : VariableInfo → Variable
new_variable info = record {
  variable_info = info;
  samples = replicate info.samples_per_hour value_empty;
}

unfoldable pub hour_add_variable : Settings → DataHour → VariableInfo → ZejfErr × DataHour
unfolding new_variable
hour_add_variable c hour info =
    if (info.samples_per_hour == 0) || ltb c.sample_rate_max info.samples_per_hour
    then (err_invalid_sample_rate, hour)
    else if variable_count hour == c.variables_max
    then (err_variables_max, hour)
    else if variable_exists info.id hour.variables
    then (err_variable_already_exists, hour)
    else (ok, record hour { variables = hour.variables ++ (new_variable info ∷ []) })

-- The bytes of an array of floats, as it lies in memory.
unfoldable pub float_bytes : List ℕ → List ℕ
float_bytes [] = []
float_bytes (x ∷ xs) = le_bytes 4 x ++ float_bytes xs

add_bytes : ℕ → List ℕ → ℕ
add_bytes result [] = result
add_bytes result (b ∷ bs) = add_bytes (add32 result b) bs

checksum_variables : ℕ → List Variable → ℕ
checksum_variables result [] = result
checksum_variables result (v ∷ vs) =
    checksum_variables
      (add_bytes (add32 (add32 result v.variable_info.id) v.variable_info.samples_per_hour)
        (float_bytes v.samples))
      vs

unfoldable pub hour_calculate_checksum : DataHour → ℕ
unfolding add_bytes checksum_variables
hour_calculate_checksum hour =
    checksum_variables (add32 (add32 (add32 0 hour.flags) hour.hour_id) (variable_count hour))
      hour.variables

-- The first variable with the id; a pointer into the array, which `set_sample` writes through.
unfoldable pub get_variable : List Variable → ℕ → Option Variable
get_variable [] variable_id = none
get_variable (v ∷ vs) variable_id =
    if v.variable_info.id == variable_id then some v else get_variable vs variable_id
