-- ===== src/Hour/Examples.antt =====
-- An hour with two variables: tests of the file format, and the theorems at it.
use zejf_meteo.Common.{ℕ, ◌≡◌, refl, none, some, List, [], ◌∷◌, arith}
use zejf_meteo.Common.Bytes.{le_bytes}
use zejf_meteo.Defs.{meteo_settings, VariableInfo}
use zejf_meteo.Hour.{DataHour, float_bytes, hour_calculate_checksum}
use zejf_meteo.Hour.Valid.{SettingsValid, HourValid}
use zejf_meteo.Hour.Serial.{hour_serialize, hour_deserialize, deserialize, serialize}
use zejf_meteo.Hour.RoundTrip.{hour_deserialize-hour_serialize}
use zejf_meteo.Hour.Canonical.{hour_serialize-hour_deserialize}

abbrev temperature : VariableInfo
temperature = record { samples_per_hour = 2; id = 7 }

abbrev pressure : VariableInfo
pressure = record { samples_per_hour = 1; id = 300 }

abbrev hour : DataHour
hour = record {
  hour_id = 480_000;
  checksum = 0;
  flags = 1;
  variables =
      record { variable_info = temperature; samples = 0xc479c000 ∷ 0x41a00000 ∷ [] }
      ∷ record { variable_info = pressure; samples = 0x447d0000 ∷ [] }
      ∷ [];
}

-- 480000 is 0x75300; 20.0 is 0x41a00000.
abbrev bytes : List ℕ
bytes =
    216 ∷ 87 ∷ 7 ∷ 0 ∷ 0 ∷ 83 ∷ 7 ∷ 0 ∷ 2 ∷ 0 ∷ 1 ∷ 2 ∷ 0 ∷ 0 ∷ 0 ∷ 7 ∷ 0 ∷ 0 ∷ 192 ∷ 121 ∷ 196 ∷ 0
    ∷ 0 ∷ 160 ∷ 65 ∷ 1 ∷ 0 ∷ 0 ∷ 0 ∷ 44 ∷ 1 ∷ 0 ∷ 0 ∷ 125 ∷ 68 ∷ []

serialized : (hour_serialize hour).1 ≡ bytes
unfolding hour_serialize serialize hour_calculate_checksum float_bytes le_bytes
serialized = refl

-- One byte less is refused.
truncated : hour_deserialize meteo_settings (1 ∷ 2 ∷ 3 ∷ []) ≡ none
unfolding hour_deserialize deserialize
truncated = refl

settings-SettingsValid : SettingsValid meteo_settings
settings-SettingsValid = record { rate_fits = omega arith; count_fits = omega arith }

hour-HourValid : HourValid meteo_settings hour
hour-HourValid = record {
  hour_id_lt = omega arith;
  flags_lt = omega arith;
  count_le = omega arith;
  each = (
    record {
      rate_pos = omega arith;
      rate_le = omega arith;
      id_lt = omega arith;
      full = refl;
      words = omega arith;
    },
    (
      record {
        rate_pos = omega arith;
        rate_le = omega arith;
        id_lt = omega arith;
        full = refl;
        words = omega arith;
      },
      tt,
    ),
  );
  distinct = (refl, (refl, tt));
}

hour_deserialize-hour_serialize_example :
    hour_deserialize meteo_settings (hour_serialize hour).1 ≡ some (hour_serialize hour).0
hour_deserialize-hour_serialize_example =
    hour_deserialize-hour_serialize meteo_settings settings-SettingsValid hour hour-HourValid

hour_serialize-hour_deserialize_example :
    ((hour_serialize (hour_serialize hour).0).1 ≡ (hour_serialize hour).1)
    × HourValid meteo_settings (hour_serialize hour).0
hour_serialize-hour_deserialize_example =
    hour_serialize-hour_deserialize meteo_settings (hour_serialize hour).1 (hour_serialize hour).0
      (rw serialized (omega arith)) hour_deserialize-hour_serialize_example
