-- ===== src/Device/Examples.antt =====
-- An hour with one variable and a queue with one request: tests, and the theorems at them.
use zejf_meteo.Common.{◌≡◌, refl, none, [], ◌∷◌}
use zejf_meteo.Defs.{ok, err_value, err_log_number, meteo_settings, VariableInfo, value_empty}
use zejf_meteo.Hour.{
  DataHour, hour_create, hour_add_variable, new_variable, variable_exists, get_variable,
}
use zejf_meteo.Device.{DataRequest, Device, log_into}

abbrev temperature : VariableInfo
temperature = record { samples_per_hour = 3; id = 7 }

-- 21.0 at sample 1 of a new variable.
abbrev logged : DataHour
logged = record {
  hour_id = 480000;
  checksum = 0;
  flags = 0;
  variables =
      record { variable_info = temperature; samples = value_empty ∷ 0x41a80000 ∷ value_empty ∷ [] }
      ∷ [];
}

logs : log_into meteo_settings (hour_create 480000) temperature 1 0x41a80000 ≡ (ok, logged)
unfolding log_into hour_create hour_add_variable new_variable variable_exists get_variable
logs = refl

-- A value is not overwritten by VALUE_EMPTY, and sample 3 is out of range.
keeps_value : (log_into meteo_settings logged temperature 1 value_empty).0 ≡ err_value
unfolding log_into get_variable
keeps_value = refl

out_of_range : (log_into meteo_settings logged temperature 3 0x41a80000).0 ≡ err_log_number
unfolding log_into get_variable
out_of_range = refl

abbrev request : DataRequest
request = record {
  variable = temperature;
  target_device = 1000;
  hour_number = 480000;
  start_log = 0;
  end_log = 2;
  current_log = 0;
  errors = 0;
}

abbrev device : Device (Unit {0})
device = record {
  network = record {
    routing = record {
      table = [];
      next_free_id = 1000;
      interfaces = λ i. record { uid = i; kind = 0; handle = 0; rx_count = 0; tx_count = 0 };
    };
    rx_queue = [];
    tx_queue = [];
    next_packet = none;
    provide_ptr = 0;
    demand_ptr = 0;
    outside = tt;
  };
  hours = [];
  requests = request ∷ [];
}
