-- ===== src/DataCheck/Examples.antt =====
-- An hour with one sample of three: tests of the data check, and the theorems at it.
use zejf_meteo.Common.{
  ℕ, ◌+◌, ◌≡◌, refl, true, false, none, some, List, [], ◌∷◌, ltb, if◌then◌else◌, arith,
}
use zejf_meteo.Common.Bytes.{sub32}
use zejf_meteo.Defs.{
  ok, err_file_doesnt_exist, meteo_settings, VariableInfo, value_empty, value_not_measured,
}
use zejf_meteo.Hour.{Variable, DataHour, get_variable}
use zejf_meteo.Protocol.{Packet, packet_create}
use zejf_meteo.Network.{Platform}
use zejf_meteo.Device.{Device, data_request_add}
use zejf_meteo.Device.RequestText.{request_text}
use zejf_meteo.DataCheck.{
  check_sample, check_samples, set_samples, check_hour, check_up_to, hours_loop, run_data_check,
}
use zejf_meteo.DataCheck.Count.{
  marked_count, count_known, mark, check_hour-marked_count, check_hour-provided,
}
use zejf_meteo.DataCheck.Rounds.{run_data_check-hours_loop}

abbrev idle : Platform (Unit {0})
idle = record {
  network_send_via = λ msg interface time world. (ok, world);
  get_all_interfaces = λ world. [];
  get_provided_variables = λ world. [];
  get_demanded_variables = λ world. [];
  hour_load = λ hour world. ((err_file_doesnt_exist, []), world);
  hour_save = λ hour buffer world. (ok, world);
}

abbrev temperature : VariableInfo
temperature = record { samples_per_hour = 3; id = 7 }

abbrev hour_with : List ℕ → DataHour
hour_with samples = record {
  hour_id = 480000;
  checksum = 0;
  flags = 0;
  variables = record { variable_info = temperature; samples = samples } ∷ [];
}

abbrev measured : List ℕ
measured = value_empty ∷ 0x41a80000 ∷ value_empty ∷ []

abbrev variable : Variable
variable = record { variable_info = temperature; samples = measured }

abbrev device : Device (Unit {0})
device = record {
  network = record {
    routing = record {
      table = [];
      next_free_id = 1000;
      interfaces = λ i. record { uid = i; kind = 0; handle = 0; rx_count = 0; tx_count = 0 };
    };
    rx_queue = [];
    tx_queue = [];
    next_packet = none;
    provide_ptr = 0;
    demand_ptr = 0;
    outside = tt;
  };
  hours = hour_with measured ∷ [];
  requests = [];
}

-- Up to sample 1 a device that provides the variable fills one gap and counts two samples.
fills_gap :
    check_hour true temperature 1 (hour_with measured)
    ≡ ((ok, 2), hour_with (value_not_measured ∷ 0x41a80000 ∷ value_empty ∷ []))
unfolding check_hour check_samples check_sample set_samples get_variable
fills_gap = refl

check_hour-marked_count_example :
    check_hour false temperature 2 (hour_with measured) ≡ ((ok, 1), hour_with measured)
unfolding set_samples get_variable marked_count count_known mark
check_hour-marked_count_example =
    check_hour-marked_count temperature 2 (hour_with measured) variable refl refl refl (omega arith)
      false

check_hour-provided_example :
    (check_hour true temperature 9 (hour_with measured)).0 ≡ (ok, (if ltb 9 3 then 9 + 1 else 3))
unfolding get_variable
check_hour-provided_example =
    check_hour-provided temperature 9 (hour_with measured) variable refl refl refl (omega arith)

abbrev check_packet : Packet
check_packet = record packet_create {
  from = 1001;
  message = some (request_text temperature 480000 2 0);
}

run_data_check-hours_loop_example :
    run_data_check idle meteo_settings (λ millis rate. 0) 480000 0 36 0 device
    ≡ hours_loop idle meteo_settings
        (check_up_to (λ millis rate. 0) [] 480000 0)
        (36 + 5)
        (sub32 480000 36)
        480000
        0
        device
run_data_check-hours_loop_example =
    run_data_check-hours_loop idle meteo_settings (λ millis rate. 0) 5 480000 0 36 0 device
      (omega arith)
