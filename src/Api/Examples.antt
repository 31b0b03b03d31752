-- ===== src/Api/Examples.antt =====
-- A device from its start on: the theorems on whole devices at it.
use zejf_meteo.Common.{ℕ, ◌≡◌, refl, true, false, some, [], ◌∷◌, arith, get_elem?}
use zejf_meteo.Defs.{ok, err_file_doesnt_exist, meteo_settings, VariableInfo}
use zejf_meteo.Hour.{DataHour, hour_create}
use zejf_meteo.Hour.Serial.{hour_deserialize, deserialize}
use zejf_meteo.Protocol.{Packet, packet_create}
use zejf_meteo.Routing.{Interface}
use zejf_meteo.Network.{Platform, network_accept}
use zejf_meteo.Store.{Store, datahour_get}
use zejf_meteo.Store.Places.{UniqueHours}
use zejf_meteo.Store.Lookup.{LoadsOwn, datahour_get-hour_id}
use zejf_meteo.Info.{Floats, log_text}
use zejf_meteo.Device.{Device, data_log}
use zejf_meteo.Device.Valid.{DeviceValid}
use zejf_meteo.Api.{zejf_init, on_network, process_data_log, network_process_packets}
use zejf_meteo.Api.Travel.{idle}
use zejf_meteo.Common.{◌||◌, ◌==◌, if◌then◌else◌, Bool, List}
use zejf_meteo.Api.LogText.{process_data_log-log_text}
use zejf_meteo.Api.Steps.{start, later, accept, log_sample, process_packets, Reach-DeviceValid}

abbrev no_files : Platform (Unit {0})
no_files = record {
  network_send_via = λ msg interface time world. (ok, world);
  get_all_interfaces = λ world. [];
  get_provided_variables = λ world. [];
  get_demanded_variables = λ world. [];
  hour_load = λ hour world. ((err_file_doesnt_exist, []), world);
  hour_save = λ hour buffer world. (ok, world);
}

-- Every float is written as 0.0000 and read as 0.0.
abbrev zeros : Floats
zeros = record {
  print_float = λ val. 48 ∷ 46 ∷ 48 ∷ 48 ∷ 48 ∷ 48 ∷ [];
  scan_float = λ text. some (0, []);
}

no_file-LoadsOwn : LoadsOwn no_files meteo_settings
unfolding hour_deserialize deserialize
no_file-LoadsOwn n world h e = cc

abbrev wires : ℕ → Interface
wires i = record { uid = i; kind = 0; handle = 0; rx_count = 0; tx_count = 0 }

unfoldable fresh : Device (Unit {0})
unfolding zejf_init
fresh = (zejf_init wires tt).1

abbrev temperature : VariableInfo
temperature = record { samples_per_hour = 3; id = 7 }

unfoldable logged : Device (Unit {0})
logged = (data_log no_files meteo_settings zeros temperature 480000 1 0x41a80000 0 true fresh).1

abbrev log_packet : Packet
log_packet = record packet_create {
  from = 1001;
  message = some (log_text zeros temperature 480000 1 0);
}

process_data_log-log_text_example :
    process_data_log no_files meteo_settings zeros log_packet 0 fresh
    ≡ data_log no_files meteo_settings zeros temperature 480000 1 0 0 false fresh
process_data_log-log_text_example =
    process_data_log-log_text no_files meteo_settings zeros log_packet 0 fresh temperature 480000 1
      0 0 (omega arith) (omega arith) (omega arith) (omega arith) refl refl

abbrev three : Store (Unit {0})
three = record { hours = hour_create 10 ∷ hour_create 11 ∷ hour_create 12 ∷ []; outside = tt }

datahour_get-hour_id_example :
    let (place, s') = datahour_get no_files meteo_settings 11 true true three in
    UniqueHours s'.hours
    × ((i : ℕ)
        → place ≡ some i
        → (h : DataHour) × (get_elem? s'.hours i ≡ some h) × (h.hour_id ≡ 11))
unfolding hour_create
datahour_get-hour_id_example =
    datahour_get-hour_id no_files meteo_settings 11 true true three no_file-LoadsOwn
      (refl, (refl, (refl, tt)))

abbrev passes : Packet → Device (Unit {0}) → Device (Unit {0})
passes p d = d

abbrev sampled : Device (Unit {0})
sampled =
    (data_log no_files meteo_settings zeros temperature 480000 1 0x41a80000 0 true
      (zejf_init wires tt).1).1

abbrev disturbed : Device (Unit {0})
disturbed = on_network (network_accept no_files meteo_settings (123 ∷ []) 1 0 5) sampled

-- A sample, a line from outside that is no packet, and a round of packets.
abbrev final : Device (Unit {0})
final = network_process_packets no_files meteo_settings zeros passes 6 disturbed

Reach-DeviceValid_example : DeviceValid meteo_settings final
Reach-DeviceValid_example =
    Reach-DeviceValid no_files meteo_settings zeros passes (λ millis rate. 0)
      (λ hour_number world. tt) (λ text val rest e. let same : 0 ≡ val = cc in omega arith)
      (λ p d v. v) final
      (later
        (later
          (later (start wires tt) (
            log_sample temperature 480000 1 0x41a80000 0 true (omega arith) (omega arith)
              (omega arith)))
          (accept (123 ∷ []) 1 0 5))
        (process_packets 6))

all_plain : List ℕ → Bool
all_plain [] = true
all_plain (b ∷ bs) = if (b == 9) || (b == 2) then false else all_plain bs

abbrev sample_packet : Packet
sample_packet = record packet_create {
  from = 1001;
  to = 1;
  command = 6;
  message = some (log_text zeros temperature 480000 1 0);
}

unfoldable received : Device (Unit {0})
received = (data_log no_files meteo_settings zeros temperature 480000 1 0 6 false (idle fresh)).1
