-- ===== src/DataCheck/Receive.antt =====
-- `data_check_receive` of core/api/zejf_api/src/data_check.c on the messages that `data_check_send` writes.
use zejf_meteo.Common.{ℕ, ◌≡◌, ◌≢◌, true, ◌||◌, List, All, ==→ne, ◌&&◌}
use zejf_meteo.Defs.{VariableInfo}
use zejf_meteo.Device.{Device, DataRequest}

-- None of the requests is for the samples of the variable in the hour, to the device.
abbrev pub NotAsked : (to : ℕ) → VariableInfo → (hour_num : ℕ) → List DataRequest → Type 0
NotAsked to info hour_num =
    All λ r. (r.target_device ≡ to) × (r.hour_number ≡ hour_num) → r.variable.id ≢ info.id
