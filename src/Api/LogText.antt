-- ===== src/Api/LogText.antt =====
-- The text of a sample, from `data_send_log` to `process_data_log` of
-- core/api/zejf_api/src/data_info.c.
use zejf_meteo.Common.{ℕ, ◌<◌, ◌≡◌, refl, false, some, [], arith}
use zejf_meteo.Common.Bytes.{u16_mod, u32_mod}
use zejf_meteo.Common.Text.{scan_char, scan_unsigned-decimal}
use zejf_meteo.Defs.{Settings, VariableInfo}
use zejf_meteo.Protocol.{Packet}
use zejf_meteo.Network.{Platform}
use zejf_meteo.Info.{Floats, comma, log_text}
use zejf_meteo.Device.{Device, data_log}
use zejf_meteo.Api.{scan_log, process_data_log}

-- scanf reads the whole text that printf writes of this float, as a float.
abbrev pub ReadsBack : Floats → (val val' : ℕ) → Type 0
ReadsBack floats val val' = floats.scan_float (floats.print_float val) ≡ some (val', [])

scan_log-log_text :
    (floats : Floats) (info : VariableInfo) (hour_number sample_num val val' : ℕ)
    → info.id < u16_mod
    → info.samples_per_hour < u32_mod
    → hour_number < u32_mod
    → sample_num < u32_mod
    → ReadsBack floats val val'
    → scan_log floats (log_text floats info hour_number sample_num val)
      ≡ some (info, hour_number, sample_num, val')
unfolding scan_log log_text scan_char
scan_log-log_text floats info hour_number sample_num val val' i r h s b =
    rw
      (
        scan_unsigned-decimal u16_mod info.id comma _ i (omega arith) refl,
        scan_unsigned-decimal u32_mod info.samples_per_hour comma _ r (omega arith) refl,
        scan_unsigned-decimal u32_mod hour_number comma _ h (omega arith) refl,
        scan_unsigned-decimal u32_mod sample_num comma _ s (omega arith) refl,
        b,
      )
      refl

-- A packet with the whole text that data_send_log prints of a sample is logged by process_data_log as that variable, hour and sample, without announcing it again, with the value that scanf reads back from the four decimals that printf wrote.
pub process_data_log-log_text :
    {E : Type 0} (platform : Platform E) (c : Settings) (floats : Floats) (p : Packet) (time : ℕ)
    (d : Device E) (info : VariableInfo) (hour_number sample_num val val' : ℕ)
    → info.id < u16_mod
    → info.samples_per_hour < u32_mod
    → hour_number < u32_mod
    → sample_num < u32_mod
    → ReadsBack floats val val'
    → p.message ≡ some (log_text floats info hour_number sample_num val)
    → process_data_log platform c floats p time d
      ≡ data_log platform c floats info hour_number sample_num val' time false d
unfolding process_data_log
process_data_log-log_text platform c floats p time d info hour_number sample_num val val' i r h s b
      m =
    let found = scan_log-log_text floats info hour_number sample_num val val' i r h s b in
    rw (m, process_data_log, found) refl
