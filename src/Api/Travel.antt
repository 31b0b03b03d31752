-- ===== src/Api/Travel.antt =====
-- A sample on its way from one device into the hours of another: `data_send_log`'s packet through
-- `network_accept`, `network_process_rx` and `data_log` to `data_get_val`, of core/api/zejf_api/src.
use zejf_meteo.Common.{ℕ, ◌+◌, ◌<◌, ◌≡◌, ◌≢◌, some, []}
use zejf_meteo.Common.Bytes.{u8_mod, u16_mod, u32_mod}
use zejf_meteo.Defs.{Settings, VariableInfo}
use zejf_meteo.Protocol.{Packet}
use zejf_meteo.Network.Send.{Writable}
use zejf_meteo.Info.{Floats, log_text, data_log_command}
use zejf_meteo.Device.{Device}
use zejf_meteo.Api.LogText.{ReadsBack}

-- A device with nothing in its rx queue.
abbrev pub idle : {E : Type 0} → Device E → Device E
idle d = record d { network = record d.network { rx_queue = [] } }

-- A sample for this device in a packet that another device can write, of which scanf reads `val'`.
pub record Sample (c : Settings) (floats : Floats) (p : Packet) (max_length : ℕ)
    (info : VariableInfo) (hour_number k val val' : ℕ) : Type 0 where
  pub writable : Writable p max_length
  pub hops : p.ttl + 1 < u8_mod
  pub near : p.ttl + 1 < c.packet_max_ttl
  pub from_other : p.from ≢ c.device_id
  pub here : p.to ≡ c.device_id
  pub command : p.command ≡ data_log_command
  pub message : p.message ≡ some (log_text floats info hour_number k val)
  pub id_lt : info.id < u16_mod
  pub rate_lt : info.samples_per_hour < u32_mod
  pub hour_lt : hour_number < u32_mod
  pub sample_lt : k < u32_mod
  pub reads : ReadsBack floats val val'
