-- ===== src/Defs.antt =====
-- The shared types of core/api/zejf_api/inc/zejf_defs.h, and the constants that each device fixes in
-- its zejf_settings.h (core/devices/ZejfMeteo/src/zejf_settings.h and the three boards').
use zejf_meteo.Common.{ℕ, Bool, true, false}

-- `zejf_err`, in the order of the enumeration.
pub data ZejfErr : Type 0 where
  ok err_generic err_null err_packet_format err_checksum err_itself err_queue_full err_txid :
      ZejfErr
  err_rxid err_ttl err_no_such_device err_packet_format_brackets err_packet_format_items : ZejfErr
  err_packet_format_length err_out_of_memory err_no_change err_partial : ZejfErr
  err_invalid_sample_rate err_variables_max err_variable_already_exists err_log_number : ZejfErr
  err_value err_no_free_slots err_request_already_exists err_io err_file_doesnt_exist : ZejfErr
  err_send_unable : ZejfErr

abbrev pub is_ok : ZejfErr → Bool
is_ok ok = true
is_ok _ = false

-- The macros of zejf_settings.h that the API reads.
pub record Settings : Type 0 where
  pub device_id : ℕ
  pub packet_max_length : ℕ
  pub packet_max_ttl : ℕ
  pub rx_queue_size : ℕ
  pub tx_queue_size : ℕ
  pub packet_delete_timeout : ℕ
  pub routing_table_size : ℕ
  pub routing_entry_timeout : ℕ
  pub hour_buffer_size : ℕ
  pub sample_rate_max : ℕ
  pub variables_max : ℕ
  pub data_request_queue_size : ℕ

-- The server's values.
abbrev pub meteo_settings : Settings
meteo_settings = record {
  device_id = 1;
  packet_max_length = 128;
  packet_max_ttl = 8;
  rx_queue_size = 16384;
  tx_queue_size = 16384;
  packet_delete_timeout = 10000;
  routing_table_size = 16;
  routing_entry_timeout = 60000;
  hour_buffer_size = 128;
  sample_rate_max = 720;
  variables_max = 128;
  data_request_queue_size = 32768;
}

-- `BROADCAST`, `ALL_VARIABLES` and `RESERVED_DEVICE_IDS`.
abbrev pub broadcast : ℕ
broadcast = 65535

abbrev pub all_variables : ℕ
all_variables = 65535

abbrev pub reserved_device_ids : ℕ
reserved_device_ids = 1000

-- A `float` is its bit pattern. These are the patterns of -999.0 and -998.0, to which only they
-- compare equal.
abbrev pub value_empty : ℕ
value_empty = 0xc479c000

abbrev pub value_not_measured : ℕ
value_not_measured = 0xc4798000

pub record VariableInfo : Type 0 where
  pub samples_per_hour : ℕ
  pub id : ℕ
