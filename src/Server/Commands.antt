-- ===== src/Server/Commands.antt =====
-- The command line of the server: `command_line`, `process_command`, `parse_int` and `display_data` of
-- core/devices/ZejfMeteo/src/zejf_meteo.c. What is printed is returned as a message; of print_info
-- only that it is called.
pub mod Words
pub mod Status
pub mod Kept
mod Examples
use zejf_meteo.Common.{
  ℕ, zero, suc, ◌+◌, ◌/◌, ◌%◌, ◌==◌, Bool, true, false, ◌&&◌, ◌||◌, Option, none, some, List, [],
  ◌∷◌, map, ltb, leb, if◌then◌else◌, get_elem?, drop,
}
use zejf_meteo.Common.Bytes.{u16_mod, u32_mod}
use zejf_meteo.Common.Text.{ulong_mod}
use zejf_meteo.Common.Text.Long.{scan_long, is_negative}
use zejf_meteo.Defs.{ZejfErr, is_ok, Settings, VariableInfo}
use zejf_meteo.Hour.{get_variable}
use zejf_meteo.Network.{network_prepare_packet, network_send_packet}
use zejf_meteo.Store.{Store, datahour_get, hour_at}
use zejf_meteo.Info.{Floats}
use zejf_meteo.Device.{Device, data_log}
use zejf_meteo.Server.{newline_char}
use zejf_meteo.Server.Process.{System, World, platform, now}

abbrev pub command_args_max : ℕ
command_args_max = 5

abbrev pub space : ℕ
space = 32

abbrev pub is_separator : ℕ → Bool
is_separator b = (b == space) || (b == newline_char)

-- The bytes of a string in memory.
unfoldable pub c_string : List ℕ → List ℕ
c_string [] = []
c_string (b ∷ bs) = let rest = c_string bs in if b == 0 then [] else b ∷ rest

-- How far the loop over the line is: the argument that a separator ends is followed by one more unless
-- the line ends there.
unfoldable pub next_argc : ℕ → (argc : ℕ) → List ℕ → ℕ
next_argc b argc [] = argc
next_argc b argc (b' ∷ bs) = if is_separator b then suc argc else argc

-- What a byte of the line becomes, and the place that is stored in argv behind it.
unfoldable pub argument_byte : (i b argc argc' : ℕ) → List ℕ × List ℕ → List ℕ × List ℕ
argument_byte i b argc argc' (line, argv) = (
  (if is_separator b then 0 ∷ line else b ∷ line),
  (if argc' == argc then argv else suc i ∷ argv),
)

-- The loop of `command_line`, from the byte `i`: the rest of the line with its separators overwritten,
-- and the places stored in argv. none where it stores behind the end of argv, which it does before it
-- looks whether argv is full.
unfoldable pub split_loop : (i argc : ℕ) → List ℕ → Option (List ℕ × List ℕ)
unfolding next_argc argument_byte
split_loop i argc [] = some ([], [])
split_loop i argc (b ∷ bs) =
    let argc' = next_argc b argc bs in
    let rest = split_loop (suc i) argc' bs in
    if ltb argc' command_args_max
    then elim rest [ none ↦ none | some r ↦ some (argument_byte i b argc argc' r) ]
    else none

unfoldable pub string_at : (line : List ℕ) → (place : ℕ) → List ℕ
unfolding c_string
string_at line place = c_string (drop place line)

-- The arguments as strings, the command first: argc is the number of those behind it.
unfoldable pub command_arguments : List ℕ → Option (List ℕ × List (List ℕ))
unfolding split_loop string_at
command_arguments line = elim (split_loop 0 0 line) [
  | none ↦ none
  | some (line', argv) ↦ some (string_at line' 0, map (string_at line') argv)
]

-- strcmp.
unfoldable pub same_text : List ℕ → List ℕ → Bool
same_text [] [] = true
same_text [] (b ∷ bs) = false
same_text (a ∷ xs) [] = false
same_text (a ∷ xs) (b ∷ bs) = let rest = same_text xs bs in (a == b) && rest

abbrev pub exit_word : List ℕ
exit_word = 101 ∷ 120 ∷ 105 ∷ 116 ∷ []

abbrev pub status_word : List ℕ
status_word = 115 ∷ 116 ∷ 97 ∷ 116 ∷ 117 ∷ 115 ∷ []

abbrev pub info_word : List ℕ
info_word = 105 ∷ 110 ∷ 102 ∷ 111 ∷ []

abbrev pub data_word : List ℕ
data_word = 100 ∷ 97 ∷ 116 ∷ 97 ∷ []

abbrev pub dummy_word : List ℕ
dummy_word = 100 ∷ 117 ∷ 109 ∷ 109 ∷ 121 ∷ []

abbrev pub status_request : ℕ
status_request = 12

-- What a command prints.
pub data Printed : Type 0 where
  nothing : Printed
  usage : Printed
  cannot_parse : Printed
  status_sent : ZejfErr → Printed
  info_printed : Printed
  no_hour : Printed
  no_variable : Printed
  samples : List ℕ → Printed
  inserting : Printed
  unknown_action : Printed

-- `id` and `samples_per_hour` of DUMMY, and its value 42 as a float.
abbrev pub dummy_variable : VariableInfo
dummy_variable = record { samples_per_hour = 60; id = 42 }

abbrev pub dummy_value : ℕ
dummy_value = 1109917696

module _ {W : Type 0} (system : System W) (c : Settings) (floats : Floats) where
  unfoldable pub current_hours : Device (World W) → ℕ
  current_hours d = (system.current_millis d.network.outside.system / 3600000) % u32_mod

  unfoldable pub display_data :
      (variable hour_number : ℕ) → Device (World W) → Printed × Device (World W)
  display_data variable hour_number d =
      let s : Store (World W) = record { hours = d.hours; outside = d.network.outside } in
      let (place, s') = datahour_get (platform system c) c hour_number true false s in
      let d' : Device (World W) = record d {
        hours = s'.hours;
        network = record d.network { outside = s'.outside };
      } in
      elim (hour_at place s'.hours) [
        | none ↦ (no_hour, d')
        | some hour ↦ elim (get_variable hour.variables variable) [
          | none ↦ (no_variable, d')
          | some v ↦ (samples v.samples, d')
        ]
      ]

  -- The long is cut to the 16 bits of an id.
  unfoldable pub send_status : (device_id : ℕ) → Device (World W) → Printed × Device (World W)
  send_status device_id d =
      let p = network_prepare_packet c (device_id % u16_mod) status_request none in
      let (rv, n) = network_send_packet (platform system c) c p (now system c d) d.network in
      (status_sent rv, record d { network = n })

  -- An hour that is not positive counts from the current one.
  unfoldable pub shown_hour : (hour_number : ℕ) → Device (World W) → ℕ
  unfolding current_hours
  shown_hour hour_number d =
      if (hour_number == 0) || is_negative hour_number
      then (hour_number + current_hours d) % ulong_mod
      else hour_number

  -- The guards on argc are those on the arguments that are there.
  unfoldable pub status_command : List (List ℕ) → Device (World W) → Printed × Device (World W)
  status_command [] d = (usage, d)
  status_command (a ∷ more) d = elim (scan_long a) [
    | none ↦ (cannot_parse, d)
    | some device_id ↦ send_status device_id d
  ]

  unfoldable pub data_command : List (List ℕ) → Device (World W) → Printed × Device (World W)
  data_command [] d = (usage, d)
  data_command (a ∷ []) d = (usage, d)
  data_command (a ∷ b ∷ more) d = elim (scan_long a) [
    | none ↦ (cannot_parse, d)
    | some variable ↦ elim (scan_long b) [
      | none ↦ (cannot_parse, d)
      | some hour_number ↦ display_data (variable % u16_mod) (shown_hour hour_number d % u32_mod) d
    ]
  ]

  unfoldable pub dummy_command : Device (World W) → Printed × Device (World W)
  unfolding current_hours
  dummy_command d =
      let (rv, d') =
        data_log (platform system c) c floats dummy_variable (current_hours d) 0 dummy_value 0 false
          d in
      (inserting, d')

  unfoldable pub goes_on : Printed × Device (World W) → Bool × Printed × Device (World W)
  goes_on (printed, d) = (false, printed, d)

  -- Whether the server stops, what is printed, and the device.
  unfoldable pub process_command :
      (cmd : List ℕ)
      → (arguments : List (List ℕ)) → Device (World W)
      → Bool × Printed × Device (World W)
  unfolding same_text goes_on
  process_command cmd arguments d =
      if same_text cmd exit_word
      then (true, nothing, d)
      else if same_text cmd status_word
      then goes_on (status_command arguments d)
      else if same_text cmd info_word
      then (false, info_printed, d)
      else if same_text cmd data_word
      then goes_on (data_command arguments d)
      else if same_text cmd dummy_word
      then goes_on (dummy_command d)
      else (false, unknown_action, d)

  -- The lines of the standard input up to its end or to a command that stops the server. none where a
  -- line has too many arguments.
  unfoldable pub command_line :
      List (List ℕ) → Device (World W) → Option (List Printed × Device (World W))
  command_line [] d = some ([], d)
  command_line (line ∷ lines) d = elim (command_arguments line) [
    | none ↦ none
    | some (cmd, arguments) ↦
        let (stop, printed, d') = process_command cmd arguments d in
        let rest = command_line lines d' in
        if stop
        then some (printed ∷ [], d')
        else elim rest [ none ↦ none | some (later, d'') ↦ some (printed ∷ later, d'') ]
  ]
