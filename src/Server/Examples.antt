-- ===== src/Server/Examples.antt =====
-- Small servers: tests, and the theorems at them.
use zejf_meteo.Common.{
  ℕ, ◌==◌, ◌≡◌, refl, true, false, some, none, List, [], ◌∷◌, ◌++◌, arith, length, replicate,
  length-replicate, All-replicate,
}
use zejf_meteo.Defs.{ok, err_file_doesnt_exist, Settings, meteo_settings}
use zejf_meteo.Routing.{Interface}
use zejf_meteo.Device.{Device}
use zejf_meteo.Device.Valid.{DeviceValid}
use zejf_meteo.Info.{Floats}
use zejf_meteo.Api.{zejf_init}
use zejf_meteo.Server.{newline_char}
use zejf_meteo.Server.Lines.{client_create, read_chunks}
use zejf_meteo.Server.Lines.Split.{split_lines, Proper}
use zejf_meteo.Server.Lines.Chunks.{read_chunks-split_lines}
use zejf_meteo.Server.Reader.{run_reader}
use zejf_meteo.Server.Reader.Returns.{
  sent, carriage_return, run_reader-sent, run_reader-before_start,
}
use zejf_meteo.Server.Interfaces.{Interfaces, interface_remove}
use zejf_meteo.Server.Interfaces.Valid.{interface_remove-middle}
use zejf_meteo.Server.Process.{System, World, run_timer, wire}
use zejf_meteo.Server.Process.Turns.{begin, next, timer, Served-DeviceValid}
use zejf_meteo.Server.Wire.{read_chunks-stream, read_chunks-merged}
use zejf_meteo.Server.Files.{LocalTime, Disk, already_there, hour_save, hour_load}
use zejf_meteo.Server.Clients.{Connection, Clients, watchdog_run, client_gone}
use zejf_meteo.Server.Clients.Timeout.{watchdog_run-first}

-- "{A" and "B".
abbrev messages : List (List ℕ)
messages = (123 ∷ 65 ∷ []) ∷ (66 ∷ []) ∷ []

abbrev pieces : List (List ℕ)
pieces = (123 ∷ []) ∷ (65 ∷ 10 ∷ 66 ∷ []) ∷ (10 ∷ []) ∷ []

read_chunks-stream_example : (read_chunks client_create pieces).lines ≡ messages
unfolding wire
read_chunks-stream_example =
    read_chunks-stream meteo_settings (omega arith) messages pieces
      (((refl, (refl, tt)), omega arith, omega arith), (((refl, tt), omega arith, omega arith), tt))
      refl

abbrev cut_line : List (List ℕ)
cut_line = (65 ∷ []) ∷ (10 ∷ 66 ∷ []) ∷ []

read_chunks-split_lines_example :
    (read_chunks client_create cut_line).lines ≡ (split_lines [] (65 ∷ 10 ∷ 66 ∷ [])).0
unfolding Proper
read_chunks-split_lines_example = read_chunks-split_lines cut_line (
  omega arith,
  (λ e. cc),
  (λ e.
      (omega arith, (λ e. (omega arith, (omega arith, (λ e. cc), (λ e. omega arith)))), (λ e. cc))),
)

abbrev short_messages : Settings
short_messages = record meteo_settings { packet_max_length = 4 }

read_chunks-merged_example :
    (read_chunks client_create ((65 ∷ 65 ∷ 65 ∷ 66 ∷ 10 ∷ []) ∷ [])).lines
    ≡ (65 ∷ 65 ∷ 65 ∷ 66 ∷ []) ∷ []
unfolding wire
read_chunks-merged_example =
    read_chunks-merged short_messages (65 ∷ 65 ∷ 65 ∷ []) (66 ∷ [])
      ((65 ∷ 65 ∷ 65 ∷ 66 ∷ 10 ∷ []) ∷ []) refl (refl, (refl, (refl, (refl, tt)))) (omega arith)
      (omega arith) refl

run_reader-sent_example : run_reader [] (sent messages) ≡ some ((123 ∷ 65 ∷ []) ∷ [], [])
run_reader-sent_example =
    run_reader-sent messages (((refl, (refl, tt)), omega arith), (((refl, tt), omega arith), tt))

abbrev long_text : List ℕ
long_text = replicate 126 65

run_reader-before_start_example :
    run_reader [] (long_text ++ (carriage_return ∷ newline_char ∷ [])) ≡ none
run_reader-before_start_example =
    run_reader-before_start long_text []
      (All-replicate {A = ℕ} (λ b. (b == newline_char) ≡ false) 126 65 refl)
      (omega (arith, length-replicate {A = ℕ} 126 65))

abbrev interfaces : Interfaces
interfaces = record { all_interfaces = 5 ∷ 6 ∷ 7 ∷ []; next_uid = 8; uid = λ i. i }

interface_remove-middle_example :
    interface_remove 6 interfaces
    ≡ (false, 6 ∷ [], record interfaces { all_interfaces = 5 ∷ 7 ∷ [] })
interface_remove-middle_example =
    interface_remove-middle 6 interfaces (5 ∷ []) 6 (7 ∷ []) refl (refl, tt) refl (refl, tt)

abbrev quiet_system : System (Unit {0})
quiet_system = record {
  write = λ handle text w. (true, w);
  current_millis = λ w. 1700000000000;
  hour_load = λ hour w. ((err_file_doesnt_exist, []), w);
  hour_save = λ hour buffer w. (ok, w);
}

abbrev zeros : Floats
zeros = record { print_float = λ val. 48 ∷ []; scan_float = λ text. some (0, []) }

abbrev wires : ℕ → Interface
wires i = record { uid = i; kind = 1; handle = 0; rx_count = 0; tx_count = 0 }

abbrev world : World (Unit {0})
world = record { system = tt; all_interfaces = 0 ∷ []; interfaces = wires }

abbrev ticked : Device (World (Unit {0}))
ticked = run_timer quiet_system meteo_settings zeros (λ millis rate. 0) 0 (zejf_init wires world).1

Served-DeviceValid_example : DeviceValid meteo_settings ticked
Served-DeviceValid_example =
    Served-DeviceValid quiet_system meteo_settings zeros (λ millis rate. 0) (λ hour w. tt)
      (λ text val rest e. let same : 0 ≡ val = cc in omega arith) ticked
      (next (begin wires world) (timer 0))

-- A disk with one file.
abbrev one_file : Disk (List ℕ)
one_file = record {
  exists = λ path w. true;
  mkdir = λ path w. (already_there, w);
  open_write = λ path w. (true, w);
  write = λ path buffer w. (true, buffer);
  open_read = λ path w. true;
  size = λ path w. length w;
  read = λ path fsize w. some w;
}

-- The hour that is there twice when the clock is set back.
abbrev october : ℕ → LocalTime
october hour_number = record { tm_year = 2023; tm_mon = 9; tm_mday = 29; tm_hour = 2 }

abbrev connection : ℕ → ℕ → Connection
connection client last_seen = record { client = client; fd = client; last_seen = last_seen }

abbrev clients : Clients
clients = record {
  clients = connection 5 90000 ∷ connection 6 0 ∷ connection 7 0 ∷ [];
  interfaces = interfaces;
  freed = [];
  closed = [];
  removed = [];
}

watchdog_run-first_example :
    watchdog_run 95000 clients ≡ record {
      clients = connection 5 90000 ∷ connection 7 0 ∷ [];
      interfaces = record interfaces { all_interfaces = 5 ∷ 7 ∷ [] };
      freed = 6 ∷ [];
      closed = 6 ∷ [];
      removed = 6 ∷ [];
    }
watchdog_run-first_example =
    watchdog_run-first 95000 (connection 5 90000 ∷ []) (connection 6 0) (connection 7 0 ∷ [])
      (connection 5 90000 ∷ connection 7 0 ∷ []) clients (5 ∷ []) (7 ∷ []) refl (refl, tt) refl refl
      refl (refl, tt) (refl, tt)

abbrev crowded : Clients
crowded = record clients { interfaces = record interfaces { all_interfaces = replicate 32 5 } }
