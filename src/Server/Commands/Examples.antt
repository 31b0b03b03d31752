-- ===== src/Server/Commands/Examples.antt =====
-- Lines that are typed: tests, and the theorems at them.
use zejf_meteo.Common.{ℕ, ◌≡◌, refl, true, some, none, List, [], ◌∷◌, ◌++◌, arith}
use zejf_meteo.Common.Text.Long.{scan_long}
use zejf_meteo.Defs.{ok, err_file_doesnt_exist, meteo_settings}
use zejf_meteo.Routing.{Interface}
use zejf_meteo.Network.{network_prepare_packet, network_send_packet}
use zejf_meteo.Info.{Floats}
use zejf_meteo.Device.{Device}
use zejf_meteo.Api.{zejf_init}
use zejf_meteo.Server.Process.{System, World, platform, now}
use zejf_meteo.Server.Commands.{
  status_sent, usage, nothing, data_word, exit_word, status_request, command_arguments,
  command_line, process_command, data_command,
}
use zejf_meteo.Server.Commands.Words.{tail_of_line, command_arguments-words}
use zejf_meteo.Server.Commands.Status.{status_line, command_line-status}

abbrev quiet_system : System (Unit {0})
quiet_system = record {
  write = λ handle text w. (true, w);
  current_millis = λ w. 1700000000000;
  hour_load = λ hour w. ((err_file_doesnt_exist, []), w);
  hour_save = λ hour buffer w. (ok, w);
}

abbrev zeros : Floats
zeros = record { print_float = λ val. 48 ∷ []; scan_float = λ text. some (0, []) }

abbrev wires : ℕ → Interface
wires i = record { uid = i; kind = 1; handle = 0; rx_count = 0; tx_count = 0 }

abbrev fresh : Device (World (Unit {0}))
fresh = (zejf_init wires (record { system = tt; all_interfaces = 0 ∷ []; interfaces = wires })).1

-- "data", "1" and "-2".
abbrev typed_words : List (List ℕ)
typed_words = (49 ∷ []) ∷ (45 ∷ 50 ∷ []) ∷ []

command_arguments-words_example :
    command_arguments (data_word ++ tail_of_line typed_words) ≡ some (data_word, typed_words)
command_arguments-words_example =
    command_arguments-words data_word typed_words
      ((refl, refl), ((refl, refl), ((refl, refl), ((refl, refl), tt))))
      (((refl, refl), tt), (((refl, refl), ((refl, refl), tt)), tt))

-- A negative number, text behind a number, and a number that is too large.
negative_number : scan_long (45 ∷ 50 ∷ []) ≡ some 18446744073709551614
unfolding scan_long
negative_number = refl

number_and_text : scan_long (32 ∷ 49 ∷ 120 ∷ []) ≡ some 1
unfolding scan_long
number_and_text = refl

no_number : scan_long (120 ∷ []) ≡ none
unfolding scan_long
no_number = refl

command_line-status_example :
    let p = network_prepare_packet meteo_settings 3 status_request none in
    let (rv, n) =
      network_send_packet
        (platform quiet_system meteo_settings)
        meteo_settings
        p
        (now quiet_system meteo_settings fresh)
        fresh.network in
    command_line quiet_system meteo_settings zeros (status_line 3 ∷ []) fresh
    ≡ some (status_sent rv ∷ [], record fresh { network = n })
command_line-status_example =
    command_line-status quiet_system meteo_settings zeros 3 fresh (omega arith)

-- "data" alone, "exit", and a line behind it.
after_exit :
    command_line quiet_system meteo_settings zeros
      ((data_word ++ (10 ∷ [])) ∷ (exit_word ++ (10 ∷ [])) ∷ [] ∷ [])
      fresh
    ≡ some (usage ∷ nothing ∷ [], fresh)
unfolding command_line command_arguments process_command data_command zejf_init
after_exit = refl
