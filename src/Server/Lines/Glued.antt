-- ===== src/Server/Lines/Glued.antt =====
-- What `read_client` of core/devices/ZejfMeteo/src/server.c makes of an empty line.
use zejf_meteo.Common.{ℕ, ◌==◌, ◌≡◌, false, List, All}
use zejf_meteo.Server.{newline_char}

abbrev pub NoNewline : List ℕ → Type 0
NoNewline xs = All (λ b. (b == newline_char) ≡ false) xs
