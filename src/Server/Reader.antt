-- ===== src/Server/Reader.antt =====
-- How the server takes lines from the serial port: `run_reader` of
-- core/devices/ZejfMeteo/src/serial.c. `line_buffer` is the list of its first `line_buffer_ptr` bytes.
pub mod Returns
use zejf_meteo.Common.{
  ℕ, ◌+◌, ◌-◌, ◌==◌, Bool, true, false, Option, none, some, List, [], ◌∷◌, ◌++◌, if◌then◌else◌,
  length, take,
}
use zejf_meteo.Server.{newline_char}

abbrev pub line_buffer_size : ℕ
line_buffer_size = 128

abbrev pub packet_start : ℕ
packet_start = 123

-- A line that `network_accept` gets; the others are left out.
abbrev pub starts_packet : List ℕ → Bool
starts_packet [] = false
starts_packet (b ∷ bs) = b == packet_start

-- What a byte does: the buffer after it, the line that it ends, or a write before the buffer.
pub data ByteRead : Type 0 where
  going_on : (line_buffer : List ℕ) → ByteRead
  line : (text : List ℕ) → ByteRead
  before_start : ByteRead

-- The byte before the newline is cut off.
unfoldable pub read_byte : (line_buffer : List ℕ) → ℕ → ByteRead
read_byte [] b = if b == newline_char then before_start else going_on (b ∷ [])
read_byte (x ∷ xs) b =
    if b == newline_char
    then line (take (length xs) (x ∷ xs))
    else if length xs + 2 == line_buffer_size - 1
    then going_on []
    else going_on ((x ∷ xs) ++ (b ∷ []))

abbrev pub cons_accepted :
    List ℕ → Option (List (List ℕ) × List ℕ) → Option (List (List ℕ) × List ℕ)
cons_accepted text none = none
cons_accepted text (some (lines, line_buffer)) =
    some ((if starts_packet text then text ∷ lines else lines), line_buffer)

-- The lines accepted and the buffer at the end of the bytes, if nothing was written before the buffer.
unfoldable pub run_reader :
    (line_buffer : List ℕ) → (bytes : List ℕ) → Option (List (List ℕ) × List ℕ)
unfolding read_byte
run_reader line_buffer [] = some ([], line_buffer)
run_reader line_buffer (b ∷ bs) = elim (read_byte line_buffer b) [
  | going_on line_buffer' ↦ run_reader line_buffer' bs
  | line text ↦ cons_accepted text (run_reader [] bs)
  | before_start ↦ none
]
