-- ===== src/Protocol.antt =====
-- Packets as text: core/api/zejf_api/src/zejf_protocol.c and the record of zejf_defs.h. A message is
-- a string without its terminator, NULL is `none`. Allocations succeed.
pub mod Scan
pub mod RoundTrip
pub mod Accept
mod Examples
use zejf_meteo.Common.{
  ℕ, ◌+◌, ◌*◌, ◌-◌, ◌%◌, ◌==◌, Bool, false, not, ◌&&◌, ◌||◌, Option, none, some, List, [], ◌∷◌,
  ◌++◌, map, if◌then◌else◌, length, take, get_elem?,
}
use zejf_meteo.Common.Bytes.{u8_mod, u16_mod, u32_mod, add32, le_bytes}
use zejf_meteo.Common.Optional.{◌>>=◌}
use zejf_meteo.Common.Text.{decimal, scan_unsigned, scan_char}
use zejf_meteo.Defs.{
  ZejfErr, ok, err_checksum, err_packet_format_brackets, err_packet_format_items,
  err_packet_format_length,
}

pub record Packet : Type 0 where
  pub source_interface : Option ℕ
  pub destination_interface : Option ℕ
  pub time_received : ℕ
  pub time_sent : ℕ
  pub flags : ℕ
  pub checksum : ℕ
  pub from : ℕ
  pub to : ℕ
  pub message_size : ℕ
  pub ttl : ℕ
  pub command : ℕ
  pub message : Option (List ℕ)

-- calloc
unfoldable pub packet_create : Packet
packet_create = record {
  source_interface = none;
  destination_interface = none;
  time_received = 0;
  time_sent = 0;
  flags = 0;
  checksum = 0;
  from = 0;
  to = 0;
  message_size = 0;
  ttl = 0;
  command = 0;
  message = none;
}

checksum_loop : ℕ → List ℕ → ℕ
checksum_loop result [] = result
checksum_loop result (b ∷ bs) = checksum_loop (add32 (add32 (result * 32) result) b) bs

unfoldable pub byte_checksum : List ℕ → ℕ
unfolding checksum_loop
byte_checksum bytes = checksum_loop 5381 bytes

abbrev pub message_bytes : Option (List ℕ) → List ℕ
message_bytes none = []
message_bytes (some bytes) = bytes

unfoldable pub packet_checksum : Packet → ℕ
unfolding byte_checksum
packet_checksum p =
    let a = byte_checksum (le_bytes 1 p.command) in
    let b = add32 a (byte_checksum (le_bytes 2 p.message_size)) in
    let d = add32 b (byte_checksum (take p.message_size (message_bytes p.message))) in
    let e = add32 d (byte_checksum (le_bytes 2 p.from)) in
    let f = add32 e (byte_checksum (le_bytes 2 p.to)) in
    let g = add32 f (byte_checksum (le_bytes 1 p.ttl)) in
    add32 g (byte_checksum (le_bytes 4 p.flags))

unfoldable pub replace_character : List ℕ → (target replacement : ℕ) → List ℕ
replace_character [] target replacement = []
replace_character (b ∷ bs) target replacement =
    (if b == target then replacement else b) ∷ replace_character bs target replacement

-- The characters of the format: { } ; tab newline, and the stand-in for a newline.
abbrev pub brace_open : ℕ
brace_open = 123

abbrev pub brace_close : ℕ
brace_close = 125

abbrev pub semicolon : ℕ
semicolon = 59

abbrev pub tab : ℕ
tab = 9

abbrev pub newline : ℕ
newline = 10

abbrev pub newline_code : ℕ
newline_code = 2

abbrev pub checksum_bypass_value : ℕ
checksum_bypass_value = 0

-- A number and the semicolon behind it.
unfoldable pub print_field : ℕ → List ℕ → List ℕ
print_field v rest = decimal v ++ (semicolon ∷ rest)

unfoldable pub packet_text : Packet → ℕ → List ℕ
unfolding print_field
packet_text p sum =
    brace_open
    ∷ print_field p.from (
        print_field p.to (
          print_field p.command (
            print_field p.ttl (
              print_field sum (
                print_field p.flags
                  (print_field p.message_size (message_bytes p.message ++ (brace_close ∷ []))))))))

-- What becomes of the packet before it is written.
unfoldable pub packet_encode : Packet → Packet
unfolding replace_character
packet_encode p = elim p.message [
  | none ↦ record p { message_size = 0 }
  | some m ↦ record p {
    message_size = length m % u16_mod;
    message = some (replace_character m newline newline_code);
  }
]

-- snprintf cuts the text at the buffer's end and still returns its full length, which is positive.
unfoldable pub packet_to_string : Packet → (max_length : ℕ) → ZejfErr × Packet × List ℕ
unfolding packet_encode
packet_to_string p max_length =
    let p' = packet_encode p in
    (ok, p', take (max_length - 1) (packet_text p' (packet_checksum p')))

unfoldable pub scan_field : ℕ → List ℕ → Option (ℕ × List ℕ)
scan_field modulus input = do
  (v, rest) ← scan_unsigned modulus input
  rest ← scan_char semicolon rest
  some (v, rest)

-- `%[^\t\n]` without the demand for one character.
unfoldable pub scan_line : List ℕ → List ℕ
scan_line [] = []
scan_line (b ∷ bs) = if (b == tab) || (b == newline) then [] else b ∷ scan_line bs

pub record Scanned : Type 0 where
  pub from : ℕ
  pub to : ℕ
  pub command : ℕ
  pub ttl : ℕ
  pub checksum : ℕ
  pub flags : ℕ
  pub message_size : ℕ
  pub message : List ℕ

-- The call of sscanf, where it returns 8.
unfoldable pub scan_packet : List ℕ → Option Scanned
unfolding scan_field scan_line
scan_packet input = do
  s ← scan_char brace_open input
  (from, s) ← scan_field u16_mod s
  (to, s) ← scan_field u16_mod s
  (command, s) ← scan_field u16_mod s
  (ttl, s) ← scan_field u16_mod s
  (checksum, s) ← scan_field u32_mod s
  (flags, s) ← scan_field u32_mod s
  (message_size, s) ← scan_field u16_mod s
  let message = scan_line s
  if length message == 0
      then none
      else some (record {
        from = from;
        to = to;
        command = command;
        ttl = ttl;
        checksum = checksum;
        flags = flags;
        message_size = message_size;
        message = message;
      })

-- `data[i]` of a string, with the terminator behind it.
unfoldable pub char_at : List ℕ → ℕ → ℕ
char_at input i = elim (get_elem? input i) [ none ↦ 0 | some b ↦ b ]

-- The fields that are copied before the checksum is tested.
unfoldable pub packet_fill : Packet → Scanned → List ℕ → Packet
packet_fill p s message = record p {
  from = s.from;
  to = s.to;
  ttl = s.ttl % u8_mod;
  flags = s.flags;
  checksum = s.checksum;
  command = s.command % u8_mod;
  message_size = s.message_size;
  message = some message;
}

-- What follows sscanf: the last character goes, the length and the checksum are tested.
unfoldable pub packet_accept : Packet → Scanned → ZejfErr × Packet
unfolding packet_fill
packet_accept p s =
    let len = length s.message - 1 in
    let message = take len s.message in
    if not (len == s.message_size)
    then (err_packet_format_length, p)
    else (let p' = packet_fill p s message in
        if not (s.checksum == checksum_bypass_value) && not (s.checksum == packet_checksum p')
        then (err_checksum, record p' { message = none })
        else (ok, record p' { message = some (replace_character message newline_code newline) }))

unfoldable pub packet_from_string : Packet → List ℕ → (length : ℕ) → ZejfErr × Packet
unfolding char_at
packet_from_string p input len =
    if not (char_at input 0 == brace_open) || not (char_at input (len - 1) == brace_close)
    then (err_packet_format_brackets, p)
    else elim (scan_packet input) [
      | none ↦ (err_packet_format_items, p)
      | some s ↦ packet_accept p s
    ]
