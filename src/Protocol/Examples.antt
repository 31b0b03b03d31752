-- ===== src/Protocol/Examples.antt =====
-- Tests of the packets as text, and the theorems at a concrete packet.
use zejf_meteo.Common.{ℕ, ◌≡◌, refl, some, List, [], ◌∷◌, length, arith}
use zejf_meteo.Common.Bytes.{le_bytes}
use zejf_meteo.Common.Text.{digits, decimal, scan_unsigned, scan_char}
use zejf_meteo.Defs.{ok, err_checksum, err_packet_format_brackets, err_packet_format_items}
use zejf_meteo.Protocol.{
  Packet, packet_create, packet_to_string, packet_from_string, packet_text, packet_checksum,
  packet_accept, scan_packet, replace_character, Scanned,
}
use zejf_meteo.Protocol.RoundTrip.{packet_from_string-packet_to_string, received}
use zejf_meteo.Protocol.Accept.{packet_from_string-Accepted, Accepted}

-- `a`, a newline, `b`.
abbrev two_lines : List ℕ
two_lines = 97 ∷ 10 ∷ 98 ∷ []

unfoldable sample : Packet
unfolding packet_create
sample = record packet_create {
  from = 1;
  to = 1000;
  command = 10;
  ttl = 3;
  message = some two_lines;
}

-- {1;1000;10;0;0;0;1;x} with the checksum bypassed
abbrev bypassed : List ℕ
bypassed =
    123 ∷ 49 ∷ 59 ∷ 49 ∷ 48 ∷ 48 ∷ 48 ∷ 59 ∷ 49 ∷ 48 ∷ 59 ∷ 48 ∷ 59 ∷ 48 ∷ 59 ∷ 48 ∷ 59 ∷ 49 ∷ 59
    ∷ 120 ∷ 125 ∷ []

text_of_sample :
    (packet_to_string sample 12).2 ≡ 123 ∷ 49 ∷ 59 ∷ 49 ∷ 48 ∷ 48 ∷ 48 ∷ 59 ∷ 49 ∷ 48 ∷ 59 ∷ []
unfolding packet_to_string sample packet_text packet_checksum decimal digits
text_of_sample = refl

reads_back : (packet_from_string packet_create bypassed 21) ≡ (
  ok,
  record packet_create {
    from = 1;
    to = 1000;
    command = 10;
    message_size = 1;
    message = some (120 ∷ []);
  },
)
unfolding packet_from_string packet_create scan_packet scan_unsigned scan_char packet_accept
    packet_checksum replace_character
reads_back = refl

-- A checksum of 1 is neither 0 nor right, and leaves the packet without a message.
abbrev wrong_checksum : List ℕ
wrong_checksum =
    123 ∷ 49 ∷ 59 ∷ 49 ∷ 59 ∷ 49 ∷ 59 ∷ 48 ∷ 59 ∷ 49 ∷ 59 ∷ 48 ∷ 59 ∷ 48 ∷ 59 ∷ 125 ∷ []

refused : (packet_from_string packet_create wrong_checksum 16).0 ≡ err_checksum
unfolding packet_from_string packet_create scan_packet scan_unsigned scan_char packet_accept
    packet_checksum le_bytes
refused = refl

no_braces :
    packet_from_string packet_create (49 ∷ 59 ∷ 50 ∷ []) 3
    ≡ (err_packet_format_brackets, packet_create)
unfolding packet_from_string
no_braces = refl

too_few :
    packet_from_string packet_create (123 ∷ 49 ∷ 125 ∷ []) 3
    ≡ (err_packet_format_items, packet_create)
unfolding packet_from_string scan_packet scan_unsigned scan_char
too_few = refl

-- The number of a field is cut to its width, as 65537 to 1.
cut_to_width : scan_unsigned 65536 (54 ∷ 53 ∷ 53 ∷ 51 ∷ 55 ∷ 59 ∷ []) ≡ some (1, 59 ∷ [])
unfolding scan_unsigned
cut_to_width = refl

packet_from_string-packet_to_string_example :
    let (result, p', text) = packet_to_string sample 128 in
    (result ≡ ok)
    × (packet_from_string packet_create text (length text)
        ≡ (ok, received packet_create sample (packet_checksum p') two_lines))
unfolding sample packet_create
packet_from_string-packet_to_string_example =
    packet_from_string-packet_to_string sample packet_create 128
      (omega arith, omega arith, omega arith, omega arith, omega arith)
      ((omega arith, omega arith), ((omega arith, omega arith), ((omega arith, omega arith), tt)))
      (omega arith) (omega arith)

packet_from_string-Accepted_example : Accepted (record packet_create {
  from = 1;
  to = 1000;
  command = 10;
  message_size = 1;
  message = some (120 ∷ []);
})
packet_from_string-Accepted_example =
    packet_from_string-Accepted packet_create _ bypassed 21 reads_back

abbrev found : Scanned
found = record {
  from = 1;
  to = 1000;
  command = 10;
  ttl = 0;
  checksum = 0;
  flags = 0;
  message_size = 1;
  message = 120 ∷ 125 ∷ [];
}

finds : scan_packet bypassed ≡ some found
unfolding scan_packet scan_unsigned scan_char
finds = refl
