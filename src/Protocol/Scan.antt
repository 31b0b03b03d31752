-- ===== src/Protocol/Scan.antt =====
-- What sscanf finds in the text of a packet, and how long that text is.
use zejf_meteo.Common.{
  ℕ, zero, suc, ◌+◌, ◌*◌, ◌-◌, ◌%◌, ◌≤◌, ◌<◌, ◌==◌, ◌≡◌, ◌≢◌, refl, ap, ◌∙◌, Bool, true, false,
  some, List, [], ◌∷◌, ◌++◌, length, All, arith, lt→ltb, ltb, ◌/◌, ◌^◌, ==_ne, Bool-cases,
  length-append, inl, inr,
}
use zejf_meteo.Common.Bytes.{u8_mod, u16_mod, u32_mod, add32}
use zejf_meteo.Common.Text.{digits, decimal, scan_char, scan_unsigned-decimal}
use zejf_meteo.Protocol.{
  Packet, Scanned, packet_checksum, packet_text, scan_packet, scan_field, scan_line, print_field,
  message_bytes, char_at, tab, newline, newline_code, brace_open, brace_close, semicolon,
}
use native.Mathlib.Nat.{pow-suc}

-- The fields fit their widths.
abbrev pub FieldsValid : Packet → Type 0
FieldsValid p =
    (p.from < u16_mod)
    × (p.to < u16_mod)
    × (p.ttl < u8_mod)
    × (p.command < u8_mod)
    × (p.flags < u32_mod)

-- A character of a message that the format can carry.
abbrev pub IsPlain : ℕ → Type 0
IsPlain b = (b ≢ tab) × (b ≢ newline_code)

abbrev pub IsLine : ℕ → Type 0
IsLine b = (b ≢ tab) × (b ≢ newline)

add32-lt : (a b : ℕ) → add32 a b < u32_mod
add32-lt a b = omega arith

pub packet_checksum-lt : (p : Packet) → packet_checksum p < u32_mod
unfolding packet_checksum
packet_checksum-lt p = add32-lt _ _

scan_field-print_field :
    (modulus v : ℕ) (rest : List ℕ)
    → v < modulus
    → modulus ≤ u32_mod
    → scan_field modulus (print_field v rest) ≡ some (v, rest)
unfolding scan_field print_field scan_char
scan_field-print_field modulus v rest h m =
    rw (scan_unsigned-decimal modulus v semicolon rest h (omega arith) refl) refl

scan_line-lem :
    (m : List ℕ) → All IsLine m → scan_line (m ++ (brace_close ∷ [])) ≡ m ++ (brace_close ∷ [])
unfolding scan_line
scan_line-lem [] h = refl
scan_line-lem (b ∷ bs) ((t, n), h) =
    rw (==_ne b tab t, ==_ne b newline n) (ap (◌∷◌ b) (scan_line-lem bs h))

-- What sscanf finds in the text of a packet.
unfoldable pub scanned : Packet → ℕ → Scanned
scanned p sum = record {
  from = p.from;
  to = p.to;
  command = p.command;
  ttl = p.ttl;
  checksum = sum;
  flags = p.flags;
  message_size = p.message_size;
  message = message_bytes p.message ++ (brace_close ∷ []);
}

pub scan_packet-packet_text :
    (p : Packet) (sum : ℕ)
    → FieldsValid p
    → sum < u32_mod
    → p.message_size < u16_mod
    → All IsLine (message_bytes p.message)
    → scan_packet (packet_text p sum) ≡ some (scanned p sum)
unfolding scan_packet packet_text scan_char scanned
scan_packet-packet_text p sum (f, t, l, c, g) s n h =
    let e : (length (message_bytes p.message ++ (brace_close ∷ [])) == 0) ≡ false =
      ground (arith, length-append (message_bytes p.message) (brace_close ∷ [])) in
    rw
      (
        scan_field-print_field u16_mod p.from _ f (omega arith),
        scan_field-print_field u16_mod p.to _ t (omega arith),
        scan_field-print_field u16_mod p.command _ (omega arith) (omega arith),
        scan_field-print_field u16_mod p.ttl _ (omega arith) (omega arith),
        scan_field-print_field u32_mod sum _ s (omega arith),
        scan_field-print_field u32_mod p.flags _ g (omega arith),
        scan_field-print_field u16_mod p.message_size _ n (omega arith),
        scan_line-lem (message_bytes p.message) h,
        e,
      )
      refl

-- Whether the last character is the closing brace.
unfoldable pub closed : List ℕ → Bool
closed [] = false
closed (b ∷ []) = b == brace_close
closed (b ∷ d ∷ s) = closed (d ∷ s)

closed-append : (xs ys : List ℕ) → closed ys ≡ true → closed (xs ++ ys) ≡ true
unfolding closed
closed-append [] ys h = h
closed-append (x ∷ []) [] h = cc
closed-append (x ∷ []) (y ∷ ys) h = h
closed-append (x ∷ z ∷ xs) ys h = closed-append (z ∷ xs) ys h

closed-print_field :
    (v : ℕ) (rest : List ℕ) → closed rest ≡ true → closed (print_field v rest) ≡ true
unfolding print_field
closed-print_field v rest h =
    closed-append (decimal v) (semicolon ∷ rest) (closed-append (semicolon ∷ []) rest h)

pub char_at-closed : (s : List ℕ) → closed s ≡ true → char_at s (length s - 1) ≡ brace_close
unfolding closed char_at
char_at-closed [] h = cc
char_at-closed (b ∷ []) h = ground (arith, h)
char_at-closed (b ∷ d ∷ s) h =
    let last : length (b ∷ d ∷ s) - 1 ≡ suc (length s) = omega arith in
    let last' : length s ≡ length (d ∷ s) - 1 = omega arith in
    ap (char_at (b ∷ d ∷ s)) last ∙ (ap (char_at (d ∷ s)) last' ∙ char_at-closed (d ∷ s) h)

closed-brace : closed (brace_close ∷ []) ≡ true
unfolding closed
closed-brace = refl

pub closed-packet_text : (p : Packet) (sum : ℕ) → closed (packet_text p sum) ≡ true
unfolding packet_text
closed-packet_text p sum =
    let at_end = closed-append (message_bytes p.message) (brace_close ∷ []) closed-brace in
    closed-append (brace_open ∷ []) _ (
      closed-print_field _ _ (
        closed-print_field _ _ (
          closed-print_field _ _ (
            closed-print_field _ _
              (closed-print_field _ _ (closed-print_field _ _ (closed-print_field _ _ at_end)))))))

length-digits : (k d v : ℕ) → v < 10 ^ suc d → length (digits k v) ≤ suc d
unfolding digits
length-digits zero d v h = omega arith
length-digits (suc k) zero v h = rw (lt→ltb v 10 (omega arith)) (omega arith)
length-digits (suc k) (suc d) v h = elim (Bool-cases (ltb v 10)) [
  | inl e ↦ rw e (omega arith)
  | inr e ↦
      let below : v < 10 ^ suc d * 10 = rw (← pow-suc 10 (suc d)) h in
      rw e (
        omega (
          arith,
          length-append (digits k (v / 10)) ((48 + v % 10) ∷ []),
          length-digits k d (v / 10) (omega arith),
        ))
]

length-print_field :
    (d v : ℕ) (rest : List ℕ) → v < 10 ^ suc d → length (print_field v rest) ≤ d + 2 + length rest
unfolding print_field decimal
length-print_field d v rest h =
    omega (arith, length-append (digits 10 v) (semicolon ∷ rest), length-digits 10 d v h)

-- The text of a packet is at most 50 characters longer than its message.
pub length-packet_text :
    (p : Packet) (sum : ℕ)
    → FieldsValid p
    → sum < u32_mod
    → p.message_size < u16_mod
    → length (packet_text p sum) ≤ length (message_bytes p.message) + 50
unfolding packet_text
length-packet_text p sum (f, t, l, c, g) s w = omega (
  arith,
  length-print_field 4 p.from _ (omega arith),
  length-print_field 4 p.to _ (omega arith),
  length-print_field 2 p.command _ (omega arith),
  length-print_field 2 p.ttl _ (omega arith),
  length-print_field 9 sum _ (omega arith),
  length-print_field 9 p.flags _ (omega arith),
  length-print_field 4 p.message_size _ (omega arith),
  length-append (message_bytes p.message) (brace_close ∷ []),
)
