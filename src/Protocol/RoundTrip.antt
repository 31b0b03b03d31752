-- ===== src/Protocol/RoundTrip.antt =====
-- What packet_from_string of core/api/zejf_api/src/zejf_protocol.c reads of the text that
-- packet_to_string writes.
use zejf_meteo.Common.{
  ℕ, zero, suc, ◌+◌, ◌-◌, ◌%◌, ◌≤◌, ◌<◌, ◌==◌, ◌≡◌, refl, sym, ap, ◌∙◌, not, some, List, [], ◌∷◌,
  ◌++◌, length, take, All, arith, ==_self, ==-of-eq, ==_ne, ==→eq, ==→ne, Bool-cases, length-append,
  take-append, Option-cases, inl, inr,
}
use zejf_meteo.Common.Bytes.{u16_mod}
use zejf_meteo.Defs.{ok}
use zejf_meteo.Protocol.{
  Packet, packet_checksum, packet_text, packet_encode, packet_to_string, packet_from_string,
  packet_accept, packet_fill, replace_character, message_bytes, char_at, newline, newline_code,
  brace_open, brace_close, checksum_bypass_value,
}
use native.Mathlib.Nat.{mod-eq_of_lt}
use mathlib.Core.Bool.{and-false}
use zejf_meteo.Protocol.Scan.{
  FieldsValid, IsPlain, IsLine, packet_checksum-lt, scanned, scan_packet-packet_text,
  char_at-closed, closed-packet_text, length-packet_text,
}

take-all : (n : ℕ) (xs : List ℕ) → length xs ≤ n → take n xs ≡ xs
take-all zero [] h = refl
take-all zero (x ∷ xs) h = absurd (omega arith)
take-all (suc n) [] h = refl
take-all (suc n) (x ∷ xs) h = ap (◌∷◌ x) (take-all n xs (omega arith))

-- The packet that the reader makes of the fields.
abbrev pub received : Packet → Packet → ℕ → List ℕ → Packet
received q p sum m = record q {
  from = p.from;
  to = p.to;
  ttl = p.ttl;
  flags = p.flags;
  checksum = sum;
  command = p.command;
  message_size = length m;
  message = some m;
}

packet_checksum-packet_fill :
    (q p : Packet) (sum : ℕ)
    → FieldsValid p
    → packet_checksum (packet_fill q (scanned p sum) (message_bytes p.message)) ≡ packet_checksum p
unfolding packet_checksum packet_fill scanned
packet_checksum-packet_fill q p sum (f, t, l, c, g) = rw (mod-eq_of_lt l, mod-eq_of_lt c) refl

pub length-replace_character :
    (m : List ℕ) (target replacement : ℕ)
    → length (replace_character m target replacement) ≡ length m
unfolding replace_character
length-replace_character [] target replacement = refl
length-replace_character (b ∷ bs) target replacement =
    ap suc (length-replace_character bs target replacement)

-- A newline is written as its stand-in and read back.
replace_character-replace_character :
    (m : List ℕ)
    → All IsPlain m
    → replace_character (replace_character m newline newline_code) newline_code newline ≡ m
unfolding replace_character
replace_character-replace_character [] h = refl
replace_character-replace_character (b ∷ bs) ((t, n), h) = elim (Bool-cases (b == newline)) [
  | inl e ↦
      rw e (rw (==→eq b newline e) (ap (◌∷◌ newline) (replace_character-replace_character bs h)))
  | inr e ↦ rw (e, ==_ne b newline_code n) (ap (◌∷◌ b) (replace_character-replace_character bs h))
]

replace_character-IsLine :
    (m : List ℕ) → All IsPlain m → All IsLine (replace_character m newline newline_code)
unfolding replace_character
replace_character-IsLine [] h = tt
replace_character-IsLine (b ∷ bs) ((t, n), h) = elim (Bool-cases (b == newline)) [
  | inl e ↦ rw e ((omega arith, omega arith), replace_character-IsLine bs h)
  | inr e ↦ rw e ((t, ==→ne b newline e), replace_character-IsLine bs h)
]

packet_accept-scanned :
    (q p : Packet)
    → FieldsValid p
    → p.message_size ≡ length (message_bytes p.message)
    → packet_accept q (scanned p (packet_checksum p)) ≡ (
      ok,
      received q p
          (packet_checksum p)
          (replace_character (message_bytes p.message) newline_code newline),
    )
unfolding packet_accept scanned
packet_accept-scanned q p (f, t, l, c, g) e =
    let m : List ℕ = message_bytes p.message in
    let len : length (m ++ (brace_close ∷ [])) - 1 ≡ length m =
      omega (arith, length-append m (brace_close ∷ [])) in
    let sum = packet_checksum p in
    let body : take (length m) (m ++ (brace_close ∷ [])) ≡ m =
      take-append m (brace_close ∷ []) (length m) refl in
    let same = packet_checksum-packet_fill q p sum (f, t, l, c, g) in
    rw
      (
        len,
        body,
        ==-of-eq (length m) p.message_size (sym e),
        same,
        ==_self sum,
        and-false (not (sum == checksum_bypass_value)),
        length-replace_character m newline_code newline,
        mod-eq_of_lt l,
        mod-eq_of_lt c,
        e,
      )
      refl

packet_encode-message :
    (p : Packet)
    → message_bytes (packet_encode p).message
      ≡ replace_character (message_bytes p.message) newline newline_code
unfolding packet_encode replace_character
packet_encode-message p = elim (Option-cases p.message) [
  | inl e ↦ rw e refl
  | inr (m, e) ↦ rw e refl
]

packet_encode-message_size :
    (p : Packet) → (packet_encode p).message_size ≡ length (message_bytes p.message) % u16_mod
unfolding packet_encode
packet_encode-message_size p = elim (Option-cases p.message) [
  | inl e ↦ rw e refl
  | inr (m, e) ↦ rw e refl
]

-- Only the message and its size change.
packet_encode-keeps :
    (p q : Packet) (sum : ℕ) (m : List ℕ) → received q (packet_encode p) sum m ≡ received q p sum m
unfolding packet_encode
packet_encode-keeps p q sum m = elim (Option-cases p.message) [
  | inl e ↦ rw e refl
  | inr (m, e) ↦ rw e refl
]

packet_encode-FieldsValid : (p : Packet) → FieldsValid p → FieldsValid (packet_encode p)
unfolding packet_encode
packet_encode-FieldsValid p v = elim (Option-cases p.message) [
  | inl e ↦ rw e v
  | inr (m, e) ↦ rw e v
]

char_at-packet_text : (p : Packet) (sum : ℕ) → char_at (packet_text p sum) 0 ≡ brace_open
unfolding packet_text char_at
char_at-packet_text p sum = refl

packet_from_string-packet_text :
    (q p : Packet)
    → FieldsValid p
    → p.message_size ≡ length (message_bytes p.message)
    → p.message_size < u16_mod
    → All IsLine (message_bytes p.message)
    → let text = packet_text p (packet_checksum p) in
      packet_from_string q text (length text) ≡ (
        ok,
        received q p
            (packet_checksum p)
            (replace_character (message_bytes p.message) newline_code newline),
      )
unfolding packet_from_string
packet_from_string-packet_text q p v e w h =
    let sum = packet_checksum p in
    rw
      (
        char_at-packet_text p sum,
        char_at-closed (packet_text p sum) (closed-packet_text p sum),
        scan_packet-packet_text p sum v (packet_checksum-lt p) w h,
      )
      (packet_accept-scanned q p v e)

-- A packet whose fields fit their widths and whose message, free of tabs and of the character 2, leaves 51 characters of the buffer comes back from its text: packet_to_string returns ZEJF_OK, packet_from_string too, with the same fields, the checksum that was written, and the message, newlines included; NULL comes back as the empty message.
pub packet_from_string-packet_to_string :
    (p q : Packet) (max_length : ℕ)
    → FieldsValid p
    → All IsPlain (message_bytes p.message)
    → length (message_bytes p.message) < u16_mod
    → length (message_bytes p.message) + 51 ≤ max_length
    → let (result, p', text) = packet_to_string p max_length in
      (result ≡ ok)
      × (packet_from_string q text (length text)
          ≡ (ok, received q p (packet_checksum p') (message_bytes p.message)))
unfolding packet_to_string
packet_from_string-packet_to_string p q max_length v h w fits =
    let p' = packet_encode p in
    let m : List ℕ = message_bytes p.message in
    let sum = packet_checksum p' in
    let v' = packet_encode-FieldsValid p v in
    let size : p'.message_size ≡ length m = packet_encode-message_size p ∙ mod-eq_of_lt w in
    let len : length (message_bytes p'.message) ≡ length m =
      ap length (packet_encode-message p) ∙ length-replace_character m newline newline_code in
    let line : All IsLine (message_bytes p'.message) =
      rw (packet_encode-message p) (replace_character-IsLine m h) in
    let bound = length-packet_text p' sum v' (packet_checksum-lt p') (omega arith) in
    let whole = take-all (max_length - 1) (packet_text p' sum) (omega arith) in
    let back : replace_character (message_bytes p'.message) newline_code newline ≡ m =
      rw (packet_encode-message p) (replace_character-replace_character m h) in
    (
      refl,
      rw whole (
          packet_from_string-packet_text q p' v' (size ∙ sym len) (omega arith) line
          ∙ (ap (λ x. (ok, received q p' sum x)) back
              ∙ ap (λ x. (ok, x)) (packet_encode-keeps p q sum m))),
    )
