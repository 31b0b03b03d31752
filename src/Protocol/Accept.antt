-- ===== src/Protocol/Accept.antt =====
-- What is known of a packet that packet_from_string of core/api/zejf_api/src/zejf_protocol.c accepts.
use zejf_meteo.Common.{
  ℕ, suc, ◌+◌, ◌-◌, ◌≤◌, ◌<◌, ◌==◌, ◌≡◌, refl, sym, ap, Bool, true, false, not, ◌&&◌, ◌||◌, none,
  some, List, [], ◌∷◌, if◌then◌else◌, length, take, arith, ==→eq, ==_ne, Bool-cases, Option-cases,
  inl, inr, ◌⊎◌, length-take,
}
use zejf_meteo.Common.Bytes.{u16_mod, u32_mod}
use zejf_meteo.Common.Optional.{>>=-elim, some_pair}
use zejf_meteo.Common.Text.{scan_unsigned, scan_char, scan_unsigned-some, scan_char-some}
use zejf_meteo.Defs.{
  ZejfErr, ok, err_checksum, err_packet_format_length, err_packet_format_items,
  err_packet_format_brackets,
}
use zejf_meteo.Protocol.{
  Packet, Scanned, packet_checksum, packet_from_string, packet_accept, packet_fill, scan_packet,
  scan_field, scan_line, char_at, newline, newline_code, brace_open, brace_close, semicolon,
  checksum_bypass_value, replace_character,
}
use zejf_meteo.Protocol.Scan.{FieldsValid}
use native.Mathlib.Nat.{mod-lt}

scan_field-some :
    (modulus v : ℕ) (s left : List ℕ)
    → 0 < modulus
    → scan_field modulus s ≡ some (v, left)
    → (v < modulus) × (length left < length s)
unfolding scan_field
scan_field-some modulus v s left h e = >>=-elim (scan_unsigned modulus s) _ e λ (w, mid) ew e'.
    >>=-elim (scan_char semicolon mid) _ e' λ end ee e''.
      let a = scan_unsigned-some modulus w s mid h ew in
      let b = scan_char-some semicolon mid end ee in
      let both = some_pair e'' in
      (omega (arith, both.0, a.0), omega (arith, ap length both.1, a.1, b))

length-scan_line : (s : List ℕ) → length (scan_line s) ≤ length s
unfolding scan_line
length-scan_line [] = omega arith
length-scan_line (b ∷ bs) = ground (arith, length-scan_line bs)

abbrev ScannedValid : Scanned → Type 0
ScannedValid r =
    (r.from < u16_mod) × (r.to < u16_mod) × (r.flags < u32_mod) × (0 < length r.message)

nonempty_line :
    {A : Type 0} (line : List ℕ) (a r : A)
    → (if length line == 0 then none else some a) ≡ some r
    → (0 < length line) × (a ≡ r)
nonempty_line [] a r e = cc
nonempty_line (b ∷ bs) a r e =
    let e' = rw (==_ne (suc (length bs)) 0 (omega arith)) at e in (omega arith, cc)

scan_packet-some :
    (s : List ℕ) (r : Scanned)
    → scan_packet s ≡ some r
    → ScannedValid r × (length r.message < length s)
unfolding scan_packet
scan_packet-some s r e = >>=-elim (scan_char brace_open s) _ e λ s0 e0 e.
    >>=-elim (scan_field u16_mod s0) _ e λ (v1, s1) e1 e.
      >>=-elim (scan_field u16_mod s1) _ e λ (v2, s2) e2 e.
        >>=-elim (scan_field u16_mod s2) _ e λ (v3, s3) e3 e.
          >>=-elim (scan_field u16_mod s3) _ e λ (v4, s4) e4 e.
            >>=-elim (scan_field u32_mod s4) _ e λ (v5, s5) e5 e.
              >>=-elim (scan_field u32_mod s5) _ e λ (v6, s6) e6 e.
                >>=-elim (scan_field u16_mod s6) _ e λ (v7, s7) e7 e.
                  let (pos, same) = nonempty_line (scan_line s7) _ r e in
                  let (in_width, l1) = scan_field-some u16_mod v1 s0 s1 (omega arith) e1 in
                  let (to_width, l2) = scan_field-some u16_mod v2 s1 s2 (omega arith) e2 in
                  let (_, l3) = scan_field-some u16_mod v3 s2 s3 (omega arith) e3 in
                  let (_, l4) = scan_field-some u16_mod v4 s3 s4 (omega arith) e4 in
                  let (_, l5) = scan_field-some u32_mod v5 s4 s5 (omega arith) e5 in
                  let (flag_width, l6) = scan_field-some u32_mod v6 s5 s6 (omega arith) e6 in
                  let (_, l7) = scan_field-some u16_mod v7 s6 s7 (omega arith) e7 in
                  let line : scan_line s7 ≡ r.message = ap (λ r. r.message) same in
                  (
                    (
                      rw (sym (ap (λ r. r.from) same)) in_width,
                      rw (sym (ap (λ r. r.to) same)) to_width,
                      rw (sym (ap (λ r. r.flags) same)) flag_width,
                      rw (sym line) pos,
                    ),
                    rw (sym line) (
                        omega (
                          arith,
                          length-scan_line s7,
                          scan_char-some brace_open s s0 e0,
                          l1,
                          l2,
                          l3,
                          l4,
                          l5,
                          l6,
                          l7,
                        )),
                  )

-- What packet_from_string vouches for. `m` is the message as it was received.
abbrev Vouched : Packet → List ℕ → Type 0
Vouched p m =
    (p.message ≡ some (replace_character m newline_code newline))
    × (length m ≡ p.message_size)
    × ((p.checksum ≡ checksum_bypass_value)
        ⊎ (p.checksum ≡ packet_checksum (record p { message = some m })))

abbrev pub Accepted : Packet → Type 0
Accepted p = FieldsValid p × ((m : List ℕ) × Vouched p m)

pass :
    {P : Type 0} (a b : Bool) (failed done p : P)
    → ◌≡◌ {A = ZejfErr × P} (if not a && not b then (err_checksum, failed) else (ok, done)) (ok, p)
    → ((a ≡ true) ⊎ (b ≡ true)) × (done ≡ p)
pass true b failed done p e = (inl refl, ap (λ x. x.1) e)
pass false true failed done p e = (inr refl, ap (λ x. x.1) e)
pass false false failed done p e = cc

packet_accept-ok :
    (q p : Packet) (r : Scanned) → ScannedValid r → packet_accept q r ≡ (ok, p) → Accepted p
unfolding packet_accept packet_fill
packet_accept-ok q p r (f, t, g, pos) e =
    elim (Bool-cases ((length r.message - 1) == r.message_size)) [
      | inl l ↦
          let m = take (length r.message - 1) r.message in
          let p' = packet_fill q r m in
          let (why, same) =
            pass (r.checksum == checksum_bypass_value) (r.checksum == packet_checksum p') _ _ p
              (rw l at e) in
          let long : length m ≡ r.message_size =
            omega (arith, length-take (length r.message - 1) r.message, ==→eq _ _ l) in
          rw (sym same) (
            (f, t, mod-lt r.ttl (omega arith), mod-lt r.command (omega arith), g),
            (m, (refl, long, elim why [ inl b ↦ inl (==→eq _ _ b) | inr b ↦ inr (==→eq _ _ b) ])),
          )
      | inr l ↦ let no : err_packet_format_length ≡ ok = ap (λ x. x.0) (rw l at e) in cc
    ]

-- A packet that packet_from_string accepts has fields within their widths, a message as long as message_size says, and a checksum that is 0 or that of its fields and its message as received.
pub packet_from_string-Accepted :
    (q p : Packet) (text : List ℕ) (len : ℕ) → packet_from_string q text len ≡ (ok, p) → Accepted p
unfolding packet_from_string
packet_from_string-Accepted q p text len e =
    elim (Bool-cases
      (not (char_at text 0 == brace_open) || not (char_at text (len - 1) == brace_close))) [
        | inl b ↦ let no : err_packet_format_brackets ≡ ok = ap (λ x. x.0) (rw b at e) in cc
        | inr b ↦ elim (Option-cases (scan_packet text)) [
          | inl n ↦ let no : err_packet_format_items ≡ ok = ap (λ x. x.0) (rw (b, n) at e) in cc
          | inr (r, n) ↦ packet_accept-ok q p r (scan_packet-some text r n).0 (rw (b, n) at e)
        ]
      ]

-- What sscanf stores into the message of packet_from_string fits, with its terminator, an array as long as the text, and has a last character to cut.
pub scan_packet-fits :
    (text : List ℕ) (r : Scanned)
    → scan_packet text ≡ some r
    → (0 < length r.message) × (length r.message + 1 ≤ length text)
scan_packet-fits text r e =
    let ((f, t, g, pos), short) = scan_packet-some text r e in (pos, omega arith)
