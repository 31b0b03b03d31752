-- ===== src/Device/RequestText.antt =====
-- The text of a request for samples: `data_request_send` and `data_request_receive` of
-- core/api/zejf_api/src/data_request.c.
use zejf_meteo.Common.{ℕ, ◌<◌, ◌≡◌, refl, ap, ◌∙◌, Option, none, some, List, ◌∷◌, ◌++◌, arith}
use zejf_meteo.Common.Bytes.{u16_mod, u32_mod}
use zejf_meteo.Common.Optional.{◌>>=◌, >>=-elim}
use zejf_meteo.Common.Text.{
  decimal, scan_unsigned, scan_char, scan_unsigned-decimal, scan_unsigned-decimal_end,
  scan_unsigned-some,
}
use zejf_meteo.Defs.{ZejfErr, err_generic, Settings, VariableInfo}
use zejf_meteo.Protocol.{Packet, message_bytes}
use zejf_meteo.Network.{Platform, Network, network_prepare_packet, network_send_packet}
use zejf_meteo.Info.{comma, print_message}
use zejf_meteo.Device.{Device, data_request_add}

abbrev pub data_request_command : ℕ
data_request_command = 7

-- Five numbers with commas between them.
unfoldable pub request_text : VariableInfo → (hour_number start_log end_log : ℕ) → List ℕ
request_text info hour_number start_log end_log =
    decimal info.id
    ++ (comma
        ∷ (decimal info.samples_per_hour
            ++ (comma
                ∷ (decimal hour_number
                    ++ (comma ∷ (decimal start_log ++ (comma ∷ decimal end_log)))))))

unfoldable pub scan_request : List ℕ → Option (VariableInfo × ℕ × ℕ × ℕ)
scan_request text = do
  (id, rest) ← scan_unsigned u16_mod text
  rest ← scan_char comma rest
  (rate, rest) ← scan_unsigned u32_mod rest
  rest ← scan_char comma rest
  (hour_number, rest) ← scan_unsigned u32_mod rest
  rest ← scan_char comma rest
  (start_log, rest) ← scan_unsigned u32_mod rest
  rest ← scan_char comma rest
  (end_log, rest) ← scan_unsigned u32_mod rest
  some (record { samples_per_hour = rate; id = id }, hour_number, start_log, end_log)

unfoldable pub data_request_send :
    {E : Type 0}
    → Platform E
    → Settings
    → (to : ℕ) → VariableInfo
    → (hour_number start_log end_log : ℕ) → ℕ
    → Network E
    → ZejfErr × Network E
unfolding request_text
data_request_send platform c to info hour_number start_log end_log time n =
    network_send_packet platform c
      (network_prepare_packet c to data_request_command
        (some (print_message c (request_text info hour_number start_log end_log))))
      time n

-- A packet that was received has a message.
unfoldable pub data_request_receive :
    {E : Type 0} → Settings → Packet → Device E → ZejfErr × Device E
unfolding scan_request
data_request_receive c p d = elim (scan_request (message_bytes p.message)) [
  | none ↦ (err_generic, d)
  | some (info, hour_number, start_log, end_log) ↦
      data_request_add c p.from info hour_number start_log end_log d
]

pub scan_request-request_text :
    (info : VariableInfo) (hour_number start_log end_log : ℕ)
    → info.id < u16_mod
    → info.samples_per_hour < u32_mod
    → hour_number < u32_mod
    → start_log < u32_mod
    → end_log < u32_mod
    → scan_request (request_text info hour_number start_log end_log)
      ≡ some (info, hour_number, start_log, end_log)
unfolding scan_request request_text scan_char
scan_request-request_text info hour_number start_log end_log i r h s e =
    rw
      (
        scan_unsigned-decimal u16_mod info.id comma _ i (omega arith) refl,
        scan_unsigned-decimal u32_mod info.samples_per_hour comma _ r (omega arith) refl,
        scan_unsigned-decimal u32_mod hour_number comma _ h (omega arith) refl,
        scan_unsigned-decimal u32_mod start_log comma _ s (omega arith) refl,
        scan_unsigned-decimal_end u32_mod end_log e (omega arith),
      )
      refl

-- What was scanned as the hour fits its type.
pub scan_request-typed :
    (text : List ℕ) (info : VariableInfo) (hour_number start_log end_log : ℕ)
    → scan_request text ≡ some (info, hour_number, start_log, end_log)
    → hour_number < u32_mod
unfolding scan_request
scan_request-typed text info hour_number start_log end_log e =
    >>=-elim (scan_unsigned u16_mod text) _ e λ (v1, s1) e1 e.
      >>=-elim (scan_char comma s1) _ e λ s2 e2 e.
        >>=-elim (scan_unsigned u32_mod s2) _ e λ (v2, s3) e3 e.
          >>=-elim (scan_char comma s3) _ e λ s4 e4 e.
            >>=-elim (scan_unsigned u32_mod s4) _ e λ (v3, s5) e5 e.
              >>=-elim (scan_char comma s5) _ e λ s6 e6 e.
                >>=-elim (scan_unsigned u32_mod s6) _ e λ (v4, s7) e7 e.
                  >>=-elim (scan_char comma s7) _ e λ s8 e8 e.
                    >>=-elim (scan_unsigned u32_mod s8) _ e λ (v5, s9) e9 e.
                      let same : v3 ≡ hour_number = cc in
                      omega (arith, (scan_unsigned-some u32_mod v3 s4 s5 (omega arith) e5).0)

-- A packet with the whole text that data_request_send prints of a request is taken by data_request_receive as exactly that request, of the packet's sender.
pub data_request_receive-request_text :
    {E : Type 0} (c : Settings) (p : Packet) (d : Device E) (info : VariableInfo)
    (hour_number start_log end_log : ℕ)
    → info.id < u16_mod
    → info.samples_per_hour < u32_mod
    → hour_number < u32_mod
    → start_log < u32_mod
    → end_log < u32_mod
    → p.message ≡ some (request_text info hour_number start_log end_log)
    → data_request_receive c p d ≡ data_request_add c p.from info hour_number start_log end_log d
unfolding data_request_receive
data_request_receive-request_text c p d info hour_number start_log end_log i r h s e m =
    let found : scan_request (message_bytes p.message)
        ≡ some (info, hour_number, start_log, end_log) =
      ap (λ x. scan_request (message_bytes x)) m
      ∙ scan_request-request_text info hour_number start_log end_log i r h s e in
    rw (found, data_request_receive) refl
