-- ===== src/Server/Wire.antt =====
-- Messages from `network_send_via` of one server (core/devices/ZejfMeteo/src/serial.c) to `read_client`
-- of another (server.c).
use mathlib.Core.List.{append_assoc, append-nil}
use zejf_meteo.Common.{
  ℕ, zero, suc, ◌+◌, ◌-◌, ◌*◌, ◌≤◌, ◌<◌, ◌≡◌, refl, sym, ap, ◌∙◌, true, false, List, [], ◌∷◌, ◌++◌,
  All, length, length-append, take, take-append, arith,
}
use zejf_meteo.Defs.{Settings}
use zejf_meteo.Server.{newline_char}
use zejf_meteo.Server.Lines.{client_buffer_size, client_create, read_chunks}
use zejf_meteo.Server.Lines.Split.{split_lines, Proper}
use zejf_meteo.Server.Lines.Chunks.{joined, read_chunks-split_lines}
use zejf_meteo.Server.Lines.Glued.{NoNewline}
use zejf_meteo.Server.Process.{wire}

-- What is written of messages one after the other.
abbrev pub stream : Settings → List (List ℕ) → List ℕ
stream c [] = []
stream c (msg ∷ msgs) = wire c msg ++ stream c msgs

-- A message that is not empty, has no newline, and leaves room for one.
abbrev pub Carried : Settings → List ℕ → Type 0
Carried c msg = NoNewline msg × (0 < length msg) × (length msg + 1 < c.packet_max_length)

take_all : (n : ℕ) (xs : List ℕ) → length xs ≤ n → take n xs ≡ xs
take_all zero [] h = refl
take_all (suc n) [] h = refl
take_all zero (x ∷ xs) h = absurd (omega arith)
take_all (suc n) (x ∷ xs) h = ap (◌∷◌ x) (take_all n xs (omega arith))

wire-whole :
    (c : Settings) (msg : List ℕ)
    → length msg + 1 < c.packet_max_length
    → wire c msg ≡ msg ++ (newline_char ∷ [])
unfolding wire
wire-whole c msg h =
    take_all (c.packet_max_length - 1) (msg ++ (newline_char ∷ []))
      (omega (arith, length-append msg (newline_char ∷ [])))

-- A line at the front of a stream.
module _ (rest : List ℕ) (p : Proper [] rest) where
  front_from :
      (pre msg : List ℕ)
      → NoNewline msg
      → 0 < length pre + length msg
      → length pre + length msg < client_buffer_size
      → ((split_lines pre (msg ++ (newline_char ∷ rest))).0
          ≡ (pre ++ msg) ∷ (split_lines [] rest).0)
        × Proper pre (msg ++ (newline_char ∷ rest))
  unfolding split_lines Proper
  front_from pre [] h pos room = (
    ap (λ xs. xs ∷ (split_lines [] rest).0) (sym (append-nil pre)),
    (omega arith, (λ e. (omega arith, p)), (λ e. cc)),
  )
  front_from pre (x ∷ msg) (hx, h) pos room =
      let longer = length-append pre (x ∷ []) in
      let (lines, proper) =
        front_from (pre ++ (x ∷ [])) msg h (omega arith) (omega (arith, longer)) in
      (
        rw hx (lines ∙ ap (λ xs. xs ∷ (split_lines [] rest).0) (append_assoc pre (x ∷ []) msg)),
        (omega arith, (λ e. let no : true ≡ false = sym e ∙ hx in cc), (λ e. proper)),
      )

module _ (c : Settings) (fits : c.packet_max_length ≤ client_buffer_size) where
  stream-lines :
      (msgs : List (List ℕ))
      → All (Carried c) msgs
      → ((split_lines [] (stream c msgs)).0 ≡ msgs) × Proper [] (stream c msgs)
  unfolding split_lines Proper
  stream-lines [] h = (refl, omega arith)
  stream-lines (msg ∷ msgs) ((newlines, pos, room), h) =
      let (lines, proper) = stream-lines msgs h in
      let (front, whole) =
        front_from (stream c msgs) proper [] msg newlines (omega arith) (omega arith) in
      let text : stream c (msg ∷ msgs) ≡ msg ++ (newline_char ∷ stream c msgs) =
        ap (λ xs. xs ++ stream c msgs) (wire-whole c msg room)
        ∙ append_assoc msg (newline_char ∷ []) (stream c msgs) in
      (ap (λ xs. (split_lines [] xs).0) text ∙ (front ∙ ap (◌∷◌ msg) lines), rw text whole)

  -- Messages that are not empty, have no newline and are at least two characters shorter than PACKET_MAX_LENGTH come out of the reader of another server exactly as network_send_via took them, in their order, however the reads cut the stream between them.
  pub read_chunks-stream :
      (msgs chunks : List (List ℕ))
      → All (Carried c) msgs
      → joined chunks ≡ stream c msgs
      → (read_chunks client_create chunks).lines ≡ msgs
  read_chunks-stream msgs chunks h e =
      let (lines, proper) = stream-lines msgs h in
      read_chunks-split_lines chunks (rw e proper) ∙ (ap (λ xs. (split_lines [] xs).0) e ∙ lines)

-- A message one character shorter than PACKET_MAX_LENGTH is written without its newline.
wire-cut : (c : Settings) (msg : List ℕ) → length msg + 1 ≡ c.packet_max_length → wire c msg ≡ msg
unfolding wire
wire-cut c msg e = take-append msg (newline_char ∷ []) (c.packet_max_length - 1) (omega arith)

-- A message one character shorter than PACKET_MAX_LENGTH, which packet_to_string may write, loses its newline in network_send_via: the reader of another server gets it and the message behind it as one line.
pub read_chunks-merged :
    (c : Settings) (msg msg' : List ℕ) (chunks : List (List ℕ))
    → length msg + 1 ≡ c.packet_max_length
    → NoNewline (msg ++ msg')
    → length msg' + 1 < c.packet_max_length
    → c.packet_max_length * 2 ≤ client_buffer_size
    → joined chunks ≡ stream c (msg ∷ msg' ∷ [])
    → (read_chunks client_create chunks).lines ≡ (msg ++ msg') ∷ []
unfolding split_lines Proper
read_chunks-merged c msg msg' chunks full newlines room fits e =
    let whole : stream c (msg ∷ msg' ∷ []) ≡ (msg ++ msg') ++ (newline_char ∷ []) =
      ap (λ xs. xs ++ (wire c msg' ++ [])) (wire-cut c msg full)
      ∙ (ap (◌++◌ msg) (append-nil (wire c msg') ∙ wire-whole c msg' room)
          ∙ sym (append_assoc msg msg' (newline_char ∷ []))) in
    let count = length-append msg msg' in
    let (lines, proper) =
      front_from [] (omega arith) [] (msg ++ msg') newlines (omega (arith, count))
        (omega (arith, count)) in
    let text = e ∙ whole in
    read_chunks-split_lines chunks (rw text proper)
    ∙ (ap (λ xs. (split_lines [] xs).0) text ∙ lines)
