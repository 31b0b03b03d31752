-- ===== src/Server/Reader/Returns.antt =====
-- What `run_reader` of core/devices/ZejfMeteo/src/serial.c reads of lines that end in a carriage return
-- and a newline, as the boards write them.
use mathlib.Core.List.{append_assoc, append-nil}
use zejf_meteo.Common.{
  ℕ, ◌+◌, ◌-◌, ◌==◌, ◌<◌, ◌≡◌, refl, sym, ap, ◌∙◌, true, false, none, some, List, [], ◌∷◌, ◌++◌,
  if◌then◌else◌, All, length, length-append, take, take-append, arith, ==_ne, ==-of-eq,
}
use zejf_meteo.Server.{newline_char}
use zejf_meteo.Server.Lines.Glued.{NoNewline}
use zejf_meteo.Server.Reader.{
  line_buffer_size, starts_packet, going_on, read_byte, cons_accepted, run_reader,
}

abbrev pub carriage_return : ℕ
carriage_return = 13

step :
    (buffer buffer' : List ℕ) (b : ℕ) (bs : List ℕ)
    → read_byte buffer b ≡ going_on buffer'
    → run_reader buffer (b ∷ bs) ≡ run_reader buffer' bs
unfolding run_reader
step buffer buffer' b bs e = rw (e, run_reader) refl

read_byte-room :
    (buffer : List ℕ) (b : ℕ)
    → (b == newline_char) ≡ false
    → length buffer + 1 < line_buffer_size - 1
    → read_byte buffer b ≡ going_on (buffer ++ (b ∷ []))
unfolding read_byte
read_byte-room [] b e h = rw e refl
read_byte-room (x ∷ xs) b e h =
    let not_full : ((length xs + 2) == (line_buffer_size - 1)) ≡ false = ==_ne _ _ (omega arith) in
    rw (e, not_full) refl

read_byte-full :
    (buffer : List ℕ) (b : ℕ)
    → (b == newline_char) ≡ false
    → length buffer + 2 ≡ line_buffer_size
    → read_byte buffer b ≡ going_on []
unfolding read_byte
read_byte-full [] b e h = absurd (omega arith)
read_byte-full (x ∷ xs) b e h =
    let now_full : ((length xs + 2) == (line_buffer_size - 1)) ≡ true =
      ==-of-eq _ _ (omega arith) in
    rw (e, now_full) refl

-- Bytes that are no newline go into the buffer while there is room.
fills :
    (pre xs rest : List ℕ)
    → NoNewline xs
    → length pre + length xs < line_buffer_size - 1
    → run_reader pre (xs ++ rest) ≡ run_reader (pre ++ xs) rest
fills pre [] rest h room = ap (λ ys. run_reader ys rest) (sym (append-nil pre))
fills pre (x ∷ xs) rest (hx, h) room =
    step pre (pre ++ (x ∷ [])) x (xs ++ rest) (read_byte-room pre x hx (omega arith))
    ∙ (fills (pre ++ (x ∷ [])) xs rest h (omega (arith, length-append pre (x ∷ [])))
        ∙ ap (λ ys. run_reader ys rest) (append_assoc pre (x ∷ []) xs))

-- The end of a line.
ends :
    (text : List ℕ) (b : ℕ) (rest : List ℕ)
    → run_reader (text ++ (b ∷ [])) (newline_char ∷ rest) ≡ cons_accepted text (run_reader [] rest)
unfolding run_reader read_byte
ends [] b rest = refl
ends (x ∷ xs) b rest =
    let count : length (xs ++ (b ∷ [])) ≡ length (x ∷ xs) =
      length-append xs (b ∷ []) ∙ omega arith in
    let cut : take (length (xs ++ (b ∷ []))) (x ∷ (xs ++ (b ∷ []))) ≡ x ∷ xs =
      ap (λ k. take k (x ∷ (xs ++ (b ∷ [])))) count ∙ take-append (x ∷ xs) (b ∷ []) _ refl in
    ap (λ t. cons_accepted t (run_reader [] rest)) cut

-- Lines as the boards write them.
abbrev pub sent : List (List ℕ) → List ℕ
sent [] = []
sent (text ∷ texts) = text ++ (carriage_return ∷ newline_char ∷ sent texts)

-- Those that `network_accept` should get.
abbrev pub packets : List (List ℕ) → List (List ℕ)
packets [] = []
packets (text ∷ texts) = if starts_packet text then text ∷ packets texts else packets texts

-- A text without newlines that fits the buffer with its carriage return.
abbrev pub Fits : List ℕ → Type 0
Fits text = NoNewline text × (length text + 2 < line_buffer_size)

line_read :
    (text rest : List ℕ)
    → Fits text
    → run_reader [] (text ++ (carriage_return ∷ newline_char ∷ rest))
      ≡ cons_accepted text (run_reader [] rest)
line_read text rest (h, room) =
    fills [] text (carriage_return ∷ newline_char ∷ rest) h (omega arith)
    ∙ (step text (text ++ (carriage_return ∷ [])) carriage_return (newline_char ∷ rest)
          (read_byte-room text carriage_return refl (omega arith))
        ∙ ends text carriage_return rest)

-- Of lines that end in a carriage return and a newline, are free of newlines otherwise and have at most 125 characters before that, the reader of the serial port hands exactly those that start with a bracket to network_accept, each without its end, in their order, and nothing is left in its buffer.
pub run_reader-sent :
    (texts : List (List ℕ)) → All Fits texts → run_reader [] (sent texts) ≡ some (packets texts, [])
unfolding run_reader
run_reader-sent [] h = refl
run_reader-sent (text ∷ texts) (ht, h) =
    line_read text (sent texts) ht ∙ ap (cons_accepted text) (run_reader-sent texts h)

-- A text of 126 characters, which PACKET_MAX_LENGTH allows, overflows the line buffer with its carriage return, and the newline behind it makes the reader write before the buffer.
pub run_reader-before_start :
    (text rest : List ℕ)
    → NoNewline text
    → length text + 2 ≡ line_buffer_size
    → run_reader [] (text ++ (carriage_return ∷ newline_char ∷ rest)) ≡ none
unfolding run_reader read_byte
run_reader-before_start text rest h full =
    fills [] text (carriage_return ∷ newline_char ∷ rest) h (omega arith)
    ∙ step text [] carriage_return (newline_char ∷ rest)
        (read_byte-full text carriage_return refl full)
