-- ===== src/Server/Lines/Split.antt =====
-- The lines that `read_client` of core/devices/ZejfMeteo/src/server.c accepts, against the lines that
-- a stream of bytes has.
use mathlib.Core.List.{append_assoc, append-nil}
use zejf_meteo.Common.{
  ℕ, zero, suc, ◌+◌, ◌==◌, ◌≤◌, ◌<◌, ◌≡◌, refl, sym, ap, ◌⊎◌, inl, inr, true, false, none, List, [],
  ◌∷◌, ◌++◌, if◌then◌else◌, length, length-append, get_elem?, get_elem?-middle, take, take-append,
  drop, drop-append, arith, Bool-cases,
}
use zejf_meteo.Server.{newline_char}
use zejf_meteo.Server.Lines.{Parsed, client_buffer_size, parse_loop}

-- The complete lines of a stream that continues the bytes `pending`, and the bytes after the last.
unfoldable pub split_lines : (pending : List ℕ) → List ℕ → List (List ℕ) × List ℕ
split_lines pending [] = ([], pending)
split_lines pending (b ∷ bs) =
    let (lines, left) = split_lines [] bs in
    let onwards = split_lines (pending ++ (b ∷ [])) bs in
    if b == newline_char then (pending ∷ lines, left) else onwards

-- No line of the stream is empty, and none fills the buffer.
unfoldable pub Proper : (pending : List ℕ) → List ℕ → Type 0
Proper pending [] = length pending < client_buffer_size
Proper pending (b ∷ bs) =
    (length pending < client_buffer_size)
    × ((b == newline_char) ≡ true → (0 < length pending) × Proper [] bs)
    × ((b == newline_char) ≡ false → Proper (pending ++ (b ∷ [])) bs)

-- The pointer is behind the pending bytes, or on the first byte of a line, which it passes over.
abbrev pub Behind : ℕ → List ℕ → Type 0
Behind ptr pending = (ptr ≡ length pending) ⊎ ((ptr ≡ 1) × (pending ≡ []))

-- A result with the lines of the reference and the pending bytes in the buffer.
pub record Agrees (r : Parsed) (pending bs : List ℕ) : Type 0 where
  pub lines : r.lines ≡ (split_lines pending bs).0
  pub buffer : r.client.buffer ≡ (split_lines pending bs).1
  pub behind : Behind r.client.buffer_parse_ptr (split_lines pending bs).1

get_elem?_end : (xs : List ℕ) → get_elem? xs (length xs) ≡ none
get_elem?_end [] = refl
get_elem?_end (x ∷ xs) = get_elem?_end xs

past_end : (ptr : ℕ) (pending : List ℕ) → Behind ptr pending → get_elem? pending ptr ≡ none
past_end ptr pending (inl e) = rw e (get_elem?_end pending)
past_end ptr pending (inr (e, f)) = rw (e, f) refl

pub drop_line :
    (pending : List ℕ) (b : ℕ) (bs : List ℕ) → drop (length pending + 1) (pending ++ (b ∷ bs)) ≡ bs
drop_line pending b bs =
    let same : pending ++ (b ∷ bs) ≡ (pending ++ (b ∷ [])) ++ bs =
      sym (append_assoc pending (b ∷ []) bs) in
    rw same
      (drop-append (pending ++ (b ∷ [])) bs (length pending + 1) (length-append pending (b ∷ [])))

-- At the end of the buffer.
pub no_more :
    (rounds ptr : ℕ) (pending : List ℕ)
    → Behind ptr pending
    → Agrees (parse_loop rounds ptr pending) pending []
unfolding parse_loop split_lines
no_more zero ptr pending h = record { lines = refl; buffer = refl; behind = h }
no_more (suc rounds) ptr pending h =
    rw (past_end ptr pending h, parse_loop) (record { lines = refl; buffer = refl; behind = h })

-- The first byte of a line that is not empty.
pub first_byte :
    (r : Parsed) (c : ℕ) (cs : List ℕ)
    → (c == newline_char) ≡ false
    → Agrees r (c ∷ []) cs
    → Agrees r [] (c ∷ cs)
unfolding split_lines
first_byte r c cs e a = record {
  lines = rw e a.lines;
  buffer = rw e a.buffer;
  behind = rw e a.behind;
}

-- A line that is taken, before an agreeing rest.
line_taken :
    (rounds : ℕ) (pending : List ℕ) (b : ℕ) (bs : List ℕ)
    → (b == newline_char) ≡ true
    → Agrees (parse_loop rounds 1 bs) [] bs
    → Agrees (parse_loop (suc rounds) (length pending) (pending ++ (b ∷ bs))) pending (b ∷ bs)
unfolding parse_loop split_lines
line_taken rounds pending b bs e a =
    let rest : drop (length pending + 1) (pending ++ (b ∷ bs)) ≡ bs = drop_line pending b bs in
    let line : take (length pending) (pending ++ (b ∷ bs)) ≡ pending =
      take-append pending (b ∷ bs) (length pending) refl in
    rw (get_elem?-middle pending b bs, parse_loop, e, rest, line)
      (record {
        lines = rw e (ap (◌∷◌ pending) a.lines);
        buffer = rw e a.buffer;
        behind = rw e a.behind;
      })

byte_passed :
    (rounds : ℕ) (pending : List ℕ) (b : ℕ) (bs : List ℕ)
    → (b == newline_char) ≡ false
    → Agrees
        (parse_loop rounds (length (pending ++ (b ∷ []))) ((pending ++ (b ∷ [])) ++ bs))
        (pending ++ (b ∷ []))
        bs
    → Agrees (parse_loop (suc rounds) (length pending) (pending ++ (b ∷ bs))) pending (b ∷ bs)
unfolding parse_loop split_lines
byte_passed rounds pending b bs e a =
    let on : length (pending ++ (b ∷ [])) ≡ length pending + 1 = length-append pending (b ∷ []) in
    let same : (pending ++ (b ∷ [])) ++ bs ≡ pending ++ (b ∷ bs) =
      append_assoc pending (b ∷ []) bs in
    let a' = rw (on, same) at a in
    rw (get_elem?-middle pending b bs, parse_loop, e)
      (record { lines = rw e a'.lines; buffer = rw e a'.buffer; behind = rw e a'.behind })

pub parse_loop-Agrees :
    (rounds : ℕ) (pending bs : List ℕ)
    → length bs ≤ rounds
    → Proper pending bs
    → Agrees (parse_loop rounds (length pending) (pending ++ bs)) pending bs
unfolding Proper
parse_loop-Agrees rounds pending [] h p =
    rw (append-nil pending) (no_more rounds (length pending) pending (inl refl))
parse_loop-Agrees zero pending (b ∷ bs) h p = absurd (omega arith)
parse_loop-Agrees (suc rounds) pending (b ∷ []) h (short, line, more) =
    elim (Bool-cases (b == newline_char)) [
      | inl e ↦ line_taken rounds pending b [] e (no_more rounds 1 [] (inr (refl, refl)))
      | inr e ↦
          byte_passed rounds pending b [] e (parse_loop-Agrees rounds _ [] (omega arith) (more e))
    ]
parse_loop-Agrees (suc rounds) pending (b ∷ c ∷ cs) h (short, line, more) =
    elim (Bool-cases (b == newline_char)) [
      | inl e ↦
          let (room, start, on) = (line e).1 in
          elim (Bool-cases (c == newline_char)) [
            | inl f ↦ absurd (omega (arith, (start f).0))
            | inr f ↦
                line_taken rounds pending b (c ∷ cs) e
                  (first_byte _ c cs f (parse_loop-Agrees rounds (c ∷ []) cs (omega arith) (on f)))
          ]
      | inr e ↦
          byte_passed rounds pending b (c ∷ cs) e
            (parse_loop-Agrees rounds _ (c ∷ cs) (omega arith) (more e))
    ]
