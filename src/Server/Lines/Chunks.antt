-- ===== src/Server/Lines/Chunks.antt =====
-- A stream in chunks, as `read_client` of core/devices/ZejfMeteo/src/server.c reads it.
use mathlib.Core.List.{append-nil}
use mathlib.Core.Path.{subst}
use zejf_meteo.Common.{
  ℕ, suc, ◌==◌, ◌<◌, ◌≡◌, refl, sym, ap, ◌∙◌, inl, inr, true, false, List, [], ◌∷◌, ◌++◌, leb,
  length, length-append, arith, Bool-cases,
}
use zejf_meteo.Server.{newline_char}
use zejf_meteo.Server.Lines.{
  Client, client_buffer_size, client_create, parse_loop, drop_full, read_chunk, read_chunks,
}
use zejf_meteo.Server.Lines.Split.{
  split_lines, Proper, Behind, Agrees, no_more, first_byte, parse_loop-Agrees,
}

-- The whole stream.
abbrev pub joined : List (List ℕ) → List ℕ
joined [] = []
joined (chunk ∷ chunks) = chunk ++ joined chunks

Proper-short : (pending bs : List ℕ) → Proper pending bs → length pending < client_buffer_size
unfolding Proper
Proper-short pending [] p = p
Proper-short pending (b ∷ bs) p = p.0

-- A proper stream cut in two: both parts are, and the lines are those of the first and of the second.
record Cut (pending xs ys : List ℕ) : Type 0 where
  first : Proper pending xs
  second : Proper (split_lines pending xs).1 ys
  lines :
      (split_lines pending (xs ++ ys)).0
      ≡ (split_lines pending xs).0 ++ (split_lines (split_lines pending xs).1 ys).0
  left : (split_lines pending (xs ++ ys)).1 ≡ (split_lines (split_lines pending xs).1 ys).1

cut : (pending xs ys : List ℕ) → Proper pending (xs ++ ys) → Cut pending xs ys
unfolding split_lines Proper
cut pending [] ys p = record {
  first = Proper-short pending ys p;
  second = p;
  lines = refl;
  left = refl;
}
cut pending (b ∷ xs) ys (short, line, more) = elim (Bool-cases (b == newline_char)) [
  | inl e ↦
      let (pos, p) = line e in
      let r = cut [] xs ys p in
      record {
        first = (short, (λ t. (pos, r.first)), (λ t. let no : true ≡ false = sym e ∙ t in cc));
        second = rw e r.second;
        lines = rw e (ap (◌∷◌ pending) r.lines);
        left = rw e r.left;
      }
  | inr e ↦
      let r = cut (pending ++ (b ∷ [])) xs ys (more e) in
      record {
        first = (short, (λ t. let no : true ≡ false = sym t ∙ e in cc), (λ t. r.first));
        second = rw e r.second;
        lines = rw e r.lines;
        left = rw e r.left;
      }
]

Agrees-Proper :
    (pending bs : List ℕ)
    → Proper pending bs
    → length (split_lines pending bs).1 < client_buffer_size
unfolding split_lines Proper
Agrees-Proper pending [] p = p
Agrees-Proper pending (b ∷ bs) (short, line, more) = elim (Bool-cases (b == newline_char)) [
  | inl e ↦ rw e (Agrees-Proper [] bs (line e).1)
  | inr e ↦ rw e (Agrees-Proper (pending ++ (b ∷ [])) bs (more e))
]

-- The first byte of a chunk after a line is passed over.
fresh_line :
    (c : ℕ) (cs : List ℕ)
    → Proper [] (c ∷ cs)
    → Agrees (parse_loop (suc (length cs)) 1 (c ∷ cs)) [] (c ∷ cs)
unfolding Proper
fresh_line c cs (short, line, more) = elim (Bool-cases (c == newline_char)) [
  | inl e ↦ absurd (omega (arith, (line e).0))
  | inr e ↦
      first_byte _ c cs e (parse_loop-Agrees (suc (length cs)) (c ∷ []) cs (omega arith) (more e))
]

loop-Agrees :
    (ptr : ℕ) (pending chunk : List ℕ)
    → Behind ptr pending
    → Proper pending chunk
    → Agrees (parse_loop (length (pending ++ chunk)) ptr (pending ++ chunk)) pending chunk
unfolding Proper
loop-Agrees ptr pending chunk (inl e) p = rw e (
    parse_loop-Agrees (length (pending ++ chunk)) pending chunk
      (omega (arith, length-append pending chunk)) p)
loop-Agrees ptr pending [] (inr (e, f)) p =
    rw (append-nil pending) (no_more (length pending) ptr pending (inr (e, f)))
loop-Agrees ptr pending (c ∷ cs) (inr (e, f)) p =
    rw (e, f) (fresh_line c cs (subst (λ (xs : List ℕ). Proper xs (c ∷ cs)) f p))

read_chunk-Agrees :
    (client : Client) (chunk : List ℕ)
    → Behind client.buffer_parse_ptr client.buffer
    → Proper client.buffer chunk
    → Agrees (read_chunk client chunk) client.buffer chunk
unfolding read_chunk drop_full
read_chunk-Agrees client chunk h p =
    let a = loop-Agrees client.buffer_parse_ptr client.buffer chunk h p in
    let small = Agrees-Proper client.buffer chunk p in
    let room : leb client_buffer_size (
          length
            (parse_loop (length (client.buffer ++ chunk)) client.buffer_parse_ptr
              (client.buffer ++ chunk)).client.buffer)
        ≡ false =
      ground (arith, ap length a.buffer) in
    rw room (record { lines = a.lines; buffer = a.buffer; behind = a.behind })

read_chunks-Agrees :
    (client : Client) (chunks : List (List ℕ))
    → Behind client.buffer_parse_ptr client.buffer
    → Proper client.buffer (joined chunks)
    → (read_chunks client chunks).lines ≡ (split_lines client.buffer (joined chunks)).0
unfolding read_chunks split_lines
read_chunks-Agrees client [] h p = refl
read_chunks-Agrees client (chunk ∷ chunks) h p =
    let r = cut client.buffer chunk (joined chunks) p in
    let a = read_chunk-Agrees client chunk h r.first in
    let client' = (read_chunk client chunk).client in
    let later = read_chunks-Agrees client' chunks (rw a.buffer a.behind) (rw a.buffer r.second) in
    rw (r.lines, a.lines, later, a.buffer) refl

-- A client whose lines are neither empty nor as long as its buffer: however the reads cut what it sends, network_accept gets exactly the complete lines of the whole stream, in their order.
pub read_chunks-split_lines :
    (chunks : List (List ℕ))
    → Proper [] (joined chunks)
    → (read_chunks client_create chunks).lines ≡ (split_lines [] (joined chunks)).0
unfolding client_create
read_chunks-split_lines chunks p = read_chunks-Agrees client_create chunks (inl refl) p
