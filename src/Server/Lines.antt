-- ===== src/Server/Lines.antt =====
-- How the server takes lines from what a client sends: `read_client` of
-- core/devices/ZejfMeteo/src/server.c. The buffer is the list of its first `buffer_ptr` bytes, and the
-- line given to `network_accept` a list that the caller gets.
pub mod Split
pub mod Chunks
pub mod Glued
use zejf_meteo.Common.{
  ℕ, zero, suc, ◌+◌, ◌==◌, Option, none, some, List, [], ◌∷◌, ◌++◌, ltb, leb, if◌then◌else◌, length,
  get_elem?, take, drop,
}
use zejf_meteo.Server.{newline_char}

abbrev pub client_buffer_size : ℕ
client_buffer_size = 512

pub record Client : Type 0 where
  pub buffer : List ℕ
  pub buffer_parse_ptr : ℕ

unfoldable pub client_create : Client
client_create = record { buffer = []; buffer_parse_ptr = 0 }

-- The lines accepted, and the client after them.
pub record Parsed : Type 0 where
  pub lines : List (List ℕ)
  pub client : Client

-- The loop over the buffer. After a line the rest is moved to the front and the pointer set to 0, which
-- the increment of the loop makes 1.
unfoldable pub parse_loop : (rounds : ℕ) → (buffer_parse_ptr : ℕ) → (buffer : List ℕ) → Parsed
parse_loop zero ptr buffer = record {
  lines = [];
  client = record { buffer = buffer; buffer_parse_ptr = ptr };
}
parse_loop (suc rounds) ptr buffer = elim (get_elem? buffer ptr) [
  | none ↦ record { lines = []; client = record { buffer = buffer; buffer_parse_ptr = ptr } }
  | some b ↦
      let next = parse_loop rounds 1 (drop (ptr + 1) buffer) in
      let onwards = parse_loop rounds (ptr + 1) buffer in
      if b == newline_char
      then record { lines = take ptr buffer ∷ next.lines; client = next.client }
      else onwards
]

-- A buffer that is full without a line in it is given up.
unfoldable pub drop_full : Client → Client
unfolding client_create
drop_full client = if leb client_buffer_size (length client.buffer) then client_create else client

-- One successful read, of at most the free part of the buffer.
unfoldable pub read_chunk : Client → (chunk : List ℕ) → Parsed
unfolding parse_loop drop_full
read_chunk client chunk =
    let buffer = client.buffer ++ chunk in
    let parsed = parse_loop (length buffer) client.buffer_parse_ptr buffer in
    record { lines = parsed.lines; client = drop_full parsed.client }

-- The reads of a client, of which `read_client` does as many as fill the buffer.
unfoldable pub read_chunks : Client → (chunks : List (List ℕ)) → Parsed
unfolding read_chunk
read_chunks client [] = record { lines = []; client = client }
read_chunks client (chunk ∷ chunks) =
    let parsed = read_chunk client chunk in
    let later = read_chunks parsed.client chunks in
    record { lines = parsed.lines ++ later.lines; client = later.client }
