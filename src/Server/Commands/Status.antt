-- ===== src/Server/Commands/Status.antt =====
-- What is typed to ask a device for its status: core/devices/ZejfMeteo/src/zejf_meteo.c.
use native.Mathlib.Nat.{mod-eq_of_lt}
use zejf_meteo.Common.{
  ℕ, zero, suc, ◌+◌, ◌/◌, ◌%◌, ◌<◌, ◌≡◌, refl, inl, inr, none, some, List, [], ◌∷◌, ◌++◌, ltb,
  arith, All-append, Bool-cases, ltb→lt,
}
use zejf_meteo.Common.Bytes.{u16_mod}
use zejf_meteo.Common.Text.{digits, decimal}
use zejf_meteo.Common.Text.Long.{scan_long-decimal}
use zejf_meteo.Defs.{Settings}
use zejf_meteo.Network.{network_prepare_packet, network_send_packet}
use zejf_meteo.Info.{Floats}
use zejf_meteo.Device.{Device}
use zejf_meteo.Server.Process.{System, World, platform, now}
use zejf_meteo.Server.Commands.{
  status_sent, status_word, status_request, send_status, status_command, goes_on, same_text,
  process_command, command_arguments, command_line,
}
use zejf_meteo.Server.Commands.Words.{IsLetter, IsWord, tail_of_line, command_arguments-words}

digit-IsLetter : (d : ℕ) → d < 10 → IsLetter (48 + d)
digit-IsLetter d h = (ground arith, ground arith)

digits-IsWord : (k v : ℕ) → IsWord (digits k v)
unfolding digits
digits-IsWord zero v = tt
digits-IsWord (suc k) v = elim (Bool-cases (ltb v 10)) [
  | inl e ↦ rw e (digit-IsLetter v (ltb→lt v 10 e), tt)
  | inr e ↦ rw e (
      All-append IsLetter (digits k (v / 10)) ((48 + v % 10) ∷ []) (digits-IsWord k (v / 10))
        (digit-IsLetter (v % 10) (omega arith), tt))
]

decimal-IsWord : (v : ℕ) → IsWord (decimal v)
unfolding decimal
decimal-IsWord v = digits-IsWord 10 v

abbrev pub status_line : ℕ → List ℕ
status_line id = status_word ++ tail_of_line (decimal id ∷ [])

status_command-decimal :
    {W : Type 0} (system : System W) (c : Settings) (floats : Floats) (id : ℕ)
    (d : Device (World W))
    → id < u16_mod
    → let p = network_prepare_packet c id status_request none in
      let (rv, n) = network_send_packet (platform system c) c p (now system c d) d.network in
      status_command system c floats (decimal id ∷ []) d
      ≡ (status_sent rv, record d { network = n })
unfolding status_command send_status
status_command-decimal system c floats id d h =
    let cut : id % u16_mod ≡ id = mod-eq_of_lt h in
    rw (status_command, scan_long-decimal id (omega arith)) (rw (send_status, cut) refl)

-- The line "status" with an id makes command_line send the status request to the device of exactly that id and print what the sending returns, and leaves the rest of the device as it was.
pub command_line-status :
    {W : Type 0} (system : System W) (c : Settings) (floats : Floats) (id : ℕ)
    (d : Device (World W))
    → id < u16_mod
    → let p = network_prepare_packet c id status_request none in
      let (rv, n) = network_send_packet (platform system c) c p (now system c d) d.network in
      command_line system c floats (status_line id ∷ []) d
      ≡ some (status_sent rv ∷ [], record d { network = n })
unfolding command_line process_command same_text goes_on
command_line-status system c floats id d h =
    let word : command_arguments (status_line id) ≡ some (status_word, decimal id ∷ []) =
      command_arguments-words status_word (decimal id ∷ [])
        (
          (refl, refl),
          ((refl, refl), ((refl, refl), ((refl, refl), ((refl, refl), ((refl, refl), tt))))),
        )
        (decimal-IsWord id, tt) in
    let asks = status_command-decimal system c floats id d h in
    rw (command_line, word) (rw (process_command, asks) refl)
