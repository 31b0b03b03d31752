-- ===== src/Server/Clients.antt =====
-- The clients of the server: core/devices/ZejfMeteo/src/server.c. `clients` holds them in the order in
-- which a walk along `next` meets them from the head on, and a client stands for its interface too.
pub mod Timeout
use zejf_meteo.Common.{
  ℕ, ◌+◌, ◌-◌, ◌==◌, Bool, true, false, not, Option, none, some, List, [], ◌∷◌, ◌++◌, ltb,
  if◌then◌else◌, length,
}
use zejf_meteo.Server.Interfaces.{Interfaces, interface_add, interface_remove}

abbrev pub clients_capacity : ℕ
clients_capacity = 64

pub record Connection : Type 0 where
  pub client : ℕ
  pub fd : ℕ
  pub last_seen : ℕ

-- `freed` has the clients that were freed, `closed` the descriptors that were closed, and `removed` the
-- interfaces for which `interface_removed` was called, whose work on the network is that of Api.
pub record Clients : Type 0 where
  pub clients : List Connection
  pub interfaces : Interfaces
  pub freed : List ℕ
  pub closed : List ℕ
  pub removed : List ℕ

-- `list_push`: the new one is the head, and the old head the last one of the walk.
unfoldable pub push_head : Connection → List Connection → List Connection
push_head x [] = x ∷ []
push_head x (head ∷ rest) = x ∷ (rest ++ (head ∷ []))

-- The last one of a walk becomes the first: `head` moves back when it is removed.
unfoldable pub last_first : List Connection → List Connection
last_first [] = []
last_first (x ∷ xs) = elim (last_first xs) [ [] ↦ x ∷ [] | y ∷ ys ↦ y ∷ x ∷ ys ]

-- `client` is what malloc returns.
unfoldable pub client_connect : (client client_fd millis : ℕ) → Clients → Clients
unfolding push_head
client_connect client client_fd millis s =
    let pushed =
      push_head (record { client = client; fd = client_fd; last_seen = millis }) s.clients in
    let (added, interfaces) = interface_add client s.interfaces in
    if length s.clients == clients_capacity
    then record s { freed = client ∷ s.freed }
    else if not added
    then record s { clients = pushed; freed = client ∷ s.freed }
    else record s { clients = pushed; interfaces = interfaces }

unfoldable pub client_get : (fd : ℕ) → List Connection → Option Connection
client_get fd [] = none
client_get fd (x ∷ xs) = if x.fd == fd then some x else client_get fd xs

-- The rest of `client_remove`, once the client is out of the list.
unfoldable pub client_gone : Connection → List Connection → Clients → Clients
client_gone x clients s =
    let (_, called, interfaces) = interface_remove (s.interfaces.uid x.client) s.interfaces in
    record {
      clients = clients;
      interfaces = interfaces;
      freed = x.client ∷ s.freed;
      closed = x.fd ∷ s.closed;
      removed = called ++ s.removed;
    }

abbrev pub is_timed_out : (millis : ℕ) → Connection → Bool
is_timed_out millis x = ltb 10000 (millis - x.last_seen)

-- The walk of `watchdog_run` behind the head, with what it has passed. The removal of a client sets
-- `node` to the head, which ends the walk.
unfoldable pub watchdog_loop :
    (millis : ℕ) → (passed : List Connection) → List Connection → Clients → Clients
unfolding client_gone
watchdog_loop millis passed [] s = s
watchdog_loop millis passed (x ∷ xs) s =
    let later = watchdog_loop millis (passed ++ (x ∷ [])) xs s in
    if is_timed_out millis x then client_gone x (passed ++ xs) s else later

unfoldable pub watchdog_run : (millis : ℕ) → Clients → Clients
unfolding last_first watchdog_loop client_gone
watchdog_run millis s = elim s.clients [
  | [] ↦ s
  | x ∷ xs ↦
      if is_timed_out millis x
      then client_gone x (last_first xs) s
      else watchdog_loop millis (x ∷ []) xs s
]
