-- ===== src/Server/Clients/Timeout.antt =====
-- Which clients of core/devices/ZejfMeteo/src/server.c stay, and what a client without an interface is.
use mathlib.Core.List.{append_assoc, append-nil}
use zejf_meteo.Common.{
  ℕ, ◌<◌, ◌≤◌, ◌≡◌, refl, sym, ap, ◌∙◌, true, false, List, [], ◌∷◌, ◌++◌, All, length, arith, ==_ne,
  le→leb,
}
use zejf_meteo.Server.Interfaces.{interfaces_max, interface_add}
use zejf_meteo.Server.Interfaces.Valid.{NoneHas, interface_remove-middle}
use zejf_meteo.Server.Clients.{
  Connection, Clients, clients_capacity, push_head, last_first, client_connect, client_gone, is_timed_out,
  watchdog_loop, watchdog_run,
}

-- All of them were heard of lately.
abbrev pub Alive : ℕ → List Connection → Type 0
Alive millis xs = All (λ x. is_timed_out millis x ≡ false) xs

watchdog_loop-first :
    (millis : ℕ) (passed pre : List Connection) (x : Connection) (post : List Connection)
    (s : Clients)
    → Alive millis pre
    → is_timed_out millis x ≡ true
    → watchdog_loop millis passed (pre ++ (x ∷ post)) s ≡ client_gone x ((passed ++ pre) ++ post) s
unfolding watchdog_loop
watchdog_loop-first millis passed [] x post s h e =
    rw e (ap (λ l. client_gone x (l ++ post) s) (sym (append-nil passed)))
watchdog_loop-first millis passed (p ∷ pre) x post s (hp, h) e = rw hp (
    watchdog_loop-first millis (passed ++ (p ∷ [])) pre x post s h e
    ∙ ap (λ l. client_gone x (l ++ post) s) (append_assoc passed (p ∷ []) pre))

-- A walk whose last one has become the first.
pub data Turned : List Connection → List Connection → Type 0 where
  none_left : Turned [] []
  last_to_front :
      (others : List Connection) (l : Connection) → Turned (others ++ (l ∷ [])) (l ∷ others)

-- The clients that are left when one between two parts of the walk is gone. When it was the head, the
-- last one of the walk is the new head.
abbrev pub After : (pre post kept : List Connection) → Type 0
After [] post kept = Turned post kept
After (p ∷ pre) post kept = kept ≡ p ∷ (pre ++ post)

last_first-end :
    (xs : List Connection) (l : Connection) → last_first (xs ++ (l ∷ [])) ≡ l ∷ xs
unfolding last_first
last_first-end [] l = refl
last_first-end (x ∷ xs) l = rw (last_first-end xs l, last_first) refl

last_first-Turned : (xs ys : List Connection) → Turned xs ys → last_first xs ≡ ys
unfolding last_first
last_first-Turned _ _ none_left = refl
last_first-Turned _ _ (last_to_front others l) = last_first-end others l

watchdog_run-gone :
    (millis : ℕ) (pre : List Connection) (x : Connection) (post kept : List Connection) (s : Clients)
    → s.clients ≡ pre ++ (x ∷ post)
    → Alive millis pre
    → is_timed_out millis x ≡ true
    → After pre post kept
    → watchdog_run millis s ≡ client_gone x kept s
unfolding watchdog_run
watchdog_run-gone millis [] x post kept s all hs e left =
    rw (all, watchdog_run) (rw (e, last_first-Turned post kept left) refl)
watchdog_run-gone millis (head ∷ pre) x post kept s all (h, hs) e left =
    rw (all, watchdog_run)
      (rw (h, left) (watchdog_loop-first millis (head ∷ []) pre x post s hs e))

-- When a client that has timed out comes behind live ones only in the order of the walk, and its interface is in the array once, a pass of the watchdog closes its descriptor, has interface_removed called for its interface and takes that out of the array, frees the client, and keeps all other clients, those behind it that have timed out as well; where it was the head, the last one of the walk becomes the head, and else the order stays.
pub watchdog_run-first :
    (millis : ℕ) (pre : List Connection) (x : Connection) (post kept : List Connection) (s : Clients)
    (before after : List ℕ)
    → s.clients ≡ pre ++ (x ∷ post)
    → Alive millis pre
    → is_timed_out millis x ≡ true
    → After pre post kept
    → s.interfaces.all_interfaces ≡ before ++ (x.client ∷ after)
    → NoneHas s.interfaces.uid (s.interfaces.uid x.client) before
    → NoneHas s.interfaces.uid (s.interfaces.uid x.client) after
    → watchdog_run millis s ≡ record {
      clients = kept;
      interfaces = record s.interfaces { all_interfaces = before ++ after };
      freed = x.client ∷ s.freed;
      closed = x.fd ∷ s.closed;
      removed = x.client ∷ s.removed;
    }
unfolding client_gone
watchdog_run-first millis pre x post kept s before after all hs e left array hb ha =
    let taken =
      interface_remove-middle (s.interfaces.uid x.client) s.interfaces before x.client after array hb
        refl ha in
    watchdog_run-gone millis pre x post kept s all hs e left ∙ rw taken refl

-- When the array of interfaces is full and the list of clients is not, client_connect frees the new client and leaves it in the list as its head.
pub client_connect-freed :
    (client client_fd millis : ℕ) (s : Clients)
    → length s.clients < clients_capacity
    → interfaces_max ≤ length s.interfaces.all_interfaces
    → client_connect client client_fd millis s ≡ record s {
      clients =
          push_head (record { client = client; fd = client_fd; last_seen = millis }) s.clients;
      freed = client ∷ s.freed;
    }
unfolding client_connect interface_add
client_connect-freed client client_fd millis s room full =
    rw (==_ne (length s.clients) clients_capacity (omega arith), le→leb _ _ full) refl
