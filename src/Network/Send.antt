-- ===== src/Network/Send.antt =====
-- What `network_accept` and `network_send_everywhere` of core/api/zejf_api/src/zejf_network.c do.
use zejf_meteo.Common.{
  ℕ, ◌+◌, ◌%◌, ◌==◌, ◌≤◌, ◌<◌, ◌≡◌, refl, ap, ◌∙◌, Bool, true, false, ◌&&◌, some, List, [], ◌∷◌,
  ◌++◌, leb, if◌then◌else◌, length, All, arith, inl, inr, Bool-cases, Option-cases, lt→leb, le→leb,
  Option, none,
}
use zejf_meteo.Common.Bytes.{u8_mod, u16_mod}
use zejf_meteo.Defs.{ZejfErr, ok, err_ttl, err_partial, is_ok, Settings}
use zejf_meteo.Protocol.{
  Packet, packet_create, packet_to_string, packet_encode, packet_checksum, message_bytes,
}
use zejf_meteo.Protocol.Scan.{FieldsValid, IsPlain}
use zejf_meteo.Protocol.RoundTrip.{received, packet_from_string-packet_to_string}
use zejf_meteo.Routing.{Routing}
use zejf_meteo.Network.{
  Platform, Network, network_accept, network_send_packet, network_send_everywhere, send_loop,
  send_via, came_from,
}

-- A packet that another device can write and that the reader takes back.
pub record Writable (p : Packet) (max_length : ℕ) : Type 0 where
  pub fields : FieldsValid p
  pub plain : All IsPlain (message_bytes p.message)
  pub short : length (message_bytes p.message) < u16_mod
  pub fits : length (message_bytes p.message) + 51 ≤ max_length

-- The packet as it comes out of the text that `p` was written to, before it is queued.
unfoldable pub arrived : Packet → (interface : ℕ) → Packet
arrived p interface =
    record (received packet_create p (packet_checksum (packet_encode p))
      (message_bytes p.message)) { source_interface = some interface; ttl = (p.ttl + 1) % u8_mod }

unfoldable pub text_of : Packet → ℕ → List ℕ
text_of p max_length = (packet_to_string p max_length).2

unfoldable pub enqueue : {E : Type 0} → Settings → Packet → Network E → Network E
enqueue c p n =
    if p.to == c.device_id
    then record n { rx_queue = n.rx_queue ++ (p ∷ []) }
    else record n { tx_queue = n.tx_queue ++ (p ∷ []) }

module _ {E : Type 0} (platform : Platform E) (c : Settings) (p : Packet)
    (max_length interface time : ℕ) (n : Network E) (w : Writable p max_length) where
  network_accept-text :
      let text = text_of p max_length in
      network_accept platform c text (length text) interface time n ≡ (
        if leb c.packet_max_ttl ((p.ttl + 1) % u8_mod)
        then (err_ttl, n)
        else network_send_packet platform c (arrived p interface) time n)
  unfolding network_accept text_of arrived packet_encode packet_to_string
  network_accept-text =
      let read =
        packet_from_string-packet_to_string p packet_create max_length w.fields w.plain w.short
          w.fits in
      rw (read.1) refl

  -- A packet that another device wrote with packet_to_string and that has one hop less than PACKET_MAX_TTL or more, but not 255, is dropped by network_accept with ZEJF_ERR_TTL, and nothing changes.
  pub network_accept-hop_limit :
      p.ttl + 1 < u8_mod
      → c.packet_max_ttl ≤ p.ttl + 1
      → let text = text_of p max_length in
        network_accept platform c text (length text) interface time n ≡ (err_ttl, n)
  network_accept-hop_limit small hop =
      let next : (p.ttl + 1) % u8_mod ≡ p.ttl + 1 = omega arith in
      rw (network_accept-text, next, le→leb c.packet_max_ttl (p.ttl + 1) hop) refl

  -- A packet that another device wrote with packet_to_string with a hop count of 255 passes network_accept as one that has made no hop.
  pub network_accept-ttl_wraps :
      p.ttl ≡ 255
      → 0 < c.packet_max_ttl
      → let text = text_of p max_length in
        network_accept platform c text (length text) interface time n
        ≡ network_send_packet platform c (record (arrived p interface) { ttl = 0 }) time n
  unfolding arrived
  network_accept-ttl_wraps e h =
      let next : (p.ttl + 1) % u8_mod ≡ 0 = omega arith in
      rw (network_accept-text, next, lt→leb c.packet_max_ttl 0 h) refl

-- The interfaces whose id is not `banned`.
unfoldable pub with_other_id : (uid : ℕ → ℕ) → (banned : ℕ) → List ℕ → List ℕ
with_other_id uid banned [] = []
with_other_id uid banned (x ∷ xs) =
    let rest = with_other_id uid banned xs in if uid x == banned then rest else x ∷ rest

-- The specification of sending everywhere: all interfaces, or those with another id than the one that
-- the packet came over.
unfoldable pub others : (uid : ℕ → ℕ) → (source : Option ℕ) → List ℕ → List ℕ
unfolding with_other_id
others uid none xs = xs
others uid (some source) xs = with_other_id uid (uid source) xs

abbrev pub uid_of : Routing → ℕ → ℕ
uid_of r i = (r.interfaces i).uid

-- The interfaces that a test does not skip.
unfoldable unskipped : (ℕ → Bool) → List ℕ → List ℕ
unskipped skip [] = []
unskipped skip (x ∷ xs) = if skip x then unskipped skip xs else x ∷ unskipped skip xs

skips_none : (xs : List ℕ) → unskipped (λ x. false) xs ≡ xs
unfolding unskipped
skips_none [] = refl
skips_none (x ∷ xs) = ap (λ t. x ∷ t) (skips_none xs)

skips_banned :
    (uid : ℕ → ℕ) (banned : ℕ) (xs : List ℕ)
    → unskipped (λ x. uid x == banned) xs ≡ with_other_id uid banned xs
unfolding unskipped with_other_id
skips_banned uid banned [] = refl
skips_banned uid banned (x ∷ xs) = rw (skips_banned uid banned xs) refl

unskipped-others :
    (r : Routing) (source : Option ℕ) (p : Packet) (xs : List ℕ)
    → p.source_interface ≡ source
    → unskipped (came_from r p) xs ≡ others (uid_of r) source xs
unfolding came_from others
unskipped-others r none p xs e = rw e (skips_none xs)
unskipped-others r (some s) p xs e = rw e (skips_banned (uid_of r) (uid_of r s) xs)

-- Whether all messages went out, and the world after them.
unfoldable pub tell : {E : Type 0} → Platform E → List ℕ → ℕ → List ℕ → E → Bool × E
tell platform buff time [] world = (true, world)
tell platform buff time (x ∷ xs) world =
    let (rv, world') = platform.network_send_via buff (some x) time world in
    let (all_ok, world'') = tell platform buff time xs world' in (is_ok rv && all_ok, world'')

both_tests :
    (a b : Bool) (x y : ZejfErr)
    → (if a then (if b then x else y) else y) ≡ (if b && a then x else y)
both_tests true true x y = refl
both_tests true false x y = refl
both_tests false true x y = refl
both_tests false false x y = refl

came_from-packet_encode : (r : Routing) (p : Packet) → came_from r (packet_encode p) ≡ came_from r p
unfolding came_from packet_encode
came_from-packet_encode r p = elim (Option-cases p.message) [
  | inl e ↦ rw e refl
  | inr (m, e) ↦ rw e refl
]

module _ {E : Type 0} (platform : Platform E) (c : Settings) where
  send_loop-tell :
      (buff : List ℕ) (p : Packet) (time : ℕ) (xs : List ℕ) (result : ZejfErr) (n : Network E)
      → let (all_ok, world) =
          tell platform buff time (unskipped (came_from n.routing p) xs) n.outside in
        send_loop platform c buff p time result xs n
        ≡ (if all_ok then result else err_partial, record n { outside = world })
  unfolding send_loop unskipped tell send_via
  send_loop-tell buff p time [] result n = refl
  send_loop-tell buff p time (x ∷ xs) result n = elim (Bool-cases (came_from n.routing p x)) [
    | inl e ↦ rw e (send_loop-tell buff p time xs result n)
    | inr e ↦
        let (rv, world) = platform.network_send_via buff (some x) time n.outside in
        let n' : Network E = record n { outside = world } in
        let after = tell platform buff time (unskipped (came_from n.routing p) xs) world in
        rw e (
          send_loop-tell buff p time xs (if is_ok rv then result else err_partial) n'
          ∙ ap (λ e. (e, record n { outside = after.1 }))
              (both_tests after.0 (is_ok rv) result err_partial))
  ]

  -- network_send_everywhere sends the text of the packet once over each interface whose id is not that of the interface the packet came from, in the platform's order, changes nothing but the world outside, and returns ZEJF_OK exactly when every sending did, else ZEJF_ERR_PARTIAL.
  pub network_send_everywhere-tell :
      (p : Packet) (time : ℕ) (n : Network E)
      → let (all_ok, world) =
          tell platform
            (text_of p c.packet_max_length)
            time
            (others (uid_of n.routing) p.source_interface (platform.get_all_interfaces n.outside))
            n.outside in
        network_send_everywhere platform c p time n
        ≡ (if all_ok then ok else err_partial, record n { outside = world })
  unfolding network_send_everywhere text_of packet_to_string
  network_send_everywhere-tell p time n =
      rw
        (
          ← unskipped-others n.routing p.source_interface p
              (platform.get_all_interfaces n.outside) refl,
          ← came_from-packet_encode n.routing p,
        )
        (send_loop-tell _ (packet_encode p) time (platform.get_all_interfaces n.outside) ok n)
