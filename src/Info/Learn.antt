-- ===== src/Info/Learn.antt =====
-- What `process_data_provide` of core/api/zejf_api/src/data_info.c makes of the messages that
-- `p_send_provide` writes.
use zejf_meteo.Common.{
  ℕ, ◌<◌, ◌≡◌, refl, sym, ap, ◌∙◌, Bool, true, false, ◌||◌, ◌==◌, some, List, [], ◌∷◌, ◌++◌, map, has, arith, inl, inr, Bool-cases, ==_self, ==_comm, or_false, if◌then◌else◌,
}
use zejf_meteo.Common.Bytes.{u16_mod, u32_mod}
use zejf_meteo.Common.Text.{decimal, scan_char, scan_unsigned-decimal, scan_unsigned-decimal_end}
use zejf_meteo.Defs.{ok, err_generic, VariableInfo}
use zejf_meteo.Protocol.{Packet}
use zejf_meteo.Routing.{
  RoutingEntry, routing_entry_find, set_entry, routing_entry_add_demanded_variable,
  routing_entry_add_provided_variable, provides, device_ids,
}
use zejf_meteo.Network.{Network}
use zejf_meteo.Info.{
  at_sign, provide_text, scan_provide, scan_demand, change_entry, with_scanned,
  process_data_provide, process_data_demand,
}

scan_provide-provide_text :
    (info : VariableInfo)
    → info.id < u16_mod
    → info.samples_per_hour < u32_mod
    → scan_provide (provide_text info) ≡ some info
unfolding scan_provide provide_text scan_char
scan_provide-provide_text info i r =
    rw
      (
        scan_unsigned-decimal u16_mod info.id at_sign (decimal info.samples_per_hour) i
            (omega arith) refl,
        scan_unsigned-decimal_end u32_mod info.samples_per_hour r (omega arith),
      )
      refl

-- The first entry of a device.
find-middle :
    (before : List RoutingEntry) (e : RoutingEntry) (after : List RoutingEntry)
    → has e.device_id (device_ids before) ≡ false
    → routing_entry_find (before ++ (e ∷ after)) e.device_id ≡ some e
unfolding routing_entry_find
find-middle [] e after h = rw (==_self e.device_id) refl
find-middle (b ∷ before) e after h =
    let (other, rest) = or_false (e.device_id == b.device_id) (has e.device_id (device_ids before)) h in rw (==_comm b.device_id e.device_id, other) (find-middle before e after rest)

set_entry-middle :
    (before : List RoutingEntry) (e e' : RoutingEntry) (after : List RoutingEntry)
    → has e.device_id (device_ids before) ≡ false
    → set_entry (before ++ (e ∷ after)) e.device_id e' ≡ before ++ (e' ∷ after)
unfolding set_entry
set_entry-middle [] e e' after h = rw (==_self e.device_id) refl
set_entry-middle (b ∷ before) e e' after h =
    let (other, rest) = or_false (e.device_id == b.device_id) (has e.device_id (device_ids before)) h in
    rw (==_comm b.device_id e.device_id, other) (ap (λ t. b ∷ t) (set_entry-middle before e e' after rest))

provides-has :
    (id : ℕ) (vs : List VariableInfo) → provides id vs ≡ has id (map (λ v. v.id) vs)
unfolding provides
provides-has id [] = refl
provides-has id (v ∷ vs) = rw (provides-has id vs, ==_comm v.id id) refl

module _ {E : Type 0} (p : Packet) (n : Network E) (before : List RoutingEntry) (e : RoutingEntry)
    (after : List RoutingEntry) where
  -- A packet from a device of the table with the whole text that p_send_provide prints of a variable makes process_data_provide put the variable, with its id and its sample rate, behind those that the first entry of the device provides, and return ZEJF_OK, when no variable with the id is among them; when one is, nothing changes and ZEJF_ERR_GENERIC is returned. No other entry and nothing else of the network changes.
  pub process_data_provide-provide_text :
      (info : VariableInfo)
      → info.id < u16_mod
      → info.samples_per_hour < u32_mod
      → p.message ≡ some (provide_text info)
      → p.from ≡ e.device_id
      → n.routing.table ≡ before ++ (e ∷ after)
      → has e.device_id (device_ids before) ≡ false
      → process_data_provide p n ≡ (
        if has info.id (map (λ v. v.id) e.provided_variables)
        then (err_generic, n)
        else (
          ok,
          record n {
            routing = record n.routing {
              table =
                  before
                  ++ (record e { provided_variables = e.provided_variables ++ (info ∷ []) }
                      ∷ after);
            };
          },
        ))
  unfolding process_data_provide change_entry with_scanned routing_entry_add_provided_variable
  process_data_provide-provide_text info i r m f t h =
      let found : routing_entry_find n.routing.table p.from ≡ some e =
        rw (t, f) (find-middle before e after h) in
      let set : (e' : RoutingEntry) → set_entry n.routing.table p.from e' ≡ before ++ (e' ∷ after) =
        λ e'. rw (t, f) (set_entry-middle before e e' after h) in
      let same = provides-has info.id e.provided_variables in
      rw (m, process_data_provide)
        (rw (found, change_entry)
          (rw (scan_provide-provide_text info i r, with_scanned)
            (elim (Bool-cases (has info.id (map (λ v. v.id) e.provided_variables))) [
              | inl known ↦ rw (same, known) (ap (λ t. (err_generic, record n { routing = record n.routing { table = t } })) (set e ∙ sym t))
              | inr new ↦ rw (same, new, set _) refl
            ])))
