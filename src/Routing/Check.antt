-- ===== src/Routing/Check.antt =====
-- `routing_table_check` and the table part of `interface_removed`.
use zejf_meteo.Common.{
  ℕ, ◌≤◌, ◌≡◌, refl, ap, ◌∙◌, Bool, true, false, some, List, [], ◌∷◌, ◌++◌, arith, length,
  get_elem?, All, has, Distinct,
}
use zejf_meteo.Defs.{Settings}
use zejf_meteo.Routing.{
  RoutingEntry, Routing, is_expired, routing_table_check, uses_interface, drop_interface,
  device_ids,
}
use zejf_meteo.Routing.Sweep.{sweep, kept, Apart, removal_loop-sweep, kept-sweep, sweep-kept}

module _ (test : RoutingEntry → Bool) where
  pub has-sweep :
      (id : ℕ) (es : List RoutingEntry)
      → has id (device_ids es) ≡ false
      → has id (device_ids (sweep test es)) ≡ false
  has-sweep id [] out = out
  has-sweep id (e ∷ []) out = ground arith
  has-sweep id (e ∷ e' ∷ es) out = ground (arith, has-sweep id es, has-sweep id (e' ∷ es))

  pub Distinct-sweep :
      (es : List RoutingEntry) → Distinct (device_ids es) → Distinct (device_ids (sweep test es))
  Distinct-sweep [] d = d
  Distinct-sweep (e ∷ []) d = ground arith
  Distinct-sweep (e ∷ e' ∷ es) d = ground (
    arith,
    has-sweep e.device_id (e' ∷ es) d.0,
    has-sweep e'.device_id es d.1.0,
    Distinct-sweep es d.1.1,
    Distinct-sweep (e' ∷ es) d.1,
  )

  pub length-sweep : (es : List RoutingEntry) → length (sweep test es) ≤ length es
  length-sweep [] = omega arith
  length-sweep (e ∷ []) = ground arith
  length-sweep (e ∷ e' ∷ es) = ground (arith, length-sweep es, length-sweep (e' ∷ es))

  -- Entries that stay are passed over.
  sweep-stays :
      (before : List RoutingEntry) (e : RoutingEntry) (es : List RoutingEntry)
      → All (λ b. test b ≡ false) before
      → sweep test (before ++ (e ∷ es)) ≡ before ++ sweep test (e ∷ es)
  sweep-stays [] e es stay = refl
  sweep-stays (b ∷ []) e es stay = rw stay.0
  sweep-stays (b ∷ b' ∷ bs) e es stay = rw (stay.0, sweep-stays (b' ∷ bs) e es stay.1)

  get_elem?-place :
      (before : List RoutingEntry) (e : RoutingEntry) (es : List RoutingEntry)
      → get_elem? (before ++ (e ∷ es)) (length before) ≡ some e
  get_elem?-place [] e es = refl
  get_elem?-place (b ∷ bs) e es = get_elem?-place bs e es

  sweep-misses :
      (before : List RoutingEntry) (e e' : RoutingEntry) (es : List RoutingEntry)
      → All (λ b. test b ≡ false) before
      → test e ≡ true
      → get_elem? (sweep test (before ++ (e ∷ e' ∷ es))) (length before) ≡ some e'
  sweep-misses before e e' es stay gone =
      rw (sweep-stays before e (e' ∷ es) stay, gone) (get_elem?-place before e' (sweep test es))

module _ (c : Settings) (time : ℕ) where
  pub routing_table_check-sweep :
      (r : Routing) → (routing_table_check c time r).table ≡ sweep (is_expired c time) r.table
  unfolding routing_table_check
  routing_table_check-sweep r =
      removal_loop-sweep (is_expired c time) (length r.table) [] r.table (omega arith)

  -- The check keeps every entry that is not expired, in the order of the table.
  pub routing_table_check-kept :
      (r : Routing)
      → kept (is_expired c time) (routing_table_check c time r).table
        ≡ kept (is_expired c time) r.table
  routing_table_check-kept r =
      ap (kept (is_expired c time)) (routing_table_check-sweep r)
      ∙ kept-sweep (is_expired c time) r.table

  -- It removes exactly the expired entries where no two of them stand together in the table.
  routing_table_check-Apart :
      (r : Routing)
      → Apart (is_expired c time) r.table
      → (routing_table_check c time r).table ≡ kept (is_expired c time) r.table
  routing_table_check-Apart r apart =
      routing_table_check-sweep r ∙ sweep-kept (is_expired c time) r.table apart

  -- Of two expired entries that stand together, the first among the expired, the second survives the
  -- check: it takes the place of the first.
  pub routing_table_check-misses :
      (r : Routing) (before : List RoutingEntry) (e e' : RoutingEntry) (after : List RoutingEntry)
      → r.table ≡ before ++ (e ∷ e' ∷ after)
      → All (λ b. is_expired c time b ≡ false) before
      → is_expired c time e ≡ true
      → is_expired c time e' ≡ true
      → get_elem? (routing_table_check c time r).table (length before) ≡ some e'
  routing_table_check-misses r before e e' after split stay gone gone' =
      rw (routing_table_check-sweep r, split)
        (sweep-misses (is_expired c time) before e e' after stay gone)

module _ (interface : ℕ) where
  pub drop_interface-sweep :
      (r : Routing)
      → (drop_interface interface r).table ≡ sweep (uses_interface r interface) r.table
  unfolding drop_interface
  drop_interface-sweep r =
      removal_loop-sweep (uses_interface r interface) (length r.table) [] r.table (omega arith)

  -- Removing an interface keeps the entries of the others.
  pub drop_interface-kept :
      (r : Routing)
      → kept (uses_interface r interface) (drop_interface interface r).table
        ≡ kept (uses_interface r interface) r.table
  drop_interface-kept r =
      ap (kept (uses_interface r interface)) (drop_interface-sweep r)
      ∙ kept-sweep (uses_interface r interface) r.table

  -- Of two devices that stand together in the table and are reached over the removed interface, the
  -- first among those, the second stays in the table.
  pub drop_interface-misses :
      (r : Routing) (before : List RoutingEntry) (e e' : RoutingEntry) (after : List RoutingEntry)
      → r.table ≡ before ++ (e ∷ e' ∷ after)
      → All (λ b. uses_interface r interface b ≡ false) before
      → uses_interface r interface e ≡ true
      → uses_interface r interface e' ≡ true
      → get_elem? (drop_interface interface r).table (length before) ≡ some e'
  unfolding uses_interface
  drop_interface-misses r before e e' after split stay gone gone' =
      rw (drop_interface-sweep r, split)
        (sweep-misses (uses_interface r interface) before e e' after stay gone)
