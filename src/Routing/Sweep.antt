-- ===== src/Routing/Sweep.antt =====
-- What the removal loop does to the table: it looks at each entry, but not at the one behind an
-- entry that it removes.
use mathlib.Core.List.{append_assoc, append-nil}
use zejf_meteo.Common.{
  ℕ, zero, suc, ◌+◌, ◌≤◌, ◌≡◌, refl, sym, ap, ◌∙◌, Bool, false, ◌&&◌, inl, inr, Bool-cases, none,
  List, [], ◌∷◌, ◌++◌, arith, if◌then◌else◌, length, length-append, get_elem?, get_elem?-middle,
  erase_idx-middle,
}
use zejf_meteo.Routing.{RoutingEntry, removal_loop, routing_entry_remove}

module _ (test : RoutingEntry → Bool) where
  -- The loop on the part of the table that is still ahead.
  abbrev pub sweep : List RoutingEntry → List RoutingEntry
  sweep [] = []
  sweep (e ∷ []) = if test e then [] else e ∷ []
  sweep (e ∷ e' ∷ es) =
      let skipped = e' ∷ sweep es in
      let kept = e ∷ sweep (e' ∷ es) in if test e then skipped else kept

  get_elem?-end : (before : List RoutingEntry) → get_elem? before (length before) ≡ none
  get_elem?-end [] = refl
  get_elem?-end (x ∷ xs) = get_elem?-end xs

  removal_loop-done :
      (rounds i : ℕ) (before : List RoutingEntry)
      → length before ≤ i
      → removal_loop test rounds i before ≡ before
  unfolding removal_loop
  removal_loop-done zero i before h = refl
  removal_loop-done (suc rounds) i before h = rw (get_elem?-past before i h, removal_loop)
    where
      get_elem?-past : (xs : List RoutingEntry) (i : ℕ) → length xs ≤ i → get_elem? xs i ≡ none
      get_elem?-past [] i h = refl
      get_elem?-past (x ∷ xs) zero h = absurd (omega arith)
      get_elem?-past (x ∷ xs) (suc i) h = get_elem?-past xs i (omega arith)

  -- One entry further on.
  shift :
      (rounds : ℕ) (before : List RoutingEntry) (x : RoutingEntry) (es after : List RoutingEntry)
      → removal_loop test rounds (length (before ++ (x ∷ []))) ((before ++ (x ∷ [])) ++ es)
        ≡ (before ++ (x ∷ [])) ++ after
      → removal_loop test rounds (length before + 1) (before ++ (x ∷ es)) ≡ before ++ (x ∷ after)
  shift rounds before x es after ih =
      ap (λ (n : ℕ). removal_loop test rounds n (before ++ (x ∷ es)))
        (sym (length-append before (x ∷ [])))
      ∙ ap (λ (t : List RoutingEntry). removal_loop test rounds (length (before ++ (x ∷ []))) t)
          (sym (append_assoc before (x ∷ []) es))
      ∙ ih
      ∙ append_assoc before (x ∷ []) after

  -- With as many rounds as there are entries ahead the loop ends, and it is `sweep`.
  pub removal_loop-sweep :
      (rounds : ℕ) (before ahead : List RoutingEntry)
      → length ahead ≤ rounds
      → removal_loop test rounds (length before) (before ++ ahead) ≡ before ++ sweep ahead
  unfolding removal_loop routing_entry_remove
  removal_loop-sweep rounds before [] h =
      rw append-nil (removal_loop-done rounds (length before) before (omega arith))
  removal_loop-sweep zero before (e ∷ es) h = absurd (omega arith)
  removal_loop-sweep (suc rounds) before (e ∷ []) h = elim (Bool-cases (test e)) [
    | inl gone ↦
        rw
          (
            get_elem?-middle before e [],
            removal_loop,
            gone,
            erase_idx-middle before e [],
            append-nil,
          )
          (removal_loop-done rounds (length before + 1) before (omega arith))
    | inr stays ↦
        rw (get_elem?-middle before e [], removal_loop, stays)
          (removal_loop-done rounds (length before + 1) (before ++ (e ∷ []))
            (omega (arith, length-append before (e ∷ []))))
  ]
  removal_loop-sweep (suc rounds) before (e ∷ e' ∷ es) h = elim (Bool-cases (test e)) [
    | inl gone ↦
        rw
          (
            get_elem?-middle before e (e' ∷ es),
            removal_loop,
            gone,
            erase_idx-middle before e (e' ∷ es),
          )
          (shift rounds before e' es (sweep es)
            (removal_loop-sweep rounds (before ++ (e' ∷ [])) es (omega arith)))
    | inr stays ↦
        rw (get_elem?-middle before e (e' ∷ es), removal_loop, stays)
          (shift rounds before e (e' ∷ es) (sweep (e' ∷ es))
            (removal_loop-sweep rounds (before ++ (e ∷ [])) (e' ∷ es) (omega arith)))
  ]

  -- The entries that the test lets stay, in their order.
  abbrev pub kept : List RoutingEntry → List RoutingEntry
  kept [] = []
  kept (e ∷ es) = if test e then kept es else e ∷ kept es

  -- No two entries that stand together are to go.
  abbrev pub Apart : List RoutingEntry → Type 0
  Apart [] = Unit
  Apart (e ∷ []) = Unit
  Apart (e ∷ e' ∷ es) = ((test e && test e') ≡ false) × Apart (e' ∷ es)

  -- No entry that the test lets stay is lost or moved.
  pub kept-sweep : (es : List RoutingEntry) → kept (sweep es) ≡ kept es
  kept-sweep [] = refl
  kept-sweep (e ∷ []) = ground arith
  kept-sweep (e ∷ e' ∷ es) = ground (arith, kept-sweep es, kept-sweep (e' ∷ es))

  -- Exactly the entries to go are gone where no two of them stand together.
  pub sweep-kept : (es : List RoutingEntry) → Apart es → sweep es ≡ kept es
  sweep-kept [] a = refl
  sweep-kept (e ∷ []) a = refl
  sweep-kept (e ∷ e' ∷ []) a = ground arith
  sweep-kept (e ∷ e' ∷ e'' ∷ es) a =
      ground (arith, sweep-kept (e'' ∷ es), sweep-kept (e' ∷ e'' ∷ es))
