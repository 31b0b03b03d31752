-- ===== src/Hour/Read.antt =====
-- One round of the loop of `hour_deserialize`, read from the bytes it used.
use mathlib.Core.List.{append_assoc, append-nil, map-append}
use zejf_meteo.Common.{
  ℕ, zero, suc, ◌*◌, ◌<◌, ◌≡◌, refl, sym, ap, inl, inr, some, List, [], ◌∷◌, ◌++◌, arith, ltb,
  Bool-cases, length, take, drop, All, All-take, All-drop, All-append, All-split, length-append,
  length-take, take-append-drop, ltb→le,
}
use zejf_meteo.Common.Optional.{>>=-elim, some_pair}
use zejf_meteo.Common.Bytes.{IsByte, from_le, from_le-lt, le_bytes-from_le}
use zejf_meteo.Defs.{ZejfErr, Settings, VariableInfo}
use zejf_meteo.Hour.{Variable, DataHour, new_variable, hour_add_variable, float_bytes}
use zejf_meteo.Hour.Valid.{IsWord, VariableValid, HourValid, hour_add_variable-HourValid}
use zejf_meteo.Hour.Serial.{deserialize, floats_of_bytes, fill_last, added, deserialize_variable}
use zejf_meteo.Hour.RoundTrip.{variable_bytes, fill_last-snoc}

-- The bytes split at the read position.
pub record Read (size : ℕ) (left value rest : List ℕ) : Type 0 where
  pub split : left ≡ value ++ rest
  pub sized : length value ≡ size
  pub value_bytes : All IsByte value
  pub rest_bytes : All IsByte rest

pub deserialize-Read :
    (size : ℕ) (left value rest : List ℕ)
    → All IsByte left
    → deserialize size left ≡ some (value, rest)
    → Read size left value rest
unfolding deserialize
deserialize-Read size left value rest bytes e = elim (Bool-cases (ltb (length left) size)) [
  | inl short ↦ cc
  | inr enough ↦
      let v : take size left ≡ value = ground arith in
      let r : drop size left ≡ rest = ground arith in
      record {
        split = rw (← v, ← r) (sym (take-append-drop size left));
        sized = rw (← v) (omega (arith, ltb→le _ _ enough, length-take size left));
        value_bytes = rw v at (All-take IsByte size left bytes);
        rest_bytes = rw r at (All-drop IsByte size left bytes);
      }
]

-- Reading floats and writing them gives the bytes back.
float_bytes-floats_of_bytes :
    (n : ℕ) (bytes : List ℕ)
    → length bytes ≡ 4 * n
    → All IsByte bytes
    → float_bytes (floats_of_bytes n bytes) ≡ bytes
unfolding float_bytes floats_of_bytes
float_bytes-floats_of_bytes zero [] e h = refl
float_bytes-floats_of_bytes zero (b ∷ bs) e h = absurd (omega arith)
float_bytes-floats_of_bytes (suc n) (a ∷ b ∷ d ∷ f ∷ bs) e h = rw (
  le_bytes-from_le 4 (a ∷ b ∷ d ∷ f ∷ []) refl (h.0, (h.1.0, (h.1.1.0, (h.1.1.1.0, tt)))),
  float_bytes-floats_of_bytes n bs (omega arith) h.1.1.1.1,
)
float_bytes-floats_of_bytes (suc n) (a ∷ b ∷ d ∷ []) e h = absurd (omega arith)
float_bytes-floats_of_bytes (suc n) (a ∷ b ∷ []) e h = absurd (omega arith)
float_bytes-floats_of_bytes (suc n) (a ∷ []) e h = absurd (omega arith)
float_bytes-floats_of_bytes (suc n) [] e h = absurd (omega arith)

length-floats_of_bytes : (n : ℕ) (bytes : List ℕ) → length (floats_of_bytes n bytes) ≡ n
unfolding floats_of_bytes
length-floats_of_bytes zero bytes = refl
length-floats_of_bytes (suc n) bytes = ap suc (length-floats_of_bytes n (drop 4 bytes))

floats_of_bytes-IsWord :
    (n : ℕ) (bytes : List ℕ)
    → length bytes ≡ 4 * n
    → All IsByte bytes
    → All IsWord (floats_of_bytes n bytes)
unfolding floats_of_bytes
floats_of_bytes-IsWord zero bytes e h = tt
floats_of_bytes-IsWord (suc n) (a ∷ b ∷ d ∷ f ∷ bs) e h = (
  from_le-lt (a ∷ b ∷ d ∷ f ∷ []) (h.0, (h.1.0, (h.1.1.0, (h.1.1.1.0, tt)))),
  floats_of_bytes-IsWord n bs (omega arith) h.1.1.1.1,
)
floats_of_bytes-IsWord (suc n) (a ∷ b ∷ d ∷ []) e h = absurd (omega arith)
floats_of_bytes-IsWord (suc n) (a ∷ b ∷ []) e h = absurd (omega arith)
floats_of_bytes-IsWord (suc n) (a ∷ []) e h = absurd (omega arith)
floats_of_bytes-IsWord (suc n) [] e h = absurd (omega arith)

added-eq : (r : ZejfErr × DataHour) {hour : DataHour} → added r ≡ some hour → r.1 ≡ hour
unfolding added
added-eq r e = ground arith

added-snoc :
    (c : Settings) (hour : DataHour) (info : VariableInfo) {hour' : DataHour}
    → added (hour_add_variable c hour info) ≡ some hour'
    → hour' ≡ record hour { variables = hour.variables ++ (new_variable info ∷ []) }
unfolding added hour_add_variable new_variable
added-snoc c hour info e = ground arith

-- Overwriting the samples of the last variable by as many keeps the hour valid.
fill-HourValid :
    (c : Settings) (hour : DataHour) (v : Variable) (samples : List ℕ)
    → HourValid c (record hour { variables = hour.variables ++ (v ∷ []) })
    → length samples ≡ v.variable_info.samples_per_hour
    → All IsWord samples
    → HourValid c
        (record hour { variables = hour.variables ++ (record v { samples = samples } ∷ []) })
fill-HourValid c hour v samples good full words =
    let (before, last) = All-split (VariableValid c) hour.variables (v ∷ []) good.each in
    record {
      hour_id_lt = good.hour_id_lt;
      flags_lt = good.flags_lt;
      count_le = omega (
        arith,
        good.count_le,
        length-append hour.variables (v ∷ []),
        length-append hour.variables (record v { samples = samples } ∷ []),
      );
      each = All-append (VariableValid c) hour.variables _ before (
        record {
          rate_pos = last.0.rate_pos;
          rate_le = last.0.rate_le;
          id_lt = last.0.id_lt;
          full = full;
          words = words;
        },
        tt,
      );
      distinct = rw map-append (rw map-append at good.distinct);
    }

-- What one round of the loop reads: the bytes of one more variable, which keeps the hour valid.
abbrev pub Round : Settings → DataHour → List ℕ → DataHour → List ℕ → Type 0
Round c hour left hour' rest =
    (v : Variable) × (hour' ≡ record hour { variables = hour.variables ++ (v ∷ []) })
    × (left ≡ variable_bytes (v ∷ []) ++ rest)
    × HourValid c hour'
    × All IsByte rest

module _ (c : Settings) (hour : DataHour) (left : List ℕ) (good : HourValid c hour) where
  -- The end of a round, once its four parts are read.
  Round-of-reads :
      (a b d left1 left2 rest : List ℕ) (hour1 hour' : DataHour)
      → Read 4 left a left1
      → Read 2 left1 b left2
      → added (hour_add_variable c hour (record { samples_per_hour = from_le a; id = from_le b }))
        ≡ some hour1
      → Read (4 * from_le a) left2 d rest
      → hour'
        ≡ record hour1 { variables = fill_last hour1.variables (floats_of_bytes (from_le a) d) }
      → Round c hour left hour' rest
  unfolding variable_bytes new_variable
  Round-of-reads a b d left1 left2 rest hour1 hour' ra rb added_ok rd e =
      let info : VariableInfo = record { samples_per_hour = from_le a; id = from_le b } in
      let samples = floats_of_bytes (from_le a) d in
      let id : from_le b < 65536 = rw rb.sized at (from_le-lt b rb.value_bytes) in
      let grown = added-snoc c hour info added_ok in
      let valid1 : HourValid c hour1 =
        rw (added-eq _ added_ok) at (hour_add_variable-HourValid c hour info good id) in
      let e' : hour' ≡ record hour {
        variables = hour.variables ++ (record { variable_info = info; samples = samples } ∷ []);
      } =
        rw (e, grown, fill_last-snoc hour.variables (new_variable info) samples) in
      (
        record { variable_info = info; samples = samples },
        e',
        rw
            (
              ra.split,
              rb.split,
              rd.split,
              le_bytes-from_le 4 a ra.sized ra.value_bytes,
              le_bytes-from_le 2 b rb.sized rb.value_bytes,
              float_bytes-floats_of_bytes (from_le a) d rd.sized rd.value_bytes,
            )
            (simp (append_assoc, append-nil)),
        rw e' (
            fill-HourValid c hour (new_variable info) samples (rw grown at valid1)
              (length-floats_of_bytes (from_le a) d)
              (floats_of_bytes-IsWord (from_le a) d rd.sized rd.value_bytes)),
        rd.rest_bytes,
      )

  pub deserialize_variable-Round :
      (hour' : DataHour) (rest : List ℕ)
      → All IsByte left
      → deserialize_variable c hour left ≡ some (hour', rest)
      → Round c hour left hour' rest
  unfolding deserialize_variable
  deserialize_variable-Round hour' rest bytes e = >>=-elim (deserialize 4 left) _ e λ r1 ea e1.
      let a = deserialize-Read 4 left r1.0 r1.1 bytes ea in
      >>=-elim (deserialize 2 r1.1) _ e1 λ r2 eb e2.
        let b = deserialize-Read 2 r1.1 r2.0 r2.1 a.rest_bytes eb in
        let info : VariableInfo = record { samples_per_hour = from_le r1.0; id = from_le r2.0 } in
        >>=-elim (added (hour_add_variable c hour info)) _ e2 λ hour1 eh e3.
          >>=-elim (deserialize (4 * from_le r1.0) r2.1) _ e3 λ r4 ed e4.
            let d = deserialize-Read (4 * from_le r1.0) r2.1 r4.0 r4.1 b.rest_bytes ed in
            let (same, same_rest) = some_pair e4 in
            rw (← same_rest)
              (Round-of-reads r1.0 r2.0 r4.0 r1.1 r2.1 r4.1 hour1 hour' a b eh d (sym same))
