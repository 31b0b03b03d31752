-- ===== src/Hour/Canonical.antt =====
-- What `hour_deserialize` accepts: only the bytes that `hour_serialize` would write.
use mathlib.Core.List.{append_assoc, append-nil}
use zejf_meteo.Common.{
  ℕ, zero, suc, ◌≡◌, refl, sym, ap, ◌∙◌, some, List, [], ◌∷◌, ◌++◌, arith, length, All,
}
use zejf_meteo.Common.Optional.{>>=-elim, some_pair}
use zejf_meteo.Common.Bytes.{IsByte, from_le, from_le-lt, le_bytes-from_le}
use zejf_meteo.Defs.{Settings}
use zejf_meteo.Hour.{Variable, DataHour, hour_create, hour_calculate_checksum}
use zejf_meteo.Hour.Valid.{HourValid}
use zejf_meteo.Hour.Serial.{
  hour_serialize, deserialize, deserialize_variable, deserialize_variables, accept,
  hour_deserialize,
}
use zejf_meteo.Hour.RoundTrip.{variable_bytes, hour_bytes, hour_serialize-hour_bytes}
use zejf_meteo.Hour.Read.{Read, deserialize-Read, deserialize_variable-Round}

-- The bytes of several variables more.
abbrev Rounds : Settings → ℕ → DataHour → List ℕ → DataHour → List ℕ → Type 0
Rounds c n hour left hour' rest =
    (vs : List Variable) × (length vs ≡ n)
    × (hour' ≡ record hour { variables = hour.variables ++ vs })
    × (left ≡ variable_bytes vs ++ rest)
    × HourValid c hour'

deserialize_variables-Rounds :
    (c : Settings) (n : ℕ) (hour : DataHour) (left : List ℕ) (hour' : DataHour) (rest : List ℕ)
    → HourValid c hour
    → All IsByte left
    → deserialize_variables c n hour left ≡ some (hour', rest)
    → Rounds c n hour left hour' rest
unfolding deserialize_variables variable_bytes
deserialize_variables-Rounds c zero hour left hour' rest good bytes e =
    let (same, same_rest) = some_pair e in
    ([], refl, rw append-nil (sym same), same_rest, rw same at good)
deserialize_variables-Rounds c (suc n) hour left hour' rest good bytes e =
    >>=-elim (deserialize_variable c hour left) _ e λ r er e1.
      let (v, grown, split, good1, bytes1) =
        deserialize_variable-Round c hour left good r.0 r.1 bytes er in
      let (vs, count, grown', split', good') =
        deserialize_variables-Rounds c n r.0 r.1 hour' rest good1 bytes1 e1 in
      (
        v ∷ vs,
        ap suc count,
        rw (grown', grown)
            (ap (λ (ws : List Variable). record hour { variables = ws })
              (append_assoc hour.variables (v ∷ []) vs)),
        rw (split, split') (simp (append_assoc, append-nil)),
        good',
      )

-- The end of `hour_deserialize`.
accept-cases :
    (hour : DataHour) (left : List ℕ) (hour' : DataHour)
    → accept (hour, left) ≡ some hour'
    → (hour ≡ hour') × (left ≡ []) × (hour_calculate_checksum hour ≡ hour.checksum)
unfolding accept
accept-cases hour left hour' e = ground arith

-- The hour that the header gives.
abbrev header_hour : List ℕ → List ℕ → List ℕ → DataHour
header_hour a b f = record {
  hour_id = from_le b;
  checksum = from_le a;
  flags = from_le f;
  variables = [];
}

module _ (c : Settings) (bytes : List ℕ) where
  -- The end of `hour_deserialize`, once the header is read.
  bytes-of-reads :
      (a b n f left1 left2 left3 left4 : List ℕ) (last hour : DataHour) (rest : List ℕ)
      → Read 4 bytes a left1
      → Read 4 left1 b left2
      → Read 2 left2 n left3
      → Read 1 left3 f left4
      → Rounds c (from_le n) (header_hour a b f) left4 last rest
      → accept (last, rest) ≡ some hour
      → ((hour_serialize hour).1 ≡ bytes) × HourValid c hour
  unfolding hour_bytes
  bytes-of-reads a b n f left1 left2 left3 left4 last hour rest ra rb rn rf
        (vs, count, grown, split, good) e =
      let (same, done, sum) = accept-cases last rest hour e in
      let e' : hour ≡ record (header_hour a b f) { variables = vs } = sym same ∙ grown in
      let sum' : hour_calculate_checksum (record (header_hour a b f) { variables = vs })
          ≡ from_le a =
        rw grown at sum in
      (
        rw
            (
              hour_serialize-hour_bytes hour,
              e',
              sum',
              count,
              le_bytes-from_le 4 a ra.sized ra.value_bytes,
              le_bytes-from_le 4 b rb.sized rb.value_bytes,
              le_bytes-from_le 2 n rn.sized rn.value_bytes,
              le_bytes-from_le 1 f rf.sized rf.value_bytes,
            )
            (rw (ra.split, rb.split, rn.split, rf.split, split, done) (simp append-nil)),
        rw same at good,
      )

  -- A buffer that is accepted is what `hour_serialize` writes of the hour, and the hour is valid.
  pub hour_serialize-hour_deserialize :
      (hour : DataHour)
      → All IsByte bytes
      → hour_deserialize c bytes ≡ some hour
      → ((hour_serialize hour).1 ≡ bytes) × HourValid c hour
  unfolding hour_deserialize hour_create
  hour_serialize-hour_deserialize hour all e = >>=-elim (deserialize 4 bytes) _ e λ r1 ea e1.
      let a = deserialize-Read 4 bytes r1.0 r1.1 all ea in
      >>=-elim (deserialize 4 r1.1) _ e1 λ r2 eb e2.
        let b = deserialize-Read 4 r1.1 r2.0 r2.1 a.rest_bytes eb in
        >>=-elim (deserialize 2 r2.1) _ e2 λ r3 en e3.
          let n = deserialize-Read 2 r2.1 r3.0 r3.1 b.rest_bytes en in
          >>=-elim (deserialize 1 r3.1) _ e3 λ r4 ef e4.
            let f = deserialize-Read 1 r3.1 r4.0 r4.1 n.rest_bytes ef in
            let start = header_hour r1.0 r2.0 r4.0 in
            let good : HourValid c start = record {
              hour_id_lt = rw b.sized at (from_le-lt r2.0 b.value_bytes);
              flags_lt = rw f.sized at (from_le-lt r4.0 f.value_bytes);
              count_le = omega arith;
              each = tt;
              distinct = tt;
            } in
            >>=-elim (deserialize_variables c (from_le r3.0) start r4.1) _ e4 λ r5 el e5.
              bytes-of-reads r1.0 r2.0 r3.0 r4.0 r1.1 r2.1 r3.1 r4.1 r5.0 hour r5.1 a b n f
                (deserialize_variables-Rounds c (from_le r3.0) start r4.1 r5.0 r5.1 good
                  f.rest_bytes el)
                e5
