-- ===== src/Device/Sample.antt =====
-- What `data_log` of core/api/zejf_api/src/zejf_data.c writes into an hour, as `data_get_val` reads it.
use mathlib.Core.Option.{some-injective}
use mathlib.Core.Path.{subst}
use zejf_meteo.Common.{
  ℕ, zero, suc, ◌==◌, ◌<◌, ◌≡◌, refl, ap, sym, ◌∙◌, true, false, not, ◌&&◌, some, List, [], ◌∷◌,
  leb, length, get_elem?, set, All, arith, inl, inr, Bool-cases, Option-cases, leb→lt,
}
use zejf_meteo.Common.Bytes.{u16_mod}
use zejf_meteo.Defs.{
  ok, err_null, err_invalid_sample_rate, err_log_number, err_value, is_ok, Settings, VariableInfo,
}
use zejf_meteo.Hour.{Variable, DataHour, hour_add_variable, get_variable}
use zejf_meteo.Hour.Valid.{VariableValid, HourValid, hour_add_variable-HourValid}
use zejf_meteo.Store.{read_sample}
use zejf_meteo.Device.{set_sample, sample_of, is_no_value, write_sample, log_into}

get_elem?-set : (xs : List ℕ) (k x : ℕ) → k < length xs → get_elem? (set xs k x) k ≡ some x
get_elem?-set [] k x h = absurd (omega arith)
get_elem?-set (y ∷ xs) zero x h = refl
get_elem?-set (y ∷ xs) (suc k) x h = get_elem?-set xs k x (omega arith)

get_variable-set_sample :
    (vs : List Variable) (id k x : ℕ) (v : Variable)
    → get_variable vs id ≡ some v
    → get_variable (set_sample vs id k x) id ≡ some (record v { samples = set v.samples k x })
unfolding get_variable set_sample
get_variable-set_sample [] id k x v e = cc
get_variable-set_sample (y ∷ vs) id k x v e = elim (Bool-cases (y.variable_info.id == id)) [
  | inl t ↦
      let same : y ≡ v = some-injective y v (rw t at e) in
      rw (t, t) (ap (λ (z : Variable). some (record z { samples = set z.samples k x })) same)
  | inr t ↦ rw (t, t) (get_variable-set_sample vs id k x v (rw t at e))
]

pub get_variable-All :
    (P : Variable → Type 0) (vs : List Variable) (id : ℕ) (v : Variable)
    → All P vs
    → get_variable vs id ≡ some v
    → P v
unfolding get_variable
get_variable-All P [] id v h e = cc
get_variable-All P (y ∷ vs) id v (hy, h) e = elim (Bool-cases (y.variable_info.id == id)) [
  | inl t ↦ subst P (some-injective y v (rw t at e)) hy
  | inr t ↦ get_variable-All P vs id v h (rw t at e)
]

-- A write that succeeds passed all tests.
write_sample-ok :
    (v : Variable) (hour hour' : DataHour) (info : VariableInfo) (k value : ℕ)
    → write_sample (some v) hour info k value ≡ (ok, hour')
    → (k < v.variable_info.samples_per_hour)
      × (hour' ≡ record hour { variables = set_sample hour.variables info.id k value })
unfolding write_sample
write_sample-ok v hour hour' info k value e =
    elim (Bool-cases (v.variable_info.samples_per_hour == info.samples_per_hour)) [
      | inl a ↦ elim (Bool-cases (leb v.variable_info.samples_per_hour k)) [
        | inl b ↦ let no : err_log_number ≡ ok = ap (λ r. r.0) (rw (a, b) at e) in cc
        | inr b ↦ elim (Bool-cases (not (is_no_value (sample_of v k)) && is_no_value value)) [
          | inl d ↦ let no : err_value ≡ ok = ap (λ r. r.0) (rw (a, b, d) at e) in cc
          | inr d ↦ (leb→lt _ _ b, sym (ap (λ r. r.1) (rw (a, b, d) at e)))
        ]
      ]
      | inr a ↦ let no : err_invalid_sample_rate ≡ ok = ap (λ r. r.0) (rw a at e) in cc
    ]

read-write :
    (c : Settings) (hour hour' : DataHour) (info : VariableInfo) (k value : ℕ)
    → HourValid c hour
    → write_sample (get_variable hour.variables info.id) hour info k value ≡ (ok, hour')
    → read_sample (some hour') info k ≡ (ok, value)
unfolding read_sample write_sample
read-write c hour hour' info k value valid e =
    elim (Option-cases (get_variable hour.variables info.id)) [
      | inl g ↦ let no : err_null ≡ ok = ap (λ r. r.0) (rw (g, write_sample) at e) in cc
      | inr (v, g) ↦
          let (below, result) = write_sample-ok v hour hour' info k value (rw g at e) in
          let full =
            (get_variable-All (VariableValid c) hour.variables info.id v valid.each g).full in
          let found : get_variable hour'.variables info.id
              ≡ some (record v { samples = set v.samples k value }) =
            ap (λ (h : DataHour). get_variable h.variables info.id) result
            ∙ get_variable-set_sample hour.variables info.id k value v g in
          let within : leb v.variable_info.samples_per_hour k ≡ false = ground arith in
          rw (found, read_sample)
            (rw (within, get_elem?-set v.samples k value (omega (arith, full))) refl)
    ]

-- When data_log may write a sample into a valid hour, data_get_val reads that value from the hour it leaves, whether the variable was there or was added.
pub read_sample-log_into :
    (c : Settings) (hour hour' : DataHour) (info : VariableInfo) (k value : ℕ)
    → HourValid c hour
    → info.id < u16_mod
    → log_into c hour info k value ≡ (ok, hour')
    → read_sample (some hour') info k ≡ (ok, value)
unfolding log_into
read_sample-log_into c hour hour' info k value valid small e =
    elim (Option-cases (get_variable hour.variables info.id)) [
      | inl g ↦ elim (Bool-cases (is_ok (hour_add_variable c hour info).0)) [
        | inl o ↦
            read-write c (hour_add_variable c hour info).1 hour' info k value
              (hour_add_variable-HourValid c hour info valid small) (rw (g, log_into, o) at e)
        | inr o ↦
            let no : is_ok (hour_add_variable c hour info).0 ≡ true =
              ap (λ r. is_ok r.0) (rw (g, log_into, o) at e) in
            cc
      ]
      | inr (v, g) ↦ read-write c hour hour' info k value valid (rw g (rw (g, log_into) at e))
    ]
