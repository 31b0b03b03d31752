-- ===== src/Device/HourKept.antt =====
-- What `data_log` of core/api/zejf_api/src/zejf_data.c does to the hour keeps the hour valid.
use zejf_meteo.Common.{
  ℕ, suc, ◌==◌, ◌<◌, ◌≡◌, refl, sym, ap, ◌∙◌, not, ◌&&◌, Option, none, some, List, [], ◌∷◌, leb,
  length, length-set, All, All-set, arith, inl, inr, Bool-cases, Option-cases,
}
use zejf_meteo.Common.Bytes.{u16_mod, u32_mod}
use zejf_meteo.Defs.{is_ok, Settings, VariableInfo}
use zejf_meteo.Hour.{Variable, DataHour, hour_add_variable, get_variable}
use zejf_meteo.Hour.Valid.{VariableValid, HourValid, IsWord, ids, hour_add_variable-HourValid}
use zejf_meteo.Device.{set_sample, sample_of, is_no_value, write_sample, log_into}

-- Variables with the ids of others, all of them valid.
pub record Rewritten (c : Settings) (vs ws : List Variable) : Type 0 where
  pub each : All (VariableValid c) ws
  pub same : ids ws ≡ ids vs

length-ids : (vs : List Variable) → length (ids vs) ≡ length vs
length-ids [] = refl
length-ids (v ∷ vs) = ap suc (length-ids vs)

pub Rewritten-HourValid :
    (c : Settings) (hour : DataHour) (ws : List Variable)
    → HourValid c hour
    → Rewritten c hour.variables ws
    → HourValid c (record hour { variables = ws })
Rewritten-HourValid c hour ws v r =
    let count : length ws ≡ length hour.variables =
      sym (length-ids ws) ∙ (ap length r.same ∙ length-ids hour.variables) in
    record {
      hour_id_lt = v.hour_id_lt;
      flags_lt = v.flags_lt;
      count_le = omega (arith, count, v.count_le);
      each = r.each;
      distinct = rw r.same v.distinct;
    }

pub Rewritten-cons :
    (c : Settings) (v : Variable) (vs ws : List Variable)
    → VariableValid c v
    → Rewritten c vs ws
    → Rewritten c (v ∷ vs) (v ∷ ws)
Rewritten-cons c v vs ws h r = record {
  each = (h, r.each);
  same = ap (◌∷◌ v.variable_info.id) r.same;
}

module _ (c : Settings) (k value : ℕ) (word : value < u32_mod) where
  set_sample-Rewritten :
      (id : ℕ) (vs : List Variable)
      → All (VariableValid c) vs
      → Rewritten c vs (set_sample vs id k value)
  unfolding set_sample
  set_sample-Rewritten id [] h = record { each = tt; same = refl }
  set_sample-Rewritten id (v ∷ vs) (hv, h) = elim (Bool-cases (v.variable_info.id == id)) [
    | inl e ↦ rw e (record {
      each = (
        record {
          rate_pos = hv.rate_pos;
          rate_le = hv.rate_le;
          id_lt = hv.id_lt;
          full = length-set v.samples k value ∙ hv.full;
          words = All-set IsWord v.samples k value hv.words word;
        },
        h,
      );
      same = refl;
    })
    | inr e ↦ rw e (Rewritten-cons c v vs _ hv (set_sample-Rewritten id vs h))
  ]

  module _ (info : VariableInfo) where
    write_sample-HourValid :
        (o : Option Variable) (hour : DataHour)
        → HourValid c hour
        → HourValid c (write_sample o hour info k value).1
    unfolding write_sample
    write_sample-HourValid none hour h = h
    write_sample-HourValid (some v) hour h =
        elim (Bool-cases (not (v.variable_info.samples_per_hour == info.samples_per_hour))) [
          | inl a ↦ rw a h
          | inr a ↦ elim (Bool-cases (leb v.variable_info.samples_per_hour k)) [
            | inl b ↦ rw (a, b) h
            | inr b ↦ elim (Bool-cases (not (is_no_value (sample_of v k)) && is_no_value value)) [
              | inl d ↦ rw (a, b, d) h
              | inr d ↦
                  rw (a, b, d)
                    (Rewritten-HourValid c hour _ h
                      (set_sample-Rewritten info.id hour.variables h.each))
            ]
          ]
        ]

    pub log_into-HourValid :
        (hour : DataHour)
        → HourValid c hour
        → info.id < u16_mod
        → HourValid c (log_into c hour info k value).1
    unfolding log_into
    log_into-HourValid hour h small = elim (Option-cases (get_variable hour.variables info.id)) [
      | inr (v, e) ↦ rw (e, log_into) (write_sample-HourValid (some v) hour h)
      | inl e ↦
          let h' = hour_add_variable-HourValid c hour info h small in
          elim (Bool-cases (not (is_ok (hour_add_variable c hour info).0))) [
            | inl o ↦ rw (e, log_into, o) h'
            | inr o ↦ rw (e, log_into, o) (write_sample-HourValid _ _ h')
          ]
    ]
