-- ===== src/Api/Valid.antt =====
-- What holds of a whole device through each entry point of the library: core/api/zejf_api.
use zejf_meteo.Common.{
  ℕ, suc, ◌==◌, ◌<◌, ◌≡◌, refl, ap, some, List, [], ◌∷◌, length, All, arith, inl, inr, Bool-cases,
  ◌%◌,
}
use zejf_meteo.Common.Bytes.{u16_mod, u32_mod}
use zejf_meteo.Common.Optional.{>>=-elim}
use zejf_meteo.Common.Text.{scan_unsigned, scan_char, scan_unsigned-some}
use zejf_meteo.Defs.{is_ok, Settings, VariableInfo}
use zejf_meteo.Hour.{DataHour}
use zejf_meteo.Hour.Serial.{hour_serialize}
use zejf_meteo.Hour.Valid.{HourValid}
use zejf_meteo.Protocol.{Packet}
use zejf_meteo.Network.{Platform, Network}
use zejf_meteo.Network.Valid.{NetworkValid}
use zejf_meteo.Store.{data_save, save_hour, save_hours, datahour_save}
use zejf_meteo.Info.{Floats, comma}
use zejf_meteo.Device.{Device}
use zejf_meteo.Device.Valid.{DeviceValid}
use zejf_meteo.Api.{scan_log, save_all}

-- A float that was read is the pattern of 32 bits.
abbrev pub ScansWords : Floats → Type 0
ScansWords floats =
    (text : List ℕ) (val : ℕ) (rest : List ℕ)
    → floats.scan_float text ≡ some (val, rest)
    → val < u32_mod

-- What a platform does with the packets that are left to it keeps a device valid.
abbrev pub KeepsDevice : {E : Type 0} → Settings → (Packet → Device E → Device E) → Type 0
KeepsDevice {E = E} c handler =
    (p : Packet) (d : Device E) → DeviceValid c d → DeviceValid c (handler p d)

-- What was scanned fits its types.
pub record LogTyped (info : VariableInfo) (hour_number val : ℕ) : Type 0 where
  pub id : info.id < u16_mod
  pub hour : hour_number < u32_mod
  pub word : val < u32_mod

pub scan_log-typed :
    (floats : Floats) (text : List ℕ) (info : VariableInfo) (hour_number sample_num val : ℕ)
    → ScansWords floats
    → scan_log floats text ≡ some (info, hour_number, sample_num, val)
    → LogTyped info hour_number val
unfolding scan_log
scan_log-typed floats text info hour_number sample_num val words e =
    >>=-elim (scan_unsigned u16_mod text) _ e λ (v1, s1) e1 e.
      >>=-elim (scan_char comma s1) _ e λ s2 e2 e.
        >>=-elim (scan_unsigned u32_mod s2) _ e λ (v2, s3) e3 e.
          >>=-elim (scan_char comma s3) _ e λ s4 e4 e.
            >>=-elim (scan_unsigned u32_mod s4) _ e λ (v3, s5) e5 e.
              >>=-elim (scan_char comma s5) _ e λ s6 e6 e.
                >>=-elim (scan_unsigned u32_mod s6) _ e λ (v4, s7) e7 e.
                  >>=-elim (scan_char comma s7) _ e λ s8 e8 e.
                    >>=-elim (floats.scan_float s8) _ e λ (v5, s9) e9 e.
                      let same_id : v1 ≡ info.id = cc in
                      let same_hour : v3 ≡ hour_number = cc in
                      let same_val : v5 ≡ val = cc in
                      record {
                        id =
                            omega
                              (arith, (scan_unsigned-some u16_mod v1 text s1 (omega arith) e1).0);
                        hour =
                            omega (arith, (scan_unsigned-some u32_mod v3 s4 s5 (omega arith) e5).0);
                        word = omega (arith, words s8 v5 s9 e9);
                      }

pub on_network-DeviceValid :
    {E : Type 0} (c : Settings) (d : Device E) (n : Network E)
    → NetworkValid c n
    → DeviceValid c d
    → DeviceValid c (record d { network = n })
on_network-DeviceValid c d n vn v = record {
  network = vn;
  hours = v.hours;
  requests = v.requests;
  typed = v.typed;
}

module _ {E : Type 0} (platform : Platform E) (c : Settings) where
  save_hour-HourValid :
      (hour : DataHour) (world : E)
      → HourValid c hour
      → HourValid c (save_hour platform c hour world).0
  unfolding save_hour datahour_save hour_serialize
  save_hour-HourValid hour world h = elim (Bool-cases ((hour.flags % 2) == 0)) [
    | inl e ↦ rw e h
    | inr e ↦ elim (Bool-cases (is_ok (datahour_save platform c hour world).0)) [
      | inl f ↦
          rw (e, f)
            (record {
              hour_id_lt = h.hour_id_lt;
              flags_lt = omega arith;
              count_le = h.count_le;
              each = h.each;
              distinct = h.distinct;
            })
      | inr f ↦
          rw (e, f)
            (record {
              hour_id_lt = h.hour_id_lt;
              flags_lt = h.flags_lt;
              count_le = h.count_le;
              each = h.each;
              distinct = h.distinct;
            })
    ]
  ]

  -- As many hours, all of them valid.
  record Saved (hs gs : List DataHour) : Type 0 where
    count : length gs ≡ length hs
    each : All (HourValid c) gs

  save_hours-Saved :
      (hs : List DataHour) (world : E)
      → All (HourValid c) hs
      → Saved hs (save_hours platform c hs world).0
  unfolding save_hours
  save_hours-Saved [] world h = record { count = refl; each = tt }
  save_hours-Saved (x ∷ hs) world (hx, h) =
      let rest = save_hours-Saved hs world h in
      record { count = ap suc rest.count; each = (save_hour-HourValid x _ hx, rest.each) }

  pub save_all-DeviceValid :
      (d : Device E) → DeviceValid c d → DeviceValid c (save_all platform c d)
  unfolding save_all data_save
  save_all-DeviceValid d v =
      let saved = save_hours-Saved d.hours d.network.outside v.hours.1 in
      record {
        network = v.network;
        hours = (omega (arith, saved.count, v.hours.0), saved.each);
        requests = v.requests;
        typed = v.typed;
      }
