-- ===== src/Server/Commands/Kept.antt =====
-- The commands of core/devices/ZejfMeteo/src/zejf_meteo.c as steps of the library.
use zejf_meteo.Common.{
  ℕ, ◌%◌, ◌<◌, Bool, true, false, List, [], ◌∷◌, if◌then◌else◌, arith, inl, inr, Option-cases,
}
use zejf_meteo.Common.Bytes.{u16_mod, u32_mod}
use zejf_meteo.Common.Text.Long.{scan_long}
use zejf_meteo.Defs.{Settings}
use zejf_meteo.Hour.{get_variable}
use zejf_meteo.Store.{datahour_get, hour_at}
use zejf_meteo.Info.{Floats}
use zejf_meteo.Device.{Device, store_of}
use zejf_meteo.Api.Steps.{Reach, later, send_packet, get_hour, log_sample}
use zejf_meteo.Server.Process.{System, World, platform, network_process_packet}
use zejf_meteo.Server.Commands.{
  Printed, same_text, exit_word, status_word, info_word, data_word, dummy_word, current_hours,
  display_data, send_status, shown_hour, status_command, data_command, dummy_command, goes_on,
  process_command,
}

module _ {W : Type 0} (system : System W) (c : Settings) (floats : Floats)
    (log_at : ℕ → ℕ → ℕ) where
  abbrev Reached : Device (World W) → Type 0
  Reached = Reach (platform system c) c floats (network_process_packet system c) log_at

  -- A command that leaves a state that is reached.
  record Runs (r : Printed × Device (World W)) : Type 0 where
    reached : Reached r.1

  pub record Answers (r : Bool × Printed × Device (World W)) : Type 0 where
    pub reached : Reached r.2

  either :
      (b : Bool) {x y : Bool × Printed × Device (World W)}
      → Answers x
      → Answers y
      → Answers (if b then x else y)
  either true hx hy = hx
  either false hx hy = hy

  display_data-Runs :
      (variable hour_number : ℕ) (d : Device (World W))
      → hour_number < u32_mod
      → Reached d
      → Runs (display_data system c floats variable hour_number d)
  unfolding display_data
  display_data-Runs variable hour_number d small r =
      let (place, s) =
        datahour_get (platform system c) c hour_number true false
          (store_of (platform system c) c floats d) in
      let got = later r (get_hour hour_number true false small) in
      elim (Option-cases (hour_at place s.hours)) [
        | inl e ↦ rw (e, display_data) (record { reached = got })
        | inr (hour, e) ↦ elim (Option-cases (get_variable hour.variables variable)) [
          | inl f ↦ rw (e, display_data, f) (record { reached = got })
          | inr (v, f) ↦ rw (e, display_data, f) (record { reached = got })
        ]
      ]

  status_command-Runs :
      (arguments : List (List ℕ)) (d : Device (World W))
      → Reached d
      → Runs (status_command system c floats arguments d)
  unfolding status_command send_status
  status_command-Runs [] d r = record { reached = r }
  status_command-Runs (a ∷ more) d r = elim (Option-cases (scan_long a)) [
    | inl e ↦ rw (e, status_command) (record { reached = r })
    | inr (device_id, e) ↦ rw (e, status_command) (record { reached = later r (send_packet _ _) })
  ]

  data_command-Runs :
      (arguments : List (List ℕ)) (d : Device (World W))
      → Reached d
      → Runs (data_command system c floats arguments d)
  unfolding data_command
  data_command-Runs [] d r = record { reached = r }
  data_command-Runs (a ∷ []) d r = record { reached = r }
  data_command-Runs (a ∷ b ∷ more) d r = elim (Option-cases (scan_long a)) [
    | inl e ↦ rw (e, data_command) (record { reached = r })
    | inr (variable, e) ↦ elim (Option-cases (scan_long b)) [
      | inl f ↦ rw (e, data_command, f) (record { reached = r })
      | inr (hour_number, f) ↦
          rw (e, data_command, f)
            (display_data-Runs (variable % u16_mod)
              (shown_hour system c floats hour_number d % u32_mod) d (omega arith) r)
    ]
  ]

  dummy_command-Runs : (d : Device (World W)) → Reached d → Runs (dummy_command system c floats d)
  unfolding dummy_command current_hours
  dummy_command-Runs d r = record {
    reached = later r (log_sample _ _ _ _ _ _ (omega arith) (omega arith) (omega arith));
  }

  goes_on-Answers : (r : Printed × Device (World W)) → Runs r → Answers (goes_on system c floats r)
  unfolding goes_on
  goes_on-Answers r a = record { reached = a.reached }

  pub process_command-Answers :
      (cmd : List ℕ) (arguments : List (List ℕ)) (d : Device (World W))
      → Reached d
      → Answers (process_command system c floats cmd arguments d)
  unfolding process_command
  process_command-Answers cmd arguments d r =
      either (same_text cmd exit_word) (record { reached = r })
        (either (same_text cmd status_word) (goes_on-Answers _ (status_command-Runs arguments d r))
          (either (same_text cmd info_word) (record { reached = r })
            (either (same_text cmd data_word) (goes_on-Answers _ (data_command-Runs arguments d r))
              (either (same_text cmd dummy_word) (goes_on-Answers _ (dummy_command-Runs d r))
                (record { reached = r })))))
