-- ===== src/Tools/Calibrate/Written.antt =====
-- What a run of tools/src/airspyhf_calibrate.c writes, and what it leaves open.
use airspyhf.Prelude.{
  ℕ, ◌≡◌, refl, ap, sym, Bool, true, Bool-cases, Option-cases, inl, inr, Option, none, some, List,
  [], ◌∷◌, ◌==◌,
}
use mathlib.Core.Path.{subst}
use airspyhf.Prelude.Int.{ℤ}
use airspyhf.Prelude.Words.{pattern32}
use airspyhf.Tools.{
  Event, listed, opened, calibration_set, flashed, Trace, Api, Exit, exit_success, exit_failure,
  crashed, effect, handles,
}
use airspyhf.Tools.Calibrate.{
  CalibrateGiven, CalibrateOptions, read_calibrate_options, print_calibration,
  write_new_calibration_value, calibrate_device, calibrate_asked, run_calibrate, calibrate,
}

-- the calls that write, the last one first
unfoldable pub writes : Trace → List Event
writes [] = []
writes (calibration_set h v done ∷ t) = calibration_set h v done ∷ writes t
writes (flashed h done ∷ t) = flashed h done ∷ writes t
writes (_ ∷ t) = writes t

-- what is to be written: a calibration, and then the flash, whatever the two calls answer
unfoldable pub to_write : ℕ → Option ℤ → (set_done flash_done : Bool) → List Event
to_write h none a b = []
to_write h (some new_ppb) a b = flashed h b ∷ calibration_set h new_ppb a ∷ []

-- Where the tool succeeds, one device is open, and what was asked for was written to it; where it fails,
-- none is open and nothing was written.
abbrev pub IsCalibrated : Option ℤ → Exit × Trace → Type 0
IsCalibrated new_ppb (exit_success, t) =
    (h : ℕ) × (a : Bool) × (b : Bool) × (handles t ≡ h ∷ []) × (writes t ≡ to_write h new_ppb a b)
IsCalibrated new_ppb (exit_failure, t) = (handles t ≡ []) × (writes t ≡ [])
IsCalibrated new_ppb (crashed, t) = ⊥

module _ (api : Api) where
  write_new_calibration_value-IsCalibrated :
      (h : ℕ) (new_ppb : Option ℤ) (t : Trace)
      → handles t ≡ h ∷ []
      → writes t ≡ []
      → IsCalibrated new_ppb (exit_success, write_new_calibration_value api h new_ppb t)
  unfolding write_new_calibration_value handles effect writes to_write
  write_new_calibration_value-IsCalibrated h none t open_one nothing =
      (h, true, true, open_one, nothing)
  write_new_calibration_value-IsCalibrated h (some v) t open_one nothing =
      let a = api.sets_calibration t h v in
      let b = api.flashes (calibration_set h v a ∷ t) h in
      (h, a, b, open_one, ap (λ ws. flashed h b ∷ calibration_set h v a ∷ ws) nothing)

  calibrate_asked-IsCalibrated :
      (sn : Option ℕ) (new_ppb : Option ℤ) (t : Trace)
      → handles t ≡ []
      → writes t ≡ []
      → IsCalibrated new_ppb (calibrate_asked api sn new_ppb t)
  unfolding calibrate_asked calibrate_device print_calibration handles effect writes
  calibrate_asked-IsCalibrated none new_ppb t closed_all nothing = (closed_all, nothing)
  calibrate_asked-IsCalibrated (some sn) new_ppb t closed_all nothing =
      elim (Option-cases (api.opens_sn t sn)) [
        | inl refused ↦
            let step : calibrate_device api sn new_ppb t ≡ (exit_failure, opened sn none ∷ t) =
              rw (refused, calibrate_device) refl in
            subst (IsCalibrated new_ppb) (sym step) (closed_all, nothing)
        | inr (h, found) ↦
            let u = print_calibration api h (opened sn (some h) ∷ t) in
            let step : calibrate_device api sn new_ppb t
                ≡ (exit_success, write_new_calibration_value api h new_ppb u) =
              rw (found, calibrate_device) refl in
            subst (IsCalibrated new_ppb) (sym step) (
              write_new_calibration_value-IsCalibrated h new_ppb u (ap (λ hs. h ∷ hs) closed_all)
                nothing)
      ]

  run_calibrate-IsCalibrated :
      (o : CalibrateOptions) → IsCalibrated o.new_ppb (run_calibrate api o [])
  unfolding run_calibrate handles effect writes
  run_calibrate-IsCalibrated o =
      let ndev = pattern32 (api.lists [] none).0 in
      let t = listed none ∷ [] in
      elim (Bool-cases (ndev == 0)) [
        | inl none_there ↦
            let step : run_calibrate api o [] ≡ (exit_failure, t) =
              rw (none_there, run_calibrate) refl in
            subst (IsCalibrated o.new_ppb) (sym step) (refl, refl)
        | inr some_there ↦
            let step : run_calibrate api o [] ≡ calibrate_asked api o.sn o.new_ppb t =
              rw (some_there, run_calibrate) refl in
            subst (IsCalibrated o.new_ppb) (sym step)
              (calibrate_asked-IsCalibrated o.sn o.new_ppb t refl refl)
      ]

  -- If the options can be read, then where the tool ends with EXIT_SUCCESS, the one device that it has opened
  -- stays open; where a calibration is given, the calls that write were that calibration and then the
  -- flash, whatever the two answered, and else there was none. Where it ends with EXIT_FAILURE, no device is
  -- open and nothing was written.
  pub calibrate-IsCalibrated :
      (given : List CalibrateGiven) (o : CalibrateOptions)
      → read_calibrate_options api given (record { sn = none; new_ppb = none }) ≡ some o
      → IsCalibrated o.new_ppb (calibrate api given)
  unfolding calibrate
  calibrate-IsCalibrated given o read =
      let step : calibrate api given ≡ run_calibrate api o [] = rw (read, calibrate) refl in
      subst (IsCalibrated o.new_ppb) (sym step) (run_calibrate-IsCalibrated o)
