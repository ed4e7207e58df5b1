-- ===== src/Tools/Calibrate.antt =====
-- tools/src/airspyhf_calibrate.c: the calibration of a receiver is read, and written where a value is given.
pub mod Written
use airspyhf.Prelude.{ℕ, Option, none, some, List, [], ◌∷◌, ◌==◌, if◌then◌else◌}
use airspyhf.Prelude.Int.{ℤ}
use airspyhf.Prelude.Words.{pattern32}
use airspyhf.Prelude.Checked.{◌>>=◌}
use airspyhf.Tools.{
  Event, listed, opened, serial_read, calibration_read, calibration_set, flashed, Trace, Api, Exit,
  exit_success, exit_failure,
}

-- What one call of getopt gives.
pub data CalibrateGiven : Type 0 where
  given_serial given_ppb : List ℕ → CalibrateGiven
  given_usage : CalibrateGiven

-- the serial number and the new calibration, where they are given
pub record CalibrateOptions : Type 0 where
  pub sn : Option ℕ
  pub new_ppb : Option ℤ

module _ (api : Api) where
  open api use {
    lists, opens_sn, tells_serial, tells_calibration, sets_calibration, flashes, scan_serial,
    scan_int,
  }

  -- The loop over the options: none is the end with EXIT_FAILURE.
  unfoldable pub read_calibrate_options :
      List CalibrateGiven → CalibrateOptions → Option CalibrateOptions
  read_calibrate_options [] o = some o
  read_calibrate_options (given_serial text ∷ given) o =
      scan_serial text >>= λ n. read_calibrate_options given (record o { sn = some n })
  read_calibrate_options (given_ppb text ∷ given) o =
      scan_int text >>= λ v. read_calibrate_options given (record o { new_ppb = some v })
  read_calibrate_options (given_usage ∷ given) o = none

  -- `print_receiver_data`
  unfoldable pub print_calibration : ℕ → Trace → Trace
  print_calibration h t =
      let t₁ = serial_read h (tells_serial t h) ∷ t in
      calibration_read h (tells_calibration t₁ h) ∷ t₁

  -- `write_new_calibration_value`
  unfoldable pub write_new_calibration_value : ℕ → Option ℤ → Trace → Trace
  write_new_calibration_value h none t = t
  write_new_calibration_value h (some new_ppb) t =
      let t₁ = calibration_set h new_ppb (sets_calibration t h new_ppb) ∷ t in
      flashed h (flashes t₁ h) ∷ t₁

  -- the device with the serial number
  unfoldable pub calibrate_device : ℕ → Option ℤ → Trace → Exit × Trace
  calibrate_device sn new_ppb t = elim (opens_sn t sn) [
    | none ↦ (exit_failure, opened sn none ∷ t)
    | some h ↦ (
      exit_success,
      write_new_calibration_value h new_ppb (print_calibration h (opened sn (some h) ∷ t)),
    )
  ]

  -- without a serial number the usage is shown
  unfoldable pub calibrate_asked : Option ℕ → Option ℤ → Trace → Exit × Trace
  calibrate_asked none new_ppb t = (exit_failure, t)
  calibrate_asked (some sn) new_ppb t = calibrate_device sn new_ppb t

  unfoldable pub run_calibrate : CalibrateOptions → Trace → Exit × Trace
  run_calibrate o t =
      let ndev = pattern32 (lists t none).0 in
      let t₁ = listed none ∷ t in
      if ndev == 0 then (exit_failure, t₁) else calibrate_asked o.sn o.new_ppb t₁

  -- `main`
  unfoldable pub calibrate : List CalibrateGiven → Exit × Trace
  calibrate given = elim (read_calibrate_options given (record { sn = none; new_ppb = none })) [
    | none ↦ (exit_failure, [])
    | some o ↦ run_calibrate o []
  ]
