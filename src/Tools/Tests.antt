-- ===== src/Tools/Tests.antt =====
-- The tools of tools/src on a library with two devices.
use airspyhf.Prelude.{
  ◌≡◌, refl, suc, true, false, none, some, List, [], ◌∷◌, length, ◌==◌, if◌then◌else◌,
}
use airspyhf.Prelude.Int.{pos}
use airspyhf.Driver.Commands.{output_2}
use airspyhf.Rx.Options.{text_on, same_text}
use airspyhf.Tools.{Api, Trace, handles, effect, rounds}
use airspyhf.Tools.Gpio.{
  GpioGiven, GpioOptions, given_output, read_gpio_options, read_gpio_option, gpio_defaults,
  with_state, open_all, open_gpio, set_outputs, run_gpio, gpio,
}
use airspyhf.Tools.Gpio.Outputs.{HasSet, opens, gpio-HasSet}
use airspyhf.Tools.Info.{
  read_info_options, print_rates, print_receiver_data, print_all, print_devices, run_info, info,
}
use airspyhf.Tools.Info.Left.{unanswered, info-handles}
use airspyhf.Tools.Calibrate.{
  CalibrateGiven, given_serial, given_ppb, read_calibrate_options, calibrate,
}
use airspyhf.Tools.Calibrate.Written.{IsCalibrated, calibrate-IsCalibrated}

-- the devices 11 and 12, of which 12 does not tell how many sample rates it has
abbrev two_devices : Api
two_devices = record {
  lists = λ t room. (pos 2, 11 ∷ 12 ∷ []);
  opens_sn = λ t sn. some sn;
  sets_output = λ t h pin state. true;
  tells_serial = λ t h. some (record { part_id = 7; serial_no = 0 ∷ h ∷ [] });
  tells_version = λ t h. none;
  counts_rates = λ t h. if h == 12 then none else some 1;
  tells_rates = λ t h len. some (768000 ∷ []);
  tells_calibration = λ t h. some (pos 0);
  sets_calibration = λ t h v. true;
  flashes = λ t h. false;
  gives = λ t size. true;
  scan_serial = λ text. some 11;
  scan_int = λ text. some (pos 25);
}

-- -2 on
abbrev second_on : List GpioGiven
second_on = given_output output_2 text_on ∷ []

gpio_trace : Trace
gpio_trace = (gpio two_devices second_on).1

-- both devices are opened, and 11 is never closed
gpio-HasSet_example :
    (o : GpioOptions) × (read_gpio_options two_devices second_on gpio_defaults ≡ some o)
    × HasSet o.state gpio_trace
    × (opens gpio_trace ≡ suc (length (handles gpio_trace)))
unfolding gpio_trace gpio run_gpio open_gpio open_all set_outputs read_gpio_options read_gpio_option
    gpio_defaults with_state same_text rounds
gpio-HasSet_example = gpio-HasSet two_devices second_on gpio_trace refl

info-handles_example : handles (info two_devices []).1 ≡ 12 ∷ []
unfolding info run_info print_devices print_all print_receiver_data print_rates read_info_options
    rounds handles effect unanswered
info-handles_example = info-handles two_devices []

-- -s 11 -c 25
abbrev calibrated : List CalibrateGiven
calibrated = given_serial (49 ∷ []) ∷ given_ppb (50 ∷ []) ∷ []

calibrate-IsCalibrated_example : IsCalibrated (some (pos 25)) (calibrate two_devices calibrated)
unfolding read_calibrate_options
calibrate-IsCalibrated_example =
    calibrate-IsCalibrated two_devices calibrated (record { sn = some 11; new_ppb = some (pos 25) })
      refl
