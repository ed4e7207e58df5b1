-- ===== src/Driver/Tests/Tuning.antt =====
-- Tuning and sample rates of the test device.
use airspyhf.Prelude.{◌≡◌, ◌≢◌, refl, arith}
use airspyhf.Prelude.Int.{◌-ℤ◌}
use airspyhf.Prelude.Words.{be_bytes}
use airspyhf.Prelude.Search.{first_index}
use airspyhf.Prelude.Outcome.{fail, error}
use airspyhf.Driver.{World}
use airspyhf.Driver.Frequency.{
  delta_mantissa, delta_hz, lo_low_khz, if_shift, adjusted_freq_hz, target_khz, read_delta, retune,
  set_freq_double,
}
use airspyhf.Driver.Frequency.Laws.{IsTuned, set_freq_double-IsTuned, set_freq_double_unreported}
use airspyhf.Driver.Frequency.Frame.{IsRetuned, set_freq_double-IsRetuned}
use airspyhf.Driver.Samplerate.{
  samplerate_index, set_samplerate, enter_samplerate, send_samplerate, restore_freq, filter_gain_of,
}
use airspyhf.Driver.Samplerate.Laws.{Uses, AboveFloor, SameTables, set_samplerate-Uses}
use airspyhf.Driver.Tests.{good_host, bad_host, good_world, bad_world, whole_number, test_device}

-- 7.1 MHz, less 12 parts per billion, and shifted by 5 kHz
tuned_khz : target_khz good_host test_device (whole_number 7100000) ≡ 7105
unfolding target_khz adjusted_freq_hz if_shift lo_low_khz
tuned_khz = refl

tuned_world : World good_host
tuned_world = (set_freq_double good_host (whole_number 7100000) good_world).1

set_freq_double-IsTuned_example :
    IsTuned good_host test_device tuned_world.device (whole_number 7100000)
unfolding tuned_world set_freq_double retune read_delta target_khz adjusted_freq_hz if_shift
    lo_low_khz be_bytes delta_hz delta_mantissa ◌-ℤ◌
set_freq_double-IsTuned_example =
    set_freq_double-IsTuned good_host (whole_number 7100000) good_world tuned_world refl

set_freq_double-IsRetuned_example : IsRetuned good_host test_device tuned_world.device
unfolding tuned_world
set_freq_double-IsRetuned_example =
    set_freq_double-IsRetuned good_host (whole_number 7100000) good_world

set_freq_double_unreported_example :
    ((set_freq_double bad_host (whole_number 7100000) bad_world).0 ≢ fail error)
    × ((set_freq_double bad_host (whole_number 7100000) bad_world).1.device.freq_khz
        ≡ target_khz bad_host test_device (whole_number 7100000))
unfolding target_khz adjusted_freq_hz if_shift lo_low_khz
set_freq_double_unreported_example =
    set_freq_double_unreported bad_host (whole_number 7100000) bad_world 0 (omega arith) refl
      (omega arith)

selected_world : World good_host
selected_world = (set_samplerate good_host 192000 good_world).1

set_samplerate-Uses_example :
    Uses good_host selected_world.device 1
    × AboveFloor good_host selected_world.device
    × SameTables good_host test_device selected_world.device
unfolding selected_world set_samplerate samplerate_index first_index enter_samplerate
    send_samplerate restore_freq filter_gain_of set_freq_double retune read_delta target_khz
    adjusted_freq_hz if_shift lo_low_khz be_bytes delta_hz delta_mantissa ◌-ℤ◌
set_samplerate-Uses_example = set_samplerate-Uses good_host 192000 good_world selected_world refl
