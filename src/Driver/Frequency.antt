-- ===== src/Driver/Frequency.antt =====
-- `airspyhf_set_freq` and `airspyhf_set_freq_double`: tuning.
pub mod Laws
pub mod Frame
use airspyhf.Prelude.{
  ℕ, ◌+◌, ◌*◌, ◌^◌, Bool, true, false, not, ◌&&◌, List, ltb, ◌==◌, get_or, if◌then◌else◌,
}
use airspyhf.Prelude.Int.{ℤ, pos, negsuc, ◌-ℤ◌}
use airspyhf.Prelude.Words.{be_bytes, to_size}
use airspyhf.Prelude.Outcome.{Outcome, ok, fault, error, ◌>>=◌, ◌>>◌, return_if, pure}
use airspyhf.Usb.{VendorRequest, Host, control_in, control_out}
use airspyhf.Balancer
use airspyhf.Driver.{Device, World, Act, ask, device, update}

abbrev pub default_if_shift : ℕ
default_if_shift = 5000

abbrev pub min_zero_if_lo : ℕ
min_zero_if_lo = 180

abbrev pub min_low_if_lo : ℕ
min_low_if_lo = 84

-- `((int8_t)buf[3] << 16) | (buf[2] << 8) | buf[1]`: three bytes of a signed number, low byte first.
-- A negative left operand is shifted as every supported compiler does it.
unfoldable pub delta_mantissa : List ℕ → ℤ
unfolding ◌-ℤ◌
delta_mantissa buf =
    let low : ℕ = get_or buf 2 0 * 256 + get_or buf 1 0 in
    let high : ℕ = get_or buf 3 0 in
    if ltb high 128 then pos (high * 65536 + low) else pos (high * 65536 + low) -ℤ pos 16777216

module _ (H : Host) where
  open H use {Double, add, sub, mul, div, round, lit, of_int, to_u32}

  -- the lowest frequency of the oscillator
  unfoldable pub lo_low_khz : Device H.floats → ℕ
  lo_low_khz d = if d.is_low_if == 0 then min_zero_if_lo else min_low_if_lo

  -- the shift of the intermediate frequency
  unfoldable pub if_shift : Device H.floats → Double
  if_shift d =
      if not (d.enable_dsp == 0) && d.is_low_if == 0
      then of_int (pos default_if_shift)
      else of_int (pos 0)

  -- freq_hz * (1.0e9 + calibration_ppb) * 1.0e-9
  unfoldable pub adjusted_freq_hz : Device H.floats → Double → Double
  adjusted_freq_hz d freq_hz =
      mul (mul freq_hz (add (lit (pos 1) (pos 9)) (of_int d.calibration_ppb)))
        (lit (pos 1) (negsuc 8))

  -- MAX(lo_low_khz, (uint32_t)round((adjusted_freq_hz + if_shift) * 1e-3))
  unfoldable pub target_khz : Device H.floats → Double → ℕ
  target_khz d freq_hz =
      let wanted : ℕ =
        to_u32
          (round (mul (add (adjusted_freq_hz d freq_hz) (if_shift d)) (lit (pos 1) (negsuc 2)))) in
      if ltb wanted (lo_low_khz d) then lo_low_khz d else wanted

  -- The offset that the tuner reports. A shift of an `int` by 31 or more is undefined.
  unfoldable pub delta_hz : List ℕ → Outcome Double
  delta_hz buf =
      if ltb (get_or buf 0 0) 31
      then ok (
          div (mul (of_int (delta_mantissa buf)) (lit (pos 1) (pos 3)))
            (of_int (pos (2 ^ get_or buf 0 0))))
      else fault

  -- The answer to `AIRSPYHF_GET_FREQ_DELTA` counts only if it is complete.
  unfoldable pub read_delta : Act H (Unit {0})
  read_delta = do
    answer ← ask (control_in VendorRequest.get_freq_delta 0 0 4)
    if to_size answer.result == 4
        then (λ w. (delta_hz answer.payload, w))
          >>= (λ hz. update (λ d. record d { freq_delta_hz = hz }))
        else pure tt

  -- the balancer begins anew at its correction point
  abbrev pub restart_balancer : Device H.floats → Device H.floats
  restart_balancer d = record d {
    iq_balancer = Balancer.set_optimal_point H.floats d.iq_balancer d.optimal_point;
  }

  -- The body of `if (device->freq_khz != freq_khz)`. `result < sizeof(buf)` compares as `size_t`.
  unfoldable pub retune : ℕ → Act H (Unit {0})
  unfolding read_delta
  retune freq_khz = do
    answer ← ask (control_out VendorRequest.set_freq 0 0 (be_bytes freq_khz))
    return_if (ltb (to_size answer.result) 4) error
    update (λ d. record d { freq_khz = freq_khz })
    read_delta
    update restart_balancer

  -- `airspyhf_set_freq_double`
  unfoldable pub set_freq_double : Double → Act H (Unit {0})
  set_freq_double freq_hz = do
    d ← device
    if d.freq_khz == target_khz d freq_hz then pure tt else retune (target_khz d freq_hz)
    update (λ e. record e {
      freq_hz = freq_hz;
      freq_shift =
          add
            (sub (adjusted_freq_hz d freq_hz)
              (mul (of_int (pos (target_khz d freq_hz))) (lit (pos 1) (pos 3))))
            e.freq_delta_hz;
    })

  -- `airspyhf_set_freq`
  unfoldable pub set_freq : ℕ → Act H (Unit {0})
  unfolding set_freq_double
  set_freq freq_hz = set_freq_double (of_int (pos freq_hz))
