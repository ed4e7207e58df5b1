-- ===== src/Driver/Samplerate.antt =====
-- `airspyhf_get_samplerates`, `airspyhf_set_samplerate` and `airspyhf_is_low_if`.
pub mod Laws
use airspyhf.Prelude.{
  ℕ, zero, suc, ◌+◌, ◌*◌, Bool, true, false, not, ◌&&◌, Option, none, some, List, [], ◌∷◌, ltb, leb,
  ◌==◌, get_or, take, if◌then◌else◌,
}
use airspyhf.Prelude.Int.{ℤ, pos, negsuc}
use airspyhf.Prelude.Words.{be_bytes, to_size, to_u16}
use airspyhf.Prelude.Outcome.{
  Outcome, ok, fail, fault, Status, error, ◌>>=◌, ◌>>◌, return_if, pure, ignore,
}
use airspyhf.Prelude.Search.{first_index}
use airspyhf.Usb.{VendorRequest, Host, control_in, control_out, clear_halt}
use airspyhf.Driver.{Device, World, Act, ask, device, update}
use airspyhf.Driver.Commands.{is_nonzero}
use airspyhf.Driver.Frequency.{min_zero_if_lo, set_freq_double}

-- MAX_SAMPLERATE_INDEX
abbrev pub max_samplerate_index : ℕ
max_samplerate_index = 100

-- What the caller gives is an index up to 100, and above that a rate in Hz, which is looked up in
-- `supported_samplerates`; a rate that is not there stays as it is.
unfoldable pub samplerate_index : List ℕ → ℕ → ℕ → ℕ
samplerate_index rates count samplerate =
    if ltb max_samplerate_index samplerate
    then first_index (λ i. samplerate == get_or rates i 0) samplerate 0 count
    else samplerate

module _ (H : Host) where
  open H use {Float, litf, of_intf, mulf, powf}

  -- `airspyhf_is_low_if`
  unfoldable pub is_low_if : Act H ℕ
  is_low_if = do d ← device; pure d.is_low_if

  -- `airspyhf_get_samplerates`: what goes into the caller's buffer
  unfoldable pub get_samplerates : ℕ → Act H (List ℕ)
  get_samplerates len = do
    d ← device
    if len == 0
        then pure (d.supported_samplerate_count ∷ [])
        else if leb len d.supported_samplerate_count
        then pure (take len d.supported_samplerates)
        else (λ w. (fail error, w))

  -- the oscillator is raised to the floor of Zero IF
  unfoldable pub raise_oscillator : Act H (Unit {0})
  raise_oscillator = do
    answer ← ask (control_out VendorRequest.set_freq 0 0 (be_bytes min_zero_if_lo))
    return_if (ltb (to_size answer.result) 4) error
    update (λ d. record d { freq_khz = min_zero_if_lo })

  -- powf(10.0f, (float) gain * -0.05f), or 1.0 if the device does not tell
  unfoldable pub filter_gain_of : ℤ → List ℕ → Float
  filter_gain_of result payload =
      if to_size result == 1
      then powf (litf (pos 10) (pos 0))
          (mulf (of_intf (pos (get_or payload 0 0))) (litf (negsuc 4) (negsuc 1)))
      else of_intf (pos 1)

  -- the index is checked, and rate and architecture are taken over
  unfoldable pub enter_samplerate : ℕ → Act H (Unit {0})
  unfolding raise_oscillator
  enter_samplerate index = do
    d ← device
    return_if (leb d.supported_samplerate_count index) error
    update (λ e. record e {
      current_samplerate = get_or d.supported_samplerates index 0;
      is_low_if = get_or d.samplerate_architectures index 0;
    })
    ask clear_halt
    e ← device
    if e.is_low_if == 0 && ltb e.freq_khz min_zero_if_lo then raise_oscillator else pure tt

  -- the index goes to the device, and the gain of its filter is read
  unfoldable pub send_samplerate : ℕ → Act H (Unit {0})
  send_samplerate index = do
    answer ← ask (control_out VendorRequest.set_samplerate 0 (to_u16 (pos index)) [])
    return_if (is_nonzero answer.result) error
    gain ← ask (control_in VendorRequest.get_filter_gain 0 0 1)
    update (λ f. record f { filter_gain = filter_gain_of gain.result gain.payload })

  -- the frequency is set again, and a failure of that is ignored
  unfoldable pub restore_freq : Act H (Unit {0})
  restore_freq = do d ← device; ignore (set_freq_double H d.freq_hz)

  -- `airspyhf_set_samplerate`
  unfoldable pub set_samplerate : ℕ → Act H (Unit {0})
  set_samplerate samplerate = do
    d ← device
    let index = samplerate_index d.supported_samplerates d.supported_samplerate_count samplerate
    enter_samplerate index
    send_samplerate index
    restore_freq
