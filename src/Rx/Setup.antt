-- ===== src/Rx/Setup.antt =====
-- What `main` of tools/src/airspyhf_rx.c does with an open device: the choice of the sample rate, the manual
-- commands, the start and the frequency, and the end. The messages are
-- left out, and so is the branch for a `sample_rate` that is false, which it never is.
pub mod Receives
use airspyhf.Prelude.{
  ℕ, zero, suc, ◌+◌, Bool, true, false, not, List, [], ◌∷◌, ◌==◌, get_or, if◌then◌else◌,
}
use airspyhf.Prelude.Outcome.{
  Outcome, ok, fail, fault, Status, error, ◌>>=◌, ◌>>◌, return_if, pure, ignore, and_then,
}
use airspyhf.Usb.{Host}
use airspyhf.Driver.{World, Act, device}
use airspyhf.Driver.Commands.{set_hf_agc, set_hf_agc_threshold, set_hf_att, set_hf_lna}
use airspyhf.Driver.Samplerate.{get_samplerates, set_samplerate}
use airspyhf.Driver.Text.{board_partid_serialno_read}
use airspyhf.Driver.Frequency.{set_freq}
use airspyhf.Driver.Receiver.{start, stop}
use airspyhf.Rx.Options.{Options}

-- The loop over the sample rates, from `s` on: the rate that was asked for, or 0 where it is not there.
unfoldable pub search_rate : (rates : List ℕ) (rate s left : ℕ) → ℕ
search_rate rates rate s zero = 0
search_rate rates rate s (suc left) =
    let rest = search_rate rates rate (s + 1) left in
    if rate == get_or rates s 0 then rate else rest

-- What fopen and setvbuf answer.
pub record FileAnswers : Type 0 where
  pub opened : Bool
  pub buffered : Bool

module _ (H : Host) where
  -- The sample rate for the header of the file. Neither call can fail, and `main` does not test them.
  unfoldable pub choose_rate : ℕ → Act H ℕ
  choose_rate rate = do
    counted ← get_samplerates H 0
    let nsrates = get_or counted 0 0
    rates ← get_samplerates H nsrates
    pure (search_rate rates rate 0 nsrates)

  -- the commands that -z leaves out
  unfoldable pub manual_commands : Options → Act H (Unit {0})
  manual_commands o = do
    set_hf_agc H (if o.hf_agc then 1 else 0)
    if o.hf_agc
        then set_hf_agc_threshold H (if o.hf_agc_threshold then 1 else 0)
        else set_hf_att H o.hf_att_val
    set_hf_lna H (if o.hf_lna then 1 else 0)

  -- the sample rate, the serial number that is printed, and the manual commands
  unfoldable pub configure_device : Options → (wav_sample_per_sec : ℕ) → Act H (Unit {0})
  configure_device o wav_sample_per_sec = do
    set_samplerate H wav_sample_per_sec
    board_partid_serialno_read H
    if o.do_not_use_manual_commands then pure tt else manual_commands o

  -- the file, the start and the frequency
  unfoldable pub start_receiving : Options → FileAnswers → Act H (Unit {0})
  start_receiving o file = do
    return_if (not file.opened) error
    return_if (not file.buffered) error
    start H
    set_freq H o.freq_hz

  -- From the sample rates to the main loop; every failure goes to `exit_failure`.
  unfoldable pub prepare : Options → FileAnswers → Act H ℕ
  prepare o file = do
    wav_sample_per_sec ← choose_rate o.sample_rate
    return_if (wav_sample_per_sec == 0) error
    configure_device o wav_sample_per_sec
    start_receiving o file
    pure wav_sample_per_sec

  -- `exit_failure`: what `airspyhf_close` does to the threads
  unfoldable pub give_up : Outcome ℕ × World H → Outcome ℕ × World H
  give_up (ok rate, w) = (ok rate, w)
  give_up (fail s, w) = and_then (ignore (stop H) w) (λ _ v. (fail s, v))
  give_up (fault, w) = (fault, w)

  unfoldable pub prepare_or_stop : Options → FileAnswers → Act H ℕ
  prepare_or_stop o file w = give_up (prepare o file w)
