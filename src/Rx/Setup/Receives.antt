-- ===== src/Rx/Setup/Receives.antt =====
-- The receiver of tools/src/airspyhf_rx.c, once `main` has come to its loop.
use airspyhf.Prelude.{ℕ, ◌≡◌, true}
use airspyhf.Prelude.Int.{pos}
use airspyhf.Usb.{Host}
use airspyhf.Stream.{is_streaming}
use airspyhf.Driver.{Device}
use airspyhf.Driver.Frequency.Laws.{IsTuned}
use airspyhf.Rx.Options.{Options}

module _ (H : Host) where
  -- The record of a receiver that is marked as running, at a sample rate and a frequency: the oscillator and the
  -- shift are those for the record's own calibration, architecture and DSP.
  pub record Receives (rate hz : ℕ) (d : Device H.floats) : Type 0 where
    pub streaming : is_streaming d.stream ≡ true
    pub threads : (d.transfer_thread_running ≡ true) × (d.consumer_thread_running ≡ true)
    pub rate_eq : d.current_samplerate ≡ rate
    pub tuned : IsTuned H d d (H.of_int (pos hz))
