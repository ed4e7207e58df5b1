-- ===== src/Driver/Settings.antt =====
-- The functions of libairspyhf/src/airspyhf.c that set up the DSP: `airspyhf_set_optimal_iq_correction_point`,
-- `airspyhf_iq_balancer_configure` and `airspyhf_set_lib_dsp`. All of them return AIRSPYHF_SUCCESS.
pub mod Session
use airspyhf.Prelude.{ℕ, Option, none, some}
use airspyhf.Prelude.Int.{ℤ}
use airspyhf.Prelude.Outcome.{Outcome, ok, fail, fault}
use airspyhf.Floats.{Floats}
use airspyhf.Balancer.{Balancer, configure, set_optimal_point}
use airspyhf.Driver.{Device}

module _ (F : Floats) where
  unfoldable pub set_optimal_iq_correction_point : F.Float → Device F → Device F
  set_optimal_iq_correction_point w d = record d {
    optimal_point = w;
    iq_balancer = set_optimal_point F d.iq_balancer w;
  }

  -- the device with the balancer that was configured, if that comes to an end
  unfoldable pub with_balancer : Device F → Outcome (Balancer F) → Option (Device F)
  with_balancer d (ok b) = some (record d { iq_balancer = b })
  with_balancer d (fail s) = none
  with_balancer d fault = none

  unfoldable pub iq_balancer_configure : ℤ → ℤ → ℤ → ℤ → Device F → Option (Device F)
  iq_balancer_configure buffers_to_skip fft_integration fft_overlap correlation_integration d =
      with_balancer d (
        configure F d.iq_balancer buffers_to_skip fft_integration fft_overlap
          correlation_integration)

  unfoldable pub set_lib_dsp : ℕ → Device F → Device F
  set_lib_dsp flag d = record d { enable_dsp = flag }
