-- ===== src/Driver.antt =====
-- The device handle of libairspyhf/src/airspyhf.c, and the calls that its functions are made of.
pub mod Commands
pub mod Text
pub mod Flash
pub mod Receiver
pub mod Boot
pub mod Samples
pub mod Settings
pub mod Frequency
pub mod Tests
pub mod Samplerate
use airspyhf.Prelude.{ℕ, ◌*◌, Bool, List, [], ◌∷◌}
use airspyhf.Prelude.Int.{ℤ}
use airspyhf.Prelude.Outcome.{Outcome, ok}
use airspyhf.Floats.{Floats}
use airspyhf.Usb.{Call, Response, Host}
use airspyhf.Stream.{Stream}
use airspyhf.Balancer.{Complex, Balancer}

-- `struct airspyhf_device`, less the handles of libusb and pthreads. `received_samples_queue` and the
-- other fields of the queue are in `stream`.
pub record Device (F : Floats) : Type 0 where
  pub stream : Stream
  pub transfer_thread_running : Bool
  pub consumer_thread_running : Bool
  pub supported_samplerate_count : ℕ
  pub supported_samplerates : List ℕ
  pub samplerate_architectures : List ℕ
  pub supported_att_step_count : ℕ
  pub supported_att_steps : List F.Float
  pub current_samplerate : ℕ
  pub freq_hz : F.Double
  pub freq_khz : ℕ
  pub freq_delta_hz : F.Double
  pub freq_shift : F.Double
  pub calibration_ppb : ℤ
  pub calibration_vctcxo : ℤ
  pub frontend_options : ℕ
  pub optimal_point : F.Float
  pub enable_dsp : ℕ
  pub is_low_if : ℕ
  pub filter_gain : F.Float
  pub vec : Complex F.Float
  pub iq_balancer : Balancer F
  pub transfer_count : ℕ
  pub buffer_size : ℕ

-- The device, and the calls of outside libraries so far, the last one first.
pub record World (H : Host) : Type 0 where
  pub device : Device H.floats
  pub log : List Call

-- What a function of the driver does.
abbrev pub Act : Host → Type 0 → Type 0
Act H A = World H → Outcome A × World H

module _ {H : Host} where
  -- a call of an outside library
  abbrev pub ask : Call → Act H Response
  ask c w = (ok (H.respond w.log c), record w { log = c ∷ w.log })

  abbrev pub device : Act H (Device H.floats)
  device w = (ok w.device, w)

  abbrev pub update : (Device H.floats → Device H.floats) → Act H (Unit {0})
  update f w = (ok tt, record w { device = f w.device })
