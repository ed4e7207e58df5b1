-- ===== src/Driver/Tests.antt =====
-- A device with two sample rates and nine steps, on hosts that answer well or badly; the driver's
-- theorems there.
mod Tuning
mod Stored
mod Running
mod Opened
mod Blocks
use airspyhf.Prelude.{
  ℕ, ◌+◌, ◌*◌, Bool, true, false, List, [], ◌∷◌, length, replicate, if◌then◌else◌,
}
use airspyhf.Prelude.Int.{ℤ, pos, negsuc}
use airspyhf.Usb.{
  VendorRequest, Call, control_out, control_in, clear_halt, submit_transfer, cancel_transfer,
  handle_events, interrupt_event_handler, signal_consumer, create_thread, join_thread, Response,
  Host,
}
use airspyhf.Stream.{Stream}
use airspyhf.Balancer.{Balancer, Complex}
use airspyhf.Balancer
use airspyhf.Driver.{Device, World}
use airspyhf.Fixed.{fixed}

abbrev pub whole_number : ℕ → ℤ
whole_number n = pos (n * 1000000000000)

-- every call succeeds, and an answer is all zeros
abbrev answer_well : Call → Response
answer_well (control_out _ _ _ bytes) = record { result = pos (length bytes); payload = [] }
answer_well (control_in _ _ _ len) = record { result = pos len; payload = replicate len 0 }
answer_well _ = record { result = pos 0; payload = [] }

-- every control transfer of data fails, with LIBUSB_ERROR_IO
abbrev answer_badly : Call → Response
answer_badly (control_out _ _ _ _) = record { result = negsuc 0; payload = [] }
answer_badly (control_in _ _ _ _) = record { result = negsuc 0; payload = [] }
answer_badly _ = record { result = negsuc 0; payload = [] }

abbrev pub good_host : Host
good_host = record {
  floats = fixed;
  respond = λ log c. answer_well c;
  callbacks = λ log. [];
  ends = λ log t. true;
}

abbrev pub bad_host : Host
bad_host = record {
  floats = fixed;
  respond = λ log c. answer_badly c;
  callbacks = λ log. [];
  ends = λ log t. true;
}

abbrev resting_stream : Stream
resting_stream = record {
  streaming = false;
  stop_requested = false;
  head = 3;
  tail = 3;
  count = 0;
  slots = 10 ∷ 11 ∷ 12 ∷ 13 ∷ 14 ∷ 15 ∷ 16 ∷ 17 ∷ [];
  drop_slots = replicate 8 1;
  dropped_buffers = 5;
  transfer_live = pos 0;
}

abbrev test_balancer : Balancer fixed
test_balancer =
    let quiet : Complex ℤ = record { re = pos 0; im = pos 0 } in
    record (Balancer.create fixed (pos 0) (pos 0) (λ i. false) (λ i. quiet) (λ i. quiet)
      (λ i. quiet) (λ i. pos 0)) {
        power_flag = [];
        corr = [];
        corr_plus = [];
        working_buffer = [];
        boost = [];
      }

-- a device in Zero IF, tuned to nothing yet
abbrev test_device : Device fixed
test_device = record {
  stream = resting_stream;
  transfer_thread_running = false;
  consumer_thread_running = false;
  supported_samplerate_count = 2;
  supported_samplerates = 768000 ∷ 192000 ∷ [];
  samplerate_architectures = 0 ∷ 1 ∷ [];
  supported_att_step_count = 3;
  supported_att_steps = whole_number 0 ∷ whole_number 6 ∷ whole_number 12 ∷ [];
  current_samplerate = 768000;
  freq_hz = pos 0;
  freq_khz = 0;
  freq_delta_hz = pos 0;
  freq_shift = pos 0;
  calibration_ppb = negsuc 11;
  calibration_vctcxo = pos 700;
  frontend_options = 0x10002;
  optimal_point = pos 0;
  enable_dsp = 1;
  is_low_if = 0;
  filter_gain = whole_number 1;
  vec = record { re = whole_number 1; im = pos 0 };
  iq_balancer = test_balancer;
  transfer_count = 2;
  buffer_size = 16384;
}

abbrev pub good_world : World good_host
good_world = record { device = test_device; log = [] }

abbrev pub bad_world : World bad_host
bad_world = record { device = test_device; log = [] }

-- a host that takes two bytes of each transfer
abbrev lazy_host : Host
lazy_host = record {
  floats = fixed;
  respond = λ log c. record { result = pos 2; payload = [] };
  callbacks = λ log. [];
  ends = λ log t. true;
}
