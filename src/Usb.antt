-- ===== src/Usb.antt =====
-- What the driver asks of libusb and pthreads, and what they answer: libairspyhf/src/
-- airspyhf_commands.h and the calls of libairspyhf/src/airspyhf.c.

use airspyhf.Prelude.{ℕ, Bool, List}
use airspyhf.Prelude.Int.{ℤ}
use airspyhf.Floats.{Floats}
use airspyhf.Stream.{Transfer}

-- `receiver_mode_t`
pub data ReceiverMode : Type 0 where
  receiver_mode_off receiver_mode_on : ReceiverMode

unfoldable pub mode_code : ReceiverMode → ℕ
mode_code receiver_mode_off = 0
mode_code receiver_mode_on = 1

-- `airspyhf_vendor_request`
pub data VendorRequest : Type 0 where
  invalid receiver_mode set_freq get_samplerates set_samplerate config_read : VendorRequest
  config_write get_serialno_boardid set_user_output get_version_string : VendorRequest
  set_agc set_agc_threshold set_att set_lna get_samplerate_architectures : VendorRequest
  get_filter_gain get_freq_delta set_vctcxo_calibration : VendorRequest
  set_frontend_options get_att_steps get_bias_tee_count get_bias_tee_name : VendorRequest
  set_bias_tee : VendorRequest

abbrev pub cmd_max : ℕ
cmd_max = 22

unfoldable pub request_code : VendorRequest → ℕ
request_code invalid = 0
request_code receiver_mode = 1
request_code set_freq = 2
request_code get_samplerates = 3
request_code set_samplerate = 4
request_code config_read = 5
request_code config_write = 6
request_code get_serialno_boardid = 7
request_code set_user_output = 8
request_code get_version_string = 9
request_code set_agc = 10
request_code set_agc_threshold = 11
request_code set_att = 12
request_code set_lna = 13
request_code get_samplerate_architectures = 14
request_code get_filter_gain = 15
request_code get_freq_delta = 16
request_code set_vctcxo_calibration = 17
request_code set_frontend_options = 18
request_code get_att_steps = 19
request_code get_bias_tee_count = 20
request_code get_bias_tee_name = 21
request_code set_bias_tee = cmd_max

pub data Thread : Type 0 where
  consumer_thread transfer_thread : Thread

-- One call of an outside library. A control transfer names its request, `wValue`, `wIndex`, the
-- bytes sent (for OUT) and the length of the buffer.
pub data Call : Type 0 where
  control_out : VendorRequest → ℕ → ℕ → List ℕ → Call
  control_in : VendorRequest → ℕ → ℕ → ℕ → Call
  clear_halt : Call
  submit_transfer cancel_transfer : ℕ → Call
  handle_events : Call
  interrupt_event_handler : Call
  signal_consumer : Call
  create_thread join_thread : Thread → Call

-- The integer that a call returns, and the bytes that it has put into the caller's buffer.
pub record Response : Type 0 where
  pub result : ℤ
  pub payload : List ℕ

-- The machine that the driver runs on. What a call answers may depend on all calls before it.
pub record Host : Type 1 where
  pub floats : Floats
  pub open floats use *
  pub respond : List Call → Call → Response
  -- the transfers whose callbacks run in a call of `libusb_handle_events_timeout_completed`, and
  -- whether each is accepted when it is submitted again
  pub callbacks : List Call → List (Transfer × Bool)
  -- whether a thread comes to its end once it is waited for
  pub ends : List Call → Thread → Bool
