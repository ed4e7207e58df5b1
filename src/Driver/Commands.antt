-- ===== src/Driver/Commands.antt =====
-- The functions of libairspyhf/src/airspyhf.c that are one control transfer: front end, attenuator,
-- AGC, LNA, outputs, bias tee and receiver mode.
pub mod Laws
use airspyhf.Prelude.{
  ℕ, ◌*◌, ◌%◌, ◌/◌, Bool, true, false, List, [], ◌∷◌, ltb, leb, ◌==◌, get_or, take, if◌then◌else◌,
}
use airspyhf.Prelude.Int.{ℤ, pos, negsuc, ltb_ℤ}
use airspyhf.Prelude.Words.{le_word, signed32, to_u16}
use airspyhf.Prelude.Search.{first_index}
use airspyhf.Prelude.Outcome.{
  Outcome, ok, fail, Status, success, error, ◌>>=◌, ◌>>◌, return_if, pure,
}
use airspyhf.Usb.{VendorRequest, Call, control_out, control_in, Host, ReceiverMode, mode_code}
use airspyhf.Driver.{Device, World, Act, ask, device, update}

-- `result != 0`
abbrev pub is_nonzero : ℤ → Bool
is_nonzero (pos n) = if n == 0 then false else true
is_nonzero (negsuc n) = true

abbrev pub is_negative : ℤ → Bool
is_negative (pos n) = false
is_negative (negsuc n) = true

-- `airspyhf_user_output_t` and `airspyhf_user_output_state_t`
pub data UserOutput : Type 0 where
  output_0 output_1 output_2 output_3 : UserOutput

pub data OutputState : Type 0 where
  low high : OutputState

unfoldable pub output_code : UserOutput → ℕ
output_code output_0 = 0
output_code output_1 = 1
output_code output_2 = 2
output_code output_3 = 3

unfoldable pub state_code : OutputState → ℕ
state_code low = 0
state_code high = 1

-- What `airspyhf_get_att_steps` puts into the caller's buffer: the count, or the steps.
pub data AttReply (A : Type 0) : Type 0 where
  step_count : ℕ → AttReply A
  steps : List A → AttReply A

module _ (H : Host) where
  open H use {Float, gef, of_intf}

  -- a request with no data, which fails by a negative result
  abbrev pub command : VendorRequest → ℕ → ℕ → Act H (Unit {0})
  command request value index = do
    answer ← ask (control_out request value index [])
    return_if (is_negative answer.result) error

  -- `airspyhf_set_receiver_mode`
  unfoldable pub set_receiver_mode : ReceiverMode → Act H (Unit {0})
  unfolding mode_code
  set_receiver_mode mode = do
    answer ← ask (control_out VendorRequest.receiver_mode (mode_code mode) 0 [])
    return_if (is_nonzero answer.result) error

  -- `airspyhf_get_frontend_options`, with whether the caller gave a place for the flags
  unfoldable pub get_frontend_options : Bool → Act H ℕ
  get_frontend_options given = do
    d ← device
    if given then pure d.frontend_options else (λ w. (fail error, w))

  -- `airspyhf_set_frontend_options`: the flags go out in `wValue` and `wIndex`
  unfoldable pub set_frontend_options : ℕ → Act H (Unit {0})
  set_frontend_options flags = do
    update (λ d. record d { frontend_options = flags })
    command VendorRequest.set_frontend_options (flags % 65536) (flags / 65536 % 65536)

  -- `airspyhf_get_vctcxo_calibration`
  unfoldable pub get_vctcxo_calibration : Bool → Act H ℕ
  get_vctcxo_calibration given = do
    d ← device
    if given then pure (to_u16 d.calibration_vctcxo) else (λ w. (fail error, w))

  -- `airspyhf_set_vctcxo_calibration`
  unfoldable pub set_vctcxo_calibration : ℕ → Act H (Unit {0})
  set_vctcxo_calibration vc = do
    update (λ d. record d { calibration_vctcxo = pos vc })
    command VendorRequest.set_vctcxo_calibration vc 0

  -- `airspyhf_get_att_steps`
  unfoldable pub get_att_steps : ℕ → Act H (AttReply Float)
  get_att_steps len = do
    d ← device
    if len == 0
        then pure (step_count d.supported_att_step_count)
        else if leb len d.supported_att_step_count
        then pure (steps (take len d.supported_att_steps))
        else (λ w. (fail error, w))

  -- The first step that is not below `att`, or step 0; `att_index` has sixteen bits.
  unfoldable pub att_index : List Float → ℕ → Float → ℕ
  att_index table count att =
      first_index (λ i. gef (get_or table i (of_intf (pos 0))) att) 0 0 count % 65536

  -- `airspyhf_set_att`
  unfoldable pub set_att : Float → Act H (Unit {0})
  set_att att = do
    d ← device
    command VendorRequest.set_att (att_index d.supported_att_steps d.supported_att_step_count att) 0

  -- `airspyhf_set_bias_tee`
  unfoldable pub set_bias_tee : ℤ → Act H (Unit {0})
  set_bias_tee value = command VendorRequest.set_bias_tee (to_u16 value) 0

  -- `airspyhf_get_bias_tee_count`: the status and the count, which is 0 on an error
  unfoldable pub get_bias_tee_count : Act H (Status × ℤ)
  get_bias_tee_count = do
    answer ← ask (control_in VendorRequest.get_bias_tee_count 0 0 4)
    let buf = answer.payload
    if ltb_ℤ answer.result (pos 4)
        then pure (error, pos 0)
        else pure (
          success,
          signed32 (le_word (get_or buf 0 0) (get_or buf 1 0) (get_or buf 2 0) (get_or buf 3 0)),
        )

  -- `airspyhf_set_hf_att`
  unfoldable pub set_hf_att : ℕ → Act H (Unit {0})
  set_hf_att index = command VendorRequest.set_att index 0

  -- `airspyhf_set_hf_lna`
  unfoldable pub set_hf_lna : ℕ → Act H (Unit {0})
  set_hf_lna flag = command VendorRequest.set_lna flag 0

  -- `airspyhf_set_user_output`
  unfoldable pub set_user_output : UserOutput → OutputState → Act H (Unit {0})
  unfolding output_code state_code
  set_user_output pin value =
      command VendorRequest.set_user_output (output_code pin) (state_code value)

  -- `airspyhf_set_hf_agc`
  unfoldable pub set_hf_agc : ℕ → Act H (Unit {0})
  set_hf_agc flag = command VendorRequest.set_agc flag 0

  -- `airspyhf_set_hf_agc_threshold`
  unfoldable pub set_hf_agc_threshold : ℕ → Act H (Unit {0})
  set_hf_agc_threshold flag = command VendorRequest.set_agc_threshold flag 0
