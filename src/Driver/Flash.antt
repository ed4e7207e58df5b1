-- ===== src/Driver/Flash.antt =====
-- The calibration and its copy in the flash of the device: `airspyhf_set_calibration`,
-- `airspyhf_flash_configuration`, `airspyhf_config_write`, `airspyhf_config_read`, and the part of
-- `airspyhf_open_init` that takes the copy over.
pub mod Laws
use airspyhf.Prelude.{
  ℕ, ◌+◌, ◌*◌, Bool, true, false, List, [], ◌∷◌, ◌++◌, ltb, ◌==◌, length, get_or, take, drop,
  replicate, if◌then◌else◌,
}
use airspyhf.Prelude.Int.{ℤ, pos, negsuc}
use airspyhf.Prelude.Words.{le_bytes, le_word, signed32, pattern32, to_size, to_u16}
use airspyhf.Prelude.Outcome.{
  Outcome, ok, fail, fault, Status, success, error, ◌>>=◌, ◌>>◌, return_if, pure, ignore,
}
use airspyhf.Usb.{VendorRequest, Call, control_in, control_out, Host}
use airspyhf.Stream.{is_streaming}
use airspyhf.Driver.{Device, World, Act, ask, device, update}
use airspyhf.Driver.Commands.{set_vctcxo_calibration, set_frontend_options}
use airspyhf.Driver.Frequency.{set_freq_double}
use airspyhf.Driver.Text.{filled, word_at}

abbrev pub calibration_magic : ℕ
calibration_magic = 0xa5ca71b0

-- `flash_config_t`
pub record FlashConfig : Type 0 where
  pub magic_number : ℕ
  pub calibration_ppb : ℤ
  pub calibration_vctcxo : ℤ
  pub frontend_options : ℕ

-- its sixteen bytes in memory
unfoldable pub config_bytes : FlashConfig → List ℕ
config_bytes c =
    le_bytes c.magic_number
    ++ (le_bytes (pattern32 c.calibration_ppb)
        ++ (le_bytes (pattern32 c.calibration_vctcxo) ++ le_bytes c.frontend_options))

unfoldable pub config_of_bytes : List ℕ → FlashConfig
config_of_bytes buf = record {
  magic_number = word_at buf 0;
  calibration_ppb = signed32 (word_at buf 4);
  calibration_vctcxo = signed32 (word_at buf 8);
  frontend_options = word_at buf 12;
}

-- the block of 256 bytes that `airspyhf_config_write` sends
unfoldable pub config_block : List ℕ → List ℕ
config_block bytes = take 256 (bytes ++ replicate 256 0)

module _ (H : Host) where
  -- `airspyhf_get_calibration`, with whether the caller gave a place for it
  unfoldable pub get_calibration : Bool → Act H ℤ
  get_calibration given = do
    d ← device
    if given then pure d.calibration_ppb else (λ w. (fail error, w))

  -- `airspyhf_set_calibration`
  unfoldable pub set_calibration : ℤ → Act H (Unit {0})
  set_calibration ppb = do
    update (λ d. record d { calibration_ppb = ppb })
    d ← device
    set_freq_double H d.freq_hz

  -- `airspyhf_config_write` of sixteen bytes; the result is compared as a `size_t`
  unfoldable pub config_write : List ℕ → Act H (Unit {0})
  config_write bytes = do
    answer ← ask (control_out VendorRequest.config_write 0 0 (config_block bytes))
    return_if (ltb (to_size answer.result) 256) error

  -- `airspyhf_config_read`; `stale` is what the stack held in `buf`
  unfoldable pub config_read : List ℕ → ℕ → Act H (List ℕ)
  config_read stale len = do
    answer ← ask (control_in VendorRequest.config_read 0 0 256)
    return_if (ltb (to_size answer.result) 256) error
    pure (take len (filled 256 answer.payload stale))

  unfoldable pub config_of : Device H.floats → FlashConfig
  config_of d = record {
    magic_number = calibration_magic;
    calibration_ppb = d.calibration_ppb;
    calibration_vctcxo = d.calibration_vctcxo;
    frontend_options = d.frontend_options;
  }

  -- `airspyhf_flash_configuration`
  unfoldable pub flash_configuration : Act H (Unit {0})
  unfolding config_write config_of
  flash_configuration = do
    d ← device
    return_if (is_streaming d.stream) error
    config_write (config_bytes (config_of d))

  -- no calibration
  abbrev pub uncalibrated : Device H.floats → Device H.floats
  uncalibrated d = record d {
    calibration_ppb = pos 0;
    calibration_vctcxo = pos 0;
    frontend_options = 0;
  }

  -- A configuration is taken over if it bears the magic number.
  unfoldable pub adopt_config : FlashConfig → Act H (Unit {0})
  adopt_config c =
      if c.magic_number == calibration_magic
      then (do
        update (λ d. record d { calibration_ppb = c.calibration_ppb })
        ignore (set_vctcxo_calibration H (to_u16 c.calibration_vctcxo))
        ignore (set_frontend_options H c.frontend_options))
      else update uncalibrated

  -- where `airspyhf_config_read` fails there is none
  unfoldable pub adopt_read : Outcome (List ℕ) × World H → Outcome (Unit {0}) × World H
  adopt_read (ok bytes, w) = adopt_config (config_of_bytes bytes) w
  adopt_read (fail s, w) = update uncalibrated w
  adopt_read (fault, w) = (fault, w)

  -- the end of `airspyhf_open_init`
  unfoldable pub load_config : List ℕ → Act H (Unit {0})
  unfolding config_read adopt_read adopt_config
  load_config stale w = adopt_read (config_read stale 16 w)
