-- ===== src/Driver/Tests/Stored.antt =====
-- Options, texts and the flash of the test device.
use airspyhf.Prelude.{true, ℕ, ◌≡◌, refl, List, [], ◌∷◌, arith, replicate}
use airspyhf.Prelude.Int.{pos}
use airspyhf.Prelude.Search.{first_index}
use airspyhf.Prelude.Outcome.{ok, fault}
use airspyhf.Usb.{VendorRequest, Call, control_in, Response, Host}
use airspyhf.Driver.{World}
use airspyhf.Driver.Commands.{att_index}
use airspyhf.Driver.Text.{filled, version_string_read, copy_text}
use airspyhf.Driver.Text.Laws.{version_string_read_overrun}
use airspyhf.Driver.Flash.{FlashConfig, config_block, config_bytes, load_config, config_of}
use airspyhf.Driver.Flash.Laws.{Fits, configured, load_config-restores}
use airspyhf.Fixed.{fixed}
use airspyhf.Driver.Tests.{good_host, whole_number, test_device, answer_well}

-- 7 dB asks for the step of 12 dB.
att_index_12 : att_index good_host test_device.supported_att_steps 3 (whole_number 7) ≡ 2
unfolding att_index first_index
att_index_12 = refl

-- the firmware's text "R3" on a stack of ones
abbrev named_host : Host
named_host = record {
  floats = fixed;
  respond = λ log c. record { result = pos 2; payload = b'R' ∷ b'3' ∷ [] };
  callbacks = λ log. [];
  ends = λ log t. true;
}

abbrev ones : List ℕ
ones = replicate 64 1

abbrev named_world : World named_host
named_world = record { device = test_device; log = [] }

version_runs : (version_string_read named_host ones 4 named_world).0 ≡ ok (b'R' ∷ b'3' ∷ 1 ∷ 0 ∷ [])
unfolding version_string_read copy_text filled
version_runs = refl

asked_world : World named_host
asked_world = (version_string_read named_host ones 4 named_world).1

-- `airspyhf_info` asks for 255 characters.
version_string_read_overrun_example :
    (version_string_read named_host ones 255 named_world).0 ≡ fault
version_string_read_overrun_example =
    version_string_read_overrun named_host ones 255 2 named_world refl (omega arith) refl
      (omega arith)

-- a host whose flash has the configuration of the test device
abbrev flashed : FlashConfig
flashed = config_of good_host test_device

abbrev answer_flash : Call → Response
answer_flash (control_in VendorRequest.config_read _ _ _) = record {
  result = pos 256;
  payload = config_block (config_bytes flashed);
}
answer_flash c = answer_well c

abbrev flash_host : Host
flash_host = record {
  floats = fixed;
  respond = λ log c. answer_flash c;
  callbacks = λ log. [];
  ends = λ log t. true;
}

abbrev blank_world : World flash_host
blank_world = record {
  device = record test_device {
    calibration_ppb = pos 9;
    calibration_vctcxo = pos 9;
    frontend_options = 9;
  };
  log = [];
}

flashed-Fits : Fits flashed
unfolding config_of
flashed-Fits = omega arith

load_config-restores_example :
    ((load_config flash_host [] blank_world).0 ≡ ok tt)
    × ((load_config flash_host [] blank_world).1.device
        ≡ configured flash_host flashed blank_world.device)
unfolding config_of
load_config-restores_example =
    load_config-restores flash_host flashed [] 700 blank_world flashed-Fits refl refl (omega arith)
      refl
