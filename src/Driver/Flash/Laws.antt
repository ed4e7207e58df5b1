-- ===== src/Driver/Flash/Laws.antt =====
-- The configuration in the flash of the device: what is written is what is taken over.
use airspyhf.Prelude.{
  ℕ, ◌^◌, ◌<◌, ◌≡◌, refl, ap, ◌∙◌, true, false, List, [], ◌∷◌, ◌++◌, arith, take,
}
use airspyhf.Prelude.Int.{ℤ, pos, negsuc}
use airspyhf.Prelude.Words.{be_word-bytes, le_bytes, signed32, pattern32, signed32-pattern32}
use airspyhf.Prelude.Outcome.{ok, fail, error}
use airspyhf.Usb.{VendorRequest, Call, control_in, control_out, Host}
use airspyhf.Stream.{is_streaming}
use airspyhf.Driver.{Device, World}
use airspyhf.Driver.Commands.{set_vctcxo_calibration, set_frontend_options}
use airspyhf.Driver.Text.{filled}
use airspyhf.Driver.Flash.{
  calibration_magic, FlashConfig, config_bytes, config_of_bytes, config_block, config_read,
  config_of, flash_configuration, adopt_config, load_config,
}

abbrev Int32 : ℤ → Type 0
Int32 (pos n) = n < 2147483648
Int32 (negsuc n) = n < 2147483648

-- The fields of a configuration fit their types.
pub record Fits (c : FlashConfig) : Type 0 where
  pub magic : c.magic_number < 4294967296
  pub ppb : Int32 c.calibration_ppb
  pub vctcxo : Int32 c.calibration_vctcxo
  pub options : c.frontend_options < 4294967296

signed32-of_pattern : (z : ℤ) → Int32 z → signed32 (pattern32 z) ≡ z
signed32-of_pattern (pos n) h = (signed32-pattern32 n h).0
signed32-of_pattern (negsuc n) h = (signed32-pattern32 n h).1

pattern32-lt : (z : ℤ) → pattern32 z < 4294967296
pattern32-lt (pos n) = omega arith
pattern32-lt (negsuc n) = omega arith

-- A configuration is read back from its bytes, and from a block that begins with them.
pub config_of_bytes-bytes :
    (c : FlashConfig) (rest : List ℕ) → Fits c → config_of_bytes (config_bytes c ++ rest) ≡ c
unfolding config_of_bytes config_bytes le_bytes
config_of_bytes-bytes c rest f = λ i. record {
  magic_number = be_word-bytes c.magic_number f.magic i;
  calibration_ppb =
      (ap signed32 (be_word-bytes (pattern32 c.calibration_ppb) (pattern32-lt c.calibration_ppb))
          ∙ signed32-of_pattern c.calibration_ppb f.ppb)
        i;
  calibration_vctcxo =
      (ap signed32
            (be_word-bytes (pattern32 c.calibration_vctcxo) (pattern32-lt c.calibration_vctcxo))
          ∙ signed32-of_pattern c.calibration_vctcxo f.vctcxo)
        i;
  frontend_options = be_word-bytes c.frontend_options f.options i;
}

-- The first sixteen bytes of an answer that is a written block are the bytes that were written.
block-read :
    (c : FlashConfig) (stale : List ℕ)
    → take 16 (filled 256 (config_block (config_bytes c)) stale) ≡ config_bytes c ++ []
unfolding filled config_block config_bytes le_bytes
block-read c stale = refl

module _ (H : Host) where
  abbrev pub read_call : Call
  read_call = control_in VendorRequest.config_read 0 0 256

  abbrev pub write_call : FlashConfig → Call
  write_call c = control_out VendorRequest.config_write 0 0 (config_block (config_bytes c))

  -- the device with the values of a configuration
  abbrev pub configured : FlashConfig → Device H.floats → Device H.floats
  configured c d = record d {
    calibration_ppb = c.calibration_ppb;
    calibration_vctcxo = c.calibration_vctcxo;
    frontend_options = c.frontend_options;
  }

  adopt_config-configured :
      (c : FlashConfig) (n : ℕ) (w : World H)
      → c.magic_number ≡ calibration_magic
      → c.calibration_vctcxo ≡ pos n
      → n < 65536
      → ((adopt_config H c w).0 ≡ ok tt) × ((adopt_config H c w).1.device ≡ configured c w.device)
  unfolding adopt_config set_vctcxo_calibration set_frontend_options
  adopt_config-configured c n w magic vctcxo small = ground arith

  -- A device whose flash answers with the block that was written has the calibration, the VCTCXO value
  -- (one of sixteen bits) and the front end options of the block when it has been opened, even if the
  -- requests that pass the last two on fail; no other field of the record is changed.
  pub load_config-restores :
      (c : FlashConfig) (stale : List ℕ) (n : ℕ) (w : World H)
      → Fits c
      → c.magic_number ≡ calibration_magic
      → c.calibration_vctcxo ≡ pos n
      → n < 65536
      → H.respond w.log read_call
        ≡ record { result = pos 256; payload = config_block (config_bytes c) }
      → ((load_config H stale w).0 ≡ ok tt)
        × ((load_config H stale w).1.device ≡ configured c w.device)
  unfolding load_config
  load_config-restores c stale n w f magic vctcxo small answer =
      rw (answer, block-read c stale, config_of_bytes-bytes c [] f)
        (adopt_config-configured c n (record w { log = read_call ∷ w.log }) magic vctcxo small)

  -- A configuration is written only while the stream is stopped, by one request that has the block of
  -- the device's calibration and options; while the stream runs there is no request at all.
  flash_configuration-log :
      (w : World H)
      → (is_streaming w.device.stream ≡ true → flash_configuration H w ≡ (fail error, w))
        × (is_streaming w.device.stream ≡ false
            → (flash_configuration H w).1
              ≡ record w { log = write_call (config_of H w.device) ∷ w.log })
  unfolding flash_configuration
  flash_configuration-log w = (λ runs. rw runs, λ stopped. ground arith)

  -- A failure of libusb to read the flash, a negative number, is not seen: the configuration is then
  -- whatever the stack held.
  config_read_unreported :
      (stale : List ℕ) (n : ℕ) (w : World H)
      → (H.respond w.log read_call).result ≡ negsuc n
      → (H.respond w.log read_call).payload ≡ []
      → n < 2 ^ 31
      → (config_read H stale 16 w).0 ≡ ok (take 16 (take 256 stale))
  unfolding config_read filled
  config_read_unreported stale n w failed nothing small = ground arith
