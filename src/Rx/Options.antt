-- ===== src/Rx/Options.antt =====
-- The command line of tools/src/airspyhf_rx.c: the loop over the options in `main`, and the checks after
-- it. An `Option` that getopt gives is an argument, and so are the texts that `sscanf`, `strtoull`, `strtoul`
-- and `strftime` read and make.
pub mod Checked
use airspyhf.Prelude.{
  ℕ, ◌*◌, ◌/◌, ◌%◌, ◌^◌, Bool, true, false, not, ◌&&◌, ◌||◌, Option, none, some, List, [], ◌∷◌, ltb,
  leb, ◌==◌, if◌then◌else◌,
}
use airspyhf.Prelude.Int.{ℤ, pos}
use airspyhf.Prelude.Words.{pattern32}
use airspyhf.Prelude.Checked.{◌>>=◌}
use airspyhf.Floats.{Floats}
use airspyhf.Rx.Numbers.{Strto, parse_u64, parse_u32}

-- `!strcmp(a, b)`
unfoldable pub same_text : List ℕ → List ℕ → Bool
same_text [] [] = true
same_text [] (b ∷ bs) = false
same_text (a ∷ xs) [] = false
same_text (a ∷ xs) (b ∷ bs) = a == b && same_text xs bs

abbrev pub text_on : List ℕ
text_on = 111 ∷ 110 ∷ []

abbrev pub text_off : List ℕ
text_off = 111 ∷ 102 ∷ 102 ∷ []

abbrev pub text_high : List ℕ
text_high = 104 ∷ 105 ∷ 103 ∷ 104 ∷ []

-- What one call of getopt gives: the letter of the option, with its text where it has one.
pub data Given : Type 0 where
  given_r given_s given_f given_a given_n given_g given_l given_t given_m : List ℕ → Given
  given_w given_d given_h given_z given_unknown : Given

-- The variables of `main` and the globals that the options set. The flag `sample_rate` of `main` is true
-- from the start and stays so, so only the number is kept: `sample_rate_u32`, and `sample_rate_val`.
pub record Options : Type 0 where
  pub receive : Bool
  pub path : Option (List ℕ)
  pub receive_wav : Bool
  pub serial_number : Bool
  pub serial_number_val : ℕ
  pub freq : Bool
  pub freq_hz : ℕ
  pub sample_rate : ℕ
  pub limit_num_samples : Bool
  pub samples_to_xfer : ℕ
  pub hf_agc : Bool
  pub hf_agc_threshold : Bool
  pub hf_att_val : ℕ
  pub hf_lna : Bool
  pub verbose : Bool
  pub do_not_use_manual_commands : Bool

-- The values before the loop. `serial_number_val` is not initialised.
unfoldable pub default_options : (serial_number_val : ℕ) → Options
default_options serial_number_val = record {
  receive = false;
  path = none;
  receive_wav = false;
  serial_number = false;
  serial_number_val = serial_number_val;
  freq = false;
  freq_hz = 0;
  sample_rate = 768000;
  limit_num_samples = false;
  samples_to_xfer = 0;
  hf_agc = true;
  hf_agc_threshold = false;
  hf_att_val = 0;
  hf_lna = false;
  verbose = false;
  do_not_use_manual_commands = false;
}

-- SAMPLES_TO_XFER_MAX_U64, DEFAULT_FREQ_HZ
abbrev pub samples_to_xfer_max : ℕ
samples_to_xfer_max = 0x8000000000000000

abbrev pub default_freq_hz : ℕ
default_freq_hz = 7100000

-- The functions of the C library that read and make texts: `sscanf` gives none where it reads nothing.
pub record Texts (F : Floats) : Type 0 where
  pub strtoull : Strto
  pub strtoul : Strto
  pub scan_float : List ℕ → Option F.Float
  pub scan_int : List ℕ → Option ℤ
  -- the name for a frequency in kHz, with the date and the time in it
  pub wav_name : ℕ → List ℕ

-- the frequencies that the tool accepts
unfoldable pub is_receivable : ℕ → Bool
is_receivable freq_hz =
    leb 9000 freq_hz && leb freq_hz 31000000 || leb 60000000 freq_hz && leb freq_hz 260000000

-- `-t`: a text that is no number is passed over, and a number above 8 is refused. It is read by %d into an `unsigned`.
unfoldable pub set_att_option : Option ℤ → Options → Option Options
set_att_option none o = some o
set_att_option (some value) o =
    if leb (pattern32 value) 8 then some (record o { hf_att_val = pattern32 value }) else none

-- the frequency: a range where one is given, and else the default
unfoldable pub check_freq : Options → Option Options
check_freq o =
    if o.freq
    then (if is_receivable o.freq_hz then some o else none)
    else some (record o { freq_hz = default_freq_hz })

module _ (F : Floats) where
  open F use {Float, mulf, of_intf, widen, to_u32}

  -- freq_mhz_f * 1000000, as a `uint32_t`
  unfoldable pub hz_of_mhz : Float → ℕ
  hz_of_mhz freq_mhz = to_u32 (widen (mulf freq_mhz (of_intf (pos 1000000))))

  -- `-f`: a text that is no number is passed over
  unfoldable pub set_freq_option : Option Float → Options → Options
  set_freq_option none o = o
  set_freq_option (some freq_mhz) o = record o { freq = true; freq_hz = hz_of_mhz freq_mhz }

module _ (F : Floats) (texts : Texts F) where
  -- The body of the loop: none for `goto exit_usage`.
  unfoldable pub read_option : Given → Options → Option Options
  read_option (given_r text) o = some (record o { receive = true; path = some text })
  read_option given_w o = some (record o { receive_wav = true })
  read_option (given_s text) o = parse_u64 texts.strtoull text >>= λ n.
      some (record o { serial_number = true; serial_number_val = n })
  read_option (given_f text) o = some (set_freq_option F (texts.scan_float text) o)
  read_option (given_a text) o =
      parse_u32 texts.strtoul text >>= λ n. some (record o { sample_rate = n })
  read_option (given_n text) o = parse_u64 texts.strtoull text >>= λ n.
      some (record o { limit_num_samples = true; samples_to_xfer = n })
  read_option (given_g text) o =
      some (if same_text text text_off then record o { hf_agc = false } else o)
  read_option (given_l text) o =
      some (if same_text text text_high then record o { hf_agc_threshold = true } else o)
  read_option (given_t text) o = set_att_option (texts.scan_int text) o
  read_option (given_m text) o =
      some (if same_text text text_on then record o { hf_lna = true } else o)
  read_option given_d o = some (record o { verbose = true })
  read_option given_h o = none
  read_option given_z o = some (record o { do_not_use_manual_commands = true })
  read_option given_unknown o = none

  -- the loop
  unfoldable pub read_options : List Given → Options → Option Options
  read_options [] o = some o
  read_options (g ∷ given) o = read_option g o >>= λ p. read_options given p

  -- the path, which -w replaces
  unfoldable pub choose_path : Options → Option (List ℕ)
  choose_path o = if o.receive_wav then some (texts.wav_name (o.freq_hz / 1000)) else o.path

  -- The checks after the loop: the options and the path.
  unfoldable pub check_options : Options → Option (Options × List ℕ)
  check_options o = do
    p ← if leb samples_to_xfer_max o.samples_to_xfer then none else some o
    q ← check_freq p
    path ← choose_path q
    some (q, path)

  -- `main` up to the opening of the device: none for `exit_usage`
  unfoldable pub command_line : (serial_number_val : ℕ) → List Given → Option (Options × List ℕ)
  command_line serial_number_val given =
      read_options given (default_options serial_number_val) >>= λ o. check_options o
