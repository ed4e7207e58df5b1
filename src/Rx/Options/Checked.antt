-- ===== src/Rx/Options/Checked.antt =====
-- What holds of the options that tools/src/airspyhf_rx.c goes on with.
use airspyhf.Prelude.{
  ℕ, ◌≤◌, ◌<◌, ◌≡◌, refl, ◌⊎◌, inl, inr, Option, none, some, List, [], ◌∷◌, arith, leb, Bool-cases,
}
use airspyhf.Prelude.Int.{ℤ}
use airspyhf.Prelude.Words.{pattern32}
use airspyhf.Prelude.Checked.{Allows, >>=-Allows, Allows-any}
use airspyhf.Floats.{Floats}
use airspyhf.Rx.Numbers.{parse_u64, parse_u32}
use airspyhf.Rx.Options.{
  Given, given_r, given_s, given_f, given_a, given_n, given_g, given_l, given_t, given_m, given_w,
  given_d, given_h, given_z, given_unknown, Options, default_options, Texts, is_receivable,
  set_freq_option, set_att_option, read_option, read_options, check_freq, choose_path,
  check_options, command_line, samples_to_xfer_max,
}

-- a frequency on short wave or on VHF, as the usage text has it
abbrev pub InRange : ℕ → Type 0
InRange hz = ((9000 ≤ hz) × (hz ≤ 31000000)) ⊎ ((60000000 ≤ hz) × (hz ≤ 260000000))

-- options that passed
pub record AreChecked (o : Options) : Type 0 where
  pub freq_range : InRange o.freq_hz
  pub few_samples : o.samples_to_xfer < samples_to_xfer_max
  pub att_range : o.hf_att_val ≤ 8

-- the attenuator is checked when it is read
abbrev AttInRange : Options → Type 0
AttInRange o = o.hf_att_val ≤ 8

set_att_option-AttInRange :
    (value : Option ℤ) (o : Options) → AttInRange o → Allows AttInRange (set_att_option value o)
unfolding set_att_option
set_att_option-AttInRange none o h = h
set_att_option-AttInRange (some value) o h = elim (Bool-cases (leb (pattern32 value) 8)) [
  | inl le ↦ rw le (ground arith)
  | inr gt ↦ rw gt tt
]

abbrev FreqInRange : Options → Options → Type 0
FreqInRange o p =
    InRange p.freq_hz × (p.samples_to_xfer ≡ o.samples_to_xfer) × (p.hf_att_val ≡ o.hf_att_val)

check_freq-InRange : (o : Options) → Allows (FreqInRange o) (check_freq o)
unfolding check_freq is_receivable
check_freq-InRange o = elim (Bool-cases o.freq) [
  | inl given ↦ elim (Bool-cases (is_receivable o.freq_hz)) [
    | inl inside ↦ rw (given, inside) (ground arith, refl, refl)
    | inr outside ↦ rw (given, outside) tt
  ]
  | inr absent ↦ rw absent (inl (omega arith, omega arith), refl, refl)
]

module _ (F : Floats) where
  set_freq_option-AttInRange :
      (freq : Option F.Float) (o : Options) → AttInRange o → AttInRange (set_freq_option F freq o)
  unfolding set_freq_option
  set_freq_option-AttInRange none o h = h
  set_freq_option-AttInRange (some freq) o h = h

module _ (F : Floats) (texts : Texts F) where
  read_option-AttInRange :
      (g : Given) (o : Options) → AttInRange o → Allows AttInRange (read_option F texts g o)
  unfolding read_option
  read_option-AttInRange (given_r text) o h = h
  read_option-AttInRange given_w o h = h
  read_option-AttInRange (given_s text) o h =
      >>=-Allows (λ n. Unit {0}) AttInRange (parse_u64 texts.strtoull text) _
        (Allows-any (parse_u64 texts.strtoull text)) (λ n _. h)
  read_option-AttInRange (given_f text) o h =
      set_freq_option-AttInRange F (texts.scan_float text) o h
  read_option-AttInRange (given_a text) o h =
      >>=-Allows (λ n. Unit {0}) AttInRange (parse_u32 texts.strtoul text) _
        (Allows-any (parse_u32 texts.strtoul text)) (λ n _. h)
  read_option-AttInRange (given_n text) o h =
      >>=-Allows (λ n. Unit {0}) AttInRange (parse_u64 texts.strtoull text) _
        (Allows-any (parse_u64 texts.strtoull text)) (λ n _. h)
  read_option-AttInRange (given_g text) o h = ground arith
  read_option-AttInRange (given_l text) o h = ground arith
  read_option-AttInRange (given_t text) o h = set_att_option-AttInRange (texts.scan_int text) o h
  read_option-AttInRange (given_m text) o h = ground arith
  read_option-AttInRange given_d o h = h
  read_option-AttInRange given_h o h = tt
  read_option-AttInRange given_z o h = h
  read_option-AttInRange given_unknown o h = tt

  read_options-AttInRange :
      (given : List Given) (o : Options)
      → AttInRange o
      → Allows AttInRange (read_options F texts given o)
  unfolding read_options
  read_options-AttInRange [] o h = h
  read_options-AttInRange (g ∷ given) o h =
      >>=-Allows AttInRange AttInRange (read_option F texts g o) _ (read_option-AttInRange g o h)
        (λ p k. read_options-AttInRange given p k)

  check_options-AreChecked :
      (o : Options) → AttInRange o → Allows (λ r. AreChecked r.0) (check_options F texts o)
  unfolding check_options
  check_options-AreChecked o h = elim (Bool-cases (leb samples_to_xfer_max o.samples_to_xfer)) [
    | inl many ↦ rw many tt
    | inr few ↦ rw few (
        >>=-Allows (FreqInRange o) (λ r. AreChecked r.0) (check_freq o) _ (check_freq-InRange o)
          (λ p k.
            >>=-Allows (λ path. Unit {0}) (λ r. AreChecked r.0) (choose_path F texts p) _
              (Allows-any (choose_path F texts p))
              (λ path _. record {
                freq_range = k.0;
                few_samples = ground (arith, k);
                att_range = omega (arith, k.2, h);
              })))
  ]

  -- Whatever is on the command line, if the tool goes on to open the device, then the frequency is one
  -- of short wave or VHF, fewer than 2^63 samples are asked for, and the attenuator is set to at most
  -- 8.
  pub command_line-AreChecked :
      (serial_number_val : ℕ) (given : List Given)
      → Allows (λ r. AreChecked r.0) (command_line F texts serial_number_val given)
  unfolding command_line default_options
  command_line-AreChecked serial_number_val given =
      >>=-Allows AttInRange (λ r. AreChecked r.0)
        (read_options F texts given (default_options serial_number_val)) _
        (read_options-AttInRange given (default_options serial_number_val) (omega arith))
        check_options-AreChecked
