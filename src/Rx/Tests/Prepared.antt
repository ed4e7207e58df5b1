-- ===== src/Rx/Tests/Prepared.antt =====
-- The receiver of tools/src/airspyhf_rx.c on the test device of the driver, and options that it takes.
use airspyhf.Prelude.{ℕ, ◌≡◌, refl, true, false, some, List, [], ◌∷◌}
use airspyhf.Prelude.Int.{pos}
use airspyhf.Prelude.Checked.{Allows}
use airspyhf.Fixed.{fixed}
use airspyhf.Driver.{World}
use airspyhf.Driver.Tests.{good_host, good_world, whole_number}
use airspyhf.Rx.Options.{
  Given, Options, Texts, default_options, given_f, given_n, given_r, given_t, command_line,
  read_options, read_option, set_freq_option, set_att_option, hz_of_mhz, is_receivable,
  check_options, check_freq, choose_path,
}
use airspyhf.Rx.Options.Checked.{AreChecked, command_line-AreChecked}
use airspyhf.Rx.Numbers.{parse_u64, base_of, is_whole}
use airspyhf.Rx.Setup.{FileAnswers, prepare}
use airspyhf.Rx.Waiting.{Round, wait}
use airspyhf.Rx.Setup.Receives.{Receives}

options : Options
options = record (default_options 0) { freq_hz = 7100000 }

abbrev good_file : FileAnswers
good_file = record { opened = true; buffered = true }

prepared_world : World good_host
prepared_world = (prepare good_host options good_file good_world).1

-- 16 bytes are left, then none, and then the loop is left
abbrev three_rounds : List Round
three_rounds =
    record { streaming = true; cancelled = false; bytes_to_xfer = 16 }
    ∷ record { streaming = true; cancelled = false; bytes_to_xfer = 0 }
    ∷ record { streaming = true; cancelled = false; bytes_to_xfer = 0 }
    ∷ []

leaves_test : wait true false three_rounds ≡ some true
unfolding wait
leaves_test = refl

-- a library that reads 7.1 for every number in MHz, 8 for every whole number, and 1000 to the end else
abbrev texts : Texts fixed
texts = record {
  strtoull = λ s base. (1000, []);
  strtoul = λ s base. (1000, []);
  scan_float = λ s. some (whole_number 7);
  scan_int = λ s. some (pos 8);
  wav_name = λ khz. khz ∷ [];
}

abbrev command_line_of : List ℕ → List Given
command_line_of name = given_r name ∷ given_f (55 ∷ []) ∷ given_n (49 ∷ []) ∷ given_t (56 ∷ []) ∷ []

-- seven MHz are in the range, and the path is the one that was given
command_line_test :
    command_line fixed texts 5 (command_line_of (120 ∷ []))
    ≡ some (
      record (default_options 5) {
        receive = true;
        path = some (120 ∷ []);
        freq = true;
        freq_hz = 7000000;
        limit_num_samples = true;
        samples_to_xfer = 1000;
        hf_att_val = 8;
      },
      120 ∷ [],
    )
unfolding command_line read_options read_option default_options set_freq_option set_att_option
    hz_of_mhz is_receivable check_options check_freq choose_path parse_u64 base_of is_whole
command_line_test = refl

command_line-AreChecked_example :
    Allows (λ r. AreChecked r.0) (command_line fixed texts 5 (command_line_of (120 ∷ [])))
command_line-AreChecked_example = command_line-AreChecked fixed texts 5 (command_line_of (120 ∷ []))
