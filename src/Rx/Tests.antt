-- ===== src/Rx/Tests.antt =====
-- A run of the receiver of tools/src/airspyhf_rx.c: three samples out of two transfers of two.
mod Prepared
use airspyhf.Prelude.{
  none, ◌==◌, if◌then◌else◌, ℕ, ◌≡◌, refl, true, false, some, List, [], ◌∷◌, ◌++◌, length,
  replicate, arith,
}
use airspyhf.Prelude.Int.{pos}
use airspyhf.Prelude.Checked.{Ensures}
use airspyhf.Fixed.{fixed}
use airspyhf.Rx.{Timeval, Transfer, Globals, receive_all}
use airspyhf.Rx.Limit.{bytes_of, IsWhole, IsWritten, receive_all-IsWritten}
use airspyhf.Rx.Digits.{u64toa}
use airspyhf.Rx.Digits.Value.{IsTextOf, u64toa-IsTextOf}
use airspyhf.Rx.Numbers.{Strto, parse_u64, base_of, is_whole}
use airspyhf.Rx.Wav.{header_bytes, header_for, record_wav, record_wav-file}

abbrev two_samples : ℕ → Transfer
two_samples byte = record { samples = some (replicate 16 byte); sample_count = 2 }

abbrev noon : Timeval
noon = record { tv_sec = pos 43200; tv_usec = pos 0 }

abbrev two_blocks : List (Timeval × Transfer)
two_blocks = (noon, two_samples 1) ∷ (noon, two_samples 2) ∷ []

abbrev whole_samples : (byte : ℕ) → IsWhole (two_samples byte)
whole_samples byte = record {
  bytes = replicate 16 byte;
  samples_eq = refl;
  bytes_length = refl;
  bytes_lt = omega arith;
}

abbrev writer : List ℕ → List ℕ → ℕ
writer file bytes = length bytes

abbrev globals : Globals fixed
globals = record {
  fd = some [];
  limit_num_samples = true;
  bytes_to_xfer = 24;
  got_first_packet = false;
  time_start = noon;
  t_start = noon;
  average_rate = pos 0;
  global_average_rate = pos 0;
  rate_samples = 0;
  buffer_count = 0;
  sample_count = 0;
}

receive_all-IsWritten_example :
    Ensures
      (IsWritten fixed [] (bytes_of two_blocks) 24)
      (receive_all fixed writer two_blocks globals)
receive_all-IsWritten_example =
    receive_all-IsWritten fixed writer (λ file bytes. refl) two_blocks [] globals
      (whole_samples 1, (whole_samples 2, tt)) refl refl

record_wav-file_example :
    Ensures
      (λ file. file ≡ header_bytes (header_for 768000 24) ++ (replicate 16 1 ++ replicate 8 2))
      (record_wav writer fixed 3 768000 two_blocks globals)
record_wav-file_example =
    record_wav-file writer (λ file bytes. refl) fixed 3 768000 two_blocks globals (omega arith)
      (omega arith) (whole_samples 1, (whole_samples 2, tt))

-- a stand-in that reads no digit of "0b11", and all of "11" in base 2
abbrev reads_binary : Strto
reads_binary s base = if base == 2 then (3, []) else (0, s)

parse_u64_test : parse_u64 reads_binary (48 ∷ 98 ∷ 49 ∷ 49 ∷ []) ≡ some 3
unfolding parse_u64 base_of is_whole
parse_u64_test = refl

parse_u64_no_digits : parse_u64 reads_binary (49 ∷ 49 ∷ []) ≡ none
unfolding parse_u64 base_of is_whole
parse_u64_no_digits = refl

u64toa-IsTextOf_example : Ensures (IsTextOf 1204) (u64toa 1204 (replicate 32 7))
u64toa-IsTextOf_example = u64toa-IsTextOf 1204 (replicate 32 7) (omega arith) refl
