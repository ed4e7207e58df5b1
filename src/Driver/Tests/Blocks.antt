-- ===== src/Driver/Tests/Blocks.antt =====
-- Two blocks of samples through the conversion and the fine tuning of the test device.
use airspyhf.Prelude.{map, take, drop, arith, ◌≡◌, refl, List, [], ◌∷◌, ◌++◌, none, some, false}
use airspyhf.Prelude.Int.{ℤ, pos, negsuc, ◌-ℤ◌}
use airspyhf.Balancer.{Complex, clamp_point}
use airspyhf.Driver.{Device}
use airspyhf.Driver.Samples.{
  multiply_complex_complex, scale_sample, scale_round, scale_samples, fine_tune, fine_tune-append,
  convert_samples,
}
use airspyhf.Driver.Samples.Scaled.{scale_samples-scaled}
use airspyhf.Driver.Samples.Converted.{IsConverted, convert_samples-IsConverted}
use airspyhf.Driver.Settings.Session.{
  Use, pointed, configured, switched, session, block_lengths, AreConverted, session-AreConverted,
}
use airspyhf.Driver.Tests.{test_device, whole_number}
use airspyhf.Balancer.Tests.{quiet, new_balancer, new_balancer-IsSound}
use airspyhf.Prelude.Checked.{write, for_up, Ensures}
use airspyhf.Fixed.{fixed}

-- 5 kHz off, with a vector of (0, 1)
abbrev shifted_device : Device fixed
shifted_device = record test_device {
  freq_shift = whole_number 5000;
  vec = record { re = pos 0; im = whole_number 1 };
}

abbrev raw_block : List (Complex ℤ)
raw_block = record { re = pos 16384; im = negsuc 3 } ∷ record { re = pos 8; im = pos 0 } ∷ []

abbrev block : List (Complex ℤ)
block = record { re = pos 1; im = pos 2 } ∷ []

-- (1 + 2i)(3 - i) = 5 + 5i
multiply_test :
    multiply_complex_complex fixed
      (record { re = whole_number 1; im = whole_number 2 })
      (record { re = whole_number 3; im = negsuc 999999999999 })
    ≡ record { re = whole_number 5; im = whole_number 5 }
unfolding multiply_complex_complex
multiply_test = refl

fine_tune-append_example : fine_tune fixed (whole_number 3) shifted_device (block ++ block) ≡ (
  (fine_tune fixed (whole_number 3) shifted_device block).0
      ++ (fine_tune fixed
          (whole_number 3)
          (fine_tune fixed (whole_number 3) shifted_device block).1
          block).0,
  (fine_tune fixed
      (whole_number 3)
      (fine_tune fixed (whole_number 3) shifted_device block).1
      block).1,
)
fine_tune-append_example = fine_tune-append fixed (whole_number 3) shifted_device block block

-- three places, for two samples
abbrev output : List (Complex ℤ)
output = record { re = pos 7; im = pos 7 } ∷ block ++ block

scale_test :
    scale_samples fixed (whole_number 1) raw_block output 2
    ≡ some (
        record { re = whole_number 16384; im = whole_number 0 -ℤ whole_number 4 }
        ∷ record { re = whole_number 8; im = pos 0 }
        ∷ block)
unfolding scale_samples scale_round write for_up scale_sample ◌-ℤ◌
scale_test = refl

scale_samples-scaled_example :
    scale_samples fixed (whole_number 1) raw_block output 2
    ≡ some (map (scale_sample fixed (whole_number 1)) (take 2 raw_block) ++ drop 2 output)
scale_samples-scaled_example =
    scale_samples-scaled fixed (whole_number 1) raw_block output 2 (omega arith) (omega arith)

-- a null pointer
null_test : scale_samples fixed (whole_number 1) raw_block [] 2 ≡ none
unfolding scale_samples scale_round write for_up
null_test = refl

-- in Zero IF, so that the balancer is at work
abbrev zero_if_device : Device fixed
zero_if_device = record shifted_device { iq_balancer = new_balancer }

convert_samples-IsConverted_example :
    Ensures
      (IsConverted fixed 2 output)
      (convert_samples fixed (whole_number 3) zero_if_device raw_block output 2)
convert_samples-IsConverted_example =
    convert_samples-IsConverted fixed (whole_number 3) zero_if_device raw_block output 2
      (omega arith) (omega arith) new_balancer-IsSound

-- a point of 0.25, eight transforms with an overlap of four, and blocks with the DSP on and off
abbrev uses : List (Use fixed)
uses =
    pointed (pos 250000000000)
    ∷ Use.block raw_block output 2
    ∷ configured (pos 1) (pos 8) (pos 4) (pos 3)
    ∷ Use.block block output 1
    ∷ switched 0
    ∷ Use.block raw_block output 2
    ∷ []

session-AreConverted_example :
    Ensures
      (AreConverted fixed (whole_number 3) (3 ∷ 3 ∷ 3 ∷ []))
      (session fixed (whole_number 3) uses zero_if_device)
unfolding block_lengths clamp_point new_balancer
session-AreConverted_example =
    session-AreConverted fixed (whole_number 3) uses zero_if_device (pos 60000000)
      (negsuc 4499999999) (λ i. false) (λ i. quiet) (λ i. quiet) (λ i. quiet) (λ i. pos 0) refl
      (
        (3072, refl, omega arith),
        (
          (omega arith, omega arith),
          (
            (8, 3, 3, refl, refl, refl, omega arith, omega arith, omega arith),
            ((omega arith, omega arith), (tt, ((omega arith, omega arith), tt))),
          ),
        ),
      )
