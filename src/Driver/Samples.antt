-- ===== src/Driver/Samples.antt =====
-- The arithmetic on blocks of samples in libairspyhf/src/airspyhf.c: the conversion to floats and the
-- fine tuning of `convert_samples`.
pub mod Converted
pub mod Scaled
use airspyhf.Prelude.{
  Option, some, ◌==◌, ℕ, true, false, ◌≡◌, refl, ◌∙◌, List, [], ◌∷◌, ◌++◌, length, take, drop,
  length-take, ◌<◌, ◌≤◌, arith, if◌then◌else◌, Bool-cases, inl, inr,
}
use airspyhf.Prelude.Int.{ℤ, pos, negsuc}
use airspyhf.Floats.{Floats}
use airspyhf.Prelude.Checked.{
  ◌>>=◌, read, write, for_up, Ensures, >>=-Ensures, Ensures-weaken, read-Ensures, for_up-Ensures,
  write-Keeps, append-Keeps,
}
use airspyhf.Balancer.{Complex, Balancer}
use airspyhf.Balancer.Process.{process}
use airspyhf.Balancer.Sound.{IsSound}
use airspyhf.Balancer.Sound.Process.{process-IsSound}
use airspyhf.Driver.{Device}

module _ (F : Floats) where
  open F use {Float, Double}

  unfoldable pub multiply_complex_complex : Complex Float → Complex Float → Complex Float
  multiply_complex_complex a b = record {
    re = F.subf (F.mulf a.re b.re) (F.mulf a.im b.im);
    im = F.addf (F.mulf a.im b.re) (F.mulf a.re b.im);
  }

  unfoldable pub multiply_complex_real : Complex Float → Float → Complex Float
  multiply_complex_real a b = record { re = F.mulf a.re b; im = F.mulf a.im b }

  -- a turn, and a step of the norm towards 1
  unfoldable pub rotate_complex : Complex Float → Complex Float → Complex Float
  rotate_complex vec rot =
      let turned = multiply_complex_complex vec rot in
      let norm =
        F.subf (F.litf (pos 199) (negsuc 1))
          (F.addf (F.mulf turned.re turned.re) (F.mulf turned.im turned.im)) in
      multiply_complex_real turned norm

  -- `conversion_gain`
  unfoldable pub conversion_gain : Float → Float
  conversion_gain filter_gain =
      F.mulf (F.divf (F.litf (pos 1) (pos 0)) (F.of_intf (pos 32768))) filter_gain

  unfoldable pub scale_sample : Float → Complex ℤ → Complex Float
  scale_sample gain s = record {
    re = F.mulf (F.of_intf s.re) gain;
    im = F.mulf (F.of_intf s.im) gain;
  }

  unfoldable pub scale_round :
      Float → List (Complex ℤ) → ℕ → List (Complex Float) → Option (List (Complex Float))
  scale_round gain src i dest = read src i >>= λ s. write dest i (scale_sample gain s)

  -- the first loop of `convert_samples`, from the array `src` into the array `dest`
  unfoldable pub scale_samples :
      Float → List (Complex ℤ) → List (Complex Float) → ℕ → Option (List (Complex Float))
  unfolding scale_round
  scale_samples gain src dest count = for_up (scale_round gain src) 0 count dest

  -- the loop of the fine tuning: the samples, and the vector that is kept for the next block
  unfoldable pub mix :
      Complex Float → Complex Float → List (Complex Float) → List (Complex Float) × Complex Float
  mix rot vec [] = ([], vec)
  mix rot vec (s ∷ samples) =
      let turned = rotate_complex vec rot in
      let (rest, last) = mix rot turned samples in (multiply_complex_complex s turned ∷ rest, last)

  -- `rot`, for a literal `pi` of the C library
  unfoldable pub rotation : (pi shift : Double) (samplerate : ℕ) → Complex Float
  rotation pi shift samplerate =
      let angle =
        F.div (F.mul (F.mul (F.lit (pos 2) (pos 0)) pi) shift) (F.of_int (pos samplerate)) in
      record { re = F.narrow (F.cos angle); im = F.narrow (F.neg (F.sin angle)) }

  -- "Fine tuning" of one block by a device
  unfoldable pub fine_tune :
      Double → Device F → List (Complex Float) → List (Complex Float) × Device F
  fine_tune pi d samples =
      let (mixed, last) = mix (rotation pi d.freq_shift d.current_samplerate) d.vec samples in
      if F.eq d.freq_shift (F.of_int (pos 0))
      then (samples, d)
      else (mixed, record d { vec = last })

  -- Zero IF requires external IQ correction
  unfoldable pub correct_iq :
      Device F → List (Complex Float) → Option (List (Complex Float) × Device F)
  correct_iq d samples =
      let processed =
        process F d.iq_balancer samples false >>= λ r. some (r.0, record d { iq_balancer = r.1 }) in
      if d.is_low_if == 0 then processed else some (samples, d)

  -- what the DSP does with the first `count` samples of the array
  unfoldable pub correct_and_tune :
      Double → Device F → List (Complex Float) → ℕ → Option (List (Complex Float) × Device F)
  correct_and_tune pi d dest count = correct_iq d (take count dest) >>= λ r.
      let (tuned, e) = fine_tune pi r.1 r.0 in some (tuned ++ drop count dest, e)

  -- `convert_samples`: the array `dest` with the samples, and the device. A null pointer is an array of no
  -- elements.
  unfoldable pub convert_samples :
      Double
      → Device F
      → List (Complex ℤ)
      → List (Complex Float)
      → ℕ
      → Option (List (Complex Float) × Device F)
  unfolding correct_and_tune
  convert_samples pi d src dest count =
      scale_samples (conversion_gain d.filter_gain) src dest count >>= λ scaled.
      if d.enable_dsp == 0 then some (scaled, d) else correct_and_tune pi d scaled count

  mix-append :
      (rot vec : Complex Float) (xs ys : List (Complex Float))
      → mix rot vec (xs ++ ys) ≡ (
        (mix rot vec xs).0 ++ (mix rot (mix rot vec xs).1 ys).0,
        (mix rot (mix rot vec xs).1 ys).1,
      )
  unfolding mix
  mix-append rot vec [] ys = refl
  mix-append rot vec (x ∷ xs) ys = rw (mix-append rot (rotate_complex vec rot) xs ys)

  fine_tune_off :
      (pi : Double) (d : Device F) (samples : List (Complex Float))
      → F.eq d.freq_shift (F.of_int (pos 0)) ≡ true
      → fine_tune pi d samples ≡ (samples, d)
  unfolding fine_tune
  fine_tune_off pi d samples off = rw off refl

  fine_tune_on :
      (pi : Double) (d : Device F) (samples : List (Complex Float))
      → F.eq d.freq_shift (F.of_int (pos 0)) ≡ false
      → fine_tune pi d samples ≡ (
        (mix (rotation pi d.freq_shift d.current_samplerate) d.vec samples).0,
        record d { vec = (mix (rotation pi d.freq_shift d.current_samplerate) d.vec samples).1 },
      )
  unfolding fine_tune
  fine_tune_on pi d samples on = rw on refl

  -- Fine tuning does not see where blocks end: two blocks one after the other give the samples and the
  -- device that the blocks in one give.
  pub fine_tune-append :
      (pi : Double) (d : Device F) (xs ys : List (Complex Float))
      → fine_tune pi d (xs ++ ys) ≡ (
        (fine_tune pi d xs).0 ++ (fine_tune pi (fine_tune pi d xs).1 ys).0,
        (fine_tune pi (fine_tune pi d xs).1 ys).1,
      )
  fine_tune-append pi d xs ys = elim (Bool-cases (F.eq d.freq_shift (F.of_int (pos 0)))) [
    | inl off ↦
        rw (fine_tune_off pi d (xs ++ ys) off, fine_tune_off pi d xs off)
          (rw (fine_tune_off pi d ys off) refl)
    | inr on ↦
        let rot = rotation pi d.freq_shift d.current_samplerate in
        let last = (mix rot d.vec xs).1 in
        rw (fine_tune_on pi d (xs ++ ys) on, fine_tune_on pi d xs on)
          (rw (fine_tune_on pi (record d { vec = last }) ys on, mix-append rot d.vec xs ys) refl)
  ]
