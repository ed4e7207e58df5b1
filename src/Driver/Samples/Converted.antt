-- ===== src/Driver/Samples/Converted.antt =====
-- The conversion of a block in libairspyhf/src/airspyhf.c keeps to its arrays: `convert_samples`.
use airspyhf.Prelude.{
  ◌==◌, ℕ, false, ◌≡◌, refl, ◌∙◌, List, [], ◌∷◌, length, take, drop, length-take, ◌<◌, ◌≤◌, arith,
  Bool-cases, inl, inr,
}
use airspyhf.Prelude.Int.{ℤ}
use airspyhf.Floats.{Floats}
use airspyhf.Prelude.Checked.{
  read, Ensures, >>=-Ensures, Ensures-weaken, read-Ensures, for_up-Ensures, write-Keeps,
  append-Keeps,
}
use airspyhf.Balancer.{Complex, Balancer}
use airspyhf.Balancer.Process.{process}
use airspyhf.Balancer.Sound.{IsSound}
use airspyhf.Balancer.Sound.Process.{process-IsSound}
use airspyhf.Driver.{Device}
use airspyhf.Driver.Samples.{
  conversion_gain, scale_sample, scale_round, scale_samples, mix, rotation, rotate_complex,
  fine_tune, correct_iq, correct_and_tune, convert_samples,
}

module _ (F : Floats) where
  open F use {Float, Double}

  length-mix :
      (rot vec : Complex Float) (samples : List (Complex Float))
      → length (mix F rot vec samples).0 ≡ length samples
  unfolding mix
  length-mix rot vec [] = refl
  length-mix rot vec (s ∷ samples) =
      omega (arith, length-mix rot (rotate_complex F vec rot) samples)

  length-fine_tune :
      (pi : Double) (d : Device F) (samples : List (Complex Float))
      → length (fine_tune F pi d samples).0 ≡ length samples
  unfolding fine_tune
  length-fine_tune pi d samples =
      ground (arith, length-mix (rotation F pi d.freq_shift d.current_samplerate) d.vec samples)

  fine_tune-iq_balancer :
      (pi : Double) (d : Device F) (samples : List (Complex Float))
      → (fine_tune F pi d samples).1.iq_balancer ≡ d.iq_balancer
  unfolding fine_tune
  fine_tune-iq_balancer pi d samples = ground arith

  -- a block of `n` samples, and a device whose balancer is sound
  abbrev IsCorrected : ℕ → List (Complex Float) × Device F → Type 0
  IsCorrected n r = (length r.0 ≡ n) × IsSound F r.1.iq_balancer

  correct_iq-IsCorrected :
      (d : Device F) (samples : List (Complex Float))
      → IsSound F d.iq_balancer
      → Ensures (IsCorrected (length samples)) (correct_iq F d samples)
  unfolding correct_iq
  correct_iq-IsCorrected d samples h = elim (Bool-cases (d.is_low_if == 0)) [
    | inl zero_if ↦ rw zero_if (
        >>=-Ensures
          (λ (r : List (Complex Float) × Balancer F). (length r.0 ≡ length samples) × IsSound F r.1)
          (IsCorrected (length samples)) (process F d.iq_balancer samples false) _
          (process-IsSound F d.iq_balancer samples false h) (λ r k. k))
    | inr low_if ↦ rw low_if (refl, h)
  ]

  -- The array keeps its length, and its elements from `count` on.
  abbrev pub Keeps : ℕ → (before after : List (Complex Float)) → Type 0
  Keeps count before after = (length after ≡ length before) × (drop count after ≡ drop count before)

  -- the array of the samples, as far as its length and its end go, and a device whose balancer is sound
  abbrev pub IsConverted : ℕ → List (Complex Float) → List (Complex Float) × Device F → Type 0
  IsConverted count dest r = Keeps count dest r.0 × IsSound F r.1.iq_balancer

  scale_round-Keeps :
      (gain : Float) (src : List (Complex ℤ)) (dest : List (Complex Float)) (count i : ℕ)
      (now : List (Complex Float))
      → i < count
      → count ≤ length src
      → count ≤ length dest
      → Keeps count dest now
      → Ensures (Keeps count dest) (scale_round F gain src i now)
  unfolding scale_round
  scale_round-Keeps gain src dest count i now below in_src in_dest (len, end) =
      >>=-Ensures (λ s. Unit {0}) (Keeps count dest) (read src i) _
        (read-Ensures src i (omega arith))
        (λ s u.
          write-Keeps now i count (scale_sample F gain s) dest below (omega (arith, len))
            (len, end))

  scale_samples-Keeps :
      (gain : Float) (src : List (Complex ℤ)) (dest : List (Complex Float)) (count : ℕ)
      → count ≤ length src
      → count ≤ length dest
      → Ensures (Keeps count dest) (scale_samples F gain src dest count)
  unfolding scale_samples
  scale_samples-Keeps gain src dest count in_src in_dest =
      for_up-Ensures (Keeps count dest) (scale_round F gain src) 0 count dest (refl, refl)
        (λ i now low below kept.
          scale_round-Keeps gain src dest count i now (omega arith) in_src in_dest kept)

  correct_and_tune-IsConverted :
      (pi : Double) (d : Device F) (dest : List (Complex Float)) (count : ℕ)
      → count ≤ length dest
      → IsSound F d.iq_balancer
      → Ensures (IsConverted count dest) (correct_and_tune F pi d dest count)
  unfolding correct_and_tune
  correct_and_tune-IsConverted pi d dest count fits h =
      >>=-Ensures (IsCorrected (length (take count dest))) (IsConverted count dest)
        (correct_iq F d (take count dest)) _ (correct_iq-IsCorrected d (take count dest) h)
        (λ r k.
          let same : length (fine_tune F pi r.1 r.0).0 ≡ count =
            omega (arith, length-fine_tune pi r.1 r.0, k.0, length-take count dest, fits) in
          (
            append-Keeps count (fine_tune F pi r.1 r.0).0 dest same fits,
            rw (fine_tune-iq_balancer pi r.1 r.0) k.1,
          ))

  -- If the balancer of a device is sound and neither array is shorter than the count, then the
  -- conversion comes to an end with no access outside of an array, in Low IF and Zero IF and with the
  -- DSP off; the array that is written to keeps its length and what is behind the count, and the
  -- balancer is sound again.
  pub convert_samples-IsConverted :
      (pi : Double) (d : Device F) (src : List (Complex ℤ)) (dest : List (Complex Float))
      (count : ℕ)
      → count ≤ length src
      → count ≤ length dest
      → IsSound F d.iq_balancer
      → Ensures (IsConverted count dest) (convert_samples F pi d src dest count)
  unfolding convert_samples
  convert_samples-IsConverted pi d src dest count in_src in_dest h =
      >>=-Ensures (Keeps count dest) (IsConverted count dest)
        (scale_samples F (conversion_gain F d.filter_gain) src dest count) _
        (scale_samples-Keeps (conversion_gain F d.filter_gain) src dest count in_src in_dest)
        (λ scaled kept. elim (Bool-cases (d.enable_dsp == 0)) [
          | inl off ↦ rw off (kept, h)
          | inr on ↦ rw on (
              Ensures-weaken (IsConverted count scaled) (IsConverted count dest)
                (correct_and_tune F pi d scaled count)
                (correct_and_tune-IsConverted pi d scaled count (omega (arith, kept.0)) h)
                (λ r k. ((k.0.0 ∙ kept.0, k.0.1 ∙ kept.1), k.1)))
        ])
