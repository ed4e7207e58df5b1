-- ===== src/Balancer/Transform/Spectrum.antt =====
-- `fft` of libairspyhf/src/iqbalancer.c, in place and iterative, against the recursive definition of the
-- transform.
use airspyhf.Prelude.{
  ℕ, suc, ◌+◌, ◌-◌, ◌^◌, ◌<◌, ◌≡◌, ap, ◌∙◌, some, List, arith, ltb, length, get_elem?,
  if◌then◌else◌,
}
use airspyhf.Prelude.Checked.{for_up, Ensures, >>=-Ensures, Ensures-weaken}
use airspyhf.Floats.{Floats}
use airspyhf.Balancer.{Complex}
use airspyhf.Balancer.Transform.{permute, stages, stage, swap_halves, fft}
use airspyhf.Balancer.Transform.Reversal.{lt-power}
use airspyhf.Balancer.Transform.Permute.{IsReversed, permute-IsReversed}
use airspyhf.Balancer.Transform.Ends.{stages-power}
use airspyhf.Balancer.Transform.Recursive.{transform}
use airspyhf.Balancer.Transform.Spectra.{samples, permuted-stages}
use airspyhf.Balancer.Transform.Halves.{shifted, IsShifted, swap_halves-IsShifted}

-- the frequency at place `k`, with frequency 0 in the middle of 2 * `h` places
abbrev pub centred : (h k : ℕ) → ℕ
centred h k = if ltb k h then k + h else k - h

shifted-centred : (h k : ℕ) → k < h + h → shifted h h k ≡ centred h k
shifted-centred h k hk = ground arith

module _ (F : Floats) (m : ℕ) (b : List (Complex F.Float)) where
  -- what the stages leave
  abbrev IsTransform : List (Complex F.Float) → Type 0
  IsTransform d =
      (length d ≡ 2 ^ suc m)
      × ((k : ℕ) → k < 2 ^ suc m → get_elem? d k ≡ some (transform F (suc m) (samples F b) k))

  -- the transform with its halves exchanged
  abbrev pub IsSpectrum : List (Complex F.Float) → Type 0
  IsSpectrum d =
      (length d ≡ 2 ^ suc m)
      × ((k : ℕ)
          → k < 2 ^ suc m
          → get_elem? d k ≡ some (transform F (suc m) (samples F b) (centred (2 ^ m) k)))

  swap_halves-IsSpectrum :
      (d : List (Complex F.Float)) → IsTransform d → Ensures IsSpectrum (swap_halves (2 ^ suc m) d)
  swap_halves-IsSpectrum d (len, values) =
      let two : 2 ^ suc m ≡ 2 ^ m + 2 ^ m = omega arith in
      Ensures-weaken (IsShifted (2 ^ m) d (2 ^ m)) IsSpectrum (swap_halves (2 ^ suc m) d)
        (swap_halves-IsShifted (2 ^ m) d (2 ^ suc m) two len)
        (λ c s. (
          s.0 ∙ omega arith,
          λ k hk.
              s.1 k (omega arith)
              ∙ ap (get_elem? d) (shifted-centred (2 ^ m) k (omega arith))
              ∙ values (centred (2 ^ m) k) (ground (arith, two)),
        ))

  -- On a buffer whose length is a power of two from 2 on, `fft` comes to an end with no access outside of
  -- the buffer, and each place has, bit for bit, the value of the recursive transform of the samples at
  -- the place's frequency, where the frequency 0 is in the middle.
  pub fft-IsSpectrum : length b ≡ 2 ^ suc m → Ensures IsSpectrum (fft F (2 ^ suc m) b)
  unfolding fft
  fft-IsSpectrum h =
      let n = 2 ^ suc m in
      let counted : stages n 0 n ≡ some (suc m) =
        stages-power (suc m) n 0 (lt-power (suc m)) ∙ ap some (omega arith) in
      rw counted (
        >>=-Ensures (IsReversed (suc m) b) IsSpectrum (permute n b) _ (permute-IsReversed m b h)
          (λ c k.
            >>=-Ensures IsTransform IsSpectrum (for_up (stage F n) 1 (suc m) c) (swap_halves n)
              (permuted-stages F (suc m) b c h k) swap_halves-IsSpectrum))
