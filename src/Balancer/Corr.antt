-- ===== src/Balancer/Corr.antt =====
-- libairspyhf/src/iqbalancer.c: `compute_corr`. An access outside of an array, and a division of
-- integers by zero, is `none`.
use airspyhf.Prelude.{
  ℕ, zero, suc, ◌+◌, ◌-◌, ◌*◌, ◌/◌, Bool, true, false, not, Option, none, some, List, ltb, ◌==◌,
  length, take, drop, if◌then◌else◌,
}
use airspyhf.Prelude.Int.{ℤ, pos, negsuc, ◌-ℤ◌, magnitude}
use airspyhf.Prelude.Checked.{◌>>=◌, read, write, for_up}
use airspyhf.Floats.{Floats}
use airspyhf.Balancer.{Complex, Balancer, fft_bins, edge_bins_to_skip}
use airspyhf.Balancer.Transform.{fft, window, fft_window, boost_window, turn, add_complex}
use airspyhf.Balancer.Correction.{adjust_benchmark, power_of}

-- the bins from EdgeBinsToSkip up to FFTBins - EdgeBinsToSkip
abbrev pub used_bins : ℕ
used_bins = fft_bins - 2 * edge_bins_to_skip + 1

-- the bin of the mirror image
abbrev pub mirror : ℕ → ℕ
mirror i = fft_bins - i

-- memcpy(fftPtr, iq + n, FFTBins * sizeof(complex_t))
unfoldable pub segment : {A : Type 0} → ℕ → List A → Option (List A)
segment n iq =
    let part = take fft_bins (drop n iq) in if length part == fft_bins then some part else none

-- n += FFTBins / fft_overlap: a fault where that divides by zero, and `some none` for an offset that
-- lies before the buffer
unfoldable pub next_offset : ℤ → ℕ → Option (Option ℕ)
next_offset (pos zero) n = none
next_offset (pos (suc k)) n = some (some (n + fft_bins / suc k))
next_offset (negsuc k) n =
    if ltb n (fft_bins / suc k) then some none else some (some (n - fft_bins / suc k))

-- fft_integration is the number of rounds, none if it is negative
abbrev pub rounds_of : ℤ → ℕ
rounds_of (pos n) = n
rounds_of (negsuc n) = 0

unfoldable pub equals : ℤ → ℕ → Bool
equals (pos n) m = n == m
equals (negsuc n) m = false

module _ (F : Floats) where
  open F use {Float, addf, subf, mulf, divf, litf, of_intf, ltf, widen, fabs, lt}

  abbrev pub zero_complex : Complex Float
  zero_complex = record { re = of_intf (pos 0); im = of_intf (pos 0) }

  -- step * PhaseStep, with AmplitudeStep the same, for a `step` of 0 or 1
  unfoldable pub step_size : (first : Bool) → Float
  step_size first = mulf (of_intf (pos (if first then 0 else 1))) (litf (pos 1) (negsuc 1))

  -- the bin of a product goes to its two places
  unfoldable pub correlate :
      List (Complex Float) → ℕ → List (Complex Float) → Option (List (Complex Float))
  correlate spectrum i ccorr = do
    a ← read spectrum i
    b ← read spectrum (mirror i)
    c ← read ccorr i
    first ← write ccorr i (add_complex F c (turn F a b))
    write first (mirror i) (add_complex F c (turn F a b))

  -- the weight of a bin by its distance from another one: `__boost_window[abs(...)]`
  unfoldable pub boost_at : ℤ → Option Float
  boost_at distance = read (boost_window F) (magnitude distance)

  -- One round of the loop over the powers: `boost`, and `integrated_image_power`.
  unfoldable pub boost_round :
      (optimal_bin : ℤ)
      → List (Complex Float)
      → ℕ
      → List Float × Float
      → Option (List Float × Float)
  boost_round optimal_bin spectrum i (boost, image) = do
    s ← read spectrum i
    old ← read boost i
    next ← write boost i (addf old (power_of F s))
    let weighted = boost_at (pos (mirror i) -ℤ optimal_bin) >>= λ w.
        some (next, addf image (mulf (power_of F s) w))
    if equals optimal_bin (fft_bins / 2) then some (next, addf image (power_of F s)) else weighted

  -- what `compute_corr` does with the power of a segment: MinimumPower is 0.01f
  unfoldable pub mark_power : (first : Bool) → ℕ → Float → Balancer F → Option (Balancer F)
  mark_power false m power b = some b
  mark_power true m power b =
      let strong = ltf (litf (pos 1) (negsuc 1)) power in
      write b.power_flag m strong >>= λ flags. some (
        if strong
        then record b {
          power_flag = flags;
          integrated_total_power = addf b.integrated_total_power power;
        }
        else record b { power_flag = flags })

  -- the powers of a segment, in the first of the two passes
  unfoldable pub add_powers :
      (first : Bool) → List (Complex Float) → Balancer F → Option (Balancer F)
  add_powers false spectrum b = some b
  add_powers true spectrum b =
      for_up (boost_round b.optimal_bin spectrum) edge_bins_to_skip used_bins
        (b.boost, b.integrated_image_power)
      >>= λ sums. some (record b { boost = sums.0; integrated_image_power = sums.1 })

  -- a segment that is strong enough
  unfoldable pub add_segment :
      (first : Bool)
      → List (Complex Float)
      → Balancer F
      → List (Complex Float)
      → Option (Balancer F × List (Complex Float))
  add_segment first samples b ccorr = do
    spectrum ← fft F fft_bins (window F (fft_window F) samples)
    sums ← for_up (correlate spectrum) edge_bins_to_skip used_bins ccorr
    c ← add_powers first spectrum b
    some (c, sums)

  -- One round: the balancer, `ccorr` and `count`.
  unfoldable pub corr_round :
      (first : Bool) (phase amplitude : Float)
      → List (Complex Float)
      → (m : ℕ) → Balancer F × List (Complex Float) × ℕ
      → Option (Balancer F × List (Complex Float) × ℕ)
  corr_round first phase amplitude samples m (b, ccorr, count) = do
    let (adjusted, power) = adjust_benchmark F samples phase amplitude (not first)
    c ← mark_power first m power b
    flag ← read c.power_flag m
    if flag
        then (add_segment first adjusted c ccorr >>= λ r. some (r.0, r.1, suc count))
        else some (c, ccorr, count)

  -- The loop of `compute_corr`, with `left` rounds to go before `m` reaches `fft_integration`.
  unfoldable pub corr_from :
      (first : Bool) (phase amplitude : Float) (length : ℕ)
      → List (Complex Float)
      → (m left : ℕ) → Option ℕ
      → Balancer F × List (Complex Float) × ℕ
      → Option (Balancer F × List (Complex Float) × ℕ)
  corr_from first phase amplitude length iq m zero n s = some s
  corr_from first phase amplitude length iq m (suc left) none s = none
  corr_from first phase amplitude length iq m (suc left) (some n) s =
      let round = do
        samples ← segment n iq
        t ← corr_round first phase amplitude samples m s
        next ← next_offset t.0.fft_overlap n
        corr_from first phase amplitude length iq (suc m) left next t
      in if ltb length (n + fft_bins) then some s else round

  -- `compute_corr`, where `first` is `step == 0`: the balancer, `ccorr` and the count of segments
  unfoldable pub compute_corr :
      Balancer F
      → (iq ccorr : List (Complex Float)) → (length : ℕ) → (first : Bool)
      → Option (Balancer F × List (Complex Float) × ℕ)
  compute_corr b iq ccorr length first =
      corr_from first (addf b.phase (step_size first)) (addf b.amplitude (step_size first)) length
        iq 0 (rounds_of b.fft_integration) (some 0) (b, ccorr, 0)
