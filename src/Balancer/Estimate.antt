-- ===== src/Balancer/Estimate.antt =====
-- libairspyhf/src/iqbalancer.c: `utility` and `estimate_imbalance`. An access outside of an array is
-- `none`.
use airspyhf.Prelude.{
  ℕ, zero, suc, ◌+◌, ◌-◌, ◌/◌, ◌%◌, true, false, Option, some, List, ltb, ◌==◌, length, replicate,
  if◌then◌else◌,
}
use airspyhf.Prelude.Int.{ℤ, pos, negsuc, ◌+ℤ◌, ◌-ℤ◌, ◌*ℤ◌, magnitude, ltb_ℤ}
use airspyhf.Prelude.Checked.{◌>>=◌, read, write, for_up}
use airspyhf.Floats.{Floats}
use airspyhf.Balancer.{
  Complex, Balancer, fft_bins, edge_bins_to_skip, center_bins_to_skip, max_lookback,
  buffers_to_skip_on_reset,
}
use airspyhf.Balancer.Corr.{used_bins, mirror, equals, zero_complex, boost_at, compute_corr}

module _ (F : Floats) where
  open F use {Float, addf, subf, mulf, divf, litf, of_intf, ltf, widen, fabs, lt}

  -- the weight of a distance from the middle, and where it is not in the middle, of one from the
  -- optimal bin
  unfoldable pub bin_weight : (optimal_bin : ℤ) → (i distance : ℕ) → Option Float
  bin_weight optimal_bin i distance =
      let invskip = divf (litf (pos 1) (pos 0)) (of_intf (pos edge_bins_to_skip)) in
      let plain =
        if ltb edge_bins_to_skip distance
        then litf (pos 1) (pos 0)
        else mulf (of_intf (pos distance)) invskip in
      let boosted = boost_at F (optimal_bin -ℤ pos i) >>= λ w. some (mulf plain w) in
      if equals optimal_bin (fft_bins / 2) then some plain else boosted

  -- the weight of a bin in `utility`; EPSILON is 0.01f
  unfoldable pub utility_weight : Balancer F → (i distance : ℕ) → Option Float
  utility_weight b i distance = do
    weight ← bin_weight b.optimal_bin i distance
    image ← read b.boost (mirror i)
    direct ← read b.boost i
    some (mulf weight (divf image (addf direct (litf (pos 1) (negsuc 1)))))

  -- One round of `utility`.
  unfoldable pub utility_round :
      Balancer F → List (Complex Float) → ℕ → Complex Float → Option (Complex Float)
  utility_round b ccorr i acc =
      let distance = magnitude (pos i -ℤ pos (fft_bins / 2)) in
      let weighted = do
        weight ← utility_weight b i distance
        c ← read ccorr i
        some (record { re = addf acc.re (mulf c.re weight); im = addf acc.im (mulf c.im weight) })
      in if ltb center_bins_to_skip distance then weighted else some acc

  -- `utility`
  unfoldable pub utility : Balancer F → List (Complex Float) → Option (Complex Float)
  utility b ccorr = for_up (utility_round b ccorr) edge_bins_to_skip used_bins (zero_complex F)

  -- `mu` for the values of the utility with and without the step: MinDeltaMu is 0.1f, MaxMu 50.0f
  unfoldable pub mu_of : Float → Float → Float
  mu_of a b =
      let difference = subf a b in
      let mu = divf a difference in
      let most = litf (pos 50) (pos 0) in
      let least = litf (negsuc 49) (pos 0) in
      if lt (widen (litf (pos 1) (negsuc 0))) (fabs (widen difference))
      then (if ltf mu least then least else if ltf most mu then most else mu)
      else of_intf (pos 0)

  -- MaxPowerRatio / 95
  abbrev pub boost_window_norm : Float
  boost_window_norm = divf (litf (pos 8) (negsuc 0)) (of_intf (pos 95))

  -- the power that is compared with the maximum so far, and the threshold for it
  unfoldable pub image_power : Balancer F → Float × Float
  image_power b =
      if equals b.optimal_bin (fft_bins / 2)
      then (b.integrated_total_power, b.maximum_image_power)
      else (
        subf b.integrated_image_power (mulf b.integrated_total_power boost_window_norm),
        mulf b.maximum_image_power (litf (pos 5) (negsuc 0)),
      )

  -- the sums over the entries before `i` in the rings of raw estimates
  unfoldable pub sum_raw : Balancer F → (left i : ℕ) → Complex Float → Option (Complex Float)
  sum_raw b zero i sum = some sum
  sum_raw b (suc left) i sum = do
    let before = (i + max_lookback - 1) % max_lookback
    p ← read b.raw_phases before
    a ← read b.raw_amplitudes before
    sum_raw b left before (record { re = addf sum.re p; im = addf sum.im a })

  -- A raw estimate, with the phase as `re` and the amplitude as `im`, goes into the rings, and the
  -- correction becomes the mean of those in the rings.
  unfoldable pub smooth : Complex Float → Balancer F → Option (Balancer F)
  smooth raw b = do
    let count = if ltb b.no_of_raw max_lookback then suc b.no_of_raw else b.no_of_raw
    amplitudes ← write b.raw_amplitudes b.raw_ptr raw.im
    phases ← write b.raw_phases b.raw_ptr raw.re
    let kept = record b { no_of_raw = count; raw_amplitudes = amplitudes; raw_phases = phases }
    sum ← sum_raw kept (count - 1) b.raw_ptr raw
    some (record kept {
      phase = divf sum.re (of_intf (pos count));
      amplitude = divf sum.im (of_intf (pos count));
      raw_ptr = (b.raw_ptr + 1) % max_lookback;
    })

  -- the end of `estimate_imbalance`, once enough segments were averaged
  unfoldable pub finish_estimate : Balancer F → Option (Balancer F)
  finish_estimate b =
      let (power, threshold) = image_power b in
      let estimated = do
        let c = record b { maximum_image_power = power }
        plain ← utility c c.corr
        stepped ← utility c c.corr_plus
        smooth
            (record {
              re = addf c.phase (mulf (litf (pos 1) (negsuc 1)) (mu_of plain.im stepped.im));
              im = addf c.amplitude (mulf (litf (pos 1) (negsuc 1)) (mu_of plain.re stepped.re));
            })
            c
      in if ltf power threshold then some b else estimated

  -- the start of `estimate_imbalance`: a reset that was asked for
  unfoldable pub begin_reset : Balancer F → Balancer F
  begin_reset b =
      if b.reset_flag
      then record b {
        reset_flag = false;
        no_of_avg = negsuc (buffers_to_skip_on_reset - 1);
        maximum_image_power = of_intf (pos 0);
      }
      else b

  -- At the first segments of an average the sums are cleared; MaxPowerDecay is 0.98f.
  unfoldable pub begin_average : Balancer F → Balancer F
  begin_average b =
      let decayed = mulf b.maximum_image_power (litf (pos 98) (negsuc 1)) in
      if equals b.no_of_avg 0
      then record b {
        integrated_image_power = of_intf (pos 0);
        integrated_total_power = of_intf (pos 0);
        boost = replicate fft_bins (of_intf (pos 0));
        corr = replicate fft_bins (zero_complex F);
        corr_plus = replicate fft_bins (zero_complex F);
        maximum_image_power = decayed;
      }
      else record b { maximum_image_power = decayed }

  -- the sums over the segments, and the estimate when there are enough
  unfoldable pub average : Balancer F → List (Complex Float) → (length : ℕ) → Option (Balancer F)
  average b iq length = do
    (c, corr, count) ← compute_corr F b iq b.corr length true
    let summed = record c { corr = corr; no_of_avg = c.no_of_avg +ℤ pos count }
    let second = do
      (d, plus, again) ← compute_corr F summed iq summed.corr_plus length false
      let stepped = record d { corr_plus = plus }
      if ltb_ℤ (stepped.correlation_integration *ℤ stepped.fft_integration) stepped.no_of_avg
          then finish_estimate (record stepped { no_of_avg = pos 0 })
          else some stepped
    if count == 0 then some (record c { corr = corr }) else second

  -- `estimate_imbalance`
  unfoldable pub estimate_imbalance :
      Balancer F → List (Complex Float) → (length : ℕ) → Option (Balancer F)
  estimate_imbalance b iq length =
      let c = begin_reset b in
      if ltb_ℤ c.no_of_avg (pos 0)
      then some (record c { no_of_avg = c.no_of_avg +ℤ pos 1 })
      else average (begin_average c) iq length
