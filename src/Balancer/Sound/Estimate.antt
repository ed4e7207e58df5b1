-- ===== src/Balancer/Sound/Estimate.antt =====
-- `estimate_imbalance` of libairspyhf/src/iqbalancer.c keeps a balancer sound.
use airspyhf.Prelude.{
  ℕ, zero, suc, ◌+◌, ◌-◌, ◌/◌, ◌%◌, ◌≤◌, ◌<◌, ◌≡◌, sym, true, false, List, arith, length, replicate,
  length-replicate, ltb, ◌==◌, if◌then◌else◌, Bool-cases, inl, inr,
}
use airspyhf.Prelude.Int.{ℤ, pos, ◌+ℤ◌, ◌-ℤ◌, ◌*ℤ◌, magnitude, ltb_ℤ}
use airspyhf.Prelude.Checked.{
  read, write, Ensures, >>=-Ensures, for_up-Ensures, read-Ensures, write-Ensures,
}
use airspyhf.Floats.{Floats}
use airspyhf.Balancer.{
  Complex, Balancer, fft_bins, edge_bins_to_skip, center_bins_to_skip, max_lookback,
}
use airspyhf.Balancer.Corr.{used_bins, zero_complex, mirror, equals, boost_at, compute_corr}
use airspyhf.Balancer.Estimate.{
  bin_weight, utility_weight, utility_round, utility, image_power, sum_raw, smooth, finish_estimate,
  begin_reset, begin_average, average, estimate_imbalance,
}
use airspyhf.Balancer.Sound.{IsSound, boost_at-Ensures}
use airspyhf.Balancer.Sound.Corr.{compute_corr-IsSound}

module _ (F : Floats) where
  open F use {Float, addf, subf, mulf, divf, litf, of_intf, ltf}

  bin_weight-Ensures :
      (bin i distance : ℕ)
      → bin ≤ fft_bins
      → edge_bins_to_skip ≤ i
      → i < edge_bins_to_skip + used_bins
      → Ensures (λ w. Unit {0}) (bin_weight F (pos bin) i distance)
  unfolding bin_weight
  bin_weight-Ensures bin i distance h lo hi = elim (Bool-cases (equals (pos bin) (fft_bins / 2))) [
    | inl middle ↦ rw middle tt
    | inr aside ↦ rw aside (
        >>=-Ensures (λ w. Unit {0}) (λ w. Unit {0}) (boost_at F (pos bin -ℤ pos i)) _
          (boost_at-Ensures F bin i (omega arith) (omega arith)) (λ w _. tt))
  ]

  utility_weight-Ensures :
      (b : Balancer F) (i distance : ℕ)
      → IsSound F b
      → edge_bins_to_skip ≤ i
      → i < edge_bins_to_skip + used_bins
      → Ensures (λ w. Unit {0}) (utility_weight F b i distance)
  unfolding utility_weight
  utility_weight-Ensures b i distance h lo hi =
      let weight = bin_weight-Ensures h.bin i distance h.bin_le lo hi in
      >>=-Ensures (λ w. Unit {0}) (λ w. Unit {0}) (bin_weight F b.optimal_bin i distance) _
        (rw (sym h.bin_eq) at weight)
        (λ w _.
          >>=-Ensures (λ w. Unit {0}) (λ w. Unit {0}) (read b.boost (mirror i)) _
            (read-Ensures b.boost (mirror i) (omega (arith, h.boost_length)))
            (λ image _.
              >>=-Ensures (λ w. Unit {0}) (λ w. Unit {0}) (read b.boost i) _
                (read-Ensures b.boost i (omega (arith, h.boost_length))) (λ direct _. tt)))

  utility_round-Ensures :
      (b : Balancer F) (ccorr : List (Complex Float)) (i : ℕ) (acc : Complex Float)
      → IsSound F b
      → length ccorr ≡ fft_bins
      → edge_bins_to_skip ≤ i
      → i < edge_bins_to_skip + used_bins
      → Ensures (λ a. Unit {0}) (utility_round F b ccorr i acc)
  unfolding utility_round
  utility_round-Ensures b ccorr i acc h l lo hi =
      let distance = magnitude (pos i -ℤ pos (fft_bins / 2)) in
      elim (Bool-cases (ltb center_bins_to_skip distance)) [
        | inl outside ↦ rw outside (
            >>=-Ensures (λ w. Unit {0}) (λ a. Unit {0}) (utility_weight F b i distance) _
              (utility_weight-Ensures b i distance h lo hi)
              (λ w _.
                >>=-Ensures (λ c. Unit {0}) (λ a. Unit {0}) (read ccorr i) _
                  (read-Ensures ccorr i (omega arith)) (λ c _. tt)))
        | inr inside ↦ rw inside tt
      ]

  utility-Ensures :
      (b : Balancer F) (ccorr : List (Complex Float))
      → IsSound F b
      → length ccorr ≡ fft_bins
      → Ensures (λ a. Unit {0}) (utility F b ccorr)
  unfolding utility
  utility-Ensures b ccorr h l =
      for_up-Ensures (λ a. Unit {0}) (utility_round F b ccorr) edge_bins_to_skip used_bins _ tt
        (λ i acc lo hi _. utility_round-Ensures b ccorr i acc h l lo hi)

  sum_raw-Ensures :
      (b : Balancer F) (left i : ℕ) (sum : Complex Float)
      → IsSound F b
      → Ensures (λ s. Unit {0}) (sum_raw F b left i sum)
  unfolding sum_raw
  sum_raw-Ensures b zero i sum h = tt
  sum_raw-Ensures b (suc left) i sum h =
      let before = (i + max_lookback - 1) % max_lookback in
      >>=-Ensures (λ p. Unit {0}) (λ s. Unit {0}) (read b.raw_phases before) _
        (read-Ensures b.raw_phases before (omega (arith, h.phase_length)))
        (λ p _.
          >>=-Ensures (λ p. Unit {0}) (λ s. Unit {0}) (read b.raw_amplitudes before) _
            (read-Ensures b.raw_amplitudes before (omega (arith, h.amplitude_length)))
            (λ a _. sum_raw-Ensures b left before _ h))

  advanced :
      (b : Balancer F) (ptr : ℕ) (phase amplitude : Float)
      → IsSound F b
      → ptr < max_lookback
      → IsSound F (record b { phase = phase; amplitude = amplitude; raw_ptr = ptr })
  advanced b ptr phase amplitude h lt = ground arith

  smooth-IsSound :
      (raw : Complex Float) (b : Balancer F) → IsSound F b → Ensures (IsSound F) (smooth F raw b)
  unfolding smooth
  smooth-IsSound raw b h =
      >>=-Ensures (λ l. length l ≡ max_lookback) (IsSound F)
        (write b.raw_amplitudes b.raw_ptr raw.im) _
        (write-Ensures b.raw_amplitudes b.raw_ptr raw.im h.amplitude_length
          (omega (arith, h.raw_ptr_lt)))
        (λ amplitudes la.
          >>=-Ensures (λ l. length l ≡ max_lookback) (IsSound F)
            (write b.raw_phases b.raw_ptr raw.re) _
            (write-Ensures b.raw_phases b.raw_ptr raw.re h.phase_length
              (omega (arith, h.raw_ptr_lt)))
            (λ phases lp.
              let count = if ltb b.no_of_raw max_lookback then suc b.no_of_raw else b.no_of_raw in
              let kept = record b {
                no_of_raw = count;
                raw_amplitudes = amplitudes;
                raw_phases = phases;
              } in
              let sound : IsSound F kept = ground arith in
              >>=-Ensures (λ s. Unit {0}) (IsSound F) (sum_raw F kept (count - 1) b.raw_ptr raw) _
                (sum_raw-Ensures kept (count - 1) b.raw_ptr raw sound)
                (λ sum _. advanced kept ((b.raw_ptr + 1) % max_lookback) _ _ sound (omega arith))))

  with_maximum :
      (b : Balancer F) (power : Float)
      → IsSound F b
      → IsSound F (record b { maximum_image_power = power })
  with_maximum b power h = ground arith

  finish_estimate-IsSound :
      (b : Balancer F) → IsSound F b → Ensures (IsSound F) (finish_estimate F b)
  unfolding finish_estimate
  finish_estimate-IsSound b h =
      let power = (image_power F b).0 in
      let c = record b { maximum_image_power = power } in
      let sound = with_maximum b power h in
      elim (Bool-cases (ltf power (image_power F b).1)) [
        | inl weak ↦ rw weak h
        | inr strong ↦ rw strong (
            >>=-Ensures (λ a. Unit {0}) (IsSound F) (utility F c c.corr) _
              (utility-Ensures c c.corr sound h.corr_length)
              (λ plain _.
                >>=-Ensures (λ a. Unit {0}) (IsSound F) (utility F c c.corr_plus) _
                  (utility-Ensures c c.corr_plus sound h.corr_plus_length)
                  (λ stepped _. smooth-IsSound _ c sound)))
      ]

  begin_reset-IsSound : (b : Balancer F) → IsSound F b → IsSound F (begin_reset F b)
  unfolding begin_reset
  begin_reset-IsSound b h = ground arith

  cleared :
      (b : Balancer F) (boost : List Float) (corr plus : List (Complex Float))
      (image total most : Float)
      → IsSound F b
      → length boost ≡ fft_bins
      → length corr ≡ fft_bins
      → length plus ≡ fft_bins
      → IsSound F (record b {
        integrated_image_power = image;
        integrated_total_power = total;
        boost = boost;
        corr = corr;
        corr_plus = plus;
        maximum_image_power = most;
      })
  cleared b boost corr plus image total most h l m n = ground arith

  begin_average-IsSound : (b : Balancer F) → IsSound F b → IsSound F (begin_average F b)
  unfolding begin_average
  begin_average-IsSound b h = elim (Bool-cases (equals b.no_of_avg 0)) [
    | inl first ↦ rw first (
        cleared b (replicate fft_bins (of_intf (pos 0))) (replicate fft_bins (zero_complex F))
          (replicate fft_bins (zero_complex F)) _ _ _ h
          (length-replicate fft_bins (of_intf (pos 0))) (length-replicate fft_bins (zero_complex F))
          (length-replicate fft_bins (zero_complex F)))
    | inr later ↦ rw later (with_maximum b _ h)
  ]

  with_corr :
      (b : Balancer F) (corr : List (Complex Float)) (n : ℤ)
      → IsSound F b
      → length corr ≡ fft_bins
      → IsSound F (record b { corr = corr; no_of_avg = n })
  with_corr b corr n h l = ground arith

  with_corr_plus :
      (b : Balancer F) (plus : List (Complex Float)) (n : ℤ)
      → IsSound F b
      → length plus ≡ fft_bins
      → IsSound F (record b { corr_plus = plus; no_of_avg = n })
  with_corr_plus b plus n h l = ground arith

  average-IsSound :
      (b : Balancer F) (iq : List (Complex Float))
      → IsSound F b
      → Ensures (IsSound F) (average F b iq (length iq))
  unfolding average
  average-IsSound b iq h =
      let Result =
        λ (s : Balancer F × List (Complex Float) × ℕ). IsSound F s.0 × (length s.1 ≡ fft_bins) in
      >>=-Ensures Result (IsSound F) (compute_corr F b iq b.corr (length iq) true) _
        (compute_corr-IsSound F b iq b.corr true h h.corr_length)
        (λ s k. elim (Bool-cases (s.2 == 0)) [
          | inl none_strong ↦ rw none_strong (with_corr s.0 s.1 s.0.no_of_avg k.0 k.1)
          | inr strong ↦
              let summed = record s.0 { corr = s.1; no_of_avg = s.0.no_of_avg +ℤ pos s.2 } in
              let sound = with_corr s.0 s.1 (s.0.no_of_avg +ℤ pos s.2) k.0 k.1 in
              rw strong (
                >>=-Ensures Result (IsSound F)
                  (compute_corr F summed iq summed.corr_plus (length iq) false) _
                  (compute_corr-IsSound F summed iq summed.corr_plus false sound
                    sound.corr_plus_length)
                  (λ t u.
                    elim (Bool-cases
                      (ltb_ℤ (t.0.correlation_integration *ℤ t.0.fft_integration) t.0.no_of_avg)) [
                        | inl enough ↦ rw enough (
                            finish_estimate-IsSound
                              (record t.0 { corr_plus = t.1; no_of_avg = pos 0 })
                              (with_corr_plus t.0 t.1 (pos 0) u.0 u.1))
                        | inr few ↦ rw few (with_corr_plus t.0 t.1 t.0.no_of_avg u.0 u.1)
                      ]))
        ])

  pub estimate_imbalance-IsSound :
      (b : Balancer F) (iq : List (Complex Float))
      → IsSound F b
      → Ensures (IsSound F) (estimate_imbalance F b iq (length iq))
  unfolding estimate_imbalance
  estimate_imbalance-IsSound b iq h =
      let c = begin_reset F b in
      let sound = begin_reset-IsSound b h in
      elim (Bool-cases (ltb_ℤ c.no_of_avg (pos 0))) [
        | inl waiting ↦
            rw waiting (with_corr c c.corr (c.no_of_avg +ℤ pos 1) sound sound.corr_length)
        | inr ready ↦
            rw ready (average-IsSound (begin_average F c) iq (begin_average-IsSound c sound))
      ]
