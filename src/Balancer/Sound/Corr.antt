-- ===== src/Balancer/Sound/Corr.antt =====
-- `compute_corr` of libairspyhf/src/iqbalancer.c stays inside of its arrays.
use airspyhf.Prelude.{
  ℕ, zero, suc, ◌+◌, ◌/◌, ◌≤◌, ◌<◌, ◌≡◌, refl, ap, sym, ◌∙◌, Bool, true, false, some, List, arith,
  length, ltb, Bool-cases, inl, inr, length-map,
}
use airspyhf.Prelude.Int.{ℤ, pos, negsuc, ◌-ℤ◌}
use airspyhf.Prelude.Checked.{
  read, write, for_up, Ensures, >>=-Ensures, Ensures-weaken, for_up-Ensures, read-Ensures,
  write-Ensures,
}
use airspyhf.Floats.{Floats}
use airspyhf.Balancer.{Complex, Balancer, fft_bins, edge_bins_to_skip}
use airspyhf.Balancer.Transform.{fft, window, fft_window}
use airspyhf.Balancer.Correction.{adjust_benchmark}
use airspyhf.Balancer.Corr.{
  used_bins, mirror, rounds_of, segment, next_offset, equals, boost_at, correlate, boost_round,
  mark_power, add_powers, add_segment, corr_round, corr_from, compute_corr,
}
use airspyhf.Balancer.Sound.{IsSound, length-segment, spectrum-HasLength, boost_at-Ensures}

module _ (F : Floats) where
  open F use {Float, ltf, litf}

  abbrev IsSpectrum : List (Complex Float) → Type 0
  IsSpectrum s = length s ≡ fft_bins

  correlate-IsSpectrum :
      (spectrum ccorr : List (Complex Float)) (i : ℕ)
      → IsSpectrum spectrum
      → edge_bins_to_skip ≤ i
      → i < edge_bins_to_skip + used_bins
      → IsSpectrum ccorr
      → Ensures IsSpectrum (correlate F spectrum i ccorr)
  unfolding correlate
  correlate-IsSpectrum spectrum ccorr i h lo hi g =
      >>=-Ensures (λ a. Unit {0}) IsSpectrum (read spectrum i) _
        (read-Ensures spectrum i (omega arith))
        (λ a _.
          >>=-Ensures (λ a. Unit {0}) IsSpectrum (read spectrum (mirror i)) _
            (read-Ensures spectrum (mirror i) (omega arith))
            (λ b _.
              >>=-Ensures (λ a. Unit {0}) IsSpectrum (read ccorr i) _
                (read-Ensures ccorr i (omega arith))
                (λ c _.
                  >>=-Ensures IsSpectrum IsSpectrum (write ccorr i _) (λ d. write d (mirror i) _)
                    (write-Ensures ccorr i _ g (omega arith))
                    (λ d k. write-Ensures d (mirror i) _ k (omega arith)))))

  boost_round-length :
      (bin : ℕ) (spectrum : List (Complex Float)) (i : ℕ) (s : List Float × Float)
      → bin ≤ fft_bins
      → IsSpectrum spectrum
      → edge_bins_to_skip ≤ i
      → i < edge_bins_to_skip + used_bins
      → length s.0 ≡ fft_bins
      → Ensures (λ t. length t.0 ≡ fft_bins) (boost_round F (pos bin) spectrum i s)
  unfolding boost_round
  boost_round-length bin spectrum i (boost, image) small h lo hi g =
      >>=-Ensures (λ a. Unit {0}) (λ t. length t.0 ≡ fft_bins) (read spectrum i) _
        (read-Ensures spectrum i (omega arith))
        (λ a _.
          >>=-Ensures (λ a. Unit {0}) (λ t. length t.0 ≡ fft_bins) (read boost i) _
            (read-Ensures boost i (omega arith))
            (λ old _.
              >>=-Ensures (λ next. length next ≡ fft_bins) (λ t. length t.0 ≡ fft_bins)
                (write boost i _) _ (write-Ensures boost i _ g (omega arith))
                (λ next k. elim (Bool-cases (equals (pos bin) (fft_bins / 2))) [
                  | inl middle ↦ rw middle k
                  | inr aside ↦ rw aside (
                      >>=-Ensures (λ w. Unit {0}) (λ t. length t.0 ≡ fft_bins)
                        (boost_at F (pos (mirror i) -ℤ pos bin)) _
                        (boost_at-Ensures F (mirror i) bin (omega arith) (omega arith)) (λ w _. k))
                ])))

  -- the balancer is sound, and has the number of rounds that it had
  abbrev IsKept : ℤ → Balancer F → Type 0
  IsKept z b = IsSound F b × (b.fft_integration ≡ z)

  with_flags :
      {z : ℤ} (b : Balancer F) (flags : List Bool) (total : Float)
      → IsKept z b
      → length flags ≡ rounds_of b.fft_integration
      → IsKept z (record b { power_flag = flags; integrated_total_power = total })
  with_flags b flags total (h, e) l = (ground arith, e)

  with_boost :
      (b : Balancer F) (boost : List Float) (image : Float)
      → IsSound F b
      → length boost ≡ fft_bins
      → IsSound F (record b { boost = boost; integrated_image_power = image })
  with_boost b boost image h l = ground arith

  mark_power-IsKept :
      {z : ℤ} (first : Bool) (m : ℕ) (power : Float) (b : Balancer F)
      → IsKept z b
      → m < rounds_of b.fft_integration
      → Ensures (IsKept z) (mark_power F first m power b)
  unfolding mark_power
  mark_power-IsKept false m power b h lt = h
  mark_power-IsKept {z} true m power b h lt =
      let strong = ltf (litf (pos 1) (negsuc 1)) power in
      >>=-Ensures (λ flags. length flags ≡ rounds_of b.fft_integration) (IsKept z)
        (write b.power_flag m strong) _ (write-Ensures b.power_flag m strong h.0.flag_length lt)
        (λ flags l. elim (Bool-cases strong) [
          | inl kept ↦ rw kept (with_flags b flags _ h l)
          | inr left_out ↦ rw left_out (with_flags b flags b.integrated_total_power h l)
        ])

  add_powers-IsKept :
      {z : ℤ} (first : Bool) (spectrum : List (Complex Float)) (b : Balancer F)
      → IsSpectrum spectrum
      → IsKept z b
      → Ensures (IsKept z) (add_powers F first spectrum b)
  unfolding add_powers
  add_powers-IsKept false spectrum b l h = h
  add_powers-IsKept {z} true spectrum b l (h, e) =
      let sums =
        for_up-Ensures (λ t. length t.0 ≡ fft_bins) (boost_round F (pos h.bin) spectrum)
          edge_bins_to_skip used_bins (b.boost, b.integrated_image_power) h.boost_length
          (λ i t lo hi k. boost_round-length h.bin spectrum i t h.bin_le l lo hi k) in
      >>=-Ensures (λ (t : List Float × Float). length t.0 ≡ fft_bins) (IsKept z)
        (for_up (boost_round F b.optimal_bin spectrum) edge_bins_to_skip used_bins
          (b.boost, b.integrated_image_power))
        _ (rw (sym h.bin_eq) at sums) (λ t k. (with_boost b t.0 t.1 h k, e))

  -- what the rounds of `compute_corr` keep
  abbrev IsSummed : ℤ → Balancer F × List (Complex Float) × ℕ → Type 0
  IsSummed z s = IsKept z s.0 × IsSpectrum s.1

  add_segment-Ensures :
      {z : ℤ} (first : Bool) (samples : List (Complex Float)) (b : Balancer F)
      (ccorr : List (Complex Float))
      → length samples ≡ fft_bins
      → IsKept z b
      → IsSpectrum ccorr
      → Ensures
          (λ (r : Balancer F × List (Complex Float)). IsKept z r.0 × IsSpectrum r.1)
          (add_segment F first samples b ccorr)
  unfolding add_segment
  add_segment-Ensures {z} first samples b ccorr l h g =
      >>=-Ensures IsSpectrum
        (λ (r : Balancer F × List (Complex Float)). IsKept z r.0 × IsSpectrum r.1)
        (fft F fft_bins (window F (fft_window F) samples)) _
        (spectrum-HasLength F (fft_window F) samples l)
        (λ spectrum k.
          >>=-Ensures IsSpectrum
            (λ (r : Balancer F × List (Complex Float)). IsKept z r.0 × IsSpectrum r.1)
            (for_up (correlate F spectrum) edge_bins_to_skip used_bins ccorr) _
            (for_up-Ensures IsSpectrum (correlate F spectrum) edge_bins_to_skip used_bins ccorr g
              (λ i t lo hi u. correlate-IsSpectrum spectrum t i k lo hi u))
            (λ sums u.
              >>=-Ensures (IsKept z)
                (λ (r : Balancer F × List (Complex Float)). IsKept z r.0 × IsSpectrum r.1)
                (add_powers F first spectrum b) _ (add_powers-IsKept first spectrum b k h)
                (λ c v. (v, u))))

  corr_round-IsSummed :
      {z : ℤ} (first : Bool) (phase amplitude : Float) (samples : List (Complex Float)) (m : ℕ)
      (s : Balancer F × List (Complex Float) × ℕ)
      → length samples ≡ fft_bins
      → m < rounds_of z
      → IsSummed z s
      → Ensures (IsSummed z) (corr_round F first phase amplitude samples m s)
  unfolding corr_round adjust_benchmark
  corr_round-IsSummed {z} first phase amplitude samples m (b, ccorr, count) l lt (h, g) =
      let inside : m < rounds_of b.fft_integration = omega (arith, ap rounds_of h.1, lt) in
      >>=-Ensures (IsKept z) (IsSummed z) (mark_power F first m _ b) _
        (mark_power-IsKept first m _ b h inside)
        (λ c k.
          let reach : m < length c.power_flag =
            omega (arith, k.0.flag_length, ap rounds_of k.1, lt) in
          >>=-Ensures (λ f. Unit {0}) (IsSummed z) (read c.power_flag m) _
            (read-Ensures c.power_flag m reach)
            (λ flag _. elim (Bool-cases flag) [
              | inl strong ↦ rw strong (
                  >>=-Ensures
                    (λ (r : Balancer F × List (Complex Float)). IsKept z r.0 × IsSpectrum r.1)
                    (IsSummed z) (add_segment F first _ c ccorr) _
                    (add_segment-Ensures first _ c ccorr (length-map samples _ ∙ l) k g) (λ r u. u))
              | inr weak ↦ rw weak (k, g)
            ]))

  next_offset-forward :
      (o : ℤ) (overlap n : ℕ)
      → o ≡ pos (suc overlap)
      → next_offset o n ≡ some (some (n + fft_bins / suc overlap))
  unfolding next_offset
  next_offset-forward o overlap n e = rw e refl

  corr_from-IsSummed :
      {z : ℤ} (first : Bool) (phase amplitude : Float) (iq : List (Complex Float)) (m left n : ℕ)
      (s : Balancer F × List (Complex Float) × ℕ)
      → m + left ≡ rounds_of z
      → IsSummed z s
      → Ensures (IsSummed z) (corr_from F first phase amplitude (length iq) iq m left (some n) s)
  unfolding corr_from
  corr_from-IsSummed first phase amplitude iq m zero n s e h = h
  corr_from-IsSummed {z} first phase amplitude iq m (suc left) n s e h =
      elim (Bool-cases (ltb (length iq) (n + fft_bins))) [
        | inl past ↦ rw past h
        | inr inside ↦
            let fits : n + fft_bins ≤ length iq = ground arith in
            rw inside (
              >>=-Ensures (λ part. length part ≡ fft_bins) (IsSummed z) (segment n iq) _
                (length-segment n iq fits)
                (λ samples l.
                  >>=-Ensures (IsSummed z) (IsSummed z)
                    (corr_round F first phase amplitude samples m s) _
                    (corr_round-IsSummed first phase amplitude samples m s l (omega arith) h)
                    (λ t k.
                      let forward =
                        next_offset-forward t.0.fft_overlap k.0.0.overlap n k.0.0.overlap_eq in
                      rw forward (
                        corr_from-IsSummed first phase amplitude iq (suc m) left
                          (n + fft_bins / suc k.0.0.overlap) t (omega arith) k))))
      ]

  -- On a sound balancer and on sums for all bins, `compute_corr` ends, and leaves both as such.
  pub compute_corr-IsSound :
      (b : Balancer F) (iq ccorr : List (Complex Float)) (first : Bool)
      → IsSound F b
      → length ccorr ≡ fft_bins
      → Ensures
          (λ (s : Balancer F × List (Complex Float) × ℕ). IsSound F s.0 × (length s.1 ≡ fft_bins))
          (compute_corr F b iq ccorr (length iq) first)
  unfolding compute_corr
  compute_corr-IsSound b iq ccorr first h l =
      Ensures-weaken (IsSummed b.fft_integration)
        (λ (s : Balancer F × List (Complex Float) × ℕ). IsSound F s.0 × (length s.1 ≡ fft_bins)) _
        (corr_from-IsSummed first _ _ iq 0 (rounds_of b.fft_integration) 0 (b, ccorr, 0)
          (omega arith) ((h, refl), l))
        (λ s k. (k.0.0, k.1))
