-- ===== src/Balancer/Sound.antt =====
-- What the arrays, positions and counters of a balancer of libairspyhf/src/iqbalancer.c satisfy, so
-- that no access goes outside of an array.
pub mod Corr
pub mod Estimate
pub mod Process
pub mod Setup
use airspyhf.Prelude.{
  ℕ, zero, suc, ◌+◌, ◌-◌, ◌*◌, ◌^◌, ◌≤◌, ◌<◌, ◌≡◌, refl, ap, ◌∙◌, Bool, true, false, Option, none,
  some, List, [], ◌∷◌, arith, length, take, drop, length-take, length-drop, ltb, leb, ◌==◌, ==_iff,
  if◌then◌else◌,
}
use airspyhf.Prelude.Int.{ℤ, pos, negsuc, ◌-ℤ◌, magnitude}
use airspyhf.Prelude.Checked.{
  ◌>>=◌, read, write, for_up, Ensures, >>=-Ensures, for_up-Ensures, read-Ensures, write-Ensures,
}
use airspyhf.Floats.{Floats}
use airspyhf.Balancer.{
  Complex, Balancer, fft_bins, edge_bins_to_skip, max_lookback, working_buffer_length,
}
use airspyhf.Balancer.Transform.{window, table_from, boost_window, fft}
use airspyhf.Balancer.Transform.Ends.{HasLength, fft-HasLength}
use airspyhf.Balancer.Corr.{rounds_of, segment, boost_at}

pub record IsSound (F : Floats) (b : Balancer F) : Type 0 where
  pub corr_length : length b.corr ≡ fft_bins
  pub corr_plus_length : length b.corr_plus ≡ fft_bins
  pub boost_length : length b.boost ≡ fft_bins
  pub working_length : length b.working_buffer ≡ working_buffer_length
  pub flag_length : length b.power_flag ≡ rounds_of b.fft_integration
  pub phase_length : length b.raw_phases ≡ max_lookback
  pub amplitude_length : length b.raw_amplitudes ≡ max_lookback
  pub raw_ptr_lt : b.raw_ptr < max_lookback
  pub no_of_raw_le : b.no_of_raw ≤ max_lookback
  pub position_lt : b.working_buffer_pos < working_buffer_length
  pub bin : ℕ
  pub bin_eq : b.optimal_bin ≡ pos bin
  pub bin_le : bin ≤ fft_bins
  -- the overlap of the transforms, less one
  pub overlap : ℕ
  pub overlap_eq : b.fft_overlap ≡ pos (suc overlap)

pub length-segment :
    {A : Type 0} (n : ℕ) (iq : List A)
    → n + fft_bins ≤ length iq
    → Ensures (λ part. length part ≡ fft_bins) (segment n iq)
unfolding segment
length-segment n iq h =
    let full : length (take fft_bins (drop n iq)) ≡ fft_bins =
      omega (arith, length-take fft_bins (drop n iq), length-drop n iq) in
    let test : (length (take fft_bins (drop n iq)) == fft_bins) ≡ true =
      (==_iff (length (take fft_bins (drop n iq))) fft_bins).1 full in
    rw test full

module _ (F : Floats) where
  open F use {Float}

  length-window :
      (table : List Float) (buffer : List (Complex Float))
      → length (window F table buffer) ≡ length buffer
  unfolding window
  length-window [] buffer = refl
  length-window (w ∷ table) [] = refl
  length-window (w ∷ table) (s ∷ buffer) = ap suc (length-window table buffer)

  -- The transform of a window of samples ends and has as many bins.
  pub spectrum-HasLength :
      (table : List Float) (samples : List (Complex Float))
      → length samples ≡ fft_bins
      → Ensures (λ s. length s ≡ fft_bins) (fft F fft_bins (window F table samples))
  spectrum-HasLength table samples h =
      fft-HasLength F 11 (window F table samples) (length-window table samples ∙ h)

  length-table_from : (entry : ℕ → Float) (i n : ℕ) → length (table_from F entry i n) ≡ n
  unfolding table_from
  length-table_from entry i zero = refl
  length-table_from entry i (suc n) = ap suc (length-table_from entry (suc i) n)

  pub length-boost_window : length (boost_window F) ≡ fft_bins
  unfolding boost_window
  length-boost_window = length-table_from _ 0 fft_bins

  -- a used bin is closer to any bin than the table is long
  pub boost_at-Ensures :
      (a k : ℕ)
      → a < fft_bins + k
      → k < fft_bins + a
      → Ensures (λ w. Unit {0}) (boost_at F (pos a -ℤ pos k))
  unfolding boost_at ◌-ℤ◌
  boost_at-Ensures a k h g =
      read-Ensures (boost_window F) (magnitude (pos a -ℤ pos k)) (near (length-boost_window))
    where
      near : {n : ℕ} → n ≡ fft_bins → magnitude (pos a -ℤ pos k) < n
      near e = ground arith
