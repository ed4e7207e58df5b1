-- ===== src/Balancer/Sound/Setup.antt =====
-- What `iq_balancer_create`, `iq_balancer_configure` and `iq_balancer_set_optimal_point` of
-- libairspyhf/src/iqbalancer.c leave.
use airspyhf.Prelude.{
  ℕ, zero, suc, ap, ◌/◌, ◌≤◌, ◌≡◌, refl, Bool, false, arith, length, length-replicate,
}
use airspyhf.Prelude.Int.{ℤ, pos, negsuc}
use airspyhf.Prelude.Outcome.{ok}
use airspyhf.Floats.{Floats}
use airspyhf.Balancer.{
  Complex, Balancer, fft_bins, max_lookback, working_buffer_length, default_fft_integration,
  malloc_block, clamp_point, configure, set_optimal_point, create,
}
use airspyhf.Balancer.Sound.{IsSound}

length-malloc_block :
    {A : Type 0} (memory : ℕ → A) (size : ℕ) → length (malloc_block memory size) ≡ size
length-malloc_block memory zero = refl
length-malloc_block memory (suc size) = ap suc (length-malloc_block (λ i. memory (suc i)) size)

module _ (F : Floats) where
  open F use {Float}

  -- A new balancer is sound, whatever `malloc` leaves in its blocks.
  pub create-IsSound :
      (phase amplitude : Float) (flags : ℕ → Bool) (corr plus working : ℕ → Complex Float)
      (boost : ℕ → Float)
      → IsSound F (create F phase amplitude flags corr plus working boost)
  unfolding create
  create-IsSound phase amplitude flags corr plus working boost =
      let four = length-replicate {A = Float} max_lookback (F.of_intf (pos 0)) in
      record {
        corr_length = length-malloc_block corr fft_bins;
        corr_plus_length = length-malloc_block plus fft_bins;
        boost_length = length-malloc_block boost fft_bins;
        working_length = length-malloc_block working working_buffer_length;
        flag_length = length-malloc_block flags default_fft_integration;
        phase_length = four;
        amplitude_length = four;
        raw_ptr_lt = omega arith;
        no_of_raw_le = omega arith;
        position_lt = omega arith;
        bin = fft_bins / 2;
        bin_eq = refl;
        bin_le = omega arith;
        overlap = 1;
        overlap_eq = refl;
      }

  -- A sound balancer stays sound when it is configured with a positive overlap and a number of
  -- transforms that is not negative.
  pub configure-IsSound :
      (b : Balancer F) (skip correlation : ℤ) (integration overlap : ℕ)
      → IsSound F b
      → (c : Balancer F) × (configure F b skip (pos integration) (pos (suc overlap)) correlation
          ≡ ok c)
        × IsSound F c
  unfolding configure
  configure-IsSound b skip correlation integration overlap h =
      let flags = length-replicate integration false in
      (
        _,
        refl,
        record {
          corr_length = h.corr_length;
          corr_plus_length = h.corr_plus_length;
          boost_length = h.boost_length;
          working_length = h.working_length;
          flag_length = flags;
          phase_length = h.phase_length;
          amplitude_length = h.amplitude_length;
          raw_ptr_lt = h.raw_ptr_lt;
          no_of_raw_le = h.no_of_raw_le;
          position_lt = h.position_lt;
          bin = h.bin;
          bin_eq = h.bin_eq;
          bin_le = h.bin_le;
          overlap = overlap;
          overlap_eq = refl;
        },
      )

  -- The bin that `iq_balancer_set_optimal_point` computes for a point.
  abbrev pub bin_of : Float → ℤ
  bin_of w = F.to_int (
      F.floor (
        F.mul (F.lit (pos fft_bins) (pos 0))
          (F.add (F.lit (pos 5) (negsuc 0)) (F.widen (clamp_point F w)))))

  -- A new optimal point keeps a balancer sound, if the arithmetic gives one of the bins for it.
  pub set_optimal_point-IsSound :
      (b : Balancer F) (w : Float) (k : ℕ)
      → bin_of w ≡ pos k
      → k ≤ fft_bins
      → IsSound F b
      → IsSound F (set_optimal_point F b w)
  unfolding set_optimal_point
  set_optimal_point-IsSound b w k e le h = record {
    corr_length = h.corr_length;
    corr_plus_length = h.corr_plus_length;
    boost_length = h.boost_length;
    working_length = h.working_length;
    flag_length = h.flag_length;
    phase_length = h.phase_length;
    amplitude_length = h.amplitude_length;
    raw_ptr_lt = h.raw_ptr_lt;
    no_of_raw_le = h.no_of_raw_le;
    position_lt = h.position_lt;
    bin = k;
    bin_eq = e;
    bin_le = le;
    overlap = h.overlap;
    overlap_eq = h.overlap_eq;
  }
