-- ===== src/Balancer.antt =====
-- libairspyhf/src/iqbalancer.c and iqbalancer.h: the state of the IQ balancer, and the operations
-- that configure it. The constants are those of the build without `__arm__`.
pub mod Transform
pub mod Correction
pub mod Corr
pub mod Estimate
pub mod Process
pub mod Sound
pub mod Tests
use airspyhf.Prelude.{
  ℕ, zero, suc, [], ◌∷◌, ◌+◌, ◌*◌, ◌/◌, Bool, true, false, List, replicate, if◌then◌else◌,
}
use airspyhf.Prelude.Int.{ℤ, pos, negsuc}
use airspyhf.Prelude.Outcome.{Outcome, ok, fault}
use airspyhf.Floats.{Floats}

-- `airspyhf_complex_float_t`
pub record Complex (A : Type 0) : Type 0 where
  pub re : A
  pub im : A

abbrev pub fft_bins : ℕ
fft_bins = 4 * 1024

-- FFTBins / 22
abbrev pub edge_bins_to_skip : ℕ
edge_bins_to_skip = fft_bins / 22

abbrev pub center_bins_to_skip : ℕ
center_bins_to_skip = 2

abbrev pub max_lookback : ℕ
max_lookback = 4

abbrev pub buffers_to_skip_on_reset : ℕ
buffers_to_skip_on_reset = 2

abbrev pub default_buffers_to_skip : ℕ
default_buffers_to_skip = 2

abbrev pub default_fft_integration : ℕ
default_fft_integration = 4

abbrev pub default_fft_overlap : ℕ
default_fft_overlap = 2

abbrev pub default_correlation_integration : ℕ
default_correlation_integration = 16

-- FFTBins * (1 + FFTIntegration / FFTOverlap)
abbrev pub working_buffer_length : ℕ
working_buffer_length = fft_bins * (1 + default_fft_integration / default_fft_overlap)

-- What a block of so many elements holds, by what the memory holds from its start on.
abbrev pub malloc_block : {A : Type 0} → (ℕ → A) → ℕ → List A
malloc_block memory zero = []
malloc_block memory (suc size) = memory 0 ∷ malloc_block (λ i. memory (suc i)) size

-- `struct iq_balancer_t`
pub record Balancer (F : Floats) : Type 0 where
  pub phase : F.Float
  pub last_phase : F.Float
  pub amplitude : F.Float
  pub last_amplitude : F.Float
  pub iavg : F.Float
  pub qavg : F.Float
  pub integrated_total_power : F.Float
  pub integrated_image_power : F.Float
  pub maximum_image_power : F.Float
  pub raw_phases : List F.Float
  pub raw_amplitudes : List F.Float
  pub skipped_buffers : ℤ
  pub buffers_to_skip : ℤ
  pub working_buffer_pos : ℕ
  pub fft_integration : ℤ
  pub fft_overlap : ℤ
  pub correlation_integration : ℤ
  pub no_of_avg : ℤ
  pub no_of_raw : ℕ
  pub raw_ptr : ℕ
  pub optimal_bin : ℤ
  pub reset_flag : Bool
  pub power_flag : List Bool
  pub corr : List (Complex F.Float)
  pub corr_plus : List (Complex F.Float)
  pub working_buffer : List (Complex F.Float)
  pub boost : List F.Float

module _ (F : Floats) where
  open F use {Float, add, mul, floor, to_int, lit, widen, litf, of_intf, ltf}

  -- the correction point, kept between -0.5 and 0.5
  unfoldable pub clamp_point : Float → Float
  clamp_point w =
      if ltf w (litf (negsuc 4) (negsuc 0))
      then litf (negsuc 4) (negsuc 0)
      else if ltf (litf (pos 5) (negsuc 0)) w
      then litf (pos 5) (negsuc 0)
      else w

  -- `iq_balancer_set_optimal_point`: (int) floor(FFTBins * (0.5 + w))
  unfoldable pub set_optimal_point : Balancer F → Float → Balancer F
  set_optimal_point b w = record b {
    optimal_bin = to_int (
        floor (
          mul (lit (pos fft_bins) (pos 0)) (add (lit (pos 5) (negsuc 0)) (widen (clamp_point w)))));
    reset_flag = true;
  }

  -- `iq_balancer_configure`. A negative number of transforms asks for a block that no host has, and
  -- the block is filled without a test.
  unfoldable pub configure : Balancer F → ℤ → ℤ → ℤ → ℤ → Outcome (Balancer F)
  configure b skip (negsuc _) overlap correlation = fault
  configure b skip (pos n) overlap correlation = ok (record b {
    buffers_to_skip = skip;
    fft_integration = pos n;
    fft_overlap = overlap;
    correlation_integration = correlation;
    power_flag = replicate n false;
    reset_flag = true;
  })

  nought : Float
  nought = of_intf (pos 0)

  -- `iq_balancer_create`. What the memory holds that `malloc` gives is an argument for each block.
  unfoldable pub create :
      (phase amplitude : Float) (flags : ℕ → Bool) (corr corr_plus working : ℕ → Complex Float)
      (boost : ℕ → Float)
      → Balancer F
  unfolding nought
  create phase amplitude flags corr corr_plus working boost = record {
    phase = phase;
    last_phase = nought;
    amplitude = amplitude;
    last_amplitude = nought;
    iavg = nought;
    qavg = nought;
    integrated_total_power = nought;
    integrated_image_power = nought;
    maximum_image_power = nought;
    raw_phases = replicate max_lookback nought;
    raw_amplitudes = replicate max_lookback nought;
    skipped_buffers = pos 0;
    buffers_to_skip = pos default_buffers_to_skip;
    working_buffer_pos = 0;
    fft_integration = pos default_fft_integration;
    fft_overlap = pos default_fft_overlap;
    correlation_integration = pos default_correlation_integration;
    no_of_avg = pos 0;
    no_of_raw = 0;
    raw_ptr = 0;
    optimal_bin = pos (fft_bins / 2);
    reset_flag = false;
    power_flag = malloc_block flags default_fft_integration;
    corr = malloc_block corr fft_bins;
    corr_plus = malloc_block corr_plus fft_bins;
    working_buffer = malloc_block working working_buffer_length;
    boost = malloc_block boost fft_bins;
  }
