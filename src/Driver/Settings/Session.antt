-- ===== src/Driver/Settings/Session.antt =====
-- A client of libairspyhf/src/airspyhf.c that sets up the DSP while blocks are converted: the calls one after
-- the other, in any order.
use airspyhf.Prelude.{
  ℕ, suc, ◌≤◌, ◌<◌, ◌-◌, ◌*◌, ◌^◌, Bool, ◌≡◌, refl, Option, some, List, [], ◌∷◌, length, map,
}
use airspyhf.Prelude.Int.{ℤ, pos, negsuc}
use airspyhf.Prelude.Checked.{◌>>=◌, Ensures, >>=-Ensures}
use airspyhf.Floats.{Floats}
use airspyhf.Balancer.{Complex, fft_bins, create}
use airspyhf.Balancer.Sound.{IsSound}
use airspyhf.Balancer.Sound.Setup.{
  bin_of, create-IsSound, configure-IsSound, set_optimal_point-IsSound,
}
use airspyhf.Driver.{Device}
use airspyhf.Driver.Samples.{convert_samples}
use airspyhf.Driver.Samples.Converted.{IsConverted, convert_samples-IsConverted}
use airspyhf.Driver.Settings.{
  set_optimal_iq_correction_point, with_balancer, iq_balancer_configure, set_lib_dsp,
}

-- a call of the client, or a block that is converted for it
pub data Use (F : Floats) : Type 0 where
  pointed : F.Float → Use F
  configured : (buffers_to_skip fft_integration fft_overlap correlation_integration : ℤ) → Use F
  switched : ℕ → Use F
  block : List (Complex ℤ) → List (Complex F.Float) → ℕ → Use F

module _ (F : Floats) (pi : F.Double) where
  -- the arrays that the blocks are written to, and the device
  unfoldable pub session :
      List (Use F) → Device F → Option (List (List (Complex F.Float)) × Device F)
  session [] d = some ([], d)
  session (pointed w ∷ uses) d = session uses (set_optimal_iq_correction_point F w d)
  session (configured skip integration overlap correlation ∷ uses) d =
      iq_balancer_configure F skip integration overlap correlation d >>= session uses
  session (switched flag ∷ uses) d = session uses (set_lib_dsp F flag d)
  session (block src dest count ∷ uses) d =
      convert_samples F pi d src dest count >>= λ r. session uses r.1 >>= λ s. some (r.0 ∷ s.0, s.1)

-- the lengths of the arrays that the blocks are written to
unfoldable pub block_lengths : (F : Floats) → List (Use F) → List ℕ
block_lengths F [] = []
block_lengths F (block src dest count ∷ uses) = length dest ∷ block_lengths F uses
block_lengths F (_ ∷ uses) = block_lengths F uses

-- a value of a 32-bit `int`, with room for one more
abbrev pub IsInt : ℤ → Type 0
IsInt (pos n) = n < 2 ^ 31 - 1
IsInt (negsuc n) = n < 2 ^ 31

-- A point for which the arithmetic gives one of the bins; a number of transforms and a correlation that are
-- not negative, a positive overlap, and numbers that are so small that the counters of the balancer stay
-- values of an `int`, as the model takes them to be; a block that is not longer than its two arrays.
abbrev pub IsAllowed : (F : Floats) → Use F → Type 0
IsAllowed F (pointed w) = (k : ℕ) × (bin_of F w ≡ pos k) × (k ≤ fft_bins)
IsAllowed F (configured skip integration overlap correlation) =
    (n : ℕ) × (o : ℕ) × (c : ℕ) × (integration ≡ pos n)
    × (overlap ≡ pos (suc o))
    × (correlation ≡ pos c)
    × (n * suc c < 2 ^ 30)
    × IsInt skip
    × IsInt overlap
IsAllowed F (switched flag) = Unit {0}
IsAllowed F (block src dest count) = (count ≤ length src) × (count ≤ length dest)

abbrev pub AreAllowed : (F : Floats) → List (Use F) → Type 0
AreAllowed F [] = Unit {0}
AreAllowed F (u ∷ uses) = IsAllowed F u × AreAllowed F uses

module _ (F : Floats) (pi : F.Double) where
  -- arrays of these lengths, and a device whose balancer is sound
  abbrev pub AreConverted : List ℕ → List (List (Complex F.Float)) × Device F → Type 0
  AreConverted lengths r = (map length r.0 ≡ lengths) × IsSound F r.1.iq_balancer

  iq_balancer_configure-IsSound :
      (d : Device F) (skip integration overlap correlation : ℤ)
      → IsAllowed F (configured skip integration overlap correlation)
      → IsSound F d.iq_balancer
      → Ensures
          (λ e. IsSound F e.iq_balancer)
          (iq_balancer_configure F skip integration overlap correlation d)
  unfolding iq_balancer_configure with_balancer
  iq_balancer_configure-IsSound d skip integration overlap correlation
        (n, o, c, en, eo, ec, small, _, _) h =
      let (m, e, sound) = configure-IsSound F d.iq_balancer skip correlation n o h in
      rw (en, eo, e) sound

  session_sound :
      (uses : List (Use F)) (d : Device F)
      → AreAllowed F uses
      → IsSound F d.iq_balancer
      → Ensures (AreConverted (block_lengths F uses)) (session F pi uses d)
  unfolding session block_lengths set_optimal_iq_correction_point set_lib_dsp
  session_sound [] d allowed h = (refl, h)
  session_sound (pointed w ∷ uses) d ((k, e, le), allowed) h =
      session_sound uses (set_optimal_iq_correction_point F w d) allowed
        (set_optimal_point-IsSound F d.iq_balancer w k e le h)
  session_sound (configured skip integration overlap correlation ∷ uses) d (a, allowed) h =
      >>=-Ensures (λ e. IsSound F e.iq_balancer) (AreConverted (block_lengths F uses))
        (iq_balancer_configure F skip integration overlap correlation d) (session F pi uses)
        (iq_balancer_configure-IsSound d skip integration overlap correlation a h)
        (λ e k. session_sound uses e allowed k)
  session_sound (switched flag ∷ uses) d (a, allowed) h =
      session_sound uses (set_lib_dsp F flag d) allowed h
  session_sound (block src dest count ∷ uses) d ((in_src, in_dest), allowed) h =
      >>=-Ensures (IsConverted F count dest) (AreConverted (length dest ∷ block_lengths F uses))
        (convert_samples F pi d src dest count) _
        (convert_samples-IsConverted F pi d src dest count in_src in_dest h)
        (λ r k.
          >>=-Ensures (AreConverted (block_lengths F uses))
            (AreConverted (length dest ∷ block_lengths F uses)) (session F pi uses r.1) _
            (session_sound uses r.1 allowed k.1) (λ s g. ((λ i. k.0.0 i ∷ g.0 i), g.1)))

  -- From a device with a balancer that has just been created, whatever allowed settings and blocks follow one
  -- another, every conversion comes to an end with no access outside of an array; each array that is
  -- written to keeps its length, and the balancer is sound at the end.
  pub session-AreConverted :
      (uses : List (Use F)) (d : Device F) (phase amplitude : F.Float) (flags : ℕ → Bool)
      (corr corr_plus working : ℕ → Complex F.Float) (boost : ℕ → F.Float)
      → d.iq_balancer ≡ create F phase amplitude flags corr corr_plus working boost
      → AreAllowed F uses
      → Ensures (AreConverted (block_lengths F uses)) (session F pi uses d)
  session-AreConverted uses d phase amplitude flags corr corr_plus working boost created allowed =
      session_sound uses d allowed
        (rw created (create-IsSound F phase amplitude flags corr corr_plus working boost))
