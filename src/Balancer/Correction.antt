-- ===== src/Balancer/Correction.antt =====
-- libairspyhf/src/iqbalancer.c: `cancel_dc`, `adjust_benchmark` and `adjust_phase_amplitude`.
use airspyhf.Prelude.{
  ℕ, suc, ◌-◌, ◌≡◌, refl, ap, Bool, true, false, List, [], ◌∷◌, ◌++◌, map, length, length-map,
  map-append, if◌then◌else◌,
}
use airspyhf.Prelude.Int.{pos, negsuc}
use airspyhf.Floats.{Floats}
use airspyhf.Balancer.{Complex, Balancer}

module _ (F : Floats) where
  open F use {Float, addf, subf, mulf, divf, litf, of_intf}

  -- DcTimeConst
  unfoldable pub dc_time_const : Float
  dc_time_const = litf (pos 1) (negsuc 3)

  unfoldable pub without_dc : Complex Float → Complex Float → Complex Float
  without_dc dc s = record { re = subf s.re dc.re; im = subf s.im dc.im }

  -- the averages move towards a sample
  unfoldable pub follow_dc : Complex Float → Complex Float → Complex Float
  unfolding dc_time_const
  follow_dc dc s = record {
    re = addf dc.re (mulf dc_time_const (subf s.re dc.re));
    im = addf dc.im (mulf dc_time_const (subf s.im dc.im));
  }

  -- the second loop of `cancel_dc`: the samples, and the averages at the end
  unfoldable pub track_dc :
      Complex Float → List (Complex Float) → List (Complex Float) × Complex Float
  unfolding follow_dc
  track_dc dc [] = ([], dc)
  track_dc dc (s ∷ iq) =
      let (rest, last) = track_dc (follow_dc dc s) iq in
      (without_dc (follow_dc dc s) s ∷ rest, last)

  abbrev averages : Balancer F → Complex Float
  averages b = record { re = b.iavg; im = b.qavg }

  -- `cancel_dc`
  unfoldable pub cancel_dc :
      Balancer F → List (Complex Float) → (skip_eval : Bool) → List (Complex Float) × Balancer F
  cancel_dc b iq true = (map (without_dc (averages b)) iq, b)
  cancel_dc b iq false =
      let (samples, dc) = track_dc (averages b) iq in
      (samples, record b { iavg = dc.re; qavg = dc.im })

  -- one sample in `adjust_benchmark` and in `adjust_phase_amplitude`
  unfoldable pub correct : (phase amplitude : Float) → Complex Float → Complex Float
  correct phase amplitude s = record {
    re = mulf (addf s.re (mulf phase s.im)) (addf (of_intf (pos 1)) amplitude);
    im = mulf (addf s.im (mulf phase s.re)) (subf (of_intf (pos 1)) amplitude);
  }

  -- re * re + im * im
  unfoldable pub power_of : Complex Float → Float
  power_of s = addf (mulf s.re s.re) (mulf s.im s.im)

  unfoldable pub power_sum : Float → List (Complex Float) → Float
  power_sum sum [] = sum
  power_sum sum (s ∷ iq) = power_sum (addf sum (power_of s)) iq

  -- `adjust_benchmark`: the samples, and what it returns
  unfoldable pub adjust_benchmark :
      List (Complex Float)
      → (phase amplitude : Float) → (skip_power_calculation : Bool) → List (Complex Float) × Float
  adjust_benchmark iq phase amplitude skip = (
    map (correct phase amplitude) iq,
    if skip then of_intf (pos 0) else power_sum (of_intf (pos 0)) iq,
  )

  -- (i * last + (length - 1 - i) * now) * scale, with scale = 1.0f / (length - 1)
  unfoldable pub blend : (length i : ℕ) → (last now : Float) → Float
  blend length i last now =
      mulf (addf (mulf (of_intf (pos i)) last) (mulf (of_intf (pos (length - 1 - i))) now))
        (divf (litf (pos 1) (pos 0)) (of_intf (pos (length - 1))))

  -- the loop of `adjust_phase_amplitude`, from `i` on
  unfoldable pub adjust_from :
      Balancer F → (length i : ℕ) → List (Complex Float) → List (Complex Float)
  adjust_from b length i [] = []
  adjust_from b length i (s ∷ iq) =
      correct (blend length i b.last_phase b.phase) (blend length i b.last_amplitude b.amplitude) s
      ∷ adjust_from b length (suc i) iq

  -- `adjust_phase_amplitude`
  unfoldable pub adjust_phase_amplitude :
      Balancer F → List (Complex Float) → List (Complex Float) × Balancer F
  adjust_phase_amplitude b iq = (
    adjust_from b (length iq) 0 iq,
    record b { last_phase = b.phase; last_amplitude = b.amplitude },
  )

  track_dc-append :
      (dc : Complex Float) (xs ys : List (Complex Float))
      → track_dc dc (xs ++ ys) ≡ (
        (track_dc dc xs).0 ++ (track_dc (track_dc dc xs).1 ys).0,
        (track_dc (track_dc dc xs).1 ys).1,
      )
  unfolding track_dc
  track_dc-append dc [] ys = refl
  track_dc-append dc (x ∷ xs) ys = rw (track_dc-append (follow_dc dc x) xs ys) refl

  -- The removal of DC does not see where blocks end: two blocks one after the other give the samples
  -- and the balancer that the blocks in one give, also where the averages are not to be moved.
  pub cancel_dc-append :
      (b : Balancer F) (xs ys : List (Complex Float)) (skip_eval : Bool)
      → cancel_dc b (xs ++ ys) skip_eval ≡ (
        (cancel_dc b xs skip_eval).0 ++ (cancel_dc (cancel_dc b xs skip_eval).1 ys skip_eval).0,
        (cancel_dc (cancel_dc b xs skip_eval).1 ys skip_eval).1,
      )
  unfolding cancel_dc
  cancel_dc-append b xs ys true = ap (λ l. (l, b)) (map-append xs ys (without_dc (averages b)))
  cancel_dc-append b xs ys false = rw (track_dc-append (averages b) xs ys) refl

  length-track_dc :
      (dc : Complex Float) (iq : List (Complex Float)) → length (track_dc dc iq).0 ≡ length iq
  unfolding track_dc
  length-track_dc dc [] = refl
  length-track_dc dc (s ∷ iq) = ap suc (length-track_dc (follow_dc dc s) iq)

  pub length-cancel_dc :
      (b : Balancer F) (iq : List (Complex Float)) (skip_eval : Bool)
      → length (cancel_dc b iq skip_eval).0 ≡ length iq
  unfolding cancel_dc
  length-cancel_dc b iq true = length-map iq (without_dc (averages b))
  length-cancel_dc b iq false = length-track_dc (averages b) iq

  pub length-adjust_phase_amplitude :
      (b : Balancer F) (iq : List (Complex Float))
      → length (adjust_phase_amplitude b iq).0 ≡ length iq
  unfolding adjust_phase_amplitude adjust_from
  length-adjust_phase_amplitude b iq = from (length iq) 0 iq
    where
      from : (n i : ℕ) (xs : List (Complex Float)) → length (adjust_from b n i xs) ≡ length xs
      from n i [] = refl
      from n i (x ∷ xs) = ap suc (from n (suc i) xs)
