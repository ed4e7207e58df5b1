-- ===== src/Balancer/Tests.antt =====
-- Small transforms, a balancer with four bins' worth of samples, and the theorems there.
use airspyhf.Prelude.{ℕ, ◌≡◌, refl, false, none, some, List, [], ◌∷◌, ◌++◌, length, replicate}
use airspyhf.Prelude.Int.{ℤ, pos, negsuc}
use airspyhf.Prelude.Checked.{Ensures, write, for_up}
use airspyhf.Balancer.{Complex, Balancer, create}
use airspyhf.Balancer.Transform.{swap, next_reversed, permute_round, permute, fft}
use airspyhf.Balancer.Transform.Spectrum.{IsSpectrum, fft-IsSpectrum}
use airspyhf.Balancer.Correction.{cancel_dc, cancel_dc-append}
use airspyhf.Balancer.Process.{process}
use airspyhf.Balancer.Sound.{IsSound}
use airspyhf.Balancer.Sound.Setup.{create-IsSound}
use airspyhf.Balancer.Sound.Process.{process-IsSound}
use airspyhf.Fixed.{fixed}

abbrev eight : List ℕ
eight = 0 ∷ 1 ∷ 2 ∷ 3 ∷ 4 ∷ 5 ∷ 6 ∷ 7 ∷ []

permute_test : permute 8 eight ≡ some (0 ∷ 4 ∷ 2 ∷ 6 ∷ 1 ∷ 5 ∷ 3 ∷ 7 ∷ [])
unfolding permute permute_round for_up next_reversed swap write
permute_test = refl

-- all ones have no next number, and the loop does not end
next_reversed_test : next_reversed 100 4 7 ≡ none
unfolding next_reversed
next_reversed_test = refl

abbrev pub quiet : Complex ℤ
quiet = record { re = pos 0; im = pos 0 }

abbrev silence : ℕ → List (Complex ℤ)
silence n = replicate n quiet

-- 1, i, 2, -1
abbrev four : List (Complex ℤ)
four =
    record { re = pos 1; im = pos 0 }
    ∷ record { re = pos 0; im = pos 1 }
    ∷ record { re = pos 2; im = pos 0 }
    ∷ record { re = negsuc 0; im = pos 0 }
    ∷ []

fft-IsSpectrum_example : Ensures (IsSpectrum fixed 1 four) (fft fixed 4 four)
fft-IsSpectrum_example = fft-IsSpectrum fixed 1 four refl

-- as `airspyhf_open_init` makes it
unfoldable pub new_balancer : Balancer fixed
new_balancer =
    create fixed (pos 60000000) (negsuc 4499999999) (λ i. false) (λ i. quiet) (λ i. quiet)
      (λ i. quiet) (λ i. pos 0)

pub new_balancer-IsSound : IsSound fixed new_balancer
unfolding new_balancer
new_balancer-IsSound =
    create-IsSound fixed (pos 60000000) (negsuc 4499999999) (λ i. false) (λ i. quiet) (λ i. quiet)
      (λ i. quiet) (λ i. pos 0)

create-IsSound_example : IsSound fixed new_balancer
unfolding new_balancer
create-IsSound_example =
    create-IsSound fixed (pos 60000000) (negsuc 4499999999) (λ i. false) (λ i. quiet) (λ i. quiet)
      (λ i. quiet) (λ i. pos 0)

process-IsSound_example :
    Ensures
      (λ (r : List (Complex ℤ) × Balancer fixed). (length r.0 ≡ 7) × IsSound fixed r.1)
      (process fixed new_balancer (silence 7) false)
process-IsSound_example = process-IsSound fixed new_balancer (silence 7) false new_balancer-IsSound

cancel_dc-append_example : cancel_dc fixed new_balancer (silence 5) false ≡ (
  (cancel_dc fixed new_balancer (silence 2) false).0
      ++ (cancel_dc fixed (cancel_dc fixed new_balancer (silence 2) false).1 (silence 3) false).0,
  (cancel_dc fixed (cancel_dc fixed new_balancer (silence 2) false).1 (silence 3) false).1,
)
cancel_dc-append_example = cancel_dc-append fixed new_balancer (silence 2) (silence 3) false
