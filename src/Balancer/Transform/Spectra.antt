-- ===== src/Balancer/Transform/Spectra.antt =====
-- The stages of `fft` of libairspyhf/src/iqbalancer.c, in place and iterative, against the recursive
-- definition of the transform that they compute.
use airspyhf.Prelude.{
  ℕ, zero, suc, ◌+◌, ◌-◌, ◌*◌, ◌/◌, ◌^◌, ◌≤◌, ◌<◌, ◌≡◌, refl, ap, sym, ◌∙◌, some, List, [], ◌∷◌,
  arith, length, get_elem?, get_or, dec_lt,
}
use airspyhf.Prelude.Int.{pos}
use airspyhf.Prelude.Checked.{for_up, Ensures, >>=-Ensures, Ensures-weaken}
use airspyhf.Floats.{Floats}
use airspyhf.Balancer.{Complex}
use airspyhf.Balancer.Transform.{stage_factor, stage}
use airspyhf.Balancer.Transform.Reversal.{reversed, reversed-lt, lt-power, half_power}
use airspyhf.Balancer.Transform.Permute.{IsReversed}
use airspyhf.Balancer.Transform.Stages.{IsPartial, stage-IsPartial, twiddle, upper_sum, lower_sum}
use airspyhf.Balancer.Transform.Recursive.{
  power_suc, power_add, power_le, even_place, odd_place, transform, transform-ext, transform_low,
  transform_high, strided, even_samples, odd_samples,
}

get_or-value :
    {A : Type 0} (xs : List A) (p : ℕ) (z : A) {a : A} → get_elem? xs p ≡ some a → get_or xs p z ≡ a
get_or-value [] p z e = ground arith
get_or-value (x ∷ xs) zero z e = ground arith
get_or-value (x ∷ xs) (suc p) z e = get_or-value xs p z e

get_elem?-get_or :
    {A : Type 0} (xs : List A) (p : ℕ) (z : A)
    → p < length xs
    → get_elem? xs p ≡ some (get_or xs p z)
get_elem?-get_or [] p z h = absurd (omega arith)
get_elem?-get_or (x ∷ xs) zero z h = refl
get_elem?-get_or (x ∷ xs) (suc p) z h = get_elem?-get_or xs p z (omega arith)

module _ (F : Floats) where
  -- Before stage `l + 1`: each block is the transform of the samples that the order of reversed bits
  -- has put there.
  record IsSpectra (x : ℕ → Complex F.Float) (l w : ℕ) (c : List (Complex F.Float)) : Type 0 where
    length_eq : length c ≡ 2 ^ (l + w)
    value :
        (t k : ℕ)
        → t < 2 ^ w
        → k < 2 ^ l
        → get_elem? c (t * 2 ^ l + k) ≡ some (transform F l (strided F x w t) k)

  abbrev silence : Complex F.Float
  silence = record { re = F.litf (pos 0) (pos 0); im = F.litf (pos 0) (pos 0) }

  module _ (x : ℕ → Complex F.Float) (l w : ℕ) (c : List (Complex F.Float))
      (h : IsSpectra x l (suc w) c) where
    abbrev before : ℕ → Complex F.Float
    before p = get_or c p silence

    even_block :
        (t k : ℕ)
        → t < 2 ^ w
        → k < 2 ^ l
        → before (t * 2 ^ suc l + k) ≡ transform F l (λ i. strided F x w t (2 * i)) k
    even_block t k ht hk =
        let place : t * 2 ^ suc l + k ≡ 2 * t * 2 ^ l + k =
          rw (power_suc l) (even_place t (2 ^ l) k) in
        rw place (
          get_or-value c (2 * t * 2 ^ l + k) silence (h.value (2 * t) k (omega arith) hk)
          ∙ transform-ext F l (strided F x (suc w) (2 * t)) (λ i. strided F x w t (2 * i)) k
              (even_samples F x w t))

    odd_block :
        (t k : ℕ)
        → t < 2 ^ w
        → k < 2 ^ l
        → before (t * 2 ^ suc l + k + 2 ^ l) ≡ transform F l (λ i. strided F x w t (2 * i + 1)) k
    odd_block t k ht hk =
        let place : t * 2 ^ suc l + k + 2 ^ l ≡ (2 * t + 1) * 2 ^ l + k =
          rw (power_suc l) (omega (arith, odd_place t (2 ^ l) k)) in
        rw place (
          get_or-value c ((2 * t + 1) * 2 ^ l + k) silence (h.value (2 * t + 1) k (omega arith) hk)
          ∙ transform-ext F l (strided F x (suc w) (2 * t + 1)) (λ i. strided F x w t (2 * i + 1)) k
              (odd_samples F x w t))

    half : 2 ^ suc l / 2 ≡ 2 ^ l
    half = half_power l

    abbrev n : ℕ
    n = 2 ^ (l + suc w)

    odd_half :
        (t k : ℕ)
        → t < 2 ^ w
        → k < 2 ^ l
        → before (t * 2 ^ suc l + k + 2 ^ suc l / 2)
          ≡ transform F l (λ i. strided F x w t (2 * i + 1)) k
    odd_half t k ht hk =
        ap (λ e. before (t * 2 ^ suc l + k + e)) (half_power l) ∙ odd_block t k ht hk

    module _ (some_length : 0 < n) (u : Complex F.Float) (d : List (Complex F.Float))
        (p : IsPartial F n some_length
          (2 ^ suc l)
          (2 ^ w)
          (stage_factor F (2 ^ l))
          before
          (2 ^ l)
          (d, u)) where
      low_value :
          (t k : ℕ)
          → t < 2 ^ w
          → k < 2 ^ l
          → get_elem? d (t * 2 ^ suc l + k) ≡ some (transform F (suc l) (strided F x w t) k)
      low_value t k ht hk =
          p.upper t k ht hk
          ∙ (λ i. some (
              upper_sum F (twiddle F (stage_factor F (2 ^ l)) k) (even_block t k ht hk i)
                (odd_half t k ht hk i)))
          ∙ ap some (sym (transform_low F l (strided F x w t) k hk))

      high_value :
          (t k : ℕ)
          → t < 2 ^ w
          → k < 2 ^ l
          → get_elem? d (t * 2 ^ suc l + (k + 2 ^ l))
            ≡ some (transform F (suc l) (strided F x w t) (k + 2 ^ l))
      high_value t k ht hk =
          let place : t * 2 ^ suc l + (k + 2 ^ l) ≡ t * 2 ^ suc l + k + 2 ^ suc l / 2 =
            omega (arith, half_power l) in
          ap (get_elem? d) place
          ∙ p.lower t k ht hk
          ∙ (λ i. some (
              lower_sum F (twiddle F (stage_factor F (2 ^ l)) k) (even_block t k ht hk i)
                (odd_half t k ht hk i)))
          ∙ ap some (sym (transform_high F l (strided F x w t) k))

      IsPartial-IsSpectra : IsSpectra x (suc l) w d
      IsPartial-IsSpectra = record {
        length_eq = p.length_eq ∙ ap (λ e. 2 ^ e) (omega arith);
        value = λ t k ht hk. elim (dec_lt k (2 ^ l)) [
          | yes low ↦ low_value t k ht low
          | no high ↦
              let back : k ≡ k - 2 ^ l + 2 ^ l = omega arith in
              rw back (high_value t (k - 2 ^ l) ht (omega arith))
        ];
      }

    stage-IsSpectra : Ensures (IsSpectra x (suc l) w) (stage F n (suc l) c)
    stage-IsSpectra =
        let some_length : 0 < n = omega (arith, lt-power (l + suc w)) in
        let blocks : n ≡ 2 ^ w * 2 ^ suc l = ap (λ e. 2 ^ e) (omega arith) ∙ power_add (suc l) w in
        let few : 2 ^ w ≤ n = omega (arith, power_le l (suc w), power_suc w) in
        let run = rw (half_power l) at (
          stage-IsPartial F n some_length (suc l) (2 ^ w) before c blocks few h.length_eq
            (λ q hq. get_elem?-get_or c q silence (omega (arith, h.length_eq)))) in
        Ensures-weaken
          (λ d.
            IsPartial F n some_length (2 ^ suc l) (2 ^ w) (stage_factor F (2 ^ l)) before (2 ^ l)
              (d, twiddle F (stage_factor F (2 ^ l)) (2 ^ l)))
          (IsSpectra x (suc l) w) (stage F n (suc l) c) run
          (λ d p. IsPartial-IsSpectra some_length (twiddle F (stage_factor F (2 ^ l)) (2 ^ l)) d p)

  -- the loop over the stages, with `w` to go
  stages-IsSpectra :
      (x : ℕ → Complex F.Float) (w l n : ℕ) (c : List (Complex F.Float))
      → n ≡ 2 ^ (l + w)
      → IsSpectra x l w c
      → Ensures (IsSpectra x (l + w) 0) (for_up (stage F n) (suc l) w c)
  unfolding for_up
  stages-IsSpectra x zero l n c e h = let same : l + 0 ≡ l = omega arith in rw same h
  stages-IsSpectra x (suc w) l n c e h =
      let same : l + suc w ≡ suc l + w = omega arith in
      rw same (
        >>=-Ensures (IsSpectra x (suc l) w) (IsSpectra x (suc l + w) 0) (stage F n (suc l) c)
          (λ d. for_up (stage F n) (suc (suc l)) w d) (rw e (stage-IsSpectra x l w c h))
          (λ d k. stages-IsSpectra x w (suc l) n d (e ∙ ap (λ q. 2 ^ q) same) k))

  -- the samples of a buffer
  abbrev pub samples : List (Complex F.Float) → ℕ → Complex F.Float
  samples b p = get_or b p silence

  IsReversed-IsSpectra :
      (m : ℕ) (b c : List (Complex F.Float))
      → length b ≡ 2 ^ m
      → IsReversed m b c
      → IsSpectra (samples b) 0 m c
  unfolding transform
  IsReversed-IsSpectra m b c len (len', values) = record {
    length_eq = len' ∙ ap (λ e. 2 ^ e) (omega arith);
    value = λ t k ht hk.
        let place : t * 2 ^ 0 + k ≡ t = omega arith in
        let from : 0 * 2 ^ m + reversed m t ≡ reversed m t = omega arith in
        rw (place, from)
          (values t ht
            ∙ get_elem?-get_or b (reversed m t) silence (omega (arith, reversed-lt m t)));
  }

  -- one block is left, and it has the samples in their order
  whole_block :
      (b : List (Complex F.Float)) (m k : ℕ) (d : List (Complex F.Float))
      → k < 2 ^ m
      → IsSpectra (samples b) m 0 d
      → get_elem? d k ≡ some (transform F m (samples b) k)
  unfolding reversed
  whole_block b m k d hk g =
      let place : 0 * 2 ^ m + k ≡ k = omega arith in
      rw place at (g.value 0 k (omega arith) hk)
      ∙ ap some (
          transform-ext F m (strided F (samples b) 0 0) (samples b) k
            (λ i. ap (samples b) (omega arith)))

  -- On the permuted buffer, the stages leave the transform.
  pub permuted-stages :
      (m : ℕ) (b c : List (Complex F.Float))
      → length b ≡ 2 ^ m
      → IsReversed m b c
      → Ensures
          (λ d.
            (length d ≡ 2 ^ m)
            × ((k : ℕ) → k < 2 ^ m → get_elem? d k ≡ some (transform F m (samples b) k)))
          (for_up (stage F (2 ^ m)) 1 m c)
  permuted-stages m b c len h =
      let none_left : 0 + m ≡ m = omega arith in
      let run = rw none_left at (
        stages-IsSpectra (samples b) m 0 (2 ^ m) c (ap (λ e. 2 ^ e) (omega arith))
          (IsReversed-IsSpectra m b c len h)) in
      Ensures-weaken (IsSpectra (samples b) m 0) _ (for_up (stage F (2 ^ m)) 1 m c) run
        (λ d g. (g.length_eq ∙ ap (λ e. 2 ^ e) (omega arith), λ k hk. whole_block b m k d hk g))
