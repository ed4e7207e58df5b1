-- ===== src/Balancer/Transform/Recursive.antt =====
-- The recursive definition of the transform that `fft` of libairspyhf/src/iqbalancer.c computes, and how its
-- samples at even and odd places stand in the order of reversed bits.
use airspyhf.Prelude.{
  ℕ, zero, suc, ◌+◌, ◌-◌, ◌*◌, ◌/◌, ◌^◌, ◌≤◌, ◌<◌, ◌≡◌, refl, ap, false, arith, ltb, if◌then◌else◌,
  lt→ltb,
}
use airspyhf.Floats.{Floats}
use airspyhf.Balancer.{Complex}
use airspyhf.Balancer.Transform.{stage_factor}
use airspyhf.Balancer.Transform.Reversal.{reversed, reversed_even, reversed_odd}
use airspyhf.Balancer.Transform.Stages.{twiddle, upper_sum, lower_sum}

pub power_suc : (w : ℕ) → 2 ^ suc w ≡ 2 * 2 ^ w
power_suc w = omega arith

pub power_add : (l w : ℕ) → 2 ^ (l + w) ≡ 2 ^ w * 2 ^ l
power_add l zero = let same : l + 0 ≡ l = omega arith in rw same (omega arith)
power_add l (suc w) =
    let next : l + suc w ≡ suc (l + w) = omega arith in
    rw (next, power_suc w, power_suc (l + w), power_add l w) (omega arith)

pub power_le : (l w : ℕ) → 2 ^ w ≤ 2 ^ (l + w)
power_le zero w = let same : 0 + w ≡ w = omega arith in rw same (omega arith)
power_le (suc l) w =
    let next : suc l + w ≡ suc (l + w) = omega arith in
    rw (next, power_suc (l + w)) (omega (arith, power_le l w))

pub even_place : (i p r : ℕ) → i * (2 * p) + r ≡ 2 * i * p + r
even_place i p r = omega arith

pub odd_place : (i p r : ℕ) → i * (2 * p) + (p + r) ≡ (2 * i + 1) * p + r
odd_place i p r = omega arith

module _ (F : Floats) where
  -- The transform of 2 ^ `l` values, by the transforms of those at even and of those at odd places.
  unfoldable pub transform : (l : ℕ) → (ℕ → Complex F.Float) → ℕ → Complex F.Float
  transform zero x k = x 0
  transform (suc l) x k =
      let even = transform l (λ i. x (2 * i)) in
      let odd = transform l (λ i. x (2 * i + 1)) in
      let u = twiddle F (stage_factor F (2 ^ l)) in
      if ltb k (2 ^ l)
      then upper_sum F (u k) (even k) (odd k)
      else lower_sum F (u (k - 2 ^ l)) (even (k - 2 ^ l)) (odd (k - 2 ^ l))

  pub transform-ext :
      (l : ℕ) (x y : ℕ → Complex F.Float) (k : ℕ)
      → ((i : ℕ) → x i ≡ y i)
      → transform l x k ≡ transform l y k
  transform-ext l x y k e = ap (λ (v : ℕ → Complex F.Float). transform l v k) (λ d. λ i. e i d)

  pub transform_low :
      (l : ℕ) (x : ℕ → Complex F.Float) (k : ℕ)
      → k < 2 ^ l
      → transform (suc l) x k
        ≡ upper_sum F
            (twiddle F (stage_factor F (2 ^ l)) k)
            (transform l (λ i. x (2 * i)) k)
            (transform l (λ i. x (2 * i + 1)) k)
  unfolding transform
  transform_low l x k h = rw (lt→ltb k (2 ^ l) h) refl

  pub transform_high :
      (l : ℕ) (x : ℕ → Complex F.Float) (k : ℕ)
      → transform (suc l) x (k + 2 ^ l)
        ≡ lower_sum F
            (twiddle F (stage_factor F (2 ^ l)) k)
            (transform l (λ i. x (2 * i)) k)
            (transform l (λ i. x (2 * i + 1)) k)
  unfolding transform
  transform_high l x k =
      let test : ltb (k + 2 ^ l) (2 ^ l) ≡ false = ground arith in
      let back : k + 2 ^ l - 2 ^ l ≡ k = omega arith in rw (test, back) refl

  -- the samples of the block `t`, where there are 2 ^ `w` blocks
  abbrev pub strided : (ℕ → Complex F.Float) → (w t : ℕ) → ℕ → Complex F.Float
  strided x w t i = x (i * 2 ^ w + reversed w t)

  pub even_samples :
      (x : ℕ → Complex F.Float) (w t i : ℕ) → strided x (suc w) (2 * t) i ≡ strided x w t (2 * i)
  even_samples x w t i =
      let halved : 2 * t / 2 ≡ t = omega arith in
      rw (reversed_even w (2 * t) (omega arith), halved, power_suc w)
        (ap x (even_place i (2 ^ w) (reversed w t)))

  pub odd_samples :
      (x : ℕ → Complex F.Float) (w t i : ℕ)
      → strided x (suc w) (2 * t + 1) i ≡ strided x w t (2 * i + 1)
  odd_samples x w t i =
      let halved : (2 * t + 1) / 2 ≡ t = omega arith in
      rw (reversed_odd w (2 * t + 1) (omega arith), halved, power_suc w)
        (ap x (odd_place i (2 ^ w) (reversed w t)))
