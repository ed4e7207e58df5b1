-- ===== src/Balancer/Transform/Reversal.antt =====
-- The order in which `fft` of libairspyhf/src/iqbalancer.c permutes the buffer: bits reversed.
use airspyhf.Prelude.{
  ℕ, zero, suc, ◌+◌, ◌-◌, ◌*◌, ◌/◌, ◌%◌, ◌^◌, ◌≤◌, ◌<◌, ◌≡◌, refl, ap, ◌∙◌, some, arith, ◌⊎◌, inl,
  inr, ℕ_discrete,
}
use airspyhf.Balancer.Transform.{next_reversed}

-- the number whose `m` bits are those of `i` in the reverse order
unfoldable pub reversed : (m i : ℕ) → ℕ
reversed zero i = 0
reversed (suc m) i = i % 2 * 2 ^ m + reversed m (i / 2)

-- One more bit: the lowest bit of `i` becomes the highest one.
pub reversed_even : (m i : ℕ) → i % 2 ≡ 0 → reversed (suc m) i ≡ reversed m (i / 2)
unfolding reversed
reversed_even m i even = rw even (omega arith)

pub reversed_odd : (m i : ℕ) → i % 2 ≡ 1 → reversed (suc m) i ≡ 2 ^ m + reversed m (i / 2)
unfolding reversed
reversed_odd m i odd = rw odd (omega arith)

parity : (i : ℕ) → (i % 2 ≡ 0) ⊎ (i % 2 ≡ 1)
parity i = elim (ℕ_discrete (i % 2) 0) [ yes e ↦ inl e | no ne ↦ inr (omega arith) ]

pub reversed-lt : (m i : ℕ) → reversed m i < 2 ^ m
reversed-lt zero i = unfold reversed in omega arith
reversed-lt (suc m) i = elim (parity i) [
  | inl even ↦ rw (reversed_even m i even) (omega (arith, reversed-lt m (i / 2)))
  | inr odd ↦ rw (reversed_odd m i odd) (omega (arith, reversed-lt m (i / 2)))
]

next_reversed_low : (fuel k j : ℕ) → j < k → next_reversed (suc fuel) k j ≡ some (j + k)
unfolding next_reversed
next_reversed_low fuel k j h = ground arith

next_reversed_high :
    (fuel k j : ℕ) → k ≤ j → next_reversed (suc fuel) k j ≡ next_reversed fuel (k / 2) (j - k)
unfolding next_reversed
next_reversed_high fuel k j h = ground arith

-- 2 ^ m / 2, for a buffer of length 2 ^ (m + 1)
pub half_power : (m : ℕ) → 2 ^ suc m / 2 ≡ 2 ^ m
half_power m = omega arith

-- The loop that counts in reversed order ends before its fuel does, and gives the next number.
pub next_reversed-reversed :
    (m fuel i : ℕ)
    → m ≤ fuel
    → suc i < 2 ^ m
    → next_reversed (suc fuel) (2 ^ m / 2) (reversed m i) ≡ some (reversed m (suc i))
next_reversed-reversed zero fuel i f h = absurd (omega arith)
next_reversed-reversed (suc m) zero i f h = absurd (omega arith)
next_reversed-reversed (suc m) (suc fuel) i f h = elim (parity i) [
  | inl even ↦
      let low = reversed-lt m (i / 2) in
      let next = reversed_odd m (suc i) (omega arith) in
      let halves : suc i / 2 ≡ i / 2 = omega arith in
      rw (half_power m) (
        rw (reversed_even m i even, next, halves)
          (next_reversed_low (suc fuel) (2 ^ m) (reversed m (i / 2)) low ∙ ap some (omega arith)))
  | inr odd ↦
      let next = reversed_even m (suc i) (omega arith) in
      let halves : suc i / 2 ≡ suc (i / 2) = omega arith in
      let carry : next_reversed (suc fuel) (2 ^ m / 2) (reversed m (i / 2))
          ≡ some (reversed m (suc (i / 2))) =
        next_reversed-reversed m fuel (i / 2) (omega arith) (omega arith) in
      let rest : 2 ^ m + reversed m (i / 2) - 2 ^ m ≡ reversed m (i / 2) = omega arith in
      rw (half_power m) (
        rw (reversed_odd m i odd, next, halves)
          (next_reversed_high (suc fuel) (2 ^ m) (2 ^ m + reversed m (i / 2)) (omega arith)
            ∙ ap (next_reversed (suc fuel) (2 ^ m / 2)) rest
            ∙ carry))
]

-- The highest bit of `i` becomes the lowest one.
reversed_bottom : (m x : ℕ) → x < 2 ^ m → reversed (suc m) x ≡ 2 * reversed m x
reversed_bottom zero x h =
    let none_left : x ≡ 0 = omega arith in rw none_left (unfold reversed in refl)
reversed_bottom (suc m) x h = elim (parity x) [
  | inl even ↦
      rw (reversed_even (suc m) x even, reversed_even m x even)
        (reversed_bottom m (x / 2) (omega arith))
  | inr odd ↦
      rw (reversed_odd (suc m) x odd, reversed_odd m x odd)
        (omega (arith, reversed_bottom m (x / 2) (omega arith)))
]

reversed_top : (m x : ℕ) → x < 2 ^ m → reversed (suc m) (2 ^ m + x) ≡ 2 * reversed m x + 1
reversed_top zero x h =
    let none_left : x ≡ 0 = omega arith in rw none_left (unfold reversed in refl)
reversed_top (suc m) x h =
    let half : (2 ^ suc m + x) / 2 ≡ 2 ^ m + x / 2 = omega arith in
    let shorter = reversed_top m (x / 2) (omega arith) in
    elim (parity x) [
      | inl even ↦
          rw (reversed_even (suc m) (2 ^ suc m + x) (omega arith), reversed_even m x even, half)
            shorter
      | inr odd ↦
          rw (reversed_odd (suc m) (2 ^ suc m + x) (omega arith), reversed_odd m x odd, half)
            (omega (arith, shorter))
    ]

pub reversed-reversed : (m i : ℕ) → i < 2 ^ m → reversed m (reversed m i) ≡ i
reversed-reversed zero i h = unfold reversed in omega arith
reversed-reversed (suc m) i h =
    let shorter = reversed-reversed m (i / 2) (omega arith) in
    let small = reversed-lt m (i / 2) in
    elim (parity i) [
      | inl even ↦
          rw (reversed_even m i even, reversed_bottom m (reversed m (i / 2)) small)
            (omega (arith, shorter))
      | inr odd ↦
          rw (reversed_odd m i odd, reversed_top m (reversed m (i / 2)) small)
            (omega (arith, shorter))
    ]

pub reversed-zero : (m : ℕ) → reversed m 0 ≡ 0
unfolding reversed
reversed-zero zero = refl
reversed-zero (suc m) = omega (arith, reversed-zero m)

-- the index that the loop starts with
pub reversed-one : (m : ℕ) → reversed (suc m) 1 ≡ 2 ^ m
reversed-one m = reversed_odd m 1 refl ∙ omega (arith, reversed-zero m)

pub lt-power : (m : ℕ) → m < 2 ^ m
lt-power zero = omega arith
lt-power (suc m) = omega (arith, lt-power m)

-- With the buffer's length as its fuel the loop ends, while there is a next number.
pub next_reversed_ends :
    (m fuel i : ℕ)
    → m < fuel
    → suc i < 2 ^ m
    → next_reversed fuel (2 ^ m / 2) (reversed m i) ≡ some (reversed m (suc i))
next_reversed_ends m zero i f h = absurd (omega arith)
next_reversed_ends m (suc fuel) i f h = next_reversed-reversed m fuel i (omega arith) h
