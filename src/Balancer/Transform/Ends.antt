-- ===== src/Balancer/Transform/Ends.antt =====
-- `fft` of libairspyhf/src/iqbalancer.c ends, and stays inside of its buffer.
use airspyhf.Prelude.{
  ℕ, zero, suc, ◌+◌, ◌-◌, ◌*◌, ◌/◌, ◌^◌, ◌≤◌, ◌<◌, ◌≡◌, ap, sym, ◌∙◌, true, false, some, List,
  arith, ltb, leb, length, lt→ltb, le→leb,
}
use airspyhf.Prelude.Checked.{
  read, write, for_up, Ensures, >>=-Ensures, for_up-Ensures, read-Ensures, write-Ensures,
}
use airspyhf.Floats.{Floats}
use airspyhf.Balancer.{Complex}
use airspyhf.Balancer.Transform.{
  swap, permute, stages, swap_halves, butterfly, butterflies, stage_round, stage_factor, stage, fft,
}
use airspyhf.Balancer.Transform.Reversal.{lt-power}
use airspyhf.Balancer.Transform.Permute.{IsReversed, permute-IsReversed}

-- The loop that counts the stages ends with the exponent of the length.
pub stages-power : (m fuel a : ℕ) → m < fuel → stages fuel a (2 ^ m) ≡ some (a + m)
unfolding stages
stages-power m zero a h = absurd (omega arith)
stages-power zero (suc fuel) a h = ap some (omega arith)
stages-power (suc m) (suc fuel) a h =
    let more : ltb 1 (2 ^ suc m) ≡ true = lt→ltb 1 (2 ^ suc m) (omega (arith, lt-power m)) in
    let half : 2 ^ suc m / 2 ≡ 2 ^ m = omega arith in
    let sum : suc a + m ≡ a + suc m = omega arith in
    rw (more, half) (stages-power m fuel (suc a) (omega arith) ∙ ap some sum)

module _ {A : Type 0} (n : ℕ) where
  -- the buffer has its length
  abbrev pub HasLength : List A → Type 0
  HasLength b = length b ≡ n

  swap-HasLength :
      (b : List A) (i j : ℕ) → HasLength b → i < n → j < n → Ensures HasLength (swap b i j)
  unfolding swap
  swap-HasLength b i j h hi hj =
      >>=-Ensures (λ t. Unit {0}) HasLength (read b j) _ (read-Ensures b j (omega arith))
        (λ t u.
          >>=-Ensures (λ a. Unit {0}) HasLength (read b i) _ (read-Ensures b i (omega arith))
            (λ a v.
              >>=-Ensures HasLength HasLength (write b j a) (λ c. write c i t)
                (write-Ensures b j a h hj) (λ c k. write-Ensures c i t k hi)))

  swap_halves-HasLength : (b : List A) → HasLength b → Ensures HasLength (swap_halves n b)
  unfolding swap_halves
  swap_halves-HasLength b h =
      for_up-Ensures HasLength (λ i c. swap c i (n / 2 + i)) 0 (n / 2) b h
        (λ i c lo hi k. swap-HasLength c i (n / 2 + i) k (omega arith) (omega arith))

module _ (F : Floats) (n : ℕ) (some_length : 0 < n) where
  butterfly-HasLength :
      (u : Complex F.Float) (i ip : ℕ) (b : List (Complex F.Float))
      → HasLength n b
      → i < n
      → ip < n
      → Ensures (HasLength n) (butterfly F u i ip b)
  unfolding butterfly
  butterfly-HasLength u i ip b h hi hip =
      >>=-Ensures (λ t. Unit {0}) (HasLength n) (read b ip) _ (read-Ensures b ip (omega arith))
        (λ t _.
          >>=-Ensures (λ a. Unit {0}) (HasLength n) (read b i) _ (read-Ensures b i (omega arith))
            (λ a _.
              >>=-Ensures (HasLength n) (HasLength n) (write b ip _) (λ c. write c i _)
                (write-Ensures b ip _ h hip) (λ c k. write-Ensures c i _ k hi)))

  -- The innermost loop, with `blocks` of length `le` to go.
  butterflies-HasLength :
      (blocks fuel le : ℕ) (u : Complex F.Float) (base jm1 : ℕ) (b : List (Complex F.Float))
      → HasLength n b
      → blocks < fuel
      → jm1 < le / 2
      → n ≡ base + blocks * le
      → Ensures (HasLength n) (butterflies F fuel le (n - 1) u (base + jm1) b)
  unfolding butterflies
  butterflies-HasLength blocks zero le u base jm1 b h f inside e = absurd (omega arith)
  butterflies-HasLength zero (suc fuel) le u base jm1 b h f inside e =
      let done : leb (base + jm1) (n - 1) ≡ false = ground arith in rw done h
  butterflies-HasLength (suc blocks) (suc fuel) le u base jm1 b h f inside e =
      let more : n ≡ base + le + blocks * le = omega arith in
      let test : leb (base + jm1) (n - 1) ≡ true = le→leb (base + jm1) (n - 1) (omega arith) in
      let move : base + jm1 + le ≡ base + le + jm1 = omega arith in
      rw (test, move)
        (>>=-Ensures (HasLength n) (HasLength n)
          (butterfly F u (base + jm1) (base + jm1 + le / 2) b)
          (λ c. butterflies F fuel le (n - 1) u (base + le + jm1) c)
          (butterfly-HasLength u (base + jm1) (base + jm1 + le / 2) b h (omega arith) (omega arith))
          (λ c k.
            butterflies-HasLength blocks fuel le u (base + le) jm1 c k (omega arith) inside more))

  stage_round-HasLength :
      (blocks le : ℕ) (r : Complex F.Float) (j : ℕ) (s : List (Complex F.Float) × Complex F.Float)
      → HasLength n s.0
      → n ≡ blocks * le
      → blocks ≤ n
      → 1 ≤ j
      → j < 1 + le / 2
      → Ensures (λ t. HasLength n t.0) (stage_round F n le r j s)
  unfolding stage_round
  stage_round-HasLength blocks le r j (b, u) h e few lo hi =
      let from : 0 + (j - 1) ≡ j - 1 = omega arith in
      let inner =
        butterflies-HasLength blocks (suc n) le u 0 (j - 1) b h (omega arith) (omega arith)
          (omega arith) in
      >>=-Ensures (HasLength n) (λ t. HasLength n t.0)
        (butterflies F (suc n) le (n - 1) u (j - 1) b) _ (rw from at inner) (λ c k. k)

  stage-HasLength :
      (l blocks : ℕ) (b : List (Complex F.Float))
      → n ≡ blocks * 2 ^ l
      → blocks ≤ n
      → HasLength n b
      → Ensures (HasLength n) (stage F n l b)
  unfolding stage
  stage-HasLength l blocks b e few h =
      >>=-Ensures (λ t. HasLength n t.0) (HasLength n)
        (for_up (stage_round F n (2 ^ l) (stage_factor F (2 ^ l / 2))) 1 (2 ^ l / 2) (b, _))
        (λ s. some s.0)
        (for_up-Ensures (λ t. HasLength n t.0)
          (stage_round F n (2 ^ l) (stage_factor F (2 ^ l / 2))) 1 (2 ^ l / 2) (b, _) h
          (λ j t lo hi k. stage_round-HasLength blocks (2 ^ l) _ j t k e few lo hi))
        (λ t k. k)

-- A power of two is made of blocks of each smaller one.
power_blocks : (l d : ℕ) → (blocks : ℕ) × (2 ^ (l + d) ≡ blocks * 2 ^ l) × (blocks ≤ 2 ^ (l + d))
power_blocks l zero =
    let same : l + 0 ≡ l = omega arith in rw same (1, omega arith, omega (arith, lt-power l))
power_blocks l (suc d) =
    let (blocks, e, few) = power_blocks l d in
    let next : l + suc d ≡ suc (l + d) = omega arith in
    let twice : 2 ^ suc (l + d) ≡ 2 * 2 ^ (l + d) = omega arith in
    rw (next, twice) (2 * blocks, omega arith, omega arith)

module _ (F : Floats) (m : ℕ) where
  -- On a buffer whose length is a power of two from 2 on, `fft` comes to an end, with no access
  -- outside of the buffer, and the buffer keeps its length.
  pub fft-HasLength :
      (b : List (Complex F.Float))
      → length b ≡ 2 ^ suc m
      → Ensures (HasLength (2 ^ suc m)) (fft F (2 ^ suc m) b)
  unfolding fft
  fft-HasLength b h =
      let n = 2 ^ suc m in
      let counted : stages n 0 n ≡ some (suc m) =
        stages-power (suc m) n 0 (lt-power (suc m)) ∙ ap some (omega arith) in
      let positive : 0 < n = omega (arith, lt-power (suc m)) in
      rw counted (
        >>=-Ensures (IsReversed (suc m) b) (HasLength n) (permute n b) _ (permute-IsReversed m b h)
          (λ c k.
            >>=-Ensures (HasLength n) (HasLength n) (for_up (stage F n) 1 (suc m) c) (swap_halves n)
              (for_up-Ensures (HasLength n) (stage F n) 1 (suc m) c k.0 (λ l t lo hi g.
                let (blocks, e, few) = power_blocks l (suc m - l) in
                let exponent : l + (suc m - l) ≡ suc m = omega arith in
                stage-HasLength F n positive l blocks t (ap (λ k. 2 ^ k) (sym exponent) ∙ e)
                  (within (2 ^ (l + (suc m - l))) few (ap (λ k. 2 ^ k) exponent)) g))
              (swap_halves-HasLength n)))
    where
      within : {a b : ℕ} (c : ℕ) → a ≤ c → c ≡ b → a ≤ b
      within c h e = omega arith
