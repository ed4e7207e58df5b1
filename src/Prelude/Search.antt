-- ===== src/Prelude/Search.antt =====
-- A loop that looks for the first index of a table that passes a test.
use Prim.Native.Nat.{ℕ, zero, suc, ◌+◌, ◌≤◌, ◌<◌}
use mathlib.Core.Path.{◌≡◌, refl}
use mathlib.Core.Logic.{◌⊎◌, inl, inr}
use mathlib.Core.Bool.{Bool, true, false}
use native.Mathlib.Omega.{arith}
use native.Mathlib.Decide.{dec_lt}
use airspyhf.Prelude.Tests.{if◌then◌else◌, Bool-cases}

-- for (; i < n; i++) if (test(i)) break; with `left` rounds to go, and `miss` where none passes
unfoldable pub first_index : (ℕ → Bool) → (miss i left : ℕ) → ℕ
first_index test miss i zero = miss
first_index test miss i (suc left) =
    let rest = first_index test miss (i + 1) left in if test i then i else rest

-- no index from `i` on and before `n` passes
abbrev pub NonePasses : (ℕ → Bool) → ℕ → ℕ → Type 0
NonePasses test i n = (j : ℕ) → i ≤ j → j < n → test j ≡ false

-- `r` is the first index that passes, or `miss` where none does
abbrev pub First : (ℕ → Bool) → ℕ → ℕ → ℕ → ℕ → Type 0
First test miss i n r =
    ((i ≤ r) × (r < n) × (test r ≡ true) × NonePasses test i r) ⊎ ((r ≡ miss) × NonePasses test i n)

module _ (test : ℕ → Bool) (miss : ℕ) where
  NonePasses-suc : (i n : ℕ) → test i ≡ false → NonePasses test (i + 1) n → NonePasses test i n
  NonePasses-suc i n fails h j a b = elim (dec_lt i j) [
    | yes after ↦ h j (omega arith) b
    | no at ↦ let same : j ≡ i = omega arith in rw same fails
  ]

  First-suc : (i n r : ℕ) → test i ≡ false → First test miss (i + 1) n r → First test miss i n r
  First-suc i n r fails (inl (a, b, c, d)) = inl (omega arith, b, c, NonePasses-suc i r fails d)
  First-suc i n r fails (inr (a, d)) = inr (a, NonePasses-suc i n fails d)

  pub first_index-First :
      (i left n : ℕ) → i + left ≡ n → First test miss i n (first_index test miss i left)
  unfolding first_index
  first_index-First i zero n e = inr (refl, λ j a b. absurd (omega arith))
  first_index-First i (suc left) n e = elim (Bool-cases (test i)) [
    | inl hit ↦ rw hit (inl (omega arith, omega arith, hit, λ j a b. absurd (omega arith)))
    | inr fails ↦ rw fails (First-suc i n _ fails (first_index-First (i + 1) left n (omega arith)))
  ]

  -- Where nothing passes, the search misses.
  pub First-miss : (i n r : ℕ) → NonePasses test i n → First test miss i n r → r ≡ miss
  First-miss i n r none_passes (inl (a, b, c, d)) = absurd (clash (none_passes r a b) c)
    where
      clash : test r ≡ false → test r ≡ true → ⊥
      clash p q = cc
  First-miss i n r none_passes (inr (e, d)) = e

  -- Where something passes, the search finds the first index that does.
  pub First-found :
      (i n r k : ℕ)
      → i ≤ k
      → k < n
      → test k ≡ true
      → First test miss i n r
      → (i ≤ r) × (r ≤ k) × (test r ≡ true) × NonePasses test i r
  First-found i n r k a b passes (inl (p, q, c, d)) = (
    p,
    elim (dec_lt k r) [ yes lt ↦ absurd (clash (d k a lt) passes) | no le ↦ omega arith ],
    c,
    d,
  )
    where
      clash : test k ≡ false → test k ≡ true → ⊥
      clash p q = cc
  First-found i n r k a b passes (inr (e, d)) = absurd (clash (d k a b) passes)
    where
      clash : test k ≡ false → test k ≡ true → ⊥
      clash p q = cc
