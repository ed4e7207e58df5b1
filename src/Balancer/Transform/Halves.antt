-- ===== src/Balancer/Transform/Halves.antt =====
-- The last loop of `fft` of libairspyhf/src/iqbalancer.c, which exchanges the halves of the buffer.
use airspyhf.Prelude.{
  ℕ, suc, ◌+◌, ◌-◌, ◌/◌, ◌<◌, ◌≡◌, ap, ◌∙◌, List, arith, ltb, length, get_elem?, if◌then◌else◌,
}
use airspyhf.Prelude.Checked.{Ensures, Ensures-weaken, for_up-Ensures_next}
use airspyhf.Balancer.Transform.{swap, swap_halves}
use airspyhf.Balancer.Transform.Permute.{swap_index, IsExchanged, swap-IsExchanged}

-- where the value at `p` comes from, with halves of length `h`, before round `i`
abbrev pub shifted : (h i p : ℕ) → ℕ
shifted h i p = if ltb p i then p + h else if ltb p h then p else if ltb p (h + i) then p - h else p

shifted-swap_index :
    (h i p : ℕ) → i < h → p < h + h → shifted h i (swap_index i (h + i) p) ≡ shifted h (suc i) p
shifted-swap_index h i p hi hp = ground arith

module _ {A : Type 0} (h : ℕ) (buffer : List A) where
  abbrev pub IsShifted : ℕ → List A → Type 0
  IsShifted i b =
      (length b ≡ h + h) × ((p : ℕ) → p < h + h → get_elem? b p ≡ get_elem? buffer (shifted h i p))

  swap-IsShifted :
      (i : ℕ) (b : List A) → i < h → IsShifted i b → Ensures (IsShifted (suc i)) (swap b i (h + i))
  swap-IsShifted i b hi (len, values) =
      Ensures-weaken (IsExchanged b i (h + i)) (IsShifted (suc i)) (swap b i (h + i))
        (swap-IsExchanged b i (h + i) (omega arith) (omega arith))
        (λ c k. (
          k.0 ∙ len,
          λ p hp.
              k.1 p (omega arith)
              ∙ values (swap_index i (h + i) p) (ground arith)
              ∙ ap (get_elem? buffer) (shifted-swap_index h i p hi hp),
        ))

  pub swap_halves-IsShifted :
      (n : ℕ) → n ≡ h + h → length buffer ≡ n → Ensures (IsShifted h) (swap_halves n buffer)
  unfolding swap_halves
  swap_halves-IsShifted n e len =
      let half : n / 2 ≡ h = omega arith in
      let last : 0 + h ≡ h = omega arith in
      rw half (
        rw last at (
          for_up-Ensures_next IsShifted (λ i b. swap b i (h + i)) 0 h buffer
            (len ∙ e, λ p hp. ap (get_elem? buffer) (ground arith))
            (λ j b lo hi k. swap-IsShifted j b (omega arith) k)))
