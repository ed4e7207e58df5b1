-- ===== src/Balancer/Transform.antt =====
-- libairspyhf/src/iqbalancer.c: `fft`, in place on a buffer of any length, `window` and the tables
-- of `__init_library`. An access outside of the buffer, and a loop that does not end, is `none`.
pub mod Reversal
pub mod Permute
pub mod Ends
mod Butterflies
mod Stages
pub mod Recursive
mod Spectra
mod Halves
pub mod Spectrum
use airspyhf.Prelude.{
  ℕ, zero, suc, ◌+◌, ◌-◌, ◌*◌, ◌/◌, ◌^◌, Option, none, some, List, [], ◌∷◌, ltb, leb, length,
  if◌then◌else◌,
}
use airspyhf.Prelude.Int.{ℤ, pos, negsuc}
use airspyhf.Prelude.Checked.{◌>>=◌, read, write, for_up}
use airspyhf.Floats.{Floats}
use airspyhf.Balancer.{Complex, fft_bins}

-- t = buffer[j]; buffer[j] = buffer[i]; buffer[i] = t;
unfoldable pub swap : {A : Type 0} → List A → ℕ → ℕ → Option (List A)
swap buffer i j = do t ← read buffer j; a ← read buffer i; b ← write buffer j a; write b i t

-- while (k <= j) { j = j - k; k = k / 2; } j += k;
unfoldable pub next_reversed : (fuel k j : ℕ) → Option ℕ
next_reversed zero k j = none
next_reversed (suc fuel) k j =
    let rest = next_reversed fuel (k / 2) (j - k) in if leb k j then rest else some (j + k)

-- One round of the loop that permutes the buffer: the buffer, and `j`.
unfoldable pub permute_round : {A : Type 0} → (length : ℕ) → ℕ → List A × ℕ → Option (List A × ℕ)
permute_round length i (buffer, j) = do
  b ← if ltb i j then swap buffer i j else some buffer
  k ← next_reversed length (length / 2) j
  some (b, k)

-- the loop, for `i` from 1 up to `length - 2`
unfoldable pub permute : {A : Type 0} → (length : ℕ) → List A → Option (List A)
permute length buffer = do
  (b, j) ← for_up (permute_round length) 1 (length - 2) (buffer, length / 2)
  some b

-- m = 0; i = length; while (i > 1) { ++m; i = (i >> 1); }
unfoldable pub stages : (fuel m i : ℕ) → Option ℕ
stages zero m i = none
stages (suc fuel) m i = let rest = stages fuel (suc m) (i / 2) in if ltb 1 i then rest else some m

-- The two halves of the buffer change places.
unfoldable pub swap_halves : {A : Type 0} → (length : ℕ) → List A → Option (List A)
swap_halves length buffer = for_up (λ i b. swap b i (length / 2 + i)) 0 (length / 2) buffer

module _ (F : Floats) where
  open F use {
    Float, addf, subf, mulf, of_intf, litf, lit, of_int, add, sub, mul, div, cos, sin, neg, exp,
    pow, narrow, widen,
  }

  -- `u * b`, as it is written out in `fft` for the samples and for `u`
  unfoldable pub turn : Complex Float → Complex Float → Complex Float
  turn u b = record {
    re = subf (mulf u.re b.re) (mulf u.im b.im);
    im = addf (mulf u.im b.re) (mulf u.re b.im);
  }

  abbrev pub add_complex : Complex Float → Complex Float → Complex Float
  add_complex a t = record { re = addf a.re t.re; im = addf a.im t.im }

  abbrev pub sub_complex : Complex Float → Complex Float → Complex Float
  sub_complex a t = record { re = subf a.re t.re; im = subf a.im t.im }

  -- the body of the innermost loop
  unfoldable pub butterfly :
      Complex Float → (i ip : ℕ) → List (Complex Float) → Option (List (Complex Float))
  butterfly u i ip buffer = do
    b ← read buffer ip
    a ← read buffer i
    lower ← write buffer ip (sub_complex a (turn u b))
    write lower i (add_complex a (turn u b))

  -- for (; i <= nm1; i += le)
  unfoldable pub butterflies :
      (fuel le nm1 : ℕ) → Complex Float → ℕ → List (Complex Float) → Option (List (Complex Float))
  butterflies zero le nm1 u i buffer = none
  butterflies (suc fuel) le nm1 u i buffer =
      let next = λ (b : List (Complex Float)). butterflies fuel le nm1 u (i + le) b in
      if leb i nm1 then butterfly u i (i + le / 2) buffer >>= next else some buffer

  -- One round of the loop over `j`: the buffer, and `u`.
  unfoldable pub stage_round :
      (length le : ℕ)
      → Complex Float
      → ℕ
      → List (Complex Float) × Complex Float
      → Option (List (Complex Float) × Complex Float)
  stage_round length le r j (buffer, u) = do
    b ← butterflies (suc length) le (length - 1) u (j - 1) buffer
    some (b, turn u r)

  -- the factor between the angles of a stage
  unfoldable pub stage_factor : ℕ → Complex Float
  stage_factor le2 =
      let angle = div (lit (pos 314159265359) (negsuc 10)) (of_int (pos le2)) in
      record { re = narrow (cos angle); im = narrow (neg (sin angle)) }

  -- One round of the loop over `l`.
  unfoldable pub stage : (length : ℕ) → ℕ → List (Complex Float) → Option (List (Complex Float))
  stage length l buffer = do
    let le = 2 ^ l
    (b, u) ←
        for_up (stage_round length le (stage_factor (le / 2))) 1 (le / 2)
          (buffer, record { re = litf (pos 1) (pos 0); im = litf (pos 0) (pos 0) })
    some b

  -- `fft`
  unfoldable pub fft : (length : ℕ) → List (Complex Float) → Option (List (Complex Float))
  fft length buffer = do
    m ← stages length 0 length
    permuted ← permute length buffer
    transformed ← for_up (stage length) 1 m permuted
    swap_halves length transformed

  -- `window`: each sample by the entry of the table at its index
  unfoldable pub window : List Float → List (Complex Float) → List (Complex Float)
  window [] buffer = buffer
  window (w ∷ table) [] = []
  window (w ∷ table) (s ∷ buffer) =
      record { re = mulf s.re w; im = mulf s.im w } ∷ window table buffer

  -- 2π k i / (FFTBins - 1), with `twice` for 2 k
  unfoldable pub window_angle : (twice : ℕ) → ℕ → F.Double
  window_angle twice i =
      div
        (mul (mul (lit (pos twice) (pos 0)) (lit (pos 314159265359) (negsuc 10))) (of_int (pos i)))
        (of_int (pos (fft_bins - 1)))

  -- an entry of `__fft_window`
  unfoldable pub window_entry : ℕ → Float
  window_entry i = narrow (
      sub
        (add
          (sub (widen (litf (pos 35875) (negsuc 4)))
            (mul (widen (litf (pos 48829) (negsuc 4))) (cos (window_angle 2 i))))
          (mul (widen (litf (pos 14128) (negsuc 4))) (cos (window_angle 4 i))))
        (mul (widen (litf (pos 1168) (negsuc 4))) (cos (window_angle 6 i))))

  -- an entry of `__boost_window`, with BinsToOptimize = FFTBins / 25 and BoostFactor = 100000.0
  unfoldable pub boost_entry : ℕ → Float
  boost_entry i = narrow (
      add (div (lit (pos 1) (pos 0)) (lit (pos 100000) (pos 0))) (
        div (lit (pos 1) (pos 0)) (
          exp (
            pow (div (mul (of_int (pos i)) (lit (pos 2) (pos 0))) (of_int (pos (fft_bins / 25))))
              (lit (pos 2) (pos 0))))))

  -- the loop of `__init_library`, from `i` on
  unfoldable pub table_from : (ℕ → Float) → (i left : ℕ) → List Float
  table_from entry i zero = []
  table_from entry i (suc left) = entry i ∷ table_from entry (suc i) left

  -- the two static tables, once the library was initialised
  unfoldable pub fft_window : List Float
  fft_window = table_from window_entry 0 fft_bins

  unfoldable pub boost_window : List Float
  boost_window = table_from boost_entry 0 fft_bins
