-- ===== src/Balancer/Transform/Permute.antt =====
-- The first loop of `fft` of libairspyhf/src/iqbalancer.c permutes a buffer by reversed bits.
use airspyhf.Prelude.{
  ℕ, zero, suc, ◌+◌, ◌-◌, ◌/◌, ◌^◌, ◌≤◌, ◌<◌, ◌≡◌, ◌≢◌, refl, ap, sym, ◌∙◌, false, ◌||◌, some, List,
  [], ◌∷◌, arith, ltb, ◌==◌, length, get_elem?, set, length-set, get_elem?-set_self,
  get_elem?-set_ne, if◌then◌else◌, ℕ_discrete, dec_lt, lt→ltb,
}
use airspyhf.Prelude.Checked.{
  ◌>>=◌, write, for_up, Ensures, >>=-Ensures, Ensures-weaken, for_up-Ensures_next,
}
use airspyhf.Balancer.Transform.{swap, next_reversed, permute_round, permute}
use airspyhf.Balancer.Transform.Reversal.{
  reversed, reversed-lt, reversed-reversed, reversed-zero, reversed-one, next_reversed_ends,
  lt-power, half_power,
}

-- where an exchange of `i` and `j` takes a value from
abbrev pub swap_index : (i j p : ℕ) → ℕ
swap_index i j p = if p == i then j else if p == j then i else p

-- where the value at `p` comes from, before round `i` of the loop
abbrev origin : (m i p : ℕ) → ℕ
origin m i p = if ltb p i || ltb (reversed m p) i then reversed m p else p

-- The exchange of round `i` moves the loop on.
origin-swap_index :
    (m i p : ℕ)
    → i < reversed m i
    → i < 2 ^ m
    → p < 2 ^ m
    → origin m i (swap_index i (reversed m i) p) ≡ origin m (suc i) p
origin-swap_index m i p before hi hp =
    let back = reversed-reversed m i hi in
    let back_p = reversed-reversed m p hp in
    elim (ℕ_discrete p i) [
      | yes e ↦ rw e (ground arith)
      | no ne ↦ elim (ℕ_discrete p (reversed m i)) [
        | yes e ↦ rw e (ground arith)
        | no other ↦
            let apart : reversed m p ≢ i = λ same. other (sym back_p ∙ ap (reversed m) same) in
            ground arith
      ]
    ]

-- Where nothing is exchanged, the loop has been there.
origin_past :
    (m i p : ℕ) → reversed m i ≤ i → i < 2 ^ m → p < 2 ^ m → origin m i p ≡ origin m (suc i) p
origin_past m i p past hi hp =
    let back = reversed-reversed m i hi in
    let back_p = reversed-reversed m p hp in
    elim (ℕ_discrete p i) [
      | yes e ↦ rw e (ground arith)
      | no ne ↦ elim (ℕ_discrete (reversed m p) i) [
        | yes same ↦
            let from : p ≡ reversed m i = sym back_p ∙ ap (reversed m) same in
            rw from (rw back (ground arith))
        | no other ↦ ground arith
      ]
    ]

origin_start : (m p : ℕ) → p < 2 ^ m → origin m 1 p ≡ p
origin_start m p hp =
    let back_p = reversed-reversed m p hp in
    let nothing = reversed-zero m in
    elim (ℕ_discrete (reversed m p) 0) [
      | yes e ↦
          let first : p ≡ 0 = sym back_p ∙ ap (reversed m) e ∙ nothing in rw first (ground arith)
      | no ne ↦ let later : p ≢ 0 = λ e. ne (ap (reversed m) e ∙ nothing) in ground arith
    ]

origin_end : (m p : ℕ) → p < 2 ^ m → origin m (2 ^ m - 1) p ≡ reversed m p
origin_end m p hp =
    let small = reversed-lt m p in let back_p = reversed-reversed m p hp in ground arith

module _ {A : Type 0} where
  get_elem?-in : (xs : List A) (i : ℕ) → i < length xs → (a : A) × (get_elem? xs i ≡ some a)
  get_elem?-in [] i h = absurd (omega arith)
  get_elem?-in (x ∷ xs) zero h = (x, refl)
  get_elem?-in (x ∷ xs) (suc i) h = get_elem?-in xs i (omega arith)

  get_elem?-set :
      (xs : List A) (i : ℕ) (v : A) (p : ℕ)
      → i < length xs
      → get_elem? (set xs i v) p ≡ (if p == i then some v else get_elem? xs p)
  get_elem?-set xs i v p h = elim (ℕ_discrete i p) [
    | yes e ↦ rw (sym e) (get_elem?-set_self xs i v h ∙ ground arith)
    | no ne ↦ get_elem?-set_ne xs v ne ∙ ground arith
  ]

  -- what an exchange leaves, as `permute` uses it
  abbrev pub IsExchanged : (buffer : List A) (i j : ℕ) → List A → Type 0
  IsExchanged buffer i j b =
      (length b ≡ length buffer)
      × ((p : ℕ) → p < length buffer → get_elem? b p ≡ get_elem? buffer (swap_index i j p))

  swap-values :
      (buffer : List A) (i j : ℕ) (a t : A)
      → i < length buffer
      → j < length buffer
      → get_elem? buffer i ≡ some a
      → get_elem? buffer j ≡ some t
      → swap buffer i j ≡ some (set (set buffer j a) i t)
  unfolding swap write
  swap-values buffer i j a t hi hj ei ej =
      let second : i < length (set buffer j a) = omega (arith, length-set buffer j a) in
      rw (ej, ei, lt→ltb j (length buffer) hj, lt→ltb i (length (set buffer j a)) second) refl

  pub swap-IsExchanged :
      (buffer : List A) (i j : ℕ)
      → i < length buffer
      → j < length buffer
      → Ensures (IsExchanged buffer i j) (swap buffer i j)
  swap-IsExchanged buffer i j hi hj =
      let (a, ei) = get_elem?-in buffer i hi in
      let (t, ej) = get_elem?-in buffer j hj in
      rw (swap-values buffer i j a t hi hj ei ej) (
        length-set (set buffer j a) i t ∙ length-set buffer j a,
        λ p hp. ground (
          arith,
          get_elem?-set (set buffer j a) i t p (omega (arith, length-set buffer j a)),
          get_elem?-set buffer j a p hj,
          ei,
          ej,
        ),
      )

  abbrev IsPermuted : (m : ℕ) → List A → ℕ → List A × ℕ → Type 0
  IsPermuted m buffer i (b, j) =
      (j ≡ reversed m i)
      × (length b ≡ 2 ^ m)
      × ((p : ℕ) → p < 2 ^ m → get_elem? b p ≡ get_elem? buffer (origin m i p))

  module _ (m : ℕ) (buffer : List A) where
    -- the buffer once the exchange of round `i` was made
    abbrev IsMoved : ℕ → List A → Type 0
    IsMoved i c =
        (length c ≡ 2 ^ m)
        × ((p : ℕ) → p < 2 ^ m → get_elem? c p ≡ get_elem? buffer (origin m (suc i) p))

    exchange-IsMoved :
        (i j : ℕ) (b : List A)
        → i < 2 ^ m
        → IsPermuted m buffer i (b, j)
        → Ensures (IsMoved i) (if ltb i j then swap b i j else some b)
    exchange-IsMoved i j b hi (at, lb, values) =
        let hj : j < 2 ^ m = omega (arith, reversed-lt m i) in
        elim (dec_lt i j) [
          | yes before ↦ rw (lt→ltb i j before) (
              Ensures-weaken (IsExchanged b i j) (IsMoved i) (swap b i j)
                (swap-IsExchanged b i j (omega arith) (omega arith))
                (λ c h. (
                  h.0 ∙ lb,
                  λ p hp.
                      h.1 p (omega arith)
                      ∙ values (swap_index i j p) (ground arith)
                      ∙ ap (λ q. get_elem? buffer (origin m i (swap_index i q p))) at
                      ∙ ap (get_elem? buffer) (origin-swap_index m i p (omega arith) hi hp),
                )))
          | no past ↦
              let test : ltb i j ≡ false = ground arith in
              rw test (
                lb,
                λ p hp. values p hp ∙ ap (get_elem? buffer) (origin_past m i p (omega arith) hi hp),
              )
        ]

    permute_round-IsPermuted :
        (i : ℕ) (s : List A × ℕ)
        → suc i < 2 ^ m
        → IsPermuted m buffer i s
        → Ensures (IsPermuted m buffer (suc i)) (permute_round (2 ^ m) i s)
    unfolding permute_round
    permute_round-IsPermuted i (b, j) k (at, lb, values) =
        let next : next_reversed (2 ^ m) (2 ^ m / 2) j ≡ some (reversed m (suc i)) =
          ap (next_reversed (2 ^ m) (2 ^ m / 2)) at
          ∙ next_reversed_ends m (2 ^ m) i (lt-power m) k in
        >>=-Ensures (IsMoved i) (IsPermuted m buffer (suc i))
          (if ltb i j then swap b i j else some b)
          (λ c. next_reversed (2 ^ m) (2 ^ m / 2) j >>= λ l. some (c, l))
          (exchange-IsMoved i j b (omega arith) (at, lb, values))
          (λ c moved. rw next (refl, moved.0, moved.1))

    permute_rounds-IsPermuted :
        (i left : ℕ) (s : List A × ℕ)
        → i + left < 2 ^ m
        → IsPermuted m buffer i s
        → Ensures (IsPermuted m buffer (i + left)) (for_up (permute_round (2 ^ m)) i left s)
    permute_rounds-IsPermuted i left s h start =
        for_up-Ensures_next (IsPermuted m buffer) (permute_round (2 ^ m)) i left s start
          (λ j t lo hi k. permute_round-IsPermuted j t (omega arith) k)

    -- the buffer in the order of reversed bits
    abbrev pub IsReversed : List A → Type 0
    IsReversed c =
        (length c ≡ 2 ^ m) × ((p : ℕ) → p < 2 ^ m → get_elem? c p ≡ get_elem? buffer (reversed m p))

  -- On a buffer whose length is a power of two from 2 on, the first loop of the transform ends with no
  -- access outside of the buffer, and then each place has the value from the place with the
  -- reversed bits.
  pub permute-IsReversed :
      (m : ℕ) (buffer : List A)
      → length buffer ≡ 2 ^ suc m
      → Ensures (IsReversed (suc m) buffer) (permute (2 ^ suc m) buffer)
  unfolding permute
  permute-IsReversed m buffer len =
      let n = 2 ^ suc m in
      let two : 2 ≤ n = omega (arith, lt-power m) in
      let rounds =
        permute_rounds-IsPermuted (suc m) buffer 1 (n - 2) (buffer, n / 2) (omega arith)
          (
            half_power m ∙ sym (reversed-one m),
            len,
            λ p hp. sym (ap (get_elem? buffer) (origin_start (suc m) p hp)),
          ) in
      let last : 1 + (n - 2) ≡ n - 1 = omega arith in
      >>=-Ensures (IsPermuted (suc m) buffer (1 + (n - 2))) (IsReversed (suc m) buffer)
        (for_up (permute_round n) 1 (n - 2) (buffer, n / 2)) (λ s. some s.0) rounds
        (λ s h. (
          h.1,
          λ p hp.
              h.2 p hp
              ∙ ap (λ i. get_elem? buffer (origin (suc m) i p)) last
              ∙ ap (get_elem? buffer) (origin_end (suc m) p hp),
        ))
