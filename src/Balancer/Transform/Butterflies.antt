-- ===== src/Balancer/Transform/Butterflies.antt =====
-- What the innermost loop of `fft` of libairspyhf/src/iqbalancer.c, with its butterflies at one offset of
-- each block, leaves at each place of the buffer.
use airspyhf.Prelude.{
  ℕ, zero, suc, ◌+◌, ◌-◌, ◌*◌, ◌/◌, ◌<◌, ◌≡◌, ◌≢◌, refl, ap, sym, ◌∙◌, true, false, some, List,
  arith, ltb, leb, length, length-set, get_elem?, get_elem?-set_self, get_elem?-set_ne, set, lt→ltb,
  le→leb, dec_lt,
}
use airspyhf.Prelude.Checked.{write, Ensures, >>=-Ensures, Ensures-weaken}
use airspyhf.Floats.{Floats}
use airspyhf.Balancer.{Complex}
use airspyhf.Balancer.Transform.{turn, add_complex, sub_complex, butterfly, butterflies}

mul_gap : (t d le : ℕ) → (t + suc d) * le ≡ t * le + le + d * le
mul_gap t d le = omega arith

-- A place of a block is a place of the buffer.
pub place_lt : (t blocks le j : ℕ) → t < blocks → j < le → t * le + j < blocks * le
place_lt t blocks le j ht hj =
    let d = blocks - suc t in
    let more : blocks ≡ t + suc d = omega arith in
    let gap : blocks * le ≡ t * le + le + d * le = ap (λ r. r * le) more ∙ mul_gap t d le in
    omega (arith, gap)

-- Two places with different offsets in their blocks are different.
pub offset_ne : (t s le j k : ℕ) → j < le → k < le → j ≢ k → t * le + j ≢ s * le + k
offset_ne t s le j k hj hk ne e = elim (dec_lt t s) [
  | yes lt ↦
      let d = s - suc t in
      let s_eq : s ≡ t + suc d = omega arith in
      let gap : s * le ≡ t * le + le + d * le = ap (λ r. r * le) s_eq ∙ mul_gap t d le in
      omega (arith, gap, e)
  | no ge ↦ elim (dec_lt s t) [
    | yes gt ↦
        let d = t - suc s in
        let t_eq : t ≡ s + suc d = omega arith in
        let gap : t * le ≡ s * le + le + d * le = ap (λ r. r * le) t_eq ∙ mul_gap s d le in
        omega (arith, gap, e)
    | no le' ↦
        let same : t ≡ s = omega arith in
        let products : t * le ≡ s * le = ap (λ r. r * le) same in ne (omega (arith, products, e))
  ]
]

module _ (F : Floats) (n : ℕ) (some_length : 0 < n) where
  -- a butterfly: two places are changed
  record IsButterfly (u a b : Complex F.Float) (i ip : ℕ) (c d : List (Complex F.Float))
      : Type 0 where
    length_eq : length d ≡ n
    upper : get_elem? d i ≡ some (add_complex F a (turn F u b))
    lower : get_elem? d ip ≡ some (sub_complex F a (turn F u b))
    others : (p : ℕ) → p ≢ i → p ≢ ip → get_elem? d p ≡ get_elem? c p

  butterfly-IsButterfly :
      (u a b : Complex F.Float) (i ip : ℕ) (c : List (Complex F.Float))
      → length c ≡ n
      → i < n
      → ip < n
      → i ≢ ip
      → get_elem? c i ≡ some a
      → get_elem? c ip ≡ some b
      → Ensures (IsButterfly u a b i ip c) (butterfly F u i ip c)
  unfolding butterfly write
  butterfly-IsButterfly u a b i ip c len hi hip ne ra rb =
      let low = sub_complex F a (turn F u b) in
      let high = add_complex F a (turn F u b) in
      let first : ltb ip (length c) ≡ true = lt→ltb ip (length c) (omega (arith, len)) in
      let lengths : length (set c ip low) ≡ n = length-set c ip low ∙ len in
      let second : ltb i (length (set c ip low)) ≡ true =
        lt→ltb i (length (set c ip low)) (omega (arith, lengths)) in
      rw (rb, ra, first, second)
        record {
          length_eq = length-set (set c ip low) i high ∙ lengths;
          upper = get_elem?-set_self (set c ip low) i high (omega (arith, lengths));
          lower =
              get_elem?-set_ne (set c ip low) high ne
              ∙ get_elem?-set_self c ip low (omega (arith, len));
          others = λ p pi pip.
              get_elem?-set_ne (set c ip low) high (λ e. pi (sym e))
              ∙ get_elem?-set_ne c low (λ e. pip (sym e));
        }

  -- Whether `f` tells what is at the places that one round changes, in blocks of length `le`.
  abbrev pub Tells :
      (f : ℕ → Complex F.Float) (base k le blocks : ℕ) → List (Complex F.Float) → Type 0
  Tells f base k le blocks c =
      (t : ℕ)
      → t < blocks
      → (get_elem? c (base + t * le + k) ≡ some (f (base + t * le + k)))
        × (get_elem? c (base + t * le + k + le / 2) ≡ some (f (base + t * le + k + le / 2)))

  -- One round: in each block, a butterfly at offset `k`.
  pub record IsRound (u : Complex F.Float) (f : ℕ → Complex F.Float) (base k le blocks : ℕ)
      (c d : List (Complex F.Float)) : Type 0 where
    pub length_eq : length d ≡ n
    pub upper :
        (t : ℕ)
        → t < blocks
        → get_elem? d (base + t * le + k)
          ≡ some (add_complex F (f (base + t * le + k)) (turn F u (f (base + t * le + k + le / 2))))
    pub lower :
        (t : ℕ)
        → t < blocks
        → get_elem? d (base + t * le + k + le / 2)
          ≡ some (sub_complex F (f (base + t * le + k)) (turn F u (f (base + t * le + k + le / 2))))
    pub others :
        (p : ℕ)
        → ((t : ℕ) → t < blocks → (p ≢ base + t * le + k) × (p ≢ base + t * le + k + le / 2))
        → get_elem? d p ≡ get_elem? c p

  module _ (u : Complex F.Float) (f : ℕ → Complex F.Float) (k le : ℕ) (inside : k < le / 2) where
    -- the places of the blocks after the first one
    next_block : (base t : ℕ) → base + suc t * le + k ≡ base + le + t * le + k
    next_block base t = omega arith

    next_block_low : (base t : ℕ) → base + suc t * le + k + le / 2 ≡ base + le + t * le + k + le / 2
    next_block_low base t = omega arith

    first_block : (base : ℕ) → base + 0 * le + k ≡ base + k
    first_block base = omega arith

    first_block_low : (base : ℕ) → base + 0 * le + k + le / 2 ≡ base + k + le / 2
    first_block_low base = omega arith

    -- A butterfly in the first block leaves the others.
    later-Tells :
        (base blocks : ℕ) (b c : List (Complex F.Float))
        → IsButterfly u (f (base + k)) (f (base + k + le / 2)) (base + k) (base + k + le / 2) b c
        → Tells f base k le (suc blocks) b
        → Tells f (base + le) k le blocks c
    later-Tells base blocks b c h tells t lt = (
      h.others (base + le + t * le + k) (λ e. omega (arith, e, inside))
            (λ e. omega (arith, e, inside))
          ∙ ap (get_elem? b) (sym (next_block base t))
          ∙ (tells (suc t) (omega arith)).0
          ∙ ap (λ q. some (f q)) (next_block base t),
      h.others (base + le + t * le + k + le / 2) (λ e. omega (arith, e, inside))
            (λ e. omega (arith, e, inside))
          ∙ ap (get_elem? b) (sym (next_block_low base t))
          ∙ (tells (suc t) (omega arith)).1
          ∙ ap (λ q. some (f q)) (next_block_low base t),
    )

    module _ (base blocks : ℕ) (b c d : List (Complex F.Float))
        (h : IsButterfly u
          (f (base + k))
          (f (base + k + le / 2))
          (base + k)
          (base + k + le / 2)
          b
          c)
        (r : IsRound u f (base + le) k le blocks c d) where
      kept_upper : get_elem? d (base + k) ≡ get_elem? c (base + k)
      kept_upper =
          r.others (base + k)
            (λ t lt. (λ e. omega (arith, e, inside), λ e. omega (arith, e, inside)))

      kept_lower : get_elem? d (base + k + le / 2) ≡ get_elem? c (base + k + le / 2)
      kept_lower =
          r.others (base + k + le / 2)
            (λ t lt. (λ e. omega (arith, e, inside), λ e. omega (arith, e, inside)))

      upper_place :
          (t : ℕ)
          → t < suc blocks
          → get_elem? d (base + t * le + k)
            ≡ some
                (add_complex F (f (base + t * le + k)) (turn F u (f (base + t * le + k + le / 2))))
      upper_place zero lt = rw (first_block base) (kept_upper ∙ h.upper)
      upper_place (suc t) lt = rw (next_block base t) (r.upper t (omega arith))

      lower_place :
          (t : ℕ)
          → t < suc blocks
          → get_elem? d (base + t * le + k + le / 2)
            ≡ some
                (sub_complex F (f (base + t * le + k)) (turn F u (f (base + t * le + k + le / 2))))
      lower_place zero lt = rw (first_block base) (kept_lower ∙ h.lower)
      lower_place (suc t) lt = rw (next_block base t) (r.lower t (omega arith))

      -- A butterfly in the first block and a round over the others make a round.
      IsRound-suc : IsRound u f base k le (suc blocks) b d
      IsRound-suc = record {
        length_eq = r.length_eq;
        upper = upper_place;
        lower = lower_place;
        others = λ p apart.
            r.others p (λ t lt. (
              λ e. (apart (suc t) (omega arith)).0 (e ∙ sym (next_block base t)),
              λ e. (apart (suc t) (omega arith)).1 (e ∙ sym (next_block_low base t)),
            ))
            ∙ h.others p (λ e. (apart 0 (omega arith)).0 (e ∙ sym (first_block base)))
                (λ e. (apart 0 (omega arith)).1 (e ∙ sym (first_block_low base)));
      }

    -- The innermost loop, with `blocks` of length `le` to go.
    pub butterflies-IsRound :
        (blocks fuel base : ℕ) (b : List (Complex F.Float))
        → length b ≡ n
        → blocks < fuel
        → n ≡ base + blocks * le
        → Tells f base k le blocks b
        → Ensures (IsRound u f base k le blocks b) (butterflies F fuel le (n - 1) u (base + k) b)
    unfolding butterflies
    butterflies-IsRound blocks zero base b len more e tells = absurd (omega arith)
    butterflies-IsRound zero (suc fuel) base b len more e tells =
        let done : leb (base + k) (n - 1) ≡ false = ground arith in
        rw done record {
          length_eq = len;
          upper = λ t lt. absurd (omega arith);
          lower = λ t lt. absurd (omega arith);
          others = λ p apart. refl;
        }
    butterflies-IsRound (suc blocks) (suc fuel) base b len more e tells =
        let rest : n ≡ base + le + blocks * le = omega arith in
        let test : leb (base + k) (n - 1) ≡ true = le→leb (base + k) (n - 1) (omega arith) in
        let move : base + k + le ≡ base + le + k = omega arith in
        let first = rw (first_block base) at (tells 0 (omega arith)) in
        rw (test, move)
          (>>=-Ensures
            (IsButterfly u (f (base + k)) (f (base + k + le / 2)) (base + k) (base + k + le / 2) b)
            (IsRound u f base k le (suc blocks) b) (butterfly F u (base + k) (base + k + le / 2) b)
            (λ c. butterflies F fuel le (n - 1) u (base + le + k) c)
            (butterfly-IsButterfly u (f (base + k)) (f (base + k + le / 2)) (base + k)
              (base + k + le / 2) b len (omega arith) (omega arith) (omega arith) first.0 first.1)
            (λ c h.
              Ensures-weaken (IsRound u f (base + le) k le blocks c)
                (IsRound u f base k le (suc blocks) b)
                (butterflies F fuel le (n - 1) u (base + le + k) c)
                (butterflies-IsRound blocks fuel (base + le) c h.length_eq (omega arith) rest
                  (later-Tells base blocks b c h tells))
                (λ d r. IsRound-suc base blocks b c d h r)))
