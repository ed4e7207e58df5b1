-- ===== src/Balancer/Transform/Stages.antt =====
-- What one stage of `fft` of libairspyhf/src/iqbalancer.c leaves at each place of the buffer.
use airspyhf.Prelude.{
  ℕ, zero, suc, ◌+◌, ◌-◌, ◌*◌, ◌/◌, ◌^◌, ◌≤◌, ◌<◌, ◌≡◌, ◌≢◌, refl, ap, sym, ◌∙◌, some, List, arith,
  length, get_elem?, ℕ_discrete,
}
use airspyhf.Prelude.Int.{pos}
use airspyhf.Prelude.Checked.{for_up, Ensures, >>=-Ensures, for_up-Ensures_next}
use airspyhf.Floats.{Floats}
use airspyhf.Balancer.{Complex}
use airspyhf.Balancer.Transform.{
  turn, add_complex, sub_complex, butterflies, stage_round, stage_factor, stage,
}
use airspyhf.Balancer.Transform.Butterflies.{offset_ne, place_lt, IsRound, butterflies-IsRound}

-- the factor of the butterflies at offset `k`
unfoldable pub twiddle : (F : Floats) → Complex F.Float → ℕ → Complex F.Float
twiddle F r zero = record { re = F.litf (pos 1) (pos 0); im = F.litf (pos 0) (pos 0) }
twiddle F r (suc k) = turn F (twiddle F r k) r

-- what a stage puts at the two places of a butterfly
abbrev pub upper_sum : (F : Floats) (u a b : Complex F.Float) → Complex F.Float
upper_sum F u a b = add_complex F a (turn F u b)

abbrev pub lower_sum : (F : Floats) (u a b : Complex F.Float) → Complex F.Float
lower_sum F u a b = sub_complex F a (turn F u b)

module _ (F : Floats) (n : ℕ) (some_length : 0 < n) (le blocks : ℕ) (r : Complex F.Float)
    (f : ℕ → Complex F.Float) where
  -- The buffer of a stage, and `u`, once the offsets below `done` had their round.
  pub record IsPartial (done : ℕ) (s : List (Complex F.Float) × Complex F.Float) : Type 0 where
    pub length_eq : length s.0 ≡ n
    factor : s.1 ≡ twiddle F r done
    pub upper :
        (t k : ℕ)
        → t < blocks
        → k < done
        → get_elem? s.0 (t * le + k)
          ≡ some (upper_sum F (twiddle F r k) (f (t * le + k)) (f (t * le + k + le / 2)))
    pub lower :
        (t k : ℕ)
        → t < blocks
        → k < done
        → get_elem? s.0 (t * le + k + le / 2)
          ≡ some (lower_sum F (twiddle F r k) (f (t * le + k)) (f (t * le + k + le / 2)))
    waiting :
        (t k : ℕ)
        → t < blocks
        → done ≤ k
        → k < le / 2
        → (get_elem? s.0 (t * le + k) ≡ some (f (t * le + k)))
          × (get_elem? s.0 (t * le + k + le / 2) ≡ some (f (t * le + k + le / 2)))

  -- a place that the round at offset `k` leaves alone
  other_place :
      (k p t j : ℕ)
      → p ≡ t * le + j
      → j < le
      → k < le / 2
      → j ≢ k
      → j ≢ k + le / 2
      → (s : ℕ) → (p ≢ 0 + s * le + k) × (p ≢ 0 + s * le + k + le / 2)
  other_place k p t j at inside small ne ne' s = (
    λ e. offset_ne t s le j k inside (omega arith) ne (omega (arith, at, e)),
    λ e. offset_ne t s le j (k + le / 2) inside (omega arith) ne' (omega (arith, at, e)),
  )

  from_start : (k t : ℕ) → 0 + t * le + k ≡ t * le + k
  from_start k t = omega arith

  module _ (k : ℕ) (small : k < le / 2) (b d : List (Complex F.Float)) (u : Complex F.Float)
      (h : IsPartial k (b, u)) (round : IsRound F n some_length u f 0 k le blocks b d) where
    kept :
        (p t j : ℕ)
        → p ≡ t * le + j
        → j < le
        → j ≢ k
        → j ≢ k + le / 2
        → get_elem? d p ≡ get_elem? b p
    kept p t j at inside ne ne' =
        round.others p (λ s lt. other_place k p t j at inside small ne ne' s)

    upper_suc :
        (t j : ℕ)
        → t < blocks
        → j < suc k
        → get_elem? d (t * le + j)
          ≡ some (upper_sum F (twiddle F r j) (f (t * le + j)) (f (t * le + j + le / 2)))
    upper_suc t j ht hj = elim (ℕ_discrete j k) [
      | yes e ↦ rw (e, sym h.factor, sym (from_start k t)) (round.upper t ht)
      | no ne ↦
          kept (t * le + j) t j refl (omega arith) ne (omega arith) ∙ h.upper t j ht (omega arith)
    ]

    lower_suc :
        (t j : ℕ)
        → t < blocks
        → j < suc k
        → get_elem? d (t * le + j + le / 2)
          ≡ some (lower_sum F (twiddle F r j) (f (t * le + j)) (f (t * le + j + le / 2)))
    lower_suc t j ht hj = elim (ℕ_discrete j k) [
      | yes e ↦ rw (e, sym h.factor, sym (from_start k t)) (round.lower t ht)
      | no ne ↦
          kept (t * le + j + le / 2) t (j + le / 2) (omega arith) (omega arith) (omega arith)
            (omega arith)
          ∙ h.lower t j ht (omega arith)
    ]

    IsPartial-suc : IsPartial (suc k) (d, turn F u r)
    unfolding twiddle
    IsPartial-suc = record {
      length_eq = round.length_eq;
      factor = ap (λ v. turn F v r) h.factor;
      upper = upper_suc;
      lower = lower_suc;
      waiting = λ t j ht lo hi. (
        kept (t * le + j) t j refl (omega arith) (omega arith) (omega arith)
            ∙ (h.waiting t j ht (omega arith) hi).0,
        kept (t * le + j + le / 2) t (j + le / 2) (omega arith) (omega arith) (omega arith)
              (omega arith)
            ∙ (h.waiting t j ht (omega arith) hi).1,
      );
    }

  stage_round-IsPartial :
      (k : ℕ) (s : List (Complex F.Float) × Complex F.Float)
      → n ≡ blocks * le
      → blocks ≤ n
      → k < le / 2
      → IsPartial k s
      → Ensures (IsPartial (suc k)) (stage_round F n le r (suc k) s)
  unfolding stage_round
  stage_round-IsPartial k (b, u) e few small h =
      let before : suc k - 1 ≡ 0 + k = omega arith in
      rw before (
        >>=-Ensures (IsRound F n some_length u f 0 k le blocks b) (IsPartial (suc k))
          (butterflies F (suc n) le (n - 1) u (0 + k) b) (λ c. some (c, turn F u r))
          (butterflies-IsRound F n some_length u f k le small blocks (suc n) 0 b h.length_eq
            (omega arith) (omega arith)
            (λ t lt. rw (from_start k t) (h.waiting t k lt (omega arith) small)))
          (λ d round. IsPartial-suc k small b d u h round))

  -- the round at index `suc k` of the loop over `j`
  round-IsPartial :
      (j : ℕ) (s : List (Complex F.Float) × Complex F.Float)
      → n ≡ blocks * le
      → blocks ≤ n
      → 1 ≤ j
      → j < 1 + le / 2
      → IsPartial (j - 1) s
      → Ensures (IsPartial (suc j - 1)) (stage_round F n le r j s)
  round-IsPartial zero s e few lo hi h = absurd (omega arith)
  round-IsPartial (suc k) s e few lo hi h =
      let before : suc k - 1 ≡ k = omega arith in
      let after_it : suc (suc k) - 1 ≡ suc k = omega arith in
      rw after_it (stage_round-IsPartial k s e few (omega arith) (rw before at h))

  stage_start :
      (b : List (Complex F.Float))
      → n ≡ blocks * le
      → length b ≡ n
      → ((p : ℕ) → p < n → get_elem? b p ≡ some (f p))
      → IsPartial 0 (b, twiddle F r 0)
  stage_start b e len values = record {
    length_eq = len;
    factor = refl;
    upper = λ t k ht hk. absurd (omega arith);
    lower = λ t k ht hk. absurd (omega arith);
    waiting = λ t k ht lo hi. (
      values (t * le + k) (omega (arith, e, place_lt t blocks le k ht (omega arith))),
      values (t * le + k + le / 2)
          (omega (arith, e, place_lt t blocks le (k + le / 2) ht (omega arith))),
    );
  }

-- After a stage, every offset had its round.
pub stage-IsPartial :
    (F : Floats) (n : ℕ) (some_length : 0 < n) (l blocks : ℕ) (f : ℕ → Complex F.Float)
    (b : List (Complex F.Float))
    → n ≡ blocks * 2 ^ l
    → blocks ≤ n
    → length b ≡ n
    → ((p : ℕ) → p < n → get_elem? b p ≡ some (f p))
    → let le = 2 ^ l in
      let r = stage_factor F (le / 2) in
      Ensures
        (λ c. IsPartial F n some_length le blocks r f (le / 2) (c, twiddle F r (le / 2)))
        (stage F n l b)
unfolding stage twiddle
stage-IsPartial F n some_length l blocks f b e few len values =
    let le = 2 ^ l in
    let r = stage_factor F (le / 2) in
    let first : 1 - 1 ≡ 0 = omega arith in
    let all : 1 + le / 2 - 1 ≡ le / 2 = omega arith in
    let P = λ (j : ℕ) (s : List (Complex F.Float) × Complex F.Float).
      IsPartial F n some_length le blocks r f (j - 1) s in
    let start = stage_start F n some_length le blocks r f b e len values in
    >>=-Ensures (P (1 + le / 2))
      (λ c. IsPartial F n some_length le blocks r f (le / 2) (c, twiddle F r (le / 2)))
      (for_up (stage_round F n le r) 1 (le / 2) (b, twiddle F r 0)) (λ s. some s.0)
      (for_up-Ensures_next P (stage_round F n le r) 1 (le / 2) (b, twiddle F r 0) (rw first start)
        (λ j s lo hi h. round-IsPartial F n some_length le blocks r f j s e few lo hi h))
      (λ s h. let g = rw all at h in rw (sym g.factor) g)
