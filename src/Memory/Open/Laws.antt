-- ===== src/Memory/Open/Laws.antt =====
-- What `airspyhf_open_init` takes, `airspyhf_close` gives back: libairspyhf/src/airspyhf.c.
use airspyhf.Prelude.{
  ℕ, zero, suc, ◌+◌, Bool, true, false, not, ◌&&◌, Option, none, some, [], ◌∷◌, arith,
  if◌then◌else◌,
}
use airspyhf.Prelude.Counts.{count, count-append}
use airspyhf.Prelude.Checked.{Allows, >>=-Allows, Ensures-Allows}
use airspyhf.Memory.{Store, malloc, free, block}
use airspyhf.Memory.Transfers.{queue_blocks}
use airspyhf.Memory.Transfers.Laws.{count-malloc, Leaves, free-Leaves}
use airspyhf.Memory.Open.{
  Answers, Tables, BalancerBlocks, tables_blocks, balancer_blocks, written, need, rate_tables,
  step_table, load_tables, allocate_arrays, create_balancer,
}

-- the result of an allocation that must succeed, with `r` for the other blocks
abbrev IsTaken : (ℕ → ℕ) → ℕ × Store → Type 0
IsTaken r (p, s) = Leaves (λ a. count a (p ∷ []) + r a) s

written-IsTaken :
    (p : Option ℕ) (r : ℕ → ℕ) (s : Store)
    → Leaves (λ a. count a (block p) + r a) s
    → Allows (IsTaken r) (written p s)
unfolding written
written-IsTaken none r s h = tt
written-IsTaken (some p) r s h = h

abbrev pub AreTables : (ℕ → ℕ) → Tables × Store → Type 0
AreTables r (t, s) = Leaves (λ a. count a (tables_blocks t) + r a) s

abbrev pub IsBalancer : (ℕ → ℕ) → BalancerBlocks × Store → Type 0
IsBalancer r (b, s) = Leaves (λ a. count a (balancer_blocks b) + r a) s

module _ (gives : ℕ → Bool) where
  pub malloc-Leaves :
      (r : ℕ → ℕ) (s : Store)
      → Leaves r s
      → Leaves (λ a. count a (block (malloc gives s).0) + r a) (malloc gives s).1
  malloc-Leaves r s h a = omega (arith, count-malloc gives s a, h a)

  need-IsTaken : (r : ℕ → ℕ) (s : Store) → Leaves r s → Allows (IsTaken r) (need gives s)
  unfolding need
  need-IsTaken r s h = written-IsTaken (malloc gives s).0 r (malloc gives s).1 (malloc-Leaves r s h)

  -- A table that could not be read is freed before the default one is made.
  unread-Leaves :
      (unread : Bool) (r : ℕ → ℕ) (s : Store)
      → Leaves r s
      → Allows (Leaves r) (if unread then free (malloc gives s).0 (malloc gives s).1 else some s)
  unread-Leaves true r s h =
      Ensures-Allows (Leaves r) (free (malloc gives s).0 (malloc gives s).1)
        (free-Leaves (malloc gives s).0 r (malloc gives s).1 (malloc-Leaves r s h))
  unread-Leaves false r s h = h

  abbrev AreRates : (ℕ → ℕ) → ℕ × ℕ × Store → Type 0
  AreRates r (p, q, s) = Leaves (λ a. count a (p ∷ q ∷ []) + r a) s

  rate_tables-AreRates :
      (counted read : Bool) (r : ℕ → ℕ) (s : Store)
      → Leaves r s
      → Allows (AreRates r) (rate_tables gives counted read s)
  unfolding rate_tables
  rate_tables-AreRates counted read r s h =
      >>=-Allows (Leaves r) (AreRates r) _ _ (unread-Leaves (counted && not read) r s h) (λ t k.
        >>=-Allows (IsTaken r) (AreRates r) (need gives t) _ (need-IsTaken r t k) (λ p l.
          let more = λ (a : ℕ). count a (p.0 ∷ []) + r a in
          >>=-Allows (IsTaken more) (AreRates r) (need gives p.1) _ (need-IsTaken more p.1 l)
            (λ q m. λ a. omega (arith, m a))))

  step_table-IsTaken :
      (counted read : Bool) (r : ℕ → ℕ) (s : Store)
      → Leaves r s
      → Allows (IsTaken r) (step_table gives counted read s)
  unfolding step_table
  step_table-IsTaken counted read r s h =
      >>=-Allows (Leaves r) (IsTaken r) _ _ (unread-Leaves (counted && not read) r s h)
        (λ t k. need-IsTaken r t k)

  pub load_tables-AreTables :
      (answers : Answers) (r : ℕ → ℕ) (s : Store)
      → Leaves r s
      → Allows (AreTables r) (load_tables gives answers s)
  unfolding load_tables
  load_tables-AreTables answers r s h =
      >>=-Allows (AreRates r) (AreTables r) _ _
        (rate_tables-AreRates answers.rates_counted answers.rates_read r s h)
        (λ p k.
          let more = λ (a : ℕ). count a (p.0 ∷ p.1 ∷ []) + r a in
          >>=-Allows (IsTaken more) (AreTables r) _ _
            (step_table-IsTaken answers.steps_counted answers.steps_read more p.2 k)
            (λ q l. λ a. omega (arith, l a)))

  allocate_arrays-Leaves :
      (left : ℕ) (r : ℕ → ℕ) (s : Store)
      → Leaves r s
      → Leaves
          (λ a. count a (queue_blocks (allocate_arrays gives left s).0) + r a)
          (allocate_arrays gives left s).1
  unfolding allocate_arrays
  allocate_arrays-Leaves zero r s h a = omega (arith, h a)
  allocate_arrays-Leaves (suc left) r s h a =
      let t = (malloc gives s).1 in
      let more = λ (b : ℕ). count b (block (malloc gives s).0) + r b in
      omega (
        arith,
        allocate_arrays-Leaves left more t (malloc-Leaves r s h) a,
        count-append a (block (malloc gives s).0) (queue_blocks (allocate_arrays gives left t).0),
      )

  pub create_balancer-IsBalancer :
      (r : ℕ → ℕ) (s : Store) → Leaves r s → Allows (IsBalancer r) (create_balancer gives s)
  unfolding create_balancer
  create_balancer-IsBalancer r s h =
      >>=-Allows (IsTaken r) (IsBalancer r) (need gives s) _ (need-IsTaken r s h) (λ p k.
        let more = λ (a : ℕ). count a (p.0 ∷ []) + r a in
        λ a. omega (
          arith,
          allocate_arrays-Leaves 5 more p.1 k a,
          count-append a (queue_blocks (allocate_arrays gives 5 p.1).0) (p.0 ∷ []),
        ))
