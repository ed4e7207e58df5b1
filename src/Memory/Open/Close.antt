-- ===== src/Memory/Open/Close.antt =====
-- `airspyhf_close` after `airspyhf_open_init`, and what stays when the latter fails:
-- libairspyhf/src/airspyhf.c.
use airspyhf.Prelude.{
  ℕ, ◌+◌, ◌≡◌, refl, ap, Bool, true, false, ◌&&◌, Option, none, some, List, [], ◌∷◌, arith,
  replicate, Bool-cases, inl, inr,
}
use airspyhf.Prelude.Counts.{count, count-append}
use airspyhf.Prelude.Checked.{Ensures, >>=-Ensures, Allows, >>=-Allows, Allows-some, Allows-any}
use airspyhf.Memory.{Store, malloc, free, block}
use airspyhf.Memory.Transfers.{
  Slot, Buffers, owned, without_buffers, queue_blocks, enter_array, allocate_array, allocate_queue,
  allocate_transfers, free_transfers,
}
use airspyhf.Memory.Transfers.Laws.{
  count-malloc, allocate_transfers-Owns, Leaves, free-Leaves, free_queue-Leaves, IsFreed,
  free_transfers-IsFreed,
}
use airspyhf.Memory.Open.{
  Answers, Tables, Handle, tables_blocks, balancer_blocks, transfer_count, fresh_buffers,
  load_tables, create_balancer, open_found, open_with, open_init, destroy_balancer, close,
}
use airspyhf.Memory.Open.Laws.{
  AreTables, load_tables-AreTables, IsBalancer, create_balancer-IsBalancer, malloc-Leaves,
}

abbrev HasArray : Buffers → Type 0
HasArray b = (array : ℕ) × (slots : List Slot) × (b.transfers ≡ some (array, slots))

free_array-IsFreed :
    (output : Option ℕ) (queue : List (Option ℕ)) (transfers : Option (ℕ × List Slot)) (array : ℕ)
    (slots : List Slot) (r : ℕ → ℕ) (s : Store)
    → transfers ≡ some (array, slots)
    → let b : Buffers = record {
      output_buffer = output;
      received_samples_queue = queue;
      transfers = transfers;
    } in
      Leaves (λ a. count a (owned b) + r a) s → Ensures (IsFreed r) (free_transfers b s)
free_array-IsFreed output queue transfers array slots r s e h =
    let k = rw e at h in rw e (free_transfers-IsFreed array slots output queue r s k)

enter_array-HasArray :
    (gives : ℕ → Bool) (n : ℕ) (array : Option ℕ) (b : Buffers) (s : Store)
    → (enter_array gives n array b s).0 ≡ true
    → HasArray (enter_array gives n array b s).1
unfolding enter_array
enter_array-HasArray gives n none b s e = cc
enter_array-HasArray gives n (some array) b s e = (array, _, refl)

allocate_transfers-HasArray :
    (gives : ℕ → Bool) (n : ℕ) (queue : List (Option ℕ)) (s : Store)
    → (allocate_transfers gives n (without_buffers queue) s).0 ≡ true
    → HasArray (allocate_transfers gives n (without_buffers queue) s).1
unfolding allocate_transfers allocate_array
allocate_transfers-HasArray gives n queue s e =
    let (full, filled, u) = allocate_queue gives queue (malloc gives s).1 in
    elim (Bool-cases full) [
      | inl all ↦
          let done = rw all at e in
          rw all (enter_array-HasArray gives n (malloc gives u).0 _ (malloc gives u).1 done)
      | inr short ↦ let failed = rw short at e in cc
    ]

-- how often a block belongs to an open device
abbrev pub weight : Handle → ℕ → ℕ
weight h a =
    count a (h.device ∷ [])
    + count a (tables_blocks h.tables)
    + count a (owned h.buffers)
    + count a (balancer_blocks h.balancer)

-- An open device has all its blocks live, and an array of transfers.
abbrev IsOpen : (ℕ → ℕ) → Option Handle × Store → Type 0
IsOpen r (none, s) = Unit {0}
IsOpen r (some h, s) = HasArray h.buffers × Leaves (λ a. weight h a + r a) s

module _ (gives : ℕ → Bool) where
  open_found-IsOpen :
      (device : ℕ) (answers : Answers) (r : ℕ → ℕ) (s : Store)
      → Leaves (λ a. count a (device ∷ []) + r a) s
      → Allows (IsOpen r) (open_found gives device answers s)
  unfolding open_found
  open_found-IsOpen device answers r s h =
      let one = λ (a : ℕ). count a (device ∷ []) + r a in
      >>=-Allows (AreTables one) (IsOpen r) (load_tables gives answers s) _
        (load_tables-AreTables gives answers one s h)
        (λ t k.
          let a = allocate_transfers gives transfer_count fresh_buffers t.1 in
          let taken =
            allocate_transfers-Owns gives transfer_count (replicate 8 none) t.1 (λ b. refl) in
          let two = λ (b : ℕ). count b (owned a.1) + (count b (tables_blocks t.0) + one b) in
          elim (Bool-cases a.0) [
            | inl done ↦ rw done (
                >>=-Allows (IsBalancer two) (IsOpen r) (create_balancer gives a.2) _
                  (create_balancer-IsBalancer gives two a.2 (λ b. omega (arith, taken b, k b)))
                  (λ b l. (
                    allocate_transfers-HasArray gives transfer_count (replicate 8 none) t.1 done,
                    λ c. omega (arith, l c),
                  )))
            | inr short ↦ rw short (
                >>=-Allows (λ v. Unit {0}) (IsOpen r) (free (some device) a.2) (λ v. some (none, v))
                  (Allows-any (free (some device) a.2)) (λ v _. tt))
          ])

  open_with-IsOpen :
      (p : Option ℕ) (answers : Answers) (r : ℕ → ℕ) (s : Store)
      → Leaves (λ a. count a (block p) + r a) s
      → Allows (IsOpen r) (open_with gives p answers s)
  unfolding open_with
  open_with-IsOpen none answers r s h = tt
  open_with-IsOpen (some device) answers r s h =
      elim (Bool-cases (answers.initialised && answers.found)) [
        | inl there ↦ rw there (open_found-IsOpen device answers r s h)
        | inr missing ↦ rw missing (
            >>=-Allows (λ v. Unit {0}) (IsOpen r) (free (some device) s) (λ v. some (none, v))
              (Allows-any (free (some device) s)) (λ v _. tt))
      ]

  open_init-IsOpen :
      (answers : Answers) (s : Store)
      → Allows (IsOpen (λ a. count a s.live)) (open_init gives answers s)
  unfolding open_init
  open_init-IsOpen answers s =
      open_with-IsOpen (malloc gives s).0 answers (λ a. count a s.live) (malloc gives s).1
        (malloc-Leaves gives (λ a. count a s.live) s (λ a. refl))

-- A live device is closed with no fault, and then what was live beside it is live.
close-Leaves :
    (h : Handle) (r : ℕ → ℕ) (s : Store)
    → HasArray h.buffers
    → Leaves (λ a. weight h a + r a) s
    → Ensures (Leaves r) (close h s)
unfolding close destroy_balancer
close-Leaves h r s (array, slots, e) live =
    let r₆ = λ (a : ℕ). count a (h.device ∷ []) + r a in
    let r₅ = λ (a : ℕ). count a (h.balancer.instance_block ∷ []) + r₆ a in
    let r₄ = λ (a : ℕ). count a (queue_blocks h.balancer.arrays) + r₅ a in
    let r₃ = λ (a : ℕ). count a (h.tables.steps ∷ []) + r₄ a in
    let r₂ = λ (a : ℕ). count a (h.tables.architectures ∷ []) + r₃ a in
    let r₁ = λ (a : ℕ). count a (h.tables.rates ∷ []) + r₂ a in
    >>=-Ensures (IsFreed r₁) (Leaves r) (free_transfers h.buffers s) _
      (free_array-IsFreed h.buffers.output_buffer h.buffers.received_samples_queue
        h.buffers.transfers array slots r₁ s e
        (λ a. omega (
          arith,
          live a,
          count-append a (queue_blocks h.balancer.arrays) (h.balancer.instance_block ∷ []),
        )))
      (λ p k.
        >>=-Ensures (Leaves r₂) (Leaves r) _ _ (free-Leaves (some h.tables.rates) r₂ p.1 k.1)
          (λ t l.
            >>=-Ensures (Leaves r₃) (Leaves r) _ _
              (free-Leaves (some h.tables.architectures) r₃ t l)
              (λ u m.
                >>=-Ensures (Leaves r₄) (Leaves r) _ _ (free-Leaves (some h.tables.steps) r₄ u m)
                  (λ v n.
                    >>=-Ensures (Leaves r₆) (Leaves r) _ _
                      (>>=-Ensures (Leaves r₅) (Leaves r₆) _ _
                        (free_queue-Leaves h.balancer.arrays r₅ v n)
                        (λ w o. free-Leaves (some h.balancer.instance_block) r₆ w o))
                      (λ x q. free-Leaves (some h.device) r x q)))))

-- If `airspyhf_open_init` has opened a device, then `airspyhf_close` on it frees each block that the
-- opening has left once and no other, with no fault: the blocks from before are live again, and none
-- else.
pub close-open_init :
    (gives : ℕ → Bool) (answers : Answers) (s t : Store) (h : Handle)
    → open_init gives answers s ≡ some (some h, t)
    → Ensures (Leaves (λ a. count a s.live)) (close h t)
close-open_init gives answers s t h e =
    let (array, live) =
      Allows-some (IsOpen (λ a. count a s.live)) (open_init gives answers s)
        (open_init-IsOpen gives answers s) e in
    close-Leaves h (λ a. count a s.live) t array live

-- what is left by an opening that fails, with `r` for the blocks that are live all the same
abbrev pub IsLeft : (ℕ → ℕ) → Option Handle × Store → Type 0
IsLeft r (opened, s) = (opened ≡ none) × Leaves r s

-- If the device was found and its tables are there, but the transfers and buffers cannot all be
-- allocated, then the opening fails with no fault, and the tables and all buffers that were had stay live.
pub open_init-leaks :
    (gives : ℕ → Bool) (answers : Answers) (s t : Store) (device : ℕ) (tables : Tables)
    → (malloc gives s).0 ≡ some device
    → answers.initialised ≡ true
    → answers.found ≡ true
    → load_tables gives answers (malloc gives s).1 ≡ some (tables, t)
    → (allocate_transfers gives transfer_count fresh_buffers t).0 ≡ false
    → Ensures
        (IsLeft (λ a.
          count a (owned (allocate_transfers gives transfer_count fresh_buffers t).1)
          + count a (tables_blocks tables)
          + count a s.live))
        (open_init gives answers s)
unfolding open_init open_with open_found
open_init-leaks gives answers s t device tables given ready found loaded short =
    let a = allocate_transfers gives transfer_count fresh_buffers t in
    let kept = λ (b : ℕ). count b (owned a.1) + count b (tables_blocks tables) + count b s.live in
    let one = λ (b : ℕ). count b (device ∷ []) + count b s.live in
    let start : Leaves one (malloc gives s).1 =
      λ b. omega (arith, count-malloc gives s b, ap (λ p. count b (block p)) given) in
    let tabled =
      Allows-some (AreTables one) (load_tables gives answers (malloc gives s).1)
        (load_tables-AreTables gives answers one (malloc gives s).1 start) loaded in
    let taken = allocate_transfers-Owns gives transfer_count (replicate 8 none) t (λ b. refl) in
    let there : (answers.initialised && answers.found) ≡ true = ground arith in
    rw (given, there, loaded, short)
      (>>=-Ensures (Leaves kept) (IsLeft kept) (free (some device) a.2) (λ v. some (none, v))
        (free-Leaves (some device) kept a.2 (λ b. omega (arith, taken b, tabled b)))
        (λ v k. (refl, k)))
