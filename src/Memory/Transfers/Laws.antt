-- ===== src/Memory/Transfers/Laws.antt =====
-- Each block that `allocate_transfers` takes belongs to the device, and `free_transfers` gives each
-- back once: libairspyhf/src/airspyhf.c.
use airspyhf.Prelude.{
  ℕ, zero, suc, ◌+◌, ◌<◌, ◌≡◌, refl, Bool, Option, none, some, List, [], ◌∷◌, ◌++◌, map, arith,
  replicate, Bool-cases, inl, inr, lt→ltb,
}
use airspyhf.Prelude.Counts.{count, count-append, count-remove}
use airspyhf.Prelude.Checked.{◌>>=◌, Ensures, >>=-Ensures}
use airspyhf.Memory.{Store, malloc, free, block, Owns}
use airspyhf.Memory.Transfers.{
  Slot, Buffers, without_buffers, enter_array, slot_blocks, slots_blocks, queue_blocks,
  transfers_blocks, owned, allocate_queue, allocate_slots, allocate_array, allocate_transfers,
  free_queue, free_slots, free_transfers,
}

-- A block that was given is live, and counted once more.
pub count-malloc :
    (gives : ℕ → Bool) (s : Store) (a : ℕ)
    → count a (malloc gives s).1.live ≡ count a (block (malloc gives s).0) + count a s.live
unfolding malloc
count-malloc gives s a = ground arith

module _ (gives : ℕ → Bool) (a : ℕ) where
  -- All that was null before is owned in addition.
  count-allocate_queue :
      (queue : List (Option ℕ)) (s : Store)
      → count a (queue_blocks queue) ≡ 0
      → count a (allocate_queue gives queue s).2.live
        ≡ count a (queue_blocks (allocate_queue gives queue s).1) + count a s.live
  unfolding allocate_queue
  count-allocate_queue [] s h = omega arith
  count-allocate_queue (old ∷ queue) s h =
      let t = (malloc gives s).1 in
      let apart = count-append a (block old) (queue_blocks queue) in
      let rest = count-allocate_queue queue t (omega arith) in
      ground (arith, count-malloc gives s a, rest)

  count-allocate_slots :
      (slots : List Slot) (s : Store)
      → count a (slots_blocks slots) ≡ 0
      → count a (allocate_slots gives slots s).2.live
        ≡ count a (slots_blocks (allocate_slots gives slots s).1) + count a s.live
  unfolding allocate_slots
  count-allocate_slots [] s h = omega arith
  count-allocate_slots (old ∷ slots) s h =
      let t = (malloc gives s).1 in
      let u = (malloc gives t).1 in
      let apart = count-append a (slot_blocks old) (slots_blocks slots) in
      let rest = count-allocate_slots slots u (omega arith) in
      ground (arith, count-malloc gives s a, count-malloc gives t a, rest)

  no_slots : (n : ℕ) → count a (slots_blocks (replicate n none)) ≡ 0
  no_slots zero = refl
  no_slots (suc n) = no_slots n

pub count-owned :
    (a : ℕ) (b : Buffers)
    → count a (owned b)
      ≡ count a (block b.output_buffer)
        + (count a (transfers_blocks b.transfers) + count a (queue_blocks b.received_samples_queue))
count-owned a b = omega (
  arith,
  count-append a (block b.output_buffer)
      (transfers_blocks b.transfers ++ queue_blocks b.received_samples_queue),
  count-append a (transfers_blocks b.transfers) (queue_blocks b.received_samples_queue),
)

module _ (gives : ℕ → Bool) (a : ℕ) where
  -- With the array live, and no array before.
  count-enter_array :
      (n : ℕ) (array : Option ℕ) (output : Option ℕ) (queue : List (Option ℕ)) (s : Store)
      (rest : ℕ)
      → count a s.live
        ≡ count a (block array) + count a (block output) + count a (queue_blocks queue) + rest
      → count a
          (enter_array gives n array
            (record { output_buffer = output; received_samples_queue = queue; transfers = none })
            s).2.live
        ≡ count a (
            owned
              (enter_array gives n array
                (record {
                  output_buffer = output;
                  received_samples_queue = queue;
                  transfers = none;
                })
                s).1)
          + rest
  unfolding enter_array
  count-enter_array n none output queue s rest h =
      omega (arith, count-append a (block output) (queue_blocks queue))
  count-enter_array n (some array) output queue s rest h =
      let fresh : List Slot = replicate n none in
      let slots = (allocate_slots gives fresh s).1 in
      omega (
        arith,
        count-allocate_slots gives a fresh s (no_slots gives a n),
        count-append a (slots_blocks slots) (array ∷ []),
        count-owned a (record {
          output_buffer = output;
          received_samples_queue = queue;
          transfers = some (array, slots);
        }),
      )

-- However far the allocation comes, all blocks that it has taken are reached from the device.
pub allocate_transfers-Owns :
    (gives : ℕ → Bool) (n : ℕ) (queue : List (Option ℕ)) (s : Store)
    → ((a : ℕ) → count a (queue_blocks queue) ≡ 0)
    → Owns
        (owned (allocate_transfers gives n (without_buffers queue) s).1)
        s.live
        (allocate_transfers gives n (without_buffers queue) s).2
unfolding allocate_transfers allocate_array
allocate_transfers-Owns gives n queue s no_queue a =
    let output = (malloc gives s).0 in
    let t = (malloc gives s).1 in
    let (full, filled, u) = allocate_queue gives queue t in
    let taken = count-malloc gives s a in
    let more = count-allocate_queue gives a queue t (no_queue a) in
    let last = count-malloc gives u a in
    elim (Bool-cases full) [
      | inl all ↦ rw all (
          count-enter_array gives a n (malloc gives u).0 output filled (malloc gives u).1
            (count a s.live) (omega arith))
      | inr short ↦ rw short (omega (arith, count-append a (block output) (queue_blocks filled)))
    ]

-- The live blocks are counted by `r`.
abbrev pub Leaves : (ℕ → ℕ) → Store → Type 0
Leaves r s = (a : ℕ) → count a s.live ≡ r a

-- What `free` takes is live no more, and it is no fault to give back what is live.
pub free-Leaves :
    (p : Option ℕ) (r : ℕ → ℕ) (s : Store)
    → Leaves (λ a. count a (block p) + r a) s
    → Ensures (Leaves r) (free p s)
unfolding free
free-Leaves none r s h = λ a. omega (arith, h a)
free-Leaves (some p) r s h =
    let present : 0 < count p s.live = ground (arith, h p) in
    rw (lt→ltb 0 (count p s.live) present)
      (λ a. omega (arith, count-remove a p s.live present, h a))

pub free_queue-Leaves :
    (queue : List (Option ℕ)) (r : ℕ → ℕ) (s : Store)
    → Leaves (λ a. count a (queue_blocks queue) + r a) s
    → Ensures (Leaves r) (free_queue queue s)
unfolding free_queue
free_queue-Leaves [] r s h = λ a. omega (arith, h a)
free_queue-Leaves (p ∷ queue) r s h =
    let later = λ (a : ℕ). count a (queue_blocks queue) + r a in
    >>=-Ensures (Leaves later) (Leaves r) (free p s) (free_queue queue)
      (free-Leaves p later s
        (λ a. omega (arith, h a, count-append a (block p) (queue_blocks queue))))
      (λ t k. free_queue-Leaves queue r t k)

free_slots-Leaves :
    (slots : List Slot) (r : ℕ → ℕ) (s : Store)
    → Leaves (λ a. count a (slots_blocks slots) + r a) s
    → Ensures (Leaves r) (free_slots slots s)
unfolding free_slots
free_slots-Leaves [] r s h = λ a. omega (arith, h a)
free_slots-Leaves (none ∷ slots) r s h = free_slots-Leaves slots r s h
free_slots-Leaves (some (t, buffer) ∷ slots) r s h =
    let last = λ (a : ℕ). count a (slots_blocks slots) + r a in
    let later = λ (a : ℕ). count a (t ∷ []) + last a in
    >>=-Ensures (Leaves last) (Leaves r) (free buffer s >>= λ u. free (some t) u) (free_slots slots)
      (>>=-Ensures (Leaves later) (Leaves last) (free buffer s) (λ u. free (some t) u)
        (free-Leaves buffer later s (λ a. omega (
          arith,
          h a,
          count-append a (block buffer ++ (t ∷ [])) (slots_blocks slots),
          count-append a (block buffer) (t ∷ []),
        )))
        (λ u k. free-Leaves (some t) last u k))
      (λ v k. free_slots-Leaves slots r v k)

no_queue : (queue : List (Option ℕ)) → queue_blocks (map (λ p. none) queue) ≡ []
no_queue [] = refl
no_queue (p ∷ queue) = no_queue queue

-- what is left when the buffers of a device were freed: it owns none, and its blocks are live no more
abbrev pub IsFreed : (ℕ → ℕ) → Buffers × Store → Type 0
IsFreed r (b, s) = (owned b ≡ []) × Leaves r s

-- If a device has an array of transfers, whatever was had for the rest of it, and all its blocks are
-- live, then `free_transfers` frees each of them once and no other block, with no fault, and
-- leaves no pointer to them.
pub free_transfers-IsFreed :
    (array : ℕ) (slots : List Slot) (output : Option ℕ) (queue : List (Option ℕ)) (r : ℕ → ℕ)
    (s : Store)
    → let b : Buffers = record {
      output_buffer = output;
      received_samples_queue = queue;
      transfers = some (array, slots);
    } in
      Leaves (λ a. count a (owned b) + r a) s → Ensures (IsFreed r) (free_transfers b s)
unfolding free_transfers
free_transfers-IsFreed array slots output queue r s h =
    let r₃ = λ (a : ℕ). count a (queue_blocks queue) + r a in
    let r₂ = λ (a : ℕ). count a (array ∷ []) + r₃ a in
    let r₁ = λ (a : ℕ). count a (slots_blocks slots) + r₂ a in
    let b : Buffers = record {
      output_buffer = output;
      received_samples_queue = queue;
      transfers = some (array, slots);
    } in
    >>=-Ensures (Leaves r₁) (IsFreed r) (free output s) _
      (free-Leaves output r₁ s (λ a.
        omega (arith, h a, count-owned a b, count-append a (slots_blocks slots) (array ∷ []))))
      (λ t k.
        >>=-Ensures (Leaves r₂) (IsFreed r) (free_slots slots t) _ (free_slots-Leaves slots r₂ t k)
          (λ u l.
            >>=-Ensures (Leaves r₃) (IsFreed r) (free (some array) u) _
              (free-Leaves (some array) r₃ u l)
              (λ v m.
                >>=-Ensures (Leaves r) (IsFreed r) (free_queue queue v) _
                  (free_queue-Leaves queue r v m) (λ w n. (no_queue queue, n)))))
