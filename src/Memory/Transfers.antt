-- ===== src/Memory/Transfers.antt =====
-- `allocate_transfers` and `free_transfers` of libairspyhf/src/airspyhf.c, and the blocks that they
-- give to a device and take back.
pub mod Laws
use airspyhf.Prelude.{
  ℕ, zero, suc, ◌+◌, ◌≤◌, ◌<◌, ◌≡◌, refl, ap, sym, ◌∙◌, Bool, true, false, Option, none, some, List,
  [], ◌∷◌, ◌++◌, map, arith, ltb, ◌==◌, replicate, if◌then◌else◌, Bool-cases, inl, inr,
}
use airspyhf.Prelude.Counts.{count, count-append, remove, count-remove}
use airspyhf.Prelude.Checked.{◌>>=◌, Ensures, >>=-Ensures}
use airspyhf.Memory.{Store, malloc, free, block, Owns}

-- A transfer of libusb, and its buffer.
abbrev pub Slot : Type 0
Slot = Option (ℕ × Option ℕ)

-- The pointers of `struct airspyhf_device` that `allocate_transfers` sets.
pub record Buffers : Type 0 where
  pub output_buffer : Option ℕ
  pub received_samples_queue : List (Option ℕ)
  pub transfers : Option (ℕ × List Slot)

abbrev pub slot_blocks : Slot → List ℕ
slot_blocks none = []
slot_blocks (some (t, buffer)) = block buffer ++ (t ∷ [])

abbrev pub slots_blocks : List Slot → List ℕ
slots_blocks [] = []
slots_blocks (s ∷ ss) = slot_blocks s ++ slots_blocks ss

abbrev pub queue_blocks : List (Option ℕ) → List ℕ
queue_blocks [] = []
queue_blocks (p ∷ ps) = block p ++ queue_blocks ps

abbrev pub transfers_blocks : Option (ℕ × List Slot) → List ℕ
transfers_blocks none = []
transfers_blocks (some (array, slots)) = slots_blocks slots ++ (array ∷ [])

-- a device that has no buffers, with `queue` for its places
abbrev pub without_buffers : List (Option ℕ) → Buffers
without_buffers queue = record {
  output_buffer = none;
  received_samples_queue = queue;
  transfers = none;
}

-- all blocks that are reached from the device
abbrev pub owned : Buffers → List ℕ
owned b =
    block b.output_buffer ++ (transfers_blocks b.transfers ++ queue_blocks b.received_samples_queue)

module _ (gives : ℕ → Bool) where
  -- the loop over the queue, which ends at the first block that is not to be had
  unfoldable pub allocate_queue : List (Option ℕ) → Store → Bool × List (Option ℕ) × Store
  allocate_queue [] s = (true, [], s)
  allocate_queue (old ∷ queue) s =
      let (p, t) = malloc gives s in
      let (done, rest, u) = allocate_queue queue t in
      elim p [ none ↦ (false, none ∷ queue, t) | some a ↦ (done, some a ∷ rest, u) ]

  -- the loop over the transfers
  unfoldable pub allocate_slots : List Slot → Store → Bool × List Slot × Store
  allocate_slots [] s = (true, [], s)
  allocate_slots (old ∷ slots) s =
      let (p, t) = malloc gives s in
      let (buffer, u) = malloc gives t in
      let (done, rest, v) = allocate_slots slots u in
      elim p [
        | none ↦ (false, none ∷ slots, t)
        | some a ↦ elim buffer [
          | none ↦ (false, some (a, none) ∷ slots, u)
          | some c ↦ (done, some (a, some c) ∷ rest, v)
        ]
      ]

  -- the array of transfers, if there is one, and the loop over it
  unfoldable pub enter_array : ℕ → Option ℕ → Buffers → Store → Bool × Buffers × Store
  enter_array transfer_count none b s = (false, record b { transfers = none }, s)
  enter_array transfer_count (some array) b s =
      let (done, slots, t) = allocate_slots (replicate transfer_count none) s in
      (done, record b { transfers = some (array, slots) }, t)

  -- `calloc` for the array of transfers, and what follows it
  unfoldable pub allocate_array : ℕ → Buffers → Store → Bool × Buffers × Store
  unfolding enter_array
  allocate_array transfer_count b s =
      let (array, t) = malloc gives s in enter_array transfer_count array b t

  -- `allocate_transfers`: whether it returns AIRSPYHF_SUCCESS. The result of the first `malloc` is
  -- not tested.
  unfoldable pub allocate_transfers : ℕ → Buffers → Store → Bool × Buffers × Store
  allocate_transfers transfer_count b s =
      let (output, t) = malloc gives s in
      let (filled, queue, u) = allocate_queue b.received_samples_queue t in
      let c = record b { output_buffer = output; received_samples_queue = queue } in
      let rest = allocate_array transfer_count c u in
      elim b.transfers [
        | some array ↦ (false, b, s)
        | none ↦ if filled then rest else (false, c, u)
      ]

-- the loop over the queue
unfoldable pub free_queue : List (Option ℕ) → Store → Option Store
free_queue [] s = some s
free_queue (p ∷ queue) s = free p s >>= λ t. free_queue queue t

-- the loop over the transfers
unfoldable pub free_slots : List Slot → Store → Option Store
free_slots [] s = some s
free_slots (none ∷ slots) s = free_slots slots s
free_slots (some (t, buffer) ∷ slots) s =
    (free buffer s >>= λ u. free (some t) u) >>= λ v. free_slots slots v

-- `free_transfers`, where all pointers that are freed become null
unfoldable pub free_transfers : Buffers → Store → Option (Buffers × Store)
free_transfers b s = elim b.transfers [
  | none ↦ some (b, s)
  | some (array, slots) ↦ free b.output_buffer s >>= λ t. free_slots slots t >>= λ u.
      free (some array) u >>= λ v. free_queue b.received_samples_queue v >>= λ w. some (
        record {
          output_buffer = none;
          received_samples_queue = map (λ p. none) b.received_samples_queue;
          transfers = none;
        },
        w,
      )
]
