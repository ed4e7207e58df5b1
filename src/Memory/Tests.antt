-- ===== src/Memory/Tests.antt =====
-- Stores with and without enough memory, and the theorems there.
use airspyhf.Prelude.{
  ℕ, zero, suc, ◌+◌, ◌≡◌, refl, Bool, true, false, Option, none, some, List, [], ◌∷◌, ltb,
}
use airspyhf.Prelude.Counts.{count, remove}
use airspyhf.Prelude.Checked.{◌>>=◌, Ensures}
use airspyhf.Memory.{Store, malloc, free}
use airspyhf.Memory.Transfers.{
  Slot, owned, allocate_queue, allocate_slots, enter_array, allocate_array, allocate_transfers,
  free_queue, free_slots, free_transfers,
}
use airspyhf.Memory.Transfers.Laws.{Leaves}
use airspyhf.Memory.Open.{
  Answers, Handle, transfer_count, fresh_buffers, need, written, rate_tables, step_table,
  load_tables, allocate_arrays, create_balancer, open_found, open_with, open_init, destroy_balancer,
  close,
}
use airspyhf.Memory.Open.Close.{close-open_init, IsLeft, open_init-leaks}

abbrev one_block : Store
one_block = record { next = 1; live = 0 ∷ [] }

abbrev plenty : ℕ → Bool
plenty n = true

-- no memory from the 46th allocation on
abbrev scarce : ℕ → Bool
scarce n = ltb n 46

abbrev all_well : Answers
all_well = record {
  initialised = true;
  found = true;
  rates_counted = true;
  rates_read = true;
  steps_counted = true;
  steps_read = false;
}

handle_of : Option (Option Handle × Store) → Option (Handle × Store)
handle_of none = none
handle_of (some (none, s)) = none
handle_of (some (some h, s)) = some (h, s)

-- opened and closed
whole_test :
    (handle_of (open_init plenty all_well one_block) >>= λ r. close r.0 r.1)
    ≡ some (record { next = 54; live = 0 ∷ [] })
unfolding handle_of open_init open_with malloc open_found load_tables rate_tables need written
    step_table free allocate_transfers allocate_queue allocate_array allocate_slots enter_array
    create_balancer allocate_arrays remove close destroy_balancer free_queue free_slots
    free_transfers
whole_test = refl

abbrev queue_from : ℕ → ℕ → List (Option ℕ)
queue_from zero a = []
queue_from (suc n) a = some a ∷ queue_from n (suc a)

abbrev slots_from : ℕ → ℕ → List Slot
slots_from zero a = []
slots_from (suc n) a = some (a, some (suc a)) ∷ slots_from n (suc (suc a))

-- the device as it was opened
abbrev opened : Handle
opened = record {
  device = 1;
  tables = record { rates = 2; architectures = 3; steps = 5 };
  buffers = record {
    output_buffer = some 6;
    received_samples_queue = queue_from 8 7;
    transfers = some (15, slots_from 16 16);
  };
  balancer = record { instance_block = 48; arrays = queue_from 5 49 };
}

opened_store : Store
unfolding open_init open_with malloc open_found load_tables rate_tables need written step_table free
    allocate_transfers allocate_queue allocate_array allocate_slots enter_array create_balancer
    allocate_arrays remove
opened_store = elim (open_init plenty all_well one_block) [ none ↦ one_block | some (h, s) ↦ s ]

close-open_init_example : Ensures (Leaves (λ a. count a (0 ∷ []))) (close opened opened_store)
unfolding opened_store open_init open_with malloc open_found load_tables rate_tables need written
    step_table free allocate_transfers allocate_queue allocate_array allocate_slots enter_array
    create_balancer allocate_arrays remove
close-open_init_example = close-open_init plenty all_well one_block opened_store opened refl

-- with memory for the output buffer and the queue, and for the array of transfers, but not for the
-- last of the transfers
abbrev scarce_store : Store
scarce_store = record { next = 6; live = 5 ∷ 3 ∷ 2 ∷ 1 ∷ 0 ∷ [] }

open_init-leaks_example :
    Ensures
      (IsLeft (λ a.
        count a (owned (allocate_transfers scarce transfer_count fresh_buffers scarce_store).1)
        + count a (2 ∷ 3 ∷ 5 ∷ [])
        + count a (0 ∷ [])))
      (open_init scarce all_well one_block)
unfolding open_init open_with malloc open_found load_tables rate_tables need written step_table free
    allocate_transfers allocate_queue allocate_array allocate_slots enter_array create_balancer
    allocate_arrays remove
open_init-leaks_example =
    open_init-leaks scarce all_well one_block scarce_store 1
      (record { rates = 2; architectures = 3; steps = 5 }) refl refl refl refl refl
