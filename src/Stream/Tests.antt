-- ===== src/Stream/Tests.antt =====
-- A stream of eight slots and two transfers, run by hand; the stream's theorems at states of it.
use airspyhf.Prelude.{ℕ, ◌≤◌, ◌≡◌, refl, true, false, [], ◌∷◌, arith}
use airspyhf.Prelude.Int.{pos, ◌+ℤ◌, ◌-ℤ◌}
use airspyhf.Stream.{
  Stream, Transfer, sleeps, enqueue, admit, transfer_callback, take_buffer, dropped_samples,
}
use airspyhf.Stream.System.{
  outside, admitted, put, take, waiting, System, Step, enters, puts, takes, Reach, here, later,
  IsFresh, arrivals,
}
use airspyhf.Stream.Invariant.{Reach-Inv, QueueInv}
use airspyhf.Stream.Delivery.{Accounted, delivered_in_order}
use airspyhf.Stream.Progress.{SameArrivals, queue_drains}
use airspyhf.Prelude.Counts.{count}
use airspyhf.Stream.Ownership.{owned, buffers_conserved, converted_alone}

abbrev idle_stream : Stream
idle_stream = record {
  streaming = true;
  stop_requested = false;
  head = 0;
  tail = 0;
  count = 0;
  slots = 10 ∷ 11 ∷ 12 ∷ 13 ∷ 14 ∷ 15 ∷ 16 ∷ 17 ∷ [];
  drop_slots = 0 ∷ 0 ∷ 0 ∷ 0 ∷ 0 ∷ 0 ∷ 0 ∷ 0 ∷ [];
  dropped_buffers = 0;
  transfer_live = pos 2;
}

abbrev full_transfer : Transfer
full_transfer = record { buffer = 20; completed = true; actual_length = 16384; length = 16384 }

-- The filled buffer 20 goes into slot 0, and the transfer leaves with buffer 10.
callback_swaps :
    ((transfer_callback idle_stream full_transfer true).1.buffer ≡ 10)
    × ((transfer_callback idle_stream full_transfer true).0.count ≡ 1)
    × ((transfer_callback idle_stream full_transfer true).0.transfer_live ≡ pos 2)
unfolding transfer_callback ◌-ℤ◌ ◌+ℤ◌
callback_swaps = (refl, refl, refl)

-- A short transfer ends the stream.
short_transfer_stops :
    (transfer_callback idle_stream (record full_transfer { actual_length = 100 }) true).0.streaming
    ≡ false
unfolding transfer_callback ◌-ℤ◌
short_transfer_stops = refl

empty_queue_sleeps : (take_buffer idle_stream).1 ≡ sleeps
unfolding take_buffer
empty_queue_sleeps = refl

two_dropped_buffers : dropped_samples 2 4096 ≡ 8192
unfolding dropped_samples
two_dropped_buffers = refl

abbrev fresh_system : System
fresh_system = record {
  stream = idle_stream;
  producer = outside;
  consumer = waiting;
  transfers = 20 ∷ 21 ∷ [];
  arrived = [];
  delivered = [];
  drops = 0;
}

fresh_system-IsFresh : IsFresh fresh_system
fresh_system-IsFresh = ground arith

-- The transfer 0 completes, its buffer is queued, and the consumer takes it.
abbrev entered_system : System
entered_system = record fresh_system {
  stream = record idle_stream { transfer_live = pos 1 };
  producer = admitted 0 full_transfer;
}

one_delivered : System
one_delivered = take (put entered_system 0 full_transfer)

enters_callback : Step fresh_system entered_system
unfolding admit ◌-ℤ◌
enters_callback = enters 0 full_transfer refl refl refl

queues_buffer : Step entered_system (put entered_system 0 full_transfer)
queues_buffer = puts 0 full_transfer refl

one_delivered-Reach : Reach fresh_system one_delivered
unfolding one_delivered
one_delivered-Reach = later (later (later here enters_callback) queues_buffer) (takes refl)

buffers_differ : (a : ℕ) → owned a fresh_system ≤ 1
buffers_differ a = ground arith

Reach-Inv_example :
    QueueInv
      (record idle_stream {
        head = 1;
        tail = 1;
        count = 1;
        slots = 20 ∷ 11 ∷ 12 ∷ 13 ∷ 14 ∷ 15 ∷ 16 ∷ 17 ∷ [];
        transfer_live = pos 1;
      })
      1
unfolding one_delivered enqueue take_buffer
Reach-Inv_example = Reach-Inv fresh_system-IsFresh one_delivered-Reach

delivered_in_order_example : Accounted one_delivered
delivered_in_order_example = delivered_in_order fresh_system-IsFresh one_delivered-Reach

buffers_conserved_example : owned 20 one_delivered ≡ 1
buffers_conserved_example = buffers_conserved fresh_system-IsFresh one_delivered-Reach 20

converted_alone_example : count 20 one_delivered.transfers ≡ 0
unfolding one_delivered enqueue take_buffer
converted_alone_example =
    converted_alone {d = 0} fresh_system-IsFresh buffers_differ one_delivered-Reach refl

queue_drains_example :
    let queued_system = put entered_system 0 full_transfer in
    (u : System) × Reach queued_system u
    × (u.stream.count ≡ 0)
    × SameArrivals queued_system u
    × (u.delivered ≡ (20, 0) ∷ [])
unfolding enqueue arrivals
queue_drains_example =
    queue_drains fresh_system-IsFresh (later (later here enters_callback) queues_buffer) refl refl
