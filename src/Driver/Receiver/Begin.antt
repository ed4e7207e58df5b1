-- ===== src/Driver/Receiver/Begin.antt =====
-- How `airspyhf_start` of libairspyhf/src/airspyhf.c hands over to the threads that it creates, which
-- are in Stream.System.
use airspyhf.Prelude.{ℕ, ◌≡◌, refl, ◌∙◌, List, [], length, length-replicate, ap}
use airspyhf.Prelude.Outcome.{ok}
use airspyhf.Usb.{Host}
use airspyhf.Stream.{Stream, raw_buffer_count, clear_drops}
use airspyhf.Stream.System.{System, Reach, IsFresh, outside, waiting}
use airspyhf.Stream.Delivery.{Accounted, delivered_in_order}
use airspyhf.Driver.{World}
use airspyhf.Driver.Receiver.{start}
use airspyhf.Driver.Receiver.Start.{Runs, cleared, start-Runs}

-- Both threads at their beginning, on this stream and with the buffers of the transfers.
abbrev pub begin : Stream → List ℕ → System
begin s buffers = record {
  stream = s;
  producer = outside;
  consumer = waiting;
  transfers = buffers;
  arrived = [];
  delivered = [];
  drops = 0;
}

module _ (H : Host) where
  start-IsFresh :
      (w v : World H) (buffers : List ℕ)
      → length w.device.stream.slots ≡ raw_buffer_count
      → Runs H (cleared H w).device v.device
      → IsFresh (begin v.device.stream buffers)
  unfolding clear_drops
  start-IsFresh w v buffers eight r = record {
    empty_head = r.empty.0;
    empty_tail = r.empty.1;
    empty_count = r.empty.2;
    slots = ap length r.same_slots ∙ eight;
    drop_slots = ap length r.drops.0 ∙ length-replicate {A = ℕ} raw_buffer_count 0;
    no_drops = r.drops.1;
    unused = refl;
    idle = refl;
    nothing_arrived = refl;
    nothing_delivered = refl;
    none_dropped = refl;
  }

  -- A start that succeeds with eight slots is made from rest. The threads that it creates begin with the
  -- device marked as streaming and both of them as running, an empty queue with no drops, and as many
  -- transfers live as the device has, besides those that were live before; but for that and the phase,
  -- the device is as it was. Whatever the threads do from there on, before or after the start has
  -- returned, buffers are handed over in the order of their arrival, and the drops are accounted for.
  pub start-Begins :
      (w v : World H) (buffers : List ℕ) (t : System)
      → length w.device.stream.slots ≡ raw_buffer_count
      → start H w ≡ (ok tt, v)
      → Reach (begin v.device.stream buffers) t
      → Runs H (cleared H w).device v.device × Accounted t
  start-Begins w v buffers t eight e reach =
      let runs = start-Runs H w v e in
      (runs, delivered_in_order (start-IsFresh w v buffers eight runs) reach)
