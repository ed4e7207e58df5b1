-- ===== src/Driver/Receiver/Stop.antt =====
-- What stopping the receiver promises: `airspyhf_stop`, `kill_io_threads`.
use airspyhf.Prelude.{
  ℕ, zero, suc, ◌+◌, ◌≡◌, refl, ◌∙◌, inl, inr, Bool, true, false, List, [], ◌∷◌, arith, Bool-cases,
  ◌⊎◌,
}
use airspyhf.Prelude.Int.{pos, ltb_ℤ}
use airspyhf.Prelude.Outcome.{Outcome, ok, fail, fault, and_then}
use airspyhf.Usb.{
  Host, Call, Thread, consumer_thread, transfer_thread, join_thread, signal_consumer,
  receiver_mode_off,
}
use airspyhf.Stream.{Stream, Transfer, transfer_callback, run_callbacks}
use airspyhf.Driver.{Device, World}
use airspyhf.Driver.Commands.{set_receiver_mode}
use airspyhf.Driver.Receiver.{
  cancel_from, drain, cancel_transfers, join, join_if, join_io_threads, kill_io_threads,
  poll_events, after_mode, stop,
}

-- A callback never raises a flag.
transfer_callback-flags :
    (s : Stream) (t : Transfer) (b : Bool)
    → ((transfer_callback s t b).0.stop_requested ≡ s.stop_requested)
      × (s.streaming ≡ false → (transfer_callback s t b).0.streaming ≡ false)
unfolding transfer_callback
transfer_callback-flags s t b = (ground arith, λ off. ground arith)

run_callbacks-flags :
    (ts : List (Transfer × Bool)) (s : Stream)
    → ((run_callbacks ts s).stop_requested ≡ s.stop_requested)
      × (s.streaming ≡ false → (run_callbacks ts s).streaming ≡ false)
unfolding run_callbacks
run_callbacks-flags [] s = (refl, λ off. off)
run_callbacks-flags ((t, b) ∷ ts) s =
    let (a, c) = transfer_callback-flags s t b in
    let (a', c') = run_callbacks-flags ts (transfer_callback s t b).0 in (a' ∙ a, λ off. c' (c off))

module _ (H : Host) where
  -- The receiver is stopped: both flags are down.
  abbrev pub Quiet : Device H.floats → Type 0
  Quiet d = (d.stream.streaming ≡ false) × (d.stream.stop_requested ≡ false)

  -- a part of the code that goes on, and leaves a device with the property
  abbrev Ends : (Device H.floats → Type 0) → Outcome (Unit {0}) × World H → Type 0
  Ends P r = (r.0 ≡ ok tt) × P r.1.device

  -- Two parts one after the other.
  Ends-then :
      (P : Device H.floats → Type 0) (Q : Outcome (Unit {0}) × World H → Type 0)
      (r : Outcome (Unit {0}) × World H) (k : World H → Outcome (Unit {0}) × World H)
      → Ends P r
      → ((w : World H) → P w.device → Q (k w))
      → Q (and_then r (λ _. k))
  Ends-then P Q (ok _, w) k (a, q) h = h w q
  Ends-then P Q (fail s, w) k (a, q) h = cc
  Ends-then P Q (fault, w) k (a, q) h = cc

  abbrev Stays : Outcome (Unit {0}) × World H → Type 0
  Stays r = Ends Quiet r

  poll_events-Stays : (w : World H) → Quiet w.device → Stays (poll_events H w)
  unfolding poll_events
  poll_events-Stays w q = ground (arith, run_callbacks-flags (H.callbacks w.log) w.device.stream)

  cancel_from-Stays : (i left : ℕ) (w : World H) → Quiet w.device → Stays (cancel_from H i left w)
  unfolding cancel_from
  cancel_from-Stays i zero w q = (refl, q)
  cancel_from-Stays i (suc left) w q = cancel_from-Stays (i + 1) left _ q

  drain-Stays : (left : ℕ) (w : World H) → Quiet w.device → Stays (drain H left w)
  unfolding drain
  drain-Stays zero w q = (refl, q)
  drain-Stays (suc left) w q = elim (Bool-cases (ltb_ℤ (pos 0) w.device.stream.transfer_live)) [
    | inl some_live ↦ rw some_live (
        Ends-then Quiet Stays (poll_events H w) (drain H left) (poll_events-Stays w q)
          (drain-Stays left))
    | inr none_live ↦ rw none_live (refl, q)
  ]

  cancel_transfers-Stays : (w : World H) → Quiet w.device → Stays (cancel_transfers H w)
  unfolding cancel_transfers
  cancel_transfers-Stays w q =
      Ends-then Quiet Stays (cancel_from H 0 w.device.transfer_count w)
        (drain H w.device.transfer_count) (cancel_from-Stays 0 w.device.transfer_count w q)
        (drain-Stays w.device.transfer_count)

  -- no thread is marked as running
  abbrev pub Joined : Device H.floats → Type 0
  Joined d = (d.transfer_thread_running ≡ false) × (d.consumer_thread_running ≡ false)

  abbrev pub Done : Device H.floats → Type 0
  Done d = Quiet d × Joined d

  -- The code waits for ever for a thread that does not end, with both flags down: the call that it is in is
  -- the last one.
  abbrev pub Waits : Outcome (Unit {0}) × World H → Type 0
  Waits r =
      (t : Thread) × (log : List Call) × (r.0 ≡ fault)
      × (r.1.log ≡ join_thread t ∷ log)
      × (H.ends log t ≡ false)
      × Quiet r.1.device

  -- The code comes back with the status and the receiver at rest, or waits for ever.
  abbrev pub Settles : Outcome (Unit {0}) → Outcome (Unit {0}) × World H → Type 0
  Settles status r = ((r.0 ≡ status) × Done r.1.device) ⊎ Waits r

  -- a part of the code that may wait for ever, and the next one
  Settles-then :
      (P : Device H.floats → Type 0) (next : Outcome (Unit {0})) (r : Outcome (Unit {0}) × World H)
      (k : World H → Outcome (Unit {0}) × World H)
      → Ends P r ⊎ Waits r
      → ((w : World H) → P w.device → Settles next (k w))
      → Settles next (and_then r (λ _. k))
  Settles-then P next r k (inl a) h = Ends-then P (Settles next) r k a h
  Settles-then P next (ok _, w) k (inr (t, log, a, b, c, d)) h = cc
  Settles-then P next (fail s, w) k (inr (t, log, a, b, c, d)) h = cc
  Settles-then P next (fault, w) k (inr q) h = inr q

  -- A wait for a thread comes to its end, or does not.
  join-Waits :
      (t : Thread) (w : World H)
      → (join H t w ≡ (ok tt, record w { log = join_thread t ∷ w.log }))
        ⊎ ((join H t w ≡ (fault, record w { log = join_thread t ∷ w.log }))
            × (H.ends w.log t ≡ false))
  unfolding join
  join-Waits t w = elim (Bool-cases (H.ends w.log t)) [
    | inl ends ↦ inl (rw ends refl)
    | inr hangs ↦ inr (rw hangs refl, hangs)
  ]

  join_if-Ends :
      (P : Device H.floats → Type 0) (running : Bool) (t : Thread)
      (mark : Device H.floats → Device H.floats) (w : World H)
      → Quiet w.device
      → (running ≡ false → P w.device)
      → P (mark w.device)
      → Ends P (join_if H running t mark w) ⊎ Waits (join_if H running t mark w)
  unfolding join_if
  join_if-Ends P false t mark w q idle marked = inl (refl, idle refl)
  join_if-Ends P true t mark w q idle marked = elim (join-Waits t w) [
    | inl e ↦ rw e (inl (refl, marked))
    | inr (e, hangs) ↦ rw e (inr (t, w.log, refl, refl, hangs, q))
  ]

  join_io_threads-Settles : (w : World H) → Quiet w.device → Settles (ok tt) (join_io_threads H w)
  unfolding join_io_threads
  join_io_threads-Settles w q =
      Settles-then (λ d. Quiet d × (d.transfer_thread_running ≡ false)) (ok tt)
        (join_if H w.device.transfer_thread_running transfer_thread _ w) _
        (join_if-Ends (λ d. Quiet d × (d.transfer_thread_running ≡ false))
          w.device.transfer_thread_running transfer_thread _ w q (λ idle. (q, idle)) (q, refl))
        (λ v (still, idle).
          join_if-Ends Done v.device.consumer_thread_running consumer_thread _ v still
            (λ off. (still, (idle, off))) (still, (idle, refl)))

  poll_events-Done : (w : World H) → Done w.device → Ends Done (poll_events H w)
  unfolding poll_events
  poll_events-Done w d = ground (arith, run_callbacks-flags (H.callbacks w.log) w.device.stream)

  kill_io_threads-Settles :
      (w : World H) → w.device.stream.stop_requested ≡ true → Settles (ok tt) (kill_io_threads H w)
  unfolding kill_io_threads
  kill_io_threads-Settles w e = rw e (
      Ends-then Quiet (Settles (ok tt)) (cancel_transfers H (lowered w)) _
        (cancel_transfers-Stays (lowered w) (refl, refl))
        (λ v q.
          Settles-then Done (ok tt) (join_io_threads H (signalled v)) (poll_events H)
            (join_io_threads-Settles (signalled v) q) (λ u d. inl (poll_events-Done u d))))
    where
      lowered : World H → World H
      lowered v = record v {
        device = record v.device {
          stream = record v.device.stream { stop_requested = false; streaming = false };
        };
      }

      signalled : World H → World H
      signalled v = record v { log = signal_consumer ∷ v.log }

  -- the stop has been requested
  abbrev pub raised : World H → World H
  raised w = record w {
    device = record w.device { stream = record w.device.stream { stop_requested = true } };
  }

  stop_stays :
      (w : World H)
      → (set_receiver_mode H receiver_mode_off (raised w)).1.device.stream.stop_requested ≡ true
  unfolding set_receiver_mode
  stop_stays w = ground arith

  after_mode-Settles :
      (r : Outcome (Unit {0}) × World H)
      → r.1.device.stream.stop_requested ≡ true
      → Settles r.0 (after_mode H r)
  unfolding after_mode
  after_mode-Settles (status, w) e =
      Settles-then Done status (kill_io_threads H w) _ (kill_io_threads-Settles w e)
        (λ v d. inl (refl, d))

  -- Stopping either comes back with the status of its request, both flags down and no thread marked as
  -- running, or it waits for ever, with both flags down, for a thread that does not end; also when the
  -- device does not take the request.
  pub stop-Settles :
      (w : World H) → Settles (set_receiver_mode H receiver_mode_off (raised w)).0 (stop H w)
  unfolding stop
  stop-Settles w =
      after_mode-Settles (set_receiver_mode H receiver_mode_off (raised w)) (stop_stays w)
