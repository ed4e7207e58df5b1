-- ===== src/Driver/Receiver/Start.antt =====
-- What starting the receiver promises: `airspyhf_start`, `create_io_threads`.
use airspyhf.Prelude.{
  ℕ, zero, suc, ◌+◌, ◌<◌, ◌≡◌, refl, ◌∙◌, inl, inr, true, false, ◌||◌, ◌∷◌, arith, Bool-cases,
}
use airspyhf.Prelude.Int.{pos, ◌+ℤ◌, +ℤ_zero, +ℤ_suc}
use airspyhf.Prelude.Outcome.{ok, fail, error, and_then, and_then-eq-ok}
use airspyhf.Usb.{
  ReceiverMode, consumer_thread, transfer_thread, clear_halt, Host, submit_transfer,
  receiver_mode_off, receiver_mode_on,
}
use airspyhf.Stream.{is_streaming, reset_queue, clear_drops}
use airspyhf.Driver.{Device, World}
use airspyhf.Driver.Commands.{is_nonzero, set_receiver_mode}
use airspyhf.Driver.Receiver.{start_thread, submit_from, create_io_threads, start}
use airspyhf.Driver.Receiver.Stop.{Quiet}

module _ (H : Host) where
  submit_from-live :
      (i left : ℕ) (w v : World H)
      → submit_from H i left w ≡ (ok tt, v)
      → v.device ≡ record w.device {
        stream = record w.device.stream {
          transfer_live = w.device.stream.transfer_live +ℤ pos left;
        };
      }
  unfolding submit_from
  submit_from-live i zero w v e = ground (arith, +ℤ_zero w.device.stream.transfer_live)
  submit_from-live i (suc left) w v e =
      elim (Bool-cases (is_nonzero (H.respond w.log (submit_transfer i)).result)) [
        | inl refused ↦ cc (rw refused at e)
        | inr taken ↦
            rw (← +ℤ_suc w.device.stream.transfer_live left)
              (submit_from-live (i + 1) left (submitted w) v (rw taken at e))
      ]
    where
      submitted : World H → World H
      submitted u = record {
        device = record u.device {
          stream = record u.device.stream {
            transfer_live = u.device.stream.transfer_live +ℤ pos 1;
          };
        };
        log = submit_transfer i ∷ u.log;
      }

  -- A receiver whose threads begin: it is marked as streaming and they as running, and the queue is empty.
  pub record Runs (d e : Device H.floats) : Type 0 where
    pub was_stopped : (d.stream.streaming ≡ false) × (d.stream.stop_requested ≡ false)
    pub streaming : is_streaming e.stream ≡ true
    pub threads : (e.transfer_thread_running ≡ true) × (e.consumer_thread_running ≡ true)
    pub empty : (e.stream.head ≡ 0) × (e.stream.tail ≡ 0) × (e.stream.count ≡ 0)
    pub same_slots : e.stream.slots ≡ d.stream.slots
    pub live : e.stream.transfer_live ≡ d.stream.transfer_live +ℤ pos d.transfer_count
    pub drops :
        (e.stream.drop_slots ≡ d.stream.drop_slots)
        × (e.stream.dropped_buffers ≡ d.stream.dropped_buffers)
    pub frame : e ≡ record d {
      stream = e.stream;
      transfer_thread_running = e.transfer_thread_running;
      consumer_thread_running = e.consumer_thread_running;
    }

  start_threads-running :
      (w v : World H)
      → and_then (start_thread H consumer_thread w) (λ _. start_thread H transfer_thread)
        ≡ (ok tt, v)
      → v.device
        ≡ record w.device { transfer_thread_running = true; consumer_thread_running = true }
  unfolding start_thread
  start_threads-running w v e = ground arith

  -- the stream is marked as running
  abbrev begun : World H → World H
  begun u = record u {
    device = record u.device { stream = record u.device.stream { streaming = true } };
  }

  create_io_threads-Runs :
      (w v : World H) → create_io_threads H w ≡ (ok tt, v) → Runs w.device v.device
  unfolding create_io_threads
  create_io_threads-Runs w v e =
      elim (Bool-cases (w.device.stream.streaming || w.device.stream.stop_requested)) [
        | inl busy ↦ cc (rw busy at e)
        | inr free ↦
            let (_, u, p, k) =
              and_then-eq-ok (submit_from H 0 w.device.transfer_count (begun w)) _ (rw free at e) in
            let live = submit_from-live 0 w.device.transfer_count (begun w) u p in
            let up = start_threads-running (reset u) v k in
            record {
              was_stopped = ground arith;
              streaming = ground (arith, live, up);
              threads = ground (arith, up);
              empty = ground (arith, up);
              same_slots = ground (arith, live, up);
              live = ground (arith, live, up);
              drops = ground (arith, live, up);
              frame = ground (arith, live, up);
            }
      ]
    where
      reset : World H → World H
      reset u = record u { device = record u.device { stream = reset_queue u.device.stream } }

  set_receiver_mode-device :
      (m : ReceiverMode) (w v : World H)
      → set_receiver_mode H m w ≡ (ok tt, v)
      → v.device ≡ w.device
  unfolding set_receiver_mode
  set_receiver_mode-device m w v e = ground arith

  -- the drops and the phase are cleared
  abbrev pub cleared : World H → World H
  cleared u = record u {
    device = record u.device {
      stream = clear_drops u.device.stream;
      vec = record { re = H.of_intf (pos 1); im = H.of_intf (pos 0) };
    };
  }

  -- A start that succeeds is made from rest, and this is the device in which its threads begin: marked as
  -- streaming, both threads marked as running, an empty queue with no drops, and as many transfers live
  -- as the device has, besides those that were live before; but for that and the phase, it is as it was.
  pub start-Runs : (w v : World H) → start H w ≡ (ok tt, v) → Runs (cleared w).device v.device
  unfolding start
  start-Runs w v e =
      let (_, w₁, e₁, k₁) =
        and_then-eq-ok (set_receiver_mode H receiver_mode_off (cleared w)) _ e in
      let (_, w₂, e₂, k₂) =
        and_then-eq-ok (set_receiver_mode H receiver_mode_on (unhalted w₁)) _ k₁ in
      let runs = create_io_threads-Runs w₂ v k₂ in
      let same₁ = set_receiver_mode-device receiver_mode_off (cleared w) w₁ e₁ in
      let same₂ = set_receiver_mode-device receiver_mode_on (unhalted w₁) w₂ e₂ in
      rw (same₂ ∙ same₁) at runs
    where
      unhalted : World H → World H
      unhalted u = record u { log = clear_halt ∷ u.log }

  refused_at_once :
      (n : ℕ) (w : World H)
      → 0 < n
      → is_nonzero (H.respond w.log (submit_transfer 0)).result ≡ true
      → submit_from H 0 n w ≡ (fail error, record w { log = submit_transfer 0 ∷ w.log })
  unfolding submit_from
  refused_at_once zero w h e = elim h [ ]
  refused_at_once (suc n) w h e = ground arith

  -- When the first transfer is not accepted, `create_io_threads` fails but leaves the device marked as
  -- streaming, with no thread started; and every further call of it fails at once, with no request.
  pub create_io_threads_stuck :
      (w : World H)
      → Quiet H w.device
      → 0 < w.device.transfer_count
      → is_nonzero (H.respond w.log (submit_transfer 0)).result ≡ true
      → let v = (create_io_threads H w).1 in
        ((create_io_threads H w).0 ≡ fail error)
        × (is_streaming v.device.stream ≡ true)
        × (v.device.consumer_thread_running ≡ w.device.consumer_thread_running)
        × (v.device.transfer_thread_running ≡ w.device.transfer_thread_running)
        × (create_io_threads H v ≡ (fail error, v))
  unfolding create_io_threads
  create_io_threads_stuck w q some_transfers refused =
      let free : (w.device.stream.streaming || w.device.stream.stop_requested) ≡ false =
        ground arith in
      let stopped = refused_at_once w.device.transfer_count (begun w) some_transfers refused in
      let no_stop = q.1 in rw (free, stopped) (refl, rw no_stop refl, refl, refl, refl)
