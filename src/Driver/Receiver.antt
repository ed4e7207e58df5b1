-- ===== src/Driver/Receiver.antt =====
-- `airspyhf_start`, `airspyhf_stop` and what they call: `prepare_transfers`, `create_io_threads`,
-- `cancel_transfers` and `kill_io_threads`. The transfers of a device are numbered from 0.
pub mod Stop
pub mod Start
pub mod Begin
use airspyhf.Prelude.{
  ℕ, zero, suc, ◌+◌, Bool, true, false, not, ◌&&◌, ◌||◌, Option, none, some, List, [], ◌∷◌, ltb,
  ◌==◌, get_or, if◌then◌else◌,
}
use airspyhf.Prelude.Int.{ℤ, pos, negsuc, ◌+ℤ◌, ltb_ℤ}
use airspyhf.Prelude.Outcome.{
  Outcome, ok, fail, fault, Status, success, error, ◌>>=◌, ◌>>◌, return_if, pure, ignore, ignored,
  and_then,
}
use airspyhf.Usb.{
  Call, Host, receiver_mode_off, receiver_mode_on, Thread, consumer_thread, transfer_thread,
  clear_halt, submit_transfer, cancel_transfer, handle_events, interrupt_event_handler,
  signal_consumer, create_thread, join_thread,
}
use airspyhf.Stream.{Stream, run_callbacks, reset_queue, clear_drops}
use airspyhf.Balancer.{Complex}
use airspyhf.Driver.{Device, World, Act, ask, device, update}
use airspyhf.Driver.Commands.{is_nonzero, set_receiver_mode}

module _ (H : Host) where
  open H use {Float, of_intf}

  -- a change of the part of the device that the stream works on
  abbrev pub update_stream : (Stream → Stream) → Act H (Unit {0})
  update_stream f = update (λ d. record d { stream = f d.stream })

  -- the loop of `prepare_transfers`, with `left` transfers to go
  unfoldable pub submit_from : (i left : ℕ) → Act H (Unit {0})
  submit_from i zero = pure tt
  submit_from i (suc left) =
      let rest = submit_from (i + 1) left in
      (do
        answer ← ask (submit_transfer i)
        return_if (is_nonzero answer.result) error
        update_stream (λ s. record s { transfer_live = s.transfer_live +ℤ pos 1 })
        rest)

  -- `prepare_transfers`, where the transfers have been allocated
  unfoldable pub prepare_transfers : Act H (Unit {0})
  unfolding submit_from
  prepare_transfers = do d ← device; submit_from 0 d.transfer_count

  -- the creation of a thread, which fails by a result other than 0
  unfoldable pub start_thread : Thread → Act H (Unit {0})
  start_thread consumer_thread = do
    answer ← ask (create_thread consumer_thread)
    return_if (is_nonzero answer.result) error
    update (λ d. record d { consumer_thread_running = true })
  start_thread transfer_thread = do
    answer ← ask (create_thread transfer_thread)
    return_if (is_nonzero answer.result) error
    update (λ d. record d { transfer_thread_running = true })

  -- `create_io_threads`. A thread that is created waits here: what it does, from its creation on, is in
  -- Stream.System.
  unfoldable pub create_io_threads : Act H (Unit {0})
  unfolding prepare_transfers reset_queue start_thread
  create_io_threads = do
    d ← device
    return_if (d.stream.streaming || d.stream.stop_requested) error
    update_stream (λ s. record s { streaming = true })
    prepare_transfers
    update_stream reset_queue
    start_thread consumer_thread
    start_thread transfer_thread

  -- `airspyhf_start`
  unfoldable pub start : Act H (Unit {0})
  unfolding clear_drops
  start = do
    update (λ d. record d {
      stream = clear_drops d.stream;
      vec = record { re = of_intf (pos 1); im = of_intf (pos 0) };
    })
    set_receiver_mode H receiver_mode_off
    ask clear_halt
    set_receiver_mode H receiver_mode_on
    create_io_threads

  -- the two loops of `cancel_transfers`; events are handled only while transfers are live
  unfoldable pub cancel_from : (i left : ℕ) → Act H (Unit {0})
  cancel_from i zero = pure tt
  cancel_from i (suc left) =
      let rest = cancel_from (i + 1) left in (do ask (cancel_transfer i); rest)

  -- `libusb_handle_events_timeout_completed`, which runs the callbacks of transfers
  unfoldable pub poll_events : Act H (Unit {0})
  poll_events w = (
    ok tt,
    record {
      device = record w.device { stream = run_callbacks (H.callbacks w.log) w.device.stream };
      log = handle_events ∷ w.log;
    },
  )

  unfoldable pub drain : ℕ → Act H (Unit {0})
  unfolding poll_events
  drain zero = pure tt
  drain (suc left) =
      let rest = drain left in
      (do
        d ← device
        if ltb_ℤ (pos 0) d.stream.transfer_live then (do poll_events; rest) else pure tt)

  -- `cancel_transfers`, where the transfers have been allocated
  unfoldable pub cancel_transfers : Act H (Unit {0})
  unfolding cancel_from drain
  cancel_transfers = do d ← device; cancel_from 0 d.transfer_count; drain d.transfer_count

  -- `pthread_join`, which does not come back if the thread does not end. Its result is not looked at.
  unfoldable pub join : Thread → Act H (Unit {0})
  join t w =
      let joined = record w { log = join_thread t ∷ w.log } in
      if H.ends w.log t then (ok tt, joined) else (fault, joined)

  -- a thread that is waited for and marked as ended, if it is marked as running
  unfoldable pub join_if : Bool → Thread → (Device H.floats → Device H.floats) → Act H (Unit {0})
  unfolding join
  join_if false t mark = pure tt
  join_if true t mark = do join t; update mark

  unfoldable pub join_io_threads : Act H (Unit {0})
  unfolding join_if
  join_io_threads = do
    d ← device
    join_if d.transfer_thread_running transfer_thread
        (λ e. record e { transfer_thread_running = false })
    d ← device
    join_if d.consumer_thread_running consumer_thread
        (λ e. record e { consumer_thread_running = false })

  -- `kill_io_threads`
  unfoldable pub kill_io_threads : Act H (Unit {0})
  unfolding cancel_transfers join_io_threads poll_events
  kill_io_threads = do
    d ← device
    if d.stream.stop_requested
        then (do
          update_stream (λ s. record s { stop_requested = false; streaming = false })
          cancel_transfers
          ask signal_consumer
          join_io_threads
          poll_events)
        else pure tt

  -- What `airspyhf_stop` returns: the status of the request, once the threads have ended.
  unfoldable pub after_mode : Outcome (Unit {0}) × World H → Outcome (Unit {0}) × World H
  unfolding kill_io_threads
  after_mode (status, w) =
      and_then (kill_io_threads w)
        (λ _ v. and_then (ask interrupt_event_handler v) (λ _ u. (status, u)))

  -- `airspyhf_stop`
  unfoldable pub stop : Act H (Unit {0})
  unfolding after_mode
  stop = do
    update_stream (λ s. record s { stop_requested = true })
    λ w. after_mode (set_receiver_mode H receiver_mode_off w)
