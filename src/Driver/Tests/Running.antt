-- ===== src/Driver/Tests/Running.antt =====
-- The test device, started and stopped.
use airspyhf.Prelude.{◌≡◌, refl, true, false, arith, [], ◌∷◌, length}
use airspyhf.Prelude.Int.{◌+ℤ◌, ◌-ℤ◌}
use airspyhf.Prelude.Outcome.{ok, fail, fault, error}
use airspyhf.Usb.{Host, mode_code, receiver_mode_off}
use airspyhf.Stream.{Transfer, admit, raw_buffer_count, is_streaming, clear_drops, reset_queue}
use airspyhf.Stream.System.{System, Reach, here, later, enters, puts, put, admitted}
use airspyhf.Stream.Delivery.{Accounted}
use airspyhf.Driver.Receiver.Begin.{begin, start-Begins}
use airspyhf.Driver.{World}
use airspyhf.Driver.Commands.{set_receiver_mode}
use airspyhf.Driver.Receiver.{
  start, stop, after_mode, kill_io_threads, create_io_threads, start_thread, submit_from,
  prepare_transfers,
}
use airspyhf.Driver.Receiver.Start.{Runs, cleared, create_io_threads_stuck}
use airspyhf.Driver.Receiver.Stop.{Settles, raised, stop-Settles}
use airspyhf.Driver.Tests.{test_device, good_host, bad_host, good_world, bad_world}

started_world : World good_host
started_world = (start good_host good_world).1

-- the transfer 0 of the started device, full
abbrev full_transfer : Transfer
full_transfer = record { buffer = 20; completed = true; actual_length = 16384; length = 16384 }

-- the threads begin, and the callback of the transfer is entered
begun_system : System
begun_system = begin started_world.device.stream (20 ∷ 21 ∷ [])

entered_system : System
entered_system = record begun_system {
  stream = (admit begun_system.stream full_transfer).0;
  producer = admitted 0 full_transfer;
}

begins_unfolded :
    ((start good_host good_world).0 ≡ ok tt)
    × ((admit begun_system.stream full_transfer).1 ≡ true)
    × (length good_world.device.stream.slots ≡ raw_buffer_count)
unfolding begun_system started_world start set_receiver_mode create_io_threads prepare_transfers
    submit_from start_thread clear_drops reset_queue mode_code admit ◌+ℤ◌ ◌-ℤ◌
begins_unfolded = (refl, refl, refl)

enters_callback : Reach begun_system (put entered_system 0 full_transfer)
unfolding begun_system entered_system
enters_callback =
    later (later here (enters 0 full_transfer refl refl begins_unfolded.1))
      (puts 0 full_transfer refl)

start-Begins_example :
    Runs good_host (cleared good_host good_world).device started_world.device
    × Accounted (put entered_system 0 full_transfer)
unfolding started_world begun_system
start-Begins_example =
    start-Begins good_host good_world started_world (20 ∷ 21 ∷ [])
      (put entered_system 0 full_transfer) begins_unfolded.2
      (λ i. (begins_unfolded.0 i, started_world)) enters_callback

-- a host on which no thread comes to its end
abbrev stuck_host : Host
stuck_host = record good_host { ends = λ log t. false }

abbrev stuck_world : World stuck_host
stuck_world = record {
  device = record test_device { transfer_thread_running = true; consumer_thread_running = true };
  log = [];
}

-- there the wait is the last call
stuck_test : (stop stuck_host stuck_world).0 ≡ fault
unfolding stop set_receiver_mode mode_code after_mode kill_io_threads
stuck_test = refl

stop-Settles_example :
    Settles stuck_host
      (set_receiver_mode stuck_host receiver_mode_off (raised stuck_host stuck_world)).0
      (stop stuck_host stuck_world)
stop-Settles_example = stop-Settles stuck_host stuck_world

create_io_threads_stuck_example :
    let v = (create_io_threads bad_host bad_world).1 in
    ((create_io_threads bad_host bad_world).0 ≡ fail error)
    × (is_streaming v.device.stream ≡ true)
    × (v.device.consumer_thread_running ≡ false)
    × (v.device.transfer_thread_running ≡ false)
    × (create_io_threads bad_host v ≡ (fail error, v))
create_io_threads_stuck_example =
    create_io_threads_stuck bad_host bad_world (refl, refl) (omega arith) refl
