-- ===== src/Stream.antt =====
-- The sample stream of libairspyhf/src/airspyhf.c: eight buffers between the transfer thread, which
-- runs `airspyhf_libusb_transfer_callback`, and the consumer thread (`consumer_threadproc`).
pub mod System
pub mod Window
pub mod Invariant
pub mod Delivery
pub mod Progress
pub mod Ownership
mod Tests
use airspyhf.Prelude.{
  ℕ, suc, ◌+◌, ◌-◌, ◌*◌, ◌%◌, ◌^◌, Bool, true, false, not, ◌&&◌, ◌||◌, List, [], ◌∷◌, ltb, ◌==◌,
  set, get_or, if◌then◌else◌, replicate,
}
use airspyhf.Prelude.Int.{ℤ, pos, ◌+ℤ◌, ◌-ℤ◌}

-- RAW_BUFFER_COUNT
abbrev pub raw_buffer_count : ℕ
raw_buffer_count = 8

-- The fields of `airspyhf_device` that the stream works on. A buffer is known by its address.
-- `slots` is `received_samples_queue`, and `drop_slots` is `dropped_buffers_queue`.
pub record Stream : Type 0 where
  pub streaming : Bool
  pub stop_requested : Bool
  pub head : ℕ
  pub tail : ℕ
  pub count : ℕ
  pub slots : List ℕ
  pub drop_slots : List ℕ
  pub dropped_buffers : ℕ
  pub transfer_live : ℤ

-- `(i + 1) & (RAW_BUFFER_COUNT - 1)`
abbrev pub next_slot : ℕ → ℕ
next_slot i = (i + 1) % raw_buffer_count

-- `airspyhf_is_streaming`
abbrev pub is_streaming : Stream → Bool
is_streaming s = s.streaming && not s.stop_requested

-- `struct libusb_transfer`: the buffer, and how the transfer ended.
pub record Transfer : Type 0 where
  pub buffer : ℕ
  pub completed : Bool
  pub actual_length : ℕ
  pub length : ℕ

abbrev pub is_full : Transfer → Bool
is_full t = t.completed && t.actual_length == t.length

-- What the callback does under the mutex: the filled buffer goes into the queue, and the transfer
-- takes the buffer of that slot; or the buffer is dropped and counted.
unfoldable pub enqueue : Stream → Transfer → Stream × Transfer
enqueue s t =
    if ltb s.count raw_buffer_count
    then (
      record s {
        slots = set s.slots s.head t.buffer;
        drop_slots = set s.drop_slots s.head s.dropped_buffers;
        dropped_buffers = 0;
        head = next_slot s.head;
        count = s.count + 1;
      },
      record t { buffer = get_or s.slots s.head 0 },
    )
    else (record s { dropped_buffers = (s.dropped_buffers + 1) % 2 ^ 32 }, t)

-- the start of the callback: `transfer_live--`, and whether the transfer goes to the queue
unfoldable pub admit : Stream → Transfer → Stream × Bool
unfolding ◌-ℤ◌
admit s t =
    let s' = record s { transfer_live = s.transfer_live -ℤ pos 1 } in
    if not s.streaming || s.stop_requested
    then (s', false)
    else if is_full t
    then (s', true)
    else (record s' { streaming = false }, false)

-- the end of the callback: the transfer is submitted again
unfoldable pub resubmit : Stream → Bool → Stream
resubmit s submitted =
    if submitted
    then record s { transfer_live = s.transfer_live +ℤ pos 1 }
    else record s { streaming = false }

-- `airspyhf_libusb_transfer_callback`, when no other thread comes between its parts. The second part
-- of the result is the transfer that is submitted again, if one is.
unfoldable pub transfer_callback : Stream → Transfer → Bool → Stream × Transfer
unfolding admit enqueue resubmit
transfer_callback s t submitted =
    let (s', go) = admit s t in
    if go then (let (s'', t') = enqueue s' t in (resubmit s'' submitted, t')) else (s', t)

-- the callbacks that libusb runs in one call that handles events, each with whether its transfer
-- could be submitted again
unfoldable pub run_callbacks : List (Transfer × Bool) → Stream → Stream
run_callbacks [] s = s
run_callbacks ((t, submitted) ∷ ts) s = run_callbacks ts (transfer_callback s t submitted).0

-- What the consumer does next when it holds the mutex at the head of its loop.
pub data Turn : Type 0 where
  -- `pthread_cond_wait`
  sleeps : Turn
  -- the buffer to convert, with the buffers that were dropped before it
  converts : ℕ → ℕ → Turn
  exits : Turn

-- the loop of `consumer_threadproc`, from the mutex on
unfoldable pub take_buffer : Stream → Stream × Turn
take_buffer s =
    if not (is_streaming s)
    then (record s { streaming = false }, exits)
    else if s.count == 0
    then (s, sleeps)
    else (
      record s { tail = next_slot s.tail },
      converts (get_or s.slots s.tail 0) (get_or s.drop_slots s.tail 0),
    )

-- the call of the user's callback, which ends the stream by a result other than 0
unfoldable pub after_callback : Stream → Bool → Stream
after_callback s wants_more = if wants_more then s else record s { streaming = false }

-- back under the mutex: `received_buffer_count--`
unfoldable pub release_buffer : Stream → Stream
release_buffer s = record s { count = s.count - 1 }

-- one round of `transfer_threadproc`: `libusb_handle_events_timeout_completed` has returned `error`
unfoldable pub after_events : Stream → Bool → Bool → Stream
after_events s is_negative is_interrupted =
    if is_negative && not is_interrupted then record s { streaming = false } else s

-- the end of either thread
unfoldable pub thread_exit : Stream → Stream
thread_exit s = record s { streaming = false }

-- `transfer.dropped_samples` for a buffer of `sample_count` samples
unfoldable pub dropped_samples : ℕ → ℕ → ℕ
dropped_samples dropped sample_count = dropped * sample_count % 2 ^ 64

-- the queue as `create_io_threads` leaves it, with the lengths and drops that it found
unfoldable pub reset_queue : Stream → Stream
reset_queue s = record s { head = 0; tail = 0; count = 0 }

-- the part of `airspyhf_start` that clears the drops
unfoldable pub clear_drops : Stream → Stream
clear_drops s = record s { drop_slots = replicate raw_buffer_count 0; dropped_buffers = 0 }
