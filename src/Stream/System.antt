-- ===== src/Stream/System.antt =====
-- The threads of a running stream as a step relation: each step is one stretch of code that runs
-- without giving up the mutex, or one unguarded access of the flags.
use airspyhf.Prelude.{
  ℕ, ◌+◌, ◌≡◌, Bool, true, false, List, [], ◌∷◌, ◌++◌, some, ltb, length, get_elem?, set,
  if◌then◌else◌,
}
use airspyhf.Stream.{
  Stream, Transfer, Turn, sleeps, converts, exits, raw_buffer_count, enqueue, admit, resubmit,
  take_buffer, after_callback, release_buffer, after_events, thread_exit,
}

-- Where the transfer thread stands in the callback, with the number of the transfer.
pub data Producer : Type 0 where
  outside : Producer
  admitted : ℕ → Transfer → Producer
  queued : ℕ → Transfer → Producer

-- Where the consumer stands. `converting` holds the buffer and its drops outside of the mutex.
pub data Consumer : Type 0 where
  waiting : Consumer
  converting : ℕ → ℕ → Consumer
  called : Consumer
  gone : Consumer

-- A buffer in the queue, with the count of buffers that were dropped before it.
abbrev pub Entry : Type 0
Entry = ℕ × ℕ

-- `transfers` has the buffer of each transfer of the device. `arrived` and `delivered` record what has been put into the queue and handed to the consumer,
-- oldest first, and `drops` counts the buffers that found the queue full. They steer nothing.
pub record System : Type 0 where
  pub stream : Stream
  pub producer : Producer
  pub consumer : Consumer
  pub transfers : List ℕ
  pub arrived : List Entry
  pub delivered : List Entry
  pub drops : ℕ

-- where the consumer goes after `take_buffer`
abbrev pub turn_to : Turn → Consumer
turn_to sleeps = waiting
turn_to (converts b d) = converting b d
turn_to exits = gone

-- what `take_buffer` hands over
abbrev pub handed : Turn → List Entry
handed sleeps = []
handed (converts b d) = (b, d) ∷ []
handed exits = []

-- Under the mutex the queue has room for the buffer, or the buffer is dropped.
unfoldable pub arrivals : Stream → Transfer → List Entry
arrivals s t = if ltb s.count raw_buffer_count then (t.buffer, s.dropped_buffers) ∷ [] else []

unfoldable pub refused : Stream → ℕ
refused s = if ltb s.count raw_buffer_count then 0 else 1

abbrev pub put : System → ℕ → Transfer → System
put s i t = record s {
  stream = (enqueue s.stream t).0;
  producer = queued i (enqueue s.stream t).1;
  transfers = set s.transfers i (enqueue s.stream t).1.buffer;
  arrived = s.arrived ++ arrivals s.stream t;
  drops = s.drops + refused s.stream;
}

abbrev pub take : System → System
take s = record s {
  stream = (take_buffer s.stream).0;
  consumer = turn_to (take_buffer s.stream).1;
  delivered = s.delivered ++ handed (take_buffer s.stream).1;
}

pub data Step (s : System) : System → Type 0 where
  -- the callback is entered, and lets the transfer pass or not
  refuses :
      (t : Transfer)
      → s.producer ≡ outside
      → (admit s.stream t).1 ≡ false
      → Step s (record s { stream = (admit s.stream t).0 })
  enters :
      (i : ℕ) (t : Transfer)
      → s.producer ≡ outside
      → get_elem? s.transfers i ≡ some t.buffer
      → (admit s.stream t).1 ≡ true
      → Step s (record s { stream = (admit s.stream t).0; producer = admitted i t })
  puts : (i : ℕ) (t : Transfer) → s.producer ≡ admitted i t → Step s (put s i t)
  resubmits :
      (i : ℕ) (t : Transfer) (submitted : Bool)
      → s.producer ≡ queued i t
      → Step s (record s { stream = resubmit s.stream submitted; producer = outside })
  -- the transfer thread between two callbacks
  polls :
      (is_negative is_interrupted : Bool)
      → s.producer ≡ outside
      → Step s (record s { stream = after_events s.stream is_negative is_interrupted })
  stops_polling : s.producer ≡ outside → Step s (record s { stream = thread_exit s.stream })
  -- the consumer thread
  takes : s.consumer ≡ waiting → Step s (take s)
  calls :
      (b d : ℕ) (wants_more : Bool)
      → s.consumer ≡ converting b d
      → Step s (record s { stream = after_callback s.stream wants_more; consumer = called })
  releases :
      s.consumer ≡ called
      → Step s (record s { stream = release_buffer s.stream; consumer = waiting })
  -- the user's thread: `airspyhf_stop` raises one flag, and `kill_io_threads` lowers both
  requests_stop : Step s (record s { stream = record s.stream { stop_requested = true } })
  accepts_stop : Step s (record s { stream = record s.stream { stop_requested = false } })
  ends_stream : Step s (record s { stream = record s.stream { streaming = false } })

pub data Reach (s : System) : System → Type 0 where
  here : Reach s s
  later : {t u : System} → Reach s t → Step t u → Reach s u

-- A stream that has just been started: the queue is empty, and its eight slots hold buffers.
pub record IsFresh (s : System) : Type 0 where
  pub empty_head : s.stream.head ≡ 0
  pub empty_tail : s.stream.tail ≡ 0
  pub empty_count : s.stream.count ≡ 0
  pub slots : length s.stream.slots ≡ raw_buffer_count
  pub drop_slots : length s.stream.drop_slots ≡ raw_buffer_count
  pub no_drops : s.stream.dropped_buffers ≡ 0
  pub unused : s.producer ≡ outside
  pub idle : s.consumer ≡ waiting
  pub nothing_arrived : s.arrived ≡ []
  pub nothing_delivered : s.delivered ≡ []
  pub none_dropped : s.drops ≡ 0
