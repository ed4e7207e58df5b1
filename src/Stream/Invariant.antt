-- ===== src/Stream/Invariant.antt =====
-- The indices of the queue, in every state that the threads can reach.
use airspyhf.Prelude.{ℕ, ◌+◌, ◌-◌, ◌%◌, ◌≤◌, ◌<◌, ◌≡◌, Bool, arith, length, length-set}
use airspyhf.Stream.{
  Stream, Transfer, raw_buffer_count, enqueue, admit, resubmit, take_buffer, after_callback,
  release_buffer, after_events, thread_exit,
}
use airspyhf.Stream.System.{
  Consumer, waiting, converting, called, gone, System, Step, refuses, enters, puts, resubmits,
  polls, stops_polling, takes, calls, releases, requests_stop, accepts_stop, ends_stream, turn_to,
  Reach, here, later, IsFresh,
}

-- the entries of the count that the consumer has taken out and not yet released
abbrev pub held : Consumer → ℕ
held waiting = 0
held (converting _ _) = 1
held called = 1
held gone = 0

-- The queue of a stream whose consumer holds `h` entries.
pub record QueueInv (s : Stream) (h : ℕ) : Type 0 where
  pub slots_length : length s.slots ≡ raw_buffer_count
  pub drops_length : length s.drop_slots ≡ raw_buffer_count
  pub tail_in : s.tail < raw_buffer_count
  pub few : s.count ≤ raw_buffer_count
  pub counted : h ≤ s.count
  pub head_at : s.head ≡ (s.tail + (s.count - h)) % raw_buffer_count

pub enqueue-QueueInv :
    (s : Stream) (t : Transfer) (h : ℕ) → QueueInv s h → QueueInv (enqueue s t).0 h
unfolding enqueue
enqueue-QueueInv s t h v =
    ground
      (arith, length-set s.slots s.head t.buffer, length-set s.drop_slots s.head s.dropped_buffers)

pub take_buffer-QueueInv :
    (s : Stream) → QueueInv s 0 → QueueInv (take_buffer s).0 (held (turn_to (take_buffer s).1))
unfolding take_buffer
take_buffer-QueueInv s v = ground arith

pub release_buffer-QueueInv : (s : Stream) → QueueInv s 1 → QueueInv (release_buffer s) 0
unfolding release_buffer
release_buffer-QueueInv s v = ground arith

-- The flags and the count of live transfers are not part of the queue.
module _ (s : Stream) where
  admit-QueueInv : (t : Transfer) (h : ℕ) → QueueInv s h → QueueInv (admit s t).0 h
  unfolding admit
  admit-QueueInv t h v = ground arith

  resubmit-QueueInv : (a : Bool) (h : ℕ) → QueueInv s h → QueueInv (resubmit s a) h
  unfolding resubmit
  resubmit-QueueInv a h v = ground arith

  after_callback-QueueInv : (a : Bool) (h : ℕ) → QueueInv s h → QueueInv (after_callback s a) h
  unfolding after_callback
  after_callback-QueueInv a h v = ground arith

  after_events-QueueInv : (a b : Bool) (h : ℕ) → QueueInv s h → QueueInv (after_events s a b) h
  unfolding after_events
  after_events-QueueInv a b h v = ground arith

  thread_exit-QueueInv : (h : ℕ) → QueueInv s h → QueueInv (thread_exit s) h
  unfolding thread_exit
  thread_exit-QueueInv h v = ground arith

abbrev pub Inv : System → Type 0
Inv s = QueueInv s.stream (held s.consumer)

-- Every step of a thread keeps the indices of the queue right: the tail in range, at most eight
-- buffers, and the head just past the buffers that wait, also while the consumer converts one.
pub Step-Inv : {s t : System} → Step s t → Inv s → Inv t
Step-Inv {s} (refuses t e r) v = admit-QueueInv s.stream t _ v
Step-Inv {s} (enters i t e w r) v = admit-QueueInv s.stream t _ v
Step-Inv {s} (puts i t e) v = enqueue-QueueInv s.stream t _ v
Step-Inv {s} (resubmits i t a e) v = resubmit-QueueInv s.stream a _ v
Step-Inv {s} (polls a b e) v = after_events-QueueInv s.stream a b _ v
Step-Inv {s} (stops_polling e) v = thread_exit-QueueInv s.stream _ v
Step-Inv {s} (takes e) v = take_buffer-QueueInv s.stream (rw e at v)
Step-Inv {s} (calls b d a e) v = after_callback-QueueInv s.stream a 1 (rw e at v)
Step-Inv {s} (releases e) v = release_buffer-QueueInv s.stream (rw e at v)
Step-Inv requests_stop v = ground arith
Step-Inv accepts_stop v = ground arith
Step-Inv ends_stream v = ground arith

pub IsFresh-Inv : {s : System} → IsFresh s → Inv s
IsFresh-Inv f = ground arith

-- So they hold in every state that a freshly started stream can reach.
pub Reach-Inv : {s t : System} → IsFresh s → Reach s t → Inv t
Reach-Inv f here = IsFresh-Inv f
Reach-Inv f (later r st) = Step-Inv st (Reach-Inv f r)
