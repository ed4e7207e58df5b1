-- ===== src/Stream/Delivery.antt =====
-- What the consumer is handed, against what has arrived and what was dropped.
use airspyhf.Prelude.{
  ℕ, suc, ◌+◌, ◌-◌, ◌%◌, ◌^◌, ◌<◌, ◌≡◌, refl, sym, ap, ◌∙◌, inl, inr, Bool, List, [], ◌∷◌, ◌++◌,
  arith, ltb, ltb→lt, Bool-cases, ◌==◌,
}
use mathlib.Core.List.{append-nil, append_assoc}
use airspyhf.Stream.{
  Stream, is_streaming, Transfer, raw_buffer_count, enqueue, admit, resubmit, take_buffer,
  after_callback, release_buffer, after_events, thread_exit,
}
use airspyhf.Stream.System.{
  waiting, Entry, System, Step, refuses, enters, puts, resubmits, polls, stops_polling, takes,
  calls, releases, requests_stop, accepts_stop, ends_stream, turn_to, handed, arrivals, refused,
  put, take, Reach, here, later, IsFresh,
}
use airspyhf.Stream.Window.{window, window-suc, window-set}
use airspyhf.Stream.Invariant.{held, QueueInv, Inv, Reach-Inv}

-- the entries that wait in the queue while the consumer holds `h` of the count
abbrev pub pending : Stream → ℕ → List Entry
pending s h = window s.slots s.drop_slots s.tail (s.count - h)

-- the buffers that were dropped before the entries of a list
abbrev pub drops_of : List Entry → ℕ
drops_of [] = 0
drops_of ((_, d) ∷ es) = d + drops_of es

pub drops_of-append : (xs ys : List Entry) → drops_of (xs ++ ys) ≡ drops_of xs + drops_of ys
drops_of-append [] ys = omega arith
drops_of-append ((_, d) ∷ xs) ys = omega (arith, drops_of-append xs ys)

-- With room the new buffer goes last; else nothing changes in the queue.
pub pending-enqueue :
    (s : Stream) (t : Transfer) (h : ℕ)
    → QueueInv s h
    → pending (enqueue s t).0 h ≡ pending s h ++ arrivals s t
unfolding enqueue arrivals
pending-enqueue s t h v = elim (Bool-cases (ltb s.count raw_buffer_count)) [
  | inl room ↦
      let below : s.count < raw_buffer_count = ltb→lt _ _ room in
      let one_more : s.count + 1 - h ≡ suc (s.count - h) = omega arith in
      rw (room, one_more)
        (window-set s.slots s.drop_slots t.buffer s.dropped_buffers s.tail (s.count - h) s.head
          v.slots_length v.drops_length v.tail_in (omega arith) v.head_at)
  | inr full ↦ rw full (sym (append-nil (pending s h)))
]

-- The consumer takes the first entry, or none.
pub pending-take_buffer :
    (s : Stream)
    → pending s 0
      ≡ handed (take_buffer s).1 ++ pending (take_buffer s).0 (held (turn_to (take_buffer s).1))
unfolding take_buffer
pending-take_buffer s = elim (Bool-cases (is_streaming s)) [
  | inr ended ↦ rw ended
  | inl runs ↦ elim (Bool-cases (s.count == 0)) [
    | inl empty ↦ rw (runs, empty)
    | inr some_wait ↦
        rw (runs, some_wait)
          (window-suc s.slots s.drop_slots s.tail (s.count - 0) (ground arith) (s.count - 1)
            (ground arith))
  ]
]

pub pending-release_buffer : (s : Stream) → pending (release_buffer s) 0 ≡ pending s 1
unfolding release_buffer
pending-release_buffer s = let same : s.count - 1 - 0 ≡ s.count - 1 = omega arith in rw same

-- What has arrived is what was delivered and what waits, in this order; and every dropped buffer is
-- counted in an entry or in `dropped_buffers`, which wraps at 2^32.
pub record Accounted (s : System) : Type 0 where
  pub in_order : s.arrived ≡ s.delivered ++ pending s.stream (held s.consumer)
  pub counted : (drops_of s.arrived + s.stream.dropped_buffers) % 2 ^ 32 ≡ s.drops % 2 ^ 32

-- A buffer that is refused adds one to the drops that are not yet in an entry.
drops-enqueue :
    (s : Stream) (t : Transfer)
    → (drops_of (arrivals s t) + (enqueue s t).0.dropped_buffers) % 2 ^ 32
      ≡ (s.dropped_buffers + refused s) % 2 ^ 32
unfolding enqueue arrivals refused
drops-enqueue s t = ground arith

dropped-take_buffer : (s : Stream) → (take_buffer s).0.dropped_buffers ≡ s.dropped_buffers
unfolding take_buffer
dropped-take_buffer s = ground arith

dropped-release_buffer : (s : Stream) → (release_buffer s).dropped_buffers ≡ s.dropped_buffers
unfolding release_buffer
dropped-release_buffer s = refl

put-Accounted : (s : System) (i : ℕ) (t : Transfer) → Inv s → Accounted s → Accounted (put s i t)
put-Accounted s i t v a = record {
  in_order =
      ap (λ w. w ++ arrivals s.stream t) a.in_order
      ∙ append_assoc s.delivered _ _
      ∙ ap (λ w. s.delivered ++ w) (sym (pending-enqueue s.stream t _ v));
  counted =
      omega (
        arith,
        a.counted,
        drops-enqueue s.stream t,
        drops_of-append s.arrived (arrivals s.stream t),
      );
}

take-Accounted : (s : System) → s.consumer ≡ waiting → Accounted s → Accounted (take s)
take-Accounted s e a = record {
  in_order =
      a.in_order
      ∙ rw e (ap (λ w. s.delivered ++ w) (pending-take_buffer s.stream))
      ∙ sym (append_assoc s.delivered _ _);
  counted = rw (dropped-take_buffer s.stream) a.counted;
}

-- A step that leaves the queue alone keeps the account.
pub record SameQueue (s t : Stream) : Type 0 where
  pub same_slots : t.slots ≡ s.slots
  pub same_drops : t.drop_slots ≡ s.drop_slots
  pub same_tail : t.tail ≡ s.tail
  pub same_count : t.count ≡ s.count
  pub same_dropped : t.dropped_buffers ≡ s.dropped_buffers

pub admit-SameQueue : (s : Stream) (t : Transfer) → SameQueue s (admit s t).0
unfolding admit
admit-SameQueue s t = ground arith

pub resubmit-SameQueue : (s : Stream) (a : Bool) → SameQueue s (resubmit s a)
unfolding resubmit
resubmit-SameQueue s a = ground arith

pub after_callback-SameQueue : (s : Stream) (a : Bool) → SameQueue s (after_callback s a)
unfolding after_callback
after_callback-SameQueue s a = ground arith

pub after_events-SameQueue : (s : Stream) (a b : Bool) → SameQueue s (after_events s a b)
unfolding after_events
after_events-SameQueue s a b = ground arith

pub thread_exit-SameQueue : (s : Stream) → SameQueue s (thread_exit s)
unfolding thread_exit
thread_exit-SameQueue s = ground arith

flags-Accounted :
    {s t : System}
    → SameQueue s.stream t.stream
    → held t.consumer ≡ held s.consumer
    → t.arrived ≡ s.arrived
    → t.delivered ≡ s.delivered
    → t.drops ≡ s.drops
    → Accounted s
    → Accounted t
flags-Accounted q h ea ed en a = record {
  in_order = rw (ea, ed, h, q.same_slots, q.same_drops, q.same_tail, q.same_count) a.in_order;
  counted = rw (ea, en, q.same_dropped) a.counted;
}

-- Every step keeps the account, if the indices of the queue are right.
pub Step-Accounted : {s t : System} → Step s t → Inv s → Accounted s → Accounted t
Step-Accounted {s} (refuses t e r) v a =
    flags-Accounted (admit-SameQueue s.stream t) refl refl refl refl a
Step-Accounted {s} (enters i t e w r) v a =
    flags-Accounted (admit-SameQueue s.stream t) refl refl refl refl a
Step-Accounted {s} (puts i t e) v a = put-Accounted s i t v a
Step-Accounted {s} (resubmits i t b e) v a =
    flags-Accounted (resubmit-SameQueue s.stream b) refl refl refl refl a
Step-Accounted {s} (polls b c e) v a =
    flags-Accounted (after_events-SameQueue s.stream b c) refl refl refl refl a
Step-Accounted {s} (stops_polling e) v a =
    flags-Accounted (thread_exit-SameQueue s.stream) refl refl refl refl a
Step-Accounted {s} (takes e) v a = take-Accounted s e a
Step-Accounted {s} (calls b d c e) v a =
    flags-Accounted (after_callback-SameQueue s.stream c) (rw e) refl refl refl a
Step-Accounted {s} (releases e) v a = record {
  in_order = a.in_order ∙ rw e (ap (λ w. s.delivered ++ w) (sym (pending-release_buffer s.stream)));
  counted = rw (dropped-release_buffer s.stream) a.counted;
}
Step-Accounted requests_stop v a = record { in_order = a.in_order; counted = a.counted }
Step-Accounted accepts_stop v a = record { in_order = a.in_order; counted = a.counted }
Step-Accounted ends_stream v a = record { in_order = a.in_order; counted = a.counted }

IsFresh-Accounted : {s : System} → IsFresh s → Accounted s
unfolding window
IsFresh-Accounted f = record {
  in_order = rw (f.nothing_arrived, f.nothing_delivered, f.empty_count, f.idle);
  counted = rw (f.nothing_arrived, f.none_dropped, f.no_drops);
}

-- From a fresh start on, the consumer is handed the buffers that arrived in the order of their
-- arrival, none twice and none left out but those that still wait; and the buffers that were dropped
-- for want of room are counted, up to 2^32, in what it is handed, what waits and `dropped_buffers`.
pub delivered_in_order : {s t : System} → IsFresh s → Reach s t → Accounted t
delivered_in_order f here = IsFresh-Accounted f
delivered_in_order f (later r st) = Step-Accounted st (Reach-Inv f r) (delivered_in_order f r)
