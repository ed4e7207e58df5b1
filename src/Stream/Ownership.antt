-- ===== src/Stream/Ownership.antt =====
-- Who owns the sample buffers: the slots of the queue or the transfers, and never both.
use airspyhf.Prelude.{
  ℕ, zero, suc, ◌+◌, ◌%◌, ◌≤◌, ◌<◌, ◌≡◌, ◌≢◌, refl, ap, ◌∙◌, inl, inr, Bool, true, false, some,
  List, [], ◌∷◌, arith, ltb, ltb→lt, Bool-cases, if◌then◌else◌, ◌==◌, length, get_elem?, get_or,
  set, get_or-set_ne, get_elem?-set_self,
}
use airspyhf.Prelude.Counts.{count, count-set, count-get_or}
use airspyhf.Stream.{
  is_streaming, Stream, Transfer, raw_buffer_count, enqueue, take_buffer, release_buffer,
}
use airspyhf.Stream.System.{
  Producer, outside, admitted, queued, Consumer, waiting, converting, called, gone, System, Step,
  refuses, enters, puts, resubmits, polls, stops_polling, takes, calls, releases, requests_stop,
  accepts_stop, ends_stream, turn_to, put, Reach, here, later, IsFresh,
}
use airspyhf.Stream.Invariant.{held, QueueInv, Inv, Reach-Inv}
use airspyhf.Stream.Delivery.{
  SameQueue, admit-SameQueue, resubmit-SameQueue, after_callback-SameQueue, after_events-SameQueue,
  thread_exit-SameQueue,
}

in_range : (xs : List ℕ) (i b : ℕ) → get_elem? xs i ≡ some b → (i < length xs) × (get_or xs i 0 ≡ b)
in_range [] i b e = cc
in_range (x ∷ xs) zero b e = ground arith
in_range (x ∷ xs) (suc i) b e = ground (arith, in_range xs i b)

set_self : (xs : List ℕ) (i b : ℕ) → get_elem? xs i ≡ some b → set xs i b ≡ xs
set_self [] i b e = refl
set_self (x ∷ xs) zero b e = ground arith
set_self (x ∷ xs) (suc i) b e = ap (◌∷◌ x) (set_self xs i b e)

-- Two lists exchange an element.
count-exchange :
    (a : ℕ) (xs ys : List ℕ) (i j b : ℕ)
    → i < length xs
    → get_elem? ys j ≡ some b
    → count a (set xs i b) + count a (set ys j (get_or xs i 0)) ≡ count a xs + count a ys
count-exchange a xs ys i j b h e =
    let (lt, same) = in_range ys j b e in
    let back : count a (set ys j (get_or xs i 0)) + (if b == a then 1 else 0)
        ≡ count a ys + (if get_or xs i 0 == a then 1 else 0) =
      rw same at (count-set a ys j (get_or xs i 0) lt) in
    omega (arith, count-set a xs i b h, back)

-- how often a buffer is owned
abbrev pub owned : ℕ → System → ℕ
owned a s = count a s.stream.slots + count a s.transfers

-- The transfer in the callback has the buffer that the list of transfers says.
abbrev Carries : Producer → List ℕ → Type 0
Carries outside ts = Unit
Carries (admitted i t) ts = get_elem? ts i ≡ some t.buffer
Carries (queued i t) ts = get_elem? ts i ≡ some t.buffer

-- The buffer that the consumer converts stands in the slot before the tail.
abbrev Reads : Consumer → Stream → Type 0
Reads (converting b d) s = get_or s.slots ((s.tail + 7) % raw_buffer_count) 0 ≡ b
Reads waiting s = Unit
Reads called s = Unit
Reads gone s = Unit

record Owns (s : System) : Type 0 where
  carries : Carries s.producer s.transfers
  reads : Reads s.consumer s.stream

slots-enqueue :
    (s : Stream) (t : Transfer)
    → (enqueue s t).0.slots
      ≡ (if ltb s.count raw_buffer_count then set s.slots s.head t.buffer else s.slots)
unfolding enqueue
slots-enqueue s t = ground arith

buffer-enqueue :
    (s : Stream) (t : Transfer)
    → (enqueue s t).1.buffer
      ≡ (if ltb s.count raw_buffer_count then get_or s.slots s.head 0 else t.buffer)
unfolding enqueue
buffer-enqueue s t = ground arith

tail-enqueue : (s : Stream) (t : Transfer) → (enqueue s t).0.tail ≡ s.tail
unfolding enqueue
tail-enqueue s t = ground arith

-- The callback swaps two buffers, or none.
owned-put :
    (s : System) (i : ℕ) (t : Transfer) (a : ℕ)
    → Inv s
    → get_elem? s.transfers i ≡ some t.buffer
    → owned a (put s i t) ≡ owned a s
owned-put s i t a v e = elim (Bool-cases (ltb s.stream.count raw_buffer_count)) [
  | inl room ↦
      rw (slots-enqueue s.stream t, buffer-enqueue s.stream t, room)
        (count-exchange a s.stream.slots s.transfers s.stream.head i t.buffer (omega arith) e)
  | inr full ↦
      rw (
        slots-enqueue s.stream t,
        buffer-enqueue s.stream t,
        full,
        set_self s.transfers i t.buffer e,
      )
]

put-Owns :
    (s : System) (i : ℕ) (t : Transfer)
    → Inv s
    → get_elem? s.transfers i ≡ some t.buffer
    → Reads s.consumer s.stream
    → Owns (put s i t)
put-Owns s i t v e r = record {
  carries =
      get_elem?-set_self s.transfers i (enqueue s.stream t).1.buffer
        (in_range s.transfers i t.buffer e).0;
  reads = put-Reads s.consumer v r;
}
  where
    put-Reads :
        (c : Consumer)
        → QueueInv s.stream (held c)
        → Reads c s.stream
        → Reads c (enqueue s.stream t).0
    put-Reads waiting v r = tt
    put-Reads called v r = tt
    put-Reads gone v r = tt
    put-Reads (converting b d) v r = elim (Bool-cases (ltb s.stream.count raw_buffer_count)) [
      | inl room ↦
          let below : s.stream.count < raw_buffer_count = ltb→lt _ _ room in
          let ne : s.stream.head ≢ (s.stream.tail + 7) % raw_buffer_count = omega arith in
          rw (tail-enqueue s.stream t, slots-enqueue s.stream t, room)
            (get_or-set_ne s.stream.slots t.buffer 0 ne ∙ r)
      | inr full ↦ rw (tail-enqueue s.stream t, slots-enqueue s.stream t, full) r
    ]

take-Reads : (s : Stream) → QueueInv s 0 → Reads (turn_to (take_buffer s).1) (take_buffer s).0
unfolding take_buffer
take-Reads s v = elim (Bool-cases (is_streaming s)) [
  | inr ended ↦ rw ended tt
  | inl runs ↦ elim (Bool-cases (s.count == 0)) [
    | inl empty ↦ rw (runs, empty) tt
    | inr some_wait ↦
        let back : ((s.tail + 1) % 8 + 7) % 8 ≡ s.tail = omega (arith, v.tail_in) in
        rw (runs, some_wait, back)
  ]
]

flag-SameQueue :
    (s : Stream) (a b : Bool) → SameQueue s (record s { streaming = a; stop_requested = b })
flag-SameQueue s a b = ground arith

same-Reads : {s t : Stream} (c : Consumer) → SameQueue s t → Reads c s → Reads c t
same-Reads waiting q r = tt
same-Reads called q r = tt
same-Reads gone q r = tt
same-Reads (converting b d) q r = rw (q.same_slots, q.same_tail) r

Step-Owns : {s t : System} → Step s t → Inv s → Owns s → Owns t
Step-Owns {s} (refuses t e r) v o = record {
  carries = o.carries;
  reads = same-Reads s.consumer (admit-SameQueue s.stream t) o.reads;
}
Step-Owns {s} (enters i t e w r) v o = record {
  carries = w;
  reads = same-Reads s.consumer (admit-SameQueue s.stream t) o.reads;
}
Step-Owns {s} (puts i t e) v o = put-Owns s i t v (rw e at o.carries) o.reads
Step-Owns {s} (resubmits i t b e) v o = record {
  carries = tt;
  reads = same-Reads s.consumer (resubmit-SameQueue s.stream b) o.reads;
}
Step-Owns {s} (polls b c e) v o = record {
  carries = o.carries;
  reads = same-Reads s.consumer (after_events-SameQueue s.stream b c) o.reads;
}
Step-Owns {s} (stops_polling e) v o = record {
  carries = o.carries;
  reads = same-Reads s.consumer (thread_exit-SameQueue s.stream) o.reads;
}
Step-Owns {s} (takes e) v o = record {
  carries = o.carries;
  reads = take-Reads s.stream (rw e at v);
}
Step-Owns (calls b d c e) v o = record { carries = o.carries; reads = tt }
Step-Owns (releases e) v o = record { carries = o.carries; reads = tt }
Step-Owns {s} requests_stop v o = record {
  carries = o.carries;
  reads = same-Reads s.consumer (flag-SameQueue s.stream s.stream.streaming true) o.reads;
}
Step-Owns {s} accepts_stop v o = record {
  carries = o.carries;
  reads = same-Reads s.consumer (flag-SameQueue s.stream s.stream.streaming false) o.reads;
}
Step-Owns {s} ends_stream v o = record {
  carries = o.carries;
  reads = same-Reads s.consumer (flag-SameQueue s.stream false s.stream.stop_requested) o.reads;
}

IsFresh-Owns : (s : System) → IsFresh s → Owns s
IsFresh-Owns s f = record { carries = rw f.unused tt; reads = rw f.idle tt }

Reach-Owns : {s t : System} → IsFresh s → Reach s t → Owns t
Reach-Owns {s} f here = IsFresh-Owns s f
Reach-Owns f (later r st) = Step-Owns st (Reach-Inv f r) (Reach-Owns f r)

slots-take_buffer : (s : Stream) → (take_buffer s).0.slots ≡ s.slots
unfolding take_buffer
slots-take_buffer s = ground arith

slots-release_buffer : (s : Stream) → (release_buffer s).slots ≡ s.slots
unfolding release_buffer
slots-release_buffer s = refl

owned-Step : {s t : System} (a : ℕ) → Step s t → Inv s → Owns s → owned a t ≡ owned a s
owned-Step {s} a (refuses t e r) v o = rw ((admit-SameQueue s.stream t).same_slots)
owned-Step {s} a (enters i t e w r) v o = rw ((admit-SameQueue s.stream t).same_slots)
owned-Step {s} a (puts i t e) v o = owned-put s i t a v (rw e at o.carries)
owned-Step {s} a (resubmits i t b e) v o = rw ((resubmit-SameQueue s.stream b).same_slots)
owned-Step {s} a (polls b c e) v o = rw ((after_events-SameQueue s.stream b c).same_slots)
owned-Step {s} a (stops_polling e) v o = rw ((thread_exit-SameQueue s.stream).same_slots)
owned-Step {s} a (takes e) v o = rw (slots-take_buffer s.stream)
owned-Step {s} a (calls b d c e) v o = rw ((after_callback-SameQueue s.stream c).same_slots)
owned-Step {s} a (releases e) v o = rw (slots-release_buffer s.stream)
owned-Step a requests_stop v o = refl
owned-Step a accepts_stop v o = refl
owned-Step a ends_stream v o = refl

-- No sample buffer is lost, and none is made up or owned twice: each is owned as often, by a slot of
-- the queue or by a transfer, as it was when the stream was started.
pub buffers_conserved : {s t : System} → IsFresh s → Reach s t → (a : ℕ) → owned a t ≡ owned a s
buffers_conserved f here a = refl
buffers_conserved f (later r st) a =
    owned-Step a st (Reach-Inv f r) (Reach-Owns f r) ∙ buffers_conserved f r a

read_once :
    (s : Stream) (c : Consumer) (b d : ℕ)
    → c ≡ converting b d
    → QueueInv s (held c)
    → Reads c s
    → 1 ≤ count b s.slots
read_once s waiting b d e v r = cc
read_once s called b d e v r = cc
read_once s gone b d e v r = cc
read_once s (converting b' d') b d e v r =
    let same : b' ≡ b = ground arith in
    rw (← same, ← r)
      (count-get_or s.slots ((s.tail + 7) % raw_buffer_count) (omega (arith, v.slots_length)))

-- If the stream was started with buffers that are all different, then no transfer, neither one that
-- libusb may be filling nor the one in the callback, has the buffer that the consumer converts.
pub converted_alone :
    {s t : System} {b d : ℕ}
    → IsFresh s
    → ((a : ℕ) → owned a s ≤ 1)
    → Reach s t
    → t.consumer ≡ converting b d
    → count b t.transfers ≡ 0
converted_alone {s} {t} {b} {d} f apart r e = omega (
  arith,
  buffers_conserved f r b,
  apart b,
  read_once t.stream t.consumer b d e (Reach-Inv f r) (Reach-Owns f r).reads,
)
