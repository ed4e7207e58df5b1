-- ===== src/Stream/Progress.antt =====
-- The consumer of a running stream empties the queue.
use airspyhf.Prelude.{ℕ, zero, suc, ◌≡◌, refl, sym, ap, ◌∙◌, true, arith, get_or, [], ◌++◌}
use mathlib.Core.List.{append-nil}
use airspyhf.Stream.{
  Stream, is_streaming, next_slot, converts, take_buffer, after_callback, release_buffer,
}
use airspyhf.Stream.System.{
  waiting, converting, called, System, takes, calls, releases, turn_to, take, Reach, later, here,
  IsFresh,
}
use airspyhf.Stream.Window.{window}
use airspyhf.Stream.Invariant.{Inv, Step-Inv, Reach-Inv}
use airspyhf.Stream.Delivery.{pending, Accounted, Step-Accounted, delivered_in_order}

-- A stream that runs, with `n` entries in the queue and its consumer between two of them.
record Ready (n : ℕ) (s : System) : Type 0 where
  idle : s.consumer ≡ waiting
  runs : is_streaming s.stream ≡ true
  count_eq : s.stream.count ≡ n
  inv : Inv s
  account : Accounted s

take_buffer-converts :
    (s : Stream) (n : ℕ)
    → is_streaming s ≡ true
    → s.count ≡ suc n
    → take_buffer s ≡ (
      record s { tail = next_slot s.tail },
      converts (get_or s.slots s.tail 0) (get_or s.drop_slots s.tail 0),
    )
unfolding take_buffer
take_buffer-converts s n runs some_wait = ground arith

-- The states of the consumer's round for one entry, with a client that wants more.
abbrev call : System → System
call s = record s { stream = after_callback s.stream true; consumer = called }

abbrev release : System → System
release s = record s { stream = release_buffer s.stream; consumer = waiting }

-- what the round leaves alone
abbrev pub SameArrivals : System → System → Type 0
SameArrivals s t = (t.arrived ≡ s.arrived) × (t.producer ≡ s.producer) × (t.transfers ≡ s.transfers)

round-Ready :
    (n : ℕ) (s t : System)
    → Reach s t
    → Ready (suc n) t
    → Reach s (release (call (take t))) × Ready n (release (call (take t)))
unfolding after_callback release_buffer
round-Ready n s t r h =
    let taken = take_buffer-converts t.stream n h.runs h.count_eq in
    let holds : (take t).consumer
        ≡ converting (get_or t.stream.slots t.stream.tail 0)
            (get_or t.stream.drop_slots t.stream.tail 0) =
      ap (λ p. turn_to p.1) taken in
    let first = takes h.idle in
    let second = calls _ _ true holds in
    let third = releases refl in
    (
      later (later (later r first) second) third,
      record {
        idle = refl;
        runs = ap (λ p. is_streaming p.0) taken ∙ h.runs;
        count_eq = omega (arith, ap (λ p. p.0.count) taken, h.count_eq);
        inv = Step-Inv third (Step-Inv second (Step-Inv first h.inv));
        account =
            Step-Accounted third (Step-Inv second (Step-Inv first h.inv))
              (Step-Accounted second (Step-Inv first h.inv) (Step-Accounted first h.inv h.account));
      },
    )

-- With no entry in the queue, what has arrived was delivered.
empty-delivered : (s : System) → Ready 0 s → s.delivered ≡ s.arrived
unfolding window
empty-delivered s h =
    let nothing : pending s.stream 0 ≡ [] = rw h.count_eq refl in
    sym
      (h.account.in_order ∙ rw h.idle (ap (λ l. s.delivered ++ l) nothing ∙ append-nil s.delivered))

rounds-delivered :
    (n : ℕ) (s t : System)
    → Reach s t
    → Ready n t
    → SameArrivals s t
    → (u : System) × Reach s u × (u.stream.count ≡ 0) × SameArrivals s u × (u.delivered ≡ s.arrived)
rounds-delivered zero s t r h same = (t, r, h.count_eq, same, empty-delivered t h ∙ same.0)
rounds-delivered (suc n) s t r h same =
    let next = round-Ready n s t r h in
    rounds-delivered n s (release (call (take t))) next.0 next.1 same

-- From every state that a fresh stream reaches, if the stream runs and the consumer is between two
-- entries, a run leads on to a state where the queue is empty and all that had arrived is
-- delivered; meanwhile nothing arrives, and the transfer thread and the transfers stay as they are.
pub queue_drains :
    {s t : System}
    → IsFresh s
    → Reach s t
    → t.consumer ≡ waiting
    → is_streaming t.stream ≡ true
    → (u : System) × Reach t u × (u.stream.count ≡ 0) × SameArrivals t u × (u.delivered ≡ t.arrived)
queue_drains {s} {t} f r idle runs =
    rounds-delivered t.stream.count t t here
      (record {
        idle = idle;
        runs = runs;
        count_eq = refl;
        inv = Reach-Inv f r;
        account = delivered_in_order f r;
      })
      (refl, refl, refl)
