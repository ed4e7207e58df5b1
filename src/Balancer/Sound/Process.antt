-- ===== src/Balancer/Sound/Process.antt =====
-- `iq_balancer_process` of libairspyhf/src/iqbalancer.c stays inside of its arrays, and keeps what
-- makes it so.
use airspyhf.Prelude.{
  ℕ, ◌+◌, ◌-◌, ◌≤◌, ◌<◌, ◌≡◌, ◌∙◌, Bool, true, false, some, List, ◌++◌, arith, length, take, drop,
  length-take, length-drop, length-append, ltb, leb, if◌then◌else◌, Bool-cases, inl, inr,
}
use airspyhf.Prelude.Int.{ℤ, pos, ◌+ℤ◌, ltb_ℤ}
use airspyhf.Prelude.Checked.{Ensures, >>=-Ensures}
use airspyhf.Floats.{Floats}
use airspyhf.Balancer.{Complex, Balancer, working_buffer_length}
use airspyhf.Balancer.Correction.{
  cancel_dc, adjust_phase_amplitude, length-cancel_dc, length-adjust_phase_amplitude,
}
use airspyhf.Balancer.Process.{overwrite, full_buffer, collect, process}
use airspyhf.Balancer.Sound.{IsSound}
use airspyhf.Balancer.Sound.Estimate.{estimate_imbalance-IsSound}

module _ (F : Floats) where
  open F use {Float, addf, subf, mulf, divf, litf, of_intf, ltf}

  length-overwrite :
      {A : Type 0} (buffer part : List A) (at : ℕ)
      → at + length part ≤ length buffer
      → Ensures (λ l. length l ≡ length buffer) (overwrite buffer at part)
  unfolding overwrite
  length-overwrite buffer part at h =
      let past = at + length part in
      let inside : ltb (length buffer) past ≡ false = ground arith in
      rw inside (
        omega (
          arith,
          length-append (take at buffer) (part ++ drop past buffer),
          length-append part (drop past buffer),
          length-take at buffer,
          length-drop past buffer,
        ))

  at_position :
      (b : Balancer F) (buffer : List (Complex Float)) (position : ℕ) (skipped : ℤ)
      → IsSound F b
      → length buffer ≡ working_buffer_length
      → position < working_buffer_length
      → IsSound F (record b {
        working_buffer = buffer;
        working_buffer_pos = position;
        skipped_buffers = skipped;
      })
  at_position b buffer position skipped h l lt = ground arith

  -- A full working buffer: what was sound but for the position is sound again.
  full_buffer-IsSound :
      (b : Balancer F) (buffer : List (Complex Float)) (position : ℕ)
      → IsSound F b
      → length buffer ≡ working_buffer_length
      → Ensures
          (IsSound F)
          (full_buffer F (record b { working_buffer = buffer; working_buffer_pos = position }))
  unfolding full_buffer
  full_buffer-IsSound b buffer position h l =
      elim (Bool-cases (ltb_ℤ b.buffers_to_skip (b.skipped_buffers +ℤ pos 1))) [
        | inl due ↦
            let emptied = record b {
              working_buffer = buffer;
              working_buffer_pos = 0;
              skipped_buffers = pos 0;
            } in
            let sound = at_position b buffer 0 (pos 0) h l (omega arith) in
            let done = estimate_imbalance-IsSound F emptied buffer sound in rw due (rw l at done)
        | inr skipped ↦ rw skipped (at_position b buffer 0 _ h l (omega arith))
      ]

  collect-IsSound :
      (b : Balancer F) (iq : List (Complex Float))
      → IsSound F b
      → Ensures (IsSound F) (collect F b iq)
  unfolding collect
  collect-IsSound b iq h =
      let room = working_buffer_length - b.working_buffer_pos in
      let part = if leb (length iq) room then iq else take room iq in
      let fits : length part ≤ room = ground (arith, length-take room iq) in
      let before = h.position_lt in
      let full = h.working_length in
      >>=-Ensures (λ l. length l ≡ length b.working_buffer) (IsSound F)
        (overwrite b.working_buffer b.working_buffer_pos part) _
        (length-overwrite b.working_buffer part b.working_buffer_pos (omega arith))
        (λ buffer l.
          let position = b.working_buffer_pos + length part in
          elim (Bool-cases (leb working_buffer_length position)) [
            | inl past ↦ rw past (full_buffer-IsSound b buffer position h (l ∙ h.working_length))
            | inr inside ↦
                let lt : position < working_buffer_length = ground arith in
                rw inside
                  (at_position b buffer position b.skipped_buffers h (l ∙ h.working_length) lt)
          ])

  averages_moved :
      (b : Balancer F) (i q : Float) → IsSound F b → IsSound F (record b { iavg = i; qavg = q })
  averages_moved b i q h = ground arith

  last_moved :
      (b : Balancer F) (p a : Float)
      → IsSound F b
      → IsSound F (record b { last_phase = p; last_amplitude = a })
  last_moved b p a h = ground arith

  cancel_dc-IsSound :
      (b : Balancer F) (iq : List (Complex Float)) (skip_eval : Bool)
      → IsSound F b
      → IsSound F (cancel_dc F b iq skip_eval).1
  unfolding cancel_dc
  cancel_dc-IsSound b iq true h = h
  cancel_dc-IsSound b iq false h = averages_moved b _ _ h

  adjusted-IsSound :
      (b : Balancer F) (iq : List (Complex Float))
      → IsSound F b
      → IsSound F (adjust_phase_amplitude F b iq).1
  unfolding adjust_phase_amplitude
  adjusted-IsSound b iq h = last_moved b _ _ h

  evaluated :
      (skip_eval : Bool) (b : Balancer F) (samples : List (Complex Float))
      → IsSound F b
      → Ensures (IsSound F) (if skip_eval then some b else collect F b samples)
  evaluated true b samples h = h
  evaluated false b samples h = collect-IsSound b samples h

  -- On a sound balancer, the processing of a block comes to an end with no access outside of an
  -- array, whether it evaluates the block or not; the block keeps its length, and the balancer is
  -- sound again.
  pub process-IsSound :
      (b : Balancer F) (iq : List (Complex Float)) (skip_eval : Bool)
      → IsSound F b
      → Ensures
          (λ (r : List (Complex Float) × Balancer F). (length r.0 ≡ length iq) × IsSound F r.1)
          (process F b iq skip_eval)
  unfolding process
  process-IsSound b iq skip_eval h =
      let samples = (cancel_dc F b iq skip_eval).0 in
      let c = (cancel_dc F b iq skip_eval).1 in
      let sound = cancel_dc-IsSound b iq skip_eval h in
      >>=-Ensures (IsSound F)
        (λ (r : List (Complex Float) × Balancer F). (length r.0 ≡ length iq) × IsSound F r.1)
        (if skip_eval then some c else collect F c samples) _ (evaluated skip_eval c samples sound)
        (λ d k. (
          length-adjust_phase_amplitude F d samples ∙ length-cancel_dc F b iq skip_eval,
          adjusted-IsSound d samples k,
        ))
