-- ===== src/Balancer/Process.antt =====
-- libairspyhf/src/iqbalancer.c: `iq_balancer_process`.
use airspyhf.Prelude.{
  ℕ, ◌+◌, ◌-◌, Bool, Option, none, some, List, ◌++◌, ltb, leb, length, take, drop, if◌then◌else◌,
}
use airspyhf.Prelude.Int.{pos, ◌+ℤ◌, ltb_ℤ}
use airspyhf.Prelude.Checked.{◌>>=◌}
use airspyhf.Floats.{Floats}
use airspyhf.Balancer.{Complex, Balancer, working_buffer_length}
use airspyhf.Balancer.Correction.{cancel_dc, adjust_phase_amplitude}
use airspyhf.Balancer.Estimate.{estimate_imbalance}

-- memcpy(buffer + at, part, length of part)
unfoldable pub overwrite : {A : Type 0} → List A → (at : ℕ) → List A → Option (List A)
overwrite buffer at part =
    let past = at + length part in
    if ltb (length buffer) past then none else some (take at buffer ++ (part ++ drop past buffer))

module _ (F : Floats) where
  -- The working buffer is full: every so often, what is in it goes into the estimate.
  unfoldable pub full_buffer : Balancer F → Option (Balancer F)
  full_buffer b =
      let skipped = b.skipped_buffers +ℤ pos 1 in
      if ltb_ℤ b.buffers_to_skip skipped
      then estimate_imbalance F (record b { working_buffer_pos = 0; skipped_buffers = pos 0 })
          b.working_buffer working_buffer_length
      else some (record b { working_buffer_pos = 0; skipped_buffers = skipped })

  -- Samples go into the working buffer while there is room; those that find none are not kept.
  unfoldable pub collect : Balancer F → List (Complex F.Float) → Option (Balancer F)
  collect b iq = do
    let room = working_buffer_length - b.working_buffer_pos
    let part = if leb (length iq) room then iq else take room iq
    buffer ← overwrite b.working_buffer b.working_buffer_pos part
    let c = record b {
      working_buffer = buffer;
      working_buffer_pos = b.working_buffer_pos + length part;
    }
    if leb working_buffer_length c.working_buffer_pos then full_buffer c else some c

  -- `iq_balancer_process`
  unfoldable pub process :
      Balancer F
      → List (Complex F.Float)
      → (skip_eval : Bool) → Option (List (Complex F.Float) × Balancer F)
  process b iq skip_eval = do
    let (samples, c) = cancel_dc F b iq skip_eval
    d ← if skip_eval then some c else collect c samples
    some (adjust_phase_amplitude F d samples)
