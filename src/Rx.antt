-- ===== src/Rx.antt =====
-- The receiver tool tools/src/airspyhf_rx.c: its globals, and the callback that writes the samples to a
-- file. A file is the bytes in it; how many bytes `fwrite` takes is an argument. A read past the end
-- of the samples is `none`.
pub mod Limit
pub mod Digits
pub mod Numbers
pub mod Options
pub mod Setup
pub mod Waiting
pub mod Wav
mod Tests
use airspyhf.Prelude.{
  ℕ, zero, suc, ◌+◌, ◌-◌, ◌*◌, ◌%◌, ◌^◌, Bool, true, false, not, ◌&&◌, Option, none, some, List, [],
  ◌∷◌, ◌++◌, ltb, leb, ◌==◌, length, take, if◌then◌else◌,
}
use airspyhf.Prelude.Int.{ℤ, pos, negsuc, ◌-ℤ◌}
use airspyhf.Prelude.Checked.{◌>>=◌}
use airspyhf.Floats.{Floats}

-- `struct timeval`
pub record Timeval : Type 0 where
  pub tv_sec : ℤ
  pub tv_usec : ℤ

-- `airspyhf_transfer_t`: where the samples are not null, their bytes
pub record Transfer : Type 0 where
  pub samples : Option (List ℕ)
  pub sample_count : ℕ

-- The globals that the callback and `main` share. `fd` is none where it is null.
pub record Globals (F : Floats) : Type 0 where
  pub fd : Option (List ℕ)
  pub limit_num_samples : Bool
  pub bytes_to_xfer : ℕ
  pub got_first_packet : Bool
  pub time_start : Timeval
  pub t_start : Timeval
  pub average_rate : F.Float
  pub global_average_rate : F.Float
  pub rate_samples : ℕ
  pub buffer_count : ℕ
  pub sample_count : ℕ

module _ (F : Floats) where
  open F use {Float, addf, subf, mulf, divf, of_intf, litf}

  -- `TimevalDiff`
  unfoldable pub timeval_diff : Timeval → Timeval → Float
  timeval_diff a b =
      addf (of_intf (a.tv_sec -ℤ b.tv_sec))
        (mulf (litf (pos 1) (negsuc 5)) (of_intf (a.tv_usec -ℤ b.tv_usec)))

  -- the fiftieth buffer: the rate is computed, and the counting starts again
  unfoldable pub update_rate : Timeval → Globals F → Globals F
  update_rate now g =
      let rate = divf (of_intf (pos g.sample_count)) (timeval_diff now g.time_start) in
      let average =
        addf g.average_rate (mulf (litf (pos 2) (negsuc 0)) (subf rate g.average_rate)) in
      record g {
        average_rate = average;
        global_average_rate = addf g.global_average_rate average;
        rate_samples = (g.rate_samples + 1) % 2 ^ 32;
        time_start = now;
        sample_count = 0;
        buffer_count = 0;
      }

  -- the part of the callback that measures the rate
  unfoldable pub measure : Timeval → (sample_count : ℕ) → Globals F → Globals F
  measure now sample_count g =
      let counted = record g {
        buffer_count = (g.buffer_count + 1) % 2 ^ 32;
        sample_count = (g.sample_count + sample_count) % 2 ^ 32;
      } in
      if not g.got_first_packet
      then record g { t_start = now; time_start = now; got_first_packet = true }
      else if counted.buffer_count == 50
      then update_rate now counted
      else counted

  -- How many bytes are to be written, and what is left of `bytes_to_xfer`.
  unfoldable pub limit_bytes : ℕ → Globals F → ℕ × Globals F
  limit_bytes bytes_to_write g =
      let allowed =
        if leb g.bytes_to_xfer bytes_to_write then g.bytes_to_xfer % 2 ^ 32 else bytes_to_write in
      if g.limit_num_samples
      then (allowed, record g { bytes_to_xfer = g.bytes_to_xfer - allowed })
      else (bytes_to_write, g)

  -- What a callback's answer leads to: the next one where it is 0, and else the end.
  unfoldable pub after : ℤ → (rest : Option (Globals F)) → Globals F → Option (Globals F)
  after (pos zero) rest g = rest
  after (pos (suc n)) rest g = some g
  after (negsuc n) rest g = some g

  module _ (fwrite : List ℕ → List ℕ → ℕ) where
    -- `fwrite`, where there is a buffer: how many bytes were written
    unfoldable pub write_samples : List ℕ → Option (List ℕ) → ℕ → Globals F → Option (ℕ × Globals F)
    write_samples file none bytes_to_write g = some (0, g)
    write_samples file (some samples) bytes_to_write g =
        let bytes = take bytes_to_write samples in
        let bytes_written = fwrite file bytes in
        if ltb (length samples) bytes_to_write
        then none
        else some (bytes_written, record g { fd = some (file ++ take bytes_written bytes) })

    -- the callback, where `fd` is not null
    unfoldable pub write_transfer : Timeval → Transfer → List ℕ → Globals F → Option (ℤ × Globals F)
    write_transfer now t file g = do
      let (bytes_to_write, limited) =
          limit_bytes (t.sample_count * 4 * 2 % 2 ^ 32) (measure now t.sample_count g)
      (bytes_written, saved) ← write_samples file t.samples bytes_to_write limited
      let spent = saved.limit_num_samples && saved.bytes_to_xfer == 0
      some (if bytes_written == bytes_to_write && not spent then pos 0 else negsuc 0, saved)

    -- what the callback does with `fd`
    unfoldable pub write_opened :
        Timeval → Transfer → Option (List ℕ) → Globals F → Option (ℤ × Globals F)
    write_opened now t none g = some (negsuc 0, g)
    write_opened now t (some file) g = write_transfer now t file g

    -- `rx_callback`
    unfoldable pub rx_callback : Timeval → Transfer → Globals F → Option (ℤ × Globals F)
    rx_callback now t g = write_opened now t g.fd g

    -- The calls of the consumer thread, which ends when one of them is not answered by 0.
    unfoldable pub receive_all : List (Timeval × Transfer) → Globals F → Option (Globals F)
    receive_all [] g = some g
    receive_all ((now, t) ∷ blocks) g = rx_callback now t g >>= λ (r : ℤ × Globals F).
        let rest = receive_all blocks r.1 in after r.0 rest r.1
