-- ===== src/Rx/Waiting.antt =====
-- The loop in which `main` of tools/src/airspyhf_rx.c waits, and the way to its end. The messages and the
-- file, which is in Rx.Wav, are left out.
use airspyhf.Prelude.{
  ℕ, Bool, false, not, ◌&&◌, ◌||◌, Option, none, some, List, [], ◌∷◌, ◌==◌, if◌then◌else◌,
}
use airspyhf.Prelude.Checked.{◌>>=◌}
use airspyhf.Prelude.Outcome.{Outcome, ok, fail, fault, ignore, ◌>>◌}
use airspyhf.Usb.{Host}
use airspyhf.Driver.{World, Act}
use airspyhf.Driver.Receiver.{stop}
use airspyhf.Rx.Options.{Options}
use airspyhf.Rx.Setup.{FileAnswers, prepare_or_stop}

-- What a round of the loop sees: whether the device streams, whether a signal has set `do_exit`, and
-- `bytes_to_xfer` as the callback has left it.
pub record Round : Type 0 where
  pub streaming : Bool
  pub cancelled : Bool
  pub bytes_to_xfer : ℕ

-- The loop: `do_exit` at its end, or none if it is still waiting.
unfoldable pub wait : (limit_num_samples do_exit : Bool) → List Round → Option Bool
wait limit do_exit [] = none
wait limit do_exit (r ∷ rounds) =
    let rest = wait limit (limit && r.bytes_to_xfer == 0) rounds in
    if not r.streaming || do_exit || r.cancelled then some (do_exit || r.cancelled) else rest

module _ (H : Host) where
  -- airspyhf_stop, and what airspyhf_close does to the threads; a failure of either is only told
  unfoldable pub leave : Act H (Unit {0})
  leave = ignore (stop H) >> ignore (stop H)

  unfoldable pub wait_and_leave :
      Options → List Round → Outcome ℕ × World H → Option (Outcome ℕ × World H)
  wait_and_leave o rounds (ok rate, w) =
      wait o.limit_num_samples false rounds >>= λ do_exit. some (ok rate, (leave w).1)
  wait_and_leave o rounds (fail s, w) = some (fail s, w)
  wait_and_leave o rounds (fault, w) = some (fault, w)

  -- `main` with an open device: none if it is still waiting
  unfoldable pub receive_until :
      Options → FileAnswers → List Round → World H → Option (Outcome ℕ × World H)
  receive_until o file rounds w = wait_and_leave o rounds (prepare_or_stop H o file w)
