-- ===== src/Driver/Frequency/Frame.antt =====
-- The fields that tuning can change, whatever it returns.
use airspyhf.Prelude.{ℕ, ◌≡◌, ◌≤◌, ◌∷◌, arith, ltb, ◌==◌, Bool-cases, inl, inr}
use airspyhf.Prelude.Words.{to_size}
use airspyhf.Prelude.Outcome.{Outcome, ok, fail, fault, and_then}
use airspyhf.Usb.{Host}
use airspyhf.Driver.{Device, World, update}
use airspyhf.Driver.Frequency.{
  delta_hz, target_khz, lo_low_khz, restart_balancer, read_delta, retune, set_freq_double,
}
use airspyhf.Driver.Frequency.Laws.{
  set_freq_call, tuner_result, read_delta-no_error, lo_low_khz-le-target,
}

module _ (H : Host) where
  -- `e` is `d` but for the fields of tuning.
  pub record IsRetuned (d e : Device H.floats) : Type 0 where
    pub same : e ≡ record d {
      freq_hz = e.freq_hz;
      freq_khz = e.freq_khz;
      freq_delta_hz = e.freq_delta_hz;
      freq_shift = e.freq_shift;
      iq_balancer = e.iq_balancer;
    }

  -- What an update keeps holds at the end of a run that goes on to it, or stops before.
  and_then-keeps :
      (P : Device H.floats → Type 0) (r : Outcome (Unit {0}) × World H)
      (f : Device H.floats → Device H.floats)
      → ((e : Device H.floats) → P e → P (f e))
      → P r.1.device
      → P (and_then r (λ _. update f)).1.device
  and_then-keeps P (ok _, w) f keep h = keep w.device h
  and_then-keeps P (fail s, w) f keep h = h
  and_then-keeps P (fault, w) f keep h = h

  read_delta-IsRetuned :
      (d : Device H.floats) (w : World H)
      → IsRetuned d w.device
      → IsRetuned d (read_delta H w).1.device
  unfolding read_delta delta_hz
  read_delta-IsRetuned d w h = ground arith

  -- the oscillator has taken the frequency
  abbrev moved : ℕ → World H → World H
  moved khz w = record {
    device = record w.device { freq_khz = khz };
    log = set_freq_call H khz ∷ w.log;
  }

  retune-IsRetuned :
      (d : Device H.floats) (khz : ℕ) (w : World H)
      → IsRetuned d w.device
      → IsRetuned d (retune H khz w).1.device
  unfolding retune
  retune-IsRetuned d khz w h = elim (Bool-cases (ltb (to_size (tuner_result H w khz)) 4)) [
    | inl short ↦ rw short h
    | inr long ↦ rw long (
        and_then-keeps (IsRetuned d) (read_delta H (moved khz w)) (restart_balancer H)
          (λ e h. ground arith) (read_delta-IsRetuned d (moved khz w) (ground arith)))
  ]

  -- Tuning changes the five fields of tuning and no other, whether it fails or not.
  pub set_freq_double-IsRetuned :
      (hz : H.Double) (w : World H) → IsRetuned w.device (set_freq_double H hz w).1.device
  unfolding set_freq_double
  set_freq_double-IsRetuned hz w =
      elim (Bool-cases (w.device.freq_khz == target_khz H w.device hz)) [
        | inl same ↦ rw same (ground arith)
        | inr other ↦ rw other (
            and_then-keeps (IsRetuned w.device) (retune H (target_khz H w.device hz) w) _
              (λ e h. ground arith) (retune-IsRetuned w.device _ w (ground arith)))
      ]

  retune-le :
      (n khz : ℕ) (w : World H)
      → n ≤ khz
      → n ≤ w.device.freq_khz
      → n ≤ (retune H khz w).1.device.freq_khz
  unfolding retune
  retune-le n khz w new old = elim (Bool-cases (ltb (to_size (tuner_result H w khz)) 4)) [
    | inl short ↦ rw short old
    | inr long ↦ rw long (
        and_then-keeps (λ d. n ≤ d.freq_khz) (read_delta H (moved khz w)) (restart_balancer H)
          (λ e h. h) (omega (arith, (read_delta-no_error H (moved khz w)).1)))
  ]

  -- An oscillator that is not below the floor stays so, whether tuning fails or not.
  pub set_freq_double-floor :
      (hz : H.Double) (w : World H)
      → lo_low_khz H w.device ≤ w.device.freq_khz
      → lo_low_khz H w.device ≤ (set_freq_double H hz w).1.device.freq_khz
  unfolding set_freq_double
  set_freq_double-floor hz w h = elim (Bool-cases (w.device.freq_khz == target_khz H w.device hz)) [
    | inl same ↦ rw same h
    | inr other ↦ rw other (
        and_then-keeps (λ d. lo_low_khz H w.device ≤ d.freq_khz)
          (retune H (target_khz H w.device hz) w) _ (λ e k. k)
          (retune-le _ (target_khz H w.device hz) w (lo_low_khz-le-target H w.device hz) h))
  ]
