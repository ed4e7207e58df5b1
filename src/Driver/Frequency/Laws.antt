-- ===== src/Driver/Frequency/Laws.antt =====
-- What tuning promises: libairspyhf/src/airspyhf.c, `airspyhf_set_freq_double`.
use airspyhf.Prelude.{
  ℕ, ◌-◌, ◌^◌, ◌≤◌, ◌<◌, ◌≡◌, ◌≢◌, refl, ◌∙◌, inl, inr, true, false, [], ◌∷◌, arith, ltb, ◌==◌,
  get_or, Bool-cases,
}
use airspyhf.Prelude.Int.{ℤ, pos, negsuc, ◌-ℤ◌}
use airspyhf.Prelude.Words.{be_bytes, be_word, be_word-bytes, byte_at, to_size}
use airspyhf.Prelude.Outcome.{Outcome, ok, fail, fault, error, and_then, and_then-eq-ok}
use airspyhf.Usb.{VendorRequest, Host, Call, control_out}
use airspyhf.Driver.{Device, World, update}
use airspyhf.Driver.Frequency.{
  delta_mantissa, delta_hz, lo_low_khz, adjusted_freq_hz, target_khz, read_delta, retune,
  set_freq_double, min_low_if_lo,
}

module _ (H : Host) where
  open H use {Double, add, sub, mul, lit, of_int}

  abbrev pub set_freq_call : ℕ → Call
  set_freq_call khz = control_out VendorRequest.set_freq 0 0 (be_bytes khz)

  -- what the tuner answers to a frequency
  abbrev pub tuner_result : World H → ℕ → ℤ
  tuner_result w khz = (H.respond w.log (set_freq_call khz)).result

  -- a record of a tuned device: the oscillator, the frequency asked for, and the shift that is left to the DSP
  pub record IsTuned (d e : Device H.floats) (hz : Double) : Type 0 where
    pub oscillator : e.freq_khz ≡ target_khz H d hz
    pub floor : min_low_if_lo ≤ e.freq_khz
    pub asked : e.freq_hz ≡ hz
    pub shift :
        e.freq_shift
        ≡ add
            (sub (adjusted_freq_hz H d hz) (mul (of_int (pos e.freq_khz)) (lit (pos 1) (pos 3))))
            e.freq_delta_hz

  pub read_delta-freq_khz :
      (w v : World H) → read_delta H w ≡ (ok tt, v) → v.device.freq_khz ≡ w.device.freq_khz
  unfolding read_delta
  read_delta-freq_khz w v e = ground arith

  pub retune-freq_khz :
      (khz : ℕ) (w v : World H) → retune H khz w ≡ (ok tt, v) → v.device.freq_khz ≡ khz
  unfolding retune
  retune-freq_khz khz w v e = ground arith

  pub lo_low_khz-le-target :
      (d : Device H.floats) (hz : Double) → lo_low_khz H d ≤ target_khz H d hz
  unfolding target_khz
  lo_low_khz-le-target d hz = ground arith

  target-ge-floor : (d : Device H.floats) (hz : Double) → min_low_if_lo ≤ target_khz H d hz
  unfolding target_khz lo_low_khz
  target-ge-floor d hz = ground arith

  -- When tuning returns AIRSPYHF_SUCCESS, the device record has the frequency that was computed as that of
  -- the oscillator, not below 84 kHz, and the frequency asked for; its shift is what is left over plus the
  -- recorded offset. Whether the tuner has taken the frequency is not stated.
  pub set_freq_double-IsTuned :
      (hz : Double) (w v : World H)
      → set_freq_double H hz w ≡ (ok tt, v)
      → IsTuned w.device v.device hz
  unfolding set_freq_double
  set_freq_double-IsTuned hz w v e =
      elim (Bool-cases (w.device.freq_khz == target_khz H w.device hz)) [
        | inl same ↦ let e' = rw same at e in ground (arith, target-ge-floor w.device hz)
        | inr other ↦
            let (_, u, r, k) =
              and_then-eq-ok (retune H (target_khz H w.device hz) w) _ (rw other at e) in
            ground (arith, target-ge-floor w.device hz, retune-freq_khz _ w u r)
      ]

  -- Where the oscillator stands right already, tuning asks the device for nothing and cannot fail; it
  -- changes the frequency asked for and the shift, and no other field.
  pub set_freq_double_idle :
      (hz : Double) (w : World H)
      → w.device.freq_khz ≡ target_khz H w.device hz
      → set_freq_double H hz w ≡ (
        ok tt,
        record w {
          device = record w.device {
            freq_hz = hz;
            freq_shift =
                add
                  (sub
                    (adjusted_freq_hz H w.device hz)
                    (mul (of_int (pos (target_khz H w.device hz))) (lit (pos 1) (pos 3))))
                  w.device.freq_delta_hz;
          };
        },
      )
  unfolding set_freq_double
  set_freq_double_idle hz w e = ground arith

  retune_short :
      (khz : ℕ) (w : World H)
      → ltb (to_size (tuner_result w khz)) 4 ≡ true
      → retune H khz w ≡ (fail error, record w { log = set_freq_call khz ∷ w.log })
  unfolding retune
  retune_short khz w h = ground arith

  -- When the device takes fewer than the four bytes of a new frequency, tuning reports
  -- AIRSPYHF_ERROR, and the device record is as before.
  pub set_freq_double_short :
      (hz : Double) (w : World H) (n : ℕ)
      → w.device.freq_khz ≢ target_khz H w.device hz
      → tuner_result w (target_khz H w.device hz) ≡ pos n
      → n < 4
      → set_freq_double H hz w
        ≡ (fail error, record w { log = set_freq_call (target_khz H w.device hz) ∷ w.log })
  unfolding set_freq_double
  set_freq_double_short hz w n other e h =
      ground (arith, retune_short (target_khz H w.device hz) w (rw e (ground arith)))

  pub read_delta-no_error :
      (w : World H)
      → ((read_delta H w).0 ≢ fail error) × ((read_delta H w).1.device.freq_khz ≡ w.device.freq_khz)
  unfolding read_delta delta_hz
  read_delta-no_error w = ground arith

  -- A run that has no error yet goes on to an update that leaves the oscillator alone.
  abbrev NoError : ℕ → Outcome (Unit {0}) × World H → Type 0
  NoError khz r = (r.0 ≢ fail error) × (r.1.device.freq_khz ≡ khz)

  update-NoError :
      (khz : ℕ) (r : Outcome (Unit {0}) × World H) (f : Device H.floats → Device H.floats)
      → ((d : Device H.floats) → (f d).freq_khz ≡ d.freq_khz)
      → NoError khz r
      → NoError khz (and_then r (λ _. update f))
  update-NoError khz (ok _, w) f keep (a, b) = ((λ h. cc), keep w.device ∙ b)
  update-NoError khz (fail s, w) f keep n = n
  update-NoError khz (fault, w) f keep n = n

  retune_unreported :
      (khz n : ℕ) (w : World H)
      → tuner_result w khz ≡ negsuc n
      → n < 2 ^ 31
      → NoError khz (retune H khz w)
  unfolding retune
  retune_unreported khz n w e h =
      let long : ltb (to_size (tuner_result w khz)) 4 ≡ false = rw e (ground arith) in
      rw long (update-NoError khz _ _ (λ d. refl) (read_delta-no_error _))

  -- When libusb reports that a new frequency could not be sent at all, by a negative number, tuning
  -- does not return AIRSPYHF_ERROR, and the device record says that the oscillator has moved: the
  -- number is compared with the size of the buffer as an unsigned one.
  pub set_freq_double_unreported :
      (hz : Double) (w : World H) (n : ℕ)
      → w.device.freq_khz ≢ target_khz H w.device hz
      → tuner_result w (target_khz H w.device hz) ≡ negsuc n
      → n < 2 ^ 31
      → ((set_freq_double H hz w).0 ≢ fail error)
        × ((set_freq_double H hz w).1.device.freq_khz ≡ target_khz H w.device hz)
  unfolding set_freq_double
  set_freq_double_unreported hz w n other e h =
      let differs : (w.device.freq_khz == target_khz H w.device hz) ≡ false = ground arith in
      rw differs (
        update-NoError (target_khz H w.device hz) _ _ (λ d. refl)
          (retune_unreported (target_khz H w.device hz) n w e h))

-- The four bytes that are sent give the frequency back, most significant byte first.
pub be_bytes-value :
    (khz : ℕ)
    → khz < 2 ^ 32
    → be_word
        (get_or (be_bytes khz) 0 0)
        (get_or (be_bytes khz) 1 0)
        (get_or (be_bytes khz) 2 0)
        (get_or (be_bytes khz) 3 0)
      ≡ khz
unfolding be_bytes
be_bytes-value khz h = be_word-bytes khz h

-- Every signed 24-bit number is read back from the bytes 1, 2 and 3 of a reply, low byte first; a
-- negative one is in two's complement.
pub delta_mantissa-value :
    (n shift : ℕ)
    → n < 8388608
    → (delta_mantissa (shift ∷ byte_at 1 n ∷ byte_at 256 n ∷ byte_at 65536 n ∷ []) ≡ pos n)
      × (delta_mantissa (
            shift
            ∷ byte_at 1 (16777215 - n)
            ∷ byte_at 256 (16777215 - n)
            ∷ byte_at 65536 (16777215 - n)
            ∷ [])
          ≡ negsuc n)
unfolding delta_mantissa ◌-ℤ◌
delta_mantissa-value n shift h = ground arith
