-- ===== src/Driver/Samplerate/Laws.antt =====
-- Which sample rate is chosen, and what a change of it does to the device.
use airspyhf.Prelude.{ℕ, ◌≤◌, ◌<◌, ◌≡◌, Bool, List, arith, lt→ltb, le→leb, ◌==◌, get_or}
use airspyhf.Prelude.Outcome.{Outcome, ok, fail, fault, error, and_then-eq-ok, ignored}
use airspyhf.Prelude.Search.{NonePasses, First, first_index-First, First-miss}
use airspyhf.Usb.{Host}
use airspyhf.Driver.{Device, World}
use airspyhf.Driver.Frequency.{lo_low_khz, min_zero_if_lo, set_freq_double}
use airspyhf.Driver.Frequency.Frame.{IsRetuned, set_freq_double-IsRetuned, set_freq_double-floor}
use airspyhf.Driver.Samplerate.{
  max_samplerate_index, samplerate_index, enter_samplerate, send_samplerate, restore_freq,
  set_samplerate,
}

-- entry `i` of the table is that rate
abbrev pub has_rate : List ℕ → ℕ → ℕ → Bool
has_rate rates rate i = rate == get_or rates i 0

-- A number above 100 is looked up as a rate in Hz: the first entry that has it is chosen, and where
-- none has it the number itself stands for an index. A number up to 100 is the index.
pub samplerate_index-First :
    (rates : List ℕ) (count samplerate : ℕ)
    → (max_samplerate_index < samplerate
        → First
            (has_rate rates samplerate)
            samplerate
            0
            count
            (samplerate_index rates count samplerate))
      × (samplerate ≤ max_samplerate_index → samplerate_index rates count samplerate ≡ samplerate)
unfolding samplerate_index
samplerate_index-First rates count samplerate = (
  λ h.
      rw (lt→ltb _ _ h)
        (first_index-First (has_rate rates samplerate) samplerate 0 count count (omega arith)),
  λ h. ground arith,
)

module _ (H : Host) where
  -- the rate in use is entry `i` of the table
  pub record Uses (d : Device H.floats) (i : ℕ) : Type 0 where
    pub in_table : i < d.supported_samplerate_count
    pub rate : d.current_samplerate ≡ get_or d.supported_samplerates i 0
    pub architecture : d.is_low_if ≡ get_or d.samplerate_architectures i 0

  abbrev pub index_of : Device H.floats → ℕ → ℕ
  index_of d samplerate =
      samplerate_index d.supported_samplerates d.supported_samplerate_count samplerate

  -- in Zero IF the recorded frequency of the oscillator is not below its floor
  abbrev pub AboveFloor : Device H.floats → Type 0
  AboveFloor d = d.is_low_if ≡ 0 → min_zero_if_lo ≤ d.freq_khz

  abbrev pub SameTables : Device H.floats → Device H.floats → Type 0
  SameTables d e =
      (e.supported_samplerate_count ≡ d.supported_samplerate_count)
      × (e.supported_samplerates ≡ d.supported_samplerates)
      × (e.samplerate_architectures ≡ d.samplerate_architectures)

  enter_samplerate-Uses :
      (i : ℕ) (w v : World H)
      → enter_samplerate H i w ≡ (ok tt, v)
      → Uses v.device i × AboveFloor v.device × SameTables w.device v.device
  unfolding enter_samplerate
  enter_samplerate-Uses i w v e = ground arith

  send_samplerate-same :
      (i : ℕ) (w v : World H)
      → send_samplerate H i w ≡ (ok tt, v)
      → v.device ≡ record w.device { filter_gain = v.device.filter_gain }
  unfolding send_samplerate
  send_samplerate-same i w v e = ground arith

  ignored-state :
      (r : Outcome (Unit {0}) × World H) (v : World H) → ignored r ≡ (ok tt, v) → r.1 ≡ v
  ignored-state (ok _, w) v e = ground arith
  ignored-state (fail s, w) v e = ground arith
  ignored-state (fault, w) v e = cc

  -- What a device keeps when it is tuned again.
  IsRetuned-Uses :
      (i : ℕ) (d e : Device H.floats)
      → IsRetuned H d e
      → (lo_low_khz H d ≤ d.freq_khz → lo_low_khz H d ≤ e.freq_khz)
      → Uses d i × AboveFloor d
      → Uses e i × AboveFloor e × SameTables d e
  unfolding lo_low_khz
  IsRetuned-Uses i d e r floor (u, above) = (
    ground (arith, r.same),
    λ zero_if. ground (arith, r.same, above, floor),
    (ground (arith, r.same), ground (arith, r.same), ground (arith, r.same)),
  )

  restore_freq-Uses :
      (i : ℕ) (w v : World H)
      → restore_freq H w ≡ (ok tt, v)
      → Uses w.device i × AboveFloor w.device
      → Uses v.device i × AboveFloor v.device × SameTables w.device v.device
  unfolding restore_freq
  restore_freq-Uses i w v e h =
      let same = ignored-state (set_freq_double H w.device.freq_hz w) v e in
      IsRetuned-Uses i w.device v.device
        (rw same at (set_freq_double-IsRetuned H w.device.freq_hz w))
        (rw same at (set_freq_double-floor H w.device.freq_hz w)) h

  -- When a change of the sample rate succeeds, the rate and the architecture are one entry of the
  -- device's tables, the entry that the number given stands for; the tables are as before; and in
  -- Zero IF the frequency that is recorded for the oscillator is not below 180 kHz.
  pub set_samplerate-Uses :
      (samplerate : ℕ) (w v : World H)
      → set_samplerate H samplerate w ≡ (ok tt, v)
      → Uses v.device (index_of w.device samplerate)
        × AboveFloor v.device
        × SameTables w.device v.device
  unfolding set_samplerate
  set_samplerate-Uses samplerate w v e =
      let i = index_of w.device samplerate in
      let (_, w₁, e₁, k₁) = and_then-eq-ok (enter_samplerate H i w) _ e in
      let (_, w₂, e₂, k₂) = and_then-eq-ok (send_samplerate H i w₁) _ k₁ in
      let (u, above, tables) = enter_samplerate-Uses i w w₁ e₁ in
      let sent = send_samplerate-same i w₁ w₂ e₂ in
      let (u', above', tables') =
        restore_freq-Uses i w₂ v k₂
          (ground (arith, sent, u), λ zero_if. ground (arith, sent, above)) in
      (u', above', (ground (arith, sent), ground (arith, sent), ground (arith, sent)))

  -- A rate that the device does not have is refused: the device gets no request, and nothing changes.
  pub set_samplerate_unknown :
      (samplerate : ℕ) (w : World H)
      → max_samplerate_index < samplerate
      → w.device.supported_samplerate_count ≤ samplerate
      → NonePasses
          (has_rate w.device.supported_samplerates samplerate)
          0
          w.device.supported_samplerate_count
      → set_samplerate H samplerate w ≡ (fail error, w)
  unfolding set_samplerate enter_samplerate
  set_samplerate_unknown samplerate w big few absent =
      let refused =
        First-miss (has_rate w.device.supported_samplerates samplerate) samplerate 0 _ _ absent (
          (samplerate_index-First w.device.supported_samplerates w.device.supported_samplerate_count
              samplerate).0
            big) in
      rw (refused, le→leb _ _ few)
