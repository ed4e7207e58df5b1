-- ===== src/Discovery/Match.antt =====
-- Which device `airspyhf_open_device` of libairspyhf/src/airspyhf.c opens.
use airspyhf.Prelude.{
  ℕ, zero, suc, ◌<◌, ◌≡◌, refl, sym, ◌∙◌, ◌⊎◌, inl, inr, true, false, some, List, [], ◌∷◌, arith,
  get_elem?, Bool-cases,
}
use airspyhf.Prelude.Int.{ℤ, pos, negsuc}
use airspyhf.Prelude.Outcome.{Status, success}
use airspyhf.Discovery.{
  Listed, get_device_list, free_device_list, open_handle, get_string, set_configuration,
  claim_interface, set_alt_setting, Trace, Bus, is_zero, call, settle, check_serial, try_device,
  find_device, open_device, has_serial,
}
use airspyhf.Discovery.Serial.{serial_of}

module _ (B : Bus) where
  open B use {answer, devices, text}

  -- the device has the ids, and where a serial number is asked for, it has answered with that one
  abbrev pub IsMatch : (vid pid wanted : ℕ) → Listed → Type 0
  IsMatch vid pid wanted dev =
      (dev.id_vendor ≡ vid)
      × (dev.id_product ≡ pid)
      × ((wanted ≡ 0)
          ⊎ (u : Trace) × (has_serial wanted (
                serial_of (answer u (get_string dev.address dev.serial_index)) (text u dev.address))
              ≡ true))

  -- the last three calls have made the handle ready
  abbrev pub IsReady : ℕ → Trace → Type 0
  IsReady a t =
      (u : Trace) × (t
        ≡ (set_alt_setting a, pos 0)
          ∷ (claim_interface a, pos 0)
          ∷ (set_configuration a, pos 0)
          ∷ u)

  is_zero_eq : (r : ℤ) → is_zero r ≡ true → r ≡ pos 0
  is_zero_eq (pos zero) h = refl
  is_zero_eq (pos (suc n)) h = cc
  is_zero_eq (negsuc n) h = cc

  settle_log :
      (a : ℕ) (t : Trace)
      → (settle B a t).0 ≡ true
      → (settle B a t).1
        ≡ (set_alt_setting a, pos 0) ∷ (claim_interface a, pos 0) ∷ (set_configuration a, pos 0) ∷ t
  unfolding settle
  settle_log a t h =
      let t₁ = call B (set_configuration a) t in
      let t₂ = call B (claim_interface a) t₁ in
      ground (
        arith,
        is_zero_eq (answer t (set_configuration a)),
        is_zero_eq (answer t₁ (claim_interface a)),
        is_zero_eq (answer t₂ (set_alt_setting a)),
      )

  -- a round that ends the loop, with no serial number asked for
  try_device_any :
      (vid pid wanted : ℕ) (dev : Listed) (t : Trace)
      → wanted ≡ 0
      → (try_device B vid pid wanted dev t).0 ≡ true
      → IsMatch vid pid wanted dev × IsReady dev.address (try_device B vid pid wanted dev t).1
  unfolding try_device
  try_device_any vid pid wanted dev t none_asked h =
      let t₁ = call B (open_handle dev.address) t in
      (
        (ground arith, ground arith, inl none_asked),
        (t₁, ground (arith, settle_log dev.address t₁)),
      )

  -- a round that ends the loop, with the serial number asked for
  try_device_serial :
      (vid pid wanted : ℕ) (dev : Listed) (t : Trace)
      → 0 < wanted
      → (try_device B vid pid wanted dev t).0 ≡ true
      → IsMatch vid pid wanted dev × IsReady dev.address (try_device B vid pid wanted dev t).1
  unfolding try_device check_serial
  try_device_serial vid pid wanted dev t asked h =
      let a = dev.address in
      let t₁ = call B (open_handle a) t in
      let t₂ = call B (get_string a dev.serial_index) t₁ in
      ((ground arith, ground arith, inr (t₁, ground arith)), (t₂, ground (arith, settle_log a t₂)))

  try_device_open :
      (vid pid wanted : ℕ) (dev : Listed) (t : Trace)
      → (try_device B vid pid wanted dev t).0 ≡ true
      → IsMatch vid pid wanted dev × IsReady dev.address (try_device B vid pid wanted dev t).1
  try_device_open vid pid zero dev t h = try_device_any vid pid zero dev t refl h
  try_device_open vid pid (suc n) dev t h = try_device_serial vid pid (suc n) dev t (omega arith) h

  -- a device of the list with the ids and the serial number, whose handle is ready
  abbrev pub FoundIn : (vid pid wanted : ℕ) → List Listed → ℕ → Trace → Type 0
  FoundIn vid pid wanted devs a t =
      (dev : Listed) × ((i : ℕ) × (get_elem? devs i ≡ some dev))
      × (dev.address ≡ a)
      × IsMatch vid pid wanted dev
      × IsReady a t

  find_device_kept :
      (vid pid wanted : ℕ) (dev : Listed) (devs : List Listed) (t : Trace)
      → (try_device B vid pid wanted dev t).0 ≡ true
      → find_device B vid pid wanted (dev ∷ devs) t
        ≡ (some dev.address, (try_device B vid pid wanted dev t).1)
  unfolding find_device
  find_device_kept vid pid wanted dev devs t kept = rw kept

  find_device_refused :
      (vid pid wanted : ℕ) (dev : Listed) (devs : List Listed) (t : Trace)
      → (try_device B vid pid wanted dev t).0 ≡ false
      → find_device B vid pid wanted (dev ∷ devs) t
        ≡ find_device B vid pid wanted devs (try_device B vid pid wanted dev t).1
  unfolding find_device
  find_device_refused vid pid wanted dev devs t refused = rw refused

  find_device-FoundIn :
      (vid pid wanted : ℕ) (devs : List Listed) (t : Trace) {a : ℕ} {u : Trace}
      → find_device B vid pid wanted devs t ≡ (some a, u)
      → FoundIn vid pid wanted devs a u
  unfolding find_device
  find_device-FoundIn vid pid wanted [] t h = cc
  find_device-FoundIn vid pid wanted (dev ∷ devs) t {a} {u} h =
      let tried = try_device B vid pid wanted dev t in
      elim (Bool-cases tried.0) [
        | inl kept ↦
            let e = find_device_kept vid pid wanted dev devs t kept in
            let same : dev.address ≡ a = cc in
            let last : tried.1 ≡ u = cc in
            let (matching, (v, ready)) = try_device_open vid pid wanted dev t kept in
            (dev, (0, refl), same, matching, (v, cc))
        | inr refused ↦
            let e = find_device_refused vid pid wanted dev devs t refused in
            let (found_dev, (i, there), same, matching, ready) =
              find_device-FoundIn vid pid wanted devs tried.1 (sym e ∙ h) in
            (found_dev, (suc i, there), same, matching, ready)
      ]

  -- If the search returns a handle, then that of a device in libusb's list that has the ids and,
  -- where one is asked for, the serial number; the last calls before the list was freed were a
  -- configuration, a claim of the interface and its setting, and they succeeded.
  pub open_device-FoundIn :
      (vid pid wanted : ℕ) (t : Trace) {a : ℕ} {s : Status} {u : Trace}
      → open_device B vid pid wanted t ≡ (s, some a, u)
      → (s ≡ success)
        × (v : Trace) × (u ≡ call B free_device_list v)
        × FoundIn vid pid wanted (devices t) a v
  unfolding open_device
  open_device-FoundIn vid pid wanted t {a} {s} {u} h =
      let t₁ = call B get_device_list t in
      let found = find_device B vid pid wanted (devices t) t₁ in
      let first : found.0 ≡ some a = ground arith in
      let e : found ≡ (some a, found.1) = cc in
      (ground arith, found.1, ground arith, find_device-FoundIn vid pid wanted (devices t) t₁ e)
