-- ===== src/Discovery/First.antt =====
-- What `airspyhf_open_device` and `airspyhf_list_devices` of libairspyhf/src/airspyhf.c find on a bus
-- where no call fails.
use airspyhf.Prelude.{
  ℕ, ◌+◌, ◌≡◌, refl, Bool, true, ◌&&◌, ◌||◌, Option, none, some, List, [], ◌∷◌, ◌++◌, arith, ltb,
  ◌==◌, if◌then◌else◌, length,
}
use airspyhf.Prelude.Int.{pos}
use airspyhf.Discovery.{
  Listed, init_context, get_device_list, open_handle, get_string, set_configuration,
  claim_interface, set_alt_setting, Trace, Bus, call, settle, check_serial, try_device, find_device,
  open_device, list_device, list_from, list_devices, has_room, listed_serial, has_serial,
  serial_number_unused, usb_vid, usb_pid,
}
use airspyhf.Discovery.Serial.{serial_of}

-- Each call that can fail returns 0, and a device answers with the same serial number every time.
pub record IsWorking (B : Bus) : Type 0 where
  pub text_of : ℕ → ℕ → Option (ℕ × Bool)
  pub opens : (t : Trace) (a : ℕ) → B.answer t (open_handle a) ≡ pos 0
  pub configures : (t : Trace) (a : ℕ) → B.answer t (set_configuration a) ≡ pos 0
  pub claims : (t : Trace) (a : ℕ) → B.answer t (claim_interface a) ≡ pos 0
  pub sets : (t : Trace) (a : ℕ) → B.answer t (set_alt_setting a) ≡ pos 0
  pub answers :
      (t : Trace) (a i : ℕ) → serial_of (B.answer t (get_string a i)) (B.text t a) ≡ text_of a i

-- the test that a device passes, in one line
unfoldable pub wants : (vid pid wanted : ℕ) → (ℕ → ℕ → Option (ℕ × Bool)) → Listed → Bool
wants vid pid wanted text_of dev =
    dev.id_vendor == vid
    && dev.id_product == pid
    && (wanted == serial_number_unused
        || ltb 0 dev.serial_index && has_serial wanted (text_of dev.address dev.serial_index))

-- the first device that passes
unfoldable pub first_wanted : (Listed → Bool) → List Listed → Option ℕ
first_wanted test [] = none
first_wanted test (dev ∷ devs) =
    let rest = first_wanted test devs in if test dev then some dev.address else rest

module _ (B : Bus) (W : IsWorking B) where
  open B use {answer, devices, text}
  open W use {text_of, opens, configures, claims, sets, answers}

  settle_kept : (a : ℕ) (t : Trace) → (settle B a t).0 ≡ true
  unfolding settle
  settle_kept a t =
      let t₁ = call B (set_configuration a) t in
      let t₂ = call B (claim_interface a) t₁ in
      ground (arith, configures t a, claims t₁ a, sets t₂ a)

  try_device-wants :
      (vid pid wanted : ℕ) (dev : Listed) (t : Trace)
      → (try_device B vid pid wanted dev t).0 ≡ wants vid pid wanted text_of dev
  unfolding try_device check_serial wants
  try_device-wants vid pid wanted dev t =
      let a = dev.address in
      let t₁ = call B (open_handle a) t in
      let t₂ = call B (get_string a dev.serial_index) t₁ in
      ground (arith, opens t a, answers t₁ a dev.serial_index, settle_kept a t₁, settle_kept a t₂)

  find_device_first :
      (vid pid wanted : ℕ) (devs : List Listed) (t : Trace)
      → (find_device B vid pid wanted devs t).0 ≡ first_wanted (wants vid pid wanted text_of) devs
  unfolding find_device first_wanted
  find_device_first vid pid wanted [] t = refl
  find_device_first vid pid wanted (dev ∷ devs) t = ground (
    arith,
    try_device-wants vid pid wanted dev t,
    find_device_first vid pid wanted devs (try_device B vid pid wanted dev t).1,
  )

  -- On a bus where no call fails, the search opens the first device that has the ids and the serial
  -- number that is asked for, if one is, and none where there is no such device.
  pub open_device_first :
      (vid pid wanted n : ℕ) (t : Trace)
      → answer t get_device_list ≡ pos n
      → (open_device B vid pid wanted t).1 ≡ first_wanted (wants vid pid wanted text_of) (devices t)
  unfolding open_device
  open_device_first vid pid wanted n t lists =
      ground (arith, find_device_first vid pid wanted (devices t) (call B get_device_list t))

-- the serial numbers of the devices of the right kind, in the order of the list
unfoldable pub serials_of : (ℕ → ℕ → Option (ℕ × Bool)) → List Listed → List ℕ
serials_of text_of [] = []
serials_of text_of (dev ∷ devs) =
    let rest = serials_of text_of devs in
    if dev.id_vendor == usb_vid && dev.id_product == usb_pid && ltb 0 dev.serial_index
    then listed_serial (text_of dev.address dev.serial_index) ++ rest
    else rest

module _ (B : Bus) (W : IsWorking B) where
  open B use {answer, devices, text}
  open W use {text_of, opens, answers}

  list_from_serials :
      (n : ℕ) (devs : List Listed) (t : Trace)
      → (list_from B none n devs t).0 ≡ serials_of text_of devs
  unfolding list_from list_device serials_of has_room
  list_from_serials n [] t = refl
  list_from_serials n (dev ∷ devs) t =
      let a = dev.address in
      let t₁ = call B (open_handle a) t in
      ground (
        arith,
        opens t a,
        answers t₁ a dev.serial_index,
        list_from_serials (length (list_device B dev t).0 + n) devs (list_device B dev t).1,
      )

  -- On a bus where no call fails, a listing without an array counts all serial numbers there are.
  pub list_devices_serials :
      (n : ℕ) (t : Trace)
      → answer t init_context ≡ pos 0
      → answer (call B init_context t) get_device_list ≡ pos n
      → (list_devices B none t).0 ≡ some (serials_of text_of (devices (call B init_context t)))
  unfolding list_devices
  list_devices_serials n t makes lists =
      let t₁ = call B init_context t in
      ground (arith, list_from_serials 0 (devices t₁) (call B get_device_list t₁))
