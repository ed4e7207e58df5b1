-- ===== src/Discovery.antt =====
-- Finding devices: `airspyhf_open_device`, `airspyhf_open_device_fd`, `airspyhf_list_devices` and
-- `airspyhf_open_exit` of libairspyhf/src/airspyhf.c.
pub mod Serial
pub mod Handles
pub mod Contexts
pub mod Match
pub mod First
pub mod Hex
mod Tests
use airspyhf.Prelude.{
  ℕ, zero, suc, ◌+◌, ◌-◌, Bool, true, false, ◌&&◌, ◌||◌, not, Option, none, some, List, [], ◌∷◌,
  ◌++◌, ltb, ◌==◌, length, replicate, if◌then◌else◌,
}
use airspyhf.Prelude.Int.{ℤ, pos, negsuc}
use airspyhf.Prelude.Outcome.{Status, success, error, unsupported}
use airspyhf.Discovery.Serial.{serial_of, serial_size}

-- An entry of libusb's list of devices. A handle is known by the address of its device.
pub record Listed : Type 0 where
  pub address : ℕ
  pub id_vendor : ℕ
  pub id_product : ℕ
  pub serial_index : ℕ

pub data BusCall : Type 0 where
  init_context exit_context get_device_list free_device_list : BusCall
  open_handle close_handle : ℕ → BusCall
  get_string : ℕ → ℕ → BusCall
  set_configuration claim_interface release_interface set_alt_setting : ℕ → BusCall
  wrap_sys_device : ℤ → BusCall

-- The calls so far with what they returned, the last one first.
abbrev pub Trace : Type 0
Trace = List (BusCall × ℤ)

-- libusb and the devices on the bus. What a call answers may depend on all calls before it.
pub record Bus : Type 0 where
  pub answer : Trace → BusCall → ℤ
  -- the list of `libusb_get_device_list`
  pub devices : Trace → List Listed
  -- what the buffer holds after a string descriptor was read
  pub text : Trace → ℕ → List ℕ
  -- the handle that `libusb_wrap_sys_device` gives
  pub wrapped : Trace → Option ℕ

-- `airspyhf_usb_vid` and `airspyhf_usb_pid`
abbrev pub usb_vid : ℕ
usb_vid = 0x03EB

abbrev pub usb_pid : ℕ
usb_pid = 0x800C

-- SERIAL_NUMBER_UNUSED
abbrev pub serial_number_unused : ℕ
serial_number_unused = 0

abbrev pub is_zero : ℤ → Bool
is_zero (pos zero) = true
is_zero (pos (suc n)) = false
is_zero (negsuc n) = false

abbrev pub is_negative : ℤ → Bool
is_negative (pos n) = false
is_negative (negsuc n) = true

-- the serial number is the one asked for
unfoldable pub has_serial : ℕ → Option (ℕ × Bool) → Bool
has_serial wanted none = false
has_serial wanted (some (value, moved)) = value == wanted

-- The serial number of an open handle, as it is listed: a text with no digit has none.
unfoldable pub listed_serial : Option (ℕ × Bool) → List ℕ
listed_serial none = []
listed_serial (some (zero, false)) = []
listed_serial (some (zero, true)) = 0 ∷ []
listed_serial (some (suc n, moved)) = suc n ∷ []

-- `!serials || output_count < count`, where `none` is a null pointer for `serials`
unfoldable pub has_room : Option ℕ → ℕ → Bool
has_room none n = true
has_room (some count) n = ltb n count

module _ (B : Bus) where
  open B use {answer, devices, text, wrapped}

  abbrev pub call : BusCall → Trace → Trace
  call c t = (c, answer t c) ∷ t

  -- configuration 1, interface 0 and its setting 1; a handle that refuses one of them is closed
  unfoldable pub settle : ℕ → Trace → Bool × Trace
  settle a t₀ =
      let t₁ = call (set_configuration a) t₀ in
      let t₂ = call (claim_interface a) t₁ in
      let t₃ = call (set_alt_setting a) t₂ in
      if not (is_zero (answer t₀ (set_configuration a)))
      then (false, call (close_handle a) t₁)
      else if not (is_zero (answer t₁ (claim_interface a)))
      then (false, call (close_handle a) t₂)
      else if not (is_zero (answer t₂ (set_alt_setting a)))
      then (false, call (close_handle a) t₃)
      else (true, t₃)

  -- An open handle whose serial number is asked for: it is kept when it has that one.
  unfoldable pub check_serial : ℕ → Listed → Trace → Bool × Trace
  check_serial wanted dev t =
      let a = dev.address in
      let c = get_string a dev.serial_index in
      if has_serial wanted (serial_of (answer t c) (text t a))
      then settle a (call c t)
      else (false, call (close_handle a) (call c t))

  -- One round of the loop of `airspyhf_open_device`: whether it ends there, with the handle open.
  unfoldable pub try_device : (vid pid wanted : ℕ) → Listed → Trace → Bool × Trace
  try_device vid pid wanted dev t =
      let a = dev.address in
      let t₁ = call (open_handle a) t in
      let opened = is_zero (answer t (open_handle a)) in
      if not (dev.id_vendor == vid && dev.id_product == pid)
      then (false, t)
      else if not (wanted == serial_number_unused)
      then if ltb 0 dev.serial_index
        then if opened then check_serial wanted dev t₁ else (false, t₁)
        else (false, t)
      else if opened
      then settle a t₁
      else (false, t₁)

  -- The loop: the handle that is left in `usb_device`.
  unfoldable pub find_device : (vid pid wanted : ℕ) → List Listed → Trace → Option ℕ × Trace
  find_device vid pid wanted [] t = (none, t)
  find_device vid pid wanted (dev ∷ devs) t =
      let (kept, t₁) = try_device vid pid wanted dev t in
      let rest = find_device vid pid wanted devs t₁ in if kept then (some dev.address, t₁) else rest

  abbrev status_of : Option ℕ → Status
  status_of none = error
  status_of (some a) = success

  -- `airspyhf_open_device`: what goes into `*ret`, and `usb_device`
  unfoldable pub open_device : (vid pid wanted : ℕ) → Trace → Status × Option ℕ × Trace
  open_device vid pid wanted t =
      let t₁ = call get_device_list t in
      let (found, t₂) = find_device vid pid wanted (devices t) t₁ in
      if is_negative (answer t get_device_list)
      then (error, none, t₁)
      else (status_of found, found, call free_device_list t₂)

  -- `airspyhf_open_device_fd` as it is built without and with `__ANDROID__`
  unfoldable pub open_device_fd : (android : Bool) → ℤ → Trace → Status × Option ℕ × Trace
  open_device_fd false fd t = (unsupported, none, t)
  open_device_fd true fd t =
      let t₁ = call (wrap_sys_device fd) t in
      if not (is_zero (answer t (wrap_sys_device fd)))
      then (error, none, t₁)
      else elim (wrapped t) [
        | none ↦ (error, none, t₁)
        | some a ↦
            let (kept, t₂) = settle a t₁ in
            if kept then (success, some a, t₂) else (error, none, t₂)
      ]

  -- One round of the loop of `airspyhf_list_devices`: the serial numbers it adds, one at most.
  unfoldable pub list_device : Listed → Trace → List ℕ × Trace
  list_device dev t =
      let a = dev.address in
      let t₁ = call (open_handle a) t in
      let c = get_string a dev.serial_index in
      let found = listed_serial (serial_of (answer t₁ c) (text t₁ a)) in
      if dev.id_vendor == usb_vid && dev.id_product == usb_pid && ltb 0 dev.serial_index
      then if is_zero (answer t (open_handle a))
        then (found, call (close_handle a) (call c t₁))
        else ([], t₁)
      else ([], t)

  -- The loop, which has found `n` already.
  unfoldable pub list_from : Option ℕ → ℕ → List Listed → Trace → List ℕ × Trace
  list_from room n [] t = ([], t)
  list_from room n (dev ∷ devs) t =
      let (found, t₁) = list_device dev t in
      let (rest, t₂) = list_from room (length found + n) devs t₁ in
      if has_room room n then (found ++ rest, t₂) else ([], t)

  -- `airspyhf_list_devices`: AIRSPYHF_ERROR, or the serial numbers that are counted and, unless
  -- `serials` is null, stored in its first places
  unfoldable pub list_devices : Option ℕ → Trace → Option (List ℕ) × Trace
  list_devices room t₀ =
      let t₁ = call init_context t₀ in
      let t₂ = call get_device_list t₁ in
      let (found, t₃) = list_from room 0 (devices t₁) t₂ in
      if not (is_zero (answer t₀ init_context))
      then (none, t₁)
      else if is_negative (answer t₁ get_device_list)
      then (none, t₂)
      else (some found, call exit_context (call free_device_list t₃))

  -- `airspyhf_open_exit`, given `usb_device`
  unfoldable pub open_exit : Option ℕ → Trace → Trace
  open_exit none t = call exit_context t
  open_exit (some a) t = call exit_context (call (close_handle a) (call (release_interface a) t))

-- the caller's array after a listing: it was filled with 0 before
unfoldable pub serials_array : ℕ → List ℕ → List ℕ
serials_array count found = found ++ replicate (count - length found) 0
