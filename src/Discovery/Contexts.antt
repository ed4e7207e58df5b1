-- ===== src/Discovery/Contexts.antt =====
-- The contexts and the results of `airspyhf_list_devices` of libairspyhf/src/airspyhf.c.
use airspyhf.Prelude.{
  ℕ, zero, suc, ◌+◌, ◌-◌, ◌≤◌, ◌&&◌, if◌then◌else◌, ◌≡◌, refl, Bool, true, false, Option, none,
  some, List, [], ◌∷◌, arith, length, replicate, length-append, length-replicate,
}
use airspyhf.Prelude.Int.{ℤ, pos, negsuc}
use airspyhf.Discovery.{
  Listed, BusCall, init_context, exit_context, get_device_list, open_handle, get_string, Trace, Bus,
  is_zero, is_negative, call, list_device, list_from, list_devices, has_room, listed_serial,
  serials_array,
}
use airspyhf.Discovery.Serial.{serial_of}

unfoldable pub context_effect : BusCall → ℤ → ℕ → ℕ
context_effect init_context (pos zero) n = suc n
context_effect exit_context r n = n - 1
context_effect _ r n = n

-- the contexts that were made and not left
unfoldable pub contexts : Trace → ℕ
contexts [] = 0
contexts ((c, r) ∷ t) = context_effect c r (contexts t)

module _ (B : Bus) where
  open B use {answer, devices, text}

  contexts-list_device : (dev : Listed) (t : Trace) → contexts (list_device B dev t).1 ≡ contexts t
  unfolding contexts context_effect list_device
  contexts-list_device dev t = ground arith

  length-listed_serial : (found : Option (ℕ × Bool)) → length (listed_serial found) ≤ 1
  unfolding listed_serial
  length-listed_serial none = omega arith
  length-listed_serial (some (zero, false)) = omega arith
  length-listed_serial (some (zero, true)) = omega arith
  length-listed_serial (some (suc n, moved)) = omega arith

  length-list_device : (dev : Listed) (t : Trace) → length (list_device B dev t).0 ≤ 1
  unfolding list_device
  length-list_device dev t =
      let t₁ = call B (open_handle dev.address) t in
      ground (
        arith,
        length-listed_serial
            (serial_of (answer t₁ (get_string dev.address dev.serial_index)) (text t₁ dev.address)),
      )

  -- No more than there are devices.
  length-list_from :
      (room : Option ℕ) (n : ℕ) (devs : List Listed) (t : Trace)
      → length (list_from B room n devs t).0 ≤ length devs
  unfolding list_from
  length-list_from room n [] t = omega arith
  length-list_from room n (dev ∷ devs) t =
      let found = (list_device B dev t).0 in
      let t₁ = (list_device B dev t).1 in
      ground (
        arith,
        length-list_device dev t,
        length-list_from room (length found + n) devs t₁,
        length-append found (list_from B room (length found + n) devs t₁).0,
      )

  -- No more than there is room for.
  length-list_from_room :
      (count n : ℕ) (devs : List Listed) (t : Trace)
      → n ≤ count
      → length (list_from B (some count) n devs t).0 + n ≤ count
  unfolding list_from has_room
  length-list_from_room count n [] t h = omega arith
  length-list_from_room count n (dev ∷ devs) t h =
      let found = (list_device B dev t).0 in
      let t₁ = (list_device B dev t).1 in
      ground (
        arith,
        length-list_device dev t,
        length-list_from_room count (length found + n) devs t₁,
        length-append found (list_from B (some count) (length found + n) devs t₁).0,
      )

  contexts-list_from :
      (room : Option ℕ) (n : ℕ) (devs : List Listed) (t : Trace)
      → contexts (list_from B room n devs t).1 ≡ contexts t
  unfolding list_from
  contexts-list_from room n [] t = refl
  contexts-list_from room n (dev ∷ devs) t = ground (
    arith,
    contexts-list_device dev t,
    contexts-list_from room (length (list_device B dev t).0 + n) devs (list_device B dev t).1,
  )

  context_effect_init :
      (r : ℤ) (n : ℕ) → context_effect init_context r n ≡ (if is_zero r then suc n else n)
  unfolding context_effect
  context_effect_init (pos zero) n = refl
  context_effect_init (pos (suc m)) n = refl
  context_effect_init (negsuc m) n = refl

  -- A listing gives its context back, except that where libusb makes a context and then has no
  -- list of devices, the context stays.
  pub list_devices-contexts :
      (room : Option ℕ) (t : Trace)
      → contexts (list_devices B room t).1 ≡ (
          if is_zero (answer t init_context)
            && is_negative (answer (call B init_context t) get_device_list)
          then suc (contexts t)
          else contexts t)
  unfolding contexts context_effect list_devices
  list_devices-contexts room t =
      let t₁ = call B init_context t in
      ground (
        arith,
        context_effect_init (answer t init_context) (contexts t),
        contexts-list_from room 0 (devices t₁) (call B get_device_list t₁),
      )

  -- With an array of `count` places, a listing that does not fail leaves the array with `count`
  -- places, of which those that it counts hold serial numbers and the others 0; it counts no more
  -- serial numbers than there are places or devices.
  list_devices_fits :
      (count : ℕ) (t : Trace) (found : List ℕ)
      → (list_devices B (some count) t).0 ≡ some found
      → (length (serials_array count found) ≡ count)
        × (length found ≤ count)
        × (length found ≤ length (devices (call B init_context t)))
  unfolding list_devices serials_array
  list_devices_fits count t found e =
      let t₁ = call B init_context t in
      let t₂ = call B get_device_list t₁ in
      ground (
        arith,
        length-append found (replicate (count - length found) 0),
        length-replicate {A = ℕ} (count - length found) 0,
        length-list_from (some count) 0 (devices t₁) t₂,
        length-list_from_room count 0 (devices t₁) t₂,
      )
