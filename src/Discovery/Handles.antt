-- ===== src/Discovery/Handles.antt =====
-- Which handles are open after a trace of calls, in libairspyhf/src/airspyhf.c's search for devices.
use airspyhf.Prelude.{
  ℕ, zero, suc, ◌≡◌, refl, Bool, true, false, Option, none, some, List, [], ◌∷◌, arith, ◌+◌, length,
}
use airspyhf.Prelude.Int.{ℤ, pos, negsuc}
use airspyhf.Prelude.Counts.{remove, remove_self}
use airspyhf.Discovery.{
  Listed, BusCall, init_context, get_device_list, open_handle, close_handle, get_string, Trace, Bus,
  is_zero, call, settle, check_serial, try_device, find_device, open_device, list_device, list_from,
  list_devices, open_exit,
}

unfoldable pub effect : BusCall → ℤ → List ℕ → List ℕ
effect (open_handle a) (pos zero) hs = a ∷ hs
effect (close_handle a) r hs = remove a hs
effect _ r hs = hs

-- the handles that are open, the last one first
unfoldable pub handles : Trace → List ℕ
handles [] = []
handles ((c, r) ∷ t) = effect c r (handles t)

module _ (B : Bus) where
  open B use {answer, devices, text}

  -- the handle of a round that was kept
  abbrev pub kept_handle : Bool → ℕ → List ℕ → List ℕ
  kept_handle true a hs = a ∷ hs
  kept_handle false a hs = hs

  effect_open :
      (a : ℕ) (r : ℤ) (hs : List ℕ) → effect (open_handle a) r hs ≡ kept_handle (is_zero r) a hs
  unfolding effect
  effect_open a (pos zero) hs = refl
  effect_open a (pos (suc n)) hs = refl
  effect_open a (negsuc n) hs = refl

  handles-settle :
      (a : ℕ) (hs : List ℕ) (t : Trace)
      → handles t ≡ a ∷ hs
      → handles (settle B a t).1 ≡ kept_handle (settle B a t).0 a hs
  unfolding handles effect settle
  handles-settle a hs t h = ground (arith, remove_self a hs)

  handles-check_serial :
      (wanted : ℕ) (dev : Listed) (hs : List ℕ) (t : Trace)
      → handles t ≡ dev.address ∷ hs
      → handles (check_serial B wanted dev t).1
        ≡ kept_handle (check_serial B wanted dev t).0 dev.address hs
  unfolding handles effect check_serial
  handles-check_serial wanted dev hs t h = ground (
    arith,
    remove_self dev.address hs,
    handles-settle dev.address hs (call B (get_string dev.address dev.serial_index) t) h,
  )

  handles-try_device :
      (vid pid wanted : ℕ) (dev : Listed) (t : Trace)
      → handles (try_device B vid pid wanted dev t).1
        ≡ kept_handle (try_device B vid pid wanted dev t).0 dev.address (handles t)
  unfolding handles try_device
  handles-try_device vid pid wanted dev t = ground (
    arith,
    effect_open dev.address (answer t (open_handle dev.address)) (handles t),
    handles-settle dev.address (handles t) (call B (open_handle dev.address) t),
    handles-check_serial wanted dev (handles t) (call B (open_handle dev.address) t),
  )

  abbrev pub found_handle : Option ℕ → List ℕ → List ℕ
  found_handle none hs = hs
  found_handle (some a) hs = a ∷ hs

  handles-find_device :
      (vid pid wanted : ℕ) (devs : List Listed) (t : Trace)
      → handles (find_device B vid pid wanted devs t).1
        ≡ found_handle (find_device B vid pid wanted devs t).0 (handles t)
  unfolding find_device
  handles-find_device vid pid wanted [] t = refl
  handles-find_device vid pid wanted (dev ∷ devs) t = ground (
    arith,
    handles-try_device vid pid wanted dev t,
    handles-find_device vid pid wanted devs (try_device B vid pid wanted dev t).1,
  )

  -- The search leaves the handle that it returns open and no other one, whatever fails.
  pub open_device-handles :
      (vid pid wanted : ℕ) (t : Trace)
      → handles (open_device B vid pid wanted t).2
        ≡ found_handle (open_device B vid pid wanted t).1 (handles t)
  unfolding handles effect open_device
  open_device-handles vid pid wanted t =
      ground (arith, handles-find_device vid pid wanted (devices t) (call B get_device_list t))

  handles-list_device : (dev : Listed) (t : Trace) → handles (list_device B dev t).1 ≡ handles t
  unfolding handles effect list_device
  handles-list_device dev t = ground (
    arith,
    effect_open dev.address (answer t (open_handle dev.address)) (handles t),
    remove_self dev.address (handles t),
  )

  handles-list_from :
      (room : Option ℕ) (n : ℕ) (devs : List Listed) (t : Trace)
      → handles (list_from B room n devs t).1 ≡ handles t
  unfolding list_from
  handles-list_from room n [] t = refl
  handles-list_from room n (dev ∷ devs) t = ground (
    arith,
    handles-list_device dev t,
    handles-list_from room (length (list_device B dev t).0 + n) devs (list_device B dev t).1,
  )

  -- A listing closes every handle that it opens.
  pub list_devices-handles :
      (room : Option ℕ) (t : Trace) → handles (list_devices B room t).1 ≡ handles t
  unfolding handles effect list_devices
  list_devices-handles room t = ground (
    arith,
    handles-list_from room 0 (devices (call B init_context t))
        (call B get_device_list (call B init_context t)),
  )

  handles-open_exit :
      (found : Option ℕ) (hs : List ℕ) (t : Trace)
      → handles t ≡ found_handle found hs
      → handles (open_exit B found t) ≡ hs
  unfolding handles effect open_exit
  handles-open_exit none hs t h = h
  handles-open_exit (some a) hs t h = rw h (remove_self a hs)

  -- What the search opened, `airspyhf_open_exit` closes.
  pub open_exit-open_device :
      (vid pid wanted : ℕ) (t : Trace)
      → handles (open_exit B (open_device B vid pid wanted t).1 (open_device B vid pid wanted t).2)
        ≡ handles t
  open_exit-open_device vid pid wanted t =
      handles-open_exit (open_device B vid pid wanted t).1 (handles t)
        (open_device B vid pid wanted t).2 (open_device-handles vid pid wanted t)
