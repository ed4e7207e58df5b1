-- ===== src/Tools.antt =====
-- The API of the library as the tools of tools/src see it: what each call answers, and which calls a tool has
-- made. The functions themselves are in the other parts.
pub mod Gpio
pub mod Info
pub mod Calibrate
mod Tests
use airspyhf.Prelude.{ℕ, ◌+◌, ◌-◌, ◌%◌, ◌^◌, Bool, Option, none, some, List, [], ◌∷◌}
use airspyhf.Prelude.Int.{ℤ}
use airspyhf.Prelude.Counts.{remove}
use airspyhf.Driver.Commands.{UserOutput, OutputState}
use airspyhf.Driver.Text.{PartidSerialno}

-- A call with its answer: none, or false, is another status than AIRSPYHF_SUCCESS. `opened` has the pointer
-- that airspyhf_open_sn leaves, which is null where it fails, and `closed` the pointer that is closed. What a
-- tool prints is in these answers.
pub data Event : Type 0 where
  listed : (count : Option ℤ) → Event
  opened : (sn : ℕ) → Option ℕ → Event
  closed : Option ℕ → Event
  output_set : ℕ → UserOutput → OutputState → Bool → Event
  serial_read : ℕ → Option PartidSerialno → Event
  version_read : ℕ → Option (List ℕ) → Event
  rates_counted : ℕ → Option ℕ → Event
  rates_read : ℕ → (len : ℕ) → Option (List ℕ) → Event
  calibration_read : ℕ → Option ℤ → Event
  calibration_set : ℕ → ℤ → Bool → Event
  flashed : ℕ → Bool → Event

-- the calls so far, the last one first
abbrev pub Trace : Type 0
Trace = List Event

-- The library, `malloc` and `sscanf`. An answer may depend on all calls before it.
pub record Api : Type 0 where
  -- airspyhf_list_devices, with no array or with one of that size: its result, and the array
  pub lists : Trace → Option ℤ → ℤ × List ℕ
  -- airspyhf_open_sn
  pub opens_sn : Trace → ℕ → Option ℕ
  -- airspyhf_set_user_output
  pub sets_output : Trace → ℕ → UserOutput → OutputState → Bool
  -- airspyhf_board_partid_serialno_read, airspyhf_version_string_read
  pub tells_serial : Trace → ℕ → Option PartidSerialno
  pub tells_version : Trace → ℕ → Option (List ℕ)
  -- airspyhf_get_samplerates with length 0, and with an array
  pub counts_rates : Trace → ℕ → Option ℕ
  pub tells_rates : Trace → ℕ → ℕ → Option (List ℕ)
  -- airspyhf_get_calibration, airspyhf_set_calibration, airspyhf_flash_calibration
  pub tells_calibration : Trace → ℕ → Option ℤ
  pub sets_calibration : Trace → ℕ → ℤ → Bool
  pub flashes : Trace → ℕ → Bool
  -- whether `malloc` has that many bytes to give
  pub gives : Trace → ℕ → Bool
  -- sscanf with "0x%llx", and with "%d"
  pub scan_serial : List ℕ → Option ℕ
  pub scan_int : List ℕ → Option ℤ

-- how a tool ends: with EXIT_SUCCESS, with EXIT_FAILURE, or in a function that reads from a null pointer
pub data Exit : Type 0 where
  exit_success exit_failure crashed : Exit

-- the rounds of `for (n = 1; n < ndev + 1; ++n)` with a counter of 32 bits
unfoldable pub rounds : (ndev : ℕ) → ℕ
rounds ndev = (ndev + 1) % 2 ^ 32 - 1

-- the handles that are open after an event
unfoldable pub effect : Event → List ℕ → List ℕ
effect (opened sn (some h)) hs = h ∷ hs
effect (closed (some h)) hs = remove h hs
effect _ hs = hs

-- the handles that are open, the last one first
unfoldable pub handles : Trace → List ℕ
handles [] = []
handles (e ∷ t) = effect e (handles t)
