-- ===== src/Discovery/Tests.antt =====
-- A bus with three devices, of which two are receivers; the theorems about the search there.
use airspyhf.Prelude.{
  ℕ, zero, suc, ◌+◌, ◌≡◌, refl, true, false, Option, none, some, List, [], ◌∷◌, ◌++◌, arith,
}
use airspyhf.Prelude.Int.{ℤ, pos, negsuc}
use airspyhf.Prelude.Outcome.{Status, success}
use airspyhf.Discovery.{
  Listed, BusCall, init_context, get_device_list, free_device_list, get_string, claim_interface,
  Trace, Bus, call, usb_vid, usb_pid, open_device, open_device_fd, list_devices, find_device,
  try_device, check_serial, has_serial, settle, list_from, list_device, listed_serial, has_room,
}
use airspyhf.Discovery.Serial.{
  serial_prefix, serial_size, serial_of, same_bytes, strtoull, starts_with_digit, skip_hex_mark,
  take_sign, skip_spaces, is_space, hex_digit, to_u64, read_digits,
}
use airspyhf.Discovery.Handles.{handles, effect, open_device-handles}
use airspyhf.Prelude.Counts.{remove}
use airspyhf.Discovery.Contexts.{contexts, context_effect, list_devices-contexts}
use airspyhf.Discovery.Match.{FoundIn, open_device-FoundIn}
use airspyhf.Discovery.First.{
  IsWorking, wants, first_wanted, serials_of, open_device_first, list_devices_serials,
}
use airspyhf.Discovery.Hex.{hex_text, hex_char, serial_of-hex_text}

abbrev mouse : Listed
mouse = record { address = 1; id_vendor = 0x046D; id_product = 0x800C; serial_index = 0 }

abbrev receiver : ℕ → Listed
receiver a = record { address = a; id_vendor = usb_vid; id_product = usb_pid; serial_index = 3 }

abbrev serial_text : ℕ → List ℕ
serial_text a = serial_prefix ++ hex_text 16 (0x35AC63DC2D701C00 + a)

abbrev answer_well : BusCall → ℤ
answer_well (get_string a i) = pos serial_size
answer_well get_device_list = pos 3
answer_well _ = pos 0

abbrev good_bus : Bus
good_bus = record {
  answer = λ t c. answer_well c;
  devices = λ t. mouse ∷ receiver 2 ∷ receiver 3 ∷ [];
  text = λ t a. serial_text a;
  wrapped = λ t. some 9;
}

abbrev good_bus_working : IsWorking good_bus
good_bus_working = record {
  text_of = λ a i. serial_of (pos serial_size) (serial_text a);
  opens = λ t a. refl;
  configures = λ t a. refl;
  claims = λ t a. refl;
  sets = λ t a. refl;
  answers = λ t a i. refl;
}

-- a bus where the second receiver alone lets its interface be claimed, and there is no list at first
abbrev answer_badly : Trace → BusCall → ℤ
answer_badly t (get_string a i) = pos serial_size
answer_badly t (claim_interface (suc (suc zero))) = negsuc 5
answer_badly ((init_context, r) ∷ t) get_device_list = negsuc 0
answer_badly t get_device_list = pos 3
answer_badly t _ = pos 0

abbrev bad_bus : Bus
bad_bus = record {
  answer = answer_badly;
  devices = λ t. mouse ∷ receiver 2 ∷ receiver 3 ∷ [];
  text = λ t a. serial_text a;
  wrapped = λ t. none;
}

-- "0x1f", "-1", "zz", and a number too large
strtoull_tests :
    (strtoull (32 ∷ 48 ∷ 120 ∷ 49 ∷ 102 ∷ []) ≡ (31, true))
    × (strtoull (45 ∷ 49 ∷ []) ≡ (0xFFFFFFFFFFFFFFFF, true))
    × (strtoull (122 ∷ 122 ∷ []) ≡ (0, false))
    × (strtoull (hex_text 17 0x10000000000000000) ≡ (0xFFFFFFFFFFFFFFFF, true))
unfolding serial_of same_bytes strtoull starts_with_digit skip_hex_mark take_sign skip_spaces
    is_space hex_digit to_u64 read_digits hex_text hex_char
strtoull_tests = (refl, refl, refl, refl)

found_test : (open_device good_bus usb_vid usb_pid 0x35AC63DC2D701C03 []).1 ≡ some 3
unfolding open_device find_device try_device check_serial has_serial settle serial_of same_bytes
    strtoull starts_with_digit skip_hex_mark take_sign skip_spaces is_space hex_digit to_u64
    read_digits hex_text hex_char
found_test = refl

passed_over_test : (open_device bad_bus usb_vid usb_pid 0 []).1 ≡ some 3
unfolding open_device find_device try_device check_serial has_serial settle
passed_over_test = refl

fd_test : (open_device_fd good_bus true (pos 4) []).1 ≡ some 9
unfolding open_device_fd settle
fd_test = refl

open_device-handles_example : handles (open_device bad_bus usb_vid usb_pid 0 []).2 ≡ 3 ∷ []
unfolding open_device find_device try_device check_serial has_serial settle handles effect remove
open_device-handles_example = open_device-handles bad_bus usb_vid usb_pid 0 []

list_devices-contexts_example : contexts (list_devices bad_bus none []).1 ≡ 1
unfolding contexts context_effect list_devices list_from list_device listed_serial has_room
list_devices-contexts_example = list_devices-contexts bad_bus none []

abbrev opened : Status × Option ℕ × Trace
opened = open_device good_bus usb_vid usb_pid 0x35AC63DC2D701C03 []

open_device-FoundIn_example :
    (success ≡ success)
    × (v : Trace) × (opened.2 ≡ call good_bus free_device_list v)
    × FoundIn good_bus usb_vid usb_pid 0x35AC63DC2D701C03 (good_bus.devices []) 3 v
unfolding open_device find_device try_device check_serial has_serial settle serial_of same_bytes
    strtoull starts_with_digit skip_hex_mark take_sign skip_spaces is_space hex_digit to_u64
    read_digits hex_text hex_char
open_device-FoundIn_example =
    open_device-FoundIn good_bus usb_vid usb_pid 0x35AC63DC2D701C03 [] refl

open_device-first_example : (open_device good_bus usb_vid usb_pid 0x35AC63DC2D701C03 []).1 ≡ some 3
unfolding first_wanted wants has_serial serial_of same_bytes strtoull starts_with_digit
    skip_hex_mark take_sign skip_spaces is_space hex_digit to_u64 read_digits hex_text hex_char
open_device-first_example =
    open_device_first good_bus good_bus_working usb_vid usb_pid 0x35AC63DC2D701C03 3 [] refl

list_devices-serials_example :
    (list_devices good_bus none []).0 ≡ some (0x35AC63DC2D701C02 ∷ 0x35AC63DC2D701C03 ∷ [])
unfolding serials_of listed_serial serial_of same_bytes strtoull starts_with_digit skip_hex_mark
    take_sign skip_spaces is_space hex_digit to_u64 read_digits hex_text hex_char
list_devices-serials_example = list_devices_serials good_bus good_bus_working 3 [] refl refl

serial_of-hex_text_example :
    serial_of (pos 28) (serial_prefix ++ hex_text 16 0x35AC63DC2D701C03)
    ≡ some (0x35AC63DC2D701C03, true)
serial_of-hex_text_example = serial_of-hex_text 0x35AC63DC2D701C03 (omega arith)
