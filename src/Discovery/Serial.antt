-- ===== src/Discovery/Serial.antt =====
-- The serial number in a string descriptor: `strtoull` in base 16, as `airspyhf_open_device` and
-- `airspyhf_list_devices` of libairspyhf/src/airspyhf.c use it, and the test of the prefix.
use airspyhf.Prelude.{
  ℕ, ◌+◌, ◌-◌, ◌*◌, ◌^◌, ◌%◌, Bool, true, false, ◌&&◌, ◌||◌, Option, none, some, List, [], ◌∷◌, leb,
  ◌==◌, take, drop, if◌then◌else◌,
}
use airspyhf.Prelude.Int.{ℤ, pos, negsuc}

-- AIRSPYHF_SERIAL_SIZE
abbrev pub serial_size : ℕ
serial_size = 28

-- STR_PREFIX_SERIAL_AIRSPYHF_SIZE
abbrev pub prefix_size : ℕ
prefix_size = 12

-- `str_prefix_serial_airspyhf`: "AIRSPYHF SN:"
abbrev pub serial_prefix : List ℕ
serial_prefix = 65 ∷ 73 ∷ 82 ∷ 83 ∷ 80 ∷ 89 ∷ 72 ∷ 70 ∷ 32 ∷ 83 ∷ 78 ∷ 58 ∷ []

-- `!memcmp(a, b, length of a)`
unfoldable pub same_bytes : List ℕ → List ℕ → Bool
same_bytes [] bs = true
same_bytes (a ∷ xs) [] = false
same_bytes (a ∷ xs) (b ∷ bs) = a == b && same_bytes xs bs

unfoldable pub hex_digit : ℕ → Option ℕ
hex_digit c =
    if leb 48 c && leb c 57
    then some (c - 48)
    else if leb 65 c && leb c 70
    then some (c - 55)
    else if leb 97 c && leb c 102
    then some (c - 87)
    else none

-- `isspace`
unfoldable pub is_space : ℕ → Bool
is_space c = c == 32 || leb 9 c && leb c 13

unfoldable pub skip_spaces : List ℕ → List ℕ
skip_spaces [] = []
skip_spaces (c ∷ cs) = let rest = skip_spaces cs in if is_space c then rest else c ∷ cs

-- Whether a minus sign stands there, and what follows a sign.
unfoldable pub take_sign : List ℕ → Bool × List ℕ
take_sign [] = (false, [])
take_sign (c ∷ cs) =
    if c == 45 then (true, cs) else if c == 43 then (false, cs) else (false, c ∷ cs)

-- The digits from the start on, read after a number.
unfoldable pub read_digits : ℕ → List ℕ → ℕ
read_digits n [] = n
read_digits n (c ∷ cs) = elim (hex_digit c) [ none ↦ n | some d ↦ read_digits (n * 16 + d) cs ]

unfoldable pub starts_with_digit : List ℕ → Bool
starts_with_digit [] = false
starts_with_digit (c ∷ cs) = elim (hex_digit c) [ none ↦ false | some d ↦ true ]

-- "0x" is passed over where a digit follows it.
unfoldable pub skip_hex_mark : List ℕ → List ℕ
skip_hex_mark (a ∷ b ∷ cs) =
    if a == 48 && (b == 120 || b == 88) && starts_with_digit cs then cs else a ∷ b ∷ cs
skip_hex_mark cs = cs

-- The value, saturated; a minus sign negates modulo 2^64.
unfoldable pub to_u64 : Bool → ℕ → ℕ
to_u64 negative n =
    if leb (2 ^ 64) n then 2 ^ 64 - 1 else if negative then (2 ^ 64 - n) % 2 ^ 64 else n

-- `strtoull(text, &end, 16)`: the value, and whether `end` has moved
unfoldable pub strtoull : List ℕ → ℕ × Bool
strtoull text =
    let (negative, cs) = take_sign (skip_spaces text) in
    let ds = skip_hex_mark cs in
    if starts_with_digit ds then (to_u64 negative (read_digits 0 ds), true) else (0, false)

-- The number of a string descriptor of that length and with those bytes, if its length is right and
-- it starts as it should. The 0 behind the text is the end of the list.
unfoldable pub serial_of : ℤ → List ℕ → Option (ℕ × Bool)
serial_of (negsuc n) buffer = none
serial_of (pos n) buffer =
    if n == serial_size && same_bytes serial_prefix buffer
    then some (strtoull (drop prefix_size (take serial_size buffer)))
    else none
