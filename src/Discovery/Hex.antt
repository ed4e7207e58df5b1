-- ===== src/Discovery/Hex.antt =====
-- The serial numbers that libairspyhf/src/airspyhf.c reads are those that print as digits in upper case.
use airspyhf.Prelude.{
  ℕ, zero, suc, ◌+◌, ◌*◌, ◌/◌, ◌%◌, ◌^◌, ◌≤◌, ◌<◌, ◌≡◌, refl, sym, ap, ◌∙◌, ◌⊎◌, true, false, some,
  List, [], ◌∷◌, ◌++◌, arith, ltb, if◌then◌else◌, length, length-append,
}
use airspyhf.Prelude.Int.{pos}
use airspyhf.Discovery.Serial.{
  same_bytes, hex_digit, is_space, skip_spaces, take_sign, read_digits, starts_with_digit,
  skip_hex_mark, to_u64, strtoull, serial_of, serial_prefix, serial_size,
}

-- a digit, in upper case
unfoldable pub hex_char : ℕ → ℕ
hex_char d = if ltb d 10 then 48 + d else 55 + d

-- the last `n` digits of a number
unfoldable pub hex_text : ℕ → ℕ → List ℕ
hex_text zero v = []
hex_text (suc n) v = hex_text n (v / 16) ++ (hex_char (v % 16) ∷ [])

hex_digit-hex_char : (d : ℕ) → d < 16 → hex_digit (hex_char d) ≡ some d
unfolding hex_digit hex_char
hex_digit-hex_char d h = ground arith

append_assoc : (xs ys zs : List ℕ) → (xs ++ ys) ++ zs ≡ xs ++ (ys ++ zs)
append_assoc [] ys zs = refl
append_assoc (x ∷ xs) ys zs = ap (λ l. x ∷ l) (append_assoc xs ys zs)

read_digits_digit :
    (n c d : ℕ) (ys : List ℕ)
    → hex_digit c ≡ some d
    → read_digits n (c ∷ ys) ≡ read_digits (n * 16 + d) ys
unfolding read_digits
read_digits_digit n c d ys h = ground arith

read_digits-hex_text :
    (n v : ℕ) (ys : List ℕ) → v < 16 ^ n → read_digits 0 (hex_text n v ++ ys) ≡ read_digits v ys
unfolding hex_text read_digits
read_digits-hex_text zero v ys h = let nothing : v ≡ 0 = omega arith in rw nothing
read_digits-hex_text (suc n) v ys h =
    let c = hex_char (v % 16) in
    let together : v / 16 * 16 + v % 16 ≡ v = omega arith in
    let digit = hex_digit-hex_char (v % 16) (omega arith) in
    let step : read_digits (v / 16) (c ∷ ys) ≡ read_digits v ys =
      read_digits_digit (v / 16) c (v % 16) ys digit ∙ ap (λ m. read_digits m ys) together in
    rw (append_assoc (hex_text n (v / 16)) (c ∷ []) ys)
      (read_digits-hex_text n (v / 16) (c ∷ ys) (omega arith) ∙ step)

-- a digit in upper case
abbrev IsDigit : ℕ → Type 0
IsDigit c = ((48 ≤ c) × (c ≤ 57)) ⊎ ((65 ≤ c) × (c ≤ 70))

abbrev AllDigits : List ℕ → Type 0
AllDigits [] = Unit {0}
AllDigits (c ∷ cs) = IsDigit c × AllDigits cs

hex_char-IsDigit : (d : ℕ) → d < 16 → IsDigit (hex_char d)
unfolding hex_char
hex_char-IsDigit d h = ground arith

AllDigits-append : (cs : List ℕ) (c : ℕ) → AllDigits cs → IsDigit c → AllDigits (cs ++ (c ∷ []))
AllDigits-append [] c h k = (k, tt)
AllDigits-append (b ∷ cs) c (h, hs) k = (h, AllDigits-append cs c hs k)

hex_text-AllDigits : (n v : ℕ) → AllDigits (hex_text n v)
unfolding hex_text
hex_text-AllDigits zero v = tt
hex_text-AllDigits (suc n) v =
    AllDigits-append (hex_text n (v / 16)) (hex_char (v % 16)) (hex_text-AllDigits n (v / 16))
      (hex_char-IsDigit (v % 16) (omega arith))

length-hex_text : (n v : ℕ) → length (hex_text n v) ≡ n
unfolding hex_text
length-hex_text zero v = refl
length-hex_text (suc n) v = omega (
  arith,
  length-append (hex_text n (v / 16)) (hex_char (v % 16) ∷ []),
  length-hex_text n (v / 16),
)

-- No space, no sign.
plain_start : (c : ℕ) (cs : List ℕ) → IsDigit c → take_sign (skip_spaces (c ∷ cs)) ≡ (false, c ∷ cs)
unfolding take_sign skip_spaces is_space
plain_start c cs h = ground arith

no_hex_mark : (cs : List ℕ) → AllDigits cs → skip_hex_mark cs ≡ cs
unfolding skip_hex_mark
no_hex_mark [] h = refl
no_hex_mark (a ∷ []) h = refl
no_hex_mark (a ∷ b ∷ cs) (h, (k, hs)) = ground arith

digit_start : (c : ℕ) (cs : List ℕ) → IsDigit c → starts_with_digit (c ∷ cs) ≡ true
unfolding starts_with_digit hex_digit
digit_start c cs h = ground arith

strtoull_digits :
    (c : ℕ) (cs : List ℕ)
    → AllDigits (c ∷ cs)
    → strtoull (c ∷ cs) ≡ (to_u64 false (read_digits 0 (c ∷ cs)), true)
unfolding strtoull
strtoull_digits c cs h =
    let plain = plain_start c cs h.0 in
    let mark = no_hex_mark (c ∷ cs) h in
    let start = digit_start c cs h.0 in simp (plain, mark, start)

AllDigits-strtoull :
    (cs : List ℕ)
    → 0 < length cs
    → AllDigits cs
    → strtoull cs ≡ (to_u64 false (read_digits 0 cs), true)
AllDigits-strtoull [] l h = absurd (omega arith)
AllDigits-strtoull (c ∷ cs) l h = strtoull_digits c cs h

append_nil : (xs : List ℕ) → xs ++ [] ≡ xs
append_nil [] = refl
append_nil (x ∷ xs) = ap (λ l. x ∷ l) (append_nil xs)

read_digits_all : (n v : ℕ) → v < 16 ^ n → read_digits 0 (hex_text n v) ≡ v
unfolding read_digits
read_digits_all n v h =
    ap (read_digits 0) (sym (append_nil (hex_text n v))) ∙ read_digits-hex_text n v [] h

to_u64_small : (v : ℕ) → v < 2 ^ 64 → to_u64 false v ≡ v
unfolding to_u64
to_u64_small v h = ground arith

-- `strtoull` reads back a number that was printed with one to sixteen digits and fits in them.
pub strtoull-hex_text :
    (n v : ℕ) → v < 16 ^ suc n → v < 2 ^ 64 → strtoull (hex_text (suc n) v) ≡ (v, true)
strtoull-hex_text n v h fits =
    AllDigits-strtoull (hex_text (suc n) v) (omega (arith, length-hex_text (suc n) v))
      (hex_text-AllDigits (suc n) v)
    ∙ ap (λ m. (to_u64 false m, true)) (read_digits_all (suc n) v h)
    ∙ ap (λ m. (m, true)) (to_u64_small v fits)

-- A string descriptor of the prefix and the sixteen digits of a 64-bit number gives that number.
pub serial_of-hex_text :
    (v : ℕ)
    → v < 2 ^ 64
    → serial_of (pos serial_size) (serial_prefix ++ hex_text 16 v) ≡ some (v, true)
unfolding serial_of same_bytes hex_text
serial_of-hex_text v fits = ap some (strtoull-hex_text 15 v fits fits)
