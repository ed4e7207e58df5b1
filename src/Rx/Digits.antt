-- ===== src/Rx/Digits.antt =====
-- The decimal text of a number: `u64toa` and `stringrev` of tools/src/airspyhf_rx.c. An access outside of
-- the array is `none`.
pub mod Reverse
pub mod Value
use airspyhf.Prelude.{
  ℕ, zero, suc, ◌+◌, ◌-◌, ◌*◌, ◌/◌, ◌%◌, ◌^◌, ◌<◌, ◌≤◌, ◌≡◌, refl, sym, ap, ◌∙◌, Bool, true, false,
  not, ◌&&◌, ◌||◌, Option, none, some, List, [], ◌∷◌, ◌++◌, length, drop, length-append, get_elem?,
  set, ltb, ◌==◌, arith, if◌then◌else◌, Bool-cases, inl, inr,
}
use Prim.Native.Nat.{bit_xor}
use mathlib.Core.List.{append_assoc, reverse, reverse-cons, reverse-append}
use airspyhf.Prelude.Checked.{◌>>=◌, Ensures, read, write, for_up}

-- *p1 ^= *p2; *p2 ^= *p1; *p1 ^= *p2;
unfoldable pub swap_bytes : List ℕ → (p1 p2 : ℕ) → Option (List ℕ)
swap_bytes str p1 p2 = do
  a ← read str p1
  b ← read str p2
  first ← write str p1 (bit_xor a b)
  second ← write first p2 (bit_xor b (bit_xor a b))
  write second p1 (bit_xor (bit_xor a b) (bit_xor b (bit_xor a b)))

-- `stringrev` of a text of that length: `p2 > p1` holds in the first half
unfoldable pub stringrev : (strlen : ℕ) → List ℕ → Option (List ℕ)
stringrev strlen str = for_up (λ i s. swap_bytes s i (strlen - 1 - i)) 0 (strlen / 2) str

-- U64TOA_MAX_DIGIT
abbrev pub u64toa_max_digit : ℕ
u64toa_max_digit = 31

-- The loop, with `left` more places to write: the array, `pos` and `sum` at the end. The first round is
-- always made.
unfoldable pub write_digits : (left pos sum : ℕ) → List ℕ → Option (List ℕ × ℕ × ℕ)
write_digits zero pos sum str = some (str, pos, sum)
write_digits (suc left) pos sum str = do
  s ← write str pos (sum % 10 + 48)
  let rest = write_digits left (suc pos) (sum / 10) s
  if ltb 0 (sum / 10) then rest else some (s, suc pos, sum / 10)

-- `u64toa`: where it does not return null, the array, whose text ends at a 0
unfoldable pub u64toa : ℕ → List ℕ → Option (Option (List ℕ))
u64toa val str = do
  (digits, pos, sum) ← write_digits u64toa_max_digit 0 val str
  let ended = do s ← write digits pos 0; r ← stringrev pos s; some (some r)
  if pos == u64toa_max_digit && ltb 0 sum then some none else ended
