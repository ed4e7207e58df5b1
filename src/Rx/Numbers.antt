-- ===== src/Rx/Numbers.antt =====
-- The numbers on the command line of tools/src/airspyhf_rx.c. `strtoull` and `strtoul` of the C library are
-- arguments: each takes a text and a base, and gives the value and what follows the number.
use airspyhf.Prelude.{
  ℕ, ◌%◌, ◌^◌, ◌≡◌, refl, Bool, not, ◌&&◌, ◌||◌, Option, none, some, List, ◌∷◌, ◌==◌, length,
  if◌then◌else◌, Bool-cases, inl, inr,
}

abbrev pub Strto : Type 0
Strto = List ℕ → ℕ → ℕ × List ℕ

-- the base, and where the digits start: after "0x" or "0b", where something follows it
unfoldable pub base_of : List ℕ → ℕ × List ℕ
base_of (a ∷ b ∷ c ∷ s) =
    if a == 48 && (b == 120 || b == 88)
    then (16, c ∷ s)
    else if a == 48 && (b == 98 || b == 66)
    then (2, c ∷ s)
    else (10, a ∷ b ∷ c ∷ s)
base_of s = (10, s)

-- `s != s_end && *s_end == 0`
unfoldable pub is_whole : (s s_end : List ℕ) → Bool
is_whole s s_end = not (length s == length s_end) && length s_end == 0

-- `parse_u64`: none for AIRSPYHF_ERROR
unfoldable pub parse_u64 : (strtoull : Strto) → List ℕ → Option ℕ
parse_u64 strtoull text =
    let (base, s) = base_of text in
    let (u64_value, s_end) = strtoull s base in if is_whole s s_end then some u64_value else none

-- `parse_u32`, where `unsigned long` has 64 bits
unfoldable pub parse_u32 : (strtoul : Strto) → List ℕ → Option ℕ
parse_u32 strtoul text =
    let (base, s) = base_of text in
    let (ulong_value, s_end) = strtoul s base in
    if is_whole s s_end then some (ulong_value % 2 ^ 32) else none

abbrev wrapped : Option ℕ → Option ℕ
wrapped none = none
wrapped (some n) = some (n % 2 ^ 32)

-- With one function for both, `parse_u32` accepts what `parse_u64` accepts, and gives its value modulo
-- 2^32: a number that is too large is not refused.
parse_u32-parse_u64 :
    (strtoul : Strto) (text : List ℕ) → parse_u32 strtoul text ≡ wrapped (parse_u64 strtoul text)
unfolding parse_u32 parse_u64
parse_u32-parse_u64 strtoul text =
    let (base, s) = base_of text in
    let (v, s_end) = strtoul s base in
    elim (Bool-cases (is_whole s s_end)) [ inl whole ↦ rw whole refl | inr rest ↦ rw rest refl ]
