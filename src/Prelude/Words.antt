-- ===== src/Prelude/Words.antt =====
-- Machine words as native numbers: bytes, two's complement, and the two byte orders of the driver.
use Prim.Native.Nat.{ℕ, ◌+◌, ◌-◌, ◌*◌, ◌/◌, ◌%◌, ◌^◌, ◌<◌}
use mathlib.Core.Path.{◌≡◌}
use mathlib.Core.List.{List, [], ◌∷◌}
use native.Mathlib.Omega.{arith}
use airspyhf.Prelude.Tests.{ltb, if◌then◌else◌}
use airspyhf.Prelude.Int.{ℤ, pos, negsuc}

-- `(x >> shift) & 0xff`, with `place = 1 << shift`
abbrev pub byte_at : ℕ → ℕ → ℕ
byte_at place x = x / place % 256

-- most significant byte first
unfoldable pub be_bytes : ℕ → List ℕ
be_bytes x = byte_at 16777216 x ∷ byte_at 65536 x ∷ byte_at 256 x ∷ byte_at 1 x ∷ []

-- least significant byte first: a `uint32_t` in the memory of the host
unfoldable pub le_bytes : ℕ → List ℕ
le_bytes x = byte_at 1 x ∷ byte_at 256 x ∷ byte_at 65536 x ∷ byte_at 16777216 x ∷ []

abbrev pub be_word : ℕ → ℕ → ℕ → ℕ → ℕ
be_word a b c d = ((a * 256 + b) * 256 + c) * 256 + d

abbrev pub le_word : ℕ → ℕ → ℕ → ℕ → ℕ
le_word a b c d = be_word d c b a

-- the `int32_t` with a given bit pattern, and the pattern of a number
abbrev pub signed32 : ℕ → ℤ
signed32 w = if ltb w 2147483648 then pos w else negsuc (4294967295 - w)

abbrev pub pattern32 : ℤ → ℕ
pattern32 (pos n) = n % 4294967296
pattern32 (negsuc n) = 4294967295 - n % 4294967296

-- a signed number converted to `size_t`
abbrev pub to_size : ℤ → ℕ
to_size (pos n) = n % 2 ^ 64
to_size (negsuc n) = 2 ^ 64 - 1 - n % 2 ^ 64

-- the low sixteen bits of a number
abbrev pub to_u16 : ℤ → ℕ
to_u16 (pos n) = n % 65536
to_u16 (negsuc n) = 65535 - n % 65536

-- Splitting a word into bytes loses nothing.
pub be_word-bytes :
    (x : ℕ)
    → x < 4294967296
    → be_word (byte_at 16777216 x) (byte_at 65536 x) (byte_at 256 x) (byte_at 1 x) ≡ x
be_word-bytes x h = omega arith

-- An `int32_t` is the value of its bit pattern.
pub signed32-pattern32 :
    (n : ℕ)
    → n < 2147483648
    → (signed32 (pattern32 (pos n)) ≡ pos n) × (signed32 (pattern32 (negsuc n)) ≡ negsuc n)
signed32-pattern32 n h = ground arith
