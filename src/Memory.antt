-- ===== src/Memory.antt =====
-- The blocks that libairspyhf/src/airspyhf.c allocates and frees: a store for `malloc`, `calloc`, `free`
-- and libusb's transfers.
pub mod Transfers
pub mod Open
mod Tests
use airspyhf.Prelude.{
  ℕ, suc, ◌+◌, ◌≡◌, Bool, Option, none, some, List, [], ◌∷◌, ◌++◌, ltb, arith, if◌then◌else◌,
}
use airspyhf.Prelude.Counts.{count, remove, count-remove}

-- The live blocks by their addresses, and the next address that is given.
pub record Store : Type 0 where
  pub next : ℕ
  pub live : List ℕ

-- `malloc`, `calloc` or `libusb_alloc_transfer`: `gives` says which of them have memory to give
unfoldable pub malloc : (gives : ℕ → Bool) → Store → Option ℕ × Store
malloc gives s =
    if gives s.next
    then (some s.next, record { next = suc s.next; live = s.next ∷ s.live })
    else (none, record s { next = suc s.next })

-- `free`, which may be given a null pointer: `none` if the block is not live
unfoldable pub free : Option ℕ → Store → Option Store
free none s = some s
free (some p) s =
    if ltb 0 (count p s.live) then some (record s { live = remove p s.live }) else none

-- what a pointer owns
abbrev pub block : Option ℕ → List ℕ
block none = []
block (some p) = p ∷ []

-- The live blocks are those of `owned` and of `rest`, as often as they stand there.
abbrev pub Owns : List ℕ → List ℕ → Store → Type 0
Owns owned rest s = (a : ℕ) → count a s.live ≡ count a owned + count a rest
