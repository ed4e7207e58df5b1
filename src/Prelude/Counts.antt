-- ===== src/Prelude/Counts.antt =====
-- How often a number stands in a list.
use Prim.Native.Nat.{ℕ, zero, suc, ◌+◌, ◌≤◌, ◌<◌}
use mathlib.Core.Path.{◌≡◌}
use mathlib.Core.List.{List, [], ◌∷◌, ◌++◌}
use native.Mathlib.Omega.{arith}
use airspyhf.Prelude.Lists.{length, get_or, set}
use airspyhf.Prelude.Tests.{◌==◌, if◌then◌else◌}

abbrev pub count : ℕ → List ℕ → ℕ
count a [] = 0
count a (x ∷ xs) = (if x == a then 1 else 0) + count a xs

pub count-set :
    (a : ℕ) (xs : List ℕ) (i v : ℕ)
    → i < length xs
    → count a (set xs i v) + (if get_or xs i 0 == a then 1 else 0)
      ≡ count a xs + (if v == a then 1 else 0)
count-set a [] i v h = elim h [ ]
count-set a (x ∷ xs) zero v h = omega arith
count-set a (x ∷ xs) (suc i) v h = omega (arith, count-set a xs i v (omega arith))

-- A buffer that stands in a list is counted there.
pub count-get_or : (xs : List ℕ) (i : ℕ) → i < length xs → 1 ≤ count (get_or xs i 0) xs
count-get_or [] i h = elim h [ ]
count-get_or (x ∷ xs) zero h = ground arith
count-get_or (x ∷ xs) (suc i) h = omega (arith, count-get_or xs i (omega arith))

-- an element is taken out once
unfoldable pub remove : ℕ → List ℕ → List ℕ
remove a [] = []
remove a (b ∷ bs) = let rest = remove a bs in if a == b then bs else b ∷ rest

pub remove_self : (a : ℕ) (hs : List ℕ) → remove a (a ∷ hs) ≡ hs
unfolding remove
remove_self a hs = ground arith

pub count-remove :
    (a p : ℕ) (xs : List ℕ)
    → 0 < count p xs
    → count a (remove p xs) + (if p == a then 1 else 0) ≡ count a xs
unfolding remove
count-remove a p [] h = absurd (omega arith)
count-remove a p (x ∷ xs) h = ground (arith, count-remove a p xs)

-- In two lists that stand one after the other, a number stands as often as in both.
pub count-append :
    (n : ℕ) (front back : List ℕ) → count n (front ++ back) ≡ count n front + count n back
count-append n (b ∷ front) back = let later = count-append n front back in omega (arith, later)
count-append n [] back = omega arith
