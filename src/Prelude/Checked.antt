-- ===== src/Prelude/Checked.antt =====
-- Code that may reach outside of an array: `none` is such an access, or a loop that does not end in
-- the rounds that it was given.
use Prim.Native.Nat.{ℕ, zero, suc, ◌+◌, ◌≤◌, ◌<◌}
use mathlib.Core.Path.{◌≡◌, ◌∙◌}
use mathlib.Core.Option.{Option, none, some}
use mathlib.Core.List.{List, [], ◌∷◌, ◌++◌}
use native.Mathlib.Omega.{arith}
use airspyhf.Prelude.Lists.{
  length, length-set, set, get_elem?, drop, drop-set, drop-append, length-append, length-drop,
}
use airspyhf.Prelude.Tests.{ltb, if◌then◌else◌, lt→ltb}

module _ {ℓ κ} {A : Type ℓ} {B : Type κ} where
  infixl 5 ◌>>=◌
  abbrev pub ◌>>=◌ : Option A → (A → Option B) → Option B
  none >>= k = none
  some a >>= k = k a

module _ {ℓ} {A : Type ℓ} where
  -- an access of `xs[i]`
  abbrev pub read : List A → ℕ → Option A
  read xs i = get_elem? xs i

  unfoldable pub write : List A → ℕ → A → Option (List A)
  write xs i v = if ltb i (length xs) then some (set xs i v) else none

  -- for (; left > 0; i++, left--) body(i)
  unfoldable pub for_up : (ℕ → A → Option A) → (i left : ℕ) → A → Option A
  for_up body i zero s = some s
  for_up body i (suc left) s = body i s >>= λ t. for_up body (suc i) left t

  -- The code ends, and what it ends with has the property.
  abbrev pub Ensures : (A → Type 0) → Option A → Type 0
  Ensures P none = ⊥
  Ensures P (some a) = P a

module _ {ℓ} {A : Type ℓ} where
  -- If the code ends, what it ends with has the property.
  abbrev pub Allows : (A → Type 0) → Option A → Type 0
  Allows P none = Unit {0}
  Allows P (some a) = P a

module _ {ℓ κ} {A : Type ℓ} {B : Type κ} where
  pub >>=-Allows :
      (P : A → Type 0) (Q : B → Type 0) (o : Option A) (k : A → Option B)
      → Allows P o
      → ((a : A) → P a → Allows Q (k a))
      → Allows Q (o >>= k)
  >>=-Allows P Q none k h f = tt
  >>=-Allows P Q (some a) k h f = f a h

  pub >>=-Ensures :
      (P : A → Type 0) (Q : B → Type 0) (o : Option A) (k : A → Option B)
      → Ensures P o
      → ((a : A) → P a → Ensures Q (k a))
      → Ensures Q (o >>= k)
  >>=-Ensures P Q none k h f = h
  >>=-Ensures P Q (some a) k h f = f a h

module _ {ℓ} {A : Type ℓ} where
  pub Ensures-Allows : (P : A → Type 0) (o : Option A) → Ensures P o → Allows P o
  Ensures-Allows P none h = tt
  Ensures-Allows P (some a) h = h

  pub Allows-any : (o : Option A) → Allows (λ a. Unit {0}) o
  Allows-any none = tt
  Allows-any (some a) = tt

  pub Allows-some : (P : A → Type 0) (o : Option A) {a : A} → Allows P o → o ≡ some a → P a
  Allows-some P o {a} h e = rw e at h

  pub Ensures-weaken :
      (P Q : A → Type 0) (o : Option A) → Ensures P o → ((a : A) → P a → Q a) → Ensures Q o
  Ensures-weaken P Q none h k = h
  Ensures-weaken P Q (some a) h k = k a h

  -- A loop ends with what each of its rounds keeps.
  pub for_up-Ensures :
      (P : A → Type 0) (body : ℕ → A → Option A) (i left : ℕ) (s : A)
      → P s
      → ((j : ℕ) (t : A) → i ≤ j → j < i + left → P t → Ensures P (body j t))
      → Ensures P (for_up body i left s)
  unfolding for_up
  for_up-Ensures P body i zero s start round = start
  for_up-Ensures P body i (suc left) s start round =
      >>=-Ensures P P (body i s) (for_up body (suc i) left)
        (round i s (omega arith) (omega arith) start)
        (λ t h.
          for_up-Ensures P body (suc i) left t h
            (λ j u a b k. round j u (omega arith) (omega arith) k))

module _ {ℓ} {A : Type ℓ} where
  -- A loop whose rounds lead from the property of an index to that of the next one.
  pub for_up-Ensures_next :
      (P : ℕ → A → Type 0) (body : ℕ → A → Option A) (i left : ℕ) (s : A)
      → P i s
      → ((j : ℕ) (t : A) → i ≤ j → j < i + left → P j t → Ensures (P (suc j)) (body j t))
      → Ensures (P (i + left)) (for_up body i left s)
  unfolding for_up
  for_up-Ensures_next P body i zero s start round =
      let same : i + 0 ≡ i = omega arith in rw same start
  for_up-Ensures_next P body i (suc left) s start round =
      let same : i + suc left ≡ suc i + left = omega arith in
      rw same (
        >>=-Ensures (P (suc i)) (P (suc i + left)) (body i s) (for_up body (suc i) left)
          (round i s (omega arith) (omega arith) start)
          (λ t h.
            for_up-Ensures_next P body (suc i) left t h
              (λ j u a b k. round j u (omega arith) (omega arith) k)))

module _ {ℓ} {A : Type ℓ} where
  pub read-Ensures : (xs : List A) (i : ℕ) → i < length xs → Ensures (λ a. Unit {0}) (read xs i)
  read-Ensures [] i h = absurd (omega arith)
  read-Ensures (x ∷ xs) zero h = tt
  read-Ensures (x ∷ xs) (suc i) h = read-Ensures xs i (omega arith)

  pub write-Ensures :
      (xs : List A) (i : ℕ) (v : A) {n : ℕ}
      → length xs ≡ n
      → i < n
      → Ensures (λ ys. length ys ≡ n) (write xs i v)
  unfolding write
  write-Ensures xs i v e h =
      let inside : i < length xs = omega arith in
      rw (lt→ltb i (length xs) inside) (length-set xs i v ∙ e)

module _ {A : Type 0} where
  -- a write before `count` into an array that has kept its length and its end
  pub write-Keeps :
      (now : List A) (i count : ℕ) (v : A) (dest : List A)
      → i < count
      → i < length now
      → (length now ≡ length dest) × (drop count now ≡ drop count dest)
      → Ensures
          (λ after. (length after ≡ length dest) × (drop count after ≡ drop count dest))
          (write now i v)
  unfolding write
  write-Keeps now i count v dest below inside (len, end) =
      rw (lt→ltb i (length now) inside)
        (length-set now i v ∙ len, drop-set count now i v below ∙ end)

  -- new elements in front of an array's end
  pub append-Keeps :
      (count : ℕ) (front dest : List A)
      → length front ≡ count
      → count ≤ length dest
      → (length (front ++ drop count dest) ≡ length dest)
        × (drop count (front ++ drop count dest) ≡ drop count dest)
  append-Keeps count front dest same fits = (
    omega (arith, length-append front (drop count dest), length-drop count dest, same, fits),
    drop-append count front (drop count dest) same,
  )
