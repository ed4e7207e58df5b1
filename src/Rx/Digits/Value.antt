-- ===== src/Rx/Digits/Value.antt =====
-- The value of the text that `u64toa` of tools/src/airspyhf_rx.c writes.
use airspyhf.Prelude.{
  ℕ, zero, suc, ◌+◌, ◌-◌, ◌*◌, ◌/◌, ◌%◌, ◌^◌, ◌<◌, ◌≤◌, ◌≡◌, refl, sym, ap, ◌∙◌, false, ◌&&◌, ◌||◌,
  Option, none, some, List, [], ◌∷◌, ◌++◌, length, drop, length-append, ltb, ◌==◌, arith,
  if◌then◌else◌, Bool-cases, inl, inr,
}
use mathlib.Core.List.{append_assoc, reverse, reverse-cons}
use airspyhf.Prelude.Checked.{Ensures}
use airspyhf.Rx.Digits.{u64toa_max_digit, write_digits, u64toa}
use airspyhf.Rx.Digits.Reverse.{write-at, stringrev-reverse, AllBelow58}

-- the digits of a number, the last one first
unfoldable low_digits : (left sum : ℕ) → List ℕ
low_digits zero sum = []
low_digits (suc left) sum =
    let rest = low_digits left (sum / 10) in
    (sum % 10 + 48) ∷ (if ltb 0 (sum / 10) then rest else [])

length-low_digits : (left sum : ℕ) → length (low_digits left sum) ≤ left
unfolding low_digits
length-low_digits zero sum = omega arith
length-low_digits (suc left) sum = ground (arith, length-low_digits left (sum / 10))

low_digits-AllBelow58 : (left sum : ℕ) → AllBelow58 (low_digits left sum)
unfolding low_digits
low_digits-AllBelow58 zero sum = tt
low_digits-AllBelow58 (suc left) sum = elim (Bool-cases (ltb 0 (sum / 10))) [
  | inl more ↦ rw more (omega arith, low_digits-AllBelow58 left (sum / 10))
  | inr last ↦ rw last (omega arith, tt)
]

-- The loop writes these digits over the start of what follows `pre`.
write_digits-low_digits :
    (left sum : ℕ) (pre post : List ℕ)
    → left ≤ length post
    → sum < 10 ^ left
    → write_digits left (length pre) sum (pre ++ post)
      ≡ some (
        pre ++ (low_digits left sum ++ drop (length (low_digits left sum)) post),
        length pre + length (low_digits left sum),
        0,
      )
unfolding write_digits low_digits
write_digits-low_digits zero sum pre post room lt =
    let nothing : sum ≡ 0 = omega arith in
    let same : length pre + 0 ≡ length pre = omega arith in rw (nothing, same) refl
write_digits-low_digits (suc left) sum pre [] room lt = absurd (omega arith)
write_digits-low_digits (suc left) sum pre (x ∷ post) room lt =
    let d = sum % 10 + 48 in
    elim (Bool-cases (ltb 0 (sum / 10))) [
      | inl more ↦
          let ds = low_digits left (sum / 10) in
          let k = length ds in
          let place : suc (length pre) ≡ length (pre ++ (d ∷ [])) =
            omega (arith, length-append pre (d ∷ [])) in
          let ends : length (pre ++ (d ∷ [])) + k ≡ length pre + suc k = omega (arith, place) in
          let kept = ds ++ drop k post in
          rw (write-at pre post x d, more)
            (ap (λ i. write_digits left i (sum / 10) (pre ++ (d ∷ post))) place
              ∙ ap (write_digits left (length (pre ++ (d ∷ []))) (sum / 10))
                  (sym (append_assoc pre (d ∷ []) post))
              ∙ write_digits-low_digits left (sum / 10) (pre ++ (d ∷ [])) post (omega (arith, room))
                  (omega (arith, lt))
              ∙ ap (λ l. some (l, length (pre ++ (d ∷ [])) + k, 0)) (append_assoc pre (d ∷ []) kept)
              ∙ ap (λ n. some (pre ++ (d ∷ kept), n, 0)) ends)
      | inr last ↦
          let over : sum / 10 ≡ 0 = ground (arith, last) in
          let ends : length pre + 1 ≡ suc (length pre) = omega arith in
          rw (write-at pre post x d, last, over, ends) refl
    ]

-- The value of a decimal text that ends at a 0, read after a number: none if there is another character
-- than a digit before that, or no 0.
unfoldable pub decimal_value : ℕ → List ℕ → Option ℕ
decimal_value n [] = none
decimal_value n (c ∷ cs) =
    let rest = decimal_value (n * 10 + (c - 48)) cs in
    if c == 0 then some n else if ltb c 48 || ltb 57 c then none else rest

decimal_value-digit :
    (n d : ℕ) (cs : List ℕ)
    → d < 10
    → decimal_value n ((d + 48) ∷ cs) ≡ decimal_value (n * 10 + d) cs
unfolding decimal_value
decimal_value-digit n d cs h =
    let digit : d + 48 - 48 ≡ d = omega arith in
    let not_end : (d + 48 == 0) ≡ false = ground arith in
    let inside : (ltb (d + 48) 48 || ltb 57 (d + 48)) ≡ false = ground arith in
    rw (digit, not_end, inside) refl

decimal_value-low_digits :
    (left sum : ℕ) (rest : List ℕ)
    → sum < 10 ^ left
    → decimal_value 0 (reverse (low_digits left sum) ++ rest) ≡ decimal_value sum rest
unfolding low_digits
decimal_value-low_digits zero sum rest lt = let nothing : sum ≡ 0 = omega arith in rw nothing refl
decimal_value-low_digits (suc left) sum rest lt =
    let d = sum % 10 + 48 in
    let together : sum / 10 * 10 + sum % 10 ≡ sum = omega arith in
    elim (Bool-cases (ltb 0 (sum / 10))) [
      | inl more ↦
          let ds = low_digits left (sum / 10) in
          rw more (
            ap (λ l. decimal_value 0 (l ++ rest)) (reverse-cons d ds)
            ∙ ap (decimal_value 0) (append_assoc (reverse ds) (d ∷ []) rest)
            ∙ decimal_value-low_digits left (sum / 10) (d ∷ rest) (omega (arith, lt))
            ∙ decimal_value-digit (sum / 10) (sum % 10) rest (omega arith)
            ∙ ap (λ n. decimal_value n rest) together)
      | inr last ↦
          let small : 0 * 10 + sum % 10 ≡ sum = ground (arith, last) in
          rw last (
            decimal_value-digit 0 (sum % 10) rest (omega arith)
            ∙ ap (λ n. decimal_value n rest) small)
    ]

drop_cons : (k : ℕ) (xs : List ℕ) → k < length xs → (y : ℕ) × (ys : List ℕ) × (drop k xs ≡ y ∷ ys)
drop_cons zero [] h = absurd (omega arith)
drop_cons zero (x ∷ xs) h = (x, xs, refl)
drop_cons (suc k) [] h = absurd (omega arith)
drop_cons (suc k) (x ∷ xs) h = drop_cons k xs (omega arith)

-- not null, and a text of that value
abbrev pub IsTextOf : ℕ → Option (List ℕ) → Type 0
IsTextOf v none = ⊥
IsTextOf v (some str) = decimal_value 0 str ≡ some v

-- For every 64-bit number and whatever stood in the array of 32 bytes, `u64toa` comes to an end with no
-- access outside of the array, does not return null, and leaves a text of decimal digits that ends at a
-- 0 and has the number's value.
pub u64toa-IsTextOf :
    (v : ℕ) (str : List ℕ)
    → v < 2 ^ 64
    → length str ≡ u64toa_max_digit + 1
    → Ensures (IsTextOf v) (u64toa v str)
unfolding u64toa decimal_value
u64toa-IsTextOf v str fits len =
    let ds = low_digits u64toa_max_digit v in
    let few = length-low_digits u64toa_max_digit v in
    let small : v < 10 ^ u64toa_max_digit = omega (arith, fits) in
    let (y, tail, left) = drop_cons (length ds) str (omega (arith, few, len)) in
    let written = write_digits-low_digits u64toa_max_digit v [] str (omega (arith, len)) small in
    let start : 0 + length ds ≡ length ds = omega arith in
    let goes_on : (length ds == u64toa_max_digit && ltb 0 0) ≡ false = ground arith in
    rw
      (
        written,
        start,
        left,
        goes_on,
        write-at ds tail y 0,
        stringrev-reverse ds (0 ∷ tail) (low_digits-AllBelow58 u64toa_max_digit v),
      )
      (decimal_value-low_digits u64toa_max_digit v (0 ∷ tail) small)
