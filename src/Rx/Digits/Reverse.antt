-- ===== src/Rx/Digits/Reverse.antt =====
-- `stringrev` of tools/src/airspyhf_rx.c, with its exchange of two bytes by exclusive or.
use airspyhf.Prelude.{
  ℕ, zero, suc, ◌+◌, ◌-◌, ◌/◌, ◌<◌, ◌≡◌, refl, sym, ap, ◌∙◌, Bool, true, ◌&&◌, some, List, [], ◌∷◌,
  ◌++◌, length, length-append, set, ltb, ◌==◌, arith,
}
use Prim.Native.Nat.{bit_xor}
use mathlib.Core.List.{append_assoc, reverse, reverse-cons, reverse-append}
use airspyhf.Prelude.Checked.{◌>>=◌, read, write, for_up}
use airspyhf.Rx.Digits.{swap_bytes, stringrev}

-- Over a small range, a test is made at every number.
all_below : ℕ → (ℕ → Bool) → Bool
all_below zero p = true
all_below (suc n) p = p n && all_below n p

all_below_lem : (n : ℕ) (p : ℕ → Bool) (x : ℕ) → all_below n p ≡ true → x < n → p x ≡ true
unfolding all_below
all_below_lem zero p x h lt = absurd (omega arith)
all_below_lem (suc n) p x h lt = ground (arith, all_below_lem n p x)

abbrev xor_test : ℕ → ℕ → Bool
xor_test a b = bit_xor b (bit_xor a b) == a && bit_xor (bit_xor a b) a == b

xor_table : all_below 58 (λ a. all_below 58 (xor_test a)) ≡ true
unfolding all_below
xor_table = refl

xor_back :
    (a b : ℕ) → a < 58 → b < 58 → (bit_xor b (bit_xor a b) ≡ a) × (bit_xor (bit_xor a b) a ≡ b)
xor_back a b ha hb =
    let both : xor_test a b ≡ true =
      all_below_lem 58 (xor_test a) b
        (all_below_lem 58 (λ x. all_below 58 (xor_test x)) a xor_table ha) hb in
    ground arith

read-at : {A : Type 0} (pre post : List A) (x : A) → read (pre ++ (x ∷ post)) (length pre) ≡ some x
read-at [] post x = refl
read-at (y ∷ pre) post x = read-at pre post x

set-at :
    {A : Type 0} (pre post : List A) (x y : A)
    → set (pre ++ (x ∷ post)) (length pre) y ≡ pre ++ (y ∷ post)
set-at [] post x y = refl
set-at (z ∷ pre) post x y = ap (λ l. z ∷ l) (set-at pre post x y)

pub write-at :
    {A : Type 0} (pre post : List A) (x y : A)
    → write (pre ++ (x ∷ post)) (length pre) y ≡ some (pre ++ (y ∷ post))
unfolding write
write-at pre post x y =
    let there : ltb (length pre) (length (pre ++ (x ∷ post))) ≡ true =
      ground (arith, length-append pre (x ∷ post)) in
    rw (there, set-at pre post x y) refl

-- The same at a place further on.
regroup :
    {A : Type 0} (pre mid post : List A) (a : A)
    → pre ++ (a ∷ (mid ++ post)) ≡ (pre ++ (a ∷ mid)) ++ post
regroup pre mid post a = sym (append_assoc pre (a ∷ mid) post)

read-far :
    {A : Type 0} (pre mid post : List A) (a b : A) (p : ℕ)
    → p ≡ length pre + suc (length mid)
    → read (pre ++ (a ∷ (mid ++ (b ∷ post)))) p ≡ some b
read-far pre mid post a b p h =
    let place : p ≡ length (pre ++ (a ∷ mid)) = h ∙ sym (length-append pre (a ∷ mid)) in
    rw (regroup pre mid (b ∷ post) a, place) (read-at (pre ++ (a ∷ mid)) post b)

write-far :
    {A : Type 0} (pre mid post : List A) (a b c : A) (p : ℕ)
    → p ≡ length pre + suc (length mid)
    → write (pre ++ (a ∷ (mid ++ (b ∷ post)))) p c ≡ some (pre ++ (a ∷ (mid ++ (c ∷ post))))
write-far pre mid post a b c p h =
    let place : p ≡ length (pre ++ (a ∷ mid)) = h ∙ sym (length-append pre (a ∷ mid)) in
    rw (regroup pre mid (b ∷ post) a, regroup pre mid (c ∷ post) a, place)
      (write-at (pre ++ (a ∷ mid)) post b c)

-- The three assignments exchange two bytes that are characters of digits.
swap_bytes_lem :
    (pre mid post : List ℕ) (a b p : ℕ)
    → a < 58
    → b < 58
    → p ≡ length pre + suc (length mid)
    → swap_bytes (pre ++ (a ∷ (mid ++ (b ∷ post)))) (length pre) p
      ≡ some (pre ++ (b ∷ (mid ++ (a ∷ post))))
unfolding swap_bytes
swap_bytes_lem pre mid post a b p ha hb h =
    let (back, forth) = xor_back a b ha hb in
    rw
      (
        read-at pre (mid ++ (b ∷ post)) a,
        read-far pre mid post a b p h,
        back,
        forth,
        write-at pre (mid ++ (b ∷ post)) a (bit_xor a b),
        write-far pre mid post (bit_xor a b) b a p h,
        write-at pre (mid ++ (a ∷ post)) (bit_xor a b) b,
      )
      refl

reverse-snoc : {A : Type 0} (xs : List A) (x : A) → reverse (xs ++ (x ∷ [])) ≡ x ∷ reverse xs
reverse-snoc xs x = reverse-append xs (x ∷ [])

-- A list that is not empty has a last element.
snoc_view : {A : Type 0} (x : A) (xs : List A) → (ys : List A) × (y : A) × (x ∷ xs ≡ ys ++ (y ∷ []))
snoc_view x [] = ([], x, refl)
snoc_view x (z ∷ xs) = let (ys, y, e) = snoc_view z xs in (x ∷ ys, y, ap (λ l. x ∷ l) e)

abbrev pub AllBelow58 : List ℕ → Type 0
AllBelow58 [] = Unit {0}
AllBelow58 (c ∷ cs) = (c < 58) × AllBelow58 cs

AllBelow58-append : (xs ys : List ℕ) → AllBelow58 (xs ++ ys) → AllBelow58 xs × AllBelow58 ys
AllBelow58-append [] ys h = (tt, h)
AllBelow58-append (x ∷ xs) ys (h, hs) =
    let (left, right) = AllBelow58-append xs ys hs in ((h, left), right)

AllBelow58-snoc :
    (zs ys : List ℕ) (b : ℕ) → zs ≡ ys ++ (b ∷ []) → AllBelow58 zs → AllBelow58 ys × (b < 58)
AllBelow58-snoc zs ys b e h =
    let (left, (last, _)) = AllBelow58-append ys (b ∷ []) (rw e at h) in (left, last)

-- The rounds of `stringrev` from the place `length pre` on turn the middle part around.
rounds-reverse :
    (n strlen : ℕ) (pre mid post : List ℕ)
    → AllBelow58 mid
    → n ≡ length mid / 2
    → strlen ≡ length pre + length pre + length mid
    → for_up (λ i s. swap_bytes s i (strlen - 1 - i)) (length pre) n (pre ++ (mid ++ post))
      ≡ some (pre ++ (reverse mid ++ post))
unfolding for_up
rounds-reverse zero strlen pre [] post chars e total = refl
rounds-reverse zero strlen pre (a ∷ []) post chars e total = refl
rounds-reverse zero strlen pre (a ∷ b ∷ mid) post chars e total = absurd (omega arith)
rounds-reverse (suc n) strlen pre [] post chars e total = absurd (omega arith)
rounds-reverse (suc n) strlen pre (a ∷ []) post chars e total = absurd (omega arith)
rounds-reverse (suc n) strlen pre (a ∷ c ∷ mid) post (ha, hs) e total =
    let (ys, b, split) = snoc_view c mid in
    let count : suc (length mid) ≡ length ys + 1 = ap length split ∙ length-append ys (b ∷ []) in
    let (hys, hb) = AllBelow58-snoc (c ∷ mid) ys b split hs in
    let swapped =
      swap_bytes_lem pre ys post a b (strlen - 1 - length pre) ha hb
        (omega (arith, total, count)) in
    let next =
      rounds-reverse n strlen (pre ++ (b ∷ [])) ys (a ∷ post) hys (omega (arith, e, count))
        (omega (arith, total, count, length-append pre (b ∷ []))) in
    let body = λ (i : ℕ) (s : List ℕ). swap_bytes s i (strlen - 1 - i) in
    let start : pre ++ ((a ∷ c ∷ mid) ++ post) ≡ pre ++ (a ∷ (ys ++ (b ∷ post))) =
      ap (λ l. pre ++ (a ∷ l)) (ap (λ l. l ++ post) split ∙ append_assoc ys (b ∷ []) post) in
    let turned : b ∷ (reverse ys ++ (a ∷ post)) ≡ reverse (a ∷ c ∷ mid) ++ post = sym (
      ap (λ l. l ++ post) (reverse-cons a (c ∷ mid))
      ∙ ap (λ l. (l ++ (a ∷ [])) ++ post) (ap reverse split ∙ reverse-snoc ys b)
      ∙ append_assoc (b ∷ reverse ys) (a ∷ []) post) in
    let place : suc (length pre) ≡ length (pre ++ (b ∷ [])) =
      omega (arith, length-append pre (b ∷ [])) in
    ap (for_up body (length pre) (suc n)) start
    ∙ ap (λ o. o >>= λ t. for_up body (suc (length pre)) n t) swapped
    ∙ ap (λ k. for_up body k n (pre ++ (b ∷ (ys ++ (a ∷ post))))) place
    ∙ ap (for_up body (length (pre ++ (b ∷ []))) n)
        (sym (append_assoc pre (b ∷ []) (ys ++ (a ∷ post))))
    ∙ next
    ∙ ap some (append_assoc pre (b ∷ []) (reverse ys ++ (a ∷ post)) ∙ ap (λ l. pre ++ l) turned)

-- `stringrev` turns a text of digits around, and leaves what follows it.
pub stringrev-reverse :
    (str post : List ℕ)
    → AllBelow58 str
    → stringrev (length str) (str ++ post) ≡ some (reverse str ++ post)
unfolding stringrev
stringrev-reverse str post chars =
    rounds-reverse (length str / 2) (length str) [] str post chars refl (omega arith)
