-- ===== src/Fixed.antt =====
-- Numbers with twelve decimals in place of `float` and `double`: an instance of `Floats`, for the tests.
use airspyhf.Prelude.{ℕ, ◌+◌, ◌-◌, ◌*◌, ◌/◌, ◌%◌, ◌^◌, Bool, true, false, not, ◌&&◌}
use airspyhf.Prelude.Int.{ℤ, pos, negsuc, ltb_ℤ, pos_part, neg_part, sub_ℕ}
use airspyhf.Floats.{Floats}

abbrev one : ℕ
one = 10 ^ 12

-- the number of a given sign and size
abbrev signed : Bool → ℕ → ℤ
signed true n = pos n
signed false n = sub_ℕ 0 n

abbrev is_pos : ℤ → Bool
is_pos (pos n) = true
is_pos (negsuc n) = false

abbrev size : ℤ → ℕ
size z = pos_part z + neg_part z

abbrev same_sign : Bool → Bool → Bool
same_sign true b = b
same_sign false b = not b

abbrev times : ℤ → ℤ → ℤ
times a b = signed (same_sign (is_pos a) (is_pos b)) (size a * size b / one)

abbrev over : ℤ → ℤ → ℤ
over a b = signed (same_sign (is_pos a) (is_pos b)) (size a * one / size b)

abbrev nearest : ℤ → ℤ
nearest a = signed (is_pos a) ((size a + one / 2) / one * one)

abbrev whole : ℤ → ℤ
whole (pos n) = pos (n / one * one)
whole (negsuc n) = sub_ℕ 0 ((n / one + 1) * one)

abbrev literal : ℤ → ℤ → ℤ
literal m (pos e) = signed (is_pos m) (size m * 10 ^ (12 + e))
literal m (negsuc e) = signed (is_pos m) (size m * 10 ^ (11 - e))

abbrev minus : ℤ → ℤ → ℤ
minus a b = sub_ℕ (pos_part a + neg_part b) (neg_part a + pos_part b)

abbrev plus : ℤ → ℤ → ℤ
plus a b = sub_ℕ (pos_part a + pos_part b) (neg_part a + neg_part b)

abbrev pub fixed : Floats
fixed = record {
  Float = ℤ;
  Double = ℤ;
  lit = literal;
  of_int = λ n. literal n (pos 0);
  add = plus;
  sub = minus;
  mul = times;
  div = over;
  neg = λ a. minus (pos 0) a;
  round = nearest;
  floor = whole;
  cos = λ a. literal (pos 1) (pos 0);
  sin = λ a. pos 0;
  exp = λ a. literal (pos 1) (pos 0);
  pow = λ a b. literal (pos 1) (pos 0);
  fabs = λ a. pos (size a);
  lt = ltb_ℤ;
  eq = λ a b. not (ltb_ℤ a b) && not (ltb_ℤ b a);
  to_u32 = λ a. pos_part a / one % 2 ^ 32;
  to_int = λ a. signed (is_pos a) (size a / one);
  widen = λ a. a;
  narrow = λ a. a;
  of_bits = pos;
  litf = literal;
  of_intf = λ n. literal n (pos 0);
  addf = plus;
  subf = minus;
  mulf = times;
  divf = over;
  powf = λ a b. literal (pos 1) (pos 0);
  ltf = ltb_ℤ;
  gef = λ a b. not (ltb_ℤ a b);
}
