-- ===== src/Floats.antt =====
-- The floating point arithmetic of the compiler and of libm, which the repository only calls. The
-- two formats are abstract types, and every rounded operation is an argument of the model.
use airspyhf.Prelude.{ℕ, Bool}
use airspyhf.Prelude.Int.{ℤ}

pub record Floats : Type 1 where
  pub Float : Type 0
  pub Double : Type 0
  -- `lit m e` is the literal m · 10^e
  pub lit : ℤ → ℤ → Double
  pub of_int : ℤ → Double
  pub add : Double → Double → Double
  pub sub : Double → Double → Double
  pub mul : Double → Double → Double
  pub div : Double → Double → Double
  pub neg : Double → Double
  pub round : Double → Double
  pub floor : Double → Double
  pub cos : Double → Double
  pub sin : Double → Double
  pub exp : Double → Double
  pub pow : Double → Double → Double
  pub fabs : Double → Double
  -- `x < y` of doubles
  pub lt : Double → Double → Bool
  -- `x == y`
  pub eq : Double → Double → Bool
  -- the casts to `uint32_t` and to `int`
  pub to_u32 : Double → ℕ
  pub to_int : Double → ℤ
  pub widen : Float → Double
  pub narrow : Double → Float
  -- the float with that bit pattern
  pub of_bits : ℕ → Float
  pub litf : ℤ → ℤ → Float
  pub of_intf : ℤ → Float
  pub addf : Float → Float → Float
  pub subf : Float → Float → Float
  pub mulf : Float → Float → Float
  pub divf : Float → Float → Float
  pub powf : Float → Float → Float
  -- `x < y` and `x >= y`
  pub ltf : Float → Float → Bool
  pub gef : Float → Float → Bool
