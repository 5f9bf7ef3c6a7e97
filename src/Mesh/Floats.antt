-- ===== src/Mesh/Floats.antt =====
-- IEEE arithmetic and the C math library, which the firmware uses for signal strength, positions
-- and geometry: types and operations that the definitions take as an interface. No law is assumed.
-- An `int8_t` or `int32_t` is given by its bit pattern.
use open_apex.Base.{ℕ, Bool}

pub record Floats : Type 1 where
  pub Float : Type 0
  pub Double : Type 0
  -- The `float` nearest to n / 10 ^ k.
  pub float_lit : ℕ → ℕ → Float
  pub float_of_i8 : ℕ → Float
  pub float_of_u32 : ℕ → Float
  pub float_of_double : Double → Float
  pub float_neg : Float → Float
  pub float_add : Float → Float → Float
  pub float_sub : Float → Float → Float
  pub float_mul : Float → Float → Float
  pub float_div : Float → Float → Float
  pub float_lt : Float → Float → Bool
  pub float_le : Float → Float → Bool
  pub expf : Float → Float
  pub hypotf : Float → Float → Float
  -- The `double` nearest to n / 10 ^ k.
  pub double_lit : ℕ → ℕ → Double
  pub double_of_i32 : ℕ → Double
  pub double_of_u32 : ℕ → Double
  pub double_of_float : Float → Double
  -- Truncation to `int32_t`.
  pub i32_of_double : Double → ℕ
  pub double_neg : Double → Double
  pub double_add : Double → Double → Double
  pub double_sub : Double → Double → Double
  pub double_mul : Double → Double → Double
  pub double_div : Double → Double → Double
  pub double_lt : Double → Double → Bool
  pub double_le : Double → Double → Bool
  pub cos : Double → Double
  pub atan2 : Double → Double → Double
