-- ===== src/Float.antt =====
-- `float` as the program sees it: a 32-bit IEEE-754 pattern, as it stands in a register and on the
-- wire. What is read off the bits is defined here; the arithmetic of the processor and `std::sin`,
-- `std::cos` are a parameter with the laws that IEEE-754 and <cmath> document.
pub mod Soft
use game_x.Base.{ℕ, ◌+◌, ◌/◌, ◌%◌, ◌^◌, ◌<◌, ◌≡◌, Bool, true, false, not, ◌&&◌, ◌==◌}

abbrev pub Float : Type 0
Float = ℕ

abbrev pub zero_f : Float
zero_f = 0

abbrev pub one_f : Float
one_f = 0x3f80_0000

abbrev pub minus_one_f : Float
minus_one_f = 0xbf80_0000

unfoldable pub is_finite : Float → Bool
is_finite b = not (b / 2 ^ 23 % 256 == 255)

unfoldable pub is_nan : Float → Bool
is_nan b = b / 2 ^ 23 % 256 == 255 && not (b % 2 ^ 23 == 0)

-- +0.0 and -0.0.
unfoldable pub is_null : Float → Bool
is_null b = b % 2 ^ 31 == 0

-- Unary minus flips the sign bit.
unfoldable pub negate : Float → Float
negate b = (b + 2 ^ 31) % 2 ^ 32

pub record Fpu : Type 0 where
  pub add : Float → Float → Float
  pub mul : Float → Float → Float
  pub sin : Float → Float
  pub cos : Float → Float
  pub le : Float → Float → Bool

-- Subtraction is the addition of the negated operand.
abbrev pub sub : Fpu → Float → Float → Float
sub fpu a b = fpu.add a (negate b)

pub record IsIeee (fpu : Fpu) : Type 0 where
  pub add_fits : (a b : Float) → fpu.add a b < 2 ^ 32
  pub add_nan_left : (a b : Float) → is_nan a ≡ true → is_nan (fpu.add a b) ≡ true
  pub add_nan_right : (a b : Float) → is_nan b ≡ true → is_nan (fpu.add a b) ≡ true
  pub mul_nan_left : (a b : Float) → is_nan a ≡ true → is_nan (fpu.mul a b) ≡ true
  pub mul_nan_right : (a b : Float) → is_nan b ≡ true → is_nan (fpu.mul a b) ≡ true
  pub sin_infinite : (a : Float) → is_finite a ≡ false → is_nan (fpu.sin a) ≡ true
  pub cos_infinite : (a : Float) → is_finite a ≡ false → is_nan (fpu.cos a) ≡ true
  pub sin_finite : (a : Float) → is_finite a ≡ true → is_finite (fpu.sin a) ≡ true
  pub cos_finite : (a : Float) → is_finite a ≡ true → is_finite (fpu.cos a) ≡ true
  pub mul_null_left :
      (a b : Float) → is_null a ≡ true → is_finite b ≡ true → is_null (fpu.mul a b) ≡ true
  pub add_nulls : (a b : Float) → is_null a ≡ true → is_null b ≡ true → is_null (fpu.add a b) ≡ true
  -- A zero added to any other finite number is lost.
  pub add_null :
      (a b : Float)
      → a < 2 ^ 32
      → is_finite a ≡ true
      → is_null a ≡ false
      → is_null b ≡ true
      → fpu.add a b ≡ a
  pub sub_self : (a : Float) → is_finite a ≡ true → sub fpu a a ≡ zero_f
  pub zero_plus_one : fpu.add zero_f one_f ≡ one_f
  pub zero_minus_one : sub fpu zero_f one_f ≡ minus_one_f
  pub one_minus_one : sub fpu one_f one_f ≡ zero_f
  pub zero_plus_zero : fpu.add zero_f zero_f ≡ zero_f
  pub zero_times_zero : fpu.mul zero_f zero_f ≡ zero_f
  -- A comparison with NaN is false.
  pub le_nan_left : (a b : Float) → is_nan a ≡ true → fpu.le a b ≡ false
  pub zero_le_square : (a : Float) → is_finite a ≡ true → fpu.le zero_f (fpu.mul a a) ≡ true
