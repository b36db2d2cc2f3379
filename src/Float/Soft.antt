-- ===== src/Float/Soft.antt =====
-- A small arithmetic on bit patterns that meets the laws of `IsIeee`: sums and products of two
-- ordinary numbers are coarse, while zeros, infinities and NaN behave as the standard says.
use game_x.Base.{
  ℕ, ◌+◌, ◌-◌, ◌%◌, ◌^◌, ◌<◌, ◌≡◌, refl, Bool, true, false, not, ◌&&◌, ◌||◌, ◌==◌, ltb, leb,
  if◌then◌else◌, arith,
}
use game_x.Float.{Float, Fpu, IsIeee, is_finite, is_nan, is_null, negate, one_f}

abbrev quiet_nan : Float
quiet_nan = 0x7fc0_0000

abbrev infinity : Float
infinity = 0x7f80_0000

unfoldable pub soft_add : Float → Float → Float
soft_add a b =
    if is_nan a || is_nan b
    then quiet_nan
    else if not (is_finite a)
    then (if is_finite b || a == b then a % 2 ^ 32 else quiet_nan)
    else if not (is_finite b)
    then b % 2 ^ 32
    else if is_null b
    then (if is_null a then 0 else a % 2 ^ 32)
    else if is_null a
    then b % 2 ^ 32
    else if a % 2 ^ 32 == negate b
    then 0
    else a % 2 ^ 32

unfoldable pub soft_mul : Float → Float → Float
soft_mul a b =
    if is_nan a || is_nan b
    then quiet_nan
    else if not (is_finite a && is_finite b)
    then (if is_null a || is_null b then quiet_nan else infinity)
    else if is_null a || is_null b
    then 0
    else one_f

unfoldable pub soft_sin : Float → Float
soft_sin a = if is_finite a then 0 else quiet_nan

unfoldable pub soft_cos : Float → Float
soft_cos a = if is_finite a then one_f else quiet_nan

-- The order of the patterns: magnitude by sign.
abbrev rank : Float → ℕ
rank b = let c = b % 2 ^ 32 in if ltb c (2 ^ 31) then 2 ^ 31 + c else 2 ^ 32 - c

unfoldable pub soft_le : Float → Float → Bool
soft_le a b = not (is_nan a || is_nan b) && leb (rank a) (rank b)

abbrev pub soft : Fpu
soft = record { add = soft_add; mul = soft_mul; sin = soft_sin; cos = soft_cos; le = soft_le }

nan-not_finite : (a : Float) → is_nan a ≡ true → is_finite a ≡ false
unfolding is_nan is_finite
nan-not_finite a h = ground arith

finite_not_nan : (a : Float) → is_finite a ≡ true → is_nan a ≡ false
unfolding is_nan is_finite
finite_not_nan a h = ground arith

null_finite : (a : Float) → is_null a ≡ true → is_finite a ≡ true
unfolding is_null is_finite
null_finite a h = ground arith

negate_finite : (a : Float) → is_finite a ≡ true → is_finite (negate a) ≡ true
unfolding negate is_finite
negate_finite a h = ground arith

soft_add-lt : (a b : Float) → soft_add a b < 2 ^ 32
unfolding soft_add
soft_add-lt a b = ground arith

soft_add_other :
    (a b : Float)
    → a < 2 ^ 32
    → is_finite a ≡ true
    → is_null a ≡ false
    → is_null b ≡ true
    → soft_add a b ≡ a
unfolding soft_add is_null is_finite
soft_add_other a b fits fin h n =
    let ra = finite_not_nan a fin in
    let fb = null_finite b n in let rb = finite_not_nan b fb in ground arith

soft_add_self : (a : Float) → is_finite a ≡ true → soft_add a (negate a) ≡ 0
unfolding soft_add is_finite is_null negate
soft_add_self a h =
    let number = finite_not_nan a h in
    let flipped = negate_finite a h in
    let number' = finite_not_nan (negate a) flipped in ground (arith, h)

pub soft-IsIeee : IsIeee soft
unfolding soft_add soft_mul soft_sin soft_cos soft_le is_finite is_null is_nan negate
soft-IsIeee = record {
  add_fits = soft_add-lt;
  add_nan_left = λ a b h. ground arith;
  add_nan_right = λ a b h. ground arith;
  mul_nan_left = λ a b h. ground arith;
  mul_nan_right = λ a b h. ground arith;
  sin_infinite = λ a h. rw h;
  cos_infinite = λ a h. rw h;
  sin_finite = λ a h. rw h;
  cos_finite = λ a h. rw h;
  mul_null_left = λ a b h k. ground arith;
  add_nulls = λ a b h k. ground arith;
  add_null = soft_add_other;
  sub_self = soft_add_self;
  zero_plus_one = refl;
  zero_minus_one = refl;
  one_minus_one = refl;
  zero_plus_zero = refl;
  zero_times_zero = refl;
  le_nan_left = λ a b h. ground arith;
  zero_le_square = λ a h. ground arith;
}
