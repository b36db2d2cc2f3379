-- ===== src/Movement/Laws.antt =====
-- common/include/Movement.hpp: what a step does to a position, for every input.
use game_x.Base.{ℕ, ◌^◌, ◌<◌, ◌≡◌, refl, ◌⊎◌, inl, inr, true, false, arith, Bool-cases}
use game_x.Float.{Float, Fpu, IsIeee, is_finite, is_nan, is_null, negate, zero_f}
use game_x.Protocol.{up, down, left, right}
use game_x.Movement.{Vec2, flag_set, local_forward, local_right, apply_move_flags}

negate-is_nan : (a : Float) → is_nan a ≡ true → is_nan (negate a) ≡ true
unfolding is_nan negate
negate-is_nan a h = ground arith

negate-is_finite : (a : Float) → is_finite a ≡ true → is_finite (negate a) ≡ true
unfolding is_finite negate
negate-is_finite a h = ground arith

-- Neither key, or both keys, of an axis.
abbrev pub Balanced : ℕ → ℕ → ℕ → Type 0
Balanced flags a b = flag_set flags a ≡ flag_set flags b

-- The two numbers are equal as numbers: the same pattern, or two zeros.
abbrev pub SameNumber : Float → Float → Type 0
SameNumber a b = (a ≡ b) ⊎ ((is_null a ≡ true) × (is_null b ≡ true))

module _ {fpu : Fpu} (ieee : IsIeee fpu) where
  open ieee use {
    add_nan_left, add_nan_right, mul_nan_left, mul_nan_right, sin_infinite, cos_infinite,
    sin_finite, cos_finite, mul_null_left, add_nulls, add_null, zero_plus_one, one_minus_one,
  }

  local_forward-Balanced : (flags : ℕ) → Balanced flags up down → local_forward fpu flags ≡ zero_f
  unfolding local_forward
  local_forward-Balanced flags b = elim (Bool-cases (flag_set flags down)) [
    | inl on ↦ rw (b, on, zero_plus_one, one_minus_one)
    | inr off ↦ rw (b, off)
  ]

  local_right-Balanced : (flags : ℕ) → Balanced flags right left → local_right fpu flags ≡ zero_f
  unfolding local_right
  local_right-Balanced flags b = elim (Bool-cases (flag_set flags left)) [
    | inl on ↦ rw (b, on, zero_plus_one, one_minus_one)
    | inr off ↦ rw (b, off)
  ]

  -- Flags that hold both or neither of up and down, and agree on left and right, move a position to
  -- the same place, whatever the yaw.
  pub opposing_flags_cancel :
      (pos : Vec2) (both neither : ℕ) (delta yaw : Float)
      → Balanced both up down
      → Balanced neither up down
      → (flag_set both right ≡ flag_set neither right)
      → (flag_set both left ≡ flag_set neither left)
      → apply_move_flags fpu pos both delta yaw ≡ apply_move_flags fpu pos neither delta yaw
  unfolding apply_move_flags local_right
  opposing_flags_cancel pos both neither delta yaw b n r l =
      rw (local_forward-Balanced both b, local_forward-Balanced neither n, r, l)

  -- A zero displacement leaves a finite coordinate where it is.
  null_step :
      (p a b delta : Float)
      → p < 2 ^ 32
      → is_finite p ≡ true
      → is_finite a ≡ true
      → is_finite b ≡ true
      → is_finite delta ≡ true
      → SameNumber (fpu.add p (fpu.mul (fpu.add (fpu.mul zero_f a) (fpu.mul zero_f b)) delta)) p
  unfolding is_null
  null_step p a b delta fits fin ha hb hd =
      let nothing =
        mul_null_left _ delta
          (add_nulls _ _ (mul_null_left zero_f a refl ha) (mul_null_left zero_f b refl hb)) hd in
      elim (Bool-cases (is_null p)) [
        | inl n ↦ inr (add_nulls p _ n nothing, n)
        | inr n ↦ inl (add_null p _ fits fin n nothing)
      ]

  -- With both or neither of up and down held, and both or neither of left and right, a step of
  -- finite length and yaw leaves the numbers of a finite position as they are.
  pub Balanced-stays :
      (pos : Vec2) (flags : ℕ) (delta yaw : Float)
      → Balanced flags up down
      → Balanced flags right left
      → pos.x < 2 ^ 32
      → pos.z < 2 ^ 32
      → is_finite pos.x ≡ true
      → is_finite pos.z ≡ true
      → is_finite delta ≡ true
      → is_finite yaw ≡ true
      → let moved = apply_move_flags fpu pos flags delta yaw in
        SameNumber moved.x pos.x × SameNumber moved.z pos.z
  unfolding apply_move_flags
  Balanced-stays pos flags delta yaw v h fx fz hx hz hd hy =
      rw (local_forward-Balanced flags v, local_right-Balanced flags h)
        (
          null_step pos.x _ _ delta fx hx (sin_finite yaw hy) (cos_finite yaw hy) hd,
          null_step pos.z _ _ delta fz hz (cos_finite yaw hy)
              (negate-is_finite _ (sin_finite yaw hy)) hd,
        )

  nan_step :
      (p f a r b delta : Float)
      → is_nan a ≡ true
      → is_nan (fpu.add p (fpu.mul (fpu.add (fpu.mul f a) (fpu.mul r b)) delta)) ≡ true
  nan_step p f a r b delta h =
      add_nan_right p _ (mul_nan_left _ delta (add_nan_left _ _ (mul_nan_right f a h)))

  -- A yaw that is infinite or NaN makes both coordinates NaN, also where no key is held.
  pub infinite_yaw_poisons :
      (pos : Vec2) (flags : ℕ) (delta yaw : Float)
      → is_finite yaw ≡ false
      → let moved = apply_move_flags fpu pos flags delta yaw in
        (is_nan moved.x ≡ true) × (is_nan moved.z ≡ true)
  unfolding apply_move_flags
  infinite_yaw_poisons pos flags delta yaw h = (
    nan_step pos.x _ _ _ _ delta (sin_infinite yaw h),
    nan_step pos.z _ _ _ _ delta (cos_infinite yaw h),
  )

  -- A step from a position with NaN in both coordinates ends in one with NaN in both, whatever the
  -- flags and the yaw.
  pub nan_position_stays :
      (pos : Vec2) (flags : ℕ) (delta yaw : Float)
      → is_nan pos.x ≡ true
      → is_nan pos.z ≡ true
      → let moved = apply_move_flags fpu pos flags delta yaw in
        (is_nan moved.x ≡ true) × (is_nan moved.z ≡ true)
  unfolding apply_move_flags
  nan_position_stays pos flags delta yaw hx hz = (add_nan_left pos.x _ hx, add_nan_left pos.z _ hz)

  -- The step moves by whole patterns of 32 bits.
  pub apply_move_flags-fits :
      (pos : Vec2) (flags : ℕ) (delta yaw : Float)
      → let moved = apply_move_flags fpu pos flags delta yaw in
        (moved.x < 2 ^ 32) × (moved.z < 2 ^ 32)
  unfolding apply_move_flags
  apply_move_flags-fits pos flags delta yaw = (ieee.add_fits _ _, ieee.add_fits _ _)
