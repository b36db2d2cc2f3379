-- ===== src/Movement.antt =====
-- common/include/Movement.hpp: the movement step that the game server simulates and the client
-- predicts.
pub mod Laws
use game_x.Base.{ℕ, Bool, not, ◌==◌, bit_and, if◌then◌else◌}
use game_x.Float.{Float, Fpu, zero_f, one_f, negate, sub}
use game_x.Protocol.{up, down, left, right}

pub record Vec2 : Type 0 where
  pub x : Float
  pub z : Float

-- PLAYER_SPEED_PER_SEC, 1.28f.
abbrev pub player_speed_per_sec : Float
player_speed_per_sec = 0x3fa3_d70a

-- `moveFlags & mask` as a condition.
unfoldable pub flag_set : ℕ → ℕ → Bool
flag_set flags mask = not (bit_and flags mask == 0)

-- `localForward`: +1 forward, -1 backward.
unfoldable pub local_forward : Fpu → ℕ → Float
local_forward fpu flags =
    let forward = if flag_set flags up then fpu.add zero_f one_f else zero_f in
    if flag_set flags down then sub fpu forward one_f else forward

-- `localRight`: +1 right, -1 left.
unfoldable pub local_right : Fpu → ℕ → Float
local_right fpu flags =
    let rightward = if flag_set flags right then fpu.add zero_f one_f else zero_f in
    if flag_set flags left then sub fpu rightward one_f else rightward

unfoldable pub apply_move_flags : Fpu → Vec2 → ℕ → Float → Float → Vec2
apply_move_flags fpu pos flags delta yaw =
    let forward_x = fpu.sin yaw in
    let forward_z = fpu.cos yaw in
    let right_x = fpu.cos yaw in
    let right_z = negate (fpu.sin yaw) in
    let forward = local_forward fpu flags in
    let rightward = local_right fpu flags in
    record {
      x =
          fpu.add pos.x
            (fpu.mul (fpu.add (fpu.mul forward forward_x) (fpu.mul rightward right_x)) delta);
      z =
          fpu.add pos.z
            (fpu.mul (fpu.add (fpu.mul forward forward_z) (fpu.mul rightward right_z)) delta);
    }
