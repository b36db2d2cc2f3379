-- ===== src/Client/Logic/Tick.antt =====
-- client/src/main.cpp: the second half of a tick of the logic thread: the prediction of the own
-- player, the snapshot for the renderer and the report of the intent.
use game_x.Base.{
  ℕ, ◌<◌, ◌≡◌, Bool, true, false, List, [], ◌∷◌, ◌++◌, Option, none, some, arith, if◌then◌else◌,
  bit_or,
}
use game_x.Float.{Float, Fpu}
use game_x.Ecs.{Registry}
use game_x.Protocol.{up, down, left, right, MsgPlayerMove}
use game_x.Movement.{player_speed_per_sec, flag_set, apply_move_flags}
use game_x.Client.Logic.{Transform, Tracked, Logic, set_transform}

-- What the logic thread reads off the renderer.
pub record Controls : Type 0 where
  pub camera_yaw : Float
  pub moving_left : Bool
  pub moving_right : Bool
  pub moving_up : Bool
  pub moving_down : Bool

abbrev pub add_flag : Bool → ℕ → ℕ → ℕ
add_flag pressed mask flags = if pressed then bit_or flags mask else flags

unfoldable pub move_flags_of : Controls → ℕ
move_flags_of c =
    add_flag c.moving_down down
      (add_flag c.moving_up up (add_flag c.moving_right right (add_flag c.moving_left left 0)))

-- TICK_TIME in seconds, 0.015625f.
abbrev pub tick_time_sec : Float
tick_time_sec = 0x3c80_0000

-- `clientDelta`.
abbrev pub client_delta : Fpu → Float
client_delta fpu = fpu.mul player_speed_per_sec tick_time_sec

unfoldable pub predict : Fpu → Controls → Transform → Transform
predict fpu c t =
    let predicted =
      apply_move_flags fpu (record { x = t.x; z = t.z }) (move_flags_of c) (client_delta fpu)
        c.camera_yaw in
    record { x = predicted.x; y = t.y; z = predicted.z; yaw = c.camera_yaw }

pub record PlayerRenderState : Type 0 where
  pub character_id : ℕ
  pub x : Float
  pub y : Float
  pub z : Float
  pub is_local : Bool

abbrev pub shown : ℕ → Bool → Transform → PlayerRenderState
shown id is_local t = record { character_id = id; x = t.x; y = t.y; z = t.z; is_local = is_local }

abbrev pub shown_at : ℕ → Option Transform → List PlayerRenderState
shown_at id none = []
shown_at id (some t) = shown id false t ∷ []

-- An entity that is not valid is left out.
abbrev pub shown_remote : ℕ → Option Tracked → List PlayerRenderState
shown_remote id none = []
shown_remote id (some c) = shown_at id c.transform

-- What a tick publishes and reports.
pub record Report : Type 0 where
  pub players : List PlayerRenderState
  pub intent : MsgPlayerMove

module _ (r : Registry Tracked) where
  unfoldable pub remote_snapshot : r.World → List (ℕ × r.Entity) → List PlayerRenderState
  remote_snapshot w [] = []
  remote_snapshot w ((id, e) ∷ rest) = shown_remote id (r.get w e) ++ remote_snapshot w rest

  abbrev pub tick_with :
      Fpu → Controls → Logic r → r.Entity → Option Transform → Logic r × Option Report
  tick_with fpu c st e none = (st, none)
  tick_with fpu c st e (some t) =
      let t' = predict fpu c t in
      let w = r.modify st.client_registry e (set_transform t') in
      (
        record st { client_registry = w },
        some (record {
          players = shown st.local_character_id true t' ∷ remote_snapshot w st.remote_players;
          intent = record { move_flags = move_flags_of c; yaw = c.camera_yaw };
        }),
      )

  abbrev pub tick_at :
      Fpu → Controls → Logic r → r.Entity → Option Tracked → Logic r × Option Report
  tick_at fpu c st e none = (st, none)
  tick_at fpu c st e (some entity) = tick_with fpu c st e entity.transform

  abbrev pub tick_local : Fpu → Controls → Logic r → Option (r.Entity) → Logic r × Option Report
  tick_local fpu c st none = (st, none)
  tick_local fpu c st (some e) = tick_at fpu c st e (r.get st.client_registry e)

  -- Nothing is predicted or sent outside of the world, or without a valid entity of one's own.
  unfoldable pub logic_tick : Fpu → Controls → Logic r → Logic r × Option Report
  logic_tick fpu c st = if st.in_world then tick_local fpu c st st.local_player else (st, none)

-- The flags of an intent say of each of the four keys whether it is held, and fit a byte.
pub move_flags_of-flag_set :
    (c : Controls)
    → (flag_set (move_flags_of c) up ≡ c.moving_up)
      × (flag_set (move_flags_of c) down ≡ c.moving_down)
      × (flag_set (move_flags_of c) left ≡ c.moving_left)
      × (flag_set (move_flags_of c) right ≡ c.moving_right)
      × (move_flags_of c < 256)
unfolding flag_set move_flags_of
move_flags_of-flag_set c = (ground arith, ground arith, ground arith, ground arith, ground arith)
