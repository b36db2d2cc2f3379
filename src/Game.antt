-- ===== src/Game.antt =====
-- server/game/src/main.cpp: the state of the game server. Handlers run one at a time on the game
-- strand; each is a function of this state that gives the new state and the writes it starts.
pub mod World
pub mod Packets
pub mod Framing
pub mod Broadcast
pub mod Auth
pub mod Process
pub mod Step
use game_x.Base.{ℕ, List, Bool, Option, none, ◌==◌, if◌then◌else◌}
use game_x.Base.Bytes.{Bytes}
use game_x.Base.Int.{ℤ}
use game_x.Float.{Float, Fpu}
use game_x.Ecs.{Registry}
use game_x.Database.{Database}
use game_x.Protocol.{PacketHeader}

pub record Position : Type 0 where
  pub x : Float
  pub y : Float
  pub z : Float
  pub yaw : Float

pub record PlayerData : Type 0 where
  pub name : Bytes
  pub character_id : ℤ

pub record PlayerInput : Type 0 where
  pub move_flags : ℕ
  pub yaw : Float

-- The components of one entity of `world`.
pub record Components : Type 0 where
  pub data_of : Option PlayerData
  pub position : Option Position
  pub input : Option PlayerInput

abbrev pub no_components : Components
no_components = record { data_of = none; position = none; input = none }

-- SAY_RANGE, 15.0f, and YELL_RANGE, 60.0f.
abbrev pub say_range : Float
say_range = 0x4170_0000

abbrev pub yell_range : Float
yell_range = 0x4270_0000

-- TICK_DT_SEC, 0.05f.
abbrev pub tick_dt_sec : Float
tick_dt_sec = 0x3d4c_cccd

abbrev pub autosave_interval_ticks : ℕ
autosave_interval_ticks = 600

-- What the server runs on and does not implement.
pub record Platform : Type 1 where
  pub fpu : Fpu
  pub registry : Registry Components
  pub db : Database

pub data SessionState : Type 0 where
  waiting_for_auth authenticated disconnected : SessionState

-- A `PlayerSession`. `entity` is `entity_id_`, or `none` while `has_entity_` is false.
pub record Session (p : Platform) : Type 0 where
  pub state : SessionState
  pub entity : Option (p.registry.Entity)
  pub header : PacketHeader
  pub payload : Bytes
  pub is_open : Bool

-- The effects of a handler on sockets. The callback of a `write` does nothing; that of
-- `write_then_close` closes the socket, and that of `write_or_close` does so on an error.
pub data Output : Type 0 where
  write : ℕ → Bytes → Output
  write_then_close : ℕ → Bytes → Output
  write_or_close : ℕ → Bytes → Output
  close : ℕ → Output

-- Sessions are numbered in the order of their connection. `live` is the sessions whose object
-- exists, so that `lock()` on a weak pointer is a look-up; `posted` is the entities whose clean-up
-- a destructor has posted to the strand and that has not run yet.
pub record Server (p : Platform) : Type 0 where
  pub world : p.registry.World
  pub database : p.db.State
  pub sessions : List ℕ
  pub live : ℕ → Option (Session p)
  pub next_session : ℕ
  pub posted : List (p.registry.Entity)
  pub tick_count : ℕ

abbrev pub put_session :
    {p : Platform} → (ℕ → Option (Session p)) → ℕ → Option (Session p) → ℕ → Option (Session p)
put_session live id s k = if k == id then s else live k
