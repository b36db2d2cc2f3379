-- ===== src/Examples/Fixture.antt =====
-- The database, the packets and the history that the examples run on.
use game_x.Base.{List, [], ◌∷◌, ◌++◌, Option, none, some, true, replicate}
use game_x.Base.Bytes.{Bytes}
use game_x.Base.Int.{pos}
use game_x.Float.Soft.{soft}
use game_x.Ecs.Slots.{slots}
use game_x.Ecs.{IsRegistry}
use game_x.Ecs.Slots.{slots-IsRegistry}
use game_x.Database.Tables.{tables, Tables}
use game_x.Protocol.{opcode, Opcode}
use game_x.Protocol.Codec.{put_header}
use game_x.Game.{Components, Platform, Server, Session, SessionState, Output}
use game_x.Game.Step.{Event, start}

abbrev pub platform : Platform
platform = record { fpu = soft; registry = slots Components; db = tables }

abbrev pub registry_laws : IsRegistry platform.registry
registry_laws = slots-IsRegistry

-- "bob".
abbrev pub bob : Bytes
bob = 98 ∷ 111 ∷ 98 ∷ []

abbrev pub token : Bytes
token = replicate 32 97

abbrev pub accounts_and_token : Tables
accounts_and_token = record {
  now = 100;
  accounts = record { id = pos 7; username = bob; password_hash = [] } ∷ [];
  sessions = record { token = token; account_id = pos 7; expires_at = 400 } ∷ [];
  characters = [];
  next_character = 1;
}

unfoldable pub database : platform.db.State
unfolding tables
database = accounts_and_token

abbrev pub auth_session : Session platform
auth_session = record {
  state = SessionState.waiting_for_auth;
  entity = none;
  header = record { size = 36; opcode = opcode Opcode.cmsg_game_auth };
  payload = token;
  is_open = true;
}

-- A client connects, enters the world, is simulated for a tick, and goes.
abbrev pub visit : List Event
visit =
    Event.accepted
    ∷ Event.received 0 (put_header auth_session.header ++ token)
    ∷ Event.tick
    ∷ Event.dropped 0
    ∷ Event.run_posted
    ∷ []

abbrev pub server_of : Option (Server platform × List Output) → Server platform
server_of none = start platform database
server_of (some r) = r.0

abbrev pub output_of : Option (Server platform × List Output) → List Output
output_of none = []
output_of (some r) = r.1
