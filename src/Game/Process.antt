-- ===== src/Game/Process.antt =====
-- server/game/src/main.cpp: `process_packet`, one received packet of one session. `none` is
-- undefined behaviour: a read outside of the payload.
pub mod Faults
use game_x.Base.{
  ℕ, ◌==◌, Bool, true, false, List, [], ◌∷◌, Option, none, some, is_some, ◌>>=◌, if◌then◌else◌, ltb,
  length, take, drop,
}
use game_x.Base.Bytes.{Bytes}
use game_x.Protocol.{Opcode, opcode, MsgPlayerMove, max_chat_message_len}
use game_x.Protocol.Size
use game_x.Protocol.Text.{c_string}
use game_x.Protocol.Codec.{get_player_move, get_chat_send}
use game_x.Game.{
  PlayerData, Position, PlayerInput, Components, Platform, Session, SessionState, Server, Output,
}
use game_x.Game.Packets.{pong_packet}
use game_x.Game.Broadcast.{entity_of, broadcast_chat}
use game_x.Game.Auth.{close_session, handle_auth}

abbrev pub is_waiting : SessionState → Bool
is_waiting SessionState.waiting_for_auth = true
is_waiting _ = false

abbrev pub set_input : MsgPlayerMove → Components → Components
set_input m c = record c { input = some (record { move_flags = m.move_flags; yaw = m.yaw }) }

-- The text after the struct, cut to its greatest length.
unfoldable pub chat_text : Bytes → Bytes
chat_text payload = take max_chat_message_len (drop Size.chat_send payload)

module _ {p : Platform} where
  abbrev pub put_input : Server p → MsgPlayerMove → p.registry.Entity → Option Components → Server p
  put_input st m e none = st
  put_input st m e (some c) = record st { world = p.registry.modify st.world e (set_input m) }

  abbrev pub put_input_of : Server p → MsgPlayerMove → Option (p.registry.Entity) → Server p
  put_input_of st m none = st
  put_input_of st m (some e) = put_input st m e (p.registry.get st.world e)

  -- CMSG_PLAYER_MOVE: the intent is recorded for the next tick.
  unfoldable pub handle_move : Server p → Session p → Server p × List Output
  handle_move st s =
      if ltb (length s.payload) Size.player_move
      then (st, [])
      else (put_input_of st (get_player_move s.payload) s.entity, [])

  abbrev pub say_as :
      Server p → Session p → Option PlayerData → Option Position → Option (Server p × List Output)
  say_as st s (some player) (some pos) = do
    target ← c_string (drop 1 s.payload)
    let (sessions, out) =
        broadcast_chat p st.world st.live (get_chat_send s.payload).channel player.name pos.x pos.z
          target (chat_text s.payload) st.sessions
    some (record st { sessions = sessions }, out)
  say_as st s _ _ = none

  abbrev pub chat_of : Server p → Session p → Option Components → Option (Server p × List Output)
  chat_of st s none = some (st, [])
  chat_of st s (some c) = say_as st s c.data_of c.position

  -- CMSG_CHAT_SAY.
  unfoldable pub handle_chat : Server p → Session p → Option (Server p × List Output)
  handle_chat st s =
      if ltb (length s.payload) Size.chat_send
      then some (st, [])
      else chat_of st s (entity_of p st.world s)

  -- The switch on the opcode, for a session that is authenticated.
  unfoldable pub dispatch : Server p → ℕ → Session p → Option (Server p × List Output)
  dispatch st id s =
      if s.header.opcode == opcode Opcode.cmsg_ping
      then some (st, Output.write id pong_packet ∷ [])
      else if s.header.opcode == opcode Opcode.cmsg_player_move
      then some (handle_move st s)
      else if s.header.opcode == opcode Opcode.cmsg_chat_say
      then handle_chat st s
      else some (st, [])

  unfoldable pub process_packet : Server p → ℕ → Session p → Option (Server p × List Output)
  process_packet st id s =
      if is_waiting s.state
      then (if s.header.opcode == opcode Opcode.cmsg_game_auth
          then some (handle_auth st id s)
          else some (close_session st id s))
      else dispatch st id s
