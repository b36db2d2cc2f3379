-- ===== src/Protocol/Codec.antt =====
-- common/include/Protocol.hpp: the packed layout of each struct. `put_*` gives the bytes that a
-- sender writes through its struct pointer, `get_*` the fields that a receiver reads through
-- `reinterpret_cast` of the payload.
use game_x.Base.{ℕ, ◌%◌, ◌∷◌, ◌++◌, take, drop}
use game_x.Base.Bytes.{Bytes, byte_at, put_u16, put_u32, get_u16, get_u32}
use game_x.Protocol.{
  PacketHeader, MsgLogin, MsgRedirect, MsgPlayerMove, MsgGameAuth, MsgGameAuthOk, MsgPlayerState,
  MsgPlayerLeave, MsgChatSend, MsgChatRecv,
}

-- The bytes of an array field.
abbrev pub field : ℕ → ℕ → Bytes → Bytes
field offset n bs = take n (drop offset bs)

unfoldable pub put_header : PacketHeader → Bytes
put_header h = put_u16 h.size ++ put_u16 h.opcode

unfoldable pub get_header : Bytes → PacketHeader
get_header bs = record { size = get_u16 0 bs; opcode = get_u16 2 bs }

unfoldable pub put_login : MsgLogin → Bytes
put_login m = m.username ++ (m.password ++ put_u32 m.version)

unfoldable pub get_login : Bytes → MsgLogin
get_login bs = record {
  username = field 0 32 bs;
  password = field 32 32 bs;
  version = get_u32 0 (drop 64 bs);
}

unfoldable pub put_redirect : MsgRedirect → Bytes
put_redirect m = m.ip ++ (put_u16 m.port ++ m.session_token)

unfoldable pub get_redirect : Bytes → MsgRedirect
get_redirect bs = record {
  ip = field 0 16 bs;
  port = get_u16 0 (drop 16 bs);
  session_token = field 18 32 bs;
}

unfoldable pub put_player_move : MsgPlayerMove → Bytes
put_player_move m = (m.move_flags % 256) ∷ put_u32 m.yaw

unfoldable pub get_player_move : Bytes → MsgPlayerMove
get_player_move bs = record { move_flags = byte_at 0 bs; yaw = get_u32 0 (drop 1 bs) }

unfoldable pub put_game_auth : MsgGameAuth → Bytes
put_game_auth m = m.session_token

unfoldable pub get_game_auth : Bytes → MsgGameAuth
get_game_auth bs = record { session_token = field 0 32 bs }

unfoldable pub put_game_auth_ok : MsgGameAuthOk → Bytes
put_game_auth_ok m = put_u32 m.character_id

unfoldable pub get_game_auth_ok : Bytes → MsgGameAuthOk
get_game_auth_ok bs = record { character_id = get_u32 0 bs }

unfoldable pub put_player_state : MsgPlayerState → Bytes
put_player_state m =
    put_u32 m.character_id ++ (put_u32 m.x ++ (put_u32 m.y ++ (put_u32 m.z ++ put_u32 m.yaw)))

unfoldable pub get_player_state : Bytes → MsgPlayerState
get_player_state bs = record {
  character_id = get_u32 0 bs;
  x = get_u32 0 (drop 4 bs);
  y = get_u32 0 (drop 8 bs);
  z = get_u32 0 (drop 12 bs);
  yaw = get_u32 0 (drop 16 bs);
}

unfoldable pub put_player_leave : MsgPlayerLeave → Bytes
put_player_leave m = put_u32 m.character_id

unfoldable pub get_player_leave : Bytes → MsgPlayerLeave
get_player_leave bs = record { character_id = get_u32 0 bs }

unfoldable pub put_chat_send : MsgChatSend → Bytes
put_chat_send m = (m.channel % 256) ∷ m.target

unfoldable pub get_chat_send : Bytes → MsgChatSend
get_chat_send bs = record { channel = byte_at 0 bs; target = field 1 32 bs }

unfoldable pub put_chat_recv : MsgChatRecv → Bytes
put_chat_recv m = (m.channel % 256) ∷ m.sender

unfoldable pub get_chat_recv : Bytes → MsgChatRecv
get_chat_recv bs = record { channel = byte_at 0 bs; sender = field 1 32 bs }
