-- ===== src/Game/Packets.antt =====
-- server/game/src/main.cpp: the packets that `PlayerSession` writes. A packet is its header, with
-- the total size cut to 16 bits, the struct of its opcode, and the text of a chat message.
pub mod Sizes
use game_x.Base.{ℕ, ◌+◌, ◌++◌, [], ◌∷◌, length}
use game_x.Base.Bytes.{Bytes}
use game_x.Float.{Float}
use game_x.Protocol.{
  Opcode, opcode, PacketHeader, MsgGameAuthOk, MsgPlayerState, MsgPlayerLeave, MsgChatRecv,
}
use game_x.Protocol.Size
use game_x.Protocol.Text.{strncpy}
use game_x.Protocol.Codec.{
  put_header, put_game_auth_ok, put_player_state, put_player_leave, put_chat_recv,
}

unfoldable pub packet : Opcode → Bytes → Bytes
packet op body =
    put_header (record { size = Size.header + length body; opcode = opcode op }) ++ body

unfoldable pub player_state_packet : ℕ → Float → Float → Float → Float → Bytes
player_state_packet character_id x y z yaw =
    packet Opcode.smsg_player_state
      (put_player_state (record { character_id = character_id; x = x; y = y; z = z; yaw = yaw }))

unfoldable pub player_leave_packet : ℕ → Bytes
player_leave_packet character_id =
    packet Opcode.smsg_player_leave (put_player_leave (record { character_id = character_id }))

-- The sender's name takes at most 31 bytes of its zeroed field.
unfoldable pub chat_packet : ℕ → Bytes → Bytes → Bytes
chat_packet channel sender message = packet Opcode.smsg_chat_say (
    put_chat_recv (record { channel = channel; sender = strncpy 31 sender ++ (0 ∷ []) }) ++ message)

unfoldable pub auth_ok_packet : ℕ → Bytes
auth_ok_packet character_id =
    packet Opcode.smsg_game_auth_ok (put_game_auth_ok (record { character_id = character_id }))

unfoldable pub auth_fail_packet : Bytes
auth_fail_packet = packet Opcode.smsg_game_auth_fail []

unfoldable pub pong_packet : Bytes
pong_packet = packet Opcode.smsg_pong []
