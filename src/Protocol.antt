-- ===== src/Protocol.antt =====
-- common/include/Protocol.hpp: opcodes, chat channels, movement bits, and the packed structs that
-- the client, the login server and the game server exchange.
pub mod Size
pub mod Text
pub mod Codec
pub mod RoundTrip
use game_x.Base.{ℕ, ◌≡◌, refl, Bool, Option, none, some, ◌==◌, if◌then◌else◌}
use game_x.Base.Bytes.{Bytes}
use game_x.Float.{Float}

pub data Opcode : Type 0 where
  cmsg_ping smsg_pong cmsg_auth_session smsg_auth_response : Opcode
  cmsg_game_auth smsg_game_auth_ok smsg_game_auth_fail : Opcode
  cmsg_chat_say smsg_chat_say : Opcode
  cmsg_player_move smsg_player_state smsg_player_leave : Opcode

abbrev pub opcode : Opcode → ℕ
opcode Opcode.cmsg_ping = 0x0001
opcode Opcode.smsg_pong = 0x0002
opcode Opcode.cmsg_auth_session = 0x0003
opcode Opcode.smsg_auth_response = 0x0004
opcode Opcode.cmsg_game_auth = 0x0005
opcode Opcode.smsg_game_auth_ok = 0x0006
opcode Opcode.smsg_game_auth_fail = 0x0007
opcode Opcode.cmsg_chat_say = 0x0100
opcode Opcode.smsg_chat_say = 0x0101
opcode Opcode.cmsg_player_move = 0x0200
opcode Opcode.smsg_player_state = 0x0201
opcode Opcode.smsg_player_leave = 0x0202

-- The masks of `namespace MoveFlags`.
abbrev pub up : ℕ
up = 1

abbrev pub down : ℕ
down = 2

abbrev pub left : ℕ
left = 4

abbrev pub right : ℕ
right = 8

pub data ChatChannel : Type 0 where
  say yell whisper guild : ChatChannel

abbrev pub channel_code : ChatChannel → ℕ
channel_code ChatChannel.say = 0
channel_code ChatChannel.yell = 1
channel_code ChatChannel.whisper = 2
channel_code ChatChannel.guild = 3

-- The `uint8_t` of a message taken for a `ChatChannel`; `none` is a value that the enum does not name.
unfoldable pub channel_of : ℕ → Option ChatChannel
channel_of n =
    if n == 0
    then some ChatChannel.say
    else if n == 1
    then some ChatChannel.yell
    else if n == 2
    then some ChatChannel.whisper
    else if n == 3
    then some ChatChannel.guild
    else none

abbrev pub max_chat_message_len : ℕ
max_chat_message_len = 255

pub record PacketHeader : Type 0 where
  pub size : ℕ
  pub opcode : ℕ

-- A `char` array of a struct is the list of its bytes.
pub record MsgLogin : Type 0 where
  pub username : Bytes
  pub password : Bytes
  pub version : ℕ

pub record MsgRedirect : Type 0 where
  pub ip : Bytes
  pub port : ℕ
  pub session_token : Bytes

pub record MsgPlayerMove : Type 0 where
  pub move_flags : ℕ
  pub yaw : Float

pub record MsgGameAuth : Type 0 where
  pub session_token : Bytes

pub record MsgGameAuthOk : Type 0 where
  pub character_id : ℕ

pub record MsgPlayerState : Type 0 where
  pub character_id : ℕ
  pub x : Float
  pub y : Float
  pub z : Float
  pub yaw : Float

pub record MsgPlayerLeave : Type 0 where
  pub character_id : ℕ

-- The text of a chat message is every byte after the struct.
pub record MsgChatSend : Type 0 where
  pub channel : ℕ
  pub target : Bytes

pub record MsgChatRecv : Type 0 where
  pub channel : ℕ
  pub sender : Bytes
