-- ===== src/Protocol/RoundTrip.antt =====
-- common/include/Protocol.hpp and tests/test_protocol.cpp: the two ends of the wire agree on every
-- struct.
use game_x.Base.{
  ◌%◌, ◌^◌, ◌<◌, ◌≡◌, refl, ◌++◌, arith, length, take-append, drop-append, drop-append_two,
  length-append, append_assoc,
}
use game_x.Base.Bytes.{
  Bytes, put_u16, put_u32, get_u16, get_u32, length-put_u16, length-put_u32, get_u16-put_u16,
  get_u32-put_u32,
}
use game_x.Protocol.Size
use game_x.Protocol.{
  PacketHeader, MsgLogin, MsgRedirect, MsgPlayerMove, MsgGameAuth, MsgPlayerState, MsgChatSend,
  MsgChatRecv,
}
use game_x.Protocol.Codec.{
  put_header, get_header, put_login, get_login, put_redirect, get_redirect, put_player_move,
  get_player_move, put_game_auth, get_game_auth, put_player_state, get_player_state, put_chat_send,
  get_chat_send, put_chat_recv, get_chat_recv,
}

-- What a C++ value of the struct satisfies: array lengths and field widths.
pub record IsLogin (m : MsgLogin) : Type 0 where
  pub username_length : length m.username ≡ 32
  pub password_length : length m.password ≡ 32
  pub version_fits : m.version < 2 ^ 32

pub record IsRedirect (m : MsgRedirect) : Type 0 where
  pub ip_length : length m.ip ≡ 16
  pub port_fits : m.port < 2 ^ 16
  pub token_length : length m.session_token ≡ 32

pub record IsPlayerMove (m : MsgPlayerMove) : Type 0 where
  pub flags_fit : m.move_flags < 256
  pub yaw_fits : m.yaw < 2 ^ 32

pub record IsPlayerState (m : MsgPlayerState) : Type 0 where
  pub id_fits : m.character_id < 2 ^ 32
  pub x_fits : m.x < 2 ^ 32
  pub y_fits : m.y < 2 ^ 32
  pub z_fits : m.z < 2 ^ 32
  pub yaw_fits : m.yaw < 2 ^ 32

pub get_header-put_header :
    (h : PacketHeader) (rest : Bytes)
    → h.size < 2 ^ 16
    → h.opcode < 2 ^ 16
    → get_header (put_header h ++ rest) ≡ h
unfolding get_header put_header put_u16 get_u16
get_header-put_header h rest p q = ground arith

-- A MsgPlayerState whose values fit their fields is read back from its packed bytes, whatever
-- follows them.
pub get_player_state-put_player_state :
    (m : MsgPlayerState) (rest : Bytes)
    → IsPlayerState m
    → get_player_state (put_player_state m ++ rest) ≡ m
unfolding get_player_state put_player_state put_u32 get_u32
get_player_state-put_player_state m rest v = ground arith

-- A MsgPlayerMove whose values fit their fields is read back from its packed bytes, whatever
-- follows them.
pub get_player_move-put_player_move :
    (m : MsgPlayerMove) (rest : Bytes)
    → IsPlayerMove m
    → get_player_move (put_player_move m ++ rest) ≡ m
unfolding get_player_move put_player_move put_u32 get_u32
get_player_move-put_player_move m rest v = ground arith

-- A MsgLogin whose values fit their fields is read back from its packed bytes, whatever follows
-- them.
pub get_login-put_login :
    (m : MsgLogin) (rest : Bytes) → IsLogin m → get_login (put_login m ++ rest) ≡ m
unfolding get_login put_login
get_login-put_login m rest v =
    let tail : Bytes = put_u32 m.version ++ rest in
    rw (
      append_assoc m.username (m.password ++ put_u32 m.version) rest,
      append_assoc m.password (put_u32 m.version) rest,
      take-append m.username (m.password ++ tail) 32 v.username_length,
      drop-append m.username (m.password ++ tail) 32 v.username_length,
      take-append m.password tail 32 v.password_length,
      drop-append_two m.username m.password tail 64 (omega arith),
      get_u32-put_u32 m.version rest v.version_fits,
    )

-- A MsgRedirect whose values fit their fields is read back from its packed bytes, whatever follows
-- them.
pub get_redirect-put_redirect :
    (m : MsgRedirect) (rest : Bytes) → IsRedirect m → get_redirect (put_redirect m ++ rest) ≡ m
unfolding get_redirect put_redirect
get_redirect-put_redirect m rest v =
    let port : Bytes = put_u16 m.port in
    let tail : Bytes = m.session_token ++ rest in
    rw (
      append_assoc m.ip (port ++ m.session_token) rest,
      append_assoc port m.session_token rest,
      take-append m.ip (port ++ tail) 16 v.ip_length,
      drop-append m.ip (port ++ tail) 16 v.ip_length,
      drop-append_two m.ip port tail 18 (omega (arith, length-put_u16 m.port)),
      take-append m.session_token rest 32 v.token_length,
      get_u16-put_u16 m.port tail v.port_fits,
    )

pub get_game_auth-put_game_auth :
    (m : MsgGameAuth) (rest : Bytes)
    → length m.session_token ≡ 32
    → get_game_auth (put_game_auth m ++ rest) ≡ m
unfolding get_game_auth put_game_auth
get_game_auth-put_game_auth m rest h = rw (take-append m.session_token rest 32 h)

pub get_chat_recv-put_chat_recv :
    (m : MsgChatRecv) (rest : Bytes)
    → m.channel < 256
    → length m.sender ≡ 32
    → get_chat_recv (put_chat_recv m ++ rest) ≡ m
unfolding get_chat_recv put_chat_recv
get_chat_recv-put_chat_recv m rest c h =
    let same : m.channel % 256 ≡ m.channel = omega arith in
    rw (take-append m.sender rest 32 h, same)

pub get_chat_send-put_chat_send :
    (m : MsgChatSend) (rest : Bytes)
    → m.channel < 256
    → length m.target ≡ 32
    → get_chat_send (put_chat_send m ++ rest) ≡ m
unfolding get_chat_send put_chat_send
get_chat_send-put_chat_send m rest c h =
    let same : m.channel % 256 ≡ m.channel = omega arith in
    rw (take-append m.target rest 32 h, same)

-- `sizeof` of every struct is the length of its bytes.
pub length-put_login : (m : MsgLogin) → IsLogin m → length (put_login m) ≡ Size.login
unfolding put_login
length-put_login m v = omega (
  arith,
  length-append m.username (m.password ++ put_u32 m.version),
  length-append m.password (put_u32 m.version),
  length-put_u32 m.version,
)

pub length-put_redirect : (m : MsgRedirect) → IsRedirect m → length (put_redirect m) ≡ Size.redirect
unfolding put_redirect
length-put_redirect m v = omega (
  arith,
  length-append m.ip (put_u16 m.port ++ m.session_token),
  length-append (put_u16 m.port) m.session_token,
  length-put_u16 m.port,
)

pub length-put_player_state : (m : MsgPlayerState) → length (put_player_state m) ≡ Size.player_state
unfolding put_player_state put_u32
length-put_player_state m = refl

pub length-put_player_move : (m : MsgPlayerMove) → length (put_player_move m) ≡ Size.player_move
unfolding put_player_move put_u32
length-put_player_move m = refl

pub length-put_header : (h : PacketHeader) → length (put_header h) ≡ Size.header
unfolding put_header put_u16
length-put_header h = refl
