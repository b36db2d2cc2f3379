-- ===== src/Client/Logic.antt =====
-- client/src/main.cpp: `LogicThreadEntry`: what a packet from the mailbox does to the client's own
-- world, and what a tick of the logic thread predicts, publishes and reports.
pub mod Agreement
pub mod Credentials
pub mod Tracks
pub mod Tick
pub mod Invariant
pub mod Reconcile
use game_x.Base.{
  ℕ, ◌+◌, Bool, true, false, not, ◌&&◌, ◌==◌, List, [], ◌∷◌, ◌++◌, Option, none, some, ◌>>=◌,
  is_some, ltb, if◌then◌else◌, length, drop,
}
use game_x.Base.Bytes.{Bytes}
use game_x.Float.{Float, Fpu, zero_f}
use game_x.Ecs.{Registry}
use game_x.Protocol.{
  ChatChannel, channel_of, Opcode, opcode, up, down, left, right, PacketHeader, MsgPlayerMove,
  MsgPlayerState,
}
use game_x.Protocol.Size
use game_x.Protocol.Text.{c_string}
use game_x.Protocol.Codec.{
  get_redirect, get_game_auth_ok, get_player_state, get_player_leave, get_chat_recv, put_game_auth,
  put_player_move,
}
use game_x.Movement.{player_speed_per_sec, apply_move_flags}
use game_x.Client.{InboundPacket}

pub record Transform : Type 0 where
  pub x : Float
  pub y : Float
  pub z : Float
  pub yaw : Float

-- The components of one entity of `client_registry`; the two tags are flags.
pub record Tracked : Type 0 where
  pub transform : Option Transform
  pub is_local : Bool
  pub is_remote : Bool

-- The locals of the thread. `local_player` is `none` for `entt::null`; `remote_players` is the map,
-- in some order, with one entry for a key.
pub record Logic (r : Registry Tracked) : Type 0 where
  pub client_registry : r.World
  pub local_player : Option (r.Entity)
  pub local_character_id : ℕ
  pub remote_players : List (ℕ × r.Entity)
  pub in_world : Bool

-- `print_chat`: the name of the channel, the sender and the message, on the console. `redirect`: disconnect, then connect to this address and port, and show this token there.
pub data Effect : Type 0 where
  redirect : Bytes → ℕ → Bytes → Effect
  print_chat : Bytes → Bytes → Bytes → Effect

abbrev pub transform_of : MsgPlayerState → Transform
transform_of m = record { x = m.x; y = m.y; z = m.z; yaw = m.yaw }

abbrev pub set_transform : Transform → Tracked → Tracked
set_transform t c = record c { transform = some t }

abbrev pub origin : Transform
origin = record { x = zero_f; y = zero_f; z = zero_f; yaw = zero_f }

-- `chatChannelName`, for the log.
unfoldable pub chat_channel_name : Option ChatChannel → Bytes
chat_channel_name (some ChatChannel.say) = 83 ∷ 97 ∷ 121 ∷ []
chat_channel_name (some ChatChannel.yell) = 89 ∷ 101 ∷ 108 ∷ 108 ∷ []
chat_channel_name (some ChatChannel.whisper) = 87 ∷ 104 ∷ 105 ∷ 115 ∷ 112 ∷ 101 ∷ 114 ∷ []
chat_channel_name (some ChatChannel.guild) = 71 ∷ 117 ∷ 105 ∷ 108 ∷ 100 ∷ []
chat_channel_name none = 85 ∷ 110 ∷ 107 ∷ 110 ∷ 111 ∷ 119 ∷ 110 ∷ []

unfoldable pub find {ℓ} : {E : Type ℓ} → ℕ → List (ℕ × E) → Option E
find id [] = none
find id ((k, e) ∷ rest) = if k == id then some e else find id rest

unfoldable pub erase {ℓ} : {E : Type ℓ} → ℕ → List (ℕ × E) → List (ℕ × E)
erase id [] = []
erase id ((k, e) ∷ rest) = if k == id then erase id rest else (k, e) ∷ erase id rest

-- The header and the payload that `network->sendPacket` takes for CMSG_GAME_AUTH and CMSG_PLAYER_MOVE.
unfoldable pub auth_message : Bytes → PacketHeader × Bytes
auth_message token = (
  record { size = Size.header + Size.game_auth; opcode = opcode Opcode.cmsg_game_auth },
  put_game_auth (record { session_token = token }),
)

unfoldable pub move_message : MsgPlayerMove → PacketHeader × Bytes
move_message m = (
  record { size = Size.header + Size.player_move; opcode = opcode Opcode.cmsg_player_move },
  put_player_move m,
)

module _ (r : Registry Tracked) where
  abbrev pub is_valid : r.World → Option (r.Entity) → Bool
  is_valid w none = false
  is_valid w (some e) = is_some (r.get w e)

  abbrev pub modify_local : r.World → Option (r.Entity) → Transform → r.World
  modify_local w none t = w
  modify_local w (some e) t = r.modify w e (set_transform t)

  -- SMSG_AUTH_RESPONSE. `none`: the address has no NUL up to the end of the payload.
  unfoldable pub handle_redirect : Logic r → Bytes → Option (Logic r × List Effect)
  handle_redirect st payload = do
    ip ← c_string payload
    let m = get_redirect payload
    some (st, Effect.redirect ip m.port m.session_token ∷ [])

  -- SMSG_GAME_AUTH_OK.
  unfoldable pub handle_auth_ok : Logic r → Bytes → Logic r
  handle_auth_ok st payload =
      let id =
        if ltb (length payload) Size.game_auth_ok
        then st.local_character_id
        else (get_game_auth_ok payload).character_id in
      let player : Tracked = record {
        transform = some origin;
        is_local = true;
        is_remote = false;
      } in
      let (w, e) = r.create st.client_registry player in
      record st {
        client_registry = w;
        local_player = some e;
        local_character_id = id;
        in_world = true;
      }

  -- The state of another player: its entity is made where the map has none.
  abbrev pub track : Logic r → MsgPlayerState → Option (r.Entity) → Logic r
  track st m none =
      let remote : Tracked = record {
        transform = some origin;
        is_local = false;
        is_remote = true;
      } in
      let (w, e) = r.create st.client_registry remote in
      record st {
        client_registry = r.modify w e (set_transform (transform_of m));
        remote_players = (m.character_id, e) ∷ st.remote_players;
      }
  track st m (some e) = record st {
    client_registry = r.modify st.client_registry e (set_transform (transform_of m));
  }

  unfoldable pub apply_state : Logic r → MsgPlayerState → Logic r
  apply_state st m =
      if st.in_world
        && (m.character_id == st.local_character_id)
        && is_valid st.client_registry st.local_player
      then record st {
        client_registry = modify_local st.client_registry st.local_player (transform_of m);
      }
      else if st.in_world && not (m.character_id == st.local_character_id)
      then track st m (find m.character_id st.remote_players)
      else st

  -- The entity of a player who leaves goes, where it is valid, with its entry in the map.
  abbrev pub forget : Logic r → ℕ → Option (r.Entity) → Logic r
  forget st id none = st
  forget st id (some e) = record st {
    client_registry =
        if is_some (r.get st.client_registry e)
        then r.destroy st.client_registry e
        else st.client_registry;
    remote_players = erase id st.remote_players;
  }

  -- SMSG_CHAT_SAY. `none`: the sender's name has no NUL up to the end of the payload.
  unfoldable pub handle_chat_recv : Logic r → Bytes → Option (Logic r × List Effect)
  handle_chat_recv st payload = if ltb (length payload) Size.chat_recv then some (st, []) else do
    sender ← c_string (drop 1 payload)
    some (
      st,
      Effect.print_chat (chat_channel_name (channel_of (get_chat_recv payload).channel)) sender
            (drop Size.chat_recv payload)
          ∷ [],
    )

  unfoldable pub handle_packet : Logic r → InboundPacket → Option (Logic r × List Effect)
  handle_packet st packet =
      let op = packet.header.opcode in
      let payload = packet.payload in
      if (op == opcode Opcode.smsg_auth_response) && not (ltb (length payload) Size.redirect)
      then handle_redirect st payload
      else if op == opcode Opcode.smsg_game_auth_ok
      then some (handle_auth_ok st payload, [])
      else if op == opcode Opcode.smsg_player_state
      then some (
        (if ltb (length payload) Size.player_state
            then st
            else apply_state st (get_player_state payload)),
        [],
      )
      else if op == opcode Opcode.smsg_player_leave
      then some (
        (if ltb (length payload) Size.player_leave
            then st
            else forget st (get_player_leave payload).character_id
                (find (get_player_leave payload).character_id st.remote_players)),
        [],
      )
      else if op == opcode Opcode.smsg_chat_say
      then handle_chat_recv st payload
      else some (st, [])

  -- The locals at the start of the thread.
  abbrev pub fresh_logic : Logic r
  fresh_logic = record {
    client_registry = r.empty;
    local_player = none;
    local_character_id = 0;
    remote_players = [];
    in_world = false;
  }

  -- The loop that drains the mailbox.
  unfoldable pub drain : Logic r → List InboundPacket → Option (Logic r × List Effect)
  drain st [] = some (st, [])
  drain st (packet ∷ packets) = do
    (st', effects) ← handle_packet st packet
    (st'', effects') ← drain st' packets
    some (st'', effects ++ effects')
