-- ===== src/Client/Examples.antt =====
-- The theorems on the client, applied to a client that enters the world and meets one other player.
use game_x.Base.{
  ℕ, ◌≡◌, refl, true, false, List, [], ◌∷◌, ◌++◌, Option, none, some, arith, ◌≢◌, concat_map, drop,
}
use game_x.Float.{one_f}
use game_x.Ecs.{Registry}
use game_x.Ecs.Slots.{slots, slots-IsRegistry}
use game_x.Protocol.{Opcode, opcode, MsgPlayerMove, MsgPlayerState}
use game_x.Protocol.Size
use game_x.Protocol.Codec.{get_header, put_player_state, put_game_auth_ok}
use game_x.Client.Logic.Credentials.{with_login, login_message, credentials_reach_server}
use game_x.Base.Bytes.{same_text}
use game_x.Game.Auth.{after_login, authenticate, authenticate_failed}
use game_x.Login.{
  process_login_request, after_credentials, verify_credentials, Read, fresh_login, read_login,
  login_response, game_server_ip,
}
use game_x.Login.Token.{generate_session_token}
use game_x.Game.{no_components, Session, SessionState, Server}
use game_x.Game.Framing.{read_packet}
use game_x.Game.Process.{process_packet}
use game_x.Game.Step.{start}
use game_x.Client.{InboundPacket}
use game_x.Client.Mailbox.{Call, calls, pushed, calls_fifo}
use game_x.Client.Network.{Network, read_stream}
use game_x.Client.Network.Rounds.{IsWaiting, read_stream-IsWaiting}
use game_x.Client.Network.Stream.{Frame, HasRead, frame_bytes, read_stream-frames}
use game_x.Client.Logic.{
  Tracked, Logic, Effect, handle_packet, drain, fresh_logic, auth_message, move_message,
}
use game_x.Client.Logic.Tracks.{IsTracking}
use game_x.Client.Logic.Tick.{Controls, shown}
use game_x.Client.Logic.Invariant.{drain-IsTracking, fresh_logic-IsTracking}
use game_x.Client.Logic.Agreement.{
  message_bytes, with_message, token_reaches_server, intent_reaches_server, redirect_reaches_client,
}
use game_x.Examples.Fixture.{registry_laws, platform, database, bob, token, auth_session}

abbrev waiting : List ℕ
waiting = 1 ∷ []

abbrev two_threads : List (Call ℕ)
two_threads = Call.pops ∷ Call.pushes 2 ∷ Call.pops ∷ Call.pushes 3 ∷ []

calls_fifo_example :
    (calls waiting two_threads).1 ++ (calls waiting two_threads).0 ≡ waiting ++ pushed two_threads
calls_fifo_example = calls_fifo waiting two_threads

abbrev network : Network
network = record {
  is_open = true;
  incoming_header = record { size = 0; opcode = 0 };
  incoming_payload = [];
  inbound_queue = [];
}

abbrev frames : List Frame
frames = record { op = 0x0101; body = bob } ∷ record { op = 2; body = [] } ∷ []

read_stream-frames_example :
    HasRead network frames
      (7 ∷ [])
      (read_stream network (concat_map frame_bytes frames ++ (7 ∷ [])))
read_stream-frames_example =
    read_stream-frames network frames (7 ∷ []) refl
      ((omega arith, omega arith), ((omega arith, omega arith), tt)) (omega arith)

read_stream-IsWaiting_example :
    IsWaiting (read_stream network (concat_map frame_bytes frames ++ (7 ∷ [])))
read_stream-IsWaiting_example =
    read_stream-IsWaiting network (concat_map frame_bytes frames ++ (7 ∷ []))

abbrev entities : Registry Tracked
entities = slots Tracked

-- SMSG_GAME_AUTH_OK for the character 1.
abbrev welcome : InboundPacket
welcome = record {
  header = record { size = 8; opcode = opcode Opcode.smsg_game_auth_ok };
  payload = put_game_auth_ok (record { character_id = 1 });
}

abbrev state_about : ℕ → MsgPlayerState
state_about id = record { character_id = id; x = one_f; y = 0; z = one_f; yaw = 0 }

abbrev state_packet_about : ℕ → InboundPacket
state_packet_about id = record {
  header = record { size = 24; opcode = opcode Opcode.smsg_player_state };
  payload = put_player_state (state_about id);
}

abbrev inbox : List InboundPacket
inbox = welcome ∷ state_packet_about 2 ∷ []

abbrev logic_of : Option (Logic entities × List Effect) → Logic entities
logic_of none = fresh_logic entities
logic_of (some q) = q.0

abbrev effects_of : Option (Logic entities × List Effect) → List Effect
effects_of none = []
effects_of (some q) = q.1

abbrev met : Option (Logic entities × List Effect)
met = drain entities (fresh_logic entities) inbox

meets : met ≡ some (logic_of met, effects_of met)
unfolding drain handle_packet
meets = refl

drain-IsTracking_example : IsTracking (logic_of met)
drain-IsTracking_example =
    drain-IsTracking entities slots-IsRegistry (fresh_logic entities) (logic_of met) inbox
      (effects_of met) (fresh_logic-IsTracking entities) meets

abbrev controls : Controls
controls = record {
  camera_yaw = one_f;
  moving_left = false;
  moving_right = true;
  moving_up = true;
  moving_down = false;
}

-- A world with one player.
abbrev player_world : Server platform
player_world = record (start platform database) { world = some no_components ∷ [] }

abbrev playing : Session platform
playing = record auth_session { state = SessionState.authenticated; entity = some 0 }

abbrev run_right : MsgPlayerMove
run_right = record { move_flags = 9; yaw = one_f }

token_reaches_server_example :
    let shown = with_message auth_session (auth_message token) in
    (read_packet auth_session (message_bytes (auth_message token) ++ bob) ≡ some (shown, bob))
    × (process_packet player_world 0 shown
        ≡ some (
            after_login player_world 0 shown
              (authenticate_failed platform.db player_world.database token)
              (authenticate platform.db player_world.database token)))
token_reaches_server_example = token_reaches_server player_world 0 auth_session token bob refl refl

intent_reaches_server_example :
    (read_packet playing (message_bytes (move_message run_right) ++ bob)
      ≡ some (with_message playing (move_message run_right), bob))
    × (w : platform.registry.World) × (process_packet player_world 0
          (with_message playing (move_message run_right))
        ≡ some (record player_world { world = w }, []))
    × (platform.registry.get w 0
        ≡ some (record no_components { input = some (record { move_flags = 9; yaw = one_f }) }))
    × ((d : platform.registry.Entity)
        → 0 ≢ d
        → platform.registry.get w d ≡ platform.registry.get player_world.world d)
intent_reaches_server_example =
    intent_reaches_server registry_laws player_world 0 playing 0 no_components run_right bob
      (record { flags_fit = omega arith; yaw_fits = omega arith }) refl refl refl

redirect_reaches_client_example :
    let whole = login_response (generate_session_token 1 2) in
    handle_packet entities
      (logic_of met)
      (record { header = get_header whole; payload = drop Size.header whole })
    ≡ some (logic_of met, Effect.redirect game_server_ip 12345 (generate_session_token 1 2) ∷ [])
redirect_reaches_client_example = redirect_reaches_client entities (logic_of met) 1 2

credentials_reach_server_example :
    let m = login_message bob bob in
    (read_login fresh_login (message_bytes m ++ (7 ∷ []))
      ≡ Read.complete (with_login fresh_login m))
    × (process_login_request platform.db same_text database (with_login fresh_login m) (1, 2)
        ≡ some (
            after_credentials platform.db same_text database
              (1, 2)
              (verify_credentials platform.db same_text database bob bob)))
credentials_reach_server_example =
    credentials_reach_server platform.db same_text database (1, 2) fresh_login bob bob (7 ∷ [])
      (refl, (refl, (refl, tt))) (refl, (refl, (refl, tt))) (omega arith) (omega arith)
