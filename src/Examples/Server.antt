-- ===== src/Examples/Server.antt =====
-- The theorems on the game server, applied to a visit.
use game_x.Base.{
  ℕ, zero, suc, ◌≡◌, refl, ◌↔◌, List, [], ◌∷◌, ◌++◌, Option, none, some, true, replicate, In, inl,
  ◌⊎◌,
}
use game_x.Base.Bytes.{Bytes, get_u16, put_u16, same_text}
use game_x.Base.Int.{to_u32, pos, same_int}
use game_x.Float.{is_finite, is_nan, one_f}
use game_x.Float.Soft.{soft-IsIeee}
use game_x.Database.Tables.{Tables, tables}
use game_x.Database.Tables.Laws.{tables-IsDatabase}
use game_x.Protocol.{Opcode, opcode}
use game_x.Protocol.Text.{c_string}
use game_x.Protocol.Codec.{get_header, put_header, get_game_auth, put_player_state}
use game_x.Game.{
  tick_dt_sec, PlayerInput, Components, Position, Server, Session, SessionState, Output,
}
use game_x.Movement.{apply_move_flags, player_speed_per_sec}
use game_x.Game.Packets.{packet, auth_fail_packet}
use game_x.Game.World.{simulate_movement}
use game_x.Game.World.Simulate.{simulate_movement_moves, infinite_yaw_spreads}
use game_x.Game.Framing.{read_packet, read_payload, payload_size}
use game_x.Game.Broadcast.{entity_of, broadcast_player_states}
use game_x.Game.Broadcast.States.{IsUpdate, player_states_delivery}
use game_x.Game.World.{save_transaction}
use game_x.Game.Auth.{Login, authenticate, handle_auth, enter_world, spawn}
use game_x.Game.Process.{process_packet, dispatch, handle_chat}
use game_x.Game.Process.Faults.{IsOverrun, process_packet_fault_iff}
use game_x.Game.Step.{Event, start, accept, step, run, receive}
use game_x.Game.Step.WellFormed.{IsWellFormed}
use game_x.Game.Step.Invariant.{
  step-IsWellFormed, run-IsWellFormed, run-start-IsWellFormed, start-IsWellFormed,
}
use game_x.Game.Step.Defined.{IsFaulty, step_fault_iff}
use game_x.Game.Step.Tokens.{token_opens_once}
use game_x.Examples.Fixture.{
  platform, registry_laws, database, accounts_and_token, bob, token, auth_session, visit, server_of,
  output_of,
}

abbrev opened : Server platform
opened = start platform database

abbrev visited : Option (Server platform × List Output)
visited = run opened visit

run_visit : visited ≡ some (server_of visited, output_of visited)
unfolding run step start accept receive read_packet read_payload payload_size get_header get_u16
    put_header put_u16 process_packet
run_visit = refl

step-IsWellFormed_example : IsWellFormed (accept opened)
unfolding step
step-IsWellFormed_example =
    step-IsWellFormed platform registry_laws opened (accept opened) Event.accepted []
      (start-IsWellFormed platform registry_laws database) refl

run-start-IsWellFormed_example : IsWellFormed (server_of visited)
run-start-IsWellFormed_example =
    run-start-IsWellFormed platform registry_laws database visit (server_of visited)
      (output_of visited) run_visit

abbrev entered : Server platform
entered = (handle_auth opened 0 auth_session).0

abbrev later : List Event
later = Event.accepted ∷ Event.tick ∷ Event.dropped 0 ∷ Event.run_posted ∷ []

abbrev found_of : Option (Login × platform.db.State) → Login × platform.db.State
found_of none = (
  record { username = []; character = record { id = pos 0; pos_x = 0; pos_y = 0; pos_z = 0 } },
  database,
)
found_of (some found) = found

abbrev departed : Option (Server platform × List Output)
departed = run entered later

run_later : departed ≡ some (server_of departed, output_of departed)
unfolding run step
run_later = refl

abbrev looked_up : Option (Login × platform.db.State)
looked_up = authenticate platform.db database token

logged_in : looked_up ≡ some (found_of looked_up)
unfolding authenticate tables same_text same_int database
logged_in = refl

token_opens_once_example :
    handle_auth (server_of departed) 5 auth_session
    ≡ (server_of departed, Output.write_then_close 5 auth_fail_packet ∷ [])
unfolding start get_game_auth
token_opens_once_example =
    token_opens_once platform tables-IsDatabase opened 0 auth_session (found_of looked_up) later
      (server_of departed) (output_of departed) 5 auth_session refl logged_in run_later
      (λ x. x, (λ x. x, (λ x. x, (λ x. x, tt)))) refl refl

abbrev settled : Tables
settled = record accounts_and_token {
  characters =
      record {
        account_id = pos 7;
        name = bob;
        row = record { id = pos 1; pos_x = 0; pos_y = 0; pos_z = 0 };
      }
      ∷ [];
}

unfoldable settled_database : platform.db.State
unfolding tables
settled_database = settled

abbrev saved : Option (platform.db.State)
saved = save_transaction platform.db settled_database (pos 1) one_f 0 one_f

abbrev saved_of : Option (platform.db.State) → platform.db.State
saved_of none = settled_database
saved_of (some s) = s

abbrev back : Option (Login × platform.db.State)
back = authenticate platform.db (saved_of saved) token

-- A world with one player, bob, who runs with a yaw of +infinity.
abbrev running : Components
running = record {
  data_of = some (record { name = bob; character_id = pos 1 });
  position = some (record { x = 0; y = 0; z = 0; yaw = 0 });
  input = some (record { move_flags = 1; yaw = 0x7f80_0000 });
}

abbrev world : platform.registry.World
world = some running ∷ []

abbrev playing : Session platform
playing = record auth_session { state = SessionState.authenticated; entity = some 0 }

abbrev one_live : ℕ → Option (Session platform)
one_live zero = some playing
one_live (suc k) = none

-- The write of bob's state, which is made.
abbrev bob_update : Output
bob_update = Output.write 0 (
    packet Opcode.smsg_player_state
      (put_player_state (record { character_id = 1; x = 0; y = 0; z = 0; yaw = 0 })))

player_states_delivery_example :
    In bob_update (broadcast_player_states platform world one_live (0 ∷ []) (0 ∷ [])).1
    ↔ IsUpdate world one_live (0 ∷ []) (0 ∷ []) bob_update
player_states_delivery_example =
    player_states_delivery platform world one_live (0 ∷ []) (0 ∷ []) bob_update

bob_updated : In bob_update (broadcast_player_states platform world one_live (0 ∷ []) (0 ∷ [])).1
unfolding to_u32
bob_updated = player_states_delivery_example.1 (
  0,
  running,
  record { name = bob; character_id = pos 1 },
  record { x = 0; y = 0; z = 0; yaw = 0 },
  0,
  inl refl,
  refl,
  refl,
  refl,
  inl refl,
  refl,
  refl,
)

simulate_movement_moves_example :
    let after = platform.registry.get (simulate_movement platform world) 0 in
    ((c : Components) (input : PlayerInput) (place : Position)
      → platform.registry.get world 0 ≡ some c
      → c.input ≡ some input
      → c.position ≡ some place
      → let to =
          apply_move_flags platform.fpu
            (record { x = place.x; z = place.z })
            input.move_flags
            (platform.fpu.mul player_speed_per_sec tick_dt_sec)
            input.yaw in
        after
        ≡ some (record c {
          position = some (record { x = to.x; y = place.y; z = to.z; yaw = input.yaw });
        }))
    × ((c : Components)
        → platform.registry.get world 0 ≡ some c
        → (c.input ≡ none) ⊎ (c.position ≡ none)
        → after ≡ some c)
    × (platform.registry.get world 0 ≡ none → after ≡ none)
simulate_movement_moves_example = simulate_movement_moves platform registry_laws world 0

infinite_yaw_spreads_example :
    (c' : Components) × (pos' : Position) × (platform.registry.get
        (simulate_movement platform world)
        0
      ≡ some c')
    × (c'.position ≡ some pos')
    × (is_nan pos'.x ≡ true)
    × (is_nan pos'.z ≡ true)
unfolding is_finite
infinite_yaw_spreads_example =
    infinite_yaw_spreads platform registry_laws soft-IsIeee world 0 running
      (record { move_flags = 1; yaw = 0x7f80_0000 }) (record { x = 0; y = 0; z = 0; yaw = 0 }) refl
      refl refl refl

-- A whisper to bob, with its NULs in place.
abbrev whisper : Bytes
whisper =
    put_header (record { size = 39; opcode = opcode Opcode.cmsg_chat_say })
    ++ (2 ∷ (bob ++ (replicate 29 0 ++ (104 ∷ 105 ∷ []))))

abbrev talk : List Event
talk =
    Event.accepted
    ∷ Event.received 0 (put_header auth_session.header ++ token)
    ∷ Event.received 0 whisper
    ∷ []

abbrev talked : Option (Server platform × List Output)
talked = run opened talk

run_talk : talked ≡ some (server_of talked, output_of talked)
unfolding run step start accept receive read_packet read_payload payload_size get_header get_u16
    put_header put_u16 process_packet handle_auth authenticate tables same_text same_int enter_world
    spawn dispatch handle_chat entity_of c_string database get_game_auth
run_talk = refl

abbrev session_of : Option (Session platform) → Session platform
session_of none = auth_session
session_of (some s) = s

abbrev talker : Session platform
talker = session_of ((server_of talked).live 0)

talker_live : (server_of talked).live 0 ≡ some talker
unfolding run step start accept receive read_packet read_payload payload_size get_header get_u16
    put_header put_u16 process_packet handle_auth authenticate tables same_text same_int enter_world
    spawn dispatch handle_chat entity_of c_string database get_game_auth
talker_live = refl

process_packet_fault_iff_example :
    (process_packet (server_of talked) 0 talker ≡ none) ↔ IsOverrun talker
process_packet_fault_iff_example =
    process_packet_fault_iff (server_of talked) 0 talker
      (run-IsWellFormed platform registry_laws opened (server_of talked) talk (output_of talked)
        (start-IsWellFormed platform registry_laws database) run_talk)
      talker_live

-- A whisper whose target fills its field, with no NUL behind it.
abbrev unterminated : Bytes
unterminated =
    put_header (record { size = 37; opcode = opcode Opcode.cmsg_chat_say }) ++ (2 ∷ replicate 32 98)

step_fault_iff_example :
    (step (server_of talked) (Event.received 0 unterminated) ≡ none)
    ↔ IsFaulty (server_of talked) (Event.received 0 unterminated)
step_fault_iff_example =
    step_fault_iff platform (server_of talked) (Event.received 0 unterminated) (
      run-IsWellFormed platform registry_laws opened (server_of talked) talk (output_of talked)
        (start-IsWellFormed platform registry_laws database) run_talk)
