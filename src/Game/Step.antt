-- ===== src/Game/Step.antt =====
-- server/game/src/main.cpp: what reaches the game strand, one event at a time: connections, packets,
-- the callbacks that close a socket, the destructor of a session and the clean-up that it posts, and
-- the ticks of the game loop. `login_issues` is the other user of the database, the login server.
pub mod Tokens
pub mod Ownership
pub mod Posted
pub mod Transfer
pub mod Cleanup
pub mod Registration
pub mod Pruning
pub mod WellFormed
pub mod Packets
pub mod Invariant
pub mod Defined
use game_x.Base.{
  ℕ, ◌+◌, ◌%◌, ◌^◌, ◌++◌, Bool, true, false, List, [], ◌∷◌, Option, none, some, ◌>>=◌,
  if◌then◌else◌,
}
use game_x.Base.Bytes.{Bytes}
use game_x.Base.Int.{ℤ, to_u32}
use game_x.Database.{after_throw, Database}
use game_x.Game.{
  PlayerData, Components, Platform, Session, SessionState, Server, Output, put_session,
}
use game_x.Game.World.{or_failed, simulate_movement, save_entity, autosave, should_autosave}
use game_x.Game.Framing.{read_packet}
use game_x.Game.Broadcast.{broadcast_player_states, broadcast_player_leave}
use game_x.Game.Process.{process_packet}

pub data Event : Type 0 where
  accepted : Event
  -- The peer has sent these bytes and not had them read yet.
  received : ℕ → Bytes → Event
  close_callback : ℕ → Event
  -- The last reference to the session goes.
  dropped : ℕ → Event
  run_posted : Event
  tick : Event
  login_issues : Bytes → ℤ → Event

abbrev pub post_cleanup {ℓ} : {E : Type ℓ} → List E → Option E → List E
post_cleanup posted none = posted
post_cleanup posted (some e) = posted ++ (e ∷ [])

-- `issue_session_token` of the login server, which commits on its own connection.
unfoldable pub issue_transaction : (db : Database) → db.State → Bytes → ℤ → Option (db.State)
issue_transaction db s token account = do
  t ← db.begin s
  u ← db.insert_session t token account
  db.commit u

-- The state after an exception of it.
unfoldable pub issue_failed : (db : Database) → db.State → Bytes → ℤ → db.State
issue_failed db s token account =
    after_throw db s (do t ← db.begin s; db.insert_session t token account)

unfoldable pub issue_token : (db : Database) → db.State → Bytes → ℤ → db.State
issue_token db s token account =
    or_failed (issue_failed db s token account) (issue_transaction db s token account)

module _ {p : Platform} where
  open p use {registry}

  abbrev pub fresh_session : Session p
  fresh_session = record {
    state = SessionState.waiting_for_auth;
    entity = none;
    header = record { size = 0; opcode = 0 };
    payload = [];
    is_open = true;
  }

  -- `start_accept` and the constructor of `PlayerSession`.
  unfoldable pub accept : Server p → Server p
  accept st = record st {
    live = put_session st.live st.next_session (some fresh_session);
    next_session = st.next_session + 1;
  }

  abbrev pub store_and_process : Server p → ℕ → Session p × Bytes → Option (Server p × List Output)
  store_and_process st id (s, rest) =
      process_packet (record st { live = put_session st.live id (some s) }) id s

  abbrev pub process_read :
      Server p → ℕ → Option (Session p × Bytes) → Option (Server p × List Output)
  process_read st id none = some (st, [])
  process_read st id (some r) = store_and_process st id r

  abbrev pub receive_open : Server p → ℕ → Session p → Bytes → Option (Server p × List Output)
  receive_open st id s bs =
      if s.is_open then process_read st id (read_packet s bs) else some (st, [])

  -- The reads of one packet, and `on_packet_received`.
  unfoldable pub receive : Server p → ℕ → Bytes → Option (Server p × List Output)
  receive st id bs = elim (st.live id) [ none ↦ some (st, []) | some s ↦ receive_open st id s bs ]

  unfoldable pub close_socket : Server p → ℕ → Server p
  close_socket st id = elim (st.live id) [
    | none ↦ st
    | some s ↦ record st { live = put_session st.live id (some (record s { is_open = false })) }
  ]

  -- `~PlayerSession`.
  unfoldable pub drop_session : Server p → ℕ → Server p
  drop_session st id = elim (st.live id) [
    | none ↦ st
    | some s ↦ record st {
      live = put_session st.live id none;
      posted = post_cleanup st.posted s.entity;
    }
  ]

  abbrev pub announce_leave : Server p → Option PlayerData → Server p × List Output
  announce_leave st none = (st, [])
  announce_leave st (some player) =
      let (sessions, out) =
        broadcast_player_leave p st.live (to_u32 player.character_id) st.sessions in
      (record st { sessions = sessions }, out)

  -- The task that the destructor posts.
  abbrev pub clean_up : Server p → registry.Entity → Option Components → Server p × List Output
  clean_up st e none = (st, [])
  clean_up st e (some c) =
      announce_leave
        (record st {
          database = save_entity p st.database (some c);
          world = registry.destroy st.world e;
        })
        c.data_of

  abbrev pub run_next : Server p → List (registry.Entity) → Server p × List Output
  run_next st [] = (st, [])
  run_next st (e ∷ rest) = clean_up (record st { posted = rest }) e (registry.get st.world e)

  unfoldable pub run_cleanup : Server p → Server p × List Output
  run_cleanup st = run_next st st.posted

  unfoldable pub update_game_world : Server p → ℕ → Server p × List Output
  update_game_world st current_tick =
      let world = simulate_movement p st.world in
      let (sessions, out) =
        broadcast_player_states p world st.live (registry.entities world) st.sessions in
      let database =
        if should_autosave current_tick
        then autosave p world st.database (registry.entities world)
        else st.database in
      (record st { world = world; sessions = sessions; database = database }, out)

  -- While `running` holds. `tick_count` is an atomic int, which wraps.
  unfoldable pub game_loop_tick : Server p → Server p × List Output
  game_loop_tick st =
      update_game_world (record st { tick_count = (st.tick_count + 1) % 2 ^ 32 }) st.tick_count

  unfoldable pub step : Server p → Event → Option (Server p × List Output)
  step st Event.accepted = some (accept st, [])
  step st (Event.received id bs) = receive st id bs
  step st (Event.close_callback id) = some (close_socket st id, [])
  step st (Event.dropped id) = some (drop_session st id, [])
  step st Event.run_posted = some (run_cleanup st)
  step st Event.tick = some (game_loop_tick st)
  step st (Event.login_issues token account) =
      some (record st { database = issue_token p.db st.database token account }, [])

  -- A history of events, with all that it writes.
  unfoldable pub run : Server p → List Event → Option (Server p × List Output)
  run st [] = some (st, [])
  run st (ev ∷ evs) = do
    (st', out) ← step st ev
    (st'', out') ← run st' evs
    some (st'', out ++ out')

-- The server of `main`, on a database.
unfoldable pub start : (p : Platform) → p.db.State → Server p
start p database = record {
  world = p.registry.empty;
  database = database;
  sessions = [];
  live = λ id. none;
  next_session = 0;
  posted = [];
  tick_count = 0;
}
