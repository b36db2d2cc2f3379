-- ===== src/Game/Auth.antt =====
-- server/game/src/main.cpp: `handle_auth`, which trades a session token for a place in the world.
pub mod SingleUse
pub mod Persistence
use game_x.Base.{
  ℕ, ◌++◌, List, [], ◌∷◌, false, Option, none, some, ◌>>=◌, if◌then◌else◌, ltb, length,
}
use game_x.Base.Bytes.{Bytes}
use game_x.Base.Int.{ℤ, to_u32}
use game_x.Float.{zero_f}
use game_x.Database.{after_throw, Database, SessionRow, CharacterRow}
use game_x.Protocol.Size
use game_x.Protocol.Codec.{get_game_auth}
use game_x.Game.{
  PlayerData, Position, PlayerInput, Components, no_components, Platform, Session, SessionState,
  Server, Output, put_session,
}
use game_x.Game.Packets.{auth_ok_packet, auth_fail_packet}

-- What the transaction finds out.
pub record Login : Type 0 where
  pub username : Bytes
  pub character : CharacterRow

module _ (db : Database) where
  abbrev pub first_or_create :
      db.State → ℤ → Bytes → List CharacterRow → Option (CharacterRow × db.State)
  first_or_create s account name [] = db.insert_character s account name
  first_or_create s account name (row ∷ rows) = some (row, s)

  -- The rest of the transaction, once the token has selected these rows.
  abbrev pub redeem : db.State → Bytes → List SessionRow → Option (Login × db.State)
  redeem s token [] = none
  redeem s token (row ∷ rows) = do
    t ← db.delete_session s token
    chars ← db.select_character t row.account_id
    (character, u) ← first_or_create t row.account_id row.username chars
    v ← db.commit u
    some (record { username = row.username; character = character }, v)

  -- `none`: no row for the token, or an exception.
  unfoldable pub authenticate : db.State → Bytes → Option (Login × db.State)
  authenticate s token = do t ← db.begin s; rows ← db.select_session t token; redeem t token rows

  -- The state that the transaction comes to commit, if it comes so far.
  abbrev pub redeem_reached : db.State → Bytes → List SessionRow → Option (db.State)
  redeem_reached s token [] = none
  redeem_reached s token (row ∷ rows) = do
    t ← db.delete_session s token
    chars ← db.select_character t row.account_id
    (character, u) ← first_or_create t row.account_id row.username chars
    some u

  unfoldable pub authenticate_reached : db.State → Bytes → Option (db.State)
  authenticate_reached s token = do
    t ← db.begin s
    rows ← db.select_session t token
    redeem_reached t token rows

  -- The state after an exception of the transaction, or where the token has no row.
  unfoldable pub authenticate_failed : db.State → Bytes → db.State
  unfolding authenticate_reached
  authenticate_failed s token = after_throw db s (authenticate_reached s token)

abbrev pub spawn_data : Login → Components → Components
spawn_data login c = record c {
  data_of = some (record { name = login.username; character_id = login.character.id });
}

abbrev pub spawn_position : Login → Components → Components
spawn_position login c = record c {
  position = some (record {
    x = login.character.pos_x;
    y = login.character.pos_y;
    z = login.character.pos_z;
    yaw = zero_f;
  });
}

abbrev pub spawn_input : Components → Components
spawn_input c = record c { input = some (record { move_flags = 0; yaw = zero_f }) }

-- `world.create()` and the three `emplace` calls.
unfoldable pub spawn :
    (p : Platform) → p.registry.World → Login → p.registry.World × p.registry.Entity
spawn p w login =
    let (w', e) = p.registry.create w no_components in
    let with_data = p.registry.modify w' e (spawn_data login) in
    let with_position = p.registry.modify with_data e (spawn_position login) in
    (p.registry.modify with_position e spawn_input, e)

module _ {p : Platform} where
  unfoldable pub close_session : Server p → ℕ → Session p → Server p × List Output
  close_session st id s = (
    record st { live = put_session st.live id (some (record s { is_open = false })) },
    Output.close id ∷ [],
  )

  unfoldable pub enter_world :
      Server p → ℕ → Session p → Login × p.db.State → Server p × List Output
  enter_world st id s (login, database) =
      let (world, e) = spawn p st.world login in
      let session = record s { state = SessionState.authenticated; entity = some e } in
      (
        record st {
          world = world;
          database = database;
          sessions = st.sessions ++ (id ∷ []);
          live = put_session st.live id (some session);
        },
        Output.write_or_close id (auth_ok_packet (to_u32 login.character.id)) ∷ [],
      )

  abbrev pub after_login :
      Server p → ℕ → Session p → p.db.State → Option (Login × p.db.State) → Server p × List Output
  after_login st id s failed none =
      (record st { database = failed }, Output.write_then_close id auth_fail_packet ∷ [])
  after_login st id s failed (some found) = enter_world st id s found

  unfoldable pub handle_auth : Server p → ℕ → Session p → Server p × List Output
  handle_auth st id s =
      if ltb (length s.payload) Size.game_auth
      then close_session st id s
      else after_login st id s
          (authenticate_failed p.db st.database (get_game_auth s.payload).session_token)
          (authenticate p.db st.database (get_game_auth s.payload).session_token)
