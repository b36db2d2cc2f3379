-- ===== src/Client/Logic/Agreement.antt =====
-- client/src/main.cpp against the servers: what one side writes is what the other side acts on.
use game_x.Base.{
  ℕ, ◌+◌, ◌^◌, ◌<◌, ◌≡◌, ap, sym, ◌∙◌, false, [], ◌∷◌, ◌++◌, some, arith, length, take, drop,
  take_all, append-nil, append_assoc, true, ◌≢◌, if_pos, if_neg, refl,
}
use game_x.Base.Bytes.{Bytes, put_u16, get_u16}
use mathlib.Core.Option
use game_x.Ecs.{Registry, IsRegistry}
use game_x.Protocol.{PacketHeader, MsgPlayerMove}
use game_x.Protocol.Size
use game_x.Protocol.Text.{c_string, strncpy}
use game_x.Protocol.Codec.{
  put_header, get_header, put_player_move, get_player_move, put_game_auth, get_game_auth,
  put_redirect, get_redirect,
}
use game_x.Protocol.RoundTrip.{
  IsPlayerMove, get_player_move-put_player_move, length-put_player_move,
}
use game_x.Login.{login_response, game_server_ip}
use game_x.Login.Token.{generate_session_token, length-generate_session_token}
use game_x.Game.{Components, Platform, Session, Server}
use game_x.Game.Framing.{read_packet}
use game_x.Game.Framing.Stream.{header_of, read_packet-payload}
use game_x.Game.Process.{is_waiting, set_input, handle_move, dispatch, process_packet}
use game_x.Game.Auth.{after_login, authenticate, authenticate_failed, handle_auth}
use game_x.Client.Logic.{
  Tracked, Logic, Effect, auth_message, move_message, handle_packet, handle_redirect,
}

-- The bytes of a message that the client sends.
abbrev pub message_bytes : PacketHeader × Bytes → Bytes
message_bytes m = put_header m.0 ++ m.1

module _ {p : Platform} where
  -- The packet of a session once a message has been read.
  abbrev pub with_message : Session p → PacketHeader × Bytes → Session p
  with_message s m = record s { header = m.0; payload = m.1 }

  read_message :
      (s : Session p) (op n : ℕ) (body rest : Bytes)
      → length body ≡ n
      → 0 < n
      → n + 4 < 2 ^ 16
      → op < 2 ^ 16
      → read_packet s ((put_header (header_of op n) ++ body) ++ rest)
        ≡ some (record s { header = header_of op n; payload = body }, rest)
  read_message s op n body rest h some_body fits op_fits =
      rw (append_assoc (put_header (header_of op n)) body rest, sym h)
        (read_packet-payload s op body rest (omega arith) (omega arith) op_fits)

  -- The bytes with which the client shows a token of 32 bytes are read by the game server as one
  -- packet; for a session that waits to be authenticated, processing it looks up that very token,
  -- and the login is accepted or refused by what this finds.
  pub token_reaches_server :
      (st : Server p) (id : ℕ) (s : Session p) (token rest : Bytes)
      → length token ≡ 32
      → is_waiting s.state ≡ true
      → let shown = with_message s (auth_message token) in
        (read_packet s (message_bytes (auth_message token) ++ rest) ≡ some (shown, rest))
        × (process_packet st id shown
            ≡ some (
                after_login st id shown
                  (authenticate_failed p.db st.database token)
                  (authenticate p.db st.database token)))
  unfolding auth_message put_game_auth get_game_auth process_packet handle_auth
  token_reaches_server st id s token rest h waits = (
    read_message s 5 32 token rest h (omega arith) (omega arith) (omega arith),
    rw (waits, h, take_all token 32 (omega arith)),
  )

  -- The bytes of an intent that the client sends are read by the game server as one packet; for a
  -- session that plays and whose entity is valid, processing it leaves the entity with the very
  -- flags and yaw of the intent as its input and its other components as they were, changes no
  -- other entity and nothing else of the server, and writes nothing. The registry meets its laws.
  pub intent_reaches_server :
      (laws : IsRegistry p.registry) (st : Server p) (id : ℕ) (s : Session p)
      (e : p.registry.Entity) (c : Components) (m : MsgPlayerMove) (rest : Bytes)
      → IsPlayerMove m
      → is_waiting s.state ≡ false
      → s.entity ≡ some e
      → p.registry.get st.world e ≡ some c
      → (read_packet s (message_bytes (move_message m) ++ rest)
          ≡ some (with_message s (move_message m), rest))
        × (w : p.registry.World) × (process_packet st id (with_message s (move_message m))
            ≡ some (record st { world = w }, []))
        × (p.registry.get w e
            ≡ some (record c { input = some (record { move_flags = m.move_flags; yaw = m.yaw }) }))
        × ((d : p.registry.Entity) → e ≢ d → p.registry.get w d ≡ p.registry.get st.world d)
  unfolding move_message process_packet dispatch handle_move
  intent_reaches_server laws st id s e c m rest v plays own valid =
      let body = put_player_move m in
      let same : get_player_move body ≡ m =
        ap get_player_move (sym (append-nil body)) ∙ get_player_move-put_player_move m [] v in
      (
        read_message s 0x0200 5 body rest (length-put_player_move m) (omega arith) (omega arith)
            (omega arith),
        p.registry.modify st.world e (set_input m),
        rw (plays, length-put_player_move m, own, valid, same),
        laws.get-modify st.world e (set_input m) e
            ∙ if_pos (p.registry.same e e) refl _ _
            ∙ ap (Option.map (set_input m)) valid,
        λ d other.
            laws.get-modify st.world e (set_input m) d ∙ if_neg (p.registry.same e d) other _ _,
      )

-- The logic thread answers the redirect of the login server, in any state, by going to the address
-- and port of the game server with the very token that was issued.
pub redirect_reaches_client :
    (r : Registry Tracked) (st : Logic r) (a b : ℕ)
    → let whole = login_response (generate_session_token a b) in
      handle_packet r st (record { header = get_header whole; payload = drop Size.header whole })
      ≡ some (st, Effect.redirect game_server_ip 12345 (generate_session_token a b) ∷ [])
unfolding handle_packet handle_redirect login_response put_header put_redirect put_u16 strncpy
    get_header get_u16 get_redirect c_string
redirect_reaches_client r st a b =
    let token = generate_session_token a b in
    let whole_token : take 32 token ≡ token =
      take_all token 32 (omega (arith, length-generate_session_token a b)) in
    rw (whole_token, length-generate_session_token a b, whole_token)
