-- ===== src/Game/Step/Tokens.antt =====
-- server/game/src/main.cpp: session tokens over a whole history of the server.
use game_x.Base.{
  ℕ, ◌≡◌, refl, sym, subst, inl, inr, false, List, [], ◌∷◌, Option, none, some, >>=-eq-some, ◌>>=◌,
  Option-cases, Bool-cases, arith, All, ltb, length, ◌==◌,
}
use game_x.Base.Bytes.{Bytes}
use game_x.Base.Int.{ℤ}
use game_x.Database.{IsDatabase}
use game_x.Game.{Components, Platform, PlayerData, Position, Session, Server, Output, put_session}
use game_x.Game.World.{save_parts, save_entity, autosave, should_autosave}
use game_x.Protocol.{Opcode, opcode}
use game_x.Protocol.Size
use game_x.Protocol.Codec.{get_game_auth}
use game_x.Game.Auth.{
  Login, authenticate, authenticate_failed, handle_auth, after_login, enter_world, close_session,
}
use game_x.Game.Auth.SingleUse.{
  Keeps, or_failed-Keeps, after_throw-Keeps, save_character-Keeps, authenticate-Keeps,
  authenticate_unknown, authenticate_failed-Keeps, authenticate_failed_unknown,
}
use game_x.Game.Process.{process_packet, dispatch, handle_move, handle_chat, is_waiting}
use game_x.Game.Packets.{auth_fail_packet}
use game_x.Game.Framing.{read_packet}
use game_x.Game.Step.{
  Event, accept, receive, close_socket, drop_session, run_cleanup, game_loop_tick,
  update_game_world, issue_transaction, issue_failed, issue_token, step, run, clean_up, run_next,
  announce_leave,
}

-- The event is the login server's issue of this token.
abbrev pub Issues : Bytes → Event → Type 0
Issues t (Event.login_issues u account) = t ≡ u
Issues t _ = ⊥

module _ {p : Platform} where
  dispatch-database :
      (st : Server p) (id : ℕ) (s : Session p) {st' : Server p} {out : List Output}
      → dispatch st id s ≡ some (st', out)
      → st'.database ≡ st.database
  unfolding dispatch handle_move handle_chat
  dispatch-database st id s h = ground arith

  announce_leave-database :
      (st : Server p) (player : Option PlayerData)
      → (announce_leave st player).0.database ≡ st.database
  announce_leave-database st none = refl
  announce_leave-database st (some player) = refl

module _ (p : Platform) (laws : IsDatabase p.db) (t : Bytes) where
  abbrev Kept : Server p → Server p → Type 0
  Kept st st' = Keeps laws t st.database st'.database

  keeps_unchanged : (st st' : Server p) → st'.database ≡ st.database → Kept st st'
  keeps_unchanged st st' e k = subst (λ d. laws.HasToken d t) e k

  keeps_through : (st r st' : Server p) → st'.database ≡ r.database → Kept st r → Kept st st'
  keeps_through st r st' e h k = h (subst (λ d. laws.HasToken d t) e k)

  after_login-Kept :
      (st : Server p) (id : ℕ) (s : Session p) (failed : p.db.State)
      (o : Option (Login × p.db.State))
      → Keeps laws t st.database failed
      → ((l : Login) (d : p.db.State) → o ≡ some (l, d) → Keeps laws t st.database d)
      → Kept st (after_login st id s failed o).0
  unfolding enter_world
  after_login-Kept st id s failed none f h = f
  after_login-Kept st id s failed (some (l, d)) f h = h l d refl

  handle_auth-Kept : (st : Server p) (id : ℕ) (s : Session p) → Kept st (handle_auth st id s).0
  unfolding handle_auth close_session enter_world
  handle_auth-Kept st id s =
      let token = (get_game_auth s.payload).session_token in
      elim (Bool-cases (ltb (length s.payload) Size.game_auth)) [
        | inl short ↦ rw short (λ k. k)
        | inr full ↦ rw full (
            after_login-Kept st id s (authenticate_failed p.db st.database token)
              (authenticate p.db st.database token)
              (authenticate_failed-Keeps laws t token st.database)
              (λ l d e. (authenticate-Keeps laws t token st.database d l e).0))
      ]

  process_packet-Kept :
      (st : Server p) (id : ℕ) (s : Session p) (st' : Server p) (out : List Output)
      → process_packet st id s ≡ some (st', out)
      → Kept st st'
  unfolding process_packet close_session
  process_packet-Kept st id s st' out h = elim (Bool-cases (is_waiting s.state)) [
    | inl waits ↦ elim (Bool-cases (s.header.opcode == opcode Opcode.cmsg_game_auth)) [
      | inl auth ↦
          let e : st'.database ≡ (handle_auth st id s).0.database = ground arith in
          keeps_through st (handle_auth st id s).0 st' e (handle_auth-Kept st id s)
      | inr other ↦ keeps_unchanged st st' (ground arith)
    ]
    | inr plays ↦
        keeps_unchanged st st' (dispatch-database st id s {st' = st'} {out = out} (ground arith))
  ]

  receive-Kept :
      (st : Server p) (id : ℕ) (bs : Bytes) (st' : Server p) (out : List Output)
      → receive st id bs ≡ some (st', out)
      → Kept st st'
  unfolding receive
  receive-Kept st id bs st' out h = elim (Option-cases (st.live id)) [
    | inl gone ↦ keeps_unchanged st st' (ground arith)
    | inr (s, e) ↦ elim (Bool-cases s.is_open) [
      | inr shut ↦ keeps_unchanged st st' (ground arith)
      | inl opened ↦ elim (Option-cases (read_packet s bs)) [
        | inl short ↦ keeps_unchanged st st' (ground arith)
        | inr (r, e') ↦
            process_packet-Kept (record st { live = put_session st.live id (some r.0) }) id r.0 st'
              out (ground arith)
      ]
    ]
  ]

  save_parts-Keeps :
      (d : p.db.State) (player : Option PlayerData) (pos : Option Position)
      → Keeps laws t d (save_parts p d player pos)
  save_parts-Keeps d (some player) (some pos) k =
      save_character-Keeps laws t d player.character_id pos.x pos.y pos.z k
  save_parts-Keeps d (some player) none k = k
  save_parts-Keeps d none pos k = k

  save_entity-Keeps : (d : p.db.State) (o : Option Components) → Keeps laws t d (save_entity p d o)
  unfolding save_entity
  save_entity-Keeps d none k = k
  save_entity-Keeps d (some c) k = save_parts-Keeps d c.data_of c.position k

  autosave-Keeps :
      (w : p.registry.World) (d : p.db.State) (es : List (p.registry.Entity))
      → Keeps laws t d (autosave p w d es)
  unfolding autosave
  autosave-Keeps w d [] k = k
  autosave-Keeps w d (e ∷ es) k =
      save_entity-Keeps d (p.registry.get w e)
        (autosave-Keeps w (save_entity p d (p.registry.get w e)) es k)

  clean_up-Kept :
      (st : Server p) (e : p.registry.Entity) (o : Option Components) → Kept st (clean_up st e o).0
  clean_up-Kept st e none k = k
  clean_up-Kept st e (some c) k =
      let saved = record st {
        database = save_entity p st.database (some c);
        world = p.registry.destroy st.world e;
      } in
      save_entity-Keeps st.database (some c)
        (subst (λ d. laws.HasToken d t) (announce_leave-database saved c.data_of) k)

  run_next-Kept : (st : Server p) (es : List (p.registry.Entity)) → Kept st (run_next st es).0
  run_next-Kept st [] k = k
  run_next-Kept st (e ∷ es) k =
      clean_up-Kept (record st { posted = es }) e (p.registry.get st.world e) k

  run_cleanup-Kept : (st : Server p) → Kept st (run_cleanup st).0
  unfolding run_cleanup
  run_cleanup-Kept st = run_next-Kept st st.posted

  game_loop_tick-Kept : (st : Server p) → Kept st (game_loop_tick st).0
  unfolding game_loop_tick update_game_world
  game_loop_tick-Kept st = elim (Bool-cases (should_autosave st.tick_count)) [
    | inl due ↦ rw due (autosave-Keeps _ st.database _)
    | inr idle ↦ rw idle (λ k. k)
  ]

  issue_transaction-Keeps :
      (d d' : p.db.State) (u : Bytes) (account : ℤ)
      → ¬ (t ≡ u)
      → issue_transaction p.db d u account ≡ some d'
      → Keeps laws t d d'
  unfolding issue_transaction
  issue_transaction-Keeps d d' u account other h k =
      let (a, ea, ra) = >>=-eq-some (p.db.begin d) _ h in
      let (b, eb, eb') = >>=-eq-some (p.db.insert_session a u account) _ ra in
      elim (laws.insert_session_adds a b t u account eb (laws.commit_keeps b d' t eb' k)) [
        | inl e ↦ absurd (other e)
        | inr k' ↦ laws.begin_keeps d a t ea k'
      ]

  issue_failed-Keeps :
      (d : p.db.State) (u : Bytes) (account : ℤ)
      → ¬ (t ≡ u)
      → Keeps laws t d (issue_failed p.db d u account)
  unfolding issue_failed
  issue_failed-Keeps d u account other =
      after_throw-Keeps laws t d (p.db.begin d >>= λ a. p.db.insert_session a u account) λ b h k.
        let (a, ea, eb) = >>=-eq-some (p.db.begin d) _ h in
        elim (laws.insert_session_adds a b t u account eb k) [
          | inl e ↦ absurd (other e)
          | inr k' ↦ laws.begin_keeps d a t ea k'
        ]

  issue_token-Keeps :
      (d : p.db.State) (u : Bytes) (account : ℤ)
      → ¬ (t ≡ u)
      → Keeps laws t d (issue_token p.db d u account)
  unfolding issue_token
  issue_token-Keeps d u account other =
      or_failed-Keeps laws t d (issue_failed p.db d u account) (issue_transaction p.db d u account)
        (issue_failed-Keeps d u account other)
        λ d' h. issue_transaction-Keeps d d' u account other h

  -- Whatever happens on the strand, only the login server's issue makes a token appear.
  pub step-Kept :
      (st : Server p) (ev : Event) (st' : Server p) (out : List Output)
      → ¬ Issues t ev
      → step st ev ≡ some (st', out)
      → Kept st st'
  unfolding step accept close_socket drop_session
  step-Kept st Event.accepted st' out other h = keeps_unchanged st st' (ground arith)
  step-Kept st (Event.received id bs) st' out other h = receive-Kept st id bs st' out h
  step-Kept st (Event.close_callback id) st' out other h = keeps_unchanged st st' (ground arith)
  step-Kept st (Event.dropped id) st' out other h = keeps_unchanged st st' (ground arith)
  step-Kept st Event.run_posted st' out other h =
      keeps_through st (run_cleanup st).0 st' (cc) (run_cleanup-Kept st)
  step-Kept st Event.tick st' out other h =
      keeps_through st (game_loop_tick st).0 st' (cc) (game_loop_tick-Kept st)
  step-Kept st (Event.login_issues u account) st' out other h =
      keeps_through st (record st { database = issue_token p.db st.database u account }) st' (cc)
        (issue_token-Keeps st.database u account other)

  run-Kept :
      (st : Server p) (evs : List Event) (st' : Server p) (out : List Output)
      → All (λ ev. ¬ Issues t ev) evs
      → run st evs ≡ some (st', out)
      → Kept st st'
  unfolding run
  run-Kept st [] st' out other h k = keeps_unchanged st st' (ground arith) k
  run-Kept st (ev ∷ evs) st' out (o, os) h k =
      let (r, er, hr) = >>=-eq-some (step st ev) _ h in
      let (r', er', hr') = >>=-eq-some (run r.0 evs) _ hr in
      let same : r'.0.database ≡ st'.database = cc in
      step-Kept st ev r.0 r.1 o er
        (run-Kept r.0 evs r'.0 r'.1 os er' (subst (λ d. laws.HasToken d t) (sym same) k))

-- The token of a CMSG_GAME_AUTH payload.
abbrev pub token_of : {p : Platform} → Session p → Bytes
token_of s = (get_game_auth s.payload).session_token

-- Once a session has entered the world with a token, and after any defined history of events in
-- which the login server does not issue that token again, a CMSG_GAME_AUTH payload of full size
-- with that token is answered with SMSG_GAME_AUTH_FAIL and a close after it, and changes nothing.
pub token_opens_once :
    (p : Platform) (laws : IsDatabase p.db) (st : Server p) (id : ℕ) (s : Session p)
    (found : Login × p.db.State) (evs : List Event) (st' : Server p) (out : List Output) (k : ℕ)
    (s' : Session p)
    → ltb (length s.payload) Size.game_auth ≡ false
    → authenticate p.db st.database (token_of s) ≡ some found
    → run (handle_auth st id s).0 evs ≡ some (st', out)
    → All (λ ev. ¬ Issues (token_of s) ev) evs
    → ltb (length s'.payload) Size.game_auth ≡ false
    → token_of s' ≡ token_of s
    → handle_auth st' k s' ≡ (st', Output.write_then_close k auth_fail_packet ∷ [])
unfolding handle_auth enter_world
token_opens_once p laws st id s found evs st' out k s' full ok h other full' same =
    let spent =
      (authenticate-Keeps laws (token_of s) (token_of s) st.database found.1 found.0 ok).1 in
    let entered : (handle_auth st id s).0.database ≡ found.1 = rw (full, ok) in
    let gone : ¬ laws.HasToken st'.database (token_of s) = λ has. spent (
      subst (λ d. laws.HasToken d (token_of s)) entered
        (run-Kept p laws (token_of s) _ evs st' out other h has)) in
    rw (
      full',
      same,
      authenticate_unknown laws (token_of s) st'.database gone,
      authenticate_failed_unknown laws (token_of s) st'.database gone,
    )
