-- ===== src/Game/Step/Packets.antt =====
-- server/game/src/main.cpp: a packet keeps the server's state in order, whatever it holds.
use game_x.Base.{
  ℕ, ◌≡◌, refl, sym, ap, ◌∙◌, inl, inr, true, false, List, [], Option, none, some, ◌==◌, Bool-cases,
  if_pos, ltb, length, >>=-eq-some, drop,
}
use game_x.Float.{Fpu}
use game_x.Ecs.{IsRegistry}
use game_x.Protocol.{Opcode, opcode, MsgPlayerMove}
use game_x.Protocol.Size
use game_x.Protocol.Text.{c_string}
use game_x.Protocol.Codec.{get_game_auth, get_player_move, get_chat_send}
use game_x.Game.{Components, PlayerData, PlayerInput, Position, Platform, Session, Server, Output}
use game_x.Game.World.{move_player, move_parts, simulate_movement}
use game_x.Game.World.Simulate.{get-simulate_movement}
use game_x.Game.Broadcast.{entity_of}
use game_x.Game.Auth.{
  Login, authenticate, authenticate_failed, close_session, enter_world, after_login, handle_auth,
  spawn,
}
use game_x.Game.Process.{
  is_waiting, set_input, put_input, put_input_of, handle_move, say_as, chat_of, handle_chat,
  dispatch, process_packet, chat_text,
}
use game_x.Game.Step.Ownership.{IsComplete, SameEntities, put_session-SameSessions}
use game_x.Game.Step.Transfer.{Owns-SameSessions, Owns-SameEntities, Owns-enter}
use game_x.Game.Step.Pruning.{Registers-chat}
use game_x.Game.Step.Cleanup.{get-modify_ne, spawn_fresh, spawn-IsPlayer, spawn_elsewhere}
use game_x.Game.Step.Registration.{Registers-SameSessions, Registers-enter}
use mathlib.Core.Option
use game_x.Game.Step.WellFormed.{IsWellFormed, result-IsWellFormed}

module _ (fpu : Fpu) where
  move_parts-IsComplete :
      (c : Components) (input : Option PlayerInput) (pos : Option Position)
      → IsComplete c
      → IsComplete (move_parts fpu c input pos)
  move_parts-IsComplete c (some input) (some pos) h = record {
    has_data = h.has_data;
    has_position = refl;
    has_input = h.has_input;
  }
  move_parts-IsComplete c (some input) none h = h
  move_parts-IsComplete c none pos h = h

map-some-cases :
    (f : Components → Components) (o : Option Components) (c' : Components)
    → Option.map f o ≡ some c'
    → (c : Components) × (o ≡ some c)
map-some-cases f none c' h = cc
map-some-cases f (some c) c' h = (c, refl)

module _ {p : Platform} (laws : IsRegistry p.registry) where
  -- A change of one entity that keeps its components.
  modify-SameEntities :
      (w : p.registry.World) (d : p.registry.Entity) (f : Components → Components)
      → ((c : Components) → IsComplete c → IsComplete (f c))
      → SameEntities p w (p.registry.modify w d f)
  modify-SameEntities w d f keeps = record {
    back = λ e c' h. elim (p.registry.same d e) [
      | yes hit ↦
          let e1 =
            laws.get-modify w d f e ∙ if_pos (p.registry.same d e) hit _ (p.registry.get w e) in
          map-some-cases f (p.registry.get w e) c' (sym e1 ∙ h)
      | no miss ↦ (c', sym (get-modify_ne p laws w d e f miss) ∙ h)
    ];
    forth = λ e c h q. elim (p.registry.same d e) [
      | yes hit ↦
          let e1 =
            laws.get-modify w d f e ∙ if_pos (p.registry.same d e) hit _ (p.registry.get w e) in
          (f c, e1 ∙ ap (Option.map f) h, keeps c q)
      | no miss ↦ (c, get-modify_ne p laws w d e f miss ∙ h, q)
    ];
  }

  pub simulate-SameEntities : (w : p.registry.World) → SameEntities p w (simulate_movement p w)
  unfolding move_player
  simulate-SameEntities w = record {
    back = λ e c' h.
        map-some-cases (move_player p.fpu) (p.registry.get w e) c'
          (sym (get-simulate_movement p laws w e) ∙ h);
    forth = λ e c h q. (
      move_player p.fpu c,
      get-simulate_movement p laws w e ∙ ap (Option.map (move_player p.fpu)) h,
      move_parts-IsComplete p.fpu c c.input c.position q,
    );
  }

  put_input-IsWellFormed :
      (st : Server p) (m : MsgPlayerMove) (e : p.registry.Entity) (o : Option Components)
      → IsWellFormed st
      → IsWellFormed (put_input st m e o)
  put_input-IsWellFormed st m e none v = v
  put_input-IsWellFormed st m e (some c) v = record {
    owns = Owns-SameEntities v.owns (
        modify-SameEntities st.world e (set_input m) (λ d q. record {
          has_data = q.has_data;
          has_position = q.has_position;
          has_input = refl;
        }));
    registers = v.registers;
  }

  put_input_of-IsWellFormed :
      (st : Server p) (m : MsgPlayerMove) (o : Option (p.registry.Entity))
      → IsWellFormed st
      → IsWellFormed (put_input_of st m o)
  put_input_of-IsWellFormed st m none v = v
  put_input_of-IsWellFormed st m (some e) v =
      put_input-IsWellFormed st m e (p.registry.get st.world e) v

  handle_move-IsWellFormed :
      (st : Server p) (s : Session p) → IsWellFormed st → IsWellFormed (handle_move st s).0
  unfolding handle_move
  handle_move-IsWellFormed st s v = elim (Bool-cases (ltb (length s.payload) Size.player_move)) [
    | inl short ↦ rw short v
    | inr full ↦ rw full (put_input_of-IsWellFormed st (get_player_move s.payload) s.entity v)
  ]

  say_as-IsWellFormed :
      (st st' : Server p) (s : Session p) (player : Option PlayerData) (pos : Option Position)
      (out : List Output)
      → IsWellFormed st
      → say_as st s player pos ≡ some (st', out)
      → IsWellFormed st'
  say_as-IsWellFormed st st' s (some player) (some pos) out v h =
      let (target, et, ht) = >>=-eq-some (c_string (drop 1 s.payload)) _ h in
      let done =
        Registers-chat st.world (get_chat_send s.payload).channel player.name pos.x pos.z target
          (chat_text s.payload) st.sessions v.registers in
      result-IsWellFormed _ st' out ht (record { owns = v.owns; registers = done })
  say_as-IsWellFormed st st' s (some player) none out v h = cc
  say_as-IsWellFormed st st' s none pos out v h = cc

  chat_of-IsWellFormed :
      (st st' : Server p) (s : Session p) (o : Option Components) (out : List Output)
      → IsWellFormed st
      → chat_of st s o ≡ some (st', out)
      → IsWellFormed st'
  chat_of-IsWellFormed st st' s none out v h = result-IsWellFormed (st, []) st' out h v
  chat_of-IsWellFormed st st' s (some c) out v h =
      say_as-IsWellFormed st st' s c.data_of c.position out v h

  handle_chat-IsWellFormed :
      (st st' : Server p) (s : Session p) (out : List Output)
      → IsWellFormed st
      → handle_chat st s ≡ some (st', out)
      → IsWellFormed st'
  unfolding handle_chat
  handle_chat-IsWellFormed st st' s out v h =
      elim (Bool-cases (ltb (length s.payload) Size.chat_send)) [
        | inl short ↦ result-IsWellFormed (st, []) st' out (rw short at h) v
        | inr full ↦ chat_of-IsWellFormed st st' s (entity_of p st.world s) out v (rw full at h)
      ]

  dispatch-IsWellFormed :
      (st st' : Server p) (id : ℕ) (s : Session p) (out : List Output)
      → IsWellFormed st
      → dispatch st id s ≡ some (st', out)
      → IsWellFormed st'
  unfolding dispatch
  dispatch-IsWellFormed st st' id s out v h = elim (Bool-cases (s.header.opcode == 1)) [
    | inl ping ↦ result-IsWellFormed (st, _) st' out (rw ping at h) v
    | inr n1 ↦ elim (Bool-cases (s.header.opcode == 0x200)) [
      | inl move ↦
          result-IsWellFormed (handle_move st s) st' out (rw (n1, move) at h)
            (handle_move-IsWellFormed st s v)
      | inr n2 ↦ elim (Bool-cases (s.header.opcode == 0x100)) [
        | inl chat ↦ handle_chat-IsWellFormed st st' s out v (rw (n1, n2, chat) at h)
        | inr n3 ↦ result-IsWellFormed (st, []) st' out (rw (n1, n2, n3) at h) v
      ]
    ]
  ]

  pub close_session-IsWellFormed :
      (st : Server p) (id : ℕ) (s : Session p)
      → st.live id ≡ some s
      → IsWellFormed st
      → IsWellFormed (close_session st id s).0
  unfolding close_session
  close_session-IsWellFormed st id s here v =
      let same =
        put_session-SameSessions st.live id s (record s { is_open = false }) here refl refl in
      record {
        owns = Owns-SameSessions v.owns same;
        registers = Registers-SameSessions v.registers same;
      }

  enter_world-IsWellFormed :
      (st : Server p) (id : ℕ) (s : Session p) (found : Login × p.db.State)
      → st.live id ≡ some s
      → is_waiting s.state ≡ true
      → IsWellFormed st
      → IsWellFormed (enter_world st id s found).0
  unfolding enter_world
  enter_world-IsWellFormed st id s (l, d) here wait v = record {
    owns =
        Owns-enter v.owns id s _ (spawn p st.world l).1 here wait refl refl
          (spawn_fresh p laws st.world l) (spawn-IsPlayer p laws st.world l)
          (spawn_elsewhere p laws st.world l);
    registers = Registers-enter v.registers id s _ here wait refl;
  }

  after_login-IsWellFormed :
      (st : Server p) (id : ℕ) (s : Session p) (failed : p.db.State)
      (o : Option (Login × p.db.State))
      → st.live id ≡ some s
      → is_waiting s.state ≡ true
      → IsWellFormed st
      → IsWellFormed (after_login st id s failed o).0
  after_login-IsWellFormed st id s failed none here wait v = record {
    owns = v.owns;
    registers = v.registers;
  }
  after_login-IsWellFormed st id s failed (some found) here wait v =
      enter_world-IsWellFormed st id s found here wait v

  handle_auth-IsWellFormed :
      (st : Server p) (id : ℕ) (s : Session p)
      → st.live id ≡ some s
      → is_waiting s.state ≡ true
      → IsWellFormed st
      → IsWellFormed (handle_auth st id s).0
  unfolding handle_auth
  handle_auth-IsWellFormed st id s here wait v =
      elim (Bool-cases (ltb (length s.payload) Size.game_auth)) [
        | inl short ↦ rw short (close_session-IsWellFormed st id s here v)
        | inr full ↦ rw full (
            after_login-IsWellFormed st id s
              (authenticate_failed p.db st.database (get_game_auth s.payload).session_token)
              (authenticate p.db st.database (get_game_auth s.payload).session_token) here wait v)
      ]

  pub process_packet-IsWellFormed :
      (st st' : Server p) (id : ℕ) (s : Session p) (out : List Output)
      → st.live id ≡ some s
      → IsWellFormed st
      → process_packet st id s ≡ some (st', out)
      → IsWellFormed st'
  unfolding process_packet
  process_packet-IsWellFormed st st' id s out here v h = elim (Bool-cases (is_waiting s.state)) [
    | inl wait ↦ elim (Bool-cases (s.header.opcode == opcode Opcode.cmsg_game_auth)) [
      | inl auth ↦
          result-IsWellFormed (handle_auth st id s) st' out (rw (wait, auth) at h)
            (handle_auth-IsWellFormed st id s here wait v)
      | inr other ↦
          result-IsWellFormed (close_session st id s) st' out (rw (wait, other) at h)
            (close_session-IsWellFormed st id s here v)
    ]
    | inr play ↦ dispatch-IsWellFormed st st' id s out v (rw play at h)
  ]
