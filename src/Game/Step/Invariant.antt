-- ===== src/Game/Step/Invariant.antt =====
-- server/game/src/main.cpp: every event on the strand keeps the server's state in order.
use game_x.Base.{
  ℕ, ◌≡◌, refl, sym, subst, ◌∙◌, inl, inr, false, List, [], ◌∷◌, Option, none, some, arith,
  Bool-cases, Option-cases, In, >>=-eq-some,
}
use game_x.Base.Bytes.{Bytes}
use game_x.Ecs.{IsRegistry, occurrences}
use game_x.Game.{Components, PlayerData, Platform, Session, Server, Output, put_session}
use game_x.Game.Framing.{read_packet, read_payload}
use game_x.Game.Broadcast.{broadcast_player_leave}
use game_x.Game.Step.{
  Event, accept, receive, close_socket, drop_session, clean_up, announce_leave, run_next,
  run_cleanup, update_game_world, game_loop_tick, step, run, start,
}
use game_x.Game.Step.Ownership.{Owns, put_session-SameSessions, put_session_self}
use game_x.Game.Step.Transfer.{Owns-SameSessions, Owns-SameEntities, Owns-accept, Owns-drop}
use game_x.Game.Step.Pruning.{Registers-for_sessions, Registers-player_states}
use game_x.Game.Step.Cleanup.{Owns-cleanup}
use game_x.Game.Step.Registration.{
  Registers-SameSessions, Registers-accept, Registers-drop, next_free,
}
use game_x.Game.Step.WellFormed.{IsWellFormed, result-IsWellFormed}
use game_x.Game.Step.Packets.{simulate-SameEntities, process_packet-IsWellFormed}

module _ {p : Platform} where
  -- What the reads of a packet leave alone.
  pub read_packet-same :
      (s : Session p) (bs : Bytes) (r : Session p × Bytes)
      → read_packet s bs ≡ some r
      → (r.0.state ≡ s.state) × (r.0.entity ≡ s.entity)
  unfolding read_packet read_payload
  read_packet-same s bs r h = ground arith

  accept-IsWellFormed : (st : Server p) → IsWellFormed st → IsWellFormed (accept st)
  unfolding accept
  accept-IsWellFormed st v = record {
    owns = Owns-accept v.owns st.next_session (next_free v.registers);
    registers = Registers-accept v.registers;
  }

  pub change_session-IsWellFormed :
      (st : Server p) (id : ℕ) (s s' : Session p)
      → st.live id ≡ some s
      → s'.state ≡ s.state
      → s'.entity ≡ s.entity
      → IsWellFormed st
      → IsWellFormed (record st { live = put_session st.live id (some s') })
  change_session-IsWellFormed st id s s' here e1 e2 v =
      let same = put_session-SameSessions st.live id s s' here e1 e2 in
      record {
        owns = Owns-SameSessions v.owns same;
        registers = Registers-SameSessions v.registers same;
      }

  close_socket-IsWellFormed :
      (st : Server p) (id : ℕ) → IsWellFormed st → IsWellFormed (close_socket st id)
  unfolding close_socket
  close_socket-IsWellFormed st id v = elim (Option-cases (st.live id)) [
    | inl gone ↦ rw (gone, close_socket) v
    | inr (s, here) ↦
        rw (here, close_socket)
          (change_session-IsWellFormed st id s (record s { is_open = false }) here refl refl v)
  ]

  drop_session-IsWellFormed :
      (st : Server p) (id : ℕ) → IsWellFormed st → IsWellFormed (drop_session st id)
  unfolding drop_session
  drop_session-IsWellFormed st id v = elim (Option-cases (st.live id)) [
    | inl gone ↦ rw (gone, drop_session) v
    | inr (s, here) ↦
        rw (here, drop_session)
          (record { owns = Owns-drop v.owns id s here; registers = Registers-drop v.registers id })
  ]

  announce_leave-IsWellFormed :
      (st : Server p) (player : Option PlayerData)
      → IsWellFormed st
      → IsWellFormed (announce_leave st player).0
  unfolding broadcast_player_leave
  announce_leave-IsWellFormed st none v = v
  announce_leave-IsWellFormed st (some player) v = record {
    owns = v.owns;
    registers = Registers-for_sessions _ st.sessions v.registers;
  }

module _ {p : Platform} (laws : IsRegistry p.registry) where
  receive-IsWellFormed :
      (st st' : Server p) (id : ℕ) (bs : Bytes) (out : List Output)
      → IsWellFormed st
      → receive st id bs ≡ some (st', out)
      → IsWellFormed st'
  unfolding receive
  receive-IsWellFormed st st' id bs out v h = elim (Option-cases (st.live id)) [
    | inl gone ↦ result-IsWellFormed (st, []) st' out (ground arith) v
    | inr (s, here) ↦ elim (Bool-cases s.is_open) [
      | inr shut ↦ result-IsWellFormed (st, []) st' out (ground arith) v
      | inl opened ↦ elim (Option-cases (read_packet s bs)) [
        | inl short ↦ result-IsWellFormed (st, []) st' out (ground arith) v
        | inr (r, e) ↦
            let (state, entity) = read_packet-same s bs r e in
            process_packet-IsWellFormed laws
              (record st { live = put_session st.live id (some r.0) }) st' id r.0 out
              (put_session_self st.live id (some r.0))
              (change_session-IsWellFormed st id s r.0 here state entity v) (ground arith)
      ]
    ]
  ]

  clean_up-IsWellFormed :
      (st : Server p) (e : p.registry.Entity) (rest : List (p.registry.Entity))
      (o : Option Components)
      → st.posted ≡ e ∷ rest
      → p.registry.get st.world e ≡ o
      → IsWellFormed st
      → IsWellFormed (clean_up (record st { posted = rest }) e o).0
  clean_up-IsWellFormed st e rest none eq missing v =
      let player = v.owns.posted_player e (subst (In e) (sym eq) (inl refl)) in
      absurd (cc (sym missing ∙ player.1))
  clean_up-IsWellFormed st e rest (some c) eq here v =
      announce_leave-IsWellFormed _ c.data_of (record {
        owns =
            Owns-cleanup p laws e rest (subst (λ posted. Owns p st.world st.live posted) eq v.owns);
        registers = v.registers;
      })

  run_next-IsWellFormed :
      (st : Server p) (posted : List (p.registry.Entity))
      → st.posted ≡ posted
      → IsWellFormed st
      → IsWellFormed (run_next st posted).0
  run_next-IsWellFormed st [] eq v = v
  run_next-IsWellFormed st (e ∷ rest) eq v =
      clean_up-IsWellFormed st e rest (p.registry.get st.world e) eq refl v

  run_cleanup-IsWellFormed : (st : Server p) → IsWellFormed st → IsWellFormed (run_cleanup st).0
  unfolding run_cleanup
  run_cleanup-IsWellFormed st v = run_next-IsWellFormed st st.posted refl v

  game_loop_tick-IsWellFormed :
      (st : Server p) → IsWellFormed st → IsWellFormed (game_loop_tick st).0
  unfolding game_loop_tick update_game_world
  game_loop_tick-IsWellFormed st v = record {
    owns = Owns-SameEntities v.owns (simulate-SameEntities laws st.world);
    registers = Registers-player_states _ _ st.sessions v.registers;
  }

-- Every event that reaches the strand keeps the server well formed, where its handler is defined
-- and the registry meets its laws: see IsWellFormed.
pub step-IsWellFormed :
    (p : Platform) (laws : IsRegistry p.registry) (st st' : Server p) (ev : Event)
    (out : List Output)
    → IsWellFormed st
    → step st ev ≡ some (st', out)
    → IsWellFormed st'
unfolding step
step-IsWellFormed p laws st st' Event.accepted out v h =
    result-IsWellFormed (accept st, []) st' out h (accept-IsWellFormed st v)
step-IsWellFormed p laws st st' (Event.received id bs) out v h =
    receive-IsWellFormed laws st st' id bs out v h
step-IsWellFormed p laws st st' (Event.close_callback id) out v h =
    result-IsWellFormed (close_socket st id, []) st' out h (close_socket-IsWellFormed st id v)
step-IsWellFormed p laws st st' (Event.dropped id) out v h =
    result-IsWellFormed (drop_session st id, []) st' out h (drop_session-IsWellFormed st id v)
step-IsWellFormed p laws st st' Event.run_posted out v h =
    result-IsWellFormed (run_cleanup st) st' out h (run_cleanup-IsWellFormed laws st v)
step-IsWellFormed p laws st st' Event.tick out v h =
    result-IsWellFormed (game_loop_tick st) st' out h (game_loop_tick-IsWellFormed laws st v)
step-IsWellFormed p laws st st' (Event.login_issues token account) out v h =
    result-IsWellFormed _ st' out h (record { owns = v.owns; registers = v.registers })

pub run-IsWellFormed :
    (p : Platform) (laws : IsRegistry p.registry) (st st' : Server p) (evs : List Event)
    (out : List Output)
    → IsWellFormed st
    → run st evs ≡ some (st', out)
    → IsWellFormed st'
unfolding run
run-IsWellFormed p laws st st' [] out v h = result-IsWellFormed (st, []) st' out h v
run-IsWellFormed p laws st st' (ev ∷ evs) out v h =
    let (r, er, hr) = >>=-eq-some (step st ev) _ h in
    let (r', er', hr') = >>=-eq-some (run r.0 evs) _ hr in
    let one = step-IsWellFormed p laws st r.0 ev r.1 v er in
    result-IsWellFormed _ st' out hr' (run-IsWellFormed p laws r.0 r'.0 evs r'.1 one er')

pub start-IsWellFormed :
    (p : Platform) (laws : IsRegistry p.registry) (database : p.db.State)
    → IsWellFormed (start p database)
unfolding start occurrences
start-IsWellFormed p laws database = record {
  owns = record {
    waiting_bare = λ i s h. cc;
    playing = λ i s h. cc;
    owned_player = λ i s e h. cc;
    owner_unique = λ i j s t e h. cc;
    posted_player = λ e m. elim m [ ];
    posted_free = λ e i s m. elim m [ ];
    posted_once = λ e. omega arith;
    no_leak = λ e c h. absurd (cc (sym (laws.get-empty e) ∙ h));
  };
  registers = record {
    registered = λ i s h. cc;
    waiting_absent = λ i s h. cc;
    once = λ i. omega arith;
    live_numbered = λ i s h. cc;
    listed_numbered = λ i m. elim m [ ];
  };
}

-- The server is well formed after any history of events since its start in which every handler is
-- defined.
pub run-start-IsWellFormed :
    (p : Platform) (laws : IsRegistry p.registry) (database : p.db.State) (evs : List Event)
    (st' : Server p) (out : List Output)
    → run (start p database) evs ≡ some (st', out)
    → IsWellFormed st'
run-start-IsWellFormed p laws database evs st' out h =
    run-IsWellFormed p laws _ st' evs out (start-IsWellFormed p laws database) h
