-- ===== src/Game/Step/Defined.antt =====
-- server/game/src/main.cpp: which events have a defined outcome.
use game_x.Base.{
  ℕ, ◌≡◌, ◌↔◌, refl, ap, ◌∙◌, inl, inr, true, none, some, Option-cases, Bool-cases, arith,
}
use game_x.Base.Bytes.{Bytes}
use game_x.Game.{Platform, Session, Server, put_session}
use game_x.Game.Framing.{read_packet}
use game_x.Game.Process.Faults.{IsOverrun, process_packet_fault_iff}
use game_x.Game.Step.{Event, receive, step}
use game_x.Game.Step.Ownership.{put_session_self}
use game_x.Game.Step.WellFormed.{IsWellFormed}
use game_x.Game.Step.Invariant.{read_packet-same, change_session-IsWellFormed}

-- The event brings an open session a chat packet that sends the server out of its payload.
pub record IsFaulty {p : Platform} (st : Server p) (ev : Event) : Type 0 where
  pub id : ℕ
  pub bytes : Bytes
  pub session : Session p
  pub read : Session p × Bytes
  pub is_received : ev ≡ Event.received id bytes
  pub alive : st.live id ≡ some session
  pub opened : session.is_open ≡ true
  pub complete : read_packet session bytes ≡ some read
  pub overrun : IsOverrun read.0

module _ {p : Platform} where
  receive-none :
      (st : Server p) (id : ℕ) (bs : Bytes)
      → IsWellFormed st
      → receive st id bs ≡ none
      → IsFaulty st (Event.received id bs)
  unfolding receive
  receive-none st id bs v h = elim (Option-cases (st.live id)) [
    | inl gone ↦ ground arith
    | inr (s, here) ↦ elim (Bool-cases s.is_open) [
      | inr shut ↦ ground arith
      | inl opened ↦ elim (Option-cases (read_packet s bs)) [
        | inl short ↦ ground arith
        | inr (r, e) ↦
            let (state, entity) = read_packet-same s bs r e in
            let fault =
              process_packet_fault_iff (record st { live = put_session st.live id (some r.0) }) id
                r.0 (change_session-IsWellFormed st id s r.0 here state entity v)
                (put_session_self st.live id (some r.0)) in
            record {
              id = id;
              bytes = bs;
              session = s;
              read = r;
              is_received = refl;
              alive = here;
              opened = opened;
              complete = e;
              overrun = fault.0 (ground arith);
            }
      ]
    ]
  ]

  faulty_receive :
      (st : Server p) (id : ℕ) (bs : Bytes) (s : Session p) (r : Session p × Bytes)
      → IsWellFormed st
      → st.live id ≡ some s
      → s.is_open ≡ true
      → read_packet s bs ≡ some r
      → IsOverrun r.0
      → receive st id bs ≡ none
  unfolding receive
  faulty_receive st id bs s r v here opened e o =
      let (state, entity) = read_packet-same s bs r e in
      let fault =
        process_packet_fault_iff (record st { live = put_session st.live id (some r.0) }) id r.0
          (change_session-IsWellFormed st id s r.0 here state entity v)
          (put_session_self st.live id (some r.0)) in
      let undefined = fault.1 o in ground arith

-- In a well-formed server every event has a defined outcome, except exactly the completion of a
-- chat packet, on an open session that plays, whose payload has no NUL from the target on.
pub step_fault_iff :
    (p : Platform) (st : Server p) (ev : Event)
    → IsWellFormed st
    → (step st ev ≡ none) ↔ IsFaulty st ev
unfolding step
step_fault_iff p st Event.accepted v = (λ h. cc, λ q. cc q.is_received)
step_fault_iff p st (Event.received id bs) v = (
  λ h. receive-none st id bs v h,
  λ q.
      ap (step st) q.is_received
      ∙ faulty_receive st q.id q.bytes q.session q.read v q.alive q.opened q.complete q.overrun,
)
step_fault_iff p st (Event.close_callback id) v = (λ h. cc, λ q. cc q.is_received)
step_fault_iff p st (Event.dropped id) v = (λ h. cc, λ q. cc q.is_received)
step_fault_iff p st Event.run_posted v = (λ h. cc, λ q. cc q.is_received)
step_fault_iff p st Event.tick v = (λ h. cc, λ q. cc q.is_received)
step_fault_iff p st (Event.login_issues t account) v = (λ h. cc, λ q. cc q.is_received)
