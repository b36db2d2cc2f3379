-- ===== src/Game/Process/Faults.antt =====
-- server/game/src/main.cpp: when `process_packet` reads outside of the payload.
use game_x.Base.{
  ℕ, ◌≡◌, ◌↔◌, sym, ◌∙◌, inl, inr, true, false, Option, none, some, arith, Bool-cases, Option-cases,
  is_some, ltb, length, drop,
}
use game_x.Protocol.{Opcode, opcode}
use game_x.Protocol.Size
use game_x.Protocol.Text.{c_string}
use game_x.Game.{Components, PlayerData, Position, Platform, Session, Server}
use game_x.Game.Broadcast.{entity_of}
use game_x.Game.Process.{is_waiting, say_as, handle_chat, handle_move, dispatch, process_packet}
use game_x.Game.Step.Ownership.{IsComplete}
use game_x.Game.Step.WellFormed.{IsWellFormed}

-- A chat packet of a session that plays, whose bytes from the target on hold no NUL.
pub record IsOverrun {p : Platform} (s : Session p) : Type 0 where
  pub plays : is_waiting s.state ≡ false
  pub chats : s.header.opcode ≡ opcode Opcode.cmsg_chat_say
  pub sized : ltb (length s.payload) Size.chat_send ≡ false
  pub unterminated : c_string (drop 1 s.payload) ≡ none

module _ {p : Platform} where
  say_as_iff :
      (st : Server p) (s : Session p) (player : Option PlayerData) (pos : Option Position)
      → is_some player ≡ true
      → is_some pos ≡ true
      → (say_as st s player pos ≡ none) ↔ (c_string (drop 1 s.payload) ≡ none)
  say_as_iff st s (some player) (some pos) hp hq =
      elim (Option-cases (c_string (drop 1 s.payload))) [
        | inl e ↦ (λ h. e, λ h. rw e)
        | inr (target, e) ↦ (λ h. cc, λ h. cc)
      ]
  say_as_iff st s (some player) none hp hq = cc
  say_as_iff st s none pos hp hq = cc

  dispatch_iff :
      (st : Server p) (id : ℕ) (s : Session p) (c : Components)
      → entity_of p st.world s ≡ some c
      → IsComplete c
      → is_waiting s.state ≡ false
      → (dispatch st id s ≡ none) ↔ IsOverrun s
  unfolding dispatch handle_chat handle_move entity_of
  dispatch_iff st id s c here full plays =
      let same = say_as_iff st s c.data_of c.position full.has_data full.has_position in
      (
        λ h. record {
          plays = plays;
          chats = ground arith;
          sized = ground arith;
          unterminated = same.0 (ground arith);
        },
        λ o. rw (o.chats, o.sized, here) (same.1 o.unterminated),
      )

  -- In a well-formed server a packet of a live session runs into undefined behaviour exactly where
  -- it is a chat packet of full size, of a session that plays, with no NUL from its target on to
  -- the end of the payload.
  pub process_packet_fault_iff :
      (st : Server p) (id : ℕ) (s : Session p)
      → IsWellFormed st
      → st.live id ≡ some s
      → (process_packet st id s ≡ none) ↔ IsOverrun s
  unfolding process_packet entity_of
  process_packet_fault_iff st id s v here = elim (Bool-cases (is_waiting s.state)) [
    | inl waits ↦ (λ h. ground arith, λ o. cc (sym waits ∙ o.plays))
    | inr plays ↦
        let (e, own) = v.owns.playing id s here plays in
        let (c, valid, full) = v.owns.owned_player id s e here own in
        let found : entity_of p st.world s ≡ some c = rw own valid in
        rw plays (dispatch_iff st id s c found full plays)
  ]
