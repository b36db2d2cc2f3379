-- ===== src/Client/Logic/Invariant.antt =====
-- client/src/main.cpp: the logic thread keeps track of the players through every packet and tick, and
-- shows them all.
use game_x.Base.{
  ◌≡◌, refl, ap, sym, subst, ◌∙◌, inl, inr, true, not, ◌&&◌, List, [], ◌∷◌, none, some, >>=-eq-some,
  is_some, arith, ◌==◌, Bool-cases, Option-cases, if◌then◌else◌, ltb, length, drop,
}
use game_x.Base.Bytes.{Bytes}
use game_x.Float.{Fpu}
use game_x.Ecs.{Registry, IsRegistry}
use game_x.Protocol.{Opcode, opcode}
use game_x.Protocol.Size
use game_x.Protocol.Text.{c_string}
use game_x.Protocol.Codec.{get_player_state, get_player_leave}
use game_x.Client.{InboundPacket}
use game_x.Client.Logic.{
  Transform, Tracked, Logic, Effect, find, handle_auth_ok, apply_state, forget, handle_packet,
  drain, fresh_logic, handle_redirect, handle_chat_recv,
}
use game_x.Client.Logic.Tracks.{
  IsTracking, modified-IsTracking, handle_auth_ok-IsTracking, apply_state-IsTracking,
  forget-IsTracking,
}
use game_x.Client.Logic.Tick.{Controls, tick_with, tick_at, tick_local, logic_tick, predict}

module _ {r : Registry Tracked} where
  handle_redirect-same :
      (st st' : Logic r) (payload : Bytes) (effects : List Effect)
      → handle_redirect r st payload ≡ some (st', effects)
      → st' ≡ st
  unfolding handle_redirect
  handle_redirect-same st st' payload effects h = elim (Option-cases (c_string payload)) [
    | inl e ↦ ground arith
    | inr (ip, e) ↦ ground arith
  ]

  handle_chat_recv-same :
      (st st' : Logic r) (payload : Bytes) (effects : List Effect)
      → handle_chat_recv r st payload ≡ some (st', effects)
      → st' ≡ st
  unfolding handle_chat_recv
  handle_chat_recv-same st st' payload effects h = elim (Option-cases (c_string (drop 1 payload))) [
    | inl e ↦ ground arith
    | inr (sender, e) ↦ ground arith
  ]

  reached : (st st' : Logic r) → st' ≡ st → IsTracking st → IsTracking st'
  reached st st' same v = subst IsTracking (sym same) v

-- A packet of any content keeps the players tracked, where its handler is defined.
handle_packet-IsTracking :
    (r : Registry Tracked) (laws : IsRegistry r) (st st' : Logic r) (packet : InboundPacket)
    (effects : List Effect)
    → IsTracking st
    → handle_packet r st packet ≡ some (st', effects)
    → IsTracking st'
unfolding handle_packet
handle_packet-IsTracking r laws st st' packet effects v h =
    let op = packet.header.opcode in
    let payload = packet.payload in
    let leave = (get_player_leave payload).character_id in
    elim (Bool-cases
      ((op == opcode Opcode.smsg_auth_response) && not (ltb (length payload) Size.redirect))) [
        | inl yes_redirect ↦
            reached st st' (handle_redirect-same st st' payload effects (ground arith)) v
        | inr no_redirect ↦ elim (Bool-cases (op == opcode Opcode.smsg_game_auth_ok)) [
          | inl is_ok ↦
              reached (handle_auth_ok r st payload) st' (ground arith)
                (handle_auth_ok-IsTracking laws st payload v)
          | inr not_ok ↦ elim (Bool-cases (op == opcode Opcode.smsg_player_state)) [
            | inl is_state ↦ elim (Bool-cases (ltb (length payload) Size.player_state)) [
              | inl short ↦ reached st st' (ground arith) v
              | inr full ↦
                  reached (apply_state r st (get_player_state payload)) st' (ground arith)
                    (apply_state-IsTracking laws st (get_player_state payload) v)
            ]
            | inr not_state ↦ elim (Bool-cases (op == opcode Opcode.smsg_player_leave)) [
              | inl is_leave ↦ elim (Bool-cases (ltb (length payload) Size.player_leave)) [
                | inl short ↦ reached st st' (ground arith) v
                | inr full ↦
                    reached (forget r st leave (find leave st.remote_players)) st' (ground arith)
                      (forget-IsTracking laws st leave (find leave st.remote_players) refl v)
              ]
              | inr not_leave ↦ elim (Bool-cases (op == opcode Opcode.smsg_chat_say)) [
                | inl is_chat ↦
                    reached st st' (handle_chat_recv-same st st' payload effects (ground arith)) v
                | inr other ↦ reached st st' (ground arith) v
              ]
            ]
          ]
        ]
      ]

module _ (r : Registry Tracked) where
  -- In the world there is always a tick to make.
  ticks :
      (fpu : Fpu) (c : Controls) (st : Logic r)
      → IsTracking st
      → st.in_world ≡ true
      → (e : r.Entity) × (entity : Tracked) × (t : Transform) × (st.local_player ≡ some e)
        × (r.get st.client_registry e ≡ some entity)
        × (entity.transform ≡ some t)
        × (logic_tick r fpu c st ≡ tick_with r fpu c st e (some t))
  unfolding logic_tick
  ticks fpu c st v here = elim (Option-cases st.local_player) [
    | inl nobody ↦ absurd (cc (sym (ap is_some nobody) ∙ v.in_world_local here))
    | inr (e, own) ↦
        let (entity, valid, has) = v.local_there e own in
        elim (Option-cases entity.transform) [
          | inl bare ↦ absurd (cc (sym (ap is_some bare) ∙ has))
          | inr (t, at) ↦ (
            e,
            entity,
            t,
            own,
            valid,
            at,
            ap (λ b. if b then tick_local r fpu c st st.local_player else (st, none)) here
                ∙ (ap (tick_local r fpu c st) own
                    ∙ (ap (tick_at r fpu c st e) valid ∙ ap (tick_with r fpu c st e) at)),
          )
        ]
  ]

-- A tick of the logic thread keeps the players tracked.
pub logic_tick-IsTracking :
    (r : Registry Tracked) (laws : IsRegistry r) (fpu : Fpu) (c : Controls) (st : Logic r)
    → IsTracking st
    → IsTracking (logic_tick r fpu c st).0
unfolding logic_tick
logic_tick-IsTracking r laws fpu c st v = elim (Bool-cases st.in_world) [
  | inl here ↦
      let (e, entity, t, own, valid, at, done) = ticks r fpu c st v here in
      rw done (modified-IsTracking laws st e (predict fpu c t) v)
  | inr outside ↦
      subst (λ q. IsTracking q.0)
        (sym (ap (λ b. if b then tick_local r fpu c st st.local_player else (st, none)) outside)) v
]

pub fresh_logic-IsTracking : (r : Registry Tracked) → IsTracking (fresh_logic r)
unfolding find
fresh_logic-IsTracking r = record {
  remote_there = λ id e h. cc;
  local_there = λ e h. cc;
  remote_other = λ id e h. cc;
  remote_unique = λ i j e h. cc;
  in_world_local = λ h. cc;
}

-- A drain of the mailbox that is defined keeps the players tracked, as IsTracking says, however
-- many packets it takes and whatever they hold.
pub drain-IsTracking :
    (r : Registry Tracked) (laws : IsRegistry r) (st st' : Logic r) (packets : List InboundPacket)
    (effects : List Effect)
    → IsTracking st
    → drain r st packets ≡ some (st', effects)
    → IsTracking st'
unfolding drain
drain-IsTracking r laws st st' [] effects v h = reached st st' (ground arith) v
drain-IsTracking r laws st st' (packet ∷ packets) effects v h =
    let (q, eq, h1) = >>=-eq-some (handle_packet r st packet) _ h in
    let (q', eq', h2) = >>=-eq-some (drain r q.0 packets) _ h1 in
    let one = handle_packet-IsTracking r laws st q.0 packet q.1 v eq in
    reached q'.0 st' (ground arith) (drain-IsTracking r laws q.0 q'.0 packets q'.1 one eq')
