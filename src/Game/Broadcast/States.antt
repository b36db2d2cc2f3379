-- ===== src/Game/Broadcast/States.antt =====
-- server/game/src/main.cpp: what `broadcast_player_states` writes, and to whom.
use game_x.Base.{
  ℕ, ◌≡◌, refl, ap, subst, ◌↔◌, inl, inr, Bool, true, List, [], ◌∷◌, Option, none, some,
  Option-cases, arith, is_some, In, In-append_left, In-append_right, In-append, In-filter,
  filter-In, sym, ◌∙◌, >>=-eq-some,
}
use game_x.Base.Bytes.{Bytes}
use mathlib.Core.Option
use game_x.Base.Int.{to_u32}
use game_x.Protocol.{Opcode}
use game_x.Protocol.Codec.{put_player_state}
use game_x.Game.Packets.{packet, player_state_packet}
use game_x.Game.{Platform, Output, Components, PlayerData, Position}
use game_x.Game.Broadcast.{Live, broadcast_player_states, state_packet, send_to_all}
use game_x.Game.Broadcast.Recipients.{In-for_sessions, for_sessions-In, for_sessions-kept}

module _ {p : Platform} (w : p.registry.World) (live : Live p) where
  -- The session with this number has its object.
  abbrev alive : ℕ → Bool
  alive id = is_some (live id)

  send_to_all-kept :
      (o : Option Bytes) (ids : List ℕ) (id : ℕ)
      → In id ids
      → alive id ≡ true
      → In id (send_to_all p live o ids).0
  send_to_all-kept none ids id m a = m
  send_to_all-kept (some bytes) ids id m a =
      rw (for_sessions-kept live _ ids) (filter-In alive id ids m a)

  kept-send_to_all :
      (o : Option Bytes) (ids : List ℕ) (id : ℕ) → In id (send_to_all p live o ids).0 → In id ids
  kept-send_to_all none ids id h = h
  kept-send_to_all (some bytes) ids id h =
      (In-filter alive id ids (subst (In id) (for_sessions-kept live _ ids) h)).0

  -- The write of one entity's state to one session that is alive.
  abbrev pub Announced : List (p.registry.Entity) → List ℕ → Output → Type 0
  Announced es ids o =
      (e : p.registry.Entity) × (bytes : Bytes) × (id : ℕ) × In e es
      × (state_packet p (p.registry.get w e) ≡ some bytes)
      × In id ids
      × (alive id ≡ true)
      × (o ≡ Output.write id bytes)

  In-send_to_all :
      (q : Option Bytes) (ids : List ℕ) (o : Output)
      → In o (send_to_all p live q ids).1
      → (bytes : Bytes) × (id : ℕ) × (q ≡ some bytes)
        × In id ids
        × (alive id ≡ true)
        × (o ≡ Output.write id bytes)
  In-send_to_all none ids o h = elim h [ ]
  In-send_to_all (some bytes) ids o h =
      let (id, s, m, e, k) = In-for_sessions live _ ids o h in
      (bytes, id, refl, m, ap is_some e, elim k [ inl same ↦ same | inr k' ↦ elim k' [ ] ])

  send_to_all-In :
      (bytes : Bytes) (q : Option Bytes) (ids : List ℕ) (id : ℕ)
      → q ≡ some bytes
      → In id ids
      → alive id ≡ true
      → In (Output.write id bytes) (send_to_all p live q ids).1
  send_to_all-In bytes none ids id e m a = cc
  send_to_all-In bytes (some b) ids id e m a = elim (Option-cases (live id)) [
    | inl gone ↦ absurd (cc (ap is_some gone))
    | inr (s, here) ↦ for_sessions-In live _ ids _ (id, s, m, here, inl (ground arith))
  ]

  pub In-broadcast_player_states :
      (es : List (p.registry.Entity)) (ids : List ℕ) (o : Output)
      → In o (broadcast_player_states p w live es ids).1
      → Announced es ids o
  unfolding broadcast_player_states
  In-broadcast_player_states [] ids o h = elim h [ ]
  In-broadcast_player_states (e ∷ es) ids o h =
      let q = state_packet p (p.registry.get w e) in
      elim (In-append o (send_to_all p live q ids).1 _ h) [
        | inl now ↦
            let (bytes, id, eq, m, a, same) = In-send_to_all q ids o now in
            (e, bytes, id, inl refl, eq, m, a, same)
        | inr later ↦
            let (d, bytes, id, md, eq, m, a, same) =
              In-broadcast_player_states es (send_to_all p live q ids).0 o later in
            (d, bytes, id, inr md, eq, kept-send_to_all q ids id m, a, same)
      ]

  pub broadcast_player_states-In :
      (es : List (p.registry.Entity)) (ids : List ℕ) (o : Output)
      → Announced es ids o
      → In o (broadcast_player_states p w live es ids).1
  unfolding broadcast_player_states
  broadcast_player_states-In [] ids o (d, bytes, id, md, eq, m, a, same) = elim md [ ]
  broadcast_player_states-In (e ∷ es) ids o (d, bytes, id, inl here, eq, m, a, same) =
      let q = state_packet p (p.registry.get w e) in
      let eq' = subst (λ x. state_packet p (p.registry.get w x) ≡ some bytes) here eq in
      In-append_left o (send_to_all p live q ids).1 _
        (rw same (send_to_all-In bytes q ids id eq' m a))
  broadcast_player_states-In (e ∷ es) ids o (d, bytes, id, inr md, eq, m, a, same) =
      let q = state_packet p (p.registry.get w e) in
      In-append_right o (send_to_all p live q ids).1 _ (
        broadcast_player_states-In es (send_to_all p live q ids).0 o
          (d, bytes, id, md, eq, send_to_all-kept q ids id m a, a, same))

  -- The write of one entity's state to one session that is alive, in the words of the protocol.
  abbrev pub IsUpdate : List (p.registry.Entity) → List ℕ → Output → Type 0
  IsUpdate es ids o =
      (e : p.registry.Entity) × (c : Components) × (player : PlayerData) × (pos : Position)
      × (id : ℕ) × In e es
      × (p.registry.get w e ≡ some c)
      × (c.data_of ≡ some player)
      × (c.position ≡ some pos)
      × In id ids
      × (alive id ≡ true)
      × (o
          ≡ Output.write id (
              packet Opcode.smsg_player_state (
                put_player_state (record {
                  character_id = to_u32 player.character_id;
                  x = pos.x;
                  y = pos.y;
                  z = pos.z;
                  yaw = pos.yaw;
                }))))

  state_packet-some :
      (o : Option Components) (bytes : Bytes)
      → state_packet p o ≡ some bytes
      → (c : Components) × (player : PlayerData) × (pos : Position) × (o ≡ some c)
        × (c.data_of ≡ some player)
        × (c.position ≡ some pos)
        × (player_state_packet (to_u32 player.character_id) pos.x pos.y pos.z pos.yaw ≡ bytes)
  state_packet-some o bytes h =
      let (c, valid, hc) = >>=-eq-some o _ h in
      let (player, known, hp) = >>=-eq-some c.data_of _ hc in
      let (pos, place, hq) = >>=-eq-some c.position _ hp in
      (c, player, pos, valid, known, place, Option.some-injective _ bytes hq)

  Announced-IsUpdate :
      (es : List (p.registry.Entity)) (ids : List ℕ) (o : Output)
      → Announced es ids o ↔ IsUpdate es ids o
  unfolding player_state_packet
  Announced-IsUpdate es ids o = (
    λ (e, bytes, id, there, made, listed, lives, is).
        let (c, player, pos, valid, known, place, same) =
          state_packet-some (p.registry.get w e) bytes made in
        (
          e,
          c,
          player,
          pos,
          id,
          there,
          valid,
          known,
          place,
          listed,
          lives,
          is ∙ ap (Output.write id) (sym same),
        ),
    λ (e, c, player, pos, id, there, valid, known, place, listed, lives, is).
        (e, _, id, there, rw (valid, known, place), listed, lives, is),
  )

-- broadcast_player_states writes, for every entity of the view that has PlayerData and Position,
-- the packet SMSG_PLAYER_STATE with its own character and position to every listed session whose
-- object exists, and writes nothing else.
pub player_states_delivery :
    (p : Platform) (w : p.registry.World) (live : Live p) (es : List (p.registry.Entity))
    (ids : List ℕ) (o : Output)
    → In o (broadcast_player_states p w live es ids).1 ↔ IsUpdate w live es ids o
player_states_delivery p w live es ids o = (
  λ h. (Announced-IsUpdate w live es ids o).0 (In-broadcast_player_states w live es ids o h),
  λ h. broadcast_player_states-In w live es ids o ((Announced-IsUpdate w live es ids o).1 h),
)
