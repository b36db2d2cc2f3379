-- ===== src/Game/Broadcast.antt =====
-- server/game/src/main.cpp: the loops over `g_sessions`: player states, leaves, and chat routing.
pub mod Recipients
pub mod States
use game_x.Base.{
  ℕ, ◌==◌, Bool, true, false, ◌&&◌, List, [], ◌∷◌, ◌++◌, Option, none, some, ◌>>=◌, if◌then◌else◌,
}
use game_x.Base.Bytes.{Bytes, same_text}
use game_x.Base.Int.{to_u32}
use game_x.Float.{Float, Fpu, sub}
use game_x.Protocol.{ChatChannel, channel_of}
use game_x.Game.{Position, PlayerData, Components, Platform, Session, Output, say_range, yell_range}
use game_x.Game.Packets.{player_state_packet, player_leave_packet, chat_packet}

-- `session->getUsername(name) && name == target`.
abbrev pub is_named : Option Bytes → Bytes → Bool
is_named none target = false
is_named (some name) target = same_text name target

abbrev pub distance_squared : Fpu → Float → Float → Float → Float → Float
distance_squared fpu x z sender_x sender_z =
    let dx = sub fpu x sender_x in
    let dz = sub fpu z sender_z in fpu.add (fpu.mul dx dx) (fpu.mul dz dz)

abbrev pub is_near : Fpu → Float → Float → Float → Option (Float × Float) → Bool
is_near fpu range sender_x sender_z none = false
is_near fpu range sender_x sender_z (some (x, z)) =
    fpu.le (distance_squared fpu x z sender_x sender_z) (fpu.mul range range)

module _ (p : Platform) where
  abbrev pub Live : Type 0
  Live = ℕ → Option (Session p)

  -- The loop over `g_sessions`: a session that is alive is served and kept, another is erased.
  unfoldable pub for_sessions : Live → (ℕ → Session p → List Output) → List ℕ → List ℕ × List Output
  for_sessions live serve [] = ([], [])
  for_sessions live serve (id ∷ ids) =
      let (kept, out) = for_sessions live serve ids in
      elim (live id) [ none ↦ (kept, out) | some s ↦ (id ∷ kept, serve id s ++ out) ]

  -- The components of the session's entity, where `has_entity_` and `world.valid` hold.
  unfoldable pub entity_of : p.registry.World → Session p → Option Components
  entity_of w s = s.entity >>= λ e. p.registry.get w e

  unfoldable pub get_username : p.registry.World → Session p → Option Bytes
  get_username w s = do c ← entity_of w s; player ← c.data_of; some player.name

  unfoldable pub get_position : p.registry.World → Session p → Option (Float × Float)
  get_position w s = do c ← entity_of w s; pos ← c.position; some (pos.x, pos.z)

  -- One turn of the outer loop of `broadcast_player_states`.
  abbrev pub state_packet : Option Components → Option Bytes
  state_packet o = do
    c ← o
    player ← c.data_of
    pos ← c.position
    some (player_state_packet (to_u32 player.character_id) pos.x pos.y pos.z pos.yaw)

  abbrev pub send_to_all : Live → Option Bytes → List ℕ → List ℕ × List Output
  send_to_all live none ids = (ids, [])
  send_to_all live (some bytes) ids = for_sessions live (λ id s. Output.write id bytes ∷ []) ids

  unfoldable pub broadcast_player_states :
      p.registry.World → Live → List (p.registry.Entity) → List ℕ → List ℕ × List Output
  broadcast_player_states w live [] ids = (ids, [])
  broadcast_player_states w live (e ∷ es) ids =
      let (kept, out) = send_to_all live (state_packet (p.registry.get w e)) ids in
      let (kept', out') = broadcast_player_states w live es kept in (kept', out ++ out')

  unfoldable pub broadcast_player_leave : Live → ℕ → List ℕ → List ℕ × List Output
  broadcast_player_leave live id =
      for_sessions live (λ k s. Output.write k (player_leave_packet id) ∷ [])

  -- The test of the whisper branch.
  unfoldable pub hears_whisper : p.registry.World → Bytes → Session p → Bool
  hears_whisper w target s = is_named (get_username w s) target

  -- The test of the say and yell branches.
  unfoldable pub in_range : p.registry.World → Float → Float → Float → Session p → Bool
  in_range w range sender_x sender_z s = is_near p.fpu range sender_x sender_z (get_position w s)

  abbrev pub chat_loop :
      Live → ℕ → Bytes → Bytes → (Session p → Bool) → List ℕ → List ℕ × List Output
  chat_loop live channel sender message hears =
      for_sessions live
        λ id s. if hears s then Output.write id (chat_packet channel sender message) ∷ [] else []

  -- The switch on the channel; a value that the enum does not name goes the way of Guild.
  abbrev pub route :
      p.registry.World
      → Live
      → ℕ
      → Bytes
      → Float
      → Float
      → Bytes
      → Bytes
      → Option ChatChannel
      → List ℕ
      → List ℕ × List Output
  route w live code sender x z target message (some ChatChannel.whisper) =
      chat_loop live code sender message (hears_whisper w target)
  route w live code sender x z target message (some ChatChannel.say) =
      chat_loop live code sender message (in_range w say_range x z)
  route w live code sender x z target message (some ChatChannel.yell) =
      chat_loop live code sender message (in_range w yell_range x z)
  route w live code sender x z target message (some ChatChannel.guild) = λ ids. (ids, [])
  route w live code sender x z target message none = λ ids. (ids, [])

  unfoldable pub broadcast_chat :
      p.registry.World
      → Live
      → ℕ
      → Bytes
      → Float
      → Float
      → Bytes
      → Bytes
      → List ℕ
      → List ℕ × List Output
  broadcast_chat w live code sender x z target message =
      route w live code sender x z target message (channel_of code)
