-- ===== src/Game/Step/Pruning.antt =====
-- server/game/src/main.cpp: the broadcasts erase from `g_sessions` only sessions that are gone.
use game_x.Base.{ℕ, List, [], ◌∷◌, Option, none, some}
use game_x.Base.Bytes.{Bytes}
use game_x.Float.{Float}
use game_x.Protocol.{ChatChannel, channel_of}
use game_x.Game.{Platform, Session, Output}
use game_x.Game.Broadcast.{
  Live, for_sessions, send_to_all, route, broadcast_chat, broadcast_player_states, state_packet,
}
use game_x.Game.Broadcast.Recipients.{for_sessions-kept}
use game_x.Game.Step.Registration.{Registers, Registers-filter}

module _ {p : Platform} {live : Live p} {next : ℕ} where
  pub Registers-for_sessions :
      (serve : ℕ → Session p → List Output) (ids : List ℕ)
      → Registers live ids next
      → Registers live (for_sessions p live serve ids).0 next
  Registers-for_sessions serve ids r = rw (for_sessions-kept live serve ids) (Registers-filter r)

  pub Registers-send_to_all :
      (o : Option Bytes) (ids : List ℕ)
      → Registers live ids next
      → Registers live (send_to_all p live o ids).0 next
  Registers-send_to_all none ids r = r
  Registers-send_to_all (some bytes) ids r = Registers-for_sessions _ ids r

  pub Registers-player_states :
      (w : p.registry.World) (es : List (p.registry.Entity)) (ids : List ℕ)
      → Registers live ids next
      → Registers live (broadcast_player_states p w live es ids).0 next
  unfolding broadcast_player_states
  Registers-player_states w [] ids r = r
  Registers-player_states w (e ∷ es) ids r =
      Registers-player_states w es _
        (Registers-send_to_all (state_packet p (p.registry.get w e)) ids r)

  pub Registers-route :
      (w : p.registry.World) (code : ℕ) (sender : Bytes) (x z : Float) (target message : Bytes)
      (channel : Option ChatChannel) (ids : List ℕ)
      → Registers live ids next
      → Registers live (route p w live code sender x z target message channel ids).0 next
  Registers-route w code sender x z target message (some ChatChannel.whisper) ids r =
      Registers-for_sessions _ ids r
  Registers-route w code sender x z target message (some ChatChannel.say) ids r =
      Registers-for_sessions _ ids r
  Registers-route w code sender x z target message (some ChatChannel.yell) ids r =
      Registers-for_sessions _ ids r
  Registers-route w code sender x z target message (some ChatChannel.guild) ids r = r
  Registers-route w code sender x z target message none ids r = r

  pub Registers-chat :
      (w : p.registry.World) (code : ℕ) (sender : Bytes) (x z : Float) (target message : Bytes)
      (ids : List ℕ)
      → Registers live ids next
      → Registers live (broadcast_chat p w live code sender x z target message ids).0 next
  unfolding broadcast_chat
  Registers-chat w code sender x z target message ids r =
      Registers-route w code sender x z target message (channel_of code) ids r
