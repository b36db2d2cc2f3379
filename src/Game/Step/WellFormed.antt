-- ===== src/Game/Step/WellFormed.antt =====
-- server/game/src/main.cpp: when the state of the game server is in order.
use game_x.Base.{◌≡◌, ap, subst, List, Option, none, some}
use game_x.Game.{Platform, Server, Output}
use game_x.Game.Step.Ownership.{Owns}
use game_x.Game.Step.Registration.{Registers}

-- A session that waits for authentication has no entity and is not in `g_sessions`. Any other
-- session that exists owns one entity, which is valid, has its three components and belongs to no
-- other session, and stands in `g_sessions` once. Every entity of the world has an owner, or waits in
-- the posted clean-ups, once.
pub record IsWellFormed {p : Platform} (st : Server p) : Type 0 where
  pub owns : Owns p st.world st.live st.posted
  pub registers : Registers st.live st.sessions st.next_session

-- The first part of a result, if there is one.
abbrev or_first :
    {p : Platform} → Server p × List Output → Option (Server p × List Output) → Server p
or_first d none = d.0
or_first d (some r) = r.0

module _ {p : Platform} where
  -- The server of a result that is known by an equation.
  pub result-IsWellFormed :
      (r : Server p × List Output) (st' : Server p) (out : List Output)
      → some r ≡ some (st', out)
      → IsWellFormed r.0
      → IsWellFormed st'
  result-IsWellFormed r st' out h v = subst IsWellFormed (ap (λ o. or_first r o) h) v
