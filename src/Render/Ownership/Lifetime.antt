-- ===== src/Render/Ownership/Lifetime.antt =====
-- client/src/VulkanRenderer.cpp, client/src/main.cpp: the renderer from `init` to `cleanup`.
use game_x.Base.{ℕ, ◌≡◌, List, []}
use game_x.Render.Device.{Extent, PresentModeSetting}
use game_x.Render.State.{State, Driver, done, new_state}
use game_x.Render.State.Rules.{Ensures-returned}
use game_x.Render.Swapchain.{recreate_swapchain}
use game_x.Render.Setup.{init}
use game_x.Render.Cleanup.{cleanup}
use game_x.Render.Ownership.{IsBalanced}
use game_x.Render.Ownership.Initial.{init-IsBalanced}
use game_x.Render.Ownership.Recreate.{recreate_swapchain-IsBalanced}
use game_x.Render.Ownership.Release.{cleanup_leaves_nothing}

-- The states of a renderer that was initialised and then resized any number of times.
pub data Lived (driver : Driver) : State → Type 0 where
  started :
      (config : PresentModeSetting) (answers : List ℕ) (size : Extent) (events : List Extent)
      {s : State}
      → init driver config (new_state answers size events) ≡ done tt s
      → Lived driver s
  resized :
      {s t : State} → Lived driver s → recreate_swapchain driver s ≡ done tt t → Lived driver t

Lived-IsBalanced : {driver : Driver} {s : State} → Lived driver s → IsBalanced s
Lived-IsBalanced {driver} (started config answers size events e) =
    Ensures-returned (init-IsBalanced driver config answers size events) tt _ e
Lived-IsBalanced {driver} (resized {s} l e) =
    (Ensures-returned (recreate_swapchain-IsBalanced driver s (Lived-IsBalanced l)) tt _ e).0

-- After an init that returns, and any number of resizes that return, cleanup returns and nothing is
-- left alive: no object is destroyed that is not alive, and the device and the instance go last.
pub cleanup-Lived :
    (driver : Driver) (s : State)
    → Lived driver s
    → (t : State) × (cleanup s ≡ done tt t) × (t.live ≡ [])
cleanup-Lived driver s l = cleanup_leaves_nothing s (Lived-IsBalanced l)
