-- ===== src/Render/Window/Laws.antt =====
-- client/src/VulkanRenderer.cpp: `toggleFullscreen` there and back.
use game_x.Base.{◌≡◌, true, List, In}
use mathlib.Core.Option
use game_x.Render.Window.{Monitor, Window, contains}

-- The chosen monitor is attached, and holds the window's corner if any of them does.
abbrev pub IsChosen : List Monitor → Window → Monitor → Type 0
IsChosen monitors w m =
    In m monitors
    × ((other : Monitor)
        → In other monitors
        → contains other w.x w.y ≡ true
        → contains m w.x w.y ≡ true)
