-- ===== src/Render/Window.antt =====
-- client/src/VulkanRenderer.cpp: `toggleFullscreen`: the window between its place on the desktop and
-- a monitor. What GLFW reports of the monitors is data.
pub mod Laws
use game_x.Base.{
  ℕ, zero, suc, ◌+◌, Bool, true, false, not, ◌&&◌, List, [], ◌∷◌, if◌then◌else◌, leb, ltb, Option,
  none, some,
}
use game_x.Base.Int.{ℤ, pos, negsuc}
use game_x.Render.Device.{first}

abbrev pub pos_part : ℤ → ℕ
pos_part (pos n) = n
pos_part (negsuc n) = 0

abbrev pub neg_part : ℤ → ℕ
neg_part (pos n) = 0
neg_part (negsuc n) = suc n

-- A monitor: its work area and its current video mode.
pub record Monitor : Type 0 where
  pub work_x : ℤ
  pub work_y : ℤ
  pub work_width : ℕ
  pub work_height : ℕ
  pub mode_width : ℕ
  pub mode_height : ℕ

-- The window as GLFW has it; `monitor` is `none` for a window on the desktop.
pub record Window : Type 0 where
  pub monitor : Option Monitor
  pub x : ℤ
  pub y : ℤ
  pub width : ℕ
  pub height : ℕ

pub record WindowState : Type 0 where
  pub is_fullscreen : Bool
  pub windowed_x : ℤ
  pub windowed_y : ℤ
  pub windowed_width : ℕ
  pub windowed_height : ℕ

-- `a <= v && v < a + n`.
abbrev pub in_span : ℤ → ℤ → ℕ → Bool
in_span v a n =
    leb (pos_part a + neg_part v) (pos_part v + neg_part a)
    && ltb (pos_part v + neg_part a) (pos_part a + n + neg_part v)

unfoldable pub contains : Monitor → ℤ → ℤ → Bool
contains m x y = in_span x m.work_x m.work_width && in_span y m.work_y m.work_height

unfoldable pub monitor_at : List Monitor → ℤ → ℤ → Option Monitor
unfolding contains
monitor_at [] x y = none
monitor_at (m ∷ ms) x y = if contains m x y then some m else monitor_at ms x y

-- The monitor that holds the window's corner, and the first one where none does; `none` is the
-- read of `monitors[0]` where there is no monitor.
unfoldable pub monitor_for : List Monitor → Window → Option Monitor
unfolding monitor_at
monitor_for monitors w = elim w.monitor [
  | some current ↦ some current
  | none ↦ elim (monitor_at monitors w.x w.y) [ some found ↦ some found | none ↦ first monitors ]
]

-- `glfwSetWindowMonitor` with a monitor, and with none.
abbrev pub show_on : Monitor → Window
show_on m = record {
  monitor = some m;
  x = pos 0;
  y = pos 0;
  width = m.mode_width;
  height = m.mode_height;
}

abbrev pub show_at : ℤ → ℤ → ℕ → ℕ → Window
show_at x y width height = record { monitor = none; x = x; y = y; width = width; height = height }

-- The window's state, the window and `framebufferResized_` after the call.
unfoldable pub toggle_fullscreen :
    List Monitor → WindowState → Window → Option (WindowState × Window × Bool)
unfolding monitor_for
toggle_fullscreen monitors s w =
    if s.is_fullscreen
    then some (
      record s { is_fullscreen = false },
      show_at s.windowed_x s.windowed_y s.windowed_width s.windowed_height,
      true,
    )
    else elim (monitor_for monitors w) [
      | none ↦ none
      | some m ↦ some (
        record {
          is_fullscreen = true;
          windowed_x = w.x;
          windowed_y = w.y;
          windowed_width = w.width;
          windowed_height = w.height;
        },
        show_on m,
        true,
      )
    ]
