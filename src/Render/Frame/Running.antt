-- ===== src/Render/Frame/Running.antt =====
-- client/src/VulkanRenderer.cpp, client/src/main.cpp: the loop that draws, from `init` on.
use game_x.Base.{ℕ, ◌≡◌, Bool, ◌||◌, List, []}
use game_x.Render.Device.{Extent, PresentModeSetting}
use game_x.Render.State.{Driver, State, done, new_state}
use game_x.Render.Setup.{init}
use game_x.Render.Frame.{Loop, FrameAnswers, signalled, drew, draw_frame}
use game_x.Render.Frame.Progress.{ImageFits}

-- The events of the window between two frames: its size changes, and a callback may ask for a
-- resize.
abbrev pub poll : Bool → Extent → List Extent → Loop → Loop
poll resized size events l = record l {
  state = record l.state {
    framebuffer = size;
    events = events;
    renderer = record l.state.renderer {
      current_frame_ = l.state.renderer.current_frame_;
      framebuffer_resized_ = l.state.renderer.framebuffer_resized_ || resized;
    };
  };
}

-- `createSyncObjects` makes the fences signalled.
abbrev pub first_loop : State → Loop
first_loop s = record { state = s; fences = λ h. signalled; submitted = [] }

-- The loops that `main` comes to: after `init`, with the window's events and any number of frames
-- that returned.
pub data Running (driver : Driver) : Loop → Type 0 where
  initialised :
      (config : PresentModeSetting) (answers : List ℕ) (size : Extent) (events : List Extent)
      {s : State}
      → init driver config (new_state answers size events) ≡ done tt s
      → Running driver (first_loop s)
  polled :
      {l : Loop} (resized : Bool) (size : Extent) (events : List Extent)
      → Running driver l
      → Running driver (poll resized size events l)
  drawn :
      {l m : Loop} (a : FrameAnswers)
      → Running driver l
      → ImageFits l a.acquire
      → draw_frame driver a l ≡ drew m
      → Running driver m
