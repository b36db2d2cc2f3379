-- ===== src/Render/Frame/Ready.antt =====
-- client/src/VulkanRenderer.cpp: the state between two frames of `drawFrame`, and what the rebuild of the
-- swap chain and the presentation do to it.
use game_x.Base.{ℕ, ◌<◌, ◌≡◌, Bool, true, false, List, if◌then◌else◌, arith}
use game_x.Render.Device.{Extent}
use game_x.Render.State.{State, Outcome, done, thrown, fault, waits, Driver}
use game_x.Render.State.Rules.{Ensures, returns, throws, blocks}
use game_x.Render.Ownership.{IsBalanced}
use game_x.Render.Ownership.Recreate.{recreate_swapchain-IsBalanced}
use game_x.Render.Frame.{
  Fence, signalled, pending, reset, Presented, presented, present_suboptimal, present_out_of_date,
  present_failed, Loop, FrameOutcome, drew, failed, hangs, sleeps, undefined, set_renderer, rebuild,
  next_frame, after_present,
}

abbrev pub is_live : Fence → Bool
is_live signalled = true
is_live pending = true
is_live reset = false

-- Between two frames: what is alive is owned, each frame in flight has its places (IsBalanced), and
-- no fence is left reset.
pub record IsReady (l : Loop) : Type 0 where
  pub balanced : IsBalanced l.state
  pub live_fences : (h : ℕ) → is_live (l.fences h) ≡ true

-- The frame does not hang and is defined, and the next one can follow it.
abbrev pub Proceeds : FrameOutcome → Type 0
Proceeds (drew l) = IsReady l
Proceeds (failed l) = Unit
Proceeds hangs = ⊥
Proceeds sleeps = Unit
Proceeds undefined = ⊥

-- The members of a frame's own do not touch what is owned.
pub set_frame-IsBalanced :
    (s : State) (c : ℕ) (f : Bool)
    → c < 2
    → IsBalanced s
    → IsBalanced
        (record s { renderer = record s.renderer { current_frame_ = c; framebuffer_resized_ = f } })
set_frame-IsBalanced s c f fits b = record {
  balanced = b.balanced;
  device = b.device;
  picked = b.picked;
  offers_format = b.offers_format;
  has_memories = b.has_memories;
  has_mappings = b.has_mappings;
  framebuffer_each = b.framebuffer_each;
  semaphore_each = b.semaphore_each;
  slots = (b.slots.0, b.slots.1, b.slots.2, b.slots.3, b.slots.4, fits);
  has_device = b.has_device;
  has_instance = b.has_instance;
}

pub set_window-IsBalanced :
    (s : State) (size : Extent) (events : List Extent)
    → IsBalanced s
    → IsBalanced (record s { framebuffer = size; events = events })
set_window-IsBalanced s size events b = record {
  balanced = b.balanced;
  device = b.device;
  picked = b.picked;
  offers_format = b.offers_format;
  has_memories = b.has_memories;
  has_mappings = b.has_mappings;
  framebuffer_each = b.framebuffer_each;
  semaphore_each = b.semaphore_each;
  slots = b.slots;
  has_device = b.has_device;
  has_instance = b.has_instance;
}

pub rebuild-Proceeds : (driver : Driver) (l : Loop) → IsReady l → Proceeds (rebuild driver l)
unfolding rebuild
rebuild-Proceeds driver l h = go (recreate_swapchain-IsBalanced driver l.state h.balanced)
  where
    go :
        {r : Outcome Unit}
        → Ensures Unit
            (λ _ t. IsBalanced t × (t.renderer.current_frame_ ≡ l.state.renderer.current_frame_))
            r
        → Proceeds (elim r [
          | done _ s ↦ drew (
              set_renderer
                (λ r. record r { framebuffer_resized_ = false })
                (record l { state = s }))
          | thrown s ↦ failed (record l { state = s })
          | fault ↦ undefined
          | waits ↦ sleeps
        ])
    go (returns {s = t} p) = record {
      balanced = set_frame-IsBalanced t t.renderer.current_frame_ false p.0.slots.5 p.0;
      live_fences = h.live_fences;
    }
    go (throws _) = tt
    go (blocks _) = tt

pub next_frame-Proceeds : (o : FrameOutcome) → Proceeds o → Proceeds (next_frame o)
next_frame-Proceeds (drew l) h = record {
  balanced =
      set_frame-IsBalanced l.state _ l.state.renderer.framebuffer_resized_ (omega arith) h.balanced;
  live_fences = h.live_fences;
}
next_frame-Proceeds (failed l) h = tt
next_frame-Proceeds hangs h = h
next_frame-Proceeds sleeps h = tt
next_frame-Proceeds undefined h = h

pub after_present-Proceeds :
    (driver : Driver) (p : Presented) (l : Loop) → IsReady l → Proceeds (after_present driver p l)
unfolding after_present
after_present-Proceeds driver present_out_of_date l h =
    next_frame-Proceeds (rebuild driver l) (rebuild-Proceeds driver l h)
after_present-Proceeds driver present_suboptimal l h =
    next_frame-Proceeds (rebuild driver l) (rebuild-Proceeds driver l h)
after_present-Proceeds driver presented l h =
    elim l.state.renderer.framebuffer_resized_
      as (λ b. Proceeds (if b then next_frame (rebuild driver l) else next_frame (drew l))) [
        | true ↦ next_frame-Proceeds (rebuild driver l) (rebuild-Proceeds driver l h)
        | false ↦ next_frame-Proceeds (drew l) h
      ]
after_present-Proceeds driver present_failed l h =
    elim l.state.renderer.framebuffer_resized_
      as (λ b. Proceeds (if b then next_frame (rebuild driver l) else failed l)) [
        | true ↦ next_frame-Proceeds (rebuild driver l) (rebuild-Proceeds driver l h)
        | false ↦ tt
      ]
