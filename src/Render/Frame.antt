-- ===== src/Render/Frame.antt =====
-- client/src/VulkanRenderer.cpp: `drawFrame` and `recordCommandBuffer`.
pub mod Commands
pub mod Ready
pub mod Progress
pub mod Running
use game_x.Base.{
  ℕ, zero, suc, ◌+◌, ◌%◌, Bool, true, false, ◌&&◌, ◌==◌, List, [], ◌∷◌, ◌++◌, concat_map,
  if◌then◌else◌, Option, none, some, get_elem?, ltb, length,
}
use game_x.Float.{Float, zero_f, one_f}
use game_x.Client.Logic.Tick.{PlayerRenderState}
use game_x.Render.Info.{max_frames_in_flight, quad_indices}
use game_x.Render.Device.{Extent}
use game_x.Render.State.{Renderer, State, Outcome, done, thrown, fault, waits, Driver}
use game_x.Render.Swapchain.{wait_while_minimized, recreate_swapchain}

pub record Vec3 : Type 0 where
  pub x : Float
  pub y : Float
  pub z : Float

-- The `vkCmd…` calls, with the handles and numbers that they are given.
pub data Command : Type 0 where
  begin_render_pass : ℕ → ℕ → Extent → Command
  bind_pipeline : ℕ → Command
  set_viewport : Extent → Command
  set_scissor : Extent → Command
  bind_vertex_buffers : ℕ → Command
  bind_index_buffer : ℕ → Command
  bind_descriptor_sets : ℕ → ℕ → Command
  push_constants : ℕ → List Float → Command
  draw_indexed : ℕ → Command
  end_render_pass : Command

-- The body of the loop over the players.
abbrev pub draw_player : Renderer → PlayerRenderState → List Command
draw_player r p =
    push_constants r.pipeline_layout_
      (p.x ∷ p.y ∷ p.z ∷ (if p.is_local then one_f else zero_f) ∷ [])
    ∷ draw_indexed (length quad_indices)
    ∷ []

abbrev pub frame_commands : Renderer → ℕ → List PlayerRenderState → List Command
frame_commands r framebuffer players =
    begin_render_pass r.render_pass_ framebuffer r.swap_chain_extent_
    ∷ bind_pipeline r.graphics_pipeline_
    ∷ set_viewport r.swap_chain_extent_
    ∷ set_scissor r.swap_chain_extent_
    ∷ bind_vertex_buffers r.vertex_buffer_
    ∷ bind_index_buffer r.index_buffer_
    ∷ bind_descriptor_sets r.pipeline_layout_ r.current_frame_
    ∷ (concat_map (draw_player r) players ++ end_render_pass ∷ [])

-- The commands for one image of the swap chain; `none` is a read of the framebuffers by
-- the image index, or of the descriptor sets by the frame index, that is out of range.
unfoldable pub record_command_buffer : Renderer → ℕ → List PlayerRenderState → Option (List Command)
record_command_buffer r image_index players =
    elim (get_elem? r.swap_chain_framebuffers_ image_index) [
      | none ↦ none
      | some framebuffer ↦
          if ltb r.current_frame_ r.descriptor_sets_
          then some (frame_commands r framebuffer players)
          else none
    ]

-- The look target of the camera follows the first local player; with none it is the origin.
unfoldable pub local_player_pos : List PlayerRenderState → Vec3
local_player_pos [] = record { x = zero_f; y = zero_f; z = zero_f }
local_player_pos (p ∷ ps) =
    if p.is_local then record { x = p.x; y = p.y; z = p.z } else local_player_pos ps

-- A fence: signalled, waiting for the work that was submitted with it, or reset with no work that
-- could signal it.
pub data Fence : Type 0 where
  signalled pending reset : Fence

-- `vkAcquireNextImageKHR` with the image's index, and `vkQueuePresentKHR`.
pub data Acquired : Type 0 where
  acquired suboptimal : ℕ → Acquired
  acquire_out_of_date acquire_failed : Acquired

pub data Presented : Type 0 where
  presented present_suboptimal present_out_of_date present_failed : Presented

-- What the driver answers during one frame, and the players that the logic thread published.
pub record FrameAnswers : Type 0 where
  pub acquire : Acquired
  pub begins : Bool
  pub ends : Bool
  pub submits : Bool
  pub present : Presented
  pub players : List PlayerRenderState

-- A submission: the frame slot, the image, the semaphores that it waits for and signals, and the
-- commands.
pub record Submission : Type 0 where
  pub frame : ℕ
  pub image : ℕ
  pub waits_for : ℕ
  pub signals : ℕ
  pub commands : List Command

-- `fences`: the status of a fence by its handle. `submitted`: the latest first.
pub record Loop : Type 0 where
  pub state : State
  pub fences : ℕ → Fence
  pub submitted : List Submission

-- `hangs` is a wait for a fence that nothing signals; `sleeps` a wait for a window event that does
-- not come, while the window has no area.
pub data FrameOutcome : Type 0 where
  drew : Loop → FrameOutcome
  failed : Loop → FrameOutcome
  hangs sleeps undefined : FrameOutcome

abbrev pub set_renderer : (Renderer → Renderer) → Loop → Loop
set_renderer f l = record l { state = record l.state { renderer = f l.state.renderer } }

-- `recreateSwapchain`, and `framebufferResized_ = false`.
unfoldable pub rebuild : Driver → Loop → FrameOutcome
rebuild driver l = elim (recreate_swapchain driver l.state) [
  | done _ s ↦
      drew (set_renderer (λ r. record r { framebuffer_resized_ = false }) (record l { state = s }))
  | thrown s ↦ failed (record l { state = s })
  | fault ↦ undefined
  | waits ↦ sleeps
]

abbrev pub next_frame : FrameOutcome → FrameOutcome
next_frame (drew l) = drew (
    set_renderer (λ r. record r { current_frame_ = (r.current_frame_ + 1) % max_frames_in_flight })
      l)
next_frame (failed l) = failed l
next_frame hangs = hangs
next_frame sleeps = sleeps
next_frame undefined = undefined

-- What follows the presentation.
unfoldable pub after_present : Driver → Presented → Loop → FrameOutcome
unfolding rebuild
after_present driver present_out_of_date l = next_frame (rebuild driver l)
after_present driver present_suboptimal l = next_frame (rebuild driver l)
after_present driver presented l =
    if l.state.renderer.framebuffer_resized_
    then next_frame (rebuild driver l)
    else next_frame (drew l)
after_present driver present_failed l =
    if l.state.renderer.framebuffer_resized_ then next_frame (rebuild driver l) else failed l

abbrev pub set_fence : ℕ → Fence → Loop → Loop
set_fence fence f l = record l { fences = λ h. if h == fence then f else l.fences h }

-- The submission, with the semaphore of the image that it signals, and what follows it. Where the
-- recording does not end or the submission fails, the fence stays reset.
unfoldable pub submit_commands :
    Driver → FrameAnswers → ℕ → ℕ → ℕ → List Command → Loop → FrameOutcome
unfolding after_present
submit_commands driver a fence available image commands l =
    if a.ends
    then elim (get_elem? l.state.renderer.render_finished_semaphores_ image) [
      | none ↦ undefined
      | some finished ↦
          if a.submits
          then after_present driver a.present (record (set_fence fence pending l) {
            submitted =
                record {
                  frame = l.state.renderer.current_frame_;
                  image = image;
                  waits_for = available;
                  signals = finished;
                  commands = commands;
                }
                ∷ l.submitted;
          })
          else failed (set_fence fence reset l)
    ]
    else failed (set_fence fence reset l)

-- `recordCommandBuffer`, which throws where the recording does not begin.
unfoldable pub record_frame : Driver → FrameAnswers → ℕ → ℕ → ℕ → Loop → FrameOutcome
unfolding submit_commands record_command_buffer
record_frame driver a fence available image l =
    if a.begins
    then elim (record_command_buffer l.state.renderer image a.players) [
      | none ↦ undefined
      | some commands ↦ submit_commands driver a fence available image commands l
    ]
    else failed (set_fence fence reset l)

-- From the reset of the fence on, with the image that was acquired: the command buffer of the frame
-- is reset, and the matrices are copied to where its uniform buffer is mapped.
unfoldable pub submit_frame : Driver → FrameAnswers → ℕ → ℕ → ℕ → Loop → FrameOutcome
unfolding record_frame
submit_frame driver a fence available image l =
    let r = l.state.renderer in
    if ltb r.current_frame_ r.command_buffers_
    then elim (get_elem? r.camera_ubo_mapped_ r.current_frame_) [
      | none ↦ undefined
      | some address ↦ record_frame driver a fence available image l
    ]
    else undefined

-- The acquisition of an image and what follows it.
unfoldable pub acquire_image : Driver → FrameAnswers → ℕ → ℕ → Loop → FrameOutcome
unfolding submit_frame rebuild
acquire_image driver a fence available l = elim a.acquire [
  | acquired image ↦ submit_frame driver a fence available image l
  | suboptimal image ↦ submit_frame driver a fence available image l
  | acquire_out_of_date ↦ rebuild driver l
  | acquire_failed ↦ failed l
]

-- From the end of the wait for the fence on: the frame's semaphore is read.
unfoldable pub acquire_frame : Driver → FrameAnswers → ℕ → Loop → FrameOutcome
unfolding acquire_image
acquire_frame driver a fence l =
    elim (get_elem? l.state.renderer.image_available_semaphores_ l.state.renderer.current_frame_) [
      | none ↦ undefined
      | some available ↦ acquire_image driver a fence available l
    ]

-- `vkWaitForFences` without a time limit.
abbrev pub wait_for_fence : Fence → FrameOutcome → FrameOutcome
wait_for_fence signalled k = k
wait_for_fence pending k = k
wait_for_fence reset k = hangs

-- The frame's fence is read and waited for.
unfoldable pub wait_frame : Driver → FrameAnswers → Loop → FrameOutcome
unfolding acquire_frame
wait_frame driver a l =
    elim (get_elem? l.state.renderer.in_flight_fences_ l.state.renderer.current_frame_) [
      | none ↦ undefined
      | some fence ↦
          wait_for_fence (l.fences fence)
            (acquire_frame driver a fence (set_fence fence signalled l))
    ]

-- The answer to an explicit resize: the frame is skipped.
unfoldable pub resize_frame : Driver → Loop → FrameOutcome
unfolding rebuild wait_while_minimized
resize_frame driver l = elim (wait_while_minimized l.state) [
  | done _ s ↦ rebuild driver (record l { state = s })
  | thrown s ↦ failed (record l { state = s })
  | fault ↦ undefined
  | waits ↦ sleeps
]

unfoldable pub draw_frame : Driver → FrameAnswers → Loop → FrameOutcome
unfolding resize_frame wait_frame
draw_frame driver a l =
    if l.state.renderer.device_ == 0
    then drew l
    else if l.state.renderer.framebuffer_resized_
    then resize_frame driver l
    else wait_frame driver a l
