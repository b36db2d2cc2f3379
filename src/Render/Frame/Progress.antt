-- ===== src/Render/Frame/Progress.antt =====
-- client/src/VulkanRenderer.cpp: `drawFrame` never waits for a fence that nothing signals, and never
-- reads past the vectors that it indexes.
use game_x.Base.{
  ℕ, zero, suc, ◌<◌, ◌≡◌, refl, true, false, ◌==◌, List, [], ◌∷◌, if◌then◌else◌, some, get_elem?,
  length, lt→ltb, ltb, arith, Option-cases, Bool-cases, inl, inr,
}
use game_x.Client.Logic.Tick.{PlayerRenderState}
use game_x.Render.State.{Renderer, Outcome, done, thrown, fault, waits, Driver}
use game_x.Render.State.Rules.{Ensures, returns, throws, blocks}
use game_x.Render.Ownership.{IsBalanced, HasSlots}
use game_x.Render.Ownership.Recreate.{wait_for_area-Ensures}
use game_x.Render.Frame.{
  Fence, signalled, pending, reset, Acquired, acquired, suboptimal, acquire_out_of_date,
  acquire_failed, FrameAnswers, Loop, FrameOutcome, failed, sleeps, undefined, resize_frame,
  submit_commands, record_frame, acquire_image, wait_frame, rebuild, after_present, set_fence,
  submit_frame, acquire_frame, wait_for_fence, draw_frame, record_command_buffer, Command,
}
use game_x.Render.Frame.Ready.{
  is_live, IsReady, Proceeds, set_window-IsBalanced, rebuild-Proceeds, after_present-Proceeds,
}

set_fence-IsReady :
    (fence : ℕ) (f : Fence) (l : Loop)
    → is_live f ≡ true
    → IsReady l
    → IsReady (set_fence fence f l)
set_fence-IsReady fence f l e h = record {
  balanced = h.balanced;
  live_fences = λ k. elim (k == fence) as (λ b. is_live (if b then f else l.fences k) ≡ true) [
    | true ↦ e
    | false ↦ h.live_fences k
  ];
}

get_elem?-lt : (xs : List ℕ) (i : ℕ) → i < length xs → (x : ℕ) × (get_elem? xs i ≡ some x)
get_elem?-lt [] i h = absurd (omega arith)
get_elem?-lt (x ∷ xs) zero h = (x, refl)
get_elem?-lt (x ∷ xs) (suc i) h = get_elem?-lt xs i (omega arith)

-- The driver hands out an image of the swap chain, if it hands out any.
abbrev pub ImageFits : Loop → Acquired → Type 0
ImageFits l (acquired i) = i < length l.state.renderer.swap_chain_images_
ImageFits l (suboptimal i) = i < length l.state.renderer.swap_chain_images_
ImageFits l acquire_out_of_date = Unit
ImageFits l acquire_failed = Unit

submit_commands-Proceeds :
    (driver : Driver) (a : FrameAnswers) (fence available image : ℕ) (commands : List Command)
    (l : Loop)
    → IsReady l
    → image < length l.state.renderer.swap_chain_images_
    → Proceeds (submit_commands driver a fence available image commands l)
unfolding submit_commands
submit_commands-Proceeds driver a fence available image commands l h fits =
    let (finished, there) =
      get_elem?-lt l.state.renderer.render_finished_semaphores_ image
        (omega (arith, h.balanced.semaphore_each)) in
    let r = set_fence-IsReady fence pending l refl h in
    let sent : Loop = record (set_fence fence pending l) {
      submitted =
          record {
            frame = l.state.renderer.current_frame_;
            image = image;
            waits_for = available;
            signals = finished;
            commands = commands;
          }
          ∷ l.submitted;
    } in
    let sent_ready : IsReady sent = record { balanced = r.balanced; live_fences = r.live_fences } in
    elim (Bool-cases a.ends) [
      | inr e ↦ rw (e, submit_commands) tt
      | inl e ↦
          rw (e, there, submit_commands)
            (elim a.submits
              as (λ b. Proceeds (
                if b
                then after_present driver a.present sent
                else failed (set_fence fence reset l))) [
                  | true ↦ after_present-Proceeds driver a.present sent sent_ready
                  | false ↦ tt
                ])
    ]

record_command_buffer-some :
    (r : Renderer) (image : ℕ) (players : List PlayerRenderState)
    → image < length r.swap_chain_framebuffers_
    → HasSlots r
    → (commands : List Command) × (record_command_buffer r image players ≡ some commands)
unfolding record_command_buffer
record_command_buffer-some r image players h slots =
    let set : ltb r.current_frame_ r.descriptor_sets_ ≡ true =
      lt→ltb r.current_frame_ r.descriptor_sets_ (omega (arith, slots.4, slots.5)) in
    let (framebuffer, there) = get_elem?-lt r.swap_chain_framebuffers_ image h in
    elim (Option-cases (record_command_buffer r image players)) [
      | inl absent ↦ absurd (ground (arith, there, set))
      | inr found ↦ found
    ]

record_frame-Proceeds :
    (driver : Driver) (a : FrameAnswers) (fence available image : ℕ) (l : Loop)
    → IsReady l
    → image < length l.state.renderer.swap_chain_images_
    → Proceeds (record_frame driver a fence available image l)
unfolding record_frame
record_frame-Proceeds driver a fence available image l h fits =
    let (commands, recorded) =
      record_command_buffer-some l.state.renderer image a.players
        (omega (arith, h.balanced.framebuffer_each)) h.balanced.slots in
    rw recorded
      (elim a.begins
        as (λ b. Proceeds (
          if b
          then submit_commands driver a fence available image commands l
          else failed (set_fence fence reset l))) [
            | true ↦ submit_commands-Proceeds driver a fence available image commands l h fits
            | false ↦ tt
          ])

submit_frame-Proceeds :
    (driver : Driver) (a : FrameAnswers) (fence available image : ℕ) (l : Loop)
    → IsReady l
    → image < length l.state.renderer.swap_chain_images_
    → Proceeds (submit_frame driver a fence available image l)
unfolding submit_frame
submit_frame-Proceeds driver a fence available image l h fits =
    let r = l.state.renderer in
    let slots = h.balanced.slots in
    let buffer : ltb r.current_frame_ r.command_buffers_ ≡ true =
      lt→ltb r.current_frame_ r.command_buffers_ (omega (arith, slots.3, slots.5)) in
    let (address, mapped) =
      get_elem?-lt r.camera_ubo_mapped_ r.current_frame_ (omega (arith, slots.2, slots.5)) in
    rw (buffer, mapped) (record_frame-Proceeds driver a fence available image l h fits)

acquire_image-Proceeds :
    (driver : Driver) (a : FrameAnswers) (fence available : ℕ) (l : Loop)
    → IsReady l
    → ImageFits l a.acquire
    → Proceeds (acquire_image driver a fence available l)
unfolding acquire_image
acquire_image-Proceeds driver a fence available l h fits = go a.acquire fits
  where
    go :
        (q : Acquired)
        → ImageFits l q
        → Proceeds (elim q [
          | acquired image ↦ submit_frame driver a fence available image l
          | suboptimal image ↦ submit_frame driver a fence available image l
          | acquire_out_of_date ↦ rebuild driver l
          | acquire_failed ↦ failed l
        ])
    go (acquired i) f = submit_frame-Proceeds driver a fence available i l h f
    go (suboptimal i) f = submit_frame-Proceeds driver a fence available i l h f
    go acquire_out_of_date f = rebuild-Proceeds driver l h
    go acquire_failed f = tt

acquire_frame-Proceeds :
    (driver : Driver) (a : FrameAnswers) (fence : ℕ) (l : Loop)
    → IsReady l
    → ImageFits l a.acquire
    → Proceeds (acquire_frame driver a fence l)
unfolding acquire_frame
acquire_frame-Proceeds driver a fence l h fits =
    let r = l.state.renderer in
    let slots = h.balanced.slots in
    let (available, there) =
      get_elem?-lt r.image_available_semaphores_ r.current_frame_
        (omega (arith, slots.1, slots.5)) in
    rw (there, acquire_frame) (acquire_image-Proceeds driver a fence available l h fits)

wait_for_fence-Proceeds :
    (f : Fence) (k : FrameOutcome) → is_live f ≡ true → Proceeds k → Proceeds (wait_for_fence f k)
wait_for_fence-Proceeds signalled k e p = p
wait_for_fence-Proceeds pending k e p = p
wait_for_fence-Proceeds reset k e p = cc

wait_frame-Proceeds :
    (driver : Driver) (a : FrameAnswers) (l : Loop)
    → IsReady l
    → ImageFits l a.acquire
    → Proceeds (wait_frame driver a l)
unfolding wait_frame
wait_frame-Proceeds driver a l h fits =
    let r = l.state.renderer in
    let slots = h.balanced.slots in
    let (fence, there) =
      get_elem?-lt r.in_flight_fences_ r.current_frame_ (omega (arith, slots.0, slots.5)) in
    rw (there, wait_frame)
      (wait_for_fence-Proceeds (l.fences fence) _ (h.live_fences fence) (
        acquire_frame-Proceeds driver a fence (set_fence fence signalled l)
          (set_fence-IsReady fence signalled l refl h) fits))

resize_frame-Proceeds : (driver : Driver) (l : Loop) → IsReady l → Proceeds (resize_frame driver l)
unfolding resize_frame
resize_frame-Proceeds driver l h = go (
    wait_for_area-Ensures
      {P = λ _ t. IsBalanced t × (t.renderer.current_frame_ ≡ l.state.renderer.current_frame_)}
      l.state.framebuffer l.state.framebuffer l.state.events l.state
      λ size events. (set_window-IsBalanced l.state size events h.balanced, refl))
  where
    go :
        {r : Outcome Unit}
        → Ensures Unit
            (λ _ t. IsBalanced t × (t.renderer.current_frame_ ≡ l.state.renderer.current_frame_))
            r
        → Proceeds (elim r [
          | done _ s ↦ rebuild driver (record l { state = s })
          | thrown s ↦ failed (record l { state = s })
          | fault ↦ undefined
          | waits ↦ sleeps
        ])
    go (returns {s = t} p) =
        rebuild-Proceeds driver (record l { state = t })
          (record { balanced = p.0; live_fences = h.live_fences })
    go (throws _) = tt
    go (blocks _) = tt

-- A frame from a loop that is ready, with an image index within the swap chain.
pub draw_frame-IsReady :
    (driver : Driver) (a : FrameAnswers) (l : Loop)
    → IsReady l
    → ImageFits l a.acquire
    → Proceeds (draw_frame driver a l)
unfolding draw_frame
draw_frame-IsReady driver a l h fits =
    let there : (l.state.renderer.device_ == 0) ≡ false = ground (arith, h.balanced.has_device) in
    rw there
      (elim l.state.renderer.framebuffer_resized_
        as (λ b. Proceeds (if b then resize_frame driver l else wait_frame driver a l)) [
          | true ↦ resize_frame-Proceeds driver l h
          | false ↦ wait_frame-Proceeds driver a l h fits
        ])
