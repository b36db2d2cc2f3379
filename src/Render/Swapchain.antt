-- ===== src/Render/Swapchain.antt =====
-- client/src/VulkanRenderer.cpp: what depends on the size of the window: `createSwapChain`,
-- `createImageViews`, `createDepthResources`, `createFramebuffers`, `cleanupSwapChain` and
-- `recreateSwapchain`, with `createImage`, `createImageView` and `createBuffer` that they share.
use game_x.Base.{ℕ, Bool, ◌||◌, List, [], ◌∷◌, ◌==◌, if◌then◌else◌, Option, none, some, map}
use game_x.Render.Gpu.{image_view, framebuffer, swap_chain, image, memory, semaphore}
use game_x.Render.Device.{
  Extent, Format, optimal, QueueFamilyIndices, find_queue_families, find_memory_type,
  choose_swap_surface_format, choose_swap_present_mode, choose_swap_extent, choose_image_count,
}
use game_x.Render.Info.{
  swap_chain_info, image_view_info, framebuffer_info, memory_info, image_info, buffer_info,
  semaphore_info, color_aspect, depth_aspect, device_local,
}
use game_x.Render.State.{
  Renderer, State, Outcome, done, waits, Action, ◌>>=◌, ◌>>◌, pure, or_throw, or_fault, read,
  assign, create, destroy_held, destroy_all, resize_and_fill, framebuffer_size, Driver,
}

unfoldable pub create_image_view : ℕ → Format → ℕ → Action ℕ
create_image_view i format aspect = create (image_view_info i format aspect)

-- The families of the swap chain where they differ; otherwise it is exclusive to one.
unfoldable pub sharing_families : QueueFamilyIndices → Option (List ℕ)
sharing_families q = elim q.graphics_family [
  | none ↦ none
  | some g ↦ elim q.present_family [
    | none ↦ none
    | some p ↦ some (if g == p then [] else g ∷ p ∷ [])
  ]
]

abbrev pub put_image_views : List ℕ → Renderer → Renderer
put_image_views hs r = record r { swap_chain_image_views_ = hs }

unfoldable pub create_image_views : Action Unit
unfolding ◌>>=◌ read assign
create_image_views = do
  images ← read (λ r. r.swap_chain_images_)
  format ← read (λ r. r.swap_chain_image_format_)
  old ← read (λ r. r.swap_chain_image_views_)
  resize_and_fill put_image_views old (map (λ i. image_view_info i format color_aspect) images)

abbrev pub put_framebuffers : List ℕ → Renderer → Renderer
put_framebuffers hs r = record r { swap_chain_framebuffers_ = hs }

unfoldable pub create_framebuffers : Action Unit
unfolding ◌>>=◌ read assign
create_framebuffers = do
  views ← read (λ r. r.swap_chain_image_views_)
  depth ← read (λ r. r.depth_image_view_)
  pass ← read (λ r. r.render_pass_)
  extent ← read (λ r. r.swap_chain_extent_)
  old ← read (λ r. r.swap_chain_framebuffers_)
  resize_and_fill put_framebuffers old
      (map (λ v. framebuffer_info pass (v ∷ depth ∷ []) extent) views)

unfoldable pub cleanup_swap_chain : Action Unit
unfolding ◌>>=◌ read assign
cleanup_swap_chain = do
  framebuffers ← read (λ r. r.swap_chain_framebuffers_)
  destroy_all framebuffer framebuffers
  assign (put_framebuffers [])
  views ← read (λ r. r.swap_chain_image_views_)
  destroy_all image_view views
  assign (put_image_views [])
  chain ← read (λ r. r.swap_chain_)
  destroy_held swap_chain chain
  assign λ r. record r { swap_chain_ = 0 }
  view ← read (λ r. r.depth_image_view_)
  destroy_held image_view view
  assign λ r. record r { depth_image_view_ = 0 }
  depth ← read (λ r. r.depth_image_)
  destroy_held image depth
  assign λ r. record r { depth_image_ = 0 }
  depth_memory ← read (λ r. r.depth_image_memory_)
  destroy_held memory depth_memory
  assign λ r. record r { depth_image_memory_ = 0 }

module _ (driver : Driver) where
  -- `allocInfo` and `vkAllocateMemory` of `createBuffer` and `createImage`.
  unfoldable pub allocate_memory : ℕ → ℕ → Action ℕ
  unfolding ◌>>=◌ read
  allocate_memory resource properties = do
    physical ← read (λ r. r.physical_device_)
    device ← or_fault physical
    type_index ← or_throw (find_memory_type device (driver.memory_type_bits resource) properties)
    create (memory_info type_index)

  -- The two references that the function writes are the setters.
  unfoldable pub create_buffer :
      ℕ → ℕ → ℕ → (ℕ → Renderer → Renderer) → (ℕ → Renderer → Renderer) → Action (ℕ × ℕ)
  unfolding ◌>>=◌ assign pure
  create_buffer size usage properties put_buffer put_memory = do
    b ← create (buffer_info size usage)
    assign (put_buffer b)
    m ← allocate_memory b properties
    assign (put_memory m)
    pure (b, m)

  unfoldable pub create_image :
      Extent → Format → ℕ → ℕ → (ℕ → Renderer → Renderer) → (ℕ → Renderer → Renderer) → Action ℕ
  unfolding ◌>>=◌ assign pure
  create_image size format usage properties put_image put_memory = do
    i ← create (
        image_info
          (record { extent = size; image_format = format; tiling = optimal; usage = usage }))
    assign (put_image i)
    m ← allocate_memory i properties
    assign (put_memory m)
    pure i

  unfoldable pub create_swap_chain : Action Unit
  unfolding ◌>>=◌ read framebuffer_size assign
  create_swap_chain = do
    physical ← read (λ r. r.physical_device_)
    device ← or_fault physical
    surface_format ← or_fault (choose_swap_surface_format device.formats)
    setting ← read (λ r. r.present_mode)
    window ← framebuffer_size
    let extent = choose_swap_extent device.capabilities window
    families ← or_throw (sharing_families (find_queue_families device))
    chain ← create (
        swap_chain_info (record {
          min_image_count = choose_image_count device.capabilities;
          image_format = surface_format;
          image_extent = extent;
          families = families;
          present_mode = choose_swap_present_mode setting device.present_modes;
        }))
    assign λ r. record r {
      swap_chain_ = chain;
      swap_chain_images_ = driver.swap_images chain;
      swap_chain_image_format_ = surface_format.format;
      swap_chain_extent_ = extent;
    }

  unfoldable pub create_depth_resources : Action Unit
  unfolding ◌>>=◌ read assign
  create_depth_resources = do
    extent ← read (λ r. r.swap_chain_extent_)
    format ← read (λ r. r.depth_format_)
    i ←
        create_image extent format 0x20 device_local (λ h r. record r { depth_image_ = h })
          (λ h r. record r { depth_image_memory_ = h })
    v ← create_image_view i format depth_aspect
    assign λ r. record r { depth_image_view_ = v }

abbrev pub has_no_area : Extent → Bool
has_no_area e = e.width == 0 || e.height == 0

-- `while (width == 0 || height == 0)`: the size is read, and then an event is waited for. `last`
-- is what the read before returned.
unfoldable pub wait_for_area : Extent → Extent → List Extent → State → Outcome Unit
wait_for_area last current [] s = if has_no_area last then waits else done tt s
wait_for_area last current (e ∷ es) s =
    let rest = wait_for_area current e es (record s { framebuffer = e; events = es }) in
    if has_no_area last then rest else done tt s

unfoldable pub wait_while_minimized : Action Unit
unfolding wait_for_area
wait_while_minimized s = wait_for_area s.framebuffer s.framebuffer s.events s

abbrev pub put_render_finished : List ℕ → Renderer → Renderer
put_render_finished hs r = record r { render_finished_semaphores_ = hs }

module _ (driver : Driver) where
  unfoldable pub recreate_swapchain : Action Unit
  unfolding ◌>>=◌ read assign
  recreate_swapchain = do
    wait_while_minimized
    cleanup_swap_chain
    create_swap_chain driver
    create_image_views
    create_depth_resources driver
    create_framebuffers
    semaphores ← read (λ r. r.render_finished_semaphores_)
    destroy_all semaphore semaphores
    images ← read (λ r. r.swap_chain_images_)
    resize_and_fill put_render_finished semaphores (map (λ _. semaphore_info) images)
