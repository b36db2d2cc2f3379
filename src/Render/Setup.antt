-- ===== src/Render/Setup.antt =====
-- client/src/VulkanRenderer.cpp: `init` and the functions that it calls once: the device, the render
-- pass, the pipeline, the geometry, the texture, the descriptors and the synchronisation objects.
use game_x.Base.{
  ℕ, ◌+◌, ◌*◌, true, List, [], ◌∷◌, ◌++◌, ◌==◌, if◌then◌else◌, Option, none, ltb, some, map, length,
}
use Prim.Native.String.{String}
use game_x.Render.Gpu.{buffer, memory, mapping, shader_module}
use game_x.Render.Device.{
  r8g8b8a8_srgb, find_queue_families, pick_physical_device, find_depth_format, PresentModeSetting,
}
use game_x.Render.Info
use game_x.Render.Info.{
  Info, instance_info, surface_info, device_info, render_pass_info, shader_module_info,
  pipeline_layout_info, pipeline_info, command_pool_info, semaphore_info, fence_info, sampler_info,
  set_layout_info, descriptor_pool_info, host_visible_coherent, device_local, color_aspect,
  sizeof_vertex, quad_vertices, quad_indices, sizeof_camera_ubo, max_frames_in_flight,
  set_layout_bindings, texture_sampler, ImageLayout, layout_undefined, transfer_dst,
  shader_read_only,
}
use game_x.Render.Texture.{generate_checkerboard_pixels}
use game_x.Render.State.{
  Action, ◌>>=◌, ◌>>◌, pure, or_throw, or_fault, read, assign, create, destroy, allocate,
  map_memory, resize_and_fill, for_frames, Driver,
}
use game_x.Render.Swapchain.{
  create_buffer, create_image, create_image_view, create_swap_chain, create_image_views,
  create_depth_resources, create_framebuffers, put_render_finished,
}

-- The stages and accesses of the barrier for the two transitions that the code knows.
pub record Barrier : Type 0 where
  pub src_access_mask : ℕ
  pub dst_access_mask : ℕ
  pub source_stage : ℕ
  pub destination_stage : ℕ

unfoldable pub barrier_for : ImageLayout → ImageLayout → Option Barrier
barrier_for layout_undefined transfer_dst = some (record {
  src_access_mask = 0;
  dst_access_mask = 0x1000;
  source_stage = 0x1;
  destination_stage = 0x1000;
})
barrier_for transfer_dst shader_read_only = some (record {
  src_access_mask = 0x1000;
  dst_access_mask = 0x20;
  source_stage = 0x1000;
  destination_stage = 0x80;
})
barrier_for _ _ = none

-- The command buffer of `beginSingleTimeCommands` is freed by `endSingleTimeCommands`; where the
-- function throws it is freed with the pool.
unfoldable pub transition_image_layout : ImageLayout → ImageLayout → Action Barrier
unfolding barrier_for
transition_image_layout from to = or_throw (barrier_for from to)

-- `readFile`: no file, or a size that is not a multiple of 4, is the exception. The words are
-- little-endian.
abbrev pub words : List ℕ → Option (List ℕ)
words [] = some []
words (a ∷ b ∷ c ∷ d ∷ rest) = elim (words rest) [
  | none ↦ none
  | some ws ↦ some ((a + b * 0x100 + c * 0x10000 + d * 0x1000000) ∷ ws)
]
words (a ∷ []) = none
words (a ∷ b ∷ []) = none
words (a ∷ b ∷ c ∷ []) = none

unfoldable pub create_render_pass : Action Unit
unfolding ◌>>=◌ read assign
create_render_pass = do
  physical ← read (λ r. r.physical_device_)
  device ← or_fault physical
  depth ← or_throw (find_depth_format device)
  assign λ r. record r { depth_format_ = depth }
  color ← read (λ r. r.swap_chain_image_format_)
  pass ← create (render_pass_info (Info.render_pass color depth))
  assign λ r. record r { render_pass_ = pass }

unfoldable pub create_descriptor_set_layout : Action Unit
unfolding ◌>>=◌ assign
create_descriptor_set_layout = do
  layout ← create (set_layout_info set_layout_bindings)
  assign λ r. record r { descriptor_set_layout_ = layout }

unfoldable pub create_command_pool : Action Unit
unfolding ◌>>=◌ read assign
create_command_pool = do
  physical ← read (λ r. r.physical_device_)
  device ← or_fault physical
  family ← or_throw (find_queue_families device).graphics_family
  pool ← create (command_pool_info family)
  assign λ r. record r { command_pool_ = pool }

unfoldable pub create_command_buffers : Action Unit
unfolding ◌>>=◌ assign
create_command_buffers = do
  allocate
  assign λ r. record r { command_buffers_ = max_frames_in_flight }

unfoldable pub create_texture_image_view : Action Unit
unfolding ◌>>=◌ read assign
create_texture_image_view = do
  i ← read (λ r. r.texture_image_)
  v ← create_image_view i r8g8b8a8_srgb color_aspect
  assign λ r. record r { texture_image_view_ = v }

unfoldable pub create_texture_sampler : Action Unit
unfolding ◌>>=◌ assign
create_texture_sampler = do
  s ← create (sampler_info texture_sampler)
  assign λ r. record r { texture_sampler_ = s }

-- Room for one sampler and one uniform buffer in each of the sets of the frames in flight.
unfoldable pub create_descriptor_pool : Action Unit
unfolding ◌>>=◌ assign
create_descriptor_pool = do
  p ←
      create (
        descriptor_pool_info (max_frames_in_flight ∷ max_frames_in_flight ∷ [])
          max_frames_in_flight)
  assign λ r. record r { descriptor_pool_ = p }

unfoldable pub create_descriptor_sets : Action Unit
unfolding ◌>>=◌ assign
create_descriptor_sets = do
  allocate
  assign λ r. record r { descriptor_sets_ = max_frames_in_flight }

-- The code resizes the two vectors first; what is not made yet is null in them.
unfoldable pub create_frame_sync : Action Unit
unfolding ◌>>=◌ assign
create_frame_sync = do
  s ← create semaphore_info
  assign λ r. record r { image_available_semaphores_ = r.image_available_semaphores_ ++ s ∷ [] }
  f ← create (fence_info true)
  assign λ r. record r { in_flight_fences_ = r.in_flight_fences_ ++ f ∷ [] }

unfoldable pub create_sync_objects : Action Unit
unfolding ◌>>=◌ read assign
create_sync_objects = do
  for_frames create_frame_sync
  images ← read (λ r. r.swap_chain_images_)
  old ← read (λ r. r.render_finished_semaphores_)
  resize_and_fill put_render_finished old (map (λ _. semaphore_info) images)

-- One queue for each family in the set, which a `std::set` holds in ascending order.
unfoldable pub unique_families : ℕ → ℕ → List ℕ
unique_families g p = if g == p then g ∷ [] else if ltb g p then g ∷ p ∷ [] else p ∷ g ∷ []

unfoldable pub create_logical_device : Action Unit
unfolding ◌>>=◌ read assign
create_logical_device = do
  physical ← read (λ r. r.physical_device_)
  device ← or_fault physical
  g ← or_throw (find_queue_families device).graphics_family
  p ← or_throw (find_queue_families device).present_family
  h ← create (device_info (unique_families g p))
  assign λ r. record r { device_ = h }

module _ (driver : Driver) where
  unfoldable pub create_instance : Action Unit
  unfolding ◌>>=◌ assign
  create_instance = do
    i ← create (instance_info driver.extensions)
    assign λ r. record r { instance_ = i }
    s ← create surface_info
    assign λ r. record r { surface_ = s }

  unfoldable pub pick_device : Action Unit
  unfolding ◌>>=◌ assign
  pick_device = do
    d ← or_throw (pick_physical_device driver.devices)
    assign λ r. record r { physical_device_ = some d }

  unfoldable pub create_vertex_buffer : Action Unit
  unfolding ◌>>=◌ pure
  create_vertex_buffer = do
    (b, m) ←
        create_buffer driver (sizeof_vertex * quad_vertices) 0x80 host_visible_coherent
          (λ h r. record r { vertex_buffer_ = h }) (λ h r. record r { vertex_buffer_memory_ = h })
    map_memory m
    destroy mapping m

  unfoldable pub create_index_buffer : Action Unit
  unfolding ◌>>=◌ pure
  create_index_buffer = do
    (b, m) ←
        create_buffer driver (2 * length quad_indices) 0x40 host_visible_coherent
          (λ h r. record r { index_buffer_ = h }) (λ h r. record r { index_buffer_memory_ = h })
    map_memory m
    destroy mapping m

  unfoldable pub create_camera_buffer : Action Unit
  unfolding ◌>>=◌ assign
  create_camera_buffer = do
    (b, m) ←
        create_buffer driver sizeof_camera_ubo 0x10 host_visible_coherent
          (λ h r. record r { camera_ubo_buffers_ = r.camera_ubo_buffers_ ++ h ∷ [] })
          (λ h r. record r { camera_ubo_buffers_memory_ = r.camera_ubo_buffers_memory_ ++ h ∷ [] })
    address ← map_memory m
    assign λ r. record r { camera_ubo_mapped_ = r.camera_ubo_mapped_ ++ address ∷ [] }

  unfoldable pub create_camera_uniform_buffers : Action Unit
  create_camera_uniform_buffers = for_frames create_camera_buffer

  unfoldable pub create_texture_image : Action Unit
  unfolding ◌>>=◌
  create_texture_image = do
    let size : ℕ = length (generate_checkerboard_pixels 64 64 8)
    (staging, staging_memory) ←
        create_buffer driver size 0x1 host_visible_coherent (λ h r. r) (λ h r. r)
    map_memory staging_memory
    destroy mapping staging_memory
    i ←
        create_image driver (record { width = 64; height = 64 }) r8g8b8a8_srgb 0x6 device_local
          (λ h r. record r { texture_image_ = h }) (λ h r. record r { texture_image_memory_ = h })
    transition_image_layout layout_undefined transfer_dst
    transition_image_layout transfer_dst shader_read_only
    destroy buffer staging
    destroy memory staging_memory

  unfoldable pub read_file : String → Action (List ℕ)
  unfolding ◌>>=◌
  read_file name = do bytes ← or_throw (driver.shader_file name); or_throw (words bytes)

  unfoldable pub create_graphics_pipeline : Action Unit
  unfolding ◌>>=◌ assign read
  create_graphics_pipeline = do
    vert_code ← read_file "vert.spv"
    frag_code ← read_file "frag.spv"
    vert ← create (shader_module_info vert_code)
    frag ← create (shader_module_info frag_code)
    set_layout ← read (λ r. r.descriptor_set_layout_)
    layout ← create (pipeline_layout_info (Info.pipeline_layout set_layout))
    assign λ r. record r { pipeline_layout_ = layout }
    pass ← read (λ r. r.render_pass_)
    p ← create (pipeline_info (Info.pipeline vert frag layout pass))
    assign λ r. record r { graphics_pipeline_ = p }
    destroy shader_module frag
    destroy shader_module vert

  unfoldable pub init : PresentModeSetting → Action Unit
  unfolding ◌>>=◌ assign
  init config = do
    assign λ r. record r { present_mode = config }
    create_instance
    pick_device
    create_logical_device
    create_swap_chain driver
    create_image_views
    create_render_pass
    create_descriptor_set_layout
    create_graphics_pipeline
    create_depth_resources driver
    create_framebuffers
    create_command_pool
    create_vertex_buffer
    create_index_buffer
    create_texture_image
    create_texture_image_view
    create_texture_sampler
    create_camera_uniform_buffers
    create_descriptor_pool
    create_descriptor_sets
    create_command_buffers
    create_sync_objects
