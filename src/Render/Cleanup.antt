-- ===== src/Render/Cleanup.antt =====
-- client/src/VulkanRenderer.cpp: `cleanup`.
use game_x.Base.{ℕ, zero, suc, Bool, true, false, ◌&&◌, List, [], ◌∷◌, ◌==◌, if◌then◌else◌}
use game_x.Render.Gpu.{
  Object, vk_instance, surface, device, swap_chain, image_view, render_pass, pipeline_layout,
  pipeline, framebuffer, command_pool, semaphore, fence, buffer, memory, image, sampler,
  descriptor_set_layout, descriptor_pool, mapping,
}
use game_x.Render.State.{
  Renderer, done, fault, Action, ◌>>=◌, ◌>>◌, destroy, destroy_held, destroy_all,
}

unfoldable pub unmap : ℕ → ℕ → Action Unit
unfolding destroy
unmap zero m s = done tt s
unmap (suc a) m s = destroy mapping m s

-- The loop over the camera's uniform buffers: each is unmapped before it is destroyed and its
-- memory is freed.
unfoldable pub destroy_camera_buffers : List ℕ → List ℕ → List ℕ → Action Unit
unfolding ◌>>=◌ unmap destroy_held
destroy_camera_buffers (b ∷ bs) (m ∷ ms) (a ∷ addresses) s =
    (do
      unmap a m
      destroy_held buffer b
      destroy_held memory m
      destroy_camera_buffers bs ms addresses)
      s
destroy_camera_buffers [] _ _ s = done tt s
destroy_camera_buffers (b ∷ bs) [] _ s = fault
destroy_camera_buffers (b ∷ bs) (m ∷ ms) [] s = fault

-- Vulkan allows the destruction of a device or an instance only when nothing that was made from it
-- is left.
abbrev pub is_instance_level : Object → Bool
is_instance_level o = elim o.kind [
  | vk_instance ↦ true
  | surface ↦ true
  | device ↦ true
  | _ ↦ false
]

unfoldable pub every : (Object → Bool) → List Object → Bool
every p [] = true
every p (o ∷ os) = p o && every p os

unfoldable pub destroy_device : ℕ → Action Unit
unfolding destroy every
destroy_device h s = if every is_instance_level s.live then destroy device h s else fault

abbrev pub is_instance : Object → Bool
is_instance o = elim o.kind [ vk_instance ↦ true | _ ↦ false ]

unfoldable pub destroy_instance : ℕ → Action Unit
unfolding destroy every
destroy_instance h s = if every is_instance s.live then destroy vk_instance h s else fault

unfoldable pub destroy_instance_level : ℕ → ℕ → Action Unit
unfolding ◌>>=◌ destroy_held destroy_instance
destroy_instance_level zero su s = done tt s
destroy_instance_level (suc i) su s = (destroy_held surface su >> destroy_instance (suc i)) s

unfoldable pub release : Renderer → Action Unit
unfolding ◌>>=◌ destroy_held destroy_all destroy_camera_buffers destroy_device
    destroy_instance_level
release r = do
  destroy_all semaphore r.render_finished_semaphores_
  destroy_all semaphore r.image_available_semaphores_
  destroy_all fence r.in_flight_fences_
  destroy_held command_pool r.command_pool_
  destroy_all framebuffer r.swap_chain_framebuffers_
  destroy_held pipeline r.graphics_pipeline_
  destroy_held pipeline_layout r.pipeline_layout_
  destroy_held render_pass r.render_pass_
  destroy_all image_view r.swap_chain_image_views_
  destroy_held swap_chain r.swap_chain_
  destroy_held image_view r.depth_image_view_
  destroy_held image r.depth_image_
  destroy_held memory r.depth_image_memory_
  destroy_camera_buffers r.camera_ubo_buffers_ r.camera_ubo_buffers_memory_ r.camera_ubo_mapped_
  destroy_held descriptor_pool r.descriptor_pool_
  destroy_held sampler r.texture_sampler_
  destroy_held image_view r.texture_image_view_
  destroy_held image r.texture_image_
  destroy_held memory r.texture_image_memory_
  destroy_held descriptor_set_layout r.descriptor_set_layout_
  destroy_held buffer r.index_buffer_
  destroy_held memory r.index_buffer_memory_
  destroy_held buffer r.vertex_buffer_
  destroy_held memory r.vertex_buffer_memory_
  destroy_device r.device_
  destroy_instance_level r.instance_ r.surface_

unfoldable pub cleanup : Action Unit
unfolding release
cleanup s = if s.renderer.device_ == 0 then done tt s else release s.renderer s
