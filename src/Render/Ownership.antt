-- ===== src/Render/Ownership.antt =====
-- client/src/VulkanRenderer.cpp: which objects the members of the renderer own, and that every
-- object alive is owned by one of them, and no object is destroyed that is not alive.
pub mod Release
pub mod Recreate
pub mod Start
pub mod Initial
pub mod Lifetime
use game_x.Base.{
  ◌<◌, ℕ, zero, suc, ◌+◌, ◌≡◌, ◌≢◌, List, [], ◌∷◌, ◌++◌, some, Bool, true, is_some, length,
}
use game_x.Render.Gpu.{
  Kind, Object, count, vk_instance, surface, device, swap_chain, image_view, render_pass,
  pipeline_layout, pipeline, framebuffer, command_pool, semaphore, fence, buffer, memory, image,
  sampler, descriptor_set_layout, descriptor_pool, mapping,
}
use game_x.Render.Device.{PhysicalDevice, choose_swap_surface_format}
use game_x.Render.State.{Renderer, State}
use game_x.Render.State.Rules.{held, all_held, object}

unfoldable pub mapped : ℕ → ℕ → List Object
unfolding object
mapped zero m = []
mapped (suc a) m = object mapping m ∷ []

-- The camera's buffers, their memory and its mapping.
unfoldable pub camera_held : List ℕ → List ℕ → List ℕ → List Object
unfolding held mapped
camera_held (b ∷ bs) (m ∷ ms) (a ∷ addresses) =
    mapped a m ++ (held buffer b ++ (held memory m ++ camera_held bs ms addresses))
camera_held [] _ _ = []
camera_held (b ∷ bs) [] _ = []
camera_held (b ∷ bs) (m ∷ ms) [] = []

-- How often the members that do not depend on the window own an object.
abbrev pub fixed_own : Renderer → Object → ℕ
fixed_own r o =
    count o (camera_held r.camera_ubo_buffers_ r.camera_ubo_buffers_memory_ r.camera_ubo_mapped_)
    + (count o (held descriptor_pool r.descriptor_pool_)
        + (count o (held sampler r.texture_sampler_)
            + (count o (held image_view r.texture_image_view_)
                + (count o (held image r.texture_image_)
                    + (count o (held memory r.texture_image_memory_)
                        + (count o (held descriptor_set_layout r.descriptor_set_layout_)
                            + (count o (held buffer r.index_buffer_)
                                + (count o (held memory r.index_buffer_memory_)
                                    + (count o (held buffer r.vertex_buffer_)
                                        + (count o (held memory r.vertex_buffer_memory_)
                                            + (count o (held device r.device_)
                                                + (count o (held surface r.surface_)
                                                    + (count o (held vk_instance r.instance_)
                                                        + 0)))))))))))))

abbrev pub own : Renderer → Object → ℕ
own r o =
    count o (all_held semaphore r.render_finished_semaphores_)
    + (count o (all_held semaphore r.image_available_semaphores_)
        + (count o (all_held fence r.in_flight_fences_)
            + (count o (held command_pool r.command_pool_)
                + (count o (all_held framebuffer r.swap_chain_framebuffers_)
                    + (count o (held pipeline r.graphics_pipeline_)
                        + (count o (held pipeline_layout r.pipeline_layout_)
                            + (count o (held render_pass r.render_pass_)
                                + (count o (all_held image_view r.swap_chain_image_views_)
                                    + (count o (held swap_chain r.swap_chain_)
                                        + (count o (held image_view r.depth_image_view_)
                                            + (count o (held image r.depth_image_)
                                                + (count o (held memory r.depth_image_memory_)
                                                    + fixed_own r o))))))))))))

-- The vectors that `drawFrame` indexes by `currentFrame_` have a place for each frame in flight.
abbrev pub HasSlots : Renderer → Type 0
HasSlots r =
    (length r.in_flight_fences_ ≡ 2)
    × (length r.image_available_semaphores_ ≡ 2)
    × (length r.camera_ubo_mapped_ ≡ 2)
    × (r.command_buffers_ ≡ 2)
    × (r.descriptor_sets_ ≡ 2)
    × (r.current_frame_ < 2)

-- Every object alive is owned by a member, once for each time that it was made, and what a member
-- holds is alive. There is a framebuffer and a semaphore for each image of the swap chain, a place for
-- each frame in flight, and the device that was picked has a surface format to offer.
pub record IsBalanced (s : State) : Type 0 where
  pub balanced : (o : Object) → count o s.live ≡ own s.renderer o
  pub device : PhysicalDevice
  pub picked : s.renderer.physical_device_ ≡ some device
  pub offers_format : is_some (choose_swap_surface_format device.formats) ≡ true
  pub has_memories :
      length s.renderer.camera_ubo_buffers_ ≡ length s.renderer.camera_ubo_buffers_memory_
  pub has_mappings : length s.renderer.camera_ubo_buffers_ ≡ length s.renderer.camera_ubo_mapped_
  pub framebuffer_each :
      length s.renderer.swap_chain_framebuffers_ ≡ length s.renderer.swap_chain_images_
  pub semaphore_each :
      length s.renderer.render_finished_semaphores_ ≡ length s.renderer.swap_chain_images_
  pub slots : HasSlots s.renderer
  pub has_device : s.renderer.device_ ≢ 0
  pub has_instance : s.renderer.instance_ ≢ 0
