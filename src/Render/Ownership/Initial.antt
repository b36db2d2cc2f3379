-- ===== src/Render/Ownership/Initial.antt =====
-- client/src/VulkanRenderer.cpp: `init`: what is alive when it returns is what the members own.
use game_x.Base.{
  ◌<◌, ℕ, suc, ◌+◌, ◌≡◌, ◌≢◌, refl, ◌∙◌, List, [], ◌∷◌, ◌++◌, some, true, is_some, arith, length,
}
use game_x.Render.Gpu.{
  Object, count, swap_chain, image_view, framebuffer, semaphore, image, memory, buffer, fence,
  mapping, command_pool, render_pass, descriptor_set_layout, surface, vk_instance, device, pipeline,
  pipeline_layout,
}
use game_x.Render.Device.{
  Extent, PhysicalDevice, PresentModeSetting, choose_swap_surface_format, pick_physical_device,
  find_queue_families, find_depth_format,
}
use game_x.Render.Device.Families.{pick_physical_device_serves}
use game_x.Render.State.{State, Action, Driver, ◌>>◌, allocate, for_frames, new_state}
use game_x.Render.State.Rules.{
  Ensures, returns, >>=-Ensures, held, all_held, object, create_then, or_throw_then, or_fault_then,
  allocate-Ensures,
}
use game_x.Render.State.Fill.{fill_new-Ensures, all_held_two}
use game_x.Render.Swapchain.{
  create_image_view, create_swap_chain, create_image_views, create_depth_resources,
  create_framebuffers, put_render_finished,
}
use game_x.Render.Setup.{
  create_render_pass, create_descriptor_set_layout, create_command_pool, create_command_buffers,
  create_texture_image_view, create_texture_sampler, create_descriptor_pool, create_descriptor_sets,
  create_frame_sync, create_sync_objects, create_instance, pick_device, create_vertex_buffer,
  create_index_buffer, create_camera_buffer, create_camera_uniform_buffers, create_texture_image,
  create_graphics_pipeline, create_logical_device, init,
}
use game_x.Render.Ownership.{camera_held, mapped, IsBalanced}
use game_x.Render.Ownership.Recreate.{
  create_swap_chain-Ensures, create_image_views-Ensures, create_framebuffers-Ensures,
  create_depth_resources-Ensures,
}
use game_x.Render.Ownership.Start.{
  create_vertex_buffer-Ensures, create_index_buffer-Ensures, create_texture_image-Ensures,
  create_camera_buffer-Ensures, create_graphics_pipeline-Ensures,
}

-- The second half of `init`, from the geometry on.
abbrev furnish : Driver → Action Unit
furnish driver = do
  create_vertex_buffer driver
  create_index_buffer driver
  create_texture_image driver
  create_texture_image_view
  create_texture_sampler
  create_camera_uniform_buffers driver
  create_descriptor_pool
  create_descriptor_sets
  create_command_buffers
  create_sync_objects

-- What the first half owns, and what the second half finds empty.
record IsHalfway (s : State) : Type 0 where
  balanced :
      (o : Object)
      → count o s.live
        ≡ count o (held command_pool s.renderer.command_pool_)
          + (count o (all_held framebuffer s.renderer.swap_chain_framebuffers_)
              + (count o (held pipeline s.renderer.graphics_pipeline_)
                  + (count o (held pipeline_layout s.renderer.pipeline_layout_)
                      + (count o (held render_pass s.renderer.render_pass_)
                          + (count o (all_held image_view s.renderer.swap_chain_image_views_)
                              + (count o (held swap_chain s.renderer.swap_chain_)
                                  + (count o (held image_view s.renderer.depth_image_view_)
                                      + (count o (held image s.renderer.depth_image_)
                                          + (count o (held memory s.renderer.depth_image_memory_)
                                              + (count o (
                                                    held descriptor_set_layout
                                                      s.renderer.descriptor_set_layout_)
                                                  + (count o (held device s.renderer.device_)
                                                      + (count o (held surface s.renderer.surface_)
                                                          + count o (
                                                            held vk_instance
                                                            s.renderer.instance_)))))))))))))
  no_buffers : s.renderer.camera_ubo_buffers_ ≡ []
  no_memories : s.renderer.camera_ubo_buffers_memory_ ≡ []
  no_mappings : s.renderer.camera_ubo_mapped_ ≡ []
  no_semaphores : s.renderer.image_available_semaphores_ ≡ []
  no_fences : s.renderer.in_flight_fences_ ≡ []
  picked_device : PhysicalDevice
  picked : s.renderer.physical_device_ ≡ some picked_device
  offers_format : is_some (choose_swap_surface_format picked_device.formats) ≡ true
  framebuffer_each :
      length s.renderer.swap_chain_framebuffers_ ≡ length s.renderer.swap_chain_images_
  frame : s.renderer.current_frame_ < 2
  has_device : s.renderer.device_ ≢ 0
  has_instance : s.renderer.instance_ ≢ 0

two_made : (xs : List ℕ) (a b : ℕ) → xs ≡ [] → length ((xs ++ a ∷ []) ++ b ∷ []) ≡ 2
two_made xs a b e = rw e refl

length_two :
    (xs ys : List ℕ) (a b c d : ℕ)
    → xs ≡ []
    → ys ≡ []
    → length ((xs ++ a ∷ []) ++ b ∷ []) ≡ length ((ys ++ c ∷ []) ++ d ∷ [])
length_two xs ys a b c d e f = rw (e, f) refl

camera_held_two :
    (o : Object) (bs ms addresses : List ℕ) (b1 m1 b2 m2 : ℕ)
    → bs ≡ []
    → ms ≡ []
    → addresses ≡ []
    → count o (
        camera_held
          ((bs ++ suc b1 ∷ []) ++ suc b2 ∷ [])
          ((ms ++ suc m1 ∷ []) ++ suc m2 ∷ [])
          ((addresses ++ suc (suc m1) ∷ []) ++ suc (suc m2) ∷ []))
      ≡ count o (
          object mapping (suc m1)
          ∷ object buffer (suc b1)
          ∷ object memory (suc m1)
          ∷ object mapping (suc m2)
          ∷ object buffer (suc b2)
          ∷ object memory (suc m2)
          ∷ [])
unfolding camera_held mapped held count
camera_held_two o bs ms addresses b1 m1 b2 m2 e f g = rw (e, f, g) (omega arith)

furnish-IsBalanced :
    (driver : Driver) (s : State)
    → IsHalfway s
    → Ensures Unit (λ _ t. IsBalanced t) (furnish driver s)
unfolding create_texture_image_view create_texture_sampler create_camera_uniform_buffers
    create_descriptor_pool create_descriptor_sets create_command_buffers create_sync_objects
    create_image_view for_frames create_frame_sync count held
furnish-IsBalanced driver s h = >>=-Ensures (create_vertex_buffer driver) _ _ (
    create_vertex_buffer-Ensures driver h.picked_device _ h.picked λ vb vm l1 _ e1.
      >>=-Ensures (create_index_buffer driver) _ _ (
        create_index_buffer-Ensures driver h.picked_device _ h.picked λ ib im l2 _ e2.
          >>=-Ensures (create_texture_image driver) _ _ (
            create_texture_image-Ensures driver h.picked_device _ h.picked λ ti tm l3 _ e3.
              >>=-Ensures create_texture_image_view _ _ (
                create_then _ _ _ λ tv _. returns (
                  >>=-Ensures create_texture_sampler _ _ (
                    create_then _ _ _ λ ts _. returns (
                      >>=-Ensures (create_camera_uniform_buffers driver) _ _ (
                        >>=-Ensures (create_camera_buffer driver) _ _ (
                          create_camera_buffer-Ensures driver h.picked_device _ h.picked λ b1 m1 _.
                            create_camera_buffer-Ensures driver h.picked_device _ h.picked
                              λ b2 m2 _. >>=-Ensures create_descriptor_pool _ _ (
                                create_then _ _ _ λ dp _. returns (
                                  >>=-Ensures create_descriptor_sets _ _ (
                                    >>=-Ensures allocate _ _ (
                                      allocate-Ensures _ λ _. returns (
                                        >>=-Ensures create_command_buffers _ _ (
                                          >>=-Ensures allocate _ _ (
                                            allocate-Ensures _ λ _. returns (
                                              >>=-Ensures (for_frames create_frame_sync) _ _ (
                                                >>=-Ensures create_frame_sync _ _ (
                                                  create_then _ _ _ λ s1 _.
                                                    create_then _ _ _ λ f1 _. returns (
                                                      create_then _ _ _ λ s2 _.
                                                        create_then _ _ _ λ f2 _. returns (
                                                          fill_new-Ensures semaphore
                                                            put_render_finished (λ _ _ _. refl) _ _
                                                            _ _ (λ _. refl)
                                                            λ hs l4 _ n4 e4. record {
                                                            balanced = λ o. omega (
                                                            arith,
                                                            h.balanced o,
                                                            e1 o,
                                                            e2 o,
                                                            e3 o,
                                                            e4 o,
                                                            all_held_two o semaphore _ (suc s1)
                                                            (suc s2) h.no_semaphores,
                                                            all_held_two o fence _ (suc f1) (suc f2)
                                                            h.no_fences,
                                                            camera_held_two o _ _ _ b1 m1 b2 m2
                                                            h.no_buffers h.no_memories
                                                            h.no_mappings,
                                                            );
                                                            device = h.picked_device;
                                                            picked = h.picked;
                                                            offers_format = h.offers_format;
                                                            has_memories =
                                                            length_two _ _ _ _ _ _ h.no_buffers
                                                            h.no_memories;
                                                            has_mappings =
                                                            length_two _ _ _ _ _ _ h.no_buffers
                                                            h.no_mappings;
                                                            framebuffer_each = h.framebuffer_each;
                                                            semaphore_each = n4;
                                                            slots = (
                                                            two_made _ _ _ h.no_fences,
                                                            two_made _ _ _ h.no_semaphores,
                                                            two_made _ _ _ h.no_mappings,
                                                            refl,
                                                            refl,
                                                            h.frame,
                                                            );
                                                            has_device = h.has_device;
                                                            has_instance = h.has_instance;
                                                            })))))))))))))))))))))

-- init on a new renderer destroys nothing that is not alive and reads no empty vector, whatever the
-- driver answers; when it returns, every object alive is owned by a member, once, and the members
-- hold nothing else: see IsBalanced.
pub init-IsBalanced :
    (driver : Driver) (config : PresentModeSetting) (answers : List ℕ) (size : Extent)
    (events : List Extent)
    → Ensures Unit (λ _ t. IsBalanced t) (init driver config (new_state answers size events))
unfolding init new_state count held create_instance pick_device create_logical_device
    create_render_pass create_descriptor_set_layout create_command_pool
init-IsBalanced driver config answers size events = >>=-Ensures (create_instance driver) _ _ (
    create_then _ _ _ λ inst _. create_then _ _ _ λ surf _. returns (
      >>=-Ensures (pick_device driver) _ _ (
        or_throw_then (pick_physical_device driver.devices) _ _ λ device picked. returns (
          let serves = pick_physical_device_serves driver.devices device picked in
          >>=-Ensures create_logical_device _ _ (
            or_fault_then _ _ _ device refl (
              or_throw_then (find_queue_families device).graphics_family _ _ λ g _.
                or_throw_then (find_queue_families device).present_family _ _ λ p _.
                  create_then _ _ _ λ dev _. returns (
                    >>=-Ensures (create_swap_chain driver) _ _ (
                      create_swap_chain-Ensures driver device _ refl serves.3 λ chain _ _ _.
                        >>=-Ensures create_image_views _ _ (
                          create_image_views-Ensures _ λ views l1 _ n1 e1.
                            >>=-Ensures create_render_pass _ _ (
                              or_fault_then _ _ _ device refl (
                                or_throw_then (find_depth_format device) _ _ λ depth _.
                                  create_then _ _ _ λ pass _. returns (
                                    >>=-Ensures create_descriptor_set_layout _ _ (
                                      create_then _ _ _ λ layout _. returns (
                                        >>=-Ensures (create_graphics_pipeline driver) _ _ (
                                          create_graphics_pipeline-Ensures driver device _
                                            λ pl gp l2 _ e2.
                                              >>=-Ensures (create_depth_resources driver) _ _ (
                                                create_depth_resources-Ensures driver device _ refl
                                                  λ di dm dv _.
                                                    >>=-Ensures create_framebuffers _ _ (
                                                      create_framebuffers-Ensures _
                                                        λ fbs l3 _ n3 e3.
                                                          >>=-Ensures create_command_pool _ _ (
                                                            or_fault_then _ _ _ device refl (
                                                            or_throw_then
                                                            (find_queue_families
                                                            device).graphics_family
                                                            _ _
                                                            λ _ _. create_then _ _ _ λ pool _.
                                                            returns (
                                                            furnish-IsBalanced driver _ (record {
                                                            balanced =
                                                            λ o. omega (arith, e1 o, e2 o, e3 o);
                                                            no_buffers = refl;
                                                            no_memories = refl;
                                                            no_mappings = refl;
                                                            no_semaphores = refl;
                                                            no_fences = refl;
                                                            picked_device = device;
                                                            picked = refl;
                                                            offers_format = serves.3;
                                                            framebuffer_each = n3 ∙ n1;
                                                            frame = omega arith;
                                                            has_device = λ e. cc;
                                                            has_instance = λ e. cc;
                                                            })))))))))))))))))))))
