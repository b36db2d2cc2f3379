-- ===== src/Render/Ownership/Recreate.antt =====
-- client/src/VulkanRenderer.cpp: `cleanupSwapChain`, `recreateSwapchain` and the functions that it
-- calls: the members own what is alive after it as before it.
use game_x.Base.{
  ℕ, suc, ◌+◌, ◌-◌, ◌≡◌, refl, ◌∙◌, List, [], ◌∷◌, some, none, true, false, is_some, arith, length,
  if◌then◌else◌, Option-cases, inl, inr,
}
use game_x.Render.Gpu.{
  Object, count, swap_chain, image_view, framebuffer, semaphore, image, memory, buffer, fence,
  command_pool, pipeline, pipeline_layout, render_pass,
}
use game_x.Render.Device.{
  Extent, Format, PhysicalDevice, SurfaceFormat, choose_swap_surface_format, find_queue_families,
}
use game_x.Render.Info.{device_local}
use game_x.Render.State.{Renderer, State, done, waits, Driver}
use game_x.Render.State.Rules.{
  Ensures, returns, blocks, >>=-Ensures, held, all_held, object, held_then, all_then, create_then,
  or_throw_then, or_fault_then, create-Ensures,
}
use game_x.Render.State.Fill.{fill_new-Ensures}
use game_x.Render.Swapchain.{
  allocate_memory, create_buffer, create_image, create_image_view, create_swap_chain,
  put_image_views, create_image_views, create_depth_resources, put_framebuffers,
  create_framebuffers, cleanup_swap_chain, has_no_area, sharing_families, wait_for_area,
  wait_while_minimized, put_render_finished, recreate_swapchain,
}
use game_x.Render.Ownership.{fixed_own, IsBalanced}

-- What the members own that depend on the size of the window.
abbrev pub sized_own : Renderer → Object → ℕ
sized_own r o =
    count o (all_held semaphore r.render_finished_semaphores_)
    + (count o (all_held framebuffer r.swap_chain_framebuffers_)
        + (count o (all_held image_view r.swap_chain_image_views_)
            + (count o (held swap_chain r.swap_chain_)
                + (count o (held image_view r.depth_image_view_)
                    + (count o (held image r.depth_image_)
                        + count o (held memory r.depth_image_memory_))))))

cleanup_swap_chain-Ensures :
    {P : Unit → State → Type 0} {Q : Type 0} (s : State) (rest : Object → ℕ)
    → ((o : Object)
        → count o s.live
          ≡ count o (all_held framebuffer s.renderer.swap_chain_framebuffers_)
            + (count o (all_held image_view s.renderer.swap_chain_image_views_)
                + (count o (held swap_chain s.renderer.swap_chain_)
                    + (count o (held image_view s.renderer.depth_image_view_)
                        + (count o (held image s.renderer.depth_image_)
                            + (count o (held memory s.renderer.depth_image_memory_) + rest o))))))
    → ((live : List Object)
        → ((o : Object) → count o live ≡ rest o)
        → P tt (record s {
          live = live;
          renderer = record s.renderer {
            swap_chain_framebuffers_ = [];
            swap_chain_image_views_ = [];
            swap_chain_ = 0;
            depth_image_view_ = 0;
            depth_image_ = 0;
            depth_image_memory_ = 0;
          };
        }))
    → Ensures Q P (cleanup_swap_chain s)
unfolding cleanup_swap_chain
cleanup_swap_chain-Ensures s rest all p =
    let r = s.renderer in
    all_then framebuffer r.swap_chain_framebuffers_ _ _ all λ _ e.
      all_then image_view r.swap_chain_image_views_ _ _ e λ _ e.
        held_then swap_chain r.swap_chain_ _ _ e λ _ e.
          held_then image_view r.depth_image_view_ _ _ e λ _ e.
            held_then image r.depth_image_ _ _ e
              λ _ e. held_then memory r.depth_image_memory_ _ _ e λ live e. returns (p live e)

module _ (driver : Driver) (device : PhysicalDevice) where
  pub allocate_memory-Ensures :
      {P : ℕ → State → Type 0} (resource properties : ℕ) (s : State)
      → s.renderer.physical_device_ ≡ some device
      → ((h : ℕ) (answers : List ℕ)
          → P (suc h) (record s { live = object memory (suc h) ∷ s.live; answers = answers }))
      → Ensures Unit P (allocate_memory driver resource properties s)
  unfolding allocate_memory
  allocate_memory-Ensures resource properties s picked p =
      or_fault_then _ _ _ device picked (or_throw_then _ _ _ λ i _. create-Ensures _ _ p)

  pub create_image-Ensures :
      {P : ℕ → State → Type 0} (size : Extent) (format : Format) (usage properties : ℕ)
      (put_image put_memory : ℕ → Renderer → Renderer) (s : State)
      → ((h : ℕ) → (put_image h s.renderer).physical_device_ ≡ some device)
      → ((h m : ℕ) (answers : List ℕ)
          → P (suc h) (record s {
            renderer = put_memory (suc m) (put_image (suc h) s.renderer);
            live = object memory (suc m) ∷ object image (suc h) ∷ s.live;
            answers = answers;
          }))
      → Ensures Unit P (create_image driver size format usage properties put_image put_memory s)
  unfolding create_image
  create_image-Ensures size format usage properties put_image put_memory s picked p =
      create_then _ _ _ λ h _. >>=-Ensures (allocate_memory driver (suc h) properties) _ _ (
        allocate_memory-Ensures (suc h) properties _ (picked (suc h))
          λ m answers. returns (p h m answers))

  pub create_buffer-Ensures :
      {P : ℕ × ℕ → State → Type 0} (size usage properties : ℕ)
      (put_buffer put_memory : ℕ → Renderer → Renderer) (s : State)
      → ((h : ℕ) → (put_buffer h s.renderer).physical_device_ ≡ some device)
      → ((h m : ℕ) (answers : List ℕ)
          → P
              (suc h, suc m)
              (record s {
                renderer = put_memory (suc m) (put_buffer (suc h) s.renderer);
                live = object memory (suc m) ∷ object buffer (suc h) ∷ s.live;
                answers = answers;
              }))
      → Ensures Unit P (create_buffer driver size usage properties put_buffer put_memory s)
  unfolding create_buffer
  create_buffer-Ensures size usage properties put_buffer put_memory s picked p =
      create_then _ _ _ λ h _. >>=-Ensures (allocate_memory driver (suc h) properties) _ _ (
        allocate_memory-Ensures (suc h) properties _ (picked (suc h))
          λ m answers. returns (p h m answers))

  pub create_swap_chain-Ensures :
      {P : Unit → State → Type 0} (s : State)
      → s.renderer.physical_device_ ≡ some device
      → is_some (choose_swap_surface_format device.formats) ≡ true
      → ((h : ℕ) (format : Format) (extent : Extent) (answers : List ℕ)
          → P tt (record s {
            renderer = record s.renderer {
              swap_chain_ = suc h;
              swap_chain_images_ = driver.swap_images (suc h);
              swap_chain_image_format_ = format;
              swap_chain_extent_ = extent;
            };
            live = object swap_chain (suc h) ∷ s.live;
            answers = answers;
          }))
      → Ensures Unit P (create_swap_chain driver s)
  unfolding create_swap_chain
  create_swap_chain-Ensures s picked offered p =
      elim (Option-cases (choose_swap_surface_format device.formats)) [
        | inl absent ↦
            let never : is_some {A = SurfaceFormat} none ≡ true = rw absent at offered in cc
        | inr (f, chosen) ↦ or_fault_then _ _ _ device picked (
            or_fault_then _ _ _ f chosen (
              or_throw_then (sharing_families (find_queue_families device)) _ _
                λ families _. create_then _ _ _ λ h answers. returns (p h f.format _ answers)))
      ]

pub create_image_views-Ensures :
    {P : Unit → State → Type 0} (s : State)
    → ((hs : List ℕ) (live : List Object) (answers : List ℕ)
        → length hs ≡ length s.renderer.swap_chain_images_
        → ((o : Object) → count o live ≡ count o (all_held image_view hs) + count o s.live)
        → P tt (record s {
          renderer = record s.renderer { swap_chain_image_views_ = hs };
          live = live;
          answers = answers;
        }))
    → Ensures Unit P (create_image_views s)
unfolding create_image_views
create_image_views-Ensures s p =
    fill_new-Ensures image_view put_image_views (λ _ _ _. refl) _ _ _ _ (λ _. refl) p

pub create_framebuffers-Ensures :
    {P : Unit → State → Type 0} (s : State)
    → ((hs : List ℕ) (live : List Object) (answers : List ℕ)
        → length hs ≡ length s.renderer.swap_chain_image_views_
        → ((o : Object) → count o live ≡ count o (all_held framebuffer hs) + count o s.live)
        → P tt (record s {
          renderer = record s.renderer { swap_chain_framebuffers_ = hs };
          live = live;
          answers = answers;
        }))
    → Ensures Unit P (create_framebuffers s)
unfolding create_framebuffers
create_framebuffers-Ensures s p =
    fill_new-Ensures framebuffer put_framebuffers (λ _ _ _. refl) _ _ _ _ (λ _. refl) p

pub create_depth_resources-Ensures :
    {P : Unit → State → Type 0} (driver : Driver) (device : PhysicalDevice) (s : State)
    → s.renderer.physical_device_ ≡ some device
    → ((i m v : ℕ) (answers : List ℕ)
        → P tt (record s {
          renderer = record s.renderer {
            depth_image_ = suc i;
            depth_image_memory_ = suc m;
            depth_image_view_ = suc v;
          };
          live = object image_view (suc v) ∷ object memory (suc m) ∷ object image (suc i) ∷ s.live;
          answers = answers;
        }))
    → Ensures Unit P (create_depth_resources driver s)
unfolding create_depth_resources create_image_view
create_depth_resources-Ensures driver device s picked p =
    >>=-Ensures
      (create_image driver s.renderer.swap_chain_extent_ s.renderer.depth_format_ 0x20 device_local
        _ _)
      _ _
      (create_image-Ensures driver device _ _ _ _ _ _ _ (λ _. picked)
        λ i m _. create_then _ _ _ λ v answers. returns (p i m v answers))

pub wait_for_area-Ensures :
    {P : Unit → State → Type 0} (last current : Extent) (events : List Extent) (s : State)
    → ((framebuffer : Extent) (events : List Extent)
        → P tt (record s { framebuffer = framebuffer; events = events }))
    → Ensures Unit P (wait_for_area last current events s)
unfolding wait_for_area
wait_for_area-Ensures {P} last current [] s p =
    elim (has_no_area last) as (λ b. Ensures Unit P (if b then waits else done tt s)) [
      | true ↦ blocks tt
      | false ↦ returns (p s.framebuffer s.events)
    ]
wait_for_area-Ensures {P} last current (e ∷ es) s p =
    let t : State = record s { framebuffer = e; events = es } in
    elim (has_no_area last)
      as (λ b. Ensures Unit P (if b then wait_for_area current e es t else done tt s)) [
        | true ↦ wait_for_area-Ensures current e es t p
        | false ↦ returns (p s.framebuffer s.events)
      ]

-- After a resize every object alive is owned again, and the old swap chain, its views and
-- framebuffers, the depth image and the semaphores of its images are gone.
pub recreate_swapchain-IsBalanced :
    (driver : Driver) (s : State)
    → IsBalanced s
    → Ensures Unit
        (λ _ t. IsBalanced t × (t.renderer.current_frame_ ≡ s.renderer.current_frame_))
        (recreate_swapchain driver s)
unfolding recreate_swapchain wait_while_minimized count held
recreate_swapchain-IsBalanced driver s b =
    let r = s.renderer in
    let rest : Object → ℕ = λ o.
      count o (all_held semaphore r.render_finished_semaphores_)
      + (count o (all_held semaphore r.image_available_semaphores_)
          + (count o (all_held fence r.in_flight_fences_)
              + (count o (held command_pool r.command_pool_)
                  + (count o (held pipeline r.graphics_pipeline_)
                      + (count o (held pipeline_layout r.pipeline_layout_)
                          + (count o (held render_pass r.render_pass_) + fixed_own r o)))))) in
    >>=-Ensures (wait_for_area s.framebuffer s.framebuffer s.events) _ s (
      wait_for_area-Ensures s.framebuffer s.framebuffer s.events s λ _ _.
        >>=-Ensures cleanup_swap_chain _ _ (
          cleanup_swap_chain-Ensures _ rest (λ o. omega (arith, b.balanced o))
            λ l0 e0. >>=-Ensures (create_swap_chain driver) _ _ (
              create_swap_chain-Ensures driver b.device _ b.picked b.offers_format
                λ h format extent _. >>=-Ensures create_image_views _ _ (
                  create_image_views-Ensures _ λ views l1 _ n1 e1.
                    >>=-Ensures (create_depth_resources driver) _ _ (
                      create_depth_resources-Ensures driver b.device _ b.picked λ i m v _.
                        >>=-Ensures create_framebuffers _ _ (
                          create_framebuffers-Ensures _ λ fbs l2 _ n2 e2.
                            all_then
                              {rest = λ o.
                                count o l2
                                - count o (all_held semaphore r.render_finished_semaphores_)}
                              semaphore r.render_finished_semaphores_ _ _
                              (λ o. omega (arith, e0 o, e1 o, e2 o))
                              λ l3 e3.
                                fill_new-Ensures semaphore put_render_finished (λ _ _ _. refl) _ _ _
                                  _ (λ _. refl)
                                  λ hs l4 _ n4 e4. (
                                    record {
                                      balanced = λ o. omega (arith, e0 o, e1 o, e2 o, e3 o, e4 o);
                                      device = b.device;
                                      picked = b.picked;
                                      offers_format = b.offers_format;
                                      has_memories = b.has_memories;
                                      has_mappings = b.has_mappings;
                                      framebuffer_each = n2 ∙ n1;
                                      semaphore_each = n4;
                                      slots = b.slots;
                                      has_device = b.has_device;
                                      has_instance = b.has_instance;
                                    },
                                    refl,
                                  )))))))
