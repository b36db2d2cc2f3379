-- ===== src/Render/Ownership/Start.antt =====
-- client/src/VulkanRenderer.cpp: `init`: what is alive when it returns is what the members own.
use game_x.Base.{ℕ, suc, ◌≡◌, List, [], ◌∷◌, ◌++◌, some, arith}
use game_x.Render.Gpu.{
  Object, count, image, memory, buffer, mapping, shader_module, pipeline, pipeline_layout,
}
use game_x.Render.Device.{PhysicalDevice}
use game_x.Render.Info.{layout_undefined, transfer_dst, shader_read_only}
use game_x.Render.State.{State, Driver, destroy, map_memory}
use game_x.Render.State.Rules.{
  Ensures, returns, >>=-Ensures, object, create_then, or_throw_then, destroy-Ensures,
  map_memory-Ensures, or_throw-Ensures,
}
use game_x.Render.Swapchain.{create_buffer, create_image}
use game_x.Render.Setup.{
  create_vertex_buffer, create_index_buffer, create_camera_buffer, create_texture_image,
  transition_image_layout, read_file, barrier_for, words, create_graphics_pipeline,
}
use game_x.Render.Ownership.Recreate.{create_buffer-Ensures, create_image-Ensures}

module _ (driver : Driver) (device : PhysicalDevice) where
  pub create_vertex_buffer-Ensures :
      {P : Unit → State → Type 0} (s : State)
      → s.renderer.physical_device_ ≡ some device
      → ((b m : ℕ) (live : List Object) (answers : List ℕ)
          → ((o : Object)
              → count o live ≡ count o (object memory (suc m) ∷ object buffer (suc b) ∷ s.live))
          → P tt (record s {
            renderer = record s.renderer { vertex_buffer_ = suc b; vertex_buffer_memory_ = suc m };
            live = live;
            answers = answers;
          }))
      → Ensures Unit P (create_vertex_buffer driver s)
  unfolding create_vertex_buffer count
  create_vertex_buffer-Ensures s picked p = >>=-Ensures (create_buffer driver _ _ _ _ _) _ _ (
      create_buffer-Ensures driver device _ _ _ _ _ _ (λ _. picked)
        λ b m answers. >>=-Ensures (map_memory (suc m)) _ _ (
          map_memory-Ensures (suc m) _ (
            destroy-Ensures mapping (suc m) _ _ (λ o. omega arith) λ live e. p b m live answers e)))

  pub create_index_buffer-Ensures :
      {P : Unit → State → Type 0} (s : State)
      → s.renderer.physical_device_ ≡ some device
      → ((b m : ℕ) (live : List Object) (answers : List ℕ)
          → ((o : Object)
              → count o live ≡ count o (object memory (suc m) ∷ object buffer (suc b) ∷ s.live))
          → P tt (record s {
            renderer = record s.renderer { index_buffer_ = suc b; index_buffer_memory_ = suc m };
            live = live;
            answers = answers;
          }))
      → Ensures Unit P (create_index_buffer driver s)
  unfolding create_index_buffer count
  create_index_buffer-Ensures s picked p = >>=-Ensures (create_buffer driver _ _ _ _ _) _ _ (
      create_buffer-Ensures driver device _ _ _ _ _ _ (λ _. picked)
        λ b m answers. >>=-Ensures (map_memory (suc m)) _ _ (
          map_memory-Ensures (suc m) _ (
            destroy-Ensures mapping (suc m) _ _ (λ o. omega arith) λ live e. p b m live answers e)))

  -- The staging buffer is destroyed again.
  pub create_texture_image-Ensures :
      {P : Unit → State → Type 0} (s : State)
      → s.renderer.physical_device_ ≡ some device
      → ((i m : ℕ) (live : List Object) (answers : List ℕ)
          → ((o : Object)
              → count o live ≡ count o (object memory (suc m) ∷ object image (suc i) ∷ s.live))
          → P tt (record s {
            renderer = record s.renderer { texture_image_ = suc i; texture_image_memory_ = suc m };
            live = live;
            answers = answers;
          }))
      → Ensures Unit P (create_texture_image driver s)
  unfolding create_texture_image transition_image_layout count
  create_texture_image-Ensures s picked p = >>=-Ensures (create_buffer driver _ _ _ _ _) _ _ (
      create_buffer-Ensures driver device _ _ _ _ _ _ (λ _. picked)
        λ b m _. >>=-Ensures (map_memory (suc m)) _ _ (
          map_memory-Ensures (suc m) _ (
            >>=-Ensures (destroy mapping (suc m)) _ _ (
              destroy-Ensures mapping (suc m) _
                (λ o. count o (object memory (suc m) ∷ object buffer (suc b) ∷ s.live))
                (λ o. omega arith)
                λ l1 e1. >>=-Ensures (create_image driver _ _ _ _ _ _) _ _ (
                  create_image-Ensures driver device _ _ _ _ _ _ _ (λ _. picked)
                    λ i im answers.
                      >>=-Ensures (transition_image_layout layout_undefined transfer_dst) _ _ (
                        or_throw-Ensures (barrier_for layout_undefined transfer_dst) _ λ _ _.
                          >>=-Ensures (transition_image_layout transfer_dst shader_read_only) _ _ (
                            or_throw-Ensures (barrier_for transfer_dst shader_read_only) _ λ _ _.
                              >>=-Ensures (destroy buffer (suc b)) _ _ (
                                destroy-Ensures buffer (suc b) _
                                  (λ o. count o (
                                    object memory (suc m)
                                    ∷ object memory (suc im)
                                    ∷ object image (suc i)
                                    ∷ s.live))
                                  (λ o. omega (arith, e1 o))
                                  λ l2 e2.
                                    destroy-Ensures memory (suc m) _
                                      (λ o.
                                        count o
                                          (object memory (suc im) ∷ object image (suc i) ∷ s.live))
                                      (λ o. omega (arith, e2 o))
                                      λ live e. p i im live answers e))))))))

  pub create_camera_buffer-Ensures :
      {P : Unit → State → Type 0} (s : State)
      → s.renderer.physical_device_ ≡ some device
      → ((b m : ℕ) (answers : List ℕ)
          → P tt (record s {
            renderer = record s.renderer {
              camera_ubo_buffers_ = s.renderer.camera_ubo_buffers_ ++ suc b ∷ [];
              camera_ubo_buffers_memory_ = s.renderer.camera_ubo_buffers_memory_ ++ suc m ∷ [];
              camera_ubo_mapped_ = s.renderer.camera_ubo_mapped_ ++ suc (suc m) ∷ [];
            };
            live = object mapping (suc m) ∷ object memory (suc m) ∷ object buffer (suc b) ∷ s.live;
            answers = answers;
          }))
      → Ensures Unit P (create_camera_buffer driver s)
  unfolding create_camera_buffer
  create_camera_buffer-Ensures s picked p = >>=-Ensures (create_buffer driver _ _ _ _ _) _ _ (
      create_buffer-Ensures driver device _ _ _ _ _ _ (λ _. picked)
        λ b m answers.
          >>=-Ensures (map_memory (suc m)) _ _
            (map_memory-Ensures (suc m) _ (returns (p b m answers))))

  -- The shader modules are destroyed again.
  pub create_graphics_pipeline-Ensures :
      {P : Unit → State → Type 0} (s : State)
      → ((l g : ℕ) (live : List Object) (answers : List ℕ)
          → ((o : Object)
              → count o live
                ≡ count o (object pipeline (suc g) ∷ object pipeline_layout (suc l) ∷ s.live))
          → P tt (record s {
            renderer = record s.renderer { pipeline_layout_ = suc l; graphics_pipeline_ = suc g };
            live = live;
            answers = answers;
          }))
      → Ensures Unit P (create_graphics_pipeline driver s)
  unfolding create_graphics_pipeline read_file count
  create_graphics_pipeline-Ensures s p = >>=-Ensures (read_file driver "vert.spv") _ _ (
      or_throw_then (driver.shader_file "vert.spv") _ _ λ bytes _.
        or_throw-Ensures (words bytes) _ λ _ _. >>=-Ensures (read_file driver "frag.spv") _ _ (
          or_throw_then (driver.shader_file "frag.spv") _ _ λ bytes' _.
            or_throw-Ensures (words bytes') _ λ _ _. create_then _ _ _ λ v _.
              create_then _ _ _ λ f _. create_then _ _ _ λ l _. create_then _ _ _ λ g answers.
                >>=-Ensures (destroy shader_module (suc f)) _ _ (
                  destroy-Ensures shader_module (suc f) _
                    (λ o. count o (
                      object pipeline (suc g)
                      ∷ object pipeline_layout (suc l)
                      ∷ object shader_module (suc v)
                      ∷ s.live))
                    (λ o. omega arith)
                    λ l1 e1.
                      destroy-Ensures shader_module (suc v) _
                        (λ o.
                          count o
                            (object pipeline (suc g) ∷ object pipeline_layout (suc l) ∷ s.live))
                        (λ o. omega (arith, e1 o)) λ live e. p l g live answers e)))
