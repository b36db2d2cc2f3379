-- ===== src/Render/Gpu.antt =====
-- client/src/VulkanRenderer.cpp: what the renderer holds of the driver. The objects that are alive,
-- and the calls that create and destroy them; what the driver answers is a parameter.
pub mod Count
use game_x.Base.{
  ℕ, zero, suc, ◌+◌, ◌≡◌, refl, Bool, true, false, ◌&&◌, ◌==◌, List, [], ◌∷◌, ◌++◌, Option, none,
  some, if◌then◌else◌, ite, ℕ_discrete,
}

-- The Vulkan object types that the renderer creates; `mapping` is memory while it is mapped.
pub data Kind : Type 0 where
  vk_instance surface device swap_chain image_view render_pass shader_module pipeline_layout
        pipeline framebuffer command_pool semaphore fence buffer memory image sampler
        descriptor_set_layout descriptor_pool mapping :
      Kind

pub record Object : Type 0 where
  pub kind : Kind
  pub handle : ℕ

unfoldable pub Object-discrete : Discrete Object
Object-discrete = hlevel ℕ_discrete

-- Taking one object out of those that are alive; `none` if it is not among them.
unfoldable pub remove : Object → List Object → Option (List Object)
remove o [] = none
remove o (x ∷ xs) =
    let rest = remove o xs in
    elim (Object-discrete o x) [
      | yes _ ↦ some xs
      | no _ ↦ elim rest [ none ↦ none | some ys ↦ some (x ∷ ys) ]
    ]

unfoldable pub count : Object → List Object → ℕ
count o [] = 0
count o (x ∷ xs) = ite (Object-discrete o x) 1 0 + count o xs
