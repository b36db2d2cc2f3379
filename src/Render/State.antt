-- ===== src/Render/State.antt =====
-- client/src/VulkanRenderer.cpp: the members of `VulkanRenderer`, the driver's side of them, and the
-- calls that the functions of the class are made of.
pub mod Rules
pub mod Fill
use game_x.Base.{
  ℕ, zero, suc, ◌+◌, ◌<◌, ◌≡◌, Bool, true, false, List, [], ◌∷◌, ◌++◌, ◌==◌, if◌then◌else◌, Option,
  none, some, concat_map, drop,
}
use Prim.Native.String.{String}
use game_x.Render.Gpu.{Kind, Object, remove}
use game_x.Render.Gpu.{
  vk_instance, surface, device, swap_chain, image_view, render_pass, shader_module, pipeline_layout,
  pipeline, framebuffer, command_pool, semaphore, fence, buffer, memory, image, sampler,
  descriptor_set_layout, descriptor_pool, mapping,
}
use game_x.Render.Device.{
  Extent, Format, undefined, PhysicalDevice, PresentModeSetting, triple_buffer,
}
use game_x.Render.Info.{
  Info, instance_info, surface_info, device_info, swap_chain_info, image_view_info,
  render_pass_info, shader_module_info, pipeline_layout_info, pipeline_info, framebuffer_info,
  command_pool_info, semaphore_info, fence_info, buffer_info, memory_info, image_info, sampler_info,
  set_layout_info, descriptor_pool_info,
}

-- A handle is a number, and 0 is `VK_NULL_HANDLE`. The command buffers and the descriptor sets are
-- freed with their pools, and are known by their count.
pub record Renderer : Type 0 where
  pub present_mode : PresentModeSetting
  pub instance_ : ℕ
  pub surface_ : ℕ
  pub physical_device_ : Option PhysicalDevice
  pub device_ : ℕ
  pub swap_chain_ : ℕ
  pub swap_chain_images_ : List ℕ
  pub swap_chain_image_format_ : Format
  pub swap_chain_extent_ : Extent
  pub swap_chain_image_views_ : List ℕ
  pub render_pass_ : ℕ
  pub pipeline_layout_ : ℕ
  pub graphics_pipeline_ : ℕ
  pub swap_chain_framebuffers_ : List ℕ
  pub command_pool_ : ℕ
  pub command_buffers_ : ℕ
  pub image_available_semaphores_ : List ℕ
  pub render_finished_semaphores_ : List ℕ
  pub in_flight_fences_ : List ℕ
  pub current_frame_ : ℕ
  pub framebuffer_resized_ : Bool
  pub vertex_buffer_ : ℕ
  pub vertex_buffer_memory_ : ℕ
  pub index_buffer_ : ℕ
  pub index_buffer_memory_ : ℕ
  pub texture_image_ : ℕ
  pub texture_image_memory_ : ℕ
  pub texture_image_view_ : ℕ
  pub texture_sampler_ : ℕ
  pub descriptor_set_layout_ : ℕ
  pub descriptor_pool_ : ℕ
  pub descriptor_sets_ : ℕ
  pub camera_ubo_buffers_ : List ℕ
  pub camera_ubo_buffers_memory_ : List ℕ
  pub camera_ubo_mapped_ : List ℕ
  pub depth_image_ : ℕ
  pub depth_image_memory_ : ℕ
  pub depth_image_view_ : ℕ
  pub depth_format_ : Format

-- `answers`: what the next calls that create something answer, 0 for a failure and the handle
-- otherwise; when they are used up every call fails. `framebuffer` is the size that
-- `glfwGetFramebufferSize` reports, and `events` holds the sizes after each event to come.
pub record State : Type 0 where
  pub renderer : Renderer
  pub live : List Object
  pub answers : List ℕ
  pub framebuffer : Extent
  pub events : List Extent

-- What a call does: it returns, it throws a `std::runtime_error`, it destroys an object that is not
-- alive, or it waits in `glfwWaitEvents` for an event that never comes.
pub data Outcome (A : Type 0) : Type 0 where
  done : A → State → Outcome A
  thrown : State → Outcome A
  fault : Outcome A
  waits : Outcome A

abbrev pub Action : Type 0 → Type 0
Action A = State → Outcome A

infixl 5 ◌>>=◌ ◌>>◌
unfoldable pub ◌>>=◌ : {A B : Type 0} → Action A → (A → Action B) → Action B
◌>>=◌ m f s = elim (m s) [ done a t ↦ f a t | thrown t ↦ thrown t | fault ↦ fault | waits ↦ waits ]

abbrev pub ◌>>◌ : {A B : Type 0} → Action A → Action B → Action B
m >> k = m >>= λ _. k

unfoldable pub pure : {A : Type 0} → A → Action A
pure a s = done a s

unfoldable pub raise : {A : Type 0} → Action A
raise s = thrown s

-- `value()` of a `std::optional`, and a search that throws where it finds nothing.
unfoldable pub or_throw : {A : Type 0} → Option A → Action A
or_throw none s = thrown s
or_throw (some a) s = done a s

unfoldable pub read : {A : Type 0} → (Renderer → A) → Action A
read f s = done (f s.renderer) s

unfoldable pub assign : (Renderer → Renderer) → Action Unit
assign f s = done tt (record s { renderer = f s.renderer })

abbrev pub kind_of : Info → Kind
kind_of (instance_info _) = vk_instance
kind_of surface_info = surface
kind_of (device_info _) = device
kind_of (swap_chain_info _) = swap_chain
kind_of (image_view_info _ _ _) = image_view
kind_of (render_pass_info _) = render_pass
kind_of (shader_module_info _) = shader_module
kind_of (pipeline_layout_info _) = pipeline_layout
kind_of (pipeline_info _) = pipeline
kind_of (framebuffer_info _ _ _) = framebuffer
kind_of (command_pool_info _) = command_pool
kind_of semaphore_info = semaphore
kind_of (fence_info _) = fence
kind_of (buffer_info _ _) = buffer
kind_of (memory_info _) = memory
kind_of (image_info _) = image
kind_of (sampler_info _) = sampler
kind_of (set_layout_info _) = descriptor_set_layout
kind_of (descriptor_pool_info _ _) = descriptor_pool

abbrev pub created : Info → State → List ℕ → Outcome ℕ
created i s [] = thrown s
created i s (zero ∷ rest) = thrown (record s { answers = rest })
created i s (suc h ∷ rest) =
    done (suc h)
      (record s { live = (record { kind = kind_of i; handle = suc h }) ∷ s.live; answers = rest })

-- A `vkCreate…` or `vkAllocateMemory`, and the throw where it does not succeed.
unfoldable pub create : Info → Action ℕ
create i s = created i s s.answers

-- A `vkDestroy…` or `vkFreeMemory`.
unfoldable pub destroy : Kind → ℕ → Action Unit
destroy k h s = elim (remove (record { kind = k; handle = h }) s.live) [
  | some rest ↦ done tt (record s { live = rest })
  | none ↦ fault
]

-- A destruction under the guard `!= VK_NULL_HANDLE`.
unfoldable pub destroy_held : Kind → ℕ → Action Unit
unfolding destroy
destroy_held k zero s = done tt s
destroy_held k (suc h) s = destroy k (suc h) s

-- The same for each handle of a vector, in order.
unfoldable pub destroy_all : Kind → List ℕ → Action Unit
unfolding destroy_held ◌>>=◌
destroy_all k [] s = done tt s
destroy_all k (h ∷ hs) s = (destroy_held k h >> destroy_all k hs) s

-- A `vkAllocate…` of what is freed with its pool.
abbrev pub allocated : State → List ℕ → Outcome Unit
allocated s [] = thrown s
allocated s (zero ∷ rest) = thrown (record s { answers = rest })
allocated s (suc h ∷ rest) = done tt (record s { answers = rest })

unfoldable pub allocate : Action Unit
allocate s = allocated s s.answers

-- `vkMapMemory`, whose result the code does not test: the memory is mapped after it. An address is
-- not null.
unfoldable pub map_memory : ℕ → Action ℕ
map_memory m s = done (suc m) (record s { live = (record { kind = mapping; handle = m }) ∷ s.live })

unfoldable pub framebuffer_size : Action Extent
framebuffer_size s = done s.framebuffer s

-- What the code reads without a test: undefined where it is missing.
unfoldable pub or_fault : {A : Type 0} → Option A → Action A
or_fault none s = fault
or_fault (some a) s = done a s

-- `std::vector::resize` to one place for each element of `xs`; a new place is null.
unfoldable pub resize : {X : Type 0} → List X → List ℕ → List ℕ
resize [] handles = []
resize (x ∷ xs) [] = 0 ∷ resize xs []
resize (x ∷ xs) (h ∷ hs) = h ∷ resize xs hs

-- `create` for each structure in turn, into a vector that was resized before: `put` writes the
-- vector, with the handles made so far in front and what it held behind them.
unfoldable pub fill : (List ℕ → Renderer → Renderer) → List ℕ → List ℕ → List Info → Action Unit
unfolding create assign ◌>>=◌
fill put made behind [] s = done tt s
fill put made behind (i ∷ rest) s =
    (do
      h ← create i
      assign (put (made ++ h ∷ drop 1 behind))
      fill put (made ++ h ∷ []) (drop 1 behind) rest)
      s

unfoldable pub resize_and_fill : (List ℕ → Renderer → Renderer) → List ℕ → List Info → Action Unit
unfolding assign ◌>>=◌ resize
resize_and_fill put old infos =
    assign (put (resize infos old)) >> fill put [] (resize infos old) infos

unfoldable pub for_frames : Action Unit → Action Unit
unfolding ◌>>=◌
for_frames body = body >> body

-- What the driver and the file system answer, other than to the calls that create something:
-- `vkEnumeratePhysicalDevices`, `glfwGetRequiredInstanceExtensions`, the memory types that a
-- buffer or an image may lie in, the images of a swap chain, and the bytes of a shader file.
pub record Driver : Type 0 where
  pub devices : List PhysicalDevice
  pub extensions : List String
  pub memory_type_bits : ℕ → ℕ
  pub swap_images : ℕ → List ℕ
  pub shader_file : String → Option (List ℕ)

-- The members as the header initialises them, with the configuration of the client's `main`.
unfoldable pub new_renderer : Renderer
new_renderer = record {
  present_mode = triple_buffer;
  instance_ = 0;
  surface_ = 0;
  physical_device_ = none;
  device_ = 0;
  swap_chain_ = 0;
  swap_chain_images_ = [];
  swap_chain_image_format_ = undefined;
  swap_chain_extent_ = record { width = 0; height = 0 };
  swap_chain_image_views_ = [];
  render_pass_ = 0;
  pipeline_layout_ = 0;
  graphics_pipeline_ = 0;
  swap_chain_framebuffers_ = [];
  command_pool_ = 0;
  command_buffers_ = 0;
  image_available_semaphores_ = [];
  render_finished_semaphores_ = [];
  in_flight_fences_ = [];
  current_frame_ = 0;
  framebuffer_resized_ = false;
  vertex_buffer_ = 0;
  vertex_buffer_memory_ = 0;
  index_buffer_ = 0;
  index_buffer_memory_ = 0;
  texture_image_ = 0;
  texture_image_memory_ = 0;
  texture_image_view_ = 0;
  texture_sampler_ = 0;
  descriptor_set_layout_ = 0;
  descriptor_pool_ = 0;
  descriptor_sets_ = 0;
  camera_ubo_buffers_ = [];
  camera_ubo_buffers_memory_ = [];
  camera_ubo_mapped_ = [];
  depth_image_ = 0;
  depth_image_memory_ = 0;
  depth_image_view_ = 0;
  depth_format_ = undefined;
}

-- Before `init` nothing is alive.
unfoldable pub new_state : List ℕ → Extent → List Extent → State
unfolding new_renderer
new_state answers size events = record {
  renderer = new_renderer;
  live = [];
  answers = answers;
  framebuffer = size;
  events = events;
}
