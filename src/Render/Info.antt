-- ===== src/Render/Info.antt =====
-- client/src/VulkanRenderer.cpp: the `Vk…CreateInfo` structures that the renderer fills, with the
-- settings that it makes. A flag is the number that the Vulkan headers give it.
use game_x.Base.{ℕ, ◌+◌, Bool, true, false, List, [], ◌∷◌}
use Prim.Native.String.{String}
use game_x.Render.Device.{Extent, Format, SurfaceFormat, PresentMode, Tiling}

pub data ImageLayout : Type 0 where
  layout_undefined transfer_dst shader_read_only color_attachment depth_stencil_attachment
        present_src :
      ImageLayout

pub data LoadOp : Type 0 where
  load_clear load_dont_care : LoadOp

pub data StoreOp : Type 0 where
  store_store store_dont_care : StoreOp

pub record AttachmentDescription : Type 0 where
  pub format : Format
  pub load_op : LoadOp
  pub store_op : StoreOp
  pub stencil_load_op : LoadOp
  pub stencil_store_op : StoreOp
  pub initial_layout : ImageLayout
  pub final_layout : ImageLayout

pub record AttachmentReference : Type 0 where
  pub attachment : ℕ
  pub layout : ImageLayout

-- One subpass, and the dependency of its stages on what came before the pass.
pub record RenderPassInfo : Type 0 where
  pub attachments : List AttachmentDescription
  pub color_attachment_ref : AttachmentReference
  pub depth_attachment_ref : AttachmentReference
  pub stage_mask : ℕ
  pub src_access_mask : ℕ
  pub dst_access_mask : ℕ

pub data DescriptorType : Type 0 where
  combined_image_sampler uniform_buffer : DescriptorType

pub record LayoutBinding : Type 0 where
  pub binding : ℕ
  pub descriptor_type : DescriptorType
  pub descriptor_count : ℕ
  pub stage_flags : ℕ

pub record VertexAttribute : Type 0 where
  pub location : ℕ
  pub attribute_offset : ℕ

pub record PushConstantRange : Type 0 where
  pub range_stage_flags : ℕ
  pub range_offset : ℕ
  pub range_size : ℕ

pub record PipelineLayoutInfo : Type 0 where
  pub set_layouts : List ℕ
  pub push_constant_ranges : List PushConstantRange

pub data CullMode : Type 0 where
  cull_none cull_back : CullMode

pub record PipelineInfo : Type 0 where
  pub vertex_module : ℕ
  pub fragment_module : ℕ
  pub stride : ℕ
  pub attributes : List VertexAttribute
  pub viewport_count : ℕ
  pub scissor_count : ℕ
  pub cull_mode : CullMode
  pub blend_enable : Bool
  pub color_write_mask : ℕ
  pub dynamic_viewport : Bool
  pub dynamic_scissor : Bool
  pub depth_test_enable : Bool
  pub depth_write_enable : Bool
  pub stencil_test_enable : Bool
  pub layout : ℕ
  pub render_pass : ℕ
  pub subpass : ℕ

-- `families` is empty for `VK_SHARING_MODE_EXCLUSIVE`.
pub record SwapChainInfo : Type 0 where
  pub min_image_count : ℕ
  pub image_format : SurfaceFormat
  pub image_extent : Extent
  pub families : List ℕ
  pub present_mode : PresentMode

pub record ImageInfo : Type 0 where
  pub extent : Extent
  pub image_format : Format
  pub tiling : Tiling
  pub usage : ℕ

pub data Filter : Type 0 where
  nearest linear_filter : Filter

pub data AddressMode : Type 0 where
  repeat_mode clamp_to_edge : AddressMode

pub record SamplerInfo : Type 0 where
  pub mag_filter : Filter
  pub min_filter : Filter
  pub address_mode_u : AddressMode
  pub address_mode_v : AddressMode
  pub address_mode_w : AddressMode
  pub anisotropy_enable : Bool
  pub unnormalized_coordinates : Bool
  pub compare_enable : Bool

-- One structure for each object type of `Kind`; `mapping` has none, since `vkMapMemory` takes none.
pub data Info : Type 0 where
  instance_info : List String → Info
  surface_info : Info
  device_info : List ℕ → Info
  swap_chain_info : SwapChainInfo → Info
  image_view_info : ℕ → Format → ℕ → Info
  render_pass_info : RenderPassInfo → Info
  shader_module_info : List ℕ → Info
  pipeline_layout_info : PipelineLayoutInfo → Info
  pipeline_info : PipelineInfo → Info
  framebuffer_info : ℕ → List ℕ → Extent → Info
  command_pool_info : ℕ → Info
  semaphore_info : Info
  fence_info : Bool → Info
  buffer_info : ℕ → ℕ → Info
  memory_info : ℕ → Info
  image_info : ImageInfo → Info
  sampler_info : SamplerInfo → Info
  set_layout_info : List LayoutBinding → Info
  descriptor_pool_info : List ℕ → ℕ → Info

abbrev pub color_aspect : ℕ
color_aspect = 0x1

abbrev pub depth_aspect : ℕ
depth_aspect = 0x2

abbrev pub host_visible_coherent : ℕ
host_visible_coherent = 0x6

abbrev pub device_local : ℕ
device_local = 0x1

abbrev pub vertex_stage : ℕ
vertex_stage = 0x1

abbrev pub fragment_stage : ℕ
fragment_stage = 0x10

-- `kQuadVertices` has four vertices of four floats, `kQuadIndices` six indices of two bytes.
abbrev pub sizeof_vertex : ℕ
sizeof_vertex = 16

abbrev pub quad_vertices : ℕ
quad_vertices = 4

abbrev pub quad_indices : List ℕ
quad_indices = 0 ∷ 1 ∷ 2 ∷ 2 ∷ 3 ∷ 0 ∷ []

-- Two `mat4`.
abbrev pub sizeof_camera_ubo : ℕ
sizeof_camera_ubo = 128

abbrev pub max_frames_in_flight : ℕ
max_frames_in_flight = 2

-- The settings of `createRenderPass`, for the swap chain's format and the depth format.
unfoldable pub render_pass : Format → Format → RenderPassInfo
render_pass color depth = record {
  attachments =
      (record {
        format = color;
        load_op = load_clear;
        store_op = store_store;
        stencil_load_op = load_dont_care;
        stencil_store_op = store_dont_care;
        initial_layout = layout_undefined;
        final_layout = present_src;
      })
      ∷ (record {
        format = depth;
        load_op = load_clear;
        store_op = store_dont_care;
        stencil_load_op = load_dont_care;
        stencil_store_op = store_dont_care;
        initial_layout = layout_undefined;
        final_layout = depth_stencil_attachment;
      })
      ∷ [];
  color_attachment_ref = record { attachment = 0; layout = color_attachment };
  depth_attachment_ref = record { attachment = 1; layout = depth_stencil_attachment };
  stage_mask = 0x500;
  src_access_mask = 0;
  dst_access_mask = 0x500;
}

unfoldable pub set_layout_bindings : List LayoutBinding
set_layout_bindings =
    (record {
      binding = 0;
      descriptor_type = combined_image_sampler;
      descriptor_count = 1;
      stage_flags = fragment_stage;
    })
    ∷ (record {
      binding = 1;
      descriptor_type = uniform_buffer;
      descriptor_count = 1;
      stage_flags = vertex_stage;
    })
    ∷ []

unfoldable pub pipeline_layout : ℕ → PipelineLayoutInfo
pipeline_layout set_layout = record {
  set_layouts = set_layout ∷ [];
  push_constant_ranges =
      (record {
        range_stage_flags = vertex_stage + fragment_stage;
        range_offset = 0;
        range_size = 16;
      })
      ∷ [];
}

unfoldable pub pipeline : ℕ → ℕ → ℕ → ℕ → PipelineInfo
pipeline vertex fragment layout pass = record {
  vertex_module = vertex;
  fragment_module = fragment;
  stride = sizeof_vertex;
  attributes =
      (record { location = 0; attribute_offset = 0 })
      ∷ (record { location = 1; attribute_offset = 8 })
      ∷ [];
  viewport_count = 1;
  scissor_count = 1;
  cull_mode = cull_none;
  blend_enable = false;
  color_write_mask = 0xf;
  dynamic_viewport = true;
  dynamic_scissor = true;
  depth_test_enable = true;
  depth_write_enable = true;
  stencil_test_enable = false;
  layout = layout;
  render_pass = pass;
  subpass = 0;
}

unfoldable pub texture_sampler : SamplerInfo
texture_sampler = record {
  mag_filter = nearest;
  min_filter = nearest;
  address_mode_u = clamp_to_edge;
  address_mode_v = clamp_to_edge;
  address_mode_w = clamp_to_edge;
  anisotropy_enable = false;
  unnormalized_coordinates = false;
  compare_enable = false;
}
