-- ===== src/Render/Device.antt =====
-- client/src/VulkanRenderer.cpp: what the renderer asks a physical device, and what it chooses: the
-- device, its queue families, a memory type, a depth format, and the swap chain's format, present
-- mode, extent and image count. What a device answers is data: `PhysicalDevice`.
pub mod Families
pub mod Choice
use game_x.Base.{
  ℕ, zero, suc, ◌+◌, ◌%◌, ◌^◌, Bool, true, false, not, ◌&&◌, ◌||◌, ◌==◌, List, [], ◌∷◌, Option,
  none, some, ◌>>=◌, is_some, ltb, if◌then◌else◌, bit_and, ◌-◌,
}
use Prim.Native.String.{String}
use text.Mathlib.Text.{◌==◌ as str_eq}

pub record Extent : Type 0 where
  pub width : ℕ
  pub height : ℕ

-- The formats that the code names; `format_code` stands for any other.
pub data Format : Type 0 where
  undefined r8g8b8a8_srgb b8g8r8a8_srgb d32_sfloat d32_sfloat_s8_uint d24_unorm_s8_uint : Format
  format_code : ℕ → Format

pub data ColorSpace : Type 0 where
  srgb_nonlinear : ColorSpace
  space_code : ℕ → ColorSpace

pub record SurfaceFormat : Type 0 where
  pub format : Format
  pub color_space : ColorSpace

pub data PresentMode : Type 0 where
  immediate mailbox fifo fifo_relaxed : PresentMode

pub data Tiling : Type 0 where
  optimal linear : Tiling

-- `maxImageCount` is 0 where there is no limit.
pub record SurfaceCapabilities : Type 0 where
  pub min_image_count : ℕ
  pub max_image_count : ℕ
  pub current_extent : Extent
  pub min_image_extent : Extent
  pub max_image_extent : Extent

-- A queue family, with `vkGetPhysicalDeviceSurfaceSupportKHR`'s answer for it.
pub record QueueFamily : Type 0 where
  pub queue_flags : ℕ
  pub present_support : Bool

pub record FormatProperties : Type 0 where
  pub linear_tiling_features : ℕ
  pub optimal_tiling_features : ℕ

-- What the driver answers about one physical device and the window's surface. An extension is
-- known by its name.
pub record PhysicalDevice : Type 0 where
  pub queue_families : List QueueFamily
  pub extensions : List String
  pub capabilities : SurfaceCapabilities
  pub formats : List SurfaceFormat
  pub present_modes : List PresentMode
  pub memory_types : List ℕ
  pub format_properties : Format → FormatProperties

pub record QueueFamilyIndices : Type 0 where
  pub graphics_family : Option ℕ
  pub present_family : Option ℕ

module _ {ℓ} {A : Type ℓ} where
  abbrev pub is_empty : List A → Bool
  is_empty [] = true
  is_empty (x ∷ xs) = false

  abbrev pub first : List A → Option A
  first [] = none
  first (x ∷ xs) = some x

abbrev pub is_bgra : Format → Bool
is_bgra b8g8r8a8_srgb = true
is_bgra _ = false

abbrev pub is_srgb : ColorSpace → Bool
is_srgb srgb_nonlinear = true
is_srgb (space_code _) = false

abbrev pub is_mode : PresentMode → PresentMode → Bool
is_mode PresentMode.immediate PresentMode.immediate = true
is_mode mailbox mailbox = true
is_mode fifo fifo = true
is_mode fifo_relaxed fifo_relaxed = true
is_mode _ _ = false

unfoldable pub is_complete : QueueFamilyIndices → Bool
is_complete q = is_some q.graphics_family && is_some q.present_family

abbrev pub queue_graphics_bit : ℕ
queue_graphics_bit = 0x1

-- The body of the loop up to the `break`: what family `i` adds to the indices.
unfoldable pub note_family : QueueFamily → ℕ → QueueFamilyIndices → QueueFamilyIndices
note_family f i q = record {
  graphics_family =
      if bit_and f.queue_flags queue_graphics_bit == 0 then q.graphics_family else some i;
  present_family = if f.present_support then some i else q.present_family;
}

unfoldable pub scan_families : List QueueFamily → ℕ → QueueFamilyIndices → QueueFamilyIndices
unfolding note_family is_complete
scan_families [] i q = q
scan_families (f ∷ fs) i q =
    let rest = scan_families fs (i + 1) (note_family f i q) in
    if is_complete (note_family f i q) then note_family f i q else rest

unfoldable pub find_queue_families : PhysicalDevice → QueueFamilyIndices
unfolding scan_families
find_queue_families d =
    scan_families d.queue_families 0 (record { graphics_family = none; present_family = none })

-- `requiredExtensions`, and the loop that erases from it each name that the device offers.
abbrev pub device_extensions : List String
device_extensions = "VK_KHR_swapchain" ∷ []

unfoldable pub erase_extension : String → List String → List String
erase_extension e [] = []
erase_extension e (r ∷ rs) = if str_eq r e then erase_extension e rs else r ∷ erase_extension e rs

unfoldable pub missing_extensions : List String → List String → List String
unfolding erase_extension
missing_extensions [] required = required
missing_extensions (e ∷ es) required = missing_extensions es (erase_extension e required)

unfoldable pub check_device_extension_support : PhysicalDevice → Bool
unfolding missing_extensions
check_device_extension_support d = is_empty (missing_extensions d.extensions device_extensions)

-- `querySwapChainSupport` reads the capabilities, the formats and the present modes, which are
-- fields of the device here.
unfoldable pub is_device_suitable : PhysicalDevice → Bool
unfolding find_queue_families is_complete check_device_extension_support
is_device_suitable d =
    is_complete (find_queue_families d)
    && check_device_extension_support d
    && not (is_empty d.formats)
    && not (is_empty d.present_modes)

-- The first suitable device; `none` is the exception, with no device and with no suitable one.
unfoldable pub pick_physical_device : List PhysicalDevice → Option PhysicalDevice
unfolding is_device_suitable
pick_physical_device [] = none
pick_physical_device (d ∷ ds) = if is_device_suitable d then some d else pick_physical_device ds

-- `propertyFlags` of the types from index `i` on. `1 << i` is a power of two: there are 32 types at
-- most.
unfoldable pub is_memory_type : ℕ → ℕ → ℕ → ℕ → Bool
is_memory_type type_filter properties i flags =
    not (bit_and type_filter (2 ^ i) == 0) && bit_and flags properties == properties

unfoldable pub scan_memory_types : ℕ → ℕ → List ℕ → ℕ → Option ℕ
unfolding is_memory_type
scan_memory_types type_filter properties [] i = none
scan_memory_types type_filter properties (flags ∷ rest) i =
    if is_memory_type type_filter properties i flags
    then some i
    else scan_memory_types type_filter properties rest (i + 1)

unfoldable pub find_memory_type : PhysicalDevice → ℕ → ℕ → Option ℕ
unfolding scan_memory_types
find_memory_type d type_filter properties =
    scan_memory_types type_filter properties d.memory_types 0

unfoldable pub supports : FormatProperties → Tiling → ℕ → Bool
supports p linear features = bit_and p.linear_tiling_features features == features
supports p optimal features = bit_and p.optimal_tiling_features features == features

unfoldable pub find_supported_format : PhysicalDevice → List Format → Tiling → ℕ → Option Format
unfolding supports
find_supported_format d [] tiling features = none
find_supported_format d (f ∷ fs) tiling features =
    if supports (d.format_properties f) tiling features
    then some f
    else find_supported_format d fs tiling features

abbrev pub depth_stencil_attachment_bit : ℕ
depth_stencil_attachment_bit = 0x200

unfoldable pub find_depth_format : PhysicalDevice → Option Format
unfolding find_supported_format
find_depth_format d =
    find_supported_format d (d32_sfloat ∷ d32_sfloat_s8_uint ∷ d24_unorm_s8_uint ∷ []) optimal
      depth_stencil_attachment_bit

unfoldable pub is_preferred : SurfaceFormat → Bool
is_preferred f = is_bgra f.format && is_srgb f.color_space

unfoldable pub preferred_format : List SurfaceFormat → Option SurfaceFormat
unfolding is_preferred
preferred_format [] = none
preferred_format (f ∷ fs) = if is_preferred f then some f else preferred_format fs

-- `none` is the read of `availableFormats[0]` in an empty vector.
unfoldable pub choose_swap_surface_format : List SurfaceFormat → Option SurfaceFormat
unfolding preferred_format
choose_swap_surface_format fs = elim (preferred_format fs) [ some f ↦ some f | none ↦ first fs ]

-- `PresentModeSetting`.
pub data PresentModeSetting : Type 0 where
  immediate vsync triple_buffer : PresentModeSetting

unfoldable pub offers : PresentMode → List PresentMode → Bool
offers m [] = false
offers m (n ∷ ns) = if is_mode m n then true else offers m ns

unfoldable pub choose_swap_present_mode : PresentModeSetting → List PresentMode → PresentMode
unfolding offers
choose_swap_present_mode triple_buffer modes = if offers mailbox modes then mailbox else fifo
choose_swap_present_mode PresentModeSetting.immediate modes =
    if offers PresentMode.immediate modes then PresentMode.immediate else fifo
choose_swap_present_mode vsync modes = fifo

-- `std::clamp`.
abbrev pub clamp : ℕ → ℕ → ℕ → ℕ
clamp v lo hi = if ltb v lo then lo else if ltb hi v then hi else v

unfoldable pub choose_swap_extent : SurfaceCapabilities → Extent → Extent
choose_swap_extent c framebuffer =
    if c.current_extent.width == 2 ^ 32 - 1
    then record {
      width = clamp framebuffer.width c.min_image_extent.width c.max_image_extent.width;
      height = clamp framebuffer.height c.min_image_extent.height c.max_image_extent.height;
    }
    else c.current_extent

-- The first lines of `createSwapChain`: one image more than the least count, within the limit.
unfoldable pub choose_image_count : SurfaceCapabilities → ℕ
choose_image_count c =
    let image_count = (c.min_image_count + 1) % 2 ^ 32 in
    if ltb 0 c.max_image_count && ltb c.max_image_count image_count
    then c.max_image_count
    else image_count
