-- ===== src/Render.antt =====
-- client/src/VulkanRenderer.cpp and client/include/VulkanRenderer.hpp: the renderer of the client.
pub mod Info
pub mod State
pub mod Swapchain
pub mod Texture
pub mod Setup
pub mod Cleanup
pub mod Frame
pub mod Input
pub mod Window
pub mod Examples
pub mod Ownership
pub mod Gpu
pub mod Device
