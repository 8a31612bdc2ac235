-- ===== src/Manager/Registry.antt =====
-- What the handlers of pkg/process/process_manager.go answer, and what they leave in the map.
pub mod Creating
pub mod Keeping
pub mod Replacing
pub mod Removing
