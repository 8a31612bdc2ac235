-- ===== src/Examples.antt =====
-- Runs of the model on concrete inputs, one module for each part of the program.
pub mod Managers
pub mod Requests
pub mod Processes
pub mod Texts
pub mod Services
pub mod Libraries
pub mod Proxies
pub mod Stacks
pub mod Streams
pub mod Images
