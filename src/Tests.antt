-- ===== src/Tests.antt =====
-- Runs of the model on small stores: each theorem applied to a concrete input.
pub mod Data
mod Mock
mod Service
mod Messages
mod Hooks
mod Pages
mod Links
mod Polling
mod Screens
mod Intervals
mod Refinement
mod Site
mod Keyed
mod Live
mod Server
