-- ===== src/Pages.antt =====
-- ferr/src/app: the state and the handlers of the pages. What they draw is not modelled.
pub mod Metrics
pub mod Ages
pub mod Sections
pub mod Site
pub mod Registry
pub mod Dashboard
pub mod Settings
pub mod Stream
pub mod Landing
pub mod Report
pub mod Investigations
pub mod Nav
pub mod Control
pub mod Profile
