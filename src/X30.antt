-- ===== src/X30.antt =====
-- The X30 backend: include/nav_bridge/x30 and src/x30.
pub mod Protocol
pub mod Axis
pub mod Store
pub mod Platform
pub mod Control
pub mod Executor
pub mod Bridge
pub mod Gait
pub mod Height
pub mod Manual
pub mod Services
pub mod Charge
mod Tests
