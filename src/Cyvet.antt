-- ===== src/Cyvet.antt =====
-- The Cyvet backend: include/nav_bridge/cyvet and src/cyvet.
pub mod Odometry
pub mod Battery
pub mod Queue
