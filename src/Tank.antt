-- ===== src/Tank.antt =====
-- The Tank backend: include/nav_bridge/tank and src/tank.
pub mod State
pub mod Process
pub mod Http
pub mod Actions
pub mod Workers
pub mod System
pub mod Tests
