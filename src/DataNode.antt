-- ===== src/DataNode.antt =====
-- src/dfsha/datanode/: blocks at rest, their pins, and patches.
pub mod Pins
pub mod Patch
pub mod Container
