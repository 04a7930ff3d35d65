-- ===== src/Core.antt =====
-- ndn-svs/core.hpp and ndn-svs/core.cpp: the synchronisation core.
pub mod Merge
pub mod State
pub mod Send
pub mod Receive
pub mod Publish
pub mod Quiet
pub mod Progress
pub mod Parallel
pub mod Run
pub mod Reception
pub mod Suppression
pub mod Announcement
