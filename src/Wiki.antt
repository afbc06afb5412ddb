-- ===== src/Wiki.antt =====
-- The pages of the wiki: what may be written into them, and where (shared/wiki).
pub mod Neutralise
pub mod Schema
pub mod Page
pub mod Parser
pub mod Editor
mod Samples
