-- ===== src/Threads.antt =====
-- The threads of a channel as the wiki holds them: shared/wiki/threads.py, and the daily pass over
-- them of agents/wa_agent/lifecycle.py.
pub mod Page
pub mod Slugs
pub mod Equal
pub mod Store
pub mod Create
pub mod Moves
pub mod Revise
pub mod Relocate
mod Samples
