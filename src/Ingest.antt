-- ===== src/Ingest.antt =====
-- The ingestion of a channel's messages (agents/wa_agent/ingestion.py): cutting a batch, joining
-- the messages of one sender, and the pipeline over the gateway's database.
pub mod Messages
pub mod Merge
pub mod Batch
pub mod Pipeline
pub mod Drain
mod Samples
