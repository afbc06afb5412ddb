-- ===== src/Ingest/Messages.antt =====
-- The messages of the ingestion: agents/wa_agent/messages.py.
use the_watcher.Prelude.{ℕ, String, Option, List, [], ◌∷◌}
use the_watcher.Text.{Text}
use the_watcher.Gateway.Buffer.{InboundMessage}

pub record BufferedMessage : Type 0 where
  pub row_id : ℕ
  pub message_id : String
  pub channel : Text
  pub received_at : ℕ
  pub text : Text
  pub sender : Text
  pub replied_to_id : Option String
  pub sender_name : Option Text
  pub sent_at : ℕ
  pub src_ids : List String

-- `_buffered`, with the ids that `__post_init__` fills in.
abbrev pub buffered : InboundMessage → BufferedMessage
buffered m = record {
  row_id = m.row_id;
  message_id = m.message_id;
  channel = m.channel;
  received_at = m.received_at;
  text = m.text;
  sender = m.sender;
  replied_to_id = m.replied_to_id;
  sender_name = m.sender_name;
  sent_at = m.sent_at;
  src_ids = m.message_id ∷ [];
}

-- The values of shared/config.py that the ingestion reads; times are microseconds.
pub record Settings : Type 0 where
  pub batch_n : ℕ
  pub batch_t : ℕ
  pub batch_quiet : ℕ
  pub message_concat_window : ℕ
  pub thread_context_max_chars : ℕ
