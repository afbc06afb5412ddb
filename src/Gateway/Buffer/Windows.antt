-- ===== src/Gateway/Buffer/Windows.antt =====
-- The readings of a channel's messages that take none: `get_messages`, `recent_messages` and
-- `get_context` of shared/gateway/buffer.py. The rows are in the order of their ids.
use mathlib.Core.List.{reverse}
use the_watcher.Prelude.{ℕ, String, Bool, true, ◌&&◌, Option, none, some, List, [], ◌∷◌, ◌++◌, map}
use the_watcher.Prelude.{
  if◌then◌else◌, ◌==◌, string_is_eq, list_is_eq, nat_is_eq, keep_if, find_first, take, ltb,
}
use the_watcher.Text.{Text}
use the_watcher.Gateway.Db.{Message, Db}
use the_watcher.Gateway.Buffer.{InboundMessage, to_inbound, is_ingested}

abbrev in_channel : Text → Message → Bool
in_channel channel row = row.channel == channel

row_of : String → Db → Option Message
row_of message_id db = find_first (λ (row : Message). row.message_id == message_id) db.messages

after_anchor : Option Message → Message → Bool
after_anchor none row = true
after_anchor (some anchor) row = ltb anchor.id row.id

-- The row that `since_id` names, when it is given and not empty.
anchor_of : Option String → Db → Option Message
anchor_of none db = none
anchor_of (some since_id) db = if since_id == "" then none else row_of since_id db

pub get_messages : Text → Option String → ℕ → Db → List InboundMessage
get_messages channel since_id limit db =
    let anchor = anchor_of since_id db in
    map to_inbound
      (take limit (keep_if (λ row. in_channel channel row && after_anchor anchor row) db.messages))

pub recent_messages : Text → ℕ → Db → List InboundMessage
recent_messages channel limit db =
    let newest_first =
      reverse (keep_if (λ row. in_channel channel row && is_ingested row) db.messages) in
    map to_inbound (reverse (take limit newest_first))

context_of : ℕ → ℕ → Option Message → Db → List InboundMessage
context_of before after none db = []
context_of before after (some target) db =
    let earlier =
      keep_if (λ row. in_channel target.channel row && ltb row.id target.id) db.messages in
    let later =
      keep_if (λ row. in_channel target.channel row && ltb target.id row.id) db.messages in
    map to_inbound (reverse (take before (reverse earlier)) ++ target ∷ take after later)

pub get_context : String → ℕ → ℕ → Db → List InboundMessage
get_context message_id before after db = context_of before after (row_of message_id db) db
