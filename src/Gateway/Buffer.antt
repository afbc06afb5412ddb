-- ===== src/Gateway/Buffer.antt =====
-- The message buffer: shared/gateway/buffer.py.
pub mod Laws
pub mod Windows
use the_watcher.Prelude.{
  ℕ, String, Bool, true, false, not, ◌&&◌, ◌||◌, Option, none, some, List, [], ◌∷◌, map,
}
use the_watcher.Prelude.{
  if◌then◌else◌, ◌==◌, nat_is_eq, string_is_eq, list_is_eq, keep_if, contains, find_first,
}
use the_watcher.Text.{Text, codes}
use the_watcher.Gateway.Db.{GowaEvent, Message, Db}

abbrev pub ingested_events : List String
ingested_events = "message" ∷ "message.backfill" ∷ "message.edited" ∷ []

pub record InboundMessage : Type 0 where
  pub row_id : ℕ
  pub message_id : String
  pub channel : Text
  pub received_at : ℕ
  pub sent_at : ℕ
  pub text : Text
  pub sender : Text
  pub sender_name : Option Text
  pub replied_to_id : Option String
  pub backfilled : Bool
  pub edited : Bool
  pub media_kind : Option String
  pub mentions : List Text
  pub from_me : Bool

or_else : {A : Type 0} → Option A → A → A
or_else none d = d
or_else (some a) d = a

-- `event.sender or "unknown"`
sender_or_unknown : Option Text → Text
sender_or_unknown none = codes "unknown"
sender_or_unknown (some []) = codes "unknown"
sender_or_unknown (some (c ∷ t)) = c ∷ t

unfoldable pub to_inbound : Message → InboundMessage
unfolding or_else sender_or_unknown
to_inbound row = record {
  row_id = row.id;
  message_id = row.message_id;
  channel = row.channel;
  received_at = row.received_at;
  sent_at = or_else row.payload.timestamp row.received_at;
  text = row.payload.text;
  sender = sender_or_unknown row.payload.sender;
  sender_name = row.payload.sender_name;
  replied_to_id = row.payload.replied_to_id;
  backfilled = row.event_type == "message.backfill";
  edited = row.event_type == "message.edited";
  media_kind = row.payload.media_kind;
  mentions = row.payload.mentions;
  from_me = row.payload.from_me;
}

unfoldable pub is_ingested : Message → Bool
is_ingested row = contains ingested_events row.event_type

-- A row of the channel that is not processed yet.
unfoldable pub is_open : Text → Message → Bool
is_open channel row = row.channel == channel && not row.processed

abbrev pub set_processed : Message → Message
set_processed row = record row { processed = true }

unfoldable pub is_other : Text → Message → Bool
is_other channel row = is_open channel row && not (is_ingested row)

-- What is open in the channel and no message is processed on sight.
unfoldable pub drop_others : Text → List Message → List Message
drop_others channel [] = []
drop_others channel (row ∷ rows) =
    let rest = drop_others channel rows in
    if is_other channel row then set_processed row ∷ rest else row ∷ rest

-- The rows that `pending_messages` returns, before `to_inbound`.
unfoldable pub is_pending : Text → Message → Bool
is_pending channel row = is_open channel row && is_ingested row

unfoldable pub pending_rows : Text → List Message → List Message
pending_rows channel rows = keep_if (is_pending channel) rows

unfoldable pub pending_messages : Text → Db → List InboundMessage × Db
pending_messages channel db = (
  map to_inbound (pending_rows channel db.messages),
  record db { messages = drop_others channel db.messages },
)

unfoldable pub consume : List ℕ → List Message → List Message
consume ids [] = []
consume ids (row ∷ rows) =
    let rest = consume ids rows in
    if contains ids row.id then set_processed row ∷ rest else row ∷ rest

unfoldable pub mark_consumed : List ℕ → Db → Db
mark_consumed ids db = record db { messages = consume ids db.messages }

pub get_message : String → Db → Option InboundMessage
get_message message_id db =
    elim (find_first (λ (row : Message). row.message_id == message_id) db.messages) [
      | none ↦ none
      | some row ↦ some (to_inbound row)
    ]
