-- ===== src/Gateway/Webhook.antt =====
-- The webhook's intake: shared/gateway/webhook.py. The digest of a body under a secret, the reading
-- of a body as an event and what the dispatched handlers do are parameters.
pub mod Laws
pub mod Signature
use the_watcher.Prelude.{
  ℕ, String, Bool, true, false, not, ◌&&◌, ◌||◌, Option, none, some, List, [], ◌∷◌, ◌++◌,
}
use the_watcher.Prelude.{
  if◌then◌else◌, ◌==◌, string_is_eq, nat_is_eq, list_is_eq, has, drop, take, length,
}
use the_watcher.Prelude.Table.{fresh_id, update_row}
use the_watcher.Text.{Text, codes, is_space, strip_if, is_empty}
use the_watcher.Text.Search.{starts_with, ends_with}
use the_watcher.Gateway.Db.{GowaEvent, Message, message_has_id, Db}
use the_watcher.Gateway.Buffer.{InboundMessage, to_inbound, set_processed}
use the_watcher.Gateway.Channels.{is_bot_admin, is_allowlisted}
use the_watcher.Gateway.Setup.{has_setup_session}

unfoldable pub remove_prefix : Text → Text → Text
remove_prefix p t = if starts_with p t then drop (length p) t else t

unfoldable pub is_group_jid : Text → Bool
is_group_jid jid = ends_with jid (codes "@g.us")

-- The secrets that a signature may be made with, the previous one while it is set.
unfoldable pub valid_secrets : Text → Option Text → List Text
valid_secrets current none = current ∷ []
valid_secrets current (some []) = current ∷ []
valid_secrets current (some (c ∷ previous)) = current ∷ (c ∷ previous) ∷ []

module _ (digest : Text → Text → Text) where
  unfoldable pub is_signed : Text → Text → List Text → Bool
  is_signed body received [] = false
  is_signed body received (s ∷ secrets) =
      (not (is_empty s) && digest s body == received) || is_signed body received secrets

  unfoldable pub verify_signature : List Text → Text → Option Text → Bool
  verify_signature secrets body none = false
  verify_signature secrets body (some []) = false
  verify_signature secrets body (some (c ∷ t)) =
      is_signed body (remove_prefix (codes "sha256=") (c ∷ t)) secrets

pub data Dispatch : Type 0 where
  nothing : Dispatch
  admin_command : Text → Text → Text → ℕ → List Text → Dispatch
  reaction : Text → Text → Option String → Option String → Dispatch
  message : InboundMessage → Dispatch

pub record Outcome : Type 0 where
  pub answer : Bool
  pub dispatch : Dispatch
  pub db : Db

unfoldable pub refuse : Db → Outcome
refuse db = record { answer = false; dispatch = Dispatch.nothing; db = db }

pub chat_or_unknown : Option Text → Text
chat_or_unknown none = codes "unknown"
chat_or_unknown (some []) = codes "unknown"
chat_or_unknown (some (c ∷ t)) = c ∷ t

-- The sender when it is there and not empty.
pub given_sender : Option Text → Option Text
given_sender none = none
given_sender (some []) = none
given_sender (some (c ∷ t)) = some (c ∷ t)

-- The sender is an admin who writes a command.
unfoldable pub is_command_of : Option Text → Text → Db → Bool
is_command_of none text db = false
is_command_of (some sender) text db =
    not (is_empty text)
    && (starts_with (codes "/") (strip_if is_space text) && is_bot_admin sender db)

unfoldable pub is_reply_of : Text → String → Option Text → Text → Db → Bool
is_reply_of channel event_type none text db = false
is_reply_of channel event_type (some sender) text db =
    event_type == "message" && (not (is_empty text) && has_setup_session channel sender db)

unfoldable pub is_setup_input : Text → GowaEvent → Db → Bool
is_setup_input channel event db =
    is_command_of (given_sender event.sender) event.text db
    || is_reply_of channel event.event_type (given_sender event.sender) event.text db

-- `select(MessageBuffer).where(MessageBuffer.message_id == message_id)`
unfoldable pub find_message : String → List Message → Option Message
find_message message_id [] = none
find_message message_id (row ∷ rows) =
    let rest = find_message message_id rows in
    if row.message_id == message_id then some row else rest

abbrev pub replace_event : ℕ → GowaEvent → Message → Message
replace_event now event row = record row {
  payload = event;
  event_type = event.event_type;
  received_at = now;
}

-- The change of the row that `find_message` finds.
unfoldable pub change_message : String → (Message → Message) → List Message → List Message
change_message message_id f [] = []
change_message message_id f (row ∷ rows) =
    let rest = change_message message_id f rows in
    if row.message_id == message_id then f row ∷ rows else row ∷ rest

unfoldable pub is_change : GowaEvent → Bool
is_change event = event.event_type == "message.edited" || event.event_type == "message.revoked"

abbrev pub new_row : ℕ → String → Text → GowaEvent → Db → Message
new_row now message_id channel event db = record {
  id = fresh_id db.messages;
  message_id = message_id;
  channel = channel;
  event_type = event.event_type;
  payload = event;
  received_at = now;
  processed = false;
}

abbrev command_of : Option Text → Text → GowaEvent → ℕ → Dispatch
command_of none channel event row_id = Dispatch.nothing
command_of (some sender) channel event row_id =
    Dispatch.admin_command channel sender event.text row_id event.mentions

abbrev message_of : GowaEvent → Message → Dispatch
message_of event row =
    if event.event_type == "message" then Dispatch.message (to_inbound row) else Dispatch.nothing

abbrev reaction_of : Option Text → Text → GowaEvent → Message → Dispatch
reaction_of none channel event row = message_of event row
reaction_of (some sender) channel event row =
    if event.event_type == "message.reaction"
    then Dispatch.reaction channel sender event.reacted_message_id event.reaction_emoji
    else message_of event row

unfoldable pub dispatch_of : Text → GowaEvent → Bool → Message → Dispatch
dispatch_of channel event setup_input row =
    if setup_input
    then command_of (given_sender event.sender) channel event row.id
    else reaction_of (given_sender event.sender) channel event row

-- What the intake stores: a change of a message that waits, or a message that is new.
unfoldable pub store : ℕ → String → Text → GowaEvent → Bool → Option Message → Db → Outcome
store now message_id channel event setup_input (some row) db =
    if is_change event && not row.processed
    then record {
      answer = true;
      dispatch = Dispatch.nothing;
      db = record db { messages = change_message message_id (replace_event now event) db.messages };
    }
    else refuse db
store now message_id channel event setup_input none db =
    let row = new_row now message_id channel event db in
    record {
      answer = true;
      dispatch = dispatch_of channel event setup_input row;
      db = record db { messages = db.messages ++ row ∷ [] };
    }

unfoldable pub is_admitted : Text → GowaEvent → Db → Bool
is_admitted channel event db =
    is_group_jid channel && (is_setup_input channel event db || is_allowlisted channel db)

unfoldable pub intake_named : ℕ → GowaEvent → Db → Option String → Outcome
intake_named now event db none = refuse db
intake_named now event db (some message_id) =
    let channel = chat_or_unknown event.chat_id in
    if message_id == ""
    then refuse db
    else if is_admitted channel event db
    then store now message_id channel event (is_setup_input channel event db)
        (find_message message_id db.messages) db
    else refuse db

unfoldable pub intake : ℕ → GowaEvent → Db → Outcome
intake now event db = intake_named now event db event.message_id

module _ (parse : Text → GowaEvent) (handle : Dispatch → Db → Db) where
  -- The handlers run after the commit; a command's row is processed then.
  unfoldable pub run_dispatch : Dispatch → Db → Db
  run_dispatch Dispatch.nothing db = db
  run_dispatch (Dispatch.admin_command channel sender text row_id mentions) db =
      let after = handle (Dispatch.admin_command channel sender text row_id mentions) db in
      record after { messages = update_row row_id set_processed after.messages }
  run_dispatch (Dispatch.reaction channel sender id emoji) db =
      handle (Dispatch.reaction channel sender id emoji) db
  run_dispatch (Dispatch.message m) db = handle (Dispatch.message m) db

  unfoldable pub receive_webhook :
      (Text → Text → Text) → List Text → ℕ → Text → Option Text → Db → Bool × Db
  receive_webhook digest secrets now raw_body signature db =
      let out = intake now (parse raw_body) db in
      if verify_signature digest secrets raw_body signature
      then (out.answer, run_dispatch out.dispatch out.db)
      else (false, db)
