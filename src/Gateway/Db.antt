-- ===== src/Gateway/Db.antt =====
-- The tables of the gateway (shared/db.py) and the parsed event that a buffered payload holds.
-- Times are microseconds. A payload is kept as the event that `parse_gowa_event` reads from it.
use the_watcher.Prelude.{ℕ, String, Bool, Option, List}
use the_watcher.Prelude.Table.{HasId}
use the_watcher.Text.{Text}

pub record GowaEvent : Type 0 where
  pub event_type : String
  pub message_id : Option String
  pub chat_id : Option Text
  pub sender : Option Text
  pub sender_name : Option Text
  pub text : Text
  pub timestamp : Option ℕ
  pub replied_to_id : Option String
  pub reaction_emoji : Option String
  pub reacted_message_id : Option String
  pub media_kind : Option String
  pub mentions : List Text
  pub from_me : Bool

-- A row of `messages_buffer`.
pub record Message : Type 0 where
  pub id : ℕ
  pub message_id : String
  pub channel : Text
  pub event_type : String
  pub payload : GowaEvent
  pub received_at : ℕ
  pub processed : Bool

instance abbrev pub message_has_id : HasId Message
message_has_id = record { row_id = λ m. m.id }

-- A row of `channels`; the kind is `unset` while the channel is not watched.
pub record Channel : Type 0 where
  pub jid : Text
  pub kind : String
  pub title : Option Text
  pub initiative : Option Text
  pub cursor : Option String

-- A row of `setup_sessions`.
pub record SetupSession : Type 0 where
  pub id : ℕ
  pub channel : Text
  pub kind : String
  pub title : Text
  pub requested_by : Text
  pub step : String
  pub lead : Option Text
  pub brief : Option Text
  pub timeline : Option Text
  pub created_at : ℕ

instance abbrev pub session_has_id : HasId SetupSession
session_has_id = record { row_id = λ s. s.id }

-- A row of `members_registry`.
pub record Member : Type 0 where
  pub wa_identity : Text
  pub member_title : Text
  pub cms_member_id : Option Text
  pub linked_by : Option Text

pub record Db : Type 0 where
  pub messages : List Message
  pub channels : List Channel
  pub bot_admins : List Text
  pub sessions : List SetupSession
  pub members : List Member
