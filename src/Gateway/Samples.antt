-- ===== src/Gateway/Samples.antt =====
-- The gateway's theorems at a group with an admin, a watched channel and three buffered events.
use the_watcher.Prelude.{ℕ, ◌≡◌, refl, ◌⊎◌, String, true, false, not, none, some, [], ◌∷◌, ◌++◌}
use the_watcher.Prelude.{list_is_eq, nat_is_eq, string_is_eq, contains, keep_if}
use the_watcher.Text.{Text, codes}
use the_watcher.Gateway.Db.{GowaEvent, Message, Channel, Db}
use the_watcher.Gateway.Buffer.{pending_messages, mark_consumed}
use the_watcher.Gateway.Buffer.Laws.{pending_messages-mark_consumed}
use the_watcher.Gateway.Setup.{}
use the_watcher.Gateway.Channels.{get_channel, upsert_channel}
use the_watcher.Gateway.Channels.Laws.{upserted, get_channel-upsert_channel}
use the_watcher.Gateway.Webhook.{
  Dispatch, is_change, chat_or_unknown, intake, is_admitted, receive_webhook, remove_prefix,
  valid_secrets,
}
use the_watcher.Gateway.Webhook.Laws.{Sound, intake-Sound, intake_redelivered}
use the_watcher.Gateway.Webhook.Signature.{Signs, receive_webhook-Signed}

abbrev pub lab : Text
lab = codes "1@g.us"

abbrev hall : Text
hall = codes "2@g.us"

abbrev ann : Text
ann = codes "ann"

abbrev said : String → String → String → GowaEvent
said kind id words = record {
  event_type = kind;
  message_id = some id;
  chat_id = some lab;
  sender = some ann;
  sender_name = none;
  text = codes words;
  timestamp = none;
  replied_to_id = none;
  reaction_emoji = none;
  reacted_message_id = none;
  media_kind = none;
  from_me = false;
  mentions = [];
}

abbrev row : ℕ → String → GowaEvent → Message
row n id event = record {
  id = n;
  message_id = id;
  channel = lab;
  event_type = event.event_type;
  payload = event;
  received_at = n;
  processed = false;
}

abbrev pub watched_lab : Channel
watched_lab = record {
  jid = lab;
  kind = "project";
  title = some (codes "Lab");
  initiative = none;
  cursor = some "m0";
}

abbrev pub buffer : Db
buffer = record {
  messages =
      row 1 "m1" (said "message" "m1" "hi")
      ∷ row 2 "m2" (said "message.reaction" "m2" "")
      ∷ row 3 "m3" (said "message" "m3" "there")
      ∷ [];
  channels = watched_lab ∷ [];
  bot_admins = ann ∷ [];
  sessions = [];
  members = [];
}

abbrev fresh : GowaEvent
fresh = said "message" "m4" "new"

pending_messages-mark_consumed_example :
    (pending_messages lab (mark_consumed (1 ∷ []) buffer)).0
    ≡ keep_if (λ m. not (contains (1 ∷ []) m.row_id)) (pending_messages lab buffer).0
pending_messages-mark_consumed_example = pending_messages-mark_consumed lab (1 ∷ []) buffer

get_channel-upsert_channel_example :
    get_channel lab (upsert_channel lab "event" none none buffer)
    ≡ some (upserted lab "event" none none (get_channel lab buffer))
get_channel-upsert_channel_example = get_channel-upsert_channel lab lab "event" none none buffer

intake-Sound_example : Sound buffer (intake 9 fresh buffer)
intake-Sound_example = intake-Sound 9 fresh buffer (refl, (refl, (refl, tt)))

intake_redelivered_example : (intake 10 fresh (intake 9 fresh buffer).db).answer ≡ false
unfolding is_change
intake_redelivered_example = intake_redelivered 9 10 fresh buffer refl

-- The digest of the sample: the secret before the body.
abbrev prefixed : Text → Text → Text
prefixed secret body = secret ++ body

abbrev read_fresh : Text → GowaEvent
read_fresh body = fresh

abbrev no_handler : Dispatch → Db → Db
no_handler d db = db

receive_webhook-Signed_example :
    (receive_webhook read_fresh no_handler prefixed
        (valid_secrets (codes "k") none)
        9
        (codes "b")
        (some (codes "sha256=kb"))
        buffer
      ≡ (false, buffer))
    ⊎ ((t : Text) × (some (codes "sha256=kb") ≡ some t)
        × Signs prefixed
            (codes "b")
            (remove_prefix (codes "sha256=") t)
            (valid_secrets (codes "k") none)
        × (((receive_webhook read_fresh no_handler prefixed
                (valid_secrets (codes "k") none)
                9
                (codes "b")
                (some (codes "sha256=kb"))
                buffer).0
              ≡ false)
            ⊎ (is_admitted (chat_or_unknown (some lab)) fresh buffer ≡ true)))
receive_webhook-Signed_example =
    receive_webhook-Signed prefixed read_fresh no_handler (codes "k") none 9 (codes "b")
      (some (codes "sha256=kb")) buffer
