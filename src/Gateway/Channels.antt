-- ===== src/Gateway/Channels.antt =====
-- The registry of channels, admins and members: shared/gateway/channels.py.
pub mod Laws
use the_watcher.Prelude.{
  ℕ, ◌≡◌, String, Bool, true, false, not, Option, none, some, List, [], ◌∷◌, ◌++◌,
}
use the_watcher.Prelude.{
  if◌then◌else◌, ◌==◌, string_is_eq, nat_is_eq, list_is_eq, keep_if, contains, length,
}
use the_watcher.Text.{Text}
use the_watcher.Gateway.Db.{Channel, Member, Db}

unfoldable pub is_bot_admin : Text → Db → Bool
is_bot_admin wa_identity db = contains db.bot_admins wa_identity

unfoldable pub is_watched : Channel → Bool
is_watched row = not (row.kind == "unset")

-- `select(Channel).where(Channel.jid == jid)`
unfoldable pub find_channel : Text → List Channel → Option Channel
find_channel jid [] = none
find_channel jid (row ∷ rows) =
    let rest = find_channel jid rows in if row.jid == jid then some row else rest

-- The change of the row that `find_channel` finds.
unfoldable pub change_channel : Text → (Channel → Channel) → List Channel → List Channel
change_channel jid f [] = []
change_channel jid f (row ∷ rows) =
    let rest = change_channel jid f rows in if row.jid == jid then f row ∷ rows else row ∷ rest

unfoldable pub get_channel : Text → Db → Option Channel
get_channel jid db = find_channel jid db.channels

find_by_kind : String → List Channel → Option Channel
find_by_kind kind [] = none
find_by_kind kind (row ∷ rows) =
    let rest = find_by_kind kind rows in if row.kind == kind then some row else rest

pub get_channel_by_kind : String → Db → Option Channel
get_channel_by_kind kind db = find_by_kind kind db.channels

-- The second test of `list_channels`, made when a kind is given and not empty.
unfoldable pub has_kind : Option String → Channel → Bool
has_kind none row = true
has_kind (some kind) row = if kind == "" then true else row.kind == kind

unfoldable pub list_channels : Option String → Db → List Channel
list_channels kind db = keep_if (has_kind kind) (keep_if is_watched db.channels)

unfoldable pub watched : Option Channel → Bool
watched none = false
watched (some row) = is_watched row

unfoldable pub is_allowlisted : Text → Db → Bool
is_allowlisted jid db = watched (get_channel jid db)

abbrev pub describe : String → Option Text → Option Text → Channel → Channel
describe kind title initiative row = record row {
  kind = kind;
  title = title;
  initiative = initiative;
}

abbrev pub new_channel : Text → String → Option Text → Option Text → Channel
new_channel jid kind title initiative = record {
  jid = jid;
  kind = kind;
  title = title;
  initiative = initiative;
  cursor = none;
}

unfoldable pub upsert_row :
    Text → String → Option Text → Option Text → Option Channel → List Channel → List Channel
upsert_row jid kind title initiative none rows = rows ++ new_channel jid kind title initiative ∷ []
upsert_row jid kind title initiative (some row) rows =
    change_channel jid (describe kind title initiative) rows

unfoldable pub upsert_channel : Text → String → Option Text → Option Text → Db → Db
upsert_channel jid kind title initiative db = record db {
  channels = upsert_row jid kind title initiative (find_channel jid db.channels) db.channels;
}

abbrev pub unset : Channel → Channel
unset row = record row { kind = "unset"; initiative = none }

unfoldable pub unwatch_found : Text → Bool → Db → Bool × Db
unwatch_found jid true db = (true, record db { channels = change_channel jid unset db.channels })
unwatch_found jid false db = (false, db)

unfoldable pub unwatch_channel : Text → Db → Bool × Db
unwatch_channel jid db = unwatch_found jid (is_allowlisted jid db) db

abbrev pub set_cursor : String → Channel → Channel
set_cursor last_message_id row = record row { cursor = some last_message_id }

unfoldable pub advance_channel_cursor : Text → String → Db → Db
advance_channel_cursor jid last_message_id db = record db {
  channels = change_channel jid (set_cursor last_message_id) db.channels;
}

unfoldable pub find_member : Text → List Member → Option Member
find_member wa_identity [] = none
find_member wa_identity (row ∷ rows) =
    let rest = find_member wa_identity rows in
    if row.wa_identity == wa_identity then some row else rest

-- The id in the CMS that a link keeps when none is given.
unfoldable pub kept_cms_id : Option Text → Option Text → Option Text
kept_cms_id none old = old
kept_cms_id (some given) old = some given

-- `link_member`'s change of the row with this identity, or the row that it adds at the end.
unfoldable pub link_rows : Text → Text → Option Text → Option Text → List Member → List Member
link_rows wa_identity member_title cms_member_id linked_by [] =
    record {
      wa_identity = wa_identity;
      member_title = member_title;
      cms_member_id = cms_member_id;
      linked_by = linked_by;
    }
    ∷ []
link_rows wa_identity member_title cms_member_id linked_by (row ∷ rows) =
    let rest = link_rows wa_identity member_title cms_member_id linked_by rows in
    if row.wa_identity == wa_identity
    then record row {
      member_title = member_title;
      linked_by = linked_by;
      cms_member_id = kept_cms_id cms_member_id row.cms_member_id;
    }
      ∷ rows
    else row ∷ rest

unfoldable pub link_member : Text → Text → Option Text → Option Text → Db → Db
link_member wa_identity member_title cms_member_id linked_by db = record db {
  members = link_rows wa_identity member_title cms_member_id linked_by db.members;
}

unfoldable pub resolve_sender : Text → Db → Option Member
resolve_sender wa_identity db = find_member wa_identity db.members

pub admin_and_channel_counts : Db → ℕ × ℕ
admin_and_channel_counts db = (length db.bot_admins, length (keep_if is_watched db.channels))
