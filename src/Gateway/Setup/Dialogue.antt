-- ===== src/Gateway/Setup/Dialogue.antt =====
-- /setup: shared/gateway/onboarding.py. The world W is
-- the wiki and the members' roster of the CMS; what is read from them and written to them are
-- services that may raise.
use the_watcher.Prelude.{
  ℕ, String, Bool, true, false, not, ◌&&◌, Option, none, some, List, [], ◌∷◌, ◌++◌,
}
use the_watcher.Prelude.{if◌then◌else◌, ◌==◌, string_is_eq, nat_is_eq, list_is_eq, contains}
use the_watcher.Prelude.Table.{fresh_id}
use the_watcher.Text.{Text, codes, is_space, strip_if, lower}
use the_watcher.Gateway.Db.{Channel, session_has_id, Db}
use the_watcher.Gateway.Channels.{get_channel, get_channel_by_kind, is_bot_admin, upsert_channel}
use the_watcher.Gateway.Setup.{cancel_setup_sessions}

pub record SetupCommand : Type 0 where
  pub kind : String
  pub title : Option Text

pub record InitiativeContext : Type 0 where
  pub kind : String
  pub title : Text
  pub lead : Text
  pub brief : Text
  pub timeline : Text

-- `none` is an exception; the page that is there already is no error.
pub record Services (W : Type 0) : Type 0 where
  pub page_exists : String → Text → W → Option Bool × W
  pub create_page : InitiativeContext → W → Option (Unit {0}) × W
  pub move_pages : Option Channel → Channel → W → Option (Unit {0}) × W
  pub watching_note : Channel → W → Option Text × W
  pub closest_member : Text → W → Option Text
  pub is_alpha : ℕ → Bool
  pub fold : ℕ → Text

pub data SetupReply : Type 0 where
  only_admins : SetupReply
  already_set_up : String → SetupReply
  needs_title : String → SetupReply
  ask_lead : String → Text → SetupReply
  ask : String → SetupReply
  watching : Option Text → SetupReply
  linked : Text → Option Text → SetupReply

abbrev pub unassigned_lead : Text
unassigned_lead = codes "Unassigned"

abbrev skip_words : List Text
skip_words = codes "skip" ∷ codes "-" ∷ codes "n/a" ∷ codes "na" ∷ codes "none" ∷ codes "later" ∷ []

default_title : String → Text
default_title kind =
    if kind == "coordis"
    then codes "Coordis"
    else if kind == "exes"
    then codes "Exes"
    else if kind == "research"
    then codes "Research"
    else if kind == "all"
    then codes "All"
    else if kind == "logs"
    then codes "Logs"
    else codes "Other"

abbrev pub or_text : Option Text → Text → Text
or_text none d = d
or_text (some []) d = d
or_text (some (c ∷ t)) d = c ∷ t

module _ {W : Type 0} (services : Services W) where
  -- `_answer`: a reply that skips is no answer.
  pub answer_of : Option Text → Text
  answer_of reply =
      let text = strip_if is_space (or_text reply []) in
      if contains skip_words (lower services.fold text) then [] else text

  after_move : Db → Option (Unit {0}) × W → Option (Unit {0}) × (Db × W)
  after_move db (o, w) = (o, (db, w))

  moved : Option Channel → Option Channel → Db → W → Option (Unit {0}) × (Db × W)
  moved old none db w = (none, (db, w))
  moved old (some new) db w = after_move db (services.move_pages old new w)

  -- `register_channel`
  pub register_channel : Text → String → Text → Option Text → Db → W → Option (Unit {0}) × (Db × W)
  register_channel jid kind title initiative db w =
      let after = upsert_channel jid kind (some title) initiative db in
      moved (get_channel jid db) (get_channel jid after) after w

  -- `_watching_reply`: the callback's note, if it has one.
  watching_of : Option Channel → W → Option Text × W
  watching_of none w = (none, w)
  watching_of (some channel) w = services.watching_note channel w

  replied : (Option Text → SetupReply) → Db → Option Text × W → Option SetupReply × (Db × W)
  replied reply db (note, w) = (some (reply note), (db, w))

  pub watching_reply :
      Text
      → (Option Text → SetupReply)
      → Option (Unit {0}) × (Db × W)
      → Option SetupReply × (Db × W)
  watching_reply jid reply (none, (db, w)) = (none, (db, w))
  watching_reply jid reply (some u, (db, w)) = replied reply db (watching_of (get_channel jid db) w)

  -- A channel of another jid holds the kind.
  taken_by_other : Text → Option Channel → Bool
  taken_by_other jid none = false
  taken_by_other jid (some row) = not (row.jid == jid)

  pub setup_singleton_or_other : Text → SetupCommand → Db → W → Option SetupReply × (Db × W)
  setup_singleton_or_other jid cmd db w =
      if not (cmd.kind == "other") && taken_by_other jid (get_channel_by_kind cmd.kind db)
      then (some (SetupReply.already_set_up cmd.kind), (db, w))
      else watching_reply jid SetupReply.watching
          (register_channel jid cmd.kind (or_text cmd.title (default_title cmd.kind)) none db w)

  new_session : ℕ → Text → Text → String → Text → Db → Db
  new_session now jid requested_by kind title db = record db {
    sessions =
        db.sessions
        ++ record {
          id = fresh_id db.sessions;
          channel = jid;
          kind = kind;
          title = title;
          requested_by = requested_by;
          step = "lead";
          lead = none;
          brief = none;
          timeline = none;
          created_at = now;
        }
          ∷ [];
  }

  page_known : ℕ → Text → Text → String → Text → Db → Option Bool × W → Option SetupReply × (Db × W)
  page_known now jid requested_by kind title db (none, w) = (none, (db, w))
  page_known now jid requested_by kind title db (some false, w) =
      (some (SetupReply.ask_lead kind title), (new_session now jid requested_by kind title db, w))
  page_known now jid requested_by kind title db (some true, w) =
      watching_reply jid SetupReply.watching (register_channel jid kind title (some title) db w)

  titled : ℕ → Text → Text → String → Option Text → Db → W → Option SetupReply × (Db × W)
  titled now jid requested_by kind none db w = (some (SetupReply.needs_title kind), (db, w))
  titled now jid requested_by kind (some []) db w = (some (SetupReply.needs_title kind), (db, w))
  titled now jid requested_by kind (some (c ∷ t)) db w =
      page_known now jid requested_by kind (c ∷ t) db (services.page_exists kind (c ∷ t) w)

  pub setup_initiative : ℕ → Text → Text → SetupCommand → Db → W → Option SetupReply × (Db × W)
  setup_initiative now jid requested_by cmd db w =
      titled now jid requested_by cmd.kind cmd.title db w

  abbrev single_kinds : List String
  single_kinds = "coordis" ∷ "exes" ∷ "research" ∷ "all" ∷ "logs" ∷ "other" ∷ []

  pub setup : ℕ → Text → Text → SetupCommand → Db → W → Option SetupReply × (Db × W)
  setup now jid requested_by cmd db w =
      let cleared = cancel_setup_sessions jid db in
      if not (is_bot_admin requested_by db)
      then (some SetupReply.only_admins, (db, w))
      else if contains single_kinds cmd.kind
      then setup_singleton_or_other jid cmd cleared w
      else setup_initiative now jid requested_by cmd cleared w
