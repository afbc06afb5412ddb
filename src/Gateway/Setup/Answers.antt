-- ===== src/Gateway/Setup/Answers.antt =====
-- The answers to the dialogue of /setup, and /unwatch: shared/gateway/onboarding.py.
use the_watcher.Prelude.{
  ℕ, String, Bool, true, false, not, ◌&&◌, ◌||◌, Option, none, some, List, [], ◌∷◌,
}
use the_watcher.Prelude.{
  if◌then◌else◌, ◌==◌, string_is_eq, nat_is_eq, list_is_eq, contains, keep_if, has, nat_eq,
}
use the_watcher.Prelude.Table.{update_row}
use the_watcher.Text.{Text, codes, is_space, strip_if, is_empty, lower}
use the_watcher.Gateway.Db.{Member, SetupSession, session_has_id, Db}
use the_watcher.Gateway.Channels.{is_bot_admin, unwatch_channel, resolve_sender}
use the_watcher.Gateway.Setup.{active_setup_session}
use the_watcher.Gateway.Setup.Dialogue.{
  InitiativeContext, Services, SetupReply, unassigned_lead, or_text, answer_of, register_channel,
  watching_reply,
}

-- A text that was found, though it be empty.
or_given : Option Text → Text → Text
or_given none d = d
or_given (some t) d = t

abbrev self_words : List Text
self_words = codes "me" ∷ codes "myself" ∷ codes "i" ∷ codes "self" ∷ []

-- The characters of `_WIKILINK_UNSAFE`.
is_safe : ℕ → Bool
is_safe c = not (nat_eq c 91 || (nat_eq c 93 || (nat_eq c 34 || (nat_eq c 10 || nat_eq c 13))))

-- The step that follows a step of the dialogue.
pub next_step : String → String
next_step step = if step == "lead" then "brief" else if step == "brief" then "timeline" else "done"

set_answer : String → Text → SetupSession → SetupSession
set_answer step answer row =
    if step == "lead"
    then record row { lead = some answer }
    else if step == "brief"
    then record row { brief = some answer }
    else record row { timeline = some answer }

-- The row after an answer: the answer in the step's field, and the next step.
pub answered : Text → SetupSession → SetupSession
answered answer row = record (set_answer row.step answer row) { step = next_step row.step }

title_of : Option Member → Option Text → Option Text
title_of none other = other
title_of (some m) other = some m.member_title

given : Option SetupReply → Option (Option SetupReply)
given none = none
given (some reply) = some (some reply)

module _ {W : Type 0} (services : Services W) where
  first_linked : List Text → Db → Option Text
  first_linked [] db = none
  first_linked (mention ∷ mentions) db =
      let rest = first_linked mentions db in title_of (resolve_sender mention db) rest

  is_number_tag : Text → Bool
  is_number_tag [] = false
  is_number_tag (c ∷ t) = nat_eq c 64 && not (has services.is_alpha (c ∷ t))

  -- The lead by the words of the reply, when no mention is linked.
  lead_by_words : Text → Text → Db → W → Text
  lead_by_words text requested_by db w =
      if is_empty text || contains self_words (lower services.fold text)
      then or_given (title_of (resolve_sender requested_by db) none) unassigned_lead
      else if is_number_tag text
      then unassigned_lead
      else or_given (services.closest_member text w)
          (or_text (some (strip_if is_space (keep_if is_safe text))) unassigned_lead)

  -- `_resolve_lead`; `closest_member` is the roster's match above the threshold, if it can be read.
  pub resolve_lead : Text → Text → List Text → Db → W → Text
  resolve_lead reply requested_by mentions db w =
      or_given (first_linked mentions db)
        (lead_by_words (answer_of services (some reply)) requested_by db w)

  context_of : SetupSession → InitiativeContext
  context_of row = record {
    kind = row.kind;
    title = row.title;
    lead = or_text row.lead unassigned_lead;
    brief = answer_of services row.brief;
    timeline = answer_of services row.timeline;
  }

  after_page : Text → SetupSession → Db → Option (Unit {0}) × W → Option SetupReply × (Db × W)
  after_page jid row db (none, w) = (none, (db, w))
  after_page jid row db (some u, w) =
      watching_reply services jid (SetupReply.linked row.title)
        (register_channel services jid row.kind row.title (some row.title) db w)

  -- The dialogue goes on with the next question, or ends with the page and the channel.
  after_answer : Text → SetupSession → Db → W → Option SetupReply × (Db × W)
  after_answer jid row db w =
      if row.step == "done"
      then after_page jid row db (services.create_page (context_of row) w)
      else (some (SetupReply.ask row.step), (db, w))

  reply_to :
      Text → Text → List Text → Option SetupSession → Db → W → Option (Option SetupReply) × (Db × W)
  reply_to jid reply mentions none db w = (some none, (db, w))
  reply_to jid reply mentions (some row) db w =
      let answer =
        if row.step == "lead"
        then resolve_lead reply row.requested_by mentions db w
        else strip_if is_space reply in
      let out =
        after_answer jid (answered answer row)
          (record db { sessions = update_row row.id (answered answer) db.sessions }) w in
      (given out.0, out.1)

  -- `continue_setup_session`; the inner result is `None` when no dialogue is active.
  pub continue_setup_session :
      Text → Text → List Text → Db → W → Option (Option SetupReply) × (Db × W)
  continue_setup_session jid reply mentions db w =
      reply_to jid reply mentions (active_setup_session jid db) db w

pub data UnwatchReply : Type 0 where
  only_admins : UnwatchReply
  stopped not_watched : Option Text → UnwatchReply

given_jid : Option Text → Option Text
given_jid none = none
given_jid (some []) = none
given_jid (some (c ∷ t)) = some (c ∷ t)

unwatched : Option Text → Bool × Db → UnwatchReply × Db
unwatched target (true, db) = (UnwatchReply.stopped target, db)
unwatched target (false, db) = (UnwatchReply.not_watched target, db)

pub unwatch : Text → Text → Option Text → Db → UnwatchReply × Db
unwatch jid requested_by target db =
    if not (is_bot_admin requested_by db)
    then (UnwatchReply.only_admins, db)
    else unwatched (given_jid target) (unwatch_channel (or_text (given_jid target) jid) db)
