-- ===== src/Proposals.antt =====
-- Proposals, the changes that wait for a thumbs up: agents/wa_agent/proposals.py, and their rows in
-- shared/gateway/proposals.py. The world W is the wiki and the messages sent.
pub mod Laws
pub mod Proposing
mod Samples
use the_watcher.Prelude.{
  ℕ, ◌+◌, String, Bool, true, false, not, ◌&&◌, ◌||◌, Option, none, some, List, [], ◌∷◌, ◌++◌, map,
}
use the_watcher.Prelude.{
  if◌then◌else◌, ◌==◌, string_is_eq, nat_is_eq, list_is_eq, option_is_eq, ltb, length, keep_if,
  contains,
}
use the_watcher.Prelude.Table.{HasId, fresh_id, get_row, update_row}
use the_watcher.Text.{Text, codes}
use the_watcher.Gateway.Db.{Channel, Db}
use the_watcher.Gateway.Channels.{is_bot_admin, link_member as link_row}

-- The payloads that the executors read, and any other kind.
pub data Payload : Type 0 where
  link_member : Text → Text → Option Text → Payload
  create_member : Text → Text → Payload
  wiki_write : Text → Text → Text → Payload
  other_kind : String → Payload

-- A row of `proposals`; the payload goes with its kind.
pub record Proposal : Type 0 where
  pub id : ℕ
  pub channel : Text
  pub payload : Payload
  pub status : String
  pub message_id : Option String
  pub expires_at : Option ℕ
  pub resolved_at : Option ℕ
  pub resolved_by : Option Text

instance abbrev pub proposal_has_id : HasId Proposal
proposal_has_id = record { row_id = λ p. p.id }

pub record Desk (W : Type 0) : Type 0 where
  pub proposals : List Proposal
  pub db : Db
  pub world : W

-- What the service calls outside the database: `none` is an exception. `send` returns the id of
-- the message, if the gateway has one; making a page that exists is no error.
pub record Outside (W : Type 0) : Type 0 where
  pub send : Text → Text → W → Option (Option String) × W
  pub expiry_text : Proposal → Text
  pub create_member_page : Text → W → Option (Unit {0}) × W
  pub append_to_page : Text → Text → Text → W → Option (Unit {0}) × W

pub data Reply : Type 0 where
  no_such_proposal : Reply
  already : String → Reply
  expired : Reply
  unknown_kind : String → Reply
  linked : Text → Reply
  created : Text → Reply
  added : Text → Text → Reply

unfoldable pub is_pending_row : Proposal → Bool
is_pending_row p = p.status == "pending"

abbrev pub expire : Proposal → Proposal
expire p = record p { status = "expired" }

abbrev pub confirm_by : Text → ℕ → Proposal → Proposal
confirm_by confirmed_by now p = record p {
  status = "confirmed";
  resolved_at = some now;
  resolved_by = some confirmed_by;
}

-- `ProposalStore.create`
unfoldable pub create_proposal : Text → Payload → ℕ → List Proposal → ℕ × List Proposal
create_proposal channel payload expires_at rows =
    let id = fresh_id rows in
    (
      id,
      rows
          ++ record {
            id = id;
            channel = channel;
            payload = payload;
            status = "pending";
            message_id = none;
            expires_at = some expires_at;
            resolved_at = none;
            resolved_by = none;
          }
            ∷ [],
    )

unfoldable pub set_message_id : ℕ → Option String → List Proposal → List Proposal
set_message_id id message_id rows = update_row id (λ p. record p { message_id = message_id }) rows

unfoldable pub mark_expired : ℕ → List Proposal → List Proposal
mark_expired id rows = update_row id expire rows

unfoldable pub mark_confirmed : ℕ → Text → ℕ → List Proposal → List Proposal
mark_confirmed id confirmed_by now rows = update_row id (confirm_by confirmed_by now) rows

unfoldable pub is_pending_on : String → Proposal → Bool
is_pending_on message_id p = p.message_id == some message_id && is_pending_row p

unfoldable pub get_pending_by_message : String → List Proposal → Option Proposal
get_pending_by_message message_id [] = none
get_pending_by_message message_id (p ∷ rows) =
    let rest = get_pending_by_message message_id rows in
    if is_pending_on message_id p then some p else rest

-- A pending row whose time is over.
unfoldable pub is_over : ℕ → Option ℕ → Bool
is_over now none = false
is_over now (some expires_at) = ltb expires_at now

unfoldable pub is_due_row : ℕ → Proposal → Bool
is_due_row now p = is_pending_row p && is_over now p.expires_at

-- `expire_due`: the rows afterwards, and those that expired.
unfoldable pub expire_rows : ℕ → List Proposal → List Proposal
expire_rows now [] = []
expire_rows now (p ∷ rows) =
    let rest = expire_rows now rows in if is_due_row now p then expire p ∷ rest else p ∷ rest

unfoldable pub expire_due : ℕ → List Proposal → List Proposal × List Proposal
expire_due now rows = (map expire (keep_if (is_due_row now) rows), expire_rows now rows)

pub pending_count : List Proposal → ℕ
pending_count rows = length (keep_if is_pending_row rows)

abbrev thumbs_up : List String
thumbs_up = "👍" ∷ "👍🏻" ∷ "👍🏼" ∷ "👍🏽" ∷ "👍🏾" ∷ "👍🏿" ∷ []

unfoldable pub is_thumbs_up : Option String → Bool
is_thumbs_up none = false
is_thumbs_up (some emoji) = contains thumbs_up emoji

unfoldable pub map_reply : Option Reply → Option (Option Reply)
map_reply none = none
map_reply (some reply) = some (some reply)

unfoldable pub after_send :
    {W : Type 0} → Option (Option String) → W → (W → Option (Unit {0}) × W) → Option (Unit {0}) × W
after_send none w continue = (none, w)
after_send (some id) w continue = continue w

unfoldable pub counted : ℕ → Option (Unit {0}) → Option ℕ
counted n none = none
counted n (some u) = some n

-- `channel or "unknown"`
abbrev pub named : Text → Text
named [] = codes "unknown"
named (c ∷ t) = c ∷ t

module _ {W : Type 0} (outside : Outside W) where
  unfoldable pub after_page :
      Text → Text → Text → Db → Option (Unit {0}) × W → Option Reply × (Db × W)
  after_page identity title confirmed_by db (none, w) = (none, (db, w))
  after_page identity title confirmed_by db (some u, w) =
      (some (Reply.created title), (link_row identity title none (some confirmed_by) db, w))

  unfoldable pub after_append : Text → Text → Db → Option (Unit {0}) × W → Option Reply × (Db × W)
  after_append path section db (none, w) = (none, (db, w))
  after_append path section db (some u, w) = (some (Reply.added path section), (db, w))

  -- The executors of `_EXECUTORS`, on the kinds that have one.
  unfoldable pub execute : Payload → Text → Db → W → Option Reply × (Db × W)
  execute (Payload.link_member identity title cms) confirmed_by db w =
      (some (Reply.linked title), (link_row identity title cms (some confirmed_by) db, w))
  execute (Payload.create_member identity name) confirmed_by db w =
      after_page identity name confirmed_by db (outside.create_member_page name w)
  execute (Payload.wiki_write path section line) confirmed_by db w =
      after_append path section db (outside.append_to_page path section line w)
  execute (Payload.other_kind kind) confirmed_by db w = (some (Reply.unknown_kind kind), (db, w))

  unfoldable pub has_executor : Payload → Bool
  has_executor (Payload.link_member identity title cms) = true
  has_executor (Payload.create_member identity name) = true
  has_executor (Payload.wiki_write path section line) = true
  has_executor (Payload.other_kind kind) = false

  -- The row is confirmed when its executor has returned.
  unfoldable pub settle :
      ℕ → ℕ → Text → List Proposal → Bool → Option Reply × (Db × W) → Option Reply × Desk W
  settle now id confirmed_by rows known (none, (db, w)) =
      (none, record { proposals = rows; db = db; world = w })
  settle now id confirmed_by rows false (some reply, (db, w)) =
      (some reply, record { proposals = rows; db = db; world = w })
  settle now id confirmed_by rows true (some reply, (db, w)) = (
    some reply,
    record { proposals = mark_confirmed id confirmed_by now rows; db = db; world = w },
  )

  unfoldable pub confirm_found : ℕ → ℕ → Option Proposal → Text → Desk W → Option Reply × Desk W
  confirm_found now id none confirmed_by desk = (some Reply.no_such_proposal, desk)
  confirm_found now id (some p) confirmed_by desk =
      if not (is_pending_row p)
      then (some (Reply.already p.status), desk)
      else if is_over now p.expires_at
      then (some Reply.expired, record desk { proposals = mark_expired id desk.proposals })
      else settle now id confirmed_by desk.proposals (has_executor p.payload)
          (execute p.payload confirmed_by desk.db desk.world)

  -- `ProposalService.confirm`; `none` is an exception of the executor.
  unfoldable pub confirm : ℕ → ℕ → Text → Desk W → Option Reply × Desk W
  confirm now id confirmed_by desk =
      confirm_found now id (get_row id desk.proposals) confirmed_by desk

  unfoldable pub confirm_message :
      ℕ → Text → Option Proposal → Desk W → Option (Option Reply) × Desk W
  confirm_message now reactor none desk = (some none, desk)
  confirm_message now reactor (some p) desk =
      let out = confirm now p.id reactor desk in (map_reply out.0, out.1)

  unfoldable pub react_to : ℕ → Text → Option String → Desk W → Option (Option Reply) × Desk W
  react_to now reactor none desk = (some none, desk)
  react_to now reactor (some message_id) desk =
      if message_id == ""
      then (some none, desk)
      else confirm_message now reactor (get_pending_by_message message_id desk.proposals) desk

  -- `ProposalService.handle_reaction`
  unfoldable pub handle_reaction :
      ℕ → Text → Option String → Option String → Desk W → Option (Option Reply) × Desk W
  handle_reaction now reactor message_id emoji desk =
      if is_thumbs_up emoji && is_bot_admin reactor desk.db
      then react_to now reactor message_id desk
      else (some none, desk)

  unfoldable pub announce : List Proposal → W → Option (Unit {0}) × W
  announce [] w = (some tt, w)
  announce (p ∷ ps) w =
      let continue = announce ps in
      let sent = outside.send p.channel (outside.expiry_text p) w in
      if p.channel == [] || p.channel == codes "unknown"
      then continue w
      else after_send sent.0 sent.1 continue

  -- `ProposalService.expire_stale`
  unfoldable pub expire_stale : ℕ → Desk W → Option ℕ × Desk W
  expire_stale now desk =
      let expired = expire_due now desk.proposals in
      let told = announce expired.0 desk.world in
      (counted (length expired.0) told.0, record desk { proposals = expired.1; world = told.1 })

  unfoldable pub after_propose :
      ℕ → List Proposal → Db → Option (Option String) × W → Option (Unit {0}) × Desk W
  after_propose id rows db (none, w) = (none, record { proposals = rows; db = db; world = w })
  after_propose id rows db (some message_id, w) =
      (some tt, record { proposals = set_message_id id message_id rows; db = db; world = w })

  -- `ProposalService.propose`, which makes the row before it sends the message.
  unfoldable pub propose : ℕ → Option Text → Payload → Text → Desk W → Option (Unit {0}) × Desk W
  propose expires_at none payload text desk = (
    some tt,
    record desk {
      proposals = (create_proposal (codes "unknown") payload expires_at desk.proposals).1;
    },
  )
  propose expires_at (some channel) payload text desk =
      let made = create_proposal (named channel) payload expires_at desk.proposals in
      after_propose made.0 made.1 desk.db (outside.send channel text desk.world)
