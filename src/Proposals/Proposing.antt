-- ===== src/Proposals/Proposing.antt =====
-- What is proposed: `propose_wiki_write` and `propose_identity_link` of
-- agents/wa_agent/proposals.py. The texts and the roster's closest match are parameters.
use the_watcher.Prelude.{ℕ, Option, none, some}
use the_watcher.Text.{Text}
use the_watcher.Gateway.Db.{Channel, Member}
use the_watcher.Gateway.Channels.{get_channel_by_kind, resolve_sender}
use the_watcher.Proposals.{Payload, Desk, Outside, propose}

pub data LinkReply : Type 0 where
  already_linked : Text → LinkReply
  proposed : Payload → LinkReply

jid_of : Option Channel → Option Text
jid_of none = none
jid_of (some row) = some row.jid

-- The match of a name: a member, and its id in the CMS.
payload_for : Text → Text → Option (Text × Option Text) → Payload
payload_for identity name none = Payload.create_member identity name
payload_for identity name (some (title, cms)) = Payload.link_member identity title cms

module _ {W : Type 0} (outside : Outside W) (text_of : Payload → Text)
    (match_member : Text → W → Option (Option (Text × Option Text)) × W) where
  pub propose_wiki_write : ℕ → Text → Text → Text → Text → Desk W → Option (Unit {0}) × Desk W
  propose_wiki_write expires_at jid path section line desk =
      let payload = Payload.wiki_write path section line in
      propose outside expires_at (some jid) payload (text_of payload) desk

  replied : Payload → Option (Unit {0}) × Desk W → Option LinkReply × Desk W
  replied payload (none, desk) = (none, desk)
  replied payload (some u, desk) = (some (LinkReply.proposed payload), desk)

  after_match :
      ℕ
      → Text
      → Text
      → Option (Option (Text × Option Text)) × W
      → Desk W
      → Option LinkReply × Desk W
  after_match expires_at identity name (none, w) desk = (none, record desk { world = w })
  after_match expires_at identity name (some found, w) desk =
      let payload = payload_for identity name found in
      replied payload (
        propose outside expires_at (jid_of (get_channel_by_kind "coordis" desk.db)) payload
          (text_of payload) (record desk { world = w }))

  link_unknown : ℕ → Text → Text → Option Member → Desk W → Option LinkReply × Desk W
  link_unknown expires_at identity name (some m) desk =
      (some (LinkReply.already_linked m.member_title), desk)
  link_unknown expires_at identity name none desk =
      after_match expires_at identity name (match_member name desk.world) desk

  pub propose_identity_link : ℕ → Text → Text → Desk W → Option LinkReply × Desk W
  propose_identity_link expires_at identity name desk =
      link_unknown expires_at identity name (resolve_sender identity desk.db) desk
