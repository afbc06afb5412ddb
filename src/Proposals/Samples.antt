-- ===== src/Proposals/Samples.antt =====
-- Proposals at a desk with one that waits and one that is confirmed.
use the_watcher.Prelude.{ℕ, ◌+◌, ◌≡◌, ◌⊎◌, refl, true, not, none, some, [], ◌∷◌, keep_if}
use the_watcher.Prelude.Table.{get_row}
use the_watcher.Text.{Text, codes}
use the_watcher.Gateway.Channels.{is_bot_admin, link_member as link_row}
use the_watcher.Gateway.Samples.{buffer}
use the_watcher.Proposals.{
  Payload, Proposal, Desk, Outside, Reply, proposal_has_id, is_pending_row, is_over, confirm_by,
  has_executor, execute, expire_rows, confirm, handle_reaction, expire_stale, is_thumbs_up,
}
use the_watcher.Proposals.Laws.{
  settled_forever, confirm_once, Confirms, handle_reaction_lem, keep_if-expire_rows,
}

abbrev waiting : Proposal
waiting = record {
  id = 1;
  channel = codes "1@g.us";
  payload = Payload.link_member (codes "491") (codes "Bob") none;
  status = "pending";
  message_id = some "p1";
  expires_at = some 50;
  resolved_at = none;
  resolved_by = none;
}

abbrev finished : Proposal
finished = record waiting { id = 2; status = "confirmed"; message_id = some "p2" }

abbrev desk : Desk ℕ
desk = record { proposals = waiting ∷ finished ∷ []; db = buffer; world = 0 }

abbrev outside : Outside ℕ
outside = record {
  send = λ channel text w. (some none, w + 1);
  expiry_text = λ p. codes "expired";
  create_member_page = λ title w. (some tt, w);
  append_to_page = λ path section line w. (some tt, w);
}

abbrev ann : Text
ann = codes "ann"

settled_forever_example :
    (get_row 2 (confirm outside 9 1 ann desk).1.proposals ≡ some finished)
    × (get_row 2 (handle_reaction outside 9 ann (some "p1") (some "👍") desk).1.proposals
        ≡ some finished)
    × (get_row 2 (expire_stale outside 9 desk).1.proposals ≡ some finished)
unfolding get_row is_pending_row
settled_forever_example =
    settled_forever outside 9 2 1 ann (some "p1") (some "👍") desk finished refl refl

confirm_once_example :
    ((confirm outside 9 1 ann desk).0 ≡ some (Reply.linked (codes "Bob")))
    × (get_row 1 (confirm outside 9 1 ann desk).1.proposals ≡ some (confirm_by ann 9 waiting))
    × ((confirm outside 9 1 ann desk).1.db
        ≡ link_row (codes "491") (codes "Bob") none (some ann) buffer)
    × ((confirm outside 9 1 ann desk).1.world ≡ 0)
    × (confirm outside 10 1 ann (confirm outside 9 1 ann desk).1
        ≡ (some (Reply.already "confirmed"), (confirm outside 9 1 ann desk).1))
unfolding get_row is_pending_row is_over has_executor execute
confirm_once_example =
    confirm_once outside 9 10 1 ann ann desk waiting (Reply.linked (codes "Bob"))
      (link_row (codes "491") (codes "Bob") none (some ann) buffer) 0 refl refl refl refl refl

handle_reaction_example :
    (handle_reaction outside 9 ann (some "p1") (some "👍") desk ≡ (some none, desk))
    ⊎ ((is_thumbs_up (some "👍") ≡ true)
        × (is_bot_admin ann buffer ≡ true)
        × Confirms outside 9 ann
            (some "p1")
            desk
            (handle_reaction outside 9 ann (some "p1") (some "👍") desk))
handle_reaction_example = handle_reaction_lem outside 9 ann (some "p1") (some "👍") desk

keep_if-expire_rows_example :
    keep_if is_pending_row (expire_rows 60 (waiting ∷ finished ∷ []))
    ≡ keep_if
        (λ p. not (is_over 60 p.expires_at))
        (keep_if is_pending_row (waiting ∷ finished ∷ []))
keep_if-expire_rows_example = keep_if-expire_rows 60 (waiting ∷ finished ∷ [])
