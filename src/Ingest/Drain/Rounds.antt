-- ===== src/Ingest/Drain/Rounds.antt =====
-- The drain's rounds: each takes one batch off the front of what is pending.
use mathlib.Core.List.{append_assoc}
use the_watcher.Prelude.{
  ℕ, ◌+◌, ◌*◌, ◌≤◌, ◌<◌, suc, zero, ◌≡◌, refl, ap, sym, ◌∙◌, inl, inr, String, false, not, ◌||◌,
}
use the_watcher.Prelude.{
  Option, none, some, List, [], ◌∷◌, ◌++◌, map, arith, Bool-cases, length, take, drop,
}
use the_watcher.Prelude.{
  ◌==◌, ==_refl, nat_is_eq, list_is_eq, keep_if, contains, Distinct, take-append-drop,
  length-append, length-take,
}
use the_watcher.Text.{Text}
use the_watcher.Gateway.Db.{Channel, Db}
use the_watcher.Gateway.Buffer.{pending_messages, mark_consumed}
use the_watcher.Gateway.Buffer.Laws.{
  pending_messages-mark_consumed, pending_messages-stable, keep_if-map,
}
use the_watcher.Gateway.Channels.{
  get_channel, find_channel, change_channel, set_cursor, advance_channel_cursor,
}
use the_watcher.Gateway.Channels.Laws.{
  change_found, find_channel-changed, find_channel-unchanged, same_text,
}
use the_watcher.Ingest.Messages.{BufferedMessage, Settings, buffered}
use the_watcher.Ingest.Batch.{BatchResult, absorb, cap, cap-take, pending, if_any, cut_forced_batch}
use the_watcher.Ingest.Pipeline.{
  Services, Run, Site, row_ids, last_message_id, commit, run_cut, run_forced, add_total, drain_next,
  drain_rounds, run_drained,
}
use the_watcher.Ingest.Drain.{Committed, run_known-Committed}

-- What is pending in a channel.
abbrev pub queue : Text → Db → List BufferedMessage
queue jid db = (pending jid db).0

abbrev pub Known : Text → Db → Type 0
Known jid db = (channel : Channel) × (get_channel jid db ≡ some channel)

queue-read : (jid : Text) (db : Db) → queue jid (pending jid db).1 ≡ queue jid db
unfolding pending
queue-read jid db = ap (map buffered) (pending_messages-stable jid jid db).0

queue-commit :
    (jid j : Text) (ms : List BufferedMessage) (db : Db)
    → queue jid (commit j ms db)
      ≡ keep_if (λ m. not (contains (row_ids ms) m.row_id)) (queue jid db)
unfolding pending commit advance_channel_cursor pending_messages
queue-commit jid j ms db =
    ap (map buffered) (pending_messages-mark_consumed jid (row_ids ms) db)
    ∙ sym (
        keep_if-map (λ m. not (contains (row_ids ms) m.row_id)) buffered
          (pending_messages jid db).0)

keep_if-other :
    (a : ℕ) (ids : List ℕ) (ms : List BufferedMessage)
    → contains (row_ids ms) a ≡ false
    → keep_if (λ m. not (a == m.row_id || contains ids m.row_id)) ms
      ≡ keep_if (λ m. not (contains ids m.row_id)) ms
unfolding keep_if
keep_if-other a ids [] h = refl
keep_if-other a ids (m ∷ ms) h =
    let differ : (a == m.row_id) ≡ false = ground (arith, h) in
    rw (differ, keep_if-other a ids ms (ground (arith, h))) refl

keep_if-nothing : (ms : List BufferedMessage) → keep_if (λ m. not (contains [] m.row_id)) ms ≡ ms
unfolding keep_if
keep_if-nothing [] = refl
keep_if-nothing (m ∷ ms) = ap (◌∷◌ m) (keep_if-nothing ms)

-- Without the rows of its first `n` messages a queue is what follows them.
keep_if-front :
    (n : ℕ) (ms : List BufferedMessage)
    → Distinct (row_ids ms)
    → keep_if (λ m. not (contains (row_ids (take n ms)) m.row_id)) ms ≡ drop n ms
unfolding keep_if
keep_if-front zero ms d = keep_if-nothing ms
keep_if-front (suc n) [] d = refl
keep_if-front (suc n) (m ∷ ms) d =
    rw (==_refl m.row_id)
      (keep_if-other m.row_id (row_ids (take n ms)) ms d.0 ∙ keep_if-front n ms d.1)

Distinct-drop :
    (n : ℕ) (ms : List BufferedMessage) → Distinct (row_ids ms) → Distinct (row_ids (drop n ms))
Distinct-drop zero ms d = d
Distinct-drop (suc n) [] d = d
Distinct-drop (suc n) (m ∷ ms) d = Distinct-drop n ms d.1

found_changed :
    (jid j : Text) (id : String) (rows : List Channel) (c : Channel)
    → j ≡ jid
    → find_channel jid rows ≡ some c
    → find_channel jid (change_channel j (set_cursor id) rows) ≡ some (set_cursor id c)
found_changed jid j id rows c e found = rw e (
    find_channel-changed jid (set_cursor id) rows (λ r. refl)
    ∙ ap (change_found (set_cursor id)) found)

Known-commit :
    (jid j : Text) (ms : List BufferedMessage) (db : Db) → Known jid db → Known jid (commit j ms db)
unfolding commit advance_channel_cursor get_channel mark_consumed
Known-commit jid j ms db (c, found) =
    let set = set_cursor (last_message_id ms) in
    elim (Bool-cases (j == jid)) [
      | inl e ↦
          (set c, found_changed jid j (last_message_id ms) db.channels c (same_text j jid e) found)
      | inr e ↦ (c, find_channel-unchanged jid j set db.channels (λ r. refl) e ∙ found)
    ]

Known-read : (jid : Text) (db : Db) → Known jid db → Known jid (pending jid db).1
unfolding pending pending_messages get_channel
Known-read jid db k = k

-- What one forced run does to the queue `q` of its channel, when a batch has at most `n` messages.
Stepped : {W : Type 0} → Text → ℕ → List BufferedMessage → Run × Site W → Type 0
Stepped jid n q (Run.raised, site) = queue jid site.db ≡ q
Stepped jid n q (Run.finished none, site) = (q ≡ []) × (queue jid site.db ≡ [])
Stepped jid n q (Run.finished (some result), site) =
    (queue jid site.db ≡ drop n q) × (result.message_count ≡ length (take n q)) × Known jid site.db

abbrev count_of : Option BatchResult → ℕ
count_of none = 0
count_of (some result) = result.message_count

-- What a drain does: if it raises, the messages consumed stand before those still pending; if not,
-- nothing is pending, and the result counts the messages that were.
pub Drained : {W : Type 0} → Text → ℕ → List BufferedMessage → Run × Site W → Type 0
Drained jid total q (Run.raised, site) =
    (done : List BufferedMessage) × (done ++ queue jid site.db ≡ q)
Drained jid total q (Run.finished o, site) =
    (queue jid site.db ≡ []) × (count_of o ≡ total + length q)

Stepped-Committed :
    {W : Type 0} (jid : Text) (settings : Settings) (q : List BufferedMessage) (db : Db)
    (out : Run × Site W)
    → queue jid db ≡ q
    → Distinct (row_ids q)
    → Known jid db
    → Committed (cap settings q) db out
    → Stepped jid settings.batch_n q out
unfolding Committed Stepped
Stepped-Committed jid settings q db (Run.raised, site) e d k h = ap (queue jid) h ∙ e
Stepped-Committed jid settings q db (Run.finished none, site) e d k h = absurd h
Stepped-Committed jid settings q db (Run.finished (some result), site) e d k h =
    let n = settings.batch_n in
    let j = h.0.0 in
    (
      ap (queue jid) h.0.1
          ∙ queue-commit jid j (cap settings q) db
          ∙ rw (e, cap-take settings q) (keep_if-front n q d),
      h.1 ∙ ap length (cap-take settings q),
      rw h.0.1 (Known-commit jid j (cap settings q) db k),
    )

nothing_left : (q : List BufferedMessage) → length q ≤ 0 → q ≡ []
nothing_left [] h = refl
nothing_left (m ∷ q) h = ground (arith, h)

drop_bound :
    (n rounds : ℕ) (q : List BufferedMessage)
    → length q ≤ suc rounds * n
    → length (drop n q) ≤ rounds * n
drop_bound n rounds q le =
    let pieces : length q ≡ length (take n q) + length (drop n q) =
      ap length (sym (take-append-drop n q)) ∙ length-append (take n q) (drop n q) in
    omega (arith, pieces, length-take n q)

module _ {W : Type 0} (settings : Settings) (services : Services W) (jid : Text) where
  run_cut-Stepped :
      (q : List BufferedMessage) (db : Db) (w : W)
      → queue jid db ≡ q
      → Distinct (row_ids q)
      → Known jid db
      → Stepped jid settings.batch_n q
          (run_cut settings services jid (if_any settings q) (record { db = db; world = w }))
  unfolding run_cut if_any Stepped
  run_cut-Stepped [] db w e d k = (refl, e)
  run_cut-Stepped (m ∷ ms) db w e d k = rw k.1 (
      Stepped-Committed jid settings (m ∷ ms) db _ e d k (
        run_known-Committed settings services k.0 jid (cap settings (m ∷ ms))
          (record { db = db; world = w })))

  run_forced-Stepped :
      (site : Site W)
      → Distinct (row_ids (queue jid site.db))
      → Known jid site.db
      → Stepped jid settings.batch_n (queue jid site.db) (run_forced settings services jid site)
  unfolding run_forced cut_forced_batch
  run_forced-Stepped site d k =
      run_cut-Stepped (queue jid site.db) (pending jid site.db).1 site.world
        (queue-read jid site.db) d (Known-read jid site.db k)

  count_of-add_total :
      (total : Option BatchResult) (result : BatchResult)
      → (add_total settings services total result).message_count
        ≡ count_of total + result.message_count
  unfolding absorb
  count_of-add_total none result = omega arith
  count_of-add_total (some t) result = refl

  Drained-after :
      (t t' : ℕ) (q rest front : List BufferedMessage) (out : Run × Site W)
      → front ++ rest ≡ q
      → t' + length rest ≡ t + length q
      → Drained jid t' rest out
      → Drained jid t q out
  unfolding Drained
  Drained-after t t' q rest front (Run.raised, site) e count (done, h) =
      (front ++ done, append_assoc front done (queue jid site.db) ∙ ap (λ r. front ++ r) h ∙ e)
  Drained-after t t' q rest front (Run.finished o, site) e count h = (h.0, h.1 ∙ count)

  drain_next-Drained :
      (rounds : ℕ) (total : Option BatchResult) (q : List BufferedMessage) (out : Run × Site W)
      (continue : Option BatchResult → Site W → Run × Site W)
      → Distinct (row_ids q)
      → 0 < settings.batch_n
      → length q ≤ suc rounds * settings.batch_n
      → ((t : Option BatchResult) (site : Site W)
          → Distinct (row_ids (queue jid site.db))
          → Known jid site.db
          → length (queue jid site.db) ≤ rounds * settings.batch_n
          → Drained jid (count_of t) (queue jid site.db) (continue t site))
      → Stepped jid settings.batch_n q out
      → Drained jid (count_of total) q (drain_next settings services total out continue)
  unfolding drain_next Drained Stepped
  drain_next-Drained rounds total q (Run.raised, site) continue d pos le ih s = ([], s)
  drain_next-Drained rounds total q (Run.finished none, site) continue d pos le ih s =
      (s.1, rw s.0 (omega arith))
  drain_next-Drained rounds total q (Run.finished (some result), site) continue d pos le ih s =
      let n = settings.batch_n in
      let pieces : length q ≡ length (take n q) + length (drop n q) =
        ap length (sym (take-append-drop n q)) ∙ length-append (take n q) (drop n q) in
      let left : length (queue jid site.db) ≡ length (drop n q) = ap length s.0 in
      Drained-after (count_of total) (count_of (some (add_total settings services total result))) q
        (queue jid site.db) (take n q) _ (rw s.0 (take-append-drop n q))
        (omega (arith, pieces, left, s.1, count_of-add_total total result))
        (ih (some (add_total settings services total result)) site (rw s.0 (Distinct-drop n q d))
          s.2 (rw s.0 (drop_bound n rounds q le)))

  drain_rounds-Drained :
      (rounds : ℕ) (total : Option BatchResult) (site : Site W)
      → Distinct (row_ids (queue jid site.db))
      → Known jid site.db
      → 0 < settings.batch_n
      → length (queue jid site.db) ≤ rounds * settings.batch_n
      → Drained jid
          (count_of total)
          (queue jid site.db)
          (drain_rounds settings services rounds jid total site)
  unfolding drain_rounds Drained
  drain_rounds-Drained zero total site d k pos le =
      (nothing_left (queue jid site.db) (omega (arith, le)), omega (arith, le))
  drain_rounds-Drained (suc n) total site d k pos le =
      drain_next-Drained n total (queue jid site.db) (run_forced settings services jid site)
        (drain_rounds settings services n jid) d pos le
        (λ t s d' k' le'. drain_rounds-Drained n t s d' k' pos le') (run_forced-Stepped site d k)

  -- For a known channel whose pending messages are distinct rows, at most 100 batches of them, and
  -- a batch size of at least one: a drain that does not raise leaves nothing pending, and its
  -- result counts every message that was pending. A drain that raises has consumed messages off
  -- the front of the queue and has left the rest.
  pub run_drained_lem :
      (site : Site W)
      → Distinct (row_ids (queue jid site.db))
      → Known jid site.db
      → 0 < settings.batch_n
      → length (queue jid site.db) ≤ 100 * settings.batch_n
      → Drained jid 0 (queue jid site.db) (run_drained settings services jid site)
  unfolding run_drained
  run_drained_lem site d k pos le = drain_rounds-Drained 100 none site d k pos le
