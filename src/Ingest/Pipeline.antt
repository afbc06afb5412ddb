-- ===== src/Ingest/Pipeline.antt =====
-- The pipeline of agents/wa_agent/ingestion.py over the gateway's database. The world W is the
-- wiki, the models and the log channel; what assigns messages to threads and what writes a thread
-- are parameters, which may raise.
use the_watcher.Prelude.{
  ℕ, ◌+◌, suc, zero, String, Bool, true, false, not, ◌&&◌, ◌||◌, Option, none, some,
}
use the_watcher.Prelude.{List, [], ◌∷◌, ◌++◌, map, if◌then◌else◌, length, ◌==◌, string_is_eq}
use the_watcher.Text.{Text}
use the_watcher.Gateway.Db.{Channel, Db}
use the_watcher.Gateway.Buffer.{mark_consumed}
use the_watcher.Gateway.Channels.{get_channel, advance_channel_cursor}
use the_watcher.Ingest.Messages.{BufferedMessage, Settings}
use the_watcher.Ingest.Merge.{concatenate_same_sender}
use the_watcher.Ingest.Batch.{BatchResult, absorb, cut_forced_batch, cut_scheduled_batch}

pub record Assignment : Type 0 where
  pub buckets : List (String × List BufferedMessage)
  pub model_calls : ℕ
  pub unassigned : ℕ

pub record Written : Type 0 where
  pub slug : String
  pub created : Bool
  pub revived : Bool

-- `update_notice`: the thread, and the first message of the bucket.
pub record Notice : Type 0 where
  pub thread : Written
  pub since : String

abbrev pub update_notice : Written → List BufferedMessage → Notice
update_notice thread [] = record { thread = thread; since = "" }
update_notice thread (m ∷ ms) = record { thread = thread; since = m.message_id }

-- What the pipeline calls: `none` is an exception.
pub record Services (W : Type 0) : Type 0 where
  pub assign : Channel → List BufferedMessage → W → Option Assignment × W
  pub write_bucket : Channel → String → List BufferedMessage → W → Option Written × W
  pub reindex : Channel → W → Option (Unit {0}) × W
  pub notify_unassigned : Channel → ℕ → W → W
  pub post_notices : Channel → List Notice → W → W

-- A run raises, or it ends with a result or with none.
pub data Run : Type 0 where
  raised : Run
  finished : Option BatchResult → Run

pub record Site (W : Type 0) : Type 0 where
  pub db : Db
  pub world : W

abbrev pub row_ids : List BufferedMessage → List ℕ
row_ids messages = map (λ m. m.row_id) messages

abbrev is_nil : List String → Bool
is_nil [] = true
is_nil (x ∷ xs) = false

-- `messages[-1].message_id`
unfoldable pub last_message_id : List BufferedMessage → String
last_message_id [] = ""
last_message_id (m ∷ []) = m.message_id
last_message_id (m ∷ n ∷ ms) = last_message_id (n ∷ ms)

-- `mark_consumed` and `advance_channel_cursor`, which end every batch.
unfoldable pub commit : Text → List BufferedMessage → Db → Db
commit jid messages db =
    advance_channel_cursor jid (last_message_id messages) (mark_consumed (row_ids messages) db)

abbrev pub empty_result : Text → ℕ → BatchResult
empty_result jid count = record {
  channel = jid;
  message_count = count;
  threads_updated = [];
  threads_created = [];
  threads_revived = [];
  chatter_count = 0;
  model_calls = 0;
  unassigned = 0;
}

abbrev add_if : Bool → String → List String → List String
add_if b slug slugs = if b then slugs ++ slug ∷ [] else slugs

-- The counts of one bucket that was written.
unfoldable pub count_written : Written → BatchResult → BatchResult
count_written w result = record result {
  model_calls = suc result.model_calls;
  threads_created = add_if w.created w.slug result.threads_created;
  threads_updated = add_if (not w.created) w.slug result.threads_updated;
  threads_revived = add_if (not w.created && w.revived) w.slug result.threads_revived;
}

unfoldable pub count_chatter : List BufferedMessage → BatchResult → BatchResult
count_chatter bucket result = record result { chatter_count = result.chatter_count + length bucket }

-- Whether the channel's notices have an inbox to go to.
unfoldable pub has_initiative : Option Text → Bool
has_initiative none = false
has_initiative (some []) = false
has_initiative (some (c ∷ t)) = true

pub inbox_for : Channel → Option String
inbox_for channel =
    if (channel.kind == "project" || channel.kind == "event") && has_initiative channel.initiative
    then some "project_agent"
    else none

module _ {W : Type 0} (settings : Settings) (services : Services W) where
  -- What goes on after a bucket is written, or is not.
  unfoldable pub after_bucket :
      List BufferedMessage
      → Option Written
      → W
      → BatchResult
      → List Notice
      → (BatchResult → List Notice → W → Option (BatchResult × List Notice) × W)
      → Option (BatchResult × List Notice) × W
  after_bucket bucket none w result notices continue = (none, w)
  after_bucket bucket (some written) w result notices continue =
      continue (count_written written result) (notices ++ update_notice written bucket ∷ []) w

  -- The loop over `assignment.buckets.items()`.
  unfoldable pub write_buckets :
      Channel
      → List (String × List BufferedMessage)
      → BatchResult
      → List Notice
      → W
      → Option (BatchResult × List Notice) × W
  write_buckets channel [] result notices w = (some (result, notices), w)
  write_buckets channel ((key, bucket) ∷ buckets) result notices w =
      let continue = write_buckets channel buckets in
      let written = services.write_bucket channel key bucket w in
      if key == "chatter"
      then continue (count_chatter bucket result) notices w
      else after_bucket bucket written.0 written.1 result notices continue

  post_found : Option String → Channel → List Notice → W → W
  post_found none channel notices w = w
  post_found (some agent) channel [] w = w
  post_found (some agent) channel (n ∷ ns) w = services.post_notices channel (n ∷ ns) w

  pub post_notices : Channel → List Notice → W → W
  post_notices channel notices w = post_found (inbox_for channel) channel notices w

  unfoldable pub has_updates : BatchResult → Bool
  has_updates result = not (is_nil result.threads_created && is_nil result.threads_updated)

  unfoldable pub reindex_if : Bool → Channel → W → Option (Unit {0}) × W
  reindex_if true channel w = services.reindex channel w
  reindex_if false channel w = (some tt, w)

  -- The end of `_process_batch`: the batch is consumed when nothing has raised.
  unfoldable pub finish :
      Channel
      → List BufferedMessage
      → Db
      → BatchResult
      → List Notice
      → Option (Unit {0}) × W
      → Run × Site W
  finish channel messages db result notices (none, w) = (Run.raised, record { db = db; world = w })
  finish channel messages db result notices (some u, w) = (
    Run.finished (some result),
    record { db = commit channel.jid messages db; world = post_notices channel notices w },
  )

  unfoldable pub after_write :
      Channel → List BufferedMessage → Db → Option (BatchResult × List Notice) × W → Run × Site W
  after_write channel messages db (none, w) = (Run.raised, record { db = db; world = w })
  after_write channel messages db (some (result, notices), w) =
      finish channel messages db result notices (reindex_if (has_updates result) channel w)

  unfoldable pub notify_if : Channel → ℕ → W → W
  notify_if channel zero w = w
  notify_if channel (suc n) w = services.notify_unassigned channel (suc n) w

  unfoldable pub after_assign :
      Channel → List BufferedMessage → Db → Option Assignment × W → Run × Site W
  after_assign channel messages db (none, w) = (Run.raised, record { db = db; world = w })
  after_assign channel messages db (some a, w) =
      let start = record (empty_result channel.jid (length messages)) {
        model_calls = a.model_calls;
        unassigned = a.unassigned;
      } in
      after_write channel messages db
        (write_buckets channel a.buckets start [] (notify_if channel a.unassigned w))

  unfoldable pub process_batch : Channel → List BufferedMessage → Site W → Run × Site W
  process_batch channel messages site = after_assign channel messages site.db (
      services.assign channel (concatenate_same_sender settings.message_concat_window messages)
        site.world)

  unfoldable pub drain_non_ingested : Text → List BufferedMessage → Site W → Run × Site W
  drain_non_ingested jid messages site = (
    Run.finished (some (empty_result jid (length messages))),
    record site { db = commit jid messages site.db },
  )

  unfoldable pub run_known : Option Channel → Text → List BufferedMessage → Site W → Run × Site W
  run_known none jid messages site = (Run.finished none, site)
  run_known (some channel) jid messages site =
      let drained = drain_non_ingested jid messages site in
      let processed = process_batch channel messages site in
      if channel.kind == "logs" then drained else processed

  -- `_run`, on what the cut returned.
  unfoldable pub run_cut : Text → Option (List BufferedMessage) → Site W → Run × Site W
  run_cut jid none site = (Run.finished none, site)
  run_cut jid (some messages) site = run_known (get_channel jid site.db) jid messages site

  unfoldable pub run_scheduled : ℕ → Text → Site W → Run × Site W
  run_scheduled now jid site =
      let cut = cut_scheduled_batch settings now jid site.db in
      run_cut jid cut.0 (record site { db = cut.1 })

  unfoldable pub run_forced : Text → Site W → Run × Site W
  run_forced jid site =
      let cut = cut_forced_batch settings jid site.db in
      run_cut jid cut.0 (record site { db = cut.1 })

  abbrev pub add_total : Option BatchResult → BatchResult → BatchResult
  add_total none result = result
  add_total (some total) result = absorb total result

  -- One round of the drain, and what follows a result.
  unfoldable pub drain_next :
      Option BatchResult
      → Run × Site W
      → (Option BatchResult → Site W → Run × Site W)
      → Run × Site W
  drain_next total (Run.raised, site) continue = (Run.raised, site)
  drain_next total (Run.finished none, site) continue = (Run.finished total, site)
  drain_next total (Run.finished (some result), site) continue =
      continue (some (add_total total result)) site

  unfoldable pub drain_rounds : ℕ → Text → Option BatchResult → Site W → Run × Site W
  drain_rounds zero jid total site = (Run.finished total, site)
  drain_rounds (suc n) jid total site = drain_next total (run_forced jid site) (drain_rounds n jid)

  abbrev pub max_drain_batches : ℕ
  max_drain_batches = 100

  unfoldable pub run_drained : Text → Site W → Run × Site W
  run_drained jid site = drain_rounds max_drain_batches jid none site

  pub run_batch : ℕ → Bool → Text → Site W → Run × Site W
  run_batch now true jid site = run_forced jid site
  run_batch now false jid site = run_scheduled now jid site
