-- ===== src/Ingest/Drain.antt =====
-- What a run of the pipeline does to the buffer: a batch is consumed exactly if nothing raises, and
-- the drain leaves nothing pending.
pub mod Rounds
use the_watcher.Prelude.{
  ℕ, ◌+◌, suc, zero, ◌≡◌, ◌≢◌, refl, ap, sym, ◌∙◌, ◌⊎◌, inl, inr, String, Bool, true, false, not,
}
use the_watcher.Prelude.{
  Option, none, some, List, [], ◌∷◌, ◌++◌, map, arith, Bool-cases, if◌then◌else◌, length, ◌==◌,
  string_is_eq,
}
use the_watcher.Text.{Text}
use the_watcher.Gateway.Db.{Channel, Db}
use the_watcher.Gateway.Channels.{get_channel}
use the_watcher.Ingest.Messages.{BufferedMessage, Settings}
use the_watcher.Ingest.Merge.{concatenate_same_sender}
use the_watcher.Ingest.Batch.{BatchResult, cap, pending, if_any, cut_forced_batch}
use the_watcher.Ingest.Pipeline.{
  Assignment, Written, Notice, Services, Run, Site, commit, empty_result, count_written,
  count_chatter, after_bucket, write_buckets, has_updates, reindex_if, finish, after_write,
  notify_if, after_assign, process_batch, drain_non_ingested, run_known, run_cut, run_forced,
}

-- A run on a batch: if it raises, the database is as before; if not, the batch is consumed under
-- some jid, and the result counts its messages.
pub Committed : {W : Type 0} → List BufferedMessage → Db → Run × Site W → Type 0
Committed messages db (Run.raised, site) = site.db ≡ db
Committed messages db (Run.finished none, site) = ⊥
Committed messages db (Run.finished (some result), site) =
    ((jid : Text) × (site.db ≡ commit jid messages db)) × (result.message_count ≡ length messages)

-- What `write_buckets` returns counts as many messages as it was given.
Counts : {W : Type 0} → ℕ → Option (BatchResult × List Notice) × W → Type 0
Counts n (none, w) = Unit
Counts n (some (result, notices), w) = result.message_count ≡ n

module _ {W : Type 0} (settings : Settings) (services : Services W) where
  after_bucket-Counts :
      (n : ℕ) (bucket : List BufferedMessage) (o : Option Written) (w : W) (result : BatchResult)
      (notices : List Notice)
      (continue : BatchResult → List Notice → W → Option (BatchResult × List Notice) × W)
      → ((r : BatchResult) (ns : List Notice) (w' : W)
          → r.message_count ≡ n
          → Counts n (continue r ns w'))
      → result.message_count ≡ n
      → Counts n (after_bucket settings services bucket o w result notices continue)
  unfolding after_bucket Counts count_written
  after_bucket-Counts n bucket none w result notices continue ih h = tt
  after_bucket-Counts n bucket (some written) w result notices continue ih h = ih _ _ w h

  write_buckets-Counts :
      (n : ℕ) (channel : Channel) (buckets : List (String × List BufferedMessage))
      (result : BatchResult) (notices : List Notice) (w : W)
      → result.message_count ≡ n
      → Counts n (write_buckets settings services channel buckets result notices w)
  unfolding write_buckets count_chatter Counts
  write_buckets-Counts n channel [] result notices w h = h
  write_buckets-Counts n channel ((key, bucket) ∷ buckets) result notices w h =
      let written = services.write_bucket channel key bucket w in
      elim (Bool-cases (key == "chatter")) [
        | inl e ↦
            rw e (write_buckets-Counts n channel buckets (count_chatter bucket result) notices w h)
        | inr e ↦ rw e (
            after_bucket-Counts n bucket written.0 written.1 result notices
              (write_buckets settings services channel buckets)
              (write_buckets-Counts n channel buckets) h)
      ]

  module _ (channel : Channel) (messages : List BufferedMessage) (db : Db) where
    finish-Committed :
        (result : BatchResult) (notices : List Notice) (o : Option (Unit {0}) × W)
        → result.message_count ≡ length messages
        → Committed messages db (finish settings services channel messages db result notices o)
    unfolding finish Committed
    finish-Committed result notices (none, w) h = refl
    finish-Committed result notices (some u, w) h = ((channel.jid, refl), h)

    after_write-Committed :
        (o : Option (BatchResult × List Notice) × W)
        → Counts (length messages) o
        → Committed messages db (after_write settings services channel messages db o)
    unfolding after_write Committed Counts
    after_write-Committed (none, w) h = refl
    after_write-Committed (some (result, notices), w) h =
        finish-Committed result notices
          (reindex_if settings services (has_updates settings services result) channel w) h

    after_assign-Committed :
        (o : Option Assignment × W)
        → Committed messages db (after_assign settings services channel messages db o)
    unfolding after_assign Committed
    after_assign-Committed (none, w) = refl
    after_assign-Committed (some a, w) = after_write-Committed _ (
        write_buckets-Counts (length messages) channel a.buckets _ []
          (notify_if settings services channel a.unassigned w) refl)

  -- A run on a batch of a known channel consumes the whole batch and counts its messages, or it
  -- raises and leaves the database as it was.
  pub run_known-Committed :
      (channel : Channel) (jid : Text) (messages : List BufferedMessage) (site : Site W)
      → Committed messages site.db (run_known settings services (some channel) jid messages site)
  unfolding run_known process_batch drain_non_ingested Committed
  run_known-Committed channel jid messages site = elim (Bool-cases (channel.kind == "logs")) [
    | inl e ↦ rw e ((jid, refl), refl)
    | inr e ↦ rw e (
        after_assign-Committed channel messages site.db (
          services.assign channel (concatenate_same_sender settings.message_concat_window messages)
            site.world))
  ]
