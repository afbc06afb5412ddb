-- ===== src/Ingest/Samples.antt =====
-- The ingestion at the gateway's sample buffer, with an assignment that sends every message to one
-- new thread.
use the_watcher.Prelude.{
  ℕ, ◌≡◌, ◌≢◌, ◌⊎◌, ◌↔◌, ◌+◌, ◌≤◌, refl, arith, String, true, false, none, some, List, [], ◌∷◌,
  length, keep_if, Distinct, All, nat_is_eq, string_is_eq,
}
use the_watcher.Text.{codes}
use the_watcher.Gateway.Buffer.{
  pending_messages, pending_rows, is_pending, is_open, is_ingested, to_inbound,
}
use the_watcher.Gateway.Channels.{get_channel, find_channel}
use the_watcher.Gateway.Samples.{lab, buffer, watched_lab}
use the_watcher.Ingest.Messages.{BufferedMessage, Settings}
use the_watcher.Ingest.Merge.{
  concatenate_same_sender, all_src_ids, all_src_ids-concatenate_same_sender,
}
use the_watcher.Ingest.Batch.{Older, SomeOlder, is_batch_ready, is_batch_ready_exact, pending}
use the_watcher.Ingest.Pipeline.{Services, Site, row_ids, run_known, run_drained}
use the_watcher.Ingest.Drain.{Committed, run_known-Committed}
use the_watcher.Ingest.Drain.Rounds.{queue, Known, Drained, run_drained_lem}

abbrev settings : Settings
settings = record {
  batch_n = 2;
  batch_t = 100;
  batch_quiet = 5;
  message_concat_window = 2;
  thread_context_max_chars = 4;
}

abbrev services : Services ℕ
services = record {
  assign = λ channel messages w. (
    some (record { buckets = ("new-thread:1", messages) ∷ []; model_calls = 1; unassigned = 0 }),
    w,
  );
  write_bucket = λ channel key bucket w.
      (some (record { slug = key; created = true; revived = false }), w + 1);
  reindex = λ channel w. (some tt, w);
  notify_unassigned = λ channel n w. w;
  post_notices = λ channel notices w. w;
}

abbrev site : Site ℕ
site = record { db = buffer; world = 0 }

abbrev said_at : ℕ → String → BufferedMessage
said_at n id = record {
  row_id = n;
  message_id = id;
  channel = lab;
  received_at = n;
  text = codes "hi";
  sender = codes "ann";
  replied_to_id = none;
  sender_name = none;
  sent_at = n;
  src_ids = id ∷ [];
}

abbrev three : List BufferedMessage
three = said_at 1 "a" ∷ said_at 3 "b" ∷ said_at 9 "c" ∷ []

all_src_ids-concatenate_same_sender_example :
    all_src_ids (concatenate_same_sender 2 three) ≡ all_src_ids three
all_src_ids-concatenate_same_sender_example = all_src_ids-concatenate_same_sender 2 three

is_batch_ready_exact_example :
    (is_batch_ready settings 20 three ≡ true)
    ↔ ((three ≢ []) × ((2 ≤ 3) ⊎ SomeOlder 20 100 three) × All (Older 20 5) three)
is_batch_ready_exact_example = is_batch_ready_exact settings 20 three

run_known-Committed_example :
    Committed three buffer (run_known settings services (some watched_lab) lab three site)
run_known-Committed_example = run_known-Committed settings services watched_lab lab three site

sample_rows : row_ids (queue lab buffer) ≡ 1 ∷ 3 ∷ []
unfolding pending pending_messages pending_rows is_pending is_open is_ingested keep_if to_inbound
sample_rows = refl

sample_Distinct : Distinct (row_ids (queue lab buffer))
unfolding pending pending_messages pending_rows is_pending is_open is_ingested keep_if to_inbound
sample_Distinct = (refl, (refl, tt))

sample_Known : Known lab buffer
unfolding get_channel find_channel
sample_Known = (watched_lab, refl)

sample_bound : length (queue lab buffer) ≤ 200
unfolding pending pending_messages pending_rows is_pending is_open is_ingested keep_if to_inbound
sample_bound = omega arith

run_drained_example : Drained lab 0 (queue lab buffer) (run_drained settings services lab site)
run_drained_example =
    run_drained_lem settings services lab site sample_Distinct sample_Known (omega arith)
      sample_bound
