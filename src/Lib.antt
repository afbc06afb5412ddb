-- ===== src/Lib.antt =====
-- Watcher: a bot that reads WhatsApp groups through a gateway (gowa), buffers their messages in a
-- database, assigns them in batches to threads of a wiki kept by Lapis, and answers with what a
-- reader may see. Paths below are from the repository's root.
--
-- The parts, and where they are modelled.
-- Prelude holds what the others share: Boolean tests and the interface Comparable, lists,
--   association lists (Prelude/Dict) and database tables with fresh ids (Prelude/Table).
-- Text holds Python strings as lists of code points, and Text/Slug the slugs of titles (slugify in
--   shared/wiki/templates.py).
-- Scheduler is shared/scheduler/scheduler.py and triggers.py: the registry of jobs, which are due,
--   retries with their run rows, the locks by key. State is Scheduler with its tables jobs and
--   runs; a handler is a function on a world W that may raise.
-- Access is shared/security/access.py: Path (normalize_path), Membership (CachedMembership),
--   Resolver (ChannelResolver, with channel_dir of shared/wiki/layout.py) and Policy
--   (AccessPolicy).
-- Gateway is shared/gateway: Db the tables of shared/db.py, Buffer (buffer.py), Channels
--   (channels.py), Setup with Setup/Dialogue and Setup/Answers (the dialogue of /setup in
--   onboarding.py), AgentSwitch (agent_switch.py), Commands (mentioned_jid of commands.py) and
--   Webhook (webhook.py). A transaction is a function on Db; handlers run after it.
-- Ingest is agents/wa_agent/ingestion.py with messages.py: Merge joins messages and cuts the recent
--   part of a timeline, Batch decides and cuts, Pipeline runs a batch and the drain, Drain and
--   Drain/Rounds say what that does to the buffer.
-- Proposals is agents/wa_agent/proposals.py over shared/gateway/proposals.py: rows that wait for a
--   thumbs up, what confirms them and what expires them.
-- Vault is LocalDirClient of shared/wiki/lapis_client.py: the files of the wiki with their
--   revisions, and the contract of every VaultClient as a function from paths (Vault/Laws).
-- Wiki is shared/wiki/editor.py with schema.py and parser.py: Neutralise (neutralise), Schema (who
--   owns a section), Page (pages, sections and a section's fence), Parser (parse_page, dump_page)
--   and Editor (set_fenced, append_lines, fenced_content).
-- Threads is shared/wiki/threads.py with the templates, layout.py and timeline.py: Page (thread and
--   channel pages), Equal (their equality), Store (what is read and cached), Slugs and Create (new
--   threads), Moves (mark_stale, archive_ended), Revise (revise, reindex, ensure_channel_page, and
--   the daily pass of agents/wa_agent/lifecycle.py) and Relocate (relocate).
-- Inbox is shared/inbox/interface.py: what post and ack do to an agent's items.
-- The pages of Vault are read with the line ends translated, as LocalDirClient does. Threads is
-- over a vault that gives back what was written (whole), and its files hold the page that a text is
-- read as. A thread page keeps the keys that the store does not read as texts. Conflict notes stand
-- apart from the pages, and list leaves them out.
-- How they interact: Threads edits its pages with Wiki and keeps them in Vault; Webhook stores rows
-- of Db that Buffer reads; Ingest reads Buffer and Channels and reports back with mark_consumed and
-- the channel's cursor; Proposals uses the admins and the member links of Channels.
--
-- Conventions. Times are microseconds as natural numbers, and a difference of times compared with a
-- bound is written with the bound added to the earlier time. An exception is a missing result
-- (none, or raised), with the state that it leaves. A stateful method takes the state and returns
-- it. A name with an id of the database is found as session.get or a select would find it, in the
-- order of the ids.
--
-- Bounds and fuel. run_drained makes at most max_drain_batches (100) rounds, as the code does:
-- enough for 100 full batches of messages. The retry loop runs once for each attempt that the job's
-- max_retries allows. A new thread tries one id more than there are threads and files. A decimal
-- number n is written with at most n + 1 digits. All other recursion is structural.
--
-- Parameters. YAML and pydantic's validation below parse_page (Reader in Threads/Page); whether a
-- page is still read once a key of its frontmatter is edited in the text (Accepts in
-- Threads/Moves): an edit that is accepted changes that key alone. The digest that makes a file's
-- revision, the letters of the regular expressions' \w, dates and times as texts, and the ids of
-- inbox items. The table of Unicode's lower case above ASCII; the HMAC digest; JSON with the
-- reading of an event; the clock; the models' answers (assign), the writes that ingestion and
-- proposals make to the wiki, and what is sent to WhatsApp, each a function on a world W that may
-- raise. The roster of a group and the list of channels are read through functions of the state.
--
-- Not modelled: the concurrency of the event loop beyond the order of the steps (each transaction
-- runs whole, so the IntegrityError that a second writer causes does not arise), the text of
-- replies and logs, the final sigma of str.lower, HTTP, and the parts that the components' list
-- leaves out: a YAML reader, the grammar of item lines, the models and their prompts,
-- observability, the CMS, and the prototypes of the innovation and research agents.
pub mod Prelude
pub mod Text
pub mod Scheduler
pub mod Access
pub mod Gateway
pub mod Ingest
pub mod Proposals
pub mod Vault
pub mod Wiki
pub mod Threads
pub mod Inbox
