-- ===== src/Threads/Samples.antt =====
-- A channel with a live thread, one that has ended, and a draft of another.
use the_watcher.Prelude.{
  ℕ, ◌≡◌, refl, Bool, true, none, some, List, [], ◌∷◌, ltb, nat_is_eq, list_is_eq,
}
use the_watcher.Prelude.Dict.{lookup}
use the_watcher.Text.{Text, codes, lower}
use the_watcher.Text.Slug.{slugify}
use the_watcher.Text.Samples.{same}
use the_watcher.Access.Resolver.{Channel, channel_dir, title_or_jid}
use the_watcher.Vault.{Vault}
use the_watcher.Threads.Page.{ThreadState, Front, Content, Reader, ThreadDraft, channel_page_path}
use the_watcher.Threads.Store.{Store, Done}
use the_watcher.Threads.Moves.{Accepts, archive_ended}
use the_watcher.Threads.Moves.Archive.{archive_ended_lem}
use the_watcher.Threads.Moves.Archive.Turn.{StillAt}
use the_watcher.Threads.Relocate.{relocate}
use the_watcher.Threads.Revise.{ThreadChange}
use the_watcher.Threads.Relocate.Laws.{EndsWell, relocate_lem}

abbrev is_letter : ℕ → Bool
is_letter c = ltb 96 c

abbrev digest : Content → Text
digest (Content.page p) = codes "page"
digest (Content.broken t) = codes "broken"

abbrev day : ℕ → Text
day n = codes "20260101"

abbrev design : Channel
design = record { jid = codes "1@g.us"; title = some (codes "Design"); kind = "project" }

-- An edit of a page that is refused for none.
abbrev any_edit : Accepts
any_edit page front = true

-- A time as a text of one character.
abbrev stamp : ℕ → Text
stamp n = n ∷ []

abbrev new_front : Front
new_front = Front.thread_front record {
  slug = codes "20260101-logo";
  channel = codes "Design";
  initiative = none;
  title = codes "Logo";
  state = ThreadState.active;
  opened_at = some 1;
  last_message_at = some 5;
  participants = [];
  message_ids = codes "m1" ∷ [];
  continues = none;
  summary_cursor = some (codes "m1");
  others = [];
}

-- A YAML that keeps the text, and a schema that reads each as the new thread.
abbrev reader : Reader
reader = record {
  Value = Text;
  load = λ text. some text;
  type_of = λ value. some "thread";
  validate = λ page_type value. some new_front;
}

abbrev thread_in : ThreadState → Text → Content
thread_in s slug = Content.page record {
  page_type = "thread";
  frontmatter = Front.thread_front record {
    slug = slug;
    channel = codes "Design";
    initiative = none;
    title = codes "Logo";
    state = s;
    opened_at = some 1;
    last_message_at = some 5;
    participants = [];
    message_ids = [];
    continues = none;
    summary_cursor = none;
    others = [];
  };
  preamble = codes "# Logo";
  sections = [];
}

abbrev logo_path : Text
logo_path = codes "channels/design/20260101-logo.md"

abbrev vault_with : ThreadState → Vault Content
vault_with s = record {
  files = (logo_path, thread_in s (codes "20260101-logo")) ∷ [];
  conflicts = [];
}

abbrev store_with : ThreadState → Store
store_with s = record {
  channel = design;
  initiative = none;
  live = none;
  archive = none;
  vault = vault_with s;
}

abbrev draft : ThreadDraft
draft = record {
  title = codes "Logo";
  summary = codes "A new one";
  items_body = [];
  timeline = [];
  participants = [];
  message_ids = codes "m1" ∷ [];
  opened_at = 1;
  last_message_at = 5;
}

archive_ended_example :
    (archived : List Text) × (after : Store) × (archive_ended same is_letter digest
        (store_with ThreadState.ended)
      ≡ Done.done archived after)
    × StillAt same is_letter digest design after.vault logo_path
        (thread_in ThreadState.ended (codes "20260101-logo"))
unfolding lookup
archive_ended_example =
    archive_ended_lem same is_letter digest (store_with ThreadState.ended) logo_path
      (thread_in ThreadState.ended (codes "20260101-logo")) refl refl

abbrev renamed : Channel
renamed = record { jid = codes "1@g.us"; title = some (codes "Brand"); kind = "project" }

relocate_example :
    EndsWell digest any_edit
      (title_or_jid renamed.title renamed.jid)
      (channel_dir same renamed)
      (channel_page_path same design)
      (vault_with ThreadState.active)
      (thread_in ThreadState.active (codes "20260101-logo"))
      (relocate same digest any_edit design renamed (vault_with ThreadState.active))
unfolding lookup channel_page_path channel_dir title_or_jid slugify lower
relocate_example =
    relocate_lem same digest any_edit design renamed (vault_with ThreadState.active) logo_path
      (thread_in ThreadState.active (codes "20260101-logo")) refl refl

abbrev change : ThreadChange
change = record {
  summary = codes "Green";
  items_body = [];
  timeline = codes "- Green it is" ∷ [];
  message_ids = codes "m2" ∷ [];
  participants = [];
  last_message_at = 9;
  title = none;
}
