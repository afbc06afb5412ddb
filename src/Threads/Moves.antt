-- ===== src/Threads/Moves.antt =====
-- How threads move through their states: `_write`, `mark_stale`, `archive_ended`, `reindex` and
-- `ensure_channel_page` of shared/wiki/threads.py, and the daily pass of one channel.
pub mod Archive
pub mod Writes
pub mod Stale
use the_watcher.Prelude.{
  ℕ, zero, suc, ◌+◌, String, Bool, true, false, not, ◌&&◌, ◌||◌, Option, none, some, List, [], ◌∷◌,
  ◌++◌, map, if◌then◌else◌, ltb,
}
use the_watcher.Prelude.{◌==◌, nat_is_eq, list_is_eq, string_is_eq}
use the_watcher.Prelude.Dict.{Dict, insert, values}
use the_watcher.Text.{Text, codes, is_empty, join_with}
use the_watcher.Text.Order.{sort_by}
use the_watcher.Text.Search.{ends_with}
use the_watcher.Access.Resolver.{Channel, channel_dir, title_or_jid}
use the_watcher.Wiki.Page.{Page}
use the_watcher.Wiki.Editor.{set_fenced}
use the_watcher.Vault.{whole, Vault, Created, Wrote, without}
use the_watcher.Vault as V
use the_watcher.Threads.Page.{
  ThreadState, Front, Content, archive_dir, channel_page_path, render_new_channel_page,
}
use the_watcher.Threads.Equal.{content_is_eq}
use the_watcher.Threads.Store.{
  StoredThread, Store, Failure, Done, bind, by_slug, to_thread, add_thread, live_of, archive_of,
  with_live, threads,
}
use the_watcher.Threads.Create.{page_at}

unfoldable pub front_in : ThreadState → Front → Front
front_in to (Front.thread_front m) = Front.thread_front (record m { state = to })
front_in to (Front.channel_front m) = Front.channel_front m
front_in to Front.other_front = Front.other_front

-- Whether the page is still read, with this frontmatter, once one of its keys is edited in the text.
abbrev pub Accepts : Type 0
Accepts = Page Front → Front → Bool

-- `set_field`; `none` is an InvalidPageEdit, or an error of the YAML.
unfoldable pub set_front : Accepts → Front → Page Front → Option (Page Front)
set_front accepts front page =
    if accepts page front then some (record page { frontmatter = front }) else none

-- The page in a state.
unfoldable pub in_state : ThreadState → Page Front → Page Front
in_state to page = record page { frontmatter = front_in to page.frontmatter }

-- `set_field(page, "state", ...)`
unfoldable pub set_state : Accepts → ThreadState → Page Front → Option (Page Front)
set_state accepts to page = set_front accepts (front_in to page.frontmatter) page

-- `now - last_message_at >= after`, for a thread that has a last message.
unfoldable pub is_silent : ℕ → ℕ → Option ℕ → Bool
is_silent now after none = false
is_silent now after (some last) = not (ltb now (last + after))

removesuffix : Text → Text → Text
removesuffix end [] = []
removesuffix end (c ∷ t) = let rest = removesuffix end t in if (c ∷ t) == end then [] else c ∷ rest

dated : (ℕ → Text) → Option ℕ → Text
dated date none = []
dated date (some last) = codes " — last " ++ date last

-- `_index_line`; `date` writes a time as `%Y-%m-%d`.
pub index_line : (ℕ → Text) → StoredThread → Text
index_line date t =
    codes "- [["
    ++ removesuffix (codes ".md") t.path
    ++ codes "|"
    ++ t.title
    ++ codes "]]"
    ++ dated date t.last_message_at

unfoldable pub archive_then :
    Option Store
    → StoredThread
    → List Text
    → (List Text → Store → List Text × Store)
    → Store
    → List Text × Store
archive_then none t archived next s = next archived s
archive_then (some after) t archived next s = next (archived ++ t.slug ∷ []) after

module _ (fold : ℕ → Text) (is_word : ℕ → Bool) (hash : Content → Text) where
  unfoldable pub put_live : Option StoredThread → Store → Done StoredThread
  put_live none s = Done.failed Failure.assertion_error s
  put_live (some t) s =
      Done.done t (record s { live = some (insert t.slug t (live_of fold is_word hash s)) })

  unfoldable pub after_save : Text → Content → Wrote × Vault Content → Store → Done StoredThread
  after_save path content (Wrote.wrote revision, v) s =
      put_live (to_thread fold is_word path content revision false) (record s { vault = v })
  after_save path content (Wrote.no_base, v) s =
      Done.failed Failure.no_revision (record s { vault = v })
  after_save path content (Wrote.conflict, v) s =
      Done.failed Failure.conflict_error (record s { vault = v })

  -- `_write`
  unfoldable pub save : StoredThread → Page Front → Store → Done StoredThread
  save t page s =
      after_save t.path (Content.page page)
        (V.write hash whole t.path (Content.page page) t.revision s.vault) s

  -- The page, where its edit was not refused.
  unfoldable pub save_edit : StoredThread → Option (Page Front) → Store → Done StoredThread
  save_edit t none s = Done.failed Failure.invalid_edit s
  save_edit t (some page) s = save t page s

  unfoldable pub mark_from :
      Accepts → ℕ → ℕ → List StoredThread → List Text → Store → Done (List Text)
  mark_from accepts now after [] marked s = Done.done marked s
  mark_from accepts now after (t ∷ ts) marked s =
      let loud = mark_from accepts now after ts marked s in
      let silent =
        bind (save_edit t (set_state accepts ThreadState.stale t.page) s)
          (λ u next. mark_from accepts now after ts (marked ++ t.slug ∷ []) next) in
      if is_silent now after t.last_message_at then silent else loud

  -- `mark_stale`
  unfoldable pub mark_stale : Accepts → ℕ → ℕ → Store → Done (List Text)
  mark_stale accepts now after s =
      bind (threads fold is_word hash (ThreadState.active ∷ []) "slug" s)
        (λ ts next. mark_from accepts now after ts [] next)

  unfoldable pub add_archived : Option StoredThread → Store → Store
  add_archived none s = s
  add_archived (some t) s = record s {
    archive = some (insert t.slug t (archive_of fold is_word hash s));
  }

  -- The page is at its target; the one that it came from goes.
  unfoldable pub moved_thread : StoredThread → Text → Text → Store → Store
  moved_thread t target revision s =
      add_archived (to_thread fold is_word target (Content.page t.page) revision true) (record s {
        vault = V.delete t.path s.vault;
        live = some (
            without t.slug
              (live_of fold is_word hash (record s { vault = V.delete t.path s.vault })));
      })

  -- Nothing, where another page is at the target.
  unfoldable pub moved_to_equal :
      StoredThread → Text → Option (Content × Text) → Store → Option Store
  moved_to_equal t target none s = none
  moved_to_equal t target (some (existing, revision)) s =
      if existing == Content.page t.page then some (moved_thread t target revision s) else none

  unfoldable pub archived_at : StoredThread → Text → Created × Vault Content → Store → Option Store
  archived_at t target (Created.created revision, v) s =
      some (moved_thread t target revision (record s { vault = v }))
  archived_at t target (Created.page_exists, v) s =
      moved_to_equal t target (V.read hash whole target s.vault) s

  unfoldable pub archive_one : StoredThread → Store → Option Store
  archive_one t s =
      let target = page_at (archive_dir fold s.channel) t.slug in
      archived_at t target (V.create hash target (Content.page t.page) s.vault) s

  unfoldable pub archive_from : List StoredThread → List Text → Store → List Text × Store
  archive_from [] archived s = (archived, s)
  archive_from (t ∷ ts) archived s =
      archive_then (archive_one t s) t archived (λ a next. archive_from ts a next) s

  -- `archive_ended`
  unfoldable pub archive_ended : Store → Done (List Text)
  archive_ended s =
      bind (threads fold is_word hash (ThreadState.ended ∷ []) "slug" s)
        (λ ts next. let (archived, after) = archive_from ts [] next in Done.done archived after)
