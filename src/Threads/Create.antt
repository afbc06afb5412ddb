-- ===== src/Threads/Create.antt =====
-- `ThreadStore.create`: a new thread takes the first of its ids that is free. `day` writes a time as
-- `%Y%m%d`. The loop runs on as many tries as there are ids and pages, and one more.
pub mod Minting
pub mod Laws
use the_watcher.Prelude.{
  ℕ, zero, suc, ◌+◌, String, Bool, true, false, ◌&&◌, ◌||◌, Option, none, some, List, [], ◌∷◌, ◌++◌,
  map, if◌then◌else◌, length,
}
use the_watcher.Prelude.{◌==◌, nat_is_eq, list_is_eq, contains}
use the_watcher.Prelude.Dict.{Dict, keys, insert}
use the_watcher.Text.{Text, codes}
use the_watcher.Text.Slug.{slugify}
use the_watcher.Vault.{Vault, Created}
use the_watcher.Vault as V
use the_watcher.Threads.Page.{
  Content, Reader, read_as, ThreadDraft, render_new_thread_page, thread_dir,
}
use the_watcher.Threads.Slugs.{candidate}
use the_watcher.Threads.Store.{
  StoredThread, Store, Failure, Done, to_thread, live_of, archive_of, with_live, with_archive,
}

unfoldable pub page_at : Text → Text → Text
page_at dir slug = dir ++ 47 ∷ (slug ++ codes ".md")

module _ (hash : Content → Text) (base dir : Text) (taken : List Text)
    (render : Text → Content) where
  unfoldable pub or_next :
      Text
      → Created × Vault Content
      → Option (Text × (Text × Vault Content))
      → Option (Text × (Text × Vault Content))
  or_next slug (Created.created revision, v) next = some (slug, (revision, v))
  or_next slug (Created.page_exists, v) next = next

  -- The loop, from a suffix on: the id that it takes, with the page's revision and the vault then.
  unfoldable pub mint : ℕ → ℕ → Vault Content → Option (Text × (Text × Vault Content))
  mint zero suffix v = none
  mint (suc fuel) suffix v =
      let slug = candidate base suffix in
      let next = mint fuel (suc suffix) v in
      if contains taken slug
      then next
      else or_next slug (V.create hash (page_at dir slug) (render slug) v) next

unfoldable pub base_id : (ℕ → Text) → (ℕ → Text) → ThreadDraft → Text
base_id fold day draft = day draft.opened_at ++ 45 ∷ slugify fold draft.title

-- The new page's text, as it is read.
unfoldable pub rendered : Reader → (ℕ → Text) → Store → ThreadDraft → Text → Content
rendered reader stamp s draft slug =
    read_as reader (render_new_thread_page stamp s.channel s.initiative slug draft)

module _ (fold : ℕ → Text) (is_word : ℕ → Bool) (hash : Content → Text) where
  -- `_taken_slugs`
  unfoldable pub taken_slugs : Store → List Text
  taken_slugs s = keys (live_of fold is_word hash s) ++ keys (archive_of fold is_word hash s)

  unfoldable pub tries : Store → ℕ
  tries s = suc (length (taken_slugs s) + length (keys s.vault.files))

  unfoldable pub keep_created : Text → Option StoredThread → Store → Done StoredThread
  keep_created slug none s = Done.failed Failure.assertion_error s
  keep_created slug (some t) s =
      Done.done t (record s { live = some (insert slug t (live_of fold is_word hash s)) })

  unfoldable pub created_as :
      (Text → Content) → Store → Option (Text × (Text × Vault Content)) → Done StoredThread
  created_as render s none = Done.failed Failure.no_free_id s
  created_as render s (some (slug, (revision, v))) =
      keep_created slug
        (to_thread fold is_word (page_at (thread_dir fold s.channel) slug) (render slug) revision
          false)
        (record s { vault = v })

  -- `create`
  unfoldable pub create : Reader → (ℕ → Text) → (ℕ → Text) → ThreadDraft → Store → Done StoredThread
  create reader stamp day draft s =
      let read = with_archive fold is_word hash (with_live fold is_word hash s) in
      created_as (rendered reader stamp s draft) read (
        mint hash (base_id fold day draft) (thread_dir fold s.channel) (taken_slugs s)
          (rendered reader stamp s draft) (tries s) 1 s.vault)
