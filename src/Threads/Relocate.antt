-- ===== src/Threads/Relocate.antt =====
-- `ThreadStore.relocate`: the pages of a channel follow its new title. `none` is the exception of a
-- channel page that cannot be parsed or whose title or slug cannot be set, which is raised before the
-- vault has changed.
pub mod Laws
use the_watcher.Prelude.{
  ℕ, ◌+◌, Bool, true, false, Option, none, some, List, [], ◌∷◌, ◌++◌, map, if◌then◌else◌, nat_eq,
  keep_if,
}
use the_watcher.Prelude.{◌==◌, nat_is_eq, list_is_eq}
use the_watcher.Text.{Text, codes, split_on}
use the_watcher.Access.Resolver.{Channel, channel_dir, title_or_jid}
use the_watcher.Wiki.Page.{Page}
use the_watcher.Vault.{Vault, Created}
use the_watcher.Vault as V
use the_watcher.Threads.Page.{Front, Content, channel_page_path, thread_dir, archive_dir}
use the_watcher.Threads.Store.{count_of}
use the_watcher.Threads.Moves.{Accepts, set_front}
use the_watcher.Threads.Revise.{then_page, set_title}

last_of : List Text → Text
last_of [] = []
last_of (p ∷ []) = p
last_of (p ∷ q ∷ ps) = last_of (q ∷ ps)

-- The pages of a directory, each with its path in the other one.
unfoldable pub moves_of : Vault Content → Text → Text → List (Text × Text)
unfolding last_of
moves_of v source target =
    map (λ path. (path, target ++ 47 ∷ last_of (split_on 47 path)))
      (keep_if (λ path. nat_eq (count_of 47 path) (count_of 47 source + 1)) (V.list source v))

pub with_slug : Text → Front → Front
with_slug slug (Front.thread_front m) = Front.thread_front (record m { slug = slug })
with_slug slug (Front.channel_front m) = Front.channel_front (record m { slug = slug })
with_slug slug Front.other_front = Front.other_front

-- The channel's page with its new title and slug; `none` is an edit that is refused.
unfoldable pub retitled_page : Accepts → Text → Text → Page Front → Option (Page Front)
unfolding with_slug
retitled_page accepts title slug page =
    then_page (set_title accepts title page)
      (λ titled. set_front accepts (with_slug slug titled.frontmatter) titled)

unfoldable pub content_of_page : Option (Page Front) → Option Content
content_of_page none = none
content_of_page (some page) = some (Content.page page)

unfoldable pub retitled_content : Accepts → Text → Text → Content → Option Content
retitled_content accepts title slug (Content.broken text) = none
retitled_content accepts title slug (Content.page page) =
    content_of_page (retitled_page accepts title slug page)

unfoldable pub after_copy : Text → List Text → Created × Vault Content → List Text × Vault Content
after_copy source left (Created.created revision, v) = (left, V.delete source v)
after_copy source left (Created.page_exists, v) = (left ++ source ∷ [], v)

module _ (hash : Content → Text) where
  unfoldable pub copy_found :
      Text → Text → List Text → Option Content → Vault Content → List Text × Vault Content
  copy_found source target left none v = (left, v)
  copy_found source target left (some content) v =
      after_copy source left (V.create hash target content v)

  unfoldable pub moved_all :
      List (Text × Text) → List Text → Vault Content → List Text × Vault Content
  moved_all [] left v = (left, v)
  moved_all ((source, target) ∷ moves) left v =
      let (next_left, next) = copy_found source target left (V.content_at source v) v in
      moved_all moves next_left next

  unfoldable pub moved_rest :
      Text
      → Text
      → List (Text × Text)
      → Option Content
      → Vault Content
      → Option (List Text × Vault Content)
  moved_rest source target moves none v = none
  moved_rest source target moves (some content) v =
      let (left, next) = copy_found source target [] (some content) v in
      some (moved_all moves left next)

  -- The channel's page is the first to move.
  unfoldable pub moved_from :
      Accepts
      → Text
      → Text
      → Text
      → Text
      → List (Text × Text)
      → Option Content
      → Vault Content
      → Option (List Text × Vault Content)
  moved_from accepts title slug source target moves none v = some (moved_all moves [] v)
  moved_from accepts title slug source target moves (some content) v =
      moved_rest source target moves (retitled_content accepts title slug content) v

module _ (fold : ℕ → Text) (hash : Content → Text) where
  -- `relocate`: the paths left behind, and the vault.
  unfoldable pub relocate :
      Accepts → Channel → Channel → Vault Content → Option (List Text × Vault Content)
  relocate accepts old new v =
      let moves =
        moves_of v (thread_dir fold old) (thread_dir fold new)
        ++ moves_of v (archive_dir fold old) (archive_dir fold new) in
      let source = channel_page_path fold old in
      let moved =
        moved_from hash accepts (title_or_jid new.title new.jid) (channel_dir fold new) source
          (channel_page_path fold new) moves (V.content_at source v) v in
      if channel_dir fold old == channel_dir fold new then some ([], v) else moved
