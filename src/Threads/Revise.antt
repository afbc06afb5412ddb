-- ===== src/Threads/Revise.antt =====
-- The other writes of a thread store: `revise` puts new material on a thread, `ensure_channel_page`
-- and `reindex` keep the channel's page; and the daily pass over one
-- channel (agents/wa_agent/lifecycle.py). `date` writes a time as `%Y-%m-%d`.
pub mod Laws
use the_watcher.Prelude.{
  ℕ, Bool, true, false, ◌||◌, Option, none, some, List, [], ◌∷◌, ◌++◌, map, if◌then◌else◌,
}
use the_watcher.Prelude.{◌==◌, nat_is_eq, list_is_eq, string_is_eq}
use the_watcher.Prelude.Dict.{lookup, values}
use the_watcher.Text.{Text, codes, is_space, strip_if, split_on, join_with}
use the_watcher.Text.Search.{starts_with}
use the_watcher.Text.Order.{sort_by, sort_texts}
use the_watcher.Access.Resolver.{channel_dir, title_or_jid}
use the_watcher.Wiki.Page.{Page}
use the_watcher.Wiki.Editor.{set_fenced, append_lines}
use the_watcher.Vault.{whole, Vault, Created, Wrote}
use the_watcher.Vault as V
use the_watcher.Threads.Page.{
  ThreadState, Front, Content, Reader, read_as, channel_page_path, render_new_channel_page, unique,
}
use the_watcher.Threads.Equal.{state_is_eq}
use the_watcher.Threads.Store.{
  StoredThread, Store, Failure, Done, bind, by_slug, live_of, archive_of, with_live, with_archive,
  threads,
}
use the_watcher.Threads.Moves.{
  Accepts, set_front, set_state, in_state, index_line, save, save_edit, mark_stale, archive_ended,
}

pub record ThreadChange : Type 0 where
  pub summary : Text
  pub items_body : Text
  pub timeline : List Text
  pub message_ids : List Text
  pub participants : List Text
  pub last_message_at : ℕ
  pub title : Option Text

-- `re.sub(r"\s+", " ", t)`, after a character that was a space or not.
spaces_from : Bool → Text → Text
spaces_from after [] = []
spaces_from after (c ∷ t) =
    let space = spaces_from true t in
    let other = c ∷ spaces_from false t in
    if is_space c then (if after then space else 32 ∷ space) else other

pub one_line : Text → Text
one_line t = strip_if is_space (spaces_from false t)

-- A line that the pattern `^#[ \t]+.*$` matches, in a text without carriage returns.
abbrev is_title_line : Text → Bool
is_title_line line = starts_with (codes "# ") line || starts_with (35 ∷ 9 ∷ []) line

retitle_lines : Text → List Text → Option (List Text)
retitle_lines title [] = none
retitle_lines title (l ∷ ls) =
    let rest = retitle_lines title ls in
    if is_title_line l then some ((codes "# " ++ title) ∷ ls) else after_line l rest
  where
    after_line : Text → Option (List Text) → Option (List Text)
    after_line l none = none
    after_line l (some ls) = some (l ∷ ls)

or_put_first : Text → Text → Option (List Text) → Text
or_put_first title preamble none = codes "# " ++ title ++ 10 ∷ preamble
or_put_first title preamble (some lines) = join_with 10 lines

front_titled : Text → Front → Front
front_titled title (Front.thread_front m) = Front.thread_front (record m { title = title })
front_titled title (Front.channel_front m) = Front.channel_front (record m { title = title })
front_titled title Front.other_front = Front.other_front

unfoldable pub then_page :
    Option (Page Front) → (Page Front → Option (Page Front)) → Option (Page Front)
then_page none f = none
then_page (some page) f = f page

headed : Text → Page Front → Page Front
headed one page = record page {
  preamble = or_put_first one page.preamble (retitle_lines one (split_on 10 page.preamble));
}

-- `set_title`; `none` as for `set_field`.
pub set_title : Accepts → Text → Page Front → Option (Page Front)
set_title accepts title page =
    let one = one_line title in
    then_page (set_front accepts (front_titled one page.frontmatter) page)
      (λ edited. some (headed one edited))

unfoldable pub with_ids : ThreadChange → Front → Front
with_ids change (Front.thread_front m) =
    Front.thread_front (record m { message_ids = unique (m.message_ids ++ change.message_ids) })
with_ids change (Front.channel_front m) = Front.channel_front m
with_ids change Front.other_front = Front.other_front

unfoldable pub with_participants : ThreadChange → List Text → Front → Front
with_participants change participants (Front.thread_front m) =
    Front.thread_front
      (record m { participants = sort_texts (unique (participants ++ change.participants)) })
with_participants change participants (Front.channel_front m) = Front.channel_front m
with_participants change participants Front.other_front = Front.other_front

unfoldable pub with_last : ThreadChange → Front → Front
with_last change (Front.thread_front m) =
    Front.thread_front (record m { last_message_at = some change.last_message_at })
with_last change (Front.channel_front m) = Front.channel_front m
with_last change Front.other_front = Front.other_front

unfoldable pub retitled : Accepts → Option Text → StoredThread → Option (Page Front)
retitled accepts none t = some t.page
retitled accepts (some title) t =
    if title == t.title then some t.page else set_title accepts title t.page

-- The text of the pages in the order of their titles; `none` is a SectionOwnershipError.
module _ (fold : ℕ → Text) (is_word : ℕ → Bool) where
  unfoldable pub revised_page : Page Front → ThreadChange → Option (Page Front)
  revised_page page change =
      then_page (set_fenced fold is_word page (codes "Summary") change.summary) (λ a.
        then_page (set_fenced fold is_word a (codes "Items") change.items_body)
          (λ b. append_lines fold is_word b (codes "Timeline") change.timeline false))

  unfoldable pub indexed_page : List Text → List Text → List Text → Page Front → Option (Page Front)
  indexed_page active stale archived page =
      then_page (set_fenced fold is_word page (codes "Active threads") (join_with 10 active)) (λ a.
        then_page (set_fenced fold is_word a (codes "Stale threads") (join_with 10 stale))
          (λ b. set_fenced fold is_word b (codes "Archived threads") (join_with 10 archived)))

unfoldable pub revived : Accepts → ThreadState → Page Front → Option (Page Front)
revived accepts ThreadState.stale page = set_state accepts ThreadState.active page
revived accepts ThreadState.active page = some page
revived accepts ThreadState.ended page = some page

-- The fields of a revision, one after the other: the ids, the participants, the last message and,
-- for a stale thread, the state.
unfoldable pub with_change :
    Accepts → StoredThread → ThreadChange → Page Front → Option (Page Front)
with_change accepts t change page =
    then_page (set_front accepts (with_ids change page.frontmatter) page) (λ a.
      then_page (set_front accepts (with_participants change t.participants a.frontmatter) a) (λ b.
        then_page (set_front accepts (with_last change b.frontmatter) b)
          (λ c. revived accepts t.state c)))

abbrev is_stale : StoredThread → Bool
is_stale t = ThreadState.stale == t.state

module _ (fold : ℕ → Text) (is_word : ℕ → Bool) (hash : Content → Text) where
  unfoldable pub saved_revision :
      Accepts
      → StoredThread
      → Option (Page Front)
      → ThreadChange
      → Store
      → Done (StoredThread × Bool)
  saved_revision accepts t none change s = Done.failed Failure.ownership_error s
  saved_revision accepts t (some page) change s =
      bind (save_edit fold is_word hash t (with_change accepts t change page) s)
        (λ updated after. Done.done (updated, is_stale t) after)

  unfoldable pub revise_titled :
      Accepts
      → StoredThread
      → Option (Page Front)
      → ThreadChange
      → Store
      → Done (StoredThread × Bool)
  revise_titled accepts t none change s = Done.failed Failure.invalid_edit s
  revise_titled accepts t (some page) change s =
      saved_revision accepts t (revised_page fold is_word page change) change s

  unfoldable pub revise_found :
      Accepts → Option StoredThread → ThreadChange → Store → Done (StoredThread × Bool)
  revise_found accepts none change s = Done.failed Failure.key_error s
  revise_found accepts (some t) change s =
      revise_titled accepts t (retitled accepts change.title t) change s

  -- `revise`
  unfoldable pub revise : Accepts → Text → ThreadChange → Store → Done (StoredThread × Bool)
  revise accepts slug change s =
      revise_found accepts (lookup slug (live_of fold is_word hash s)) change
        (with_live fold is_word hash s)

  unfoldable pub ensured : Created × Vault Content → Store → Bool × Store
  ensured (Created.created revision, v) s = (true, record s { vault = v })
  ensured (Created.page_exists, v) s = (false, s)

  -- `ensure_channel_page`
  unfoldable pub ensure_channel_page : Reader → (ℕ → Text) → ℕ → Store → Bool × Store
  ensure_channel_page reader stamp now s =
      let content = read_as reader (
        render_new_channel_page stamp now (title_or_jid s.channel.title s.channel.jid)
          s.channel.kind (channel_dir fold s.channel) s.initiative) in
      ensured (V.create hash (channel_page_path fold s.channel) content s.vault) s

  unfoldable pub after_index : Wrote × Vault Content → Store → Done (Unit {0})
  after_index (Wrote.wrote revision, v) s = Done.done tt (record s { vault = v })
  after_index (Wrote.no_base, v) s = Done.failed Failure.no_revision (record s { vault = v })
  after_index (Wrote.conflict, v) s = Done.failed Failure.conflict_error (record s { vault = v })

  unfoldable pub write_index : Text → Text → Option (Page Front) → Store → Done (Unit {0})
  write_index path revision none s = Done.failed Failure.ownership_error s
  write_index path revision (some page) s =
      after_index (V.write hash whole path (Content.page page) revision s.vault) s

  unfoldable pub index_of : (ℕ → Text) → Text → Page Front → Text → Store → Done (Unit {0})
  index_of date path page revision s =
      bind (threads fold is_word hash (ThreadState.active ∷ []) "slug" s) (λ active a.
        bind (threads fold is_word hash (ThreadState.stale ∷ []) "slug" a) (λ stale b.
          write_index path revision
            (indexed_page fold is_word (map (index_line date) active) (map (index_line date) stale)
              (map (index_line date) (sort_by by_slug (values (archive_of fold is_word hash b))))
              page)
            (with_archive fold is_word hash b)))

  unfoldable pub reindex_found :
      (ℕ → Text) → Text → Option (Content × Text) → Store → Done (Unit {0})
  reindex_found date path none s = Done.done tt s
  reindex_found date path (some (Content.broken text, revision)) s =
      Done.failed Failure.unreadable_page s
  reindex_found date path (some (Content.page page, revision)) s =
      let indexed = index_of date path page revision s in
      if page.page_type == "channel" then indexed else Done.done tt s

  -- `reindex`
  unfoldable pub reindex : (ℕ → Text) → Store → Done (Unit {0})
  reindex date s =
      let path = channel_page_path fold s.channel in
      reindex_found date path (V.read hash whole path s.vault) s

  unfoldable pub reindex_if_any :
      (ℕ → Text) → List Text → List Text → Store → Done (List Text × List Text)
  reindex_if_any date [] [] s = Done.done ([], []) s
  reindex_if_any date (p ∷ stale) archived s =
      bind (reindex date s) (λ u after. Done.done (p ∷ stale, archived) after)
  reindex_if_any date [] (p ∷ archived) s =
      bind (reindex date s) (λ u after. Done.done ([], p ∷ archived) after)

  -- `run_lifecycle_for_channel`, of a new store: the ids marked stale and those archived.
  unfoldable pub run_lifecycle_for_channel :
      Accepts → (ℕ → Text) → ℕ → ℕ → Store → Done (List Text × List Text)
  run_lifecycle_for_channel accepts date now after s =
      bind (mark_stale fold is_word hash accepts now after s) (λ stale a.
        bind (archive_ended fold is_word hash a)
          (λ archived b. reindex_if_any date stale archived b))
