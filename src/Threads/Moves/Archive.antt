-- ===== src/Threads/Moves/Archive.antt =====
-- Archiving loses nothing: what stood at a path stands there still, or in the archive.
pub mod Turn
use mathlib.Core.Path.{subst}
use the_watcher.Prelude.{
  ℕ, suc, ◌+◌, ◌≤◌, ◌≡◌, ◌≢◌, refl, ap, sym, ◌∙◌, ◌⊎◌, inl, inr, arith, Bool, true, false, Option,
  none, some, List, [], ◌∷◌, ◌++◌, if◌then◌else◌,
}
use the_watcher.Prelude.{
  ◌==◌, nat_is_eq, list_is_eq, list_eq_iff, ==_refl, All, All-map_of, contains, keep_if, Bool-cases,
}
use the_watcher.Prelude.Dict.{values, insert, lookup-insert}
use the_watcher.Text.{Text, codes}
use the_watcher.Text.Order.{sort_by}
use the_watcher.Access.Resolver.{Channel, channel_dir}
use the_watcher.Vault.{Vault, Created, with_revision, without, create_found}
use the_watcher.Vault as V
use the_watcher.Vault.Laws.{at, at-delete}
use the_watcher.Threads.Page.{ThreadState, Content, thread_dir, archive_dir}
use the_watcher.Threads.Equal.{content_is_eq, state_is_eq}
use the_watcher.Threads.Store.{
  StoredThread, Store, Done, bind, by_slug, count_of, in_order, in_states, live_of, with_live,
  threads,
}
use the_watcher.Threads.Store.Laws.{
  All-sort_by, All-keep_if_both, IsPageOf, to_thread-IsPageOf, IsLoaded-live_of, count_of-append,
  IsLoaded,
}
use the_watcher.Threads.Create.{page_at}
use the_watcher.Threads.Moves.{
  add_archived, moved_thread, moved_to_equal, archived_at, archive_one, archive_then, archive_from,
  archive_ended,
}
use the_watcher.Threads.Moves.Archive.Turn.{
  two_slashes, Ends, ends_one, StillAt, Movable, content_after_move, Movable-after, then_still,
}

module _ (fold : ℕ → Text) (is_word : ℕ → Bool) (hash : Content → Text) where
  -- The loop from `ts` on keeps a content.
  abbrev Keeps : Channel → List StoredThread → Content → Type 0
  Keeps ch ts c =
      (archived : List Text) (s : Store) (p : Text)
      → s.channel ≡ ch
      → All (Movable fold is_word hash ch s.vault) ts
      → at p s.vault ≡ some c
      → StillAt fold is_word hash ch (archive_from fold is_word hash ts archived s).1.vault p c

  still_then :
      (ch : Channel) (t : StoredThread) (ts : List StoredThread) (c : Content)
      (archived : List Text) (s : Store) (p : Text)
      → Keeps ch ts c
      → (o : Option Store) → Ends fold is_word hash t (page_at (archive_dir fold ch) t.slug) s o
      → s.channel ≡ ch
      → All (Movable fold is_word hash ch s.vault) (t ∷ ts)
      → at p s.vault ≡ some c
      → StillAt fold is_word hash ch
          (archive_then o t archived (λ a next. archive_from fold is_word hash ts a next) s).1.vault
          p
          c
  unfolding archive_then
  still_then ch t ts c archived s p keeps none ends same m e = keeps archived s p same m.1 e
  still_then ch t ts c archived s p keeps (some after) (channel_kept, moves) same m e =
      let rest =
        All-map_of (Movable fold is_word hash ch s.vault) (Movable fold is_word hash ch after.vault)
          ts (λ u. Movable-after fold is_word hash ch t u s.vault after.vault moves) m.1 in
      let last = (archive_from fold is_word hash ts (archived ++ t.slug ∷ []) after).1.vault in
      then_still fold is_word hash ch after.vault last p c
        (λ q. keeps (archived ++ t.slug ∷ []) after q (channel_kept ∙ same) rest)
        (content_after_move fold is_word hash ch t s.vault after.vault p c m.0 moves e)

  ends_in :
      (ch : Channel) (t : StoredThread) (s : Store)
      → s.channel ≡ ch
      → Ends fold is_word hash t
          (page_at (archive_dir fold ch) t.slug)
          s
          (archive_one fold is_word hash t s)
  ends_in ch t s same =
      subst
        (λ x.
          Ends fold is_word hash t (page_at (archive_dir fold x) t.slug) s
            (archive_one fold is_word hash t s))
        same (ends_one fold is_word hash t s)

  still_after : (ch : Channel) (c : Content) (ts : List StoredThread) → Keeps ch ts c
  unfolding archive_from
  still_after ch c [] archived s p same m e = inl e
  still_after ch c (t ∷ ts) archived s p same m e =
      still_then ch t ts c archived s p (still_after ch c ts) (archive_one fold is_word hash t s)
        (ends_in ch t s same) same m e

  movable :
      (s : Store) (t : StoredThread)
      → IsLoaded fold is_word hash s.vault (count_of 47 (thread_dir fold s.channel) + 1) false t
      → contains (ThreadState.ended ∷ []) t.state ≡ true
      → Movable fold is_word hash s.channel s.vault t
  unfolding thread_dir archive_dir
  movable s t ((made, here), deep) w = (
    inl here,
    omega (
      arith,
      deep,
      count_of-append 47 (codes "channels/") (channel_dir fold s.channel),
      count_of-append 47 (codes "channels/archive/") (channel_dir fold s.channel),
      two_slashes,
    ),
    subst (λ x. IsPageOf (Content.page t.page) x t.slug)
        (ground (arith, state_is_eq.equals_iff ThreadState.ended t.state, w))
        (to_thread-IsPageOf fold is_word t.path t.page (hash (Content.page t.page)) t.archived t
          made),
  )

  Movable-in_states :
      (s : Store)
      → s.live ≡ none
      → All
          (Movable fold is_word hash s.channel s.vault)
          (sort_by by_slug (in_states fold is_word hash (ThreadState.ended ∷ []) s))
  unfolding in_states
  Movable-in_states s new =
      let Loaded =
        IsLoaded fold is_word hash s.vault (count_of 47 (thread_dir fold s.channel) + 1) false in
      let is_wanted : StoredThread → Bool = λ t. contains (ThreadState.ended ∷ []) t.state in
      let live = values (live_of fold is_word hash s) in
      All-sort_by by_slug (Movable fold is_word hash s.channel s.vault) (keep_if is_wanted live) (
        All-map_of (λ t. Loaded t × (is_wanted t ≡ true))
          (Movable fold is_word hash s.channel s.vault) (keep_if is_wanted live)
          (λ t (h, w). movable s t h w)
          (All-keep_if_both Loaded is_wanted live (IsLoaded-live_of fold is_word hash s new)))

  -- `archive_ended` on a new store ends, and loses no page: what a path of the vault held before, it
  -- holds after, or it is a thread's page whose frontmatter has the state `ended`, and it now stands
  -- in the archive under the id of its frontmatter.
  pub archive_ended_lem :
      (s : Store) (p : Text) (c : Content)
      → s.live ≡ none
      → at p s.vault ≡ some c
      → (archived : List Text) × (after : Store) × (archive_ended fold is_word hash s
          ≡ Done.done archived after)
        × StillAt fold is_word hash s.channel after.vault p c
  unfolding archive_ended bind threads in_order with_live
  archive_ended_lem s p c new e =
      let next = record s { live = some (live_of fold is_word hash s) } in
      let ts = sort_by by_slug (in_states fold is_word hash (ThreadState.ended ∷ []) s) in
      let (archived, after) = archive_from fold is_word hash ts [] next in
      (archived, after, refl, still_after s.channel c ts [] next p refl (Movable-in_states s new) e)
