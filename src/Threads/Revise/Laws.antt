-- ===== src/Threads/Revise/Laws.antt =====
-- What a revision of a thread writes, and when it raises.
use the_watcher.Prelude.{ℕ, ◌≡◌, ◌⊎◌, Bool, Option, none, some, List, ◌++◌}
use the_watcher.Prelude.{nat_is_eq, list_is_eq}
use the_watcher.Prelude.Dict.{lookup}
use the_watcher.Text.{Text}
use the_watcher.Wiki.Page.{Page}
use the_watcher.Vault.Laws.{at}
use the_watcher.Threads.Page.{ThreadState, ThreadMeta, Front, Content, unique}
use the_watcher.Threads.Store.{StoredThread, Store, live_of}
use the_watcher.Threads.Moves.{Accepts}
use the_watcher.Threads.Revise.{
  ThreadChange, revised_page, with_ids, with_participants, with_last, with_change, retitled,
}

-- The state that a page is left with, if its thread was in the first state and it in the second.
abbrev pub state_after : ThreadState → ThreadState → ThreadState
state_after ThreadState.stale old = ThreadState.active
state_after ThreadState.active old = old
state_after ThreadState.ended old = old

-- The frontmatter that a revision leaves: a thread's ids are those that it had, then the new ones.
abbrev pub Revised : ThreadState → ThreadChange → Front → Front → Type 0
Revised old change (Front.thread_front m) front =
    (n : ThreadMeta) × (front ≡ Front.thread_front n)
    × (n.slug ≡ m.slug)
    × (n.message_ids ≡ unique (m.message_ids ++ change.message_ids))
    × (n.last_message_at ≡ some change.last_message_at)
    × (n.state ≡ state_after old m.state)
Revised old change (Front.channel_front m) front = Unit
Revised old change Front.other_front front = Unit

-- A page that a revision leaves, where its edits are accepted.
abbrev IsRevision : ThreadState → ThreadChange → Front → Option (Page Front) → Type 0
IsRevision old change front none = Unit
IsRevision old change front (some page) = Revised old change front page.frontmatter

abbrev with_material : ThreadChange → List Text → Front → Front
with_material change participants front =
    with_last change (with_participants change participants (with_ids change front))

module _ (fold : ℕ → Text) (is_word : ℕ → Bool) (hash : Content → Text) (accepts : Accepts) where
  -- The path of the vault holds what it held, or it is the thread's, with the revised page.
  abbrev pub RevisedOnly : Text → ThreadChange → Store → Store → Text → Type 0
  RevisedOnly slug change s after p =
      (at p after.vault ≡ at p s.vault)
      ⊎ ((t : StoredThread) × (titled : Page Front) × (page : Page Front) × (next : Page Front)
          × (lookup slug (live_of fold is_word hash s) ≡ some t)
          × (retitled accepts change.title t ≡ some titled)
          × (revised_page fold is_word titled change ≡ some page)
          × (with_change accepts t change page ≡ some next)
          × (t.path ≡ p)
          × Revised t.state change page.frontmatter next.frontmatter
          × (at p after.vault ≡ some (Content.page next)))
