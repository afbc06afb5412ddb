-- ===== src/Threads/Moves/Stale.antt =====
-- What the daily pass may mark as stale, whether it ends or raises.
use the_watcher.Prelude.{ℕ, ◌≡◌, ◌⊎◌, Bool, true, some}
use the_watcher.Prelude.{nat_is_eq, list_is_eq}
use the_watcher.Text.{Text}
use the_watcher.Vault.{Vault}
use the_watcher.Vault.Laws.{at}
use the_watcher.Threads.Page.{ThreadState, Content}
use the_watcher.Threads.Store.{StoredThread, Store}
use the_watcher.Threads.Store.Laws.{Stored}
use the_watcher.Threads.Moves.{in_state, is_silent}

module _ (fold : ℕ → Text) (is_word : ℕ → Bool) (hash : Content → Text) where
  -- A path of the vault after the pass: as before, or a thread that was active and silent.
  abbrev pub MarkedOnly : ℕ → ℕ → Vault Content → Vault Content → Text → Type 0
  MarkedOnly now after before v p =
      (at p v ≡ at p before)
      ⊎ ((t : StoredThread) × Stored fold is_word hash before t
          × (t.path ≡ p)
          × (t.state ≡ ThreadState.active)
          × (is_silent now after t.last_message_at ≡ true)
          × (at p v ≡ some (Content.page (in_state ThreadState.stale t.page))))

  abbrev Active : Vault Content → StoredThread → Type 0
  Active before t = Stored fold is_word hash before t × (t.state ≡ ThreadState.active)
