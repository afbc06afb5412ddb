-- ===== src/Threads/Create/Laws.antt =====
-- A new thread finds a free id, and its page lands on no page.
use the_watcher.Prelude.{ℕ, ◌≡◌, ◌⊎◌, Bool, false, Option, none, some, if◌then◌else◌}
use the_watcher.Prelude.{◌==◌, nat_is_eq, list_is_eq, contains}
use the_watcher.Prelude.Dict.{insert, lookup}
use the_watcher.Text.{Text}
use the_watcher.Vault.Laws.{at}
use the_watcher.Threads.Page.{Content, Reader, ThreadDraft, thread_dir}
use the_watcher.Threads.Store.{StoredThread, Store, Failure, Done, to_thread, live_of, archive_of}
use the_watcher.Threads.Create.{page_at, mint, base_id, taken_slugs, rendered, tries, create}
use the_watcher.Threads.Create.Minting.{Takes}

module _ (fold : ℕ → Text) (is_word : ℕ → Bool) (hash : Content → Text) (reader : Reader)
    (stamp day : ℕ → Text) where
  abbrev path_of : Store → Text → Text
  path_of s slug = page_at (thread_dir fold s.channel) slug

  -- Where the page of a new thread lands: at an id that no thread had, on no page, and with every
  -- other page as it was.
  abbrev pub LandsOn : ThreadDraft → Store → Text → Store → Type 0
  LandsOn draft s slug after =
      (contains (taken_slugs fold is_word hash s) slug ≡ false)
      × (at (path_of s slug) s.vault ≡ none)
      × ((p : Text)
          → at p after.vault ≡ (
              if path_of s slug == p
              then some (rendered reader stamp s draft slug)
              else at p s.vault))

  -- What the page of a new thread is read as: the thread, or none.
  abbrev pub read_back : ThreadDraft → Store → Text → Option StoredThread
  read_back draft s slug =
      to_thread fold is_word (path_of s slug) (rendered reader stamp s draft slug)
        (hash (rendered reader stamp s draft slug)) false

  -- The answer of `create`: the thread that its page is read as, kept as a live one, or the failed
  -- assertion where the page is read as none.
  abbrev pub AnswersRead : ThreadDraft → Store → Text → Store → Type 0
  AnswersRead draft s slug after =
      ((t : StoredThread) × (create fold is_word hash reader stamp day draft s ≡ Done.done t after)
        × (read_back draft s slug ≡ some t)
        × (lookup slug (live_of fold is_word hash after) ≡ some t))
      ⊎ ((create fold is_word hash reader stamp day draft s
            ≡ Done.failed Failure.assertion_error after)
          × (read_back draft s slug ≡ none))

  abbrev Minted : ThreadDraft → Store → Text → Type 0
  Minted draft s slug =
      Takes hash (base_id fold day draft) (thread_dir fold s.channel)
        (taken_slugs fold is_word hash s) (rendered reader stamp s draft) s.vault
        (mint hash (base_id fold day draft) (thread_dir fold s.channel)
          (taken_slugs fold is_word hash s) (rendered reader stamp s draft)
          (tries fold is_word hash s) 1 s.vault)
        slug

  -- The store with the new page, and its folders read.
  abbrev landed : ThreadDraft → Store → Text → Store
  landed draft s slug = record s {
    vault = record s.vault {
      files = insert (path_of s slug) (rendered reader stamp s draft slug) s.vault.files;
    };
    live = some (live_of fold is_word hash s);
    archive = some (archive_of fold is_word hash s);
  }
