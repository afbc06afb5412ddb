-- ===== src/Vault/Laws.antt =====
-- The contract of a vault: what each call answers, and what it does to each path.
use the_watcher.Prelude.{Bool, true, false, contains, ◌&&◌}
use the_watcher.Text.Search.{starts_with}
use the_watcher.Prelude.{◌≡◌, Option, none, some, List, [], ◌∷◌, arith, if◌then◌else◌}
use the_watcher.Prelude.{◌==◌, nat_is_eq, list_is_eq, list_eq_iff}
use the_watcher.Prelude.Dict.{Dict, lookup}
use the_watcher.Text.{Text}
use the_watcher.Vault.{
  list, is_page_below, notes_dir, Vault, Created, Wrote, without, with_revision, read, create,
  write, delete,
}

-- The content at a path: what a vault means.
abbrev pub at : {C : Type 0} → Text → Vault C → Option C
at path v = lookup path v.files

pub lookup-without :
    {C : Type 0} (path p : Text) (files : Dict Text C)
    → lookup p (without path files) ≡ (if path == p then none else lookup p files)
unfolding lookup without
lookup-without path p [] = ground arith
lookup-without path p ((q, c) ∷ files) =
    ground
      (arith, lookup-without path p files, list_eq_iff q path, list_eq_iff q p, list_eq_iff path p)

pub at-delete :
    {C : Type 0} (path p : Text) (v : Vault C)
    → at p (delete path v) ≡ (if path == p then none else at p v)
unfolding delete
at-delete path p v = lookup-without path p v.files

-- The calls of a client.
pub data Call (C : Type 0) : Type 0 where
  reads : Text → Call C
  creates : Text → C → Call C
  writes : Text → C → Text → Call C
  deletes : Text → Call C
  lists : Text → Call C

-- An answer; of a list, which paths are on it.
pub data Answer (C : Type 0) : Type 0 where
  was_read : Option (C × Text) → Answer C
  was_created : Created → Answer C
  was_written : Wrote → Answer C
  was_deleted : Answer C
  was_listed : (Text → Bool) → Answer C

-- A wiki with no more than its pages: a function from paths.
abbrev pub Pages : Type 0 → Type 0
Pages C = Text → Option C

-- The path that a call is about is no note of a refused write.
abbrev pub IsOutsideNotes : {C : Type 0} → Call C → Type 0
IsOutsideNotes (Call.reads path) = starts_with notes_dir path ≡ false
IsOutsideNotes (Call.creates path content) = starts_with notes_dir path ≡ false
IsOutsideNotes (Call.writes path content base) = starts_with notes_dir path ≡ false
IsOutsideNotes (Call.deletes path) = starts_with notes_dir path ≡ false
IsOutsideNotes (Call.lists prefix) = starts_with notes_dir prefix ≡ false

abbrev pub put : {C : Type 0} → Text → Option C → Pages C → Pages C
put path o pages p = if path == p then o else pages p

module _ {C : Type 0} (hash : C → Text) (as_read : C → C) where
  unfoldable pub answer : Call C → Vault C → Answer C × Vault C
  answer (Call.reads path) v = (Answer.was_read (read hash as_read path v), v)
  answer (Call.creates path content) v =
      let (result, after) = create hash path content v in (Answer.was_created result, after)
  answer (Call.writes path content base) v =
      let (result, after) = write hash as_read path content base v in
      (Answer.was_written result, after)
  answer (Call.deletes path) v = (Answer.was_deleted, delete path v)
  answer (Call.lists prefix) v = (Answer.was_listed (contains (list prefix v)), v)

  unfoldable pub answers : List (Call C) → Vault C → List (Answer C) × Vault C
  answers [] v = ([], v)
  answers (call ∷ calls) v =
      let (first, after) = answer call v in
      let (rest, last) = answers calls after in (first ∷ rest, last)

  -- The contract: a page that is there is not created again.
  abbrev promised_create : Text → C → Option C → Pages C → Answer C × Pages C
  promised_create path content none pages =
      (Answer.was_created (Created.created (hash content)), put path (some content) pages)
  promised_create path content (some old) pages = (Answer.was_created Created.page_exists, pages)

  -- A page is only written over the revision that it has; a page that is not there has none.
  abbrev promised_write : Text → C → Text → Option C → Pages C → Answer C × Pages C
  promised_write path content [] o pages = (Answer.was_written Wrote.no_base, pages)
  promised_write path content (c ∷ base) none pages = (Answer.was_written Wrote.conflict, pages)
  promised_write path content (c ∷ base) (some old) pages =
      if (c ∷ base) == hash (as_read old)
      then (Answer.was_written (Wrote.wrote (hash content)), put path (some content) pages)
      else (Answer.was_written Wrote.conflict, pages)

  abbrev is_there : Option C → Bool
  is_there none = false
  is_there (some c) = true

  unfoldable pub promised : Call C → Pages C → Answer C × Pages C
  promised (Call.reads path) pages =
      (Answer.was_read (with_revision hash as_read (pages path)), pages)
  promised (Call.creates path content) pages = promised_create path content (pages path) pages
  promised (Call.writes path content base) pages =
      promised_write path content base (pages path) pages
  promised (Call.deletes path) pages = (Answer.was_deleted, put path none pages)
  promised (Call.lists prefix) pages =
      (Answer.was_listed (λ p. is_page_below prefix p && is_there (pages p)), pages)

  unfoldable pub promised_all : List (Call C) → Pages C → List (Answer C) × Pages C
  promised_all [] pages = ([], pages)
  promised_all (call ∷ calls) pages =
      let (first, after) = promised call pages in
      let (rest, last) = promised_all calls after in (first ∷ rest, last)

  abbrev pub meaning : Vault C → Pages C
  meaning v p = at p v

  -- An answer and the pages it leaves.
  abbrev pub seen {ℓ} : {A : Type ℓ} → A × Vault C → A × Pages C
  seen (a, v) = (a, meaning v)

  abbrev before_rest : Answer C → List (Answer C) × Pages C → List (Answer C) × Pages C
  before_rest a (rest, pages) = (a ∷ rest, pages)

  abbrev then_promised : List (Call C) → Answer C × Pages C → List (Answer C) × Pages C
  then_promised calls (a, pages) = before_rest a (promised_all calls pages)
