-- ===== src/Vault.antt =====
-- The store of pages: LocalDirClient of shared/wiki/lapis_client.py, which keeps the contract of
-- every VaultClient. A file holds a content of a type `C`; `hash` is the digest that makes its
-- revision, `as_read` is what `read_text` makes of a file (it turns carriage returns into newlines),
-- and the empty text is the revision of no file. The notes of refused writes, which the code keeps
-- under `.sync-conflicts`, stand apart from the files. A path is the text that names a file: it has
-- no empty segment and no dots, by which two texts could name one file.
pub mod Laws
mod Samples
use the_watcher.Prelude.{
  ℕ, nat_eq, Bool, true, false, not, ◌&&◌, Option, none, some, List, [], ◌∷◌, ◌++◌, if◌then◌else◌,
}
use the_watcher.Prelude.{◌==◌, nat_is_eq, list_is_eq, option_is_eq, keep_if, contains}
use the_watcher.Prelude.Dict.{Dict, keys, lookup, insert}
use the_watcher.Text.{Text, codes, split_on}
use the_watcher.Text.Search.{starts_with, ends_with}
use the_watcher.Text.Order.{sort_texts}

-- A note of a write that was refused.
pub record ConflictNote (C : Type 0) : Type 0 where
  pub path : Text
  pub attempted : C

pub record Vault (C : Type 0) : Type 0 where
  pub files : Dict Text C
  pub conflicts : List (ConflictNote C)

pub data Created : Type 0 where
  created : Text → Created
  page_exists : Created

pub data Wrote : Type 0 where
  wrote : Text → Wrote
  no_base : Wrote
  conflict : Wrote

unfoldable pub without : {C : Type 0} → Text → Dict Text C → Dict Text C
without path [] = []
without path ((p, c) ∷ files) =
    let rest = without path files in if p == path then rest else (p, c) ∷ rest

-- The content at a path.
unfoldable pub content_at : {C : Type 0} → Text → Vault C → Option C
content_at path v = lookup path v.files

-- A client that reads what was written: a file without carriage returns.
abbrev pub whole : {C : Type 0} → C → C
whole c = c

-- `Path.read_text`: a carriage return is read as a newline, with the newline after it.
abbrev pub after_return : Text → Text → Text
after_return [] rest = 10 ∷ rest
after_return (c ∷ t) rest = if nat_eq c 10 then rest else 10 ∷ rest

abbrev pub read_text : Text → Text
read_text [] = []
read_text (c ∷ t) = let rest = read_text t in if nat_eq c 13 then after_return t rest else c ∷ rest

module _ {C : Type 0} (hash : C → Text) where
  unfoldable pub create_found : Text → C → Option C → Vault C → Created × Vault C
  create_found path content (some old) v = (Created.page_exists, v)
  create_found path content none v =
      (Created.created (hash content), record v { files = insert path content v.files })

  unfoldable pub create : Text → C → Vault C → Created × Vault C
  create path content v = create_found path content (lookup path v.files) v

module _ {C : Type 0} (hash : C → Text) (as_read : C → C) where
  unfoldable pub with_revision : Option C → Option (C × Text)
  with_revision none = none
  with_revision (some content) = some (as_read content, hash (as_read content))

  -- `read_if_exists`
  unfoldable pub read : Text → Vault C → Option (C × Text)
  read path v = with_revision (lookup path v.files)

  unfoldable pub current_revision : Option C → Text
  current_revision none = []
  current_revision (some content) = hash (as_read content)

  unfoldable pub write_nonempty : Text → C → Text → Vault C → Wrote × Vault C
  write_nonempty path content base v =
      if base == current_revision (lookup path v.files)
      then (Wrote.wrote (hash content), record v { files = insert path content v.files })
      else (
        Wrote.conflict,
        record v { conflicts = v.conflicts ++ record { path = path; attempted = content } ∷ [] },
      )

  unfoldable pub write : Text → C → Text → Vault C → Wrote × Vault C
  write path content [] v = (Wrote.no_base, v)
  write path content (c ∷ base) v = write_nonempty path content (c ∷ base) v

unfoldable pub delete : {C : Type 0} → Text → Vault C → Vault C
delete path v = record v { files = without path v.files }

-- The root is below every path.
unfoldable pub is_below : Text → Text → Bool
is_below [] path = true
is_below (c ∷ prefix) path = starts_with ((c ∷ prefix) ++ 47 ∷ []) path

abbrev pub notes_dir : Text
notes_dir = codes ".sync-conflicts"

unfoldable pub is_page_below : Text → Text → Bool
is_page_below prefix path =
    is_below prefix path
    && ends_with path (codes ".md")
    && not (contains (split_on 47 path) notes_dir)

-- The paths of pages below a directory, sorted.
unfoldable pub list : {C : Type 0} → Text → Vault C → List Text
list prefix v = sort_texts (keep_if (λ path. is_page_below prefix path) (keys v.files))
