-- ===== src/Vault/Samples.antt =====
-- A vault with no page, and calls on one page of it.
use the_watcher.Prelude.{List, [], ◌∷◌}
use the_watcher.Text.{Text, codes}
use the_watcher.Vault.{Vault}
use the_watcher.Vault.Laws.{Call}

abbrev tagged : Text → Text
tagged t = 49 ∷ t

abbrev empty_vault : Vault Text
empty_vault = record { files = []; conflicts = [] }

abbrev calls : List (Call Text)
calls =
    Call.creates (codes "a.md") (codes "x\r\n")
    ∷ Call.creates (codes "a.md") (codes "y")
    ∷ Call.writes (codes "a.md") (codes "z") (codes "1x\n")
    ∷ Call.writes (codes "a.md") (codes "w") (codes "1x")
    ∷ Call.reads (codes "a.md")
    ∷ Call.deletes (codes "a.md")
    ∷ Call.lists []
    ∷ []
