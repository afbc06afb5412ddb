-- ===== src/Wiki/Neutralise.antt =====
-- `neutralise` of shared/wiki/editor.py: what makes a text safe inside a section.
pub mod Defang
pub mod Laws
use the_watcher.Prelude.{
  ℕ, zero, suc, ◌≡◌, ◌≢◌, refl, ap, sym, ◌∙◌, ◌⊎◌, Bool, true, false, not, ◌&&◌, ◌||◌, inl, inr,
}
use the_watcher.Prelude.{
  List, [], ◌∷◌, ◌++◌, map, arith, nat_eq, if◌then◌else◌, Bool-cases, All, All-map_of,
}
use the_watcher.Text.{
  Text, codes, is_space, lstrip_if, split_on, join_with, Lacks, split_on-Lacks, split_on-join_with,
  split_on_some, join_with-split_on,
}
use the_watcher.Text.Search.{starts_with}

-- `#{1,6}` with a space or the end after it: at most `n` more signs.
unfoldable pub hash_run : ℕ → Text → Bool
hash_run n [] = true
hash_run zero (c ∷ t) = is_space c
hash_run (suc n) (c ∷ t) = if nat_eq c 35 then hash_run n t else is_space c

unfoldable pub opens_heading : Text → Bool
opens_heading [] = false
opens_heading (c ∷ t) = nat_eq c 35 && hash_run 5 t

-- The heading's sign is escaped after an indentation of at most `n` spaces.
unfoldable pub escape_heading : ℕ → Text → Text
escape_heading n [] = []
escape_heading zero (c ∷ t) = if opens_heading (c ∷ t) then 92 ∷ c ∷ t else c ∷ t
escape_heading (suc n) (c ∷ t) =
    let rest = escape_heading n t in
    if is_space c then c ∷ rest else if opens_heading (c ∷ t) then 92 ∷ c ∷ t else c ∷ t

-- A line is a heading after an indentation of at most `n` spaces.
unfoldable pub is_heading : ℕ → Text → Bool
is_heading n [] = false
is_heading zero (c ∷ t) = opens_heading (c ∷ t)
is_heading (suc n) (c ∷ t) =
    let rest = is_heading n t in if is_space c then rest else opens_heading (c ∷ t)

-- The text starts with `p`, and `k` holds of what follows.
unfoldable pub follows : (Text → Bool) → Text → Text → Bool
follows k [] t = k t
follows k (d ∷ p) [] = false
follows k (d ∷ p) (c ∷ t) = nat_eq d c && follows k p t

abbrev pub anything : Text → Bool
anything t = true

-- `\s*/?watcher`
unfoldable pub slash_watcher : Text → Bool
slash_watcher [] = false
slash_watcher (c ∷ t) =
    if nat_eq c 47
    then follows anything (codes "watcher") t
    else follows anything (codes "watcher") (c ∷ t)

unfoldable pub names_watcher : Text → Bool
names_watcher t = slash_watcher (lstrip_if is_space t)

-- `<!--(\s*/?watcher)`
unfoldable pub opens_marker : Text → Bool
opens_marker [] = false
opens_marker (c ∷ t) = nat_eq c 60 && follows names_watcher (codes "!--") t

-- The `<` of each fence marker becomes `&lt;`.
unfoldable pub defang : Text → Text
defang [] = []
defang (c ∷ t) =
    let rest = defang t in if opens_marker (c ∷ t) then codes "&lt;" ++ rest else c ∷ rest

unfoldable pub neutral_line : Text → Text
neutral_line line = defang (escape_heading 3 line)

unfoldable pub neutralise : Text → Text
neutralise text = join_with 10 (map neutral_line (split_on 10 text))

-- A line that is no heading and in which no fence marker stands.
abbrev pub Unmarked : Text → Type 0
Unmarked [] = Unit
Unmarked (c ∷ t) = (opens_marker (c ∷ t) ≡ false) × Unmarked t

pub Inert : Text → Type 0
Inert line = (is_heading 3 line ≡ false) × Unmarked line
