-- ===== src/Wiki/Parser.antt =====
-- Reading and writing the text of a page: shared/wiki/parser.py. The YAML of the frontmatter is
-- read by `load`, its `type` by `type_of`, and `validate` is the check against the schema of that
-- type; each has no result where it raises. `build` is pydantic's `model_construct`.
pub mod Laws
use the_watcher.Prelude.{
  ℕ, String, Bool, true, false, not, ◌&&◌, ◌||◌, Option, none, some, List, [], ◌∷◌, ◌++◌,
  if◌then◌else◌, nat_eq, drop,
}
use the_watcher.Text.{Text, codes}
use the_watcher.Text.Search.{starts_with, after_char}
use the_watcher.Wiki.Page.{Section, Page}

-- A page with the text of its frontmatter.
pub record Parsed (F : Type 0) : Type 0 where
  pub page : Page F
  pub frontmatter_raw : Text

-- `---\r?\n` at the start: what follows it.
unfoldable pub after_open : Text → Option Text
after_open t =
    if starts_with (codes "---\n") t
    then some (drop 4 t)
    else if starts_with (codes "---\r\n") t
    then some (drop 5 t)
    else none

-- The shortest text that ends with a newline and stands before three dashes, and the dashes on.
unfoldable pub find_close : Text → Option (Text × Text)
find_close [] = none
find_close (c ∷ t) =
    let later = after_char c (find_close t) in
    if nat_eq c 10 && starts_with (codes "---") t then some (c ∷ [], t) else later

-- `\n?`
unfoldable pub after_newline : Text → Text
after_newline [] = []
after_newline (c ∷ t) = if nat_eq c 10 then t else c ∷ t

-- `\r?\n?`
unfoldable pub after_mark : Text → Text
after_mark [] = []
after_mark (c ∷ t) =
    let returned = after_newline t in if nat_eq c 13 then returned else after_newline (c ∷ t)

unfoldable pub closed : Option (Text × Text) → Option (Text × Text)
closed none = none
closed (some (raw, rest)) = some (raw, after_mark (drop 3 rest))

unfoldable pub opened : Option Text → Option (Text × Text)
opened none = none
opened (some t) = closed (find_close t)

-- The text of the frontmatter, and the page below it.
unfoldable pub frontmatter_match : Text → Option (Text × Text)
frontmatter_match text = opened (after_open text)

-- The lines of a text, with their newlines.
unfoldable pub to_first : ℕ → List Text → List Text
to_first c [] = (c ∷ []) ∷ []
to_first c (l ∷ ls) = (c ∷ l) ∷ ls

unfoldable pub kept_lines : Text → List Text
kept_lines [] = []
kept_lines (c ∷ t) =
    let lines = kept_lines t in if nat_eq c 10 then (c ∷ []) ∷ lines else to_first c lines

is_blank : ℕ → Bool
is_blank c = nat_eq c 32 || nat_eq c 9

-- `[ \t]*\r?\n`
ends_header : Text → Bool
ends_header [] = false
ends_header (c ∷ []) = nat_eq c 10
ends_header (c ∷ d ∷ t) =
    let rest = ends_header (d ∷ t) in if is_blank c then rest else nat_eq c 13 && nat_eq d 10

-- `(.+?)` and the end.
title_to_end : Text → Option Text
title_to_end [] = none
title_to_end (c ∷ t) =
    let rest = title_to_end t in
    if nat_eq c 10 then none else if ends_header t then some (c ∷ []) else or_longer c rest
  where
    or_longer : ℕ → Option Text → Option Text
    or_longer c none = none
    or_longer c (some title) = some (c ∷ title)

-- `[ \t]+(.+?)`: all the blanks, or one less where nothing else is left.
title_after : Text → Option Text
title_after [] = none
title_after (c ∷ t) =
    let rest = title_after t in if is_blank c then or_here rest (title_to_end t) else none
  where
    or_here : Option Text → Option Text → Option Text
    or_here none o = o
    or_here (some title) o = some title

-- The title that a line heads a section with.
unfoldable pub header_title : Text → Option Text
unfolding title_after title_to_end ends_header is_blank
header_title line = if starts_with (codes "##") line then title_after (drop 2 line) else none

unfoldable pub add_line : Text → Option Text → Text × List Section → Text × List Section
add_line line none (before, sections) = (line ++ before, sections)
add_line line (some title) (before, sections) =
    ([], record { title = title; header_raw = line; body = before } ∷ sections)

-- The text before the first section, and the sections.
unfoldable pub gather : List Text → Text × List Section
gather [] = ([], [])
gather (line ∷ lines) = add_line line (header_title line) (gather lines)

unfoldable pub full_texts : List Section → Text
full_texts [] = []
full_texts (s ∷ sections) = (s.header_raw ++ s.body) ++ full_texts sections

-- `dump_page`
unfoldable pub dump_page : {F : Type 0} → Parsed F → Text
dump_page p =
    codes "---\n"
    ++ (p.frontmatter_raw ++ (codes "---\n" ++ (p.page.preamble ++ full_texts p.page.sections)))

module _ {Y F : Type 0} (load : Text → Option Y) (type_of : Y → Option String) where
  unfoldable pub with_front : String → Text → Text → Option F → Option (Parsed F)
  with_front page_type raw rest none = none
  with_front page_type raw rest (some front) =
      let (preamble, sections) = gather (kept_lines rest) in
      some (record {
        page = record {
          page_type = page_type;
          frontmatter = front;
          preamble = preamble;
          sections = sections;
        };
        frontmatter_raw = raw;
      })

  unfoldable pub with_type :
      (String → Y → Option F) → Text → Text → Y → Option String → Option (Parsed F)
  with_type validate raw rest y none = none
  with_type validate raw rest y (some page_type) =
      with_front page_type raw rest (validate page_type y)

  unfoldable pub with_yaml : (String → Y → Option F) → Text → Text → Option Y → Option (Parsed F)
  with_yaml validate raw rest none = none
  with_yaml validate raw rest (some y) = with_type validate raw rest y (type_of y)

  unfoldable pub parse_match : (String → Y → Option F) → Option (Text × Text) → Option (Parsed F)
  parse_match validate none = none
  parse_match validate (some (raw, rest)) = with_yaml validate raw rest (load raw)

  -- `parse_page`
  unfoldable pub parse_page : (String → Y → Option F) → Text → Option (Parsed F)
  parse_page validate text = parse_match validate (frontmatter_match text)
