-- ===== src/Wiki/Page.antt =====
-- Pages and their sections (shared/wiki/parser.py), and a section's fence (shared/wiki/editor.py).
-- A page's frontmatter is kept as the values read from it, of a type `F`. A title's case is folded
-- by the table `fold`, and `is_word` is the regular expressions' `\w`.
pub mod Fence
use the_watcher.Prelude.{
  ℕ, zero, suc, String, Bool, true, false, not, ◌&&◌, ◌||◌, Option, none, some, List, [], ◌∷◌, ◌++◌,
  if◌then◌else◌, drop,
}
use the_watcher.Prelude.{◌==◌, nat_is_eq, list_is_eq, nat_eq, contains}
use the_watcher.Text.{Text, codes, strip_if}
use the_watcher.Text.Search.{starts_with, cut_at, after_char}
use the_watcher.Wiki.Schema.{Owner, canonical_section_title}

pub record Section : Type 0 where
  pub title : Text
  pub header_raw : Text
  pub body : Text

pub record Page (F : Type 0) : Type 0 where
  pub page_type : String
  pub frontmatter : F
  pub preamble : Text
  pub sections : List Section

abbrev pub owner_name : Owner → Text
owner_name Owner.human = codes "human"
owner_name Owner.shared = codes "shared"
owner_name Owner.managed = codes "managed"
owner_name Owner.append = codes "append"
owner_name Owner.derived = codes "derived"

abbrev pub fence_close : Text
fence_close = codes "<!-- /watcher -->"

abbrev pub fence_open : Owner → Text
fence_open owner = codes "<!-- watcher:" ++ owner_name owner ++ codes " -->"

abbrev pub is_fenced : Owner → Bool
is_fenced Owner.human = false
is_fenced Owner.shared = false
is_fenced Owner.managed = true
is_fenced Owner.append = true
is_fenced Owner.derived = true

-- `text.strip("\n")`
pub strip_newlines : Text → Text
strip_newlines t = strip_if (λ c. nat_eq c 10) t

-- Whether a text ends with a newline.
unfoldable pub ends_line : Text → Bool
ends_line [] = false
ends_line (c ∷ []) = nat_eq c 10
ends_line (c ∷ d ∷ t) = ends_line (d ∷ t)

-- `_inner`: the text on lines of its own.
unfoldable pub on_lines : Text → Text
on_lines [] = []
on_lines (c ∷ t) = (c ∷ t) ++ 10 ∷ []

unfoldable pub inner_of : Text → Text
inner_of text = on_lines (strip_newlines text)

-- `content` is an empty or a whole text of a new section.
unfoldable pub skeleton_body : Owner → Text → Bool → Text
skeleton_body owner content last =
    if is_fenced owner
    then fence_open owner ++ 10 ∷ (on_lines content ++ (fence_close ++ 10 ∷ []))
    else if contains ([] ∷ []) content
    then (if last then [] else 10 ∷ [])
    else content ++ (if last then 10 ∷ [] else 10 ∷ 10 ∷ [])

module _ (is_word : ℕ → Bool) where
  -- What follows ` -->\n?`, with what was read.
  abbrev end_of_open : Text → Option (Text × Text)
  end_of_open t =
      if starts_with (codes " -->\n") t
      then some (codes " -->\n", drop 5 t)
      else if starts_with (codes " -->") t
      then some (codes " -->", drop 4 t)
      else none

  abbrev read_char : ℕ → Option (Text × Text) → Option (Text × Text)
  read_char c o = after_char c o

  -- `\w*` and the end of the mark.
  unfoldable pub word_end : Text → Option (Text × Text)
  word_end [] = none
  word_end (c ∷ t) =
      let rest = word_end t in if is_word c then read_char c rest else end_of_open (c ∷ t)

  -- `\w+` and the end.
  abbrev word_from : Text → Option (Text × Text)
  word_from [] = none
  word_from (c ∷ t) = if is_word c then read_char c (word_end t) else none

  abbrev pub prefixed : Text → Option (Text × Text) → Option (Text × Text)
  prefixed p none = none
  prefixed p (some (a, b)) = some (p ++ a, b)

  -- The opening mark at the start of a text: the mark and what follows.
  unfoldable pub open_here : Text → Option (Text × Text)
  open_here t =
      if starts_with (codes "<!-- watcher:") t
      then prefixed (codes "<!-- watcher:") (word_from (drop 13 t))
      else none

  abbrev pub or_later : Option (Text × Text) → Option (Text × Text) → Option (Text × Text)
  or_later (some here) later = some here
  or_later none later = later

  -- The text up to the end of the first opening mark, and what follows.
  unfoldable pub find_open : Text → Option (Text × Text)
  find_open [] = open_here []
  find_open (c ∷ t) = or_later (open_here (c ∷ t)) (after_char c (find_open t))

  -- A section without a whole fence gets one after what a person left there.
  unfoldable pub new_fence : Text → Owner → Text × Text × Text
  new_fence body owner =
      let before = if contains ([] ∷ []) body || ends_line body then body else body ++ 10 ∷ [] in
      (before ++ (fence_open owner ++ 10 ∷ []), [], fence_close ++ 10 ∷ [])

  unfoldable pub close_after : Text → Owner → Text → Option (Text × Text) → Text × Text × Text
  close_after body owner before none = new_fence body owner
  close_after body owner before (some (inner, after)) = (before, inner, after)

  unfoldable pub fence_parts : Text → Owner → Option (Text × Text) → Text × Text × Text
  fence_parts body owner none = new_fence body owner
  fence_parts body owner (some (before, rest)) =
      close_after body owner before (cut_at fence_close rest)

  -- `_split_fence`
  unfoldable pub split_fence : Text → Owner → Text × Text × Text
  split_fence body owner = fence_parts body owner (find_open body)

  unfoldable pub up_to_close : Text → Option (Text × Text) → Text
  up_to_close rest none = rest
  up_to_close rest (some (inner, after)) = inner

  unfoldable pub content_in : Option (Text × Text) → Text
  content_in none = []
  content_in (some (before, rest)) = strip_newlines (up_to_close rest (cut_at fence_close rest))

module _ (fold : ℕ → Text) where
  -- A section goes by the canonical title.
  unfoldable pub goes_by : String → Text → Section → Bool
  goes_by page_type canonical s = canonical_section_title fold page_type s.title == canonical

  unfoldable pub section_named : String → Text → List Section → Option Section
  section_named page_type canonical [] = none
  section_named page_type canonical (s ∷ sections) =
      let rest = section_named page_type canonical sections in
      if goes_by page_type canonical s then some s else rest

  unfoldable pub section : {F : Type 0} → Page F → Text → Option Section
  section page title =
      section_named page.page_type (canonical_section_title fold page.page_type title) page.sections
