-- ===== src/Wiki/Editor.antt =====
-- The page editor: shared/wiki/editor.py. `none` is a SectionOwnershipError.
pub mod Laws
use the_watcher.Prelude.{
  ℕ, String, Bool, true, false, not, ◌&&◌, ◌||◌, Option, none, some, List, [], ◌∷◌, ◌++◌, map,
  if◌then◌else◌,
}
use the_watcher.Prelude.{◌==◌, nat_is_eq, list_is_eq, nat_eq, contains}
use the_watcher.Prelude.Dict.{keys}
use the_watcher.Text.{Text, codes, is_space, strip_if, rstrip_if, split_on, join_with}
use the_watcher.Text.Search.{starts_with}
use the_watcher.Wiki.Neutralise.{neutralise}
use the_watcher.Wiki.Schema.{Owner, owners_of, canonical_section_title, owner_of}
use the_watcher.Wiki.Page.{
  Section, Page, ends_line, inner_of, skeleton_body, split_fence, content_in, find_open, goes_by,
  section, strip_newlines,
}

-- A place among the sections of a page: those before, the section, and those after.
pub record Spot : Type 0 where
  pub preamble : Text
  pub left : List Section
  pub here : Section
  pub right : List Section

abbrev pub further : Section → Option Spot → Option Spot
further s none = none
further s (some spot) = some (record spot { left = s ∷ spot.left })

abbrev pub sections_of : Spot → List Section
sections_of spot = spot.left ++ spot.here ∷ spot.right

abbrev after_key : Text → List Text → List Text
after_key k [] = []
after_key k (t ∷ titles) = let rest = after_key k titles in if t == k then titles else rest

abbrev with_newline : Text → Text
with_newline t = if ends_line t then t else t ++ 10 ∷ []

-- The last section before the new one ends with a newline.
close_last : List Section → List Section
close_last [] = []
close_last (s ∷ []) = record s { body = with_newline s.body } ∷ []
close_last (s ∷ t ∷ sections) = s ∷ close_last (t ∷ sections)

close_preamble : List Section → Text → Text
close_preamble [] [] = []
close_preamble [] (c ∷ t) = with_newline (c ∷ t)
close_preamble (s ∷ sections) t = t

unfoldable pub insert_spot : Text → Owner → Text → List Section × List Section → Spot
unfolding close_last close_preamble
insert_spot canonical owner preamble (left, right) = record {
  preamble = close_preamble left preamble;
  left = close_last left;
  here = record {
    title = canonical;
    header_raw = codes "## " ++ canonical ++ 10 ∷ [];
    body = skeleton_body owner [] false;
  };
  right = right;
}

unfoldable pub or_inserted : Option Spot → Spot → Spot
or_inserted (some spot) inserted = spot
or_inserted none inserted = inserted

-- `_set_body` of the section at the spot.
unfoldable pub set_body : {F : Type 0} → Page F → Spot → Text → Page F
set_body page spot body = record page {
  preamble = spot.preamble;
  sections = sections_of (record spot { here = record spot.here { body = body } });
}

abbrev pub may_rewrite : Owner → Bool
may_rewrite Owner.human = false
may_rewrite Owner.shared = false
may_rewrite Owner.managed = true
may_rewrite Owner.append = false
may_rewrite Owner.derived = true

abbrev pub may_append : Bool → Owner → Bool
may_append allow_human Owner.human = allow_human
may_append allow_human Owner.shared = true
may_append allow_human Owner.managed = false
may_append allow_human Owner.append = true
may_append allow_human Owner.derived = false

-- `_require`: the owner, if the schema knows the section and the write is allowed to it.
unfoldable pub allowed : (Owner → Bool) → Option Owner → Option Owner
allowed may none = none
allowed may (some owner) = if may owner then some owner else none

unfoldable pub rewritten : Text → Text × Text × Text → Text
rewritten body (before, inner, after) = before ++ (inner_of (neutralise body) ++ after)

unfoldable pub grown : Text → Text × Text × Text → Text
grown addition (before, inner, after) = before ++ (inner_of (inner ++ 10 ∷ addition) ++ after)

-- The end of a section that is the last one, or is not.
abbrev pub tail_of : List Section → Text
tail_of [] = []
tail_of (s ∷ sections) = 10 ∷ []

unfoldable pub at_end : List Section → Text → Text → Text
at_end right [] addition = addition ++ (10 ∷ tail_of right)
at_end right (c ∷ kept) addition = (c ∷ kept) ++ (10 ∷ (addition ++ (10 ∷ tail_of right)))

module _ (fold : ℕ → Text) where
  unfoldable pub find_spot : String → Text → Text → List Section → Option Spot
  find_spot page_type canonical preamble [] = none
  find_spot page_type canonical preamble (s ∷ sections) =
      let rest = find_spot page_type canonical preamble sections in
      if goes_by fold page_type canonical s
      then some (record { preamble = preamble; left = []; here = s; right = sections })
      else further s rest

  -- The sections before the first one that the schema puts later, and the others.
  insert_at : String → List Text → List Section → List Section × List Section
  insert_at page_type later [] = ([], [])
  insert_at page_type later (s ∷ sections) =
      let (left, right) = insert_at page_type later sections in
      if contains later (canonical_section_title fold page_type s.title)
      then ([], s ∷ sections)
      else (s ∷ left, right)

  -- `_with_section`
  unfoldable pub with_section : {F : Type 0} → Page F → Text → Owner → Spot
  unfolding insert_at
  with_section page title owner =
      let canonical = canonical_section_title fold page.page_type title in
      let later = after_key canonical (keys (owners_of page.page_type)) in
      or_inserted (find_spot page.page_type canonical page.preamble page.sections)
        (insert_spot canonical owner page.preamble (insert_at page.page_type later page.sections))

  module _ (is_word : ℕ → Bool) where
    unfoldable pub content_of : Option Section → Text
    content_of none = []
    content_of (some s) = content_in is_word (find_open is_word s.body)

    unfoldable pub fenced_content : {F : Type 0} → Page F → Text → Text
    fenced_content page title = content_of (section fold page title)

    unfoldable pub rewrite_as : {F : Type 0} → Page F → Text → Text → Option Owner → Option (Page F)
    rewrite_as page title body none = none
    rewrite_as page title body (some owner) =
        let spot = with_section page title owner in
        some (set_body page spot (rewritten body (split_fence is_word spot.here.body owner)))

    unfoldable pub set_fenced : {F : Type 0} → Page F → Text → Text → Option (Page F)
    set_fenced page title body =
        rewrite_as page title body (allowed may_rewrite (owner_of fold page.page_type title))

    unfoldable pub append_to : Owner → Spot → Text → Text
    append_to Owner.append spot addition =
        grown addition (split_fence is_word spot.here.body Owner.append)
    append_to owner spot addition =
        at_end spot.right (rstrip_if (λ c. nat_eq c 10) spot.here.body) addition

    unfoldable pub append_as :
        {F : Type 0} → Page F → Text → List Text → Option Owner → Option (Page F)
    append_as page title lines none = none
    append_as page title [] (some owner) = some page
    append_as page title (line ∷ lines) (some owner) =
        let spot = with_section page title owner in
        let addition =
          neutralise (join_with 10 (map (rstrip_if (λ c. nat_eq c 10)) (line ∷ lines))) in
        some (set_body page spot (append_to owner spot addition))

    unfoldable pub append_lines : {F : Type 0} → Page F → Text → List Text → Bool → Option (Page F)
    append_lines page title lines allow_human =
        append_as page title lines
          (allowed (may_append allow_human) (owner_of fold page.page_type title))
